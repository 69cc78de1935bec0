-- ===== src/Cluster/Digest.antt =====
-- internal/cluster/codec.go: the ring digest of a push/pull exchange. `Size` is an int.
use bouine.Prelude.{
  ℕ, ◌+◌, ◌<◌, ◌^◌, ◌≡◌, refl, [], ◌∷◌, ◌++◌, arith, ltb, ◌==◌, not, length, replicate,
}
use bouine.Prelude.Bytes.{Bytes}
use bouine.Prelude.Int.{ℤ, IsInt64, bits64, bits64-lt, signed64, signed64-bits64}
use bouine.Cluster.Wire.{
  Outcome, ok, err, ◌>>=◌, Cursor, store, put_uint64, load, put_header, short_frame, bad_magic,
  unsupported_ver, binary_magic, binary_version, binary_hdr_len, encode_frame, byte_at, fail_if,
  ◌>>◌,
}
use bouine.Cluster.Cursor.{word_bytes, Puts, Puts-bind, put_uint64-Puts}
use bouine.Cluster.Reads.{At, At-step, At-word}

pub record RingDigest : Type 0 where
  pub hash : ℕ
  pub size : ℤ
  pub version : ℕ

unfoldable pub encode_ring_digest_payload : RingDigest → Cursor → Outcome Cursor
encode_ring_digest_payload d c = do
  c ← put_uint64 c d.hash
  c ← put_uint64 c (bits64 d.size)
  put_uint64 c d.version

-- The buffer has room for the header and 24 bytes, and all of it is the frame.
unfoldable pub encode_ring_digest_state : RingDigest → Outcome Bytes
encode_ring_digest_state d = do
  c ← store (record { buf = replicate (binary_hdr_len + 24) 0; off = 0 }) (binary_magic ∷ [])
  c ← store c (binary_version ∷ [])
  c ← encode_ring_digest_payload d c
  ok c.buf

unfoldable pub decode_ring_digest_state : Bytes → Outcome RingDigest
decode_ring_digest_state buf = do
  fail_if (ltb (length buf) (binary_hdr_len + 24)) short_frame
  magic ← byte_at buf 0
  fail_if (not (magic == binary_magic)) bad_magic
  version ← byte_at buf 1
  fail_if (not (version == binary_version)) (unsupported_ver version)
  hash ← load 8 buf binary_hdr_len
  size ← load 8 buf (binary_hdr_len + 8)
  version ← load 8 buf (binary_hdr_len + 16)
  ok (record { hash = hash; size = signed64 size; version = version })

-- The digests that Go can hold.
pub record IsDigest (d : RingDigest) : Type 0 where
  pub hash : d.hash < 2 ^ 64
  pub size : IsInt64 d.size
  pub version : d.version < 2 ^ 64

abbrev digest_bytes : RingDigest → Bytes
digest_bytes d = word_bytes d.hash ++ (word_bytes (bits64 d.size) ++ word_bytes d.version)

payload-Puts : (d : RingDigest) → Puts (encode_ring_digest_payload d) (digest_bytes d)
unfolding encode_ring_digest_payload
payload-Puts d =
    Puts-bind (λ c. put_uint64 c d.hash) _ (put_uint64-Puts d.hash)
      (Puts-bind (λ c. put_uint64 c (bits64 d.size)) (λ c. put_uint64 c d.version)
        (put_uint64-Puts (bits64 d.size)) (put_uint64-Puts d.version))

frame_made :
    (d : RingDigest)
    → encode_ring_digest_state d ≡ ok (binary_magic ∷ binary_version ∷ digest_bytes d)
unfolding encode_ring_digest_state store bouine.Cluster.Wire.write
frame_made d =
    rw (payload-Puts d (binary_magic ∷ binary_version ∷ []) (replicate 24 0) (omega arith)) refl

-- Every digest of uint64 numbers and an int size is decoded from its frame as it was sent.
pub decode_ring_digest-encode_ring_digest :
    (d : RingDigest) → IsDigest d → (encode_ring_digest_state d >>= decode_ring_digest_state) ≡ ok d
unfolding decode_ring_digest_state byte_at
decode_ring_digest-encode_ring_digest d h =
    let buf : Bytes = binary_magic ∷ binary_version ∷ digest_bytes d in
    let rest = word_bytes (bits64 d.size) ++ word_bytes d.version in
    let at_hash : At buf 2 (digest_bytes d) = record { rest_eq = refl; inside = refl } in
    let at_size : At buf 10 rest = At-step (word_bytes d.hash) rest at_hash in
    let at_version : At buf 18 (word_bytes d.version) =
      At-step (word_bytes (bits64 d.size)) (word_bytes d.version) at_size in
    rw
      (
        frame_made d,
        At-word d.hash rest at_hash h.hash,
        At-word (bits64 d.size) (word_bytes d.version) at_size (bits64-lt d.size),
        At-word d.version [] at_version h.version,
        signed64-bits64 d.size h.size,
      )
      refl
