-- ===== src/Cluster/Frames.antt =====
-- A frame of internal/cluster/codec.go around any payload.
use bouine.Prelude.{
  drop-append, ℕ, zero, suc, ◌+◌, ◌≡◌, refl, true, false, ◌++◌, arith, length, ltb, ◌==◌,
}
use bouine.Prelude.Bytes.{Bytes}
use bouine.Cluster.Wire.{
  Outcome, ok, ◌>>=◌, Cursor, encode_frame, decode_frame, hdr_len, byte_at, check_type,
}
use bouine.Cluster.Cursor.{header_bytes, Puts, encode_frame-Puts, length-append_bytes, string_bytes}
use bouine.Cluster.Reads.{At}

pub length-string_bytes :
    (s rest : Bytes) → length (string_bytes s ++ rest) ≡ 2 + length s + length rest
length-string_bytes s rest = omega (arith, length-append_bytes s rest)

payload_At : (header payload : Bytes) → At (header ++ payload) (length header) payload
payload_At header payload = record {
  rest_eq = drop-append header payload;
  inside = omega (arith, length-append_bytes header payload);
}

decode_frame-header {ℓ} :
    {A : Type ℓ} (msg_type : ℕ) (payload : Bytes) (decode : Bytes → ℕ → Outcome A)
    → decode_frame (header_bytes msg_type ++ payload) msg_type decode
      ≡ decode (header_bytes msg_type ++ payload) (length (header_bytes msg_type))
unfolding decode_frame hdr_len byte_at check_type
decode_frame-header zero payload decode =
    let long : ltb (suc (suc (length payload))) 2 ≡ false = ground arith in rw long refl
decode_frame-header (suc t) payload decode =
    let long : ltb (suc (suc (suc (length payload)))) 3 ≡ false = ground arith in
    let typed : (suc t == 0) ≡ false = ground arith in
    let same : (suc t == suc t) ≡ true = ground arith in rw (typed, long, same) refl

-- What is written of a payload, behind the header of its type, is what is read of it.
pub decode_frame-encode_frame {ℓ} :
    {A : Type ℓ} {total : ℕ} (msg_type : ℕ) (put : Cursor → Outcome Cursor) {bs : Bytes}
    (decode : Bytes → ℕ → Outcome A) {a : A}
    → Puts put bs
    → total ≡ length (header_bytes msg_type) + length bs
    → ((buf : Bytes) (off : ℕ) → At buf off bs → decode buf off ≡ ok a)
    → (encode_frame total msg_type put >>= λ buf. decode_frame buf msg_type decode) ≡ ok a
decode_frame-encode_frame {total = total} msg_type put {bs = bs} decode puts size reads =
    let hdr = header_bytes msg_type in
    rw
      (
        encode_frame-Puts total msg_type put bs puts
            (omega (arith, size, length-append_bytes hdr bs)),
        decode_frame-header msg_type bs decode,
      )
      (reads (hdr ++ bs) (length hdr) (payload_At hdr bs))
