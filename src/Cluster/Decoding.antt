-- ===== src/Cluster/Decoding.antt =====
-- The decoders of internal/cluster/codec.go on whatever a peer sends.
use bouine.Prelude.{
  ℕ, zero, suc, Bool, not, ◌==◌, ◌+◌, ◌≤◌, ◌<◌, [], ◌∷◌, ◌≡◌, refl, ◌≢◌, ◌⊎◌, inl, inr, true, arith,
  length, take, drop, ltb, leb, Bool-cases,
}
use bouine.Prelude.Bytes.{Bytes}
use bouine.Prelude.Int.{ℤ, signed64}
use bouine.Cluster.Wire.{
  Error, Outcome, ok, err, panic, ◌>>=◌, ◌>>◌, room, slice, load, load_time, read_string,
  decode_frame, hdr_len, byte_at, fail_if, check_type, le_value, decode_time, short_frame,
  bad_magic, unsupported_ver, binary_magic, binary_version,
}
use bouine.Cluster.Events.{
  decode_purge_payload, decode_ban_payload, decode_refresh_payload, decode_purge_gossip,
  decode_purge_http, decode_ban_gossip, decode_ban_http, decode_refresh_gossip, decode_refresh_http,
}

-- The code that runs without an index out of bounds.
abbrev pub Returns {ℓ} : {A : Type ℓ} → Outcome A → Type ℓ
Returns m = m ≢ panic

room_cases :
    (buf : Bytes) (off n : ℕ)
    → (room buf off n ≡ err short_frame) ⊎ ((room buf off n ≡ ok tt) × (off + n ≤ length buf))
unfolding room
room_cases buf off n = elim (Bool-cases (ltb (length buf) (off + n))) [
  | inl e ↦ inl (rw e refl)
  | inr e ↦ inr (rw e refl, ground (arith, e))
]

slice_inside :
    (buf : Bytes) (off n : ℕ)
    → off + n ≤ length buf
    → (slice buf off n ≡ ok (take n (drop off buf)))
      × (load n buf off ≡ ok (le_value (take n (drop off buf))))
unfolding load slice
slice_inside buf off n h =
    let inside : leb (off + n) (length buf) ≡ true = ground (arith, h) in
    (rw inside refl, rw inside refl)

-- An error, or a string, that ends inside the buffer.
read_string_cases :
    (buf : Bytes) (off : ℕ)
    → (read_string buf off ≡ err short_frame)
      ⊎ ((r : Bytes × ℕ) × ((read_string buf off ≡ ok r) × (r.1 ≤ length buf)))
unfolding read_string
read_string_cases buf off = elim (room_cases buf off 2) [
  | inl e ↦ inl (rw e refl)
  | inr (e, fits) ↦
      let n : ℕ = le_value (take 2 (drop off buf)) in
      elim (room_cases buf (off + 2) n) [
        | inl e' ↦ inl (rw (e, (slice_inside buf off 2 fits).1, e') refl)
        | inr (e', fits') ↦ inr (
          (take n (drop (off + 2) buf), off + 2 + n),
          (
            rw (e, (slice_inside buf off 2 fits).1, e', (slice_inside buf (off + 2) n fits').0)
                refl,
            fits',
          ),
        )
      ]
]

module _ {ℓ} {A : Type ℓ} where
  err-Returns : (e : Error) → Returns {A = A} (err e)
  err-Returns e h = ground arith

  ok-Returns : (a : A) → Returns (ok a)
  ok-Returns a h = ground arith

  module _ (buf : Bytes) where
    room_then :
        (off n : ℕ) (k : Outcome A)
        → (off + n ≤ length buf → Returns k)
        → Returns (room buf off n >> k)
    room_then off n k h = elim (room_cases buf off n) [
      | inl e ↦ rw e (err-Returns short_frame)
      | inr (e, fits) ↦ rw e (h fits)
    ]

    slice_then :
        (off n : ℕ) (f : Bytes → Outcome A)
        → off + n ≤ length buf
        → ((s : Bytes) → Returns (f s))
        → Returns (slice buf off n >>= f)
    slice_then off n f inside h = rw (slice_inside buf off n inside).0 (h (take n (drop off buf)))

    load_then :
        (off n : ℕ) (f : ℕ → Outcome A)
        → off + n ≤ length buf
        → ((w : ℕ) → Returns (f w))
        → Returns (load n buf off >>= f)
    load_then off n f inside h =
        rw (slice_inside buf off n inside).1 (h (le_value (take n (drop off buf))))

    load_time_then :
        (off : ℕ) (f : ℤ → Outcome A)
        → off + 8 ≤ length buf
        → ((t : ℤ) → Returns (f t))
        → Returns (load_time buf off >>= f)
    unfolding load_time
    load_time_then off f inside h =
        rw (slice_inside buf off 8 inside).1
          (h (decode_time (signed64 (le_value (take 8 (drop off buf))))))

    read_string_then :
        (off : ℕ) (f : Bytes × ℕ → Outcome A)
        → ((r : Bytes × ℕ) → Returns (f r))
        → Returns (read_string buf off >>= f)
    read_string_then off f h = elim (read_string_cases buf off) [
      | inl e ↦ rw e (err-Returns short_frame)
      | inr (r, (e, fits)) ↦ rw e (h r)
    ]

-- The end of the three payloads: the time and the number of the event.
stamp_then {ℓ} :
    {A : Type ℓ} (buf : Bytes) (off : ℕ) (f : ℤ → ℕ → A)
    → Returns
        (room buf off 16 >> (load_time buf off >>= λ t. load 8 buf (off + 8) >>= λ n. ok (f t n)))
stamp_then buf off f = room_then buf off 16 _ (λ fits.
    load_time_then buf off _ (omega arith)
      (λ t. load_then buf (off + 8) 8 _ (omega arith) (λ n. ok-Returns (f t n))))

decode_purge_payload-Returns : (buf : Bytes) (off : ℕ) → Returns (decode_purge_payload buf off)
unfolding decode_purge_payload
decode_purge_payload-Returns buf off = room_then buf off 16 _ (λ fits.
    slice_then buf off 16 _ fits (λ key.
      read_string_then buf (off + 16) _
        (λ vary. read_string_then buf vary.1 _ (λ issuer. stamp_then buf issuer.1 _))))

decode_refresh_payload-Returns : (buf : Bytes) (off : ℕ) → Returns (decode_refresh_payload buf off)
unfolding decode_refresh_payload
decode_refresh_payload-Returns buf off = room_then buf off 16 _ (λ fits.
    slice_then buf off 16 _ fits
      (λ key. read_string_then buf (off + 16) _ (λ issuer. stamp_then buf issuer.1 _)))

decode_ban_payload-Returns : (buf : Bytes) (off : ℕ) → Returns (decode_ban_payload buf off)
unfolding decode_ban_payload
decode_ban_payload-Returns buf off = read_string_then buf off _ (λ host.
    read_string_then buf host.1 _ (λ path. read_string_then buf path.1 _ (λ surrogate.
      room_then buf surrogate.1 8 _ (λ fits. load_time_then buf surrogate.1 _ fits (λ created.
        read_string_then buf (surrogate.1 + 8) _ (λ issuer. stamp_then buf issuer.1 _))))))

byte_inside : (buf : Bytes) (i : ℕ) → i < length buf → (b : ℕ) × (byte_at buf i ≡ ok b)
unfolding byte_at
byte_inside [] i h = absurd (omega (arith, h))
byte_inside (b ∷ buf) zero h = (b, refl)
byte_inside (b ∷ buf) (suc i) h = byte_inside buf i (omega (arith, h))

-- The header is long enough for the type byte where a type is wanted.
check_type-Returns :
    (buf : Bytes) (want_type : ℕ)
    → hdr_len want_type ≤ length buf
    → Returns (check_type buf want_type)
unfolding check_type hdr_len
check_type-Returns buf zero h e = ground (arith, e)
check_type-Returns buf (suc t) h e =
    let long : 3 ≤ length buf = ground (arith, h) in
    let (got, at) = byte_inside buf 2 (omega (arith, long)) in
    let e' = rw at at e in ground (arith, e')

then-Returns {ℓ} :
    {A : Type ℓ} (m : Outcome (Unit {0})) (next : Outcome A)
    → Returns m
    → Returns next
    → Returns (m >> next)
then-Returns (ok u) next h k e = k e
then-Returns (err x) next h k e = ground (arith, e)
then-Returns panic next h k e = absurd (h refl)

fail_if-Returns : (test : Bool) (x : Error) → Returns (fail_if test x)
fail_if-Returns test x e = ground (arith, e)

decode_frame-Returns {ℓ} :
    {A : Type ℓ} (buf : Bytes) (want_type : ℕ) (decode : Bytes → ℕ → Outcome A)
    → Returns (decode buf (hdr_len want_type))
    → Returns (decode_frame buf want_type decode)
unfolding decode_frame
decode_frame-Returns buf want_type decode h =
    elim (Bool-cases (ltb (length buf) (hdr_len want_type))) [
      | inl short ↦ rw short λ e. ground (arith, e)
      | inr long ↦
          let two : 2 ≤ hdr_len want_type = unfold hdr_len in ground arith in
          let fits : hdr_len want_type ≤ length buf = ground (arith, long) in
          let (magic, at0) = byte_inside buf 0 (omega (arith, two, fits)) in
          let (version, at1) = byte_inside buf 1 (omega (arith, two, fits)) in
          rw (long, at0, at1)
            (then-Returns _ _ (fail_if-Returns (not (magic == binary_magic)) bad_magic) (
              then-Returns _ _
                (fail_if-Returns (not (version == binary_version)) (unsupported_ver version))
                (then-Returns _ _ (check_type-Returns buf want_type fits) h)))
    ]

-- No bytes that a peer sends make a decoder of an event index out of its buffer: it returns the
-- event or an error.
pub decoders-Returns :
    (buf : Bytes)
    → (Returns (decode_purge_gossip buf) × Returns (decode_purge_http buf))
      × (Returns (decode_ban_gossip buf) × Returns (decode_ban_http buf))
      × (Returns (decode_refresh_gossip buf) × Returns (decode_refresh_http buf))
unfolding decode_purge_gossip decode_purge_http decode_ban_gossip decode_ban_http
    decode_refresh_gossip decode_refresh_http
decoders-Returns buf = (
  (
    decode_frame-Returns buf 1 _ (decode_purge_payload-Returns buf _),
    decode_frame-Returns buf 0 _ (decode_purge_payload-Returns buf _),
  ),
  (
    decode_frame-Returns buf 2 _ (decode_ban_payload-Returns buf _),
    decode_frame-Returns buf 0 _ (decode_ban_payload-Returns buf _),
  ),
  (
    decode_frame-Returns buf 3 _ (decode_refresh_payload-Returns buf _),
    decode_frame-Returns buf 0 _ (decode_refresh_payload-Returns buf _),
  ),
)
