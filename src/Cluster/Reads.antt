-- ===== src/Cluster/Reads.antt =====
-- What the reads of internal/cluster/codec.go find in a buffer that holds the bytes of a field.
use bouine.Prelude.{
  drop-append, take-append, drop-drop, ℕ, zero, suc, ◌+◌, ◌*◌, ◌/◌, ◌%◌, ◌^◌, ◌≤◌, ◌<◌, ◌≡◌, refl,
  ap, sym, ◌≢◌, ◌⊎◌, inl, inr, true, false, ◌++◌, arith, length, length-append, drop, Bool-cases,
}
use bouine.Prelude.Bytes.{Bytes}
use bouine.Prelude.Int.{
  ℤ, pos, ◌+ℤ◌, ◌-ℤ◌, eq_ℤ, wrap64_fits, bits64, signed64-bits64, bits64-lt, IsInt64, int_laws,
  eq_of_parts, pos_part, neg_part, wrap64-IsInt64,
}
use bouine.Cluster.Wire.{
  ok, le_bytes, le_value, room, slice, load, load_time, read_string, encode_time, decode_time,
  unix_epoch, max_string_len,
}
use bouine.Cluster.Cursor.{word_bytes, time_bytes, string_bytes}

-- These bytes stand at the offset, to the end of the buffer.
pub record At (buf : Bytes) (off : ℕ) (xs : Bytes) : Type 0 where
  pub rest_eq : drop off buf ≡ xs
  pub inside : off + length xs ≡ length buf

pub At-step :
    {buf : Bytes} {off : ℕ} (bs rest : Bytes)
    → At buf off (bs ++ rest)
    → At buf (off + length bs) rest
At-step {buf = buf} {off = off} bs rest h = record {
  rest_eq = rw (sym (drop-drop off (length bs) buf), h.rest_eq) (drop-append bs rest);
  inside = omega (arith, h.inside, length-append bs rest);
}

pub At-room :
    {buf : Bytes} {off : ℕ} {xs : Bytes} (n : ℕ)
    → At buf off xs
    → n ≤ length xs
    → room buf off n ≡ ok tt
unfolding room
At-room n h fits = ground (arith, h.inside)

pub At-slice :
    {buf : Bytes} {off : ℕ} (bs rest : Bytes)
    → At buf off (bs ++ rest)
    → slice buf off (length bs) ≡ ok bs
unfolding slice
At-slice {buf = buf} {off = off} bs rest h =
    rw (h.rest_eq, take-append bs rest) (ground (arith, h.inside, length-append bs rest))

abbrev pub limit : ℕ → ℕ
limit zero = 1
limit (suc n) = 256 * limit n

le_value-le_bytes : (n w : ℕ) → w < limit n → le_value (le_bytes n w) ≡ w
le_value-le_bytes zero w h = omega arith
le_value-le_bytes (suc n) w h = omega (arith, le_value-le_bytes n (w / 256) (omega arith))

length-le_bytes : (n w : ℕ) → length (le_bytes n w) ≡ n
length-le_bytes zero w = refl
length-le_bytes (suc n) w = ap suc (length-le_bytes n (w / 256))

pub At-load :
    {buf : Bytes} {off : ℕ} (n w : ℕ) (rest : Bytes)
    → At buf off (le_bytes n w ++ rest)
    → w < limit n
    → load n buf off ≡ ok w
unfolding load
At-load {buf = buf} {off = off} n w rest h small =
    let sliced : slice buf off n ≡ ok (le_bytes n w) =
      rw (length-le_bytes n w) at (At-slice (le_bytes n w) rest h) in
    rw (sliced, le_value-le_bytes n w small) refl

pub At-word :
    {buf : Bytes} {off : ℕ} (w : ℕ) (rest : Bytes)
    → At buf off (word_bytes w ++ rest)
    → w < 2 ^ 64
    → load 8 buf off ≡ ok w
At-word w rest h small = At-load 8 w rest h (omega arith)

-- The times that a frame carries: the zero time, or one that is not the epoch and whose distance
-- to the epoch in nanoseconds fits an int64.
abbrev pub IsWireTime : ℤ → Type 0
IsWireTime t = (t ≡ pos 0) ⊎ ((t ≢ unix_epoch) × IsInt64 (t -ℤ unix_epoch))

encode_time-IsInt64 : (t : ℤ) → IsInt64 (encode_time t)
unfolding encode_time
encode_time-IsInt64 t = ground (arith, wrap64-IsInt64 (t -ℤ unix_epoch))

at_epoch : (t : ℤ) → eq_ℤ (t -ℤ unix_epoch) (pos 0) ≡ true → t ≡ unix_epoch
at_epoch t e =
    let parts : pos_part (t -ℤ unix_epoch) ≡ neg_part (t -ℤ unix_epoch) = ground (arith, e) in
    omega int_laws

not_epoch : (t : ℤ) → t ≢ unix_epoch → eq_ℤ (t -ℤ unix_epoch) (pos 0) ≡ false
not_epoch t h = elim (Bool-cases (eq_ℤ (t -ℤ unix_epoch) (pos 0))) [
  | inl e ↦ absurd (h (at_epoch t e))
  | inr e ↦ e
]

pub decode_time-encode_time : (t : ℤ) → IsWireTime t → decode_time (encode_time t) ≡ t
unfolding decode_time encode_time
decode_time-encode_time t (inl zero_time) = rw zero_time refl
decode_time-encode_time t (inr (off_epoch, fits)) =
    let sum : unix_epoch +ℤ (t -ℤ unix_epoch) ≡ t = omega int_laws in
    let apart : eq_ℤ (t -ℤ unix_epoch) (pos 0) ≡ false = not_epoch t off_epoch in
    elim (Bool-cases (eq_ℤ t (pos 0))) [
      | inl e ↦ rw (e, eq_of_parts t (pos 0) (ground (arith, e))) refl
      | inr e ↦ rw (e, wrap64_fits (t -ℤ unix_epoch) fits, apart) sum
    ]

pub At-time :
    {buf : Bytes} {off : ℕ} (t : ℤ) (rest : Bytes)
    → At buf off (time_bytes t ++ rest)
    → IsWireTime t
    → load_time buf off ≡ ok t
unfolding load_time
At-time t rest h wire =
    rw
      (
        At-word (bits64 (encode_time t)) rest h (bits64-lt (encode_time t)),
        signed64-bits64 (encode_time t) (encode_time-IsInt64 t),
        decode_time-encode_time t wire,
      )
      refl

pub At-string :
    {buf : Bytes} {off : ℕ} (s rest : Bytes)
    → At buf off (string_bytes s ++ rest)
    → length s ≤ max_string_len
    → read_string buf off ≡ ok (s, off + 2 + length s)
unfolding read_string
At-string {buf = buf} {off = off} s rest h small =
    let prefix = le_bytes 2 (length s % 2 ^ 16) in
    let whole : At buf off (prefix ++ (s ++ rest)) = h in
    let short : length s % 2 ^ 16 ≡ length s = omega (arith, small) in
    let body : At buf (off + 2) (s ++ rest) = At-step prefix (s ++ rest) whole in
    rw
      (
        At-room 2 whole (omega arith),
        At-load 2 (length s % 2 ^ 16) (s ++ rest) whole (omega arith),
        short,
        At-room (length s) body (omega (arith, length-append s rest)),
        At-slice s rest body,
      )
      refl

pub At-string_step :
    {buf : Bytes} {off : ℕ} (s rest : Bytes)
    → At buf off (string_bytes s ++ rest)
    → At buf (off + 2 + length s) rest
At-string_step {buf = buf} {off = off} s rest h =
    let prefix = le_bytes 2 (length s % 2 ^ 16) in
    let whole : At buf off (prefix ++ (s ++ rest)) = h in
    At-step s rest (At-step prefix (s ++ rest) whole)
