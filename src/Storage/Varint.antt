-- ===== src/Storage/Varint.antt =====
-- The variable-length integers of Go's encoding/binary, which internal/storage/codec.go writes and
-- reads: seven bits to a byte, the low ones first, at most ten bytes.
use bouine.Prelude.{
  ℕ, zero, suc, ◌+◌, ◌*◌, ◌/◌, ◌%◌, ◌^◌, ◌<◌, ◌≡◌, refl, ◌&&◌, [], ◌∷◌, ◌++◌, Option, none, some,
  arith, ltb, ◌==◌, if◌then◌else◌, length, take, Bool-cases, inl, inr,
}
use bouine.Prelude.Bytes.{Bytes}
use bouine.Prelude.Int.{ℤ, pos, negsuc, IsInt64}

-- `binary.AppendUvarint`, on the rounds that are left after this one.
unfoldable pub uvarint_bytes : ℕ → ℕ → Bytes
uvarint_bytes zero x = x ∷ []
uvarint_bytes (suc rounds) x =
    let more = (x % 128 + 128) ∷ uvarint_bytes rounds (x / 128) in
    if ltb x 128 then x ∷ [] else more

-- `binary.Uvarint`, which refuses an eleventh byte, and a tenth above 1.
unfoldable pub shift_uvarint : ℕ → Option (ℕ × Bytes) → Option (ℕ × Bytes)
shift_uvarint low none = none
shift_uvarint low (some (high, rest)) = some (low + 128 * high, rest)

unfoldable pub scan_uvarint : ℕ → Bytes → Option (ℕ × Bytes)
scan_uvarint i [] = none
scan_uvarint i (b ∷ s) =
    let more = shift_uvarint (b % 128) (scan_uvarint (i + 1) s) in
    if i == 10
    then none
    else if ltb b 128
    then (if i == 9 && ltb 1 b then none else some (b, s))
    else more

-- The zigzag form of `binary.AppendVarint` and `binary.Varint`.
unfoldable pub zigzag : ℤ → ℕ
zigzag (pos n) = 2 * n
zigzag (negsuc n) = 2 * n + 1

unfoldable pub unzigzag : ℕ → ℤ
unzigzag u = if u % 2 == 0 then pos (u / 2) else negsuc (u / 2)

pub unzigzag-zigzag : (z : ℤ) → unzigzag (zigzag z) ≡ z
unfolding zigzag unzigzag
unzigzag-zigzag (pos n) = ground arith
unzigzag-zigzag (negsuc n) = ground arith

pub zigzag-lt : (z : ℤ) → IsInt64 z → zigzag z < 2 ^ 64
unfolding zigzag
zigzag-lt (pos n) h = omega arith
zigzag-lt (negsuc n) h = omega arith

-- What the rounds can hold.
abbrev capacity : ℕ → ℕ
capacity zero = 2
capacity (suc rounds) = 128 * capacity rounds

scan_uvarint-uvarint_bytes :
    (rounds i x : ℕ) (rest : Bytes)
    → i + rounds ≡ 9
    → x < capacity rounds
    → scan_uvarint i (uvarint_bytes rounds x ++ rest) ≡ some (x, rest)
unfolding uvarint_bytes scan_uvarint shift_uvarint
scan_uvarint-uvarint_bytes zero i x rest h small = ground arith
scan_uvarint-uvarint_bytes (suc rounds) i x rest h small = elim (Bool-cases (ltb x 128)) [
  | inl last ↦ ground (arith, last, h)
  | inr more ↦
      let low : x % 128 + 128 < 256 = omega arith in
      rw more (ground (arith, h, scan_uvarint-uvarint_bytes rounds (i + 1) (x / 128) rest))
]

-- Every strict prefix of the bytes is refused.
scan_uvarint-take :
    (rounds i x n : ℕ)
    → n < length (uvarint_bytes rounds x)
    → scan_uvarint i (take n (uvarint_bytes rounds x)) ≡ none
unfolding uvarint_bytes scan_uvarint shift_uvarint
scan_uvarint-take rounds i x zero h = refl
scan_uvarint-take zero i x (suc n) h = absurd (omega arith)
scan_uvarint-take (suc rounds) i x (suc n) h = elim (Bool-cases (ltb x 128)) [
  | inl last ↦ let short : suc n < length (x ∷ []) = rw last at h in absurd (omega (arith, short))
  | inr more ↦ rw more (ground (arith, scan_uvarint-take rounds (i + 1) (x / 128) n))
]

-- The ten bytes of a uint64.
abbrev pub uvarint : ℕ → Bytes
uvarint x = uvarint_bytes 9 x

pub uvarint_reads :
    (x : ℕ) (rest : Bytes) → x < 2 ^ 64 → scan_uvarint 0 (uvarint x ++ rest) ≡ some (x, rest)
uvarint_reads x rest h = scan_uvarint-uvarint_bytes 9 0 x rest (omega arith) (omega arith)

pub uvarint_truncated :
    (x n : ℕ) → n < length (uvarint x) → scan_uvarint 0 (take n (uvarint x)) ≡ none
uvarint_truncated x n h = scan_uvarint-take 9 0 x n h
