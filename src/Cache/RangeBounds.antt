-- ===== src/Cache/RangeBounds.antt =====
-- Where the ranges lie that internal/cache/range.go accepts.
use bouine.Prelude.{
  ℕ, ◌+◌, ◌-◌, ◌*◌, ◌^◌, ◌≤◌, ◌<◌, ◌≡◌, refl, [], ◌∷◌, Option, none, some, arith, ◌==◌, Bool-cases,
  inl, inr,
}
use mathlib.Core.Option
use bouine.Prelude.Bytes.{Bytes, is_empty, trim_space}
use bouine.Prelude.Int.{ℤ, pos, negsuc, ◌-ℤ◌, wrap64, ◌≤ℤ◌, ◌<ℤ◌, max_int64, sub_ℕ}
use bouine.Api.StatusTtl.{atoi, atoi_unsigned, atoi_digits}
use bouine.Cache.Range.{split_range, suffix_range, range_end, range_from, range_of, parse_range}

-- The numbers that fit: `Atoi` refuses the others.
atoi_digits_le :
    (limit acc : ℕ) (s : Bytes) (n : ℕ) → acc ≤ limit → atoi_digits limit acc s ≡ some n → n ≤ limit
unfolding atoi_digits
atoi_digits_le limit acc [] n h e = ground (arith, h, e)
atoi_digits_le limit acc (c ∷ s) n h e =
    ground (arith, e, atoi_digits_le limit (acc * 10 + (c - b'0')) s n)

abbrev pub Inside : ℤ → ℤ × ℤ → Type 0
Inside size (a, b) = (pos 0 ≤ℤ a) × (a ≤ℤ b) × (b <ℤ size)

range_end-Inside :
    (start size : ℤ) (last : Option ℤ) (r : ℤ × ℤ)
    → pos 0 ≤ℤ start
    → start <ℤ size
    → size ≤ℤ max_int64
    → range_end start size last ≡ some r
    → Inside size r
unfolding range_end wrap64 ◌-ℤ◌
range_end-Inside start size none r h k top e = ground arith
range_end-Inside start size (some last) r h k top e = ground arith

suffix_range-Inside :
    (suffix size : ℤ) (r : ℤ × ℤ)
    → pos 0 <ℤ size
    → size ≤ℤ max_int64
    → suffix ≤ℤ max_int64
    → suffix_range (some suffix) size ≡ some r
    → Inside size r
unfolding suffix_range wrap64 ◌-ℤ◌
suffix_range-Inside (negsuc n) (negsuc m) r h top small e = ground arith
suffix_range-Inside (negsuc n) (pos m) r h top small e = ground arith
suffix_range-Inside (pos n) (negsuc m) r h top small e = ground arith
suffix_range-Inside (pos n) (pos m) r h top small e = ground arith

range_from-Inside :
    (start : Option ℤ) (last : Bytes) (size : ℤ) (r : ℤ × ℤ)
    → size ≤ℤ max_int64
    → range_from start last size ≡ some r
    → Inside size r
unfolding range_from wrap64 ◌-ℤ◌
range_from-Inside none last size r top e = ground arith
range_from-Inside (some start) last size r top e =
    ground (arith, range_end-Inside start size (atoi last) r)

atoi_unsigned_le : (limit : ℕ) (s : Bytes) (n : ℕ) → atoi_unsigned limit s ≡ some n → n ≤ limit
unfolding atoi_unsigned
atoi_unsigned_le limit [] n e = ground arith
atoi_unsigned_le limit (c ∷ s) n e = atoi_digits_le limit 0 (c ∷ s) n (omega arith) e

plain_le :
    (o : Option ℕ) (z : ℤ)
    → ((n : ℕ) → o ≡ some n → n ≤ 2 ^ 63 - 1)
    → Option.map pos o ≡ some z
    → z ≤ℤ max_int64
plain_le none z h e = ground arith
plain_le (some n) z h e = ground (arith, e, h n refl)

negated_le : (o : Option ℕ) (z : ℤ) → Option.map (λ n. sub_ℕ 0 n) o ≡ some z → z ≤ℤ max_int64
negated_le none z e = ground arith
negated_le (some n) z e = ground (arith, e)

atoi_le : (s : Bytes) (z : ℤ) → atoi s ≡ some z → z ≤ℤ max_int64
unfolding atoi
atoi_le [] z e = ground arith
atoi_le (c ∷ s) z e = elim (Bool-cases (c == b'-')) [
  | inl minus ↦ negated_le (atoi_unsigned (2 ^ 63) s) z (rw minus at e)
  | inr other ↦ elim (Bool-cases (c == b'+')) [
    | inl plus ↦
        plain_le (atoi_unsigned (2 ^ 63 - 1) s) z (λ n h. atoi_unsigned_le (2 ^ 63 - 1) s n h)
          (rw (other, plus) at e)
    | inr digit ↦
        plain_le (atoi_unsigned (2 ^ 63 - 1) (c ∷ s)) z
          (λ n h. atoi_unsigned_le (2 ^ 63 - 1) (c ∷ s) n h) (rw (other, digit) at e)
  ]
]

suffix_of-Inside :
    (suffix : Option ℤ) (size : ℤ) (r : ℤ × ℤ)
    → pos 0 <ℤ size
    → size ≤ℤ max_int64
    → ((z : ℤ) → suffix ≡ some z → z ≤ℤ max_int64)
    → suffix_range suffix size ≡ some r
    → Inside size r
suffix_of-Inside none size r h top small e = absurd (unfold suffix_range in ground (arith, e))
suffix_of-Inside (some z) size r h top small e = suffix_range-Inside z size r h top (small z refl) e

range_of-Inside :
    (parts : Option (Bytes × Bytes)) (size : ℤ) (r : ℤ × ℤ)
    → pos 0 <ℤ size
    → size ≤ℤ max_int64
    → range_of parts size ≡ some r
    → Inside size r
unfolding range_of
range_of-Inside none size r h top e = ground arith
range_of-Inside (some (a, b)) size r h top e = elim (Bool-cases (is_empty (trim_space a))) [
  | inl suffix ↦
      suffix_of-Inside (atoi (trim_space b)) size r h top (atoi_le (trim_space b)) (rw suffix at e)
  | inr first ↦ range_from-Inside (atoi (trim_space a)) (trim_space b) size r top (rw first at e)
]

-- For a body that is not empty every range that is accepted lies inside it: it starts at 0 or
-- later, does not end before it starts, and ends before the size of the body.
pub parse_range-Inside :
    (spec : Bytes) (size : ℤ) (r : ℤ × ℤ)
    → pos 0 <ℤ size
    → size ≤ℤ max_int64
    → parse_range spec size ≡ some r
    → Inside size r
unfolding parse_range
parse_range-Inside spec size r h top e = range_of-Inside (split_range spec) size r h top e

-- Of an empty body, which no range can be satisfied by, the last n bytes are accepted for every
-- positive n, as a range that ends before it starts.
pub suffix_range_empty :
    (n : ℕ) → n ≤ 2 ^ 63 - 1 → 0 < n → suffix_range (some (pos n)) (pos 0) ≡ some (pos 0, negsuc 0)
unfolding suffix_range wrap64 ◌-ℤ◌
suffix_range_empty n small h = ground arith
