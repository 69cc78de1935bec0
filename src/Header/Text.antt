-- ===== src/Header/Text.antt =====
-- The byte comparisons and the integer parser of pkg/header/cachedirectives.go.
use bouine.Prelude.{
  ℕ, ◌+◌, ◌-◌, ◌*◌, ◌^◌, ◌%◌, ◌≤◌, ◌<◌, ◌≡◌, refl, ◌↔◌, Bool, true, false, ◌&&◌, [], ◌∷◌, map,
  arith, leb, ◌==◌, ==_iff, if◌then◌else◌, length, not, ◌||◌, ◌++◌,
}
use bouine.Prelude.Bytes.{Bytes, is_digit, is_empty}
use bouine.Prelude.Int.{ℤ, pos, signed64, ◌+ℤ◌, ◌*ℤ◌, wrap64}

-- `if ca >= 'A' && ca <= 'Z' { ca += 'a' - 'A' }`
abbrev pub fold_byte : ℕ → ℕ
fold_byte c = if leb b'A' c && leb c b'Z' then c + 32 else c

-- The loop of EqFold, over two strings of one length.
unfoldable pub eq_fold_loop : Bytes → Bytes → Bool
eq_fold_loop (a ∷ s) (b ∷ t) = if fold_byte a == fold_byte b then eq_fold_loop s t else false
eq_fold_loop _ _ = true

unfoldable pub eq_fold : Bytes → Bytes → Bool
unfolding eq_fold_loop
eq_fold a b = if length a == length b then eq_fold_loop a b else false

-- Two strings fold to one exactly when their bytes agree after upper case letters are lowered.
eq_fold_loop_sound :
    (a b : Bytes)
    → length a ≡ length b
    → eq_fold_loop a b ≡ true
    → map fold_byte a ≡ map fold_byte b
unfolding eq_fold_loop
eq_fold_loop_sound [] [] h e = refl
eq_fold_loop_sound [] (y ∷ ys) h e = absurd (omega arith)
eq_fold_loop_sound (x ∷ xs) [] h e = absurd (omega arith)
eq_fold_loop_sound (x ∷ xs) (y ∷ ys) h e =
    ground (arith, ==_iff (fold_byte x) (fold_byte y), eq_fold_loop_sound xs ys)

eq_fold_loop_complete :
    (a b : Bytes)
    → map fold_byte a ≡ map fold_byte b
    → (length a ≡ length b) × (eq_fold_loop a b ≡ true)
unfolding eq_fold_loop
eq_fold_loop_complete [] [] h = (refl, refl)
eq_fold_loop_complete [] (y ∷ ys) h = cc
eq_fold_loop_complete (x ∷ xs) [] h = cc
eq_fold_loop_complete (x ∷ xs) (y ∷ ys) h =
    ground (arith, ==_iff (fold_byte x) (fold_byte y), eq_fold_loop_complete xs ys)

-- `EqFold` answers true exactly for the strings that are equal once the ASCII letters are lowered.
pub eq_fold_iff : (a b : Bytes) → (eq_fold a b ≡ true) ↔ (map fold_byte a ≡ map fold_byte b)
unfolding eq_fold
eq_fold_iff a b = (
  λ h. eq_fold_loop_sound a b (ground (arith, h)) (ground (arith, h)),
  λ e. ground (arith, eq_fold_loop_complete a b e),
)

-- The loop of ParseIntNoAlloc: `n` is an int64, so the step wraps.
unfoldable pub parse_int_loop : ℤ → Bool → Bytes → ℤ × Bool
parse_int_loop n found [] = (n, found)
parse_int_loop n found (c ∷ s) =
    let rest = parse_int_loop (wrap64 (wrap64 (n *ℤ pos 10) +ℤ pos (c - b'0'))) true s in
    if is_digit c then rest else (n, found)

unfoldable pub parse_int_no_alloc : Bytes → ℤ × Bool
unfolding parse_int_loop wrap64 ◌+ℤ◌ ◌*ℤ◌
parse_int_no_alloc s = if is_empty s then (pos 0, false) else parse_int_loop (pos 0) false s

-- The number that a string of digits writes, from an accumulator.
abbrev pub digits_value : ℕ → Bytes → ℕ
digits_value acc [] = acc
digits_value acc (c ∷ s) = digits_value (acc * 10 + (c - b'0')) s

abbrev pub AllDigits : Bytes → Type 0
AllDigits [] = Unit
AllDigits (c ∷ s) = (is_digit c ≡ true) × AllDigits s

digits_value_ge : (s : Bytes) (acc : ℕ) → acc ≤ digits_value acc s
digits_value_ge [] acc = omega arith
digits_value_ge (c ∷ s) acc = omega (arith, digits_value_ge s (acc * 10 + (c - b'0')))

step_fits :
    (n c : ℕ)
    → n * 10 + (c - b'0') < 2 ^ 63
    → wrap64 (wrap64 (pos n *ℤ pos 10) +ℤ pos (c - b'0')) ≡ pos (n * 10 + (c - b'0'))
unfolding wrap64 ◌+ℤ◌ ◌*ℤ◌
step_fits n c h = ground arith

-- What may follow the digits: nothing, or a byte that is no digit.
abbrev pub StopsDigits : Bytes → Type 0
StopsDigits [] = Unit
StopsDigits (c ∷ s) = is_digit c ≡ false

parse_int_loop_value :
    (s rest : Bytes) (n : ℕ) (found : Bool)
    → AllDigits s
    → StopsDigits rest
    → digits_value n s < 2 ^ 63
    → parse_int_loop (pos n) found (s ++ rest) ≡ (pos (digits_value n s), found || not (is_empty s))
unfolding parse_int_loop
parse_int_loop_value [] [] n found d st h = ground arith
parse_int_loop_value [] (c ∷ r) n found d st h = ground (arith, st)
parse_int_loop_value (c ∷ s) rest n found d st h = ground (
  arith,
  digits_value_ge s (n * 10 + (c - b'0')),
  step_fits n c,
  parse_int_loop_value s rest (n * 10 + (c - b'0')) true,
)

-- A string that starts with one or more digits whose value is an int64 parses to that value, up to
-- the first byte that is no digit.
pub parse_int_no_alloc_value :
    (c : ℕ) (s rest : Bytes)
    → AllDigits (c ∷ s)
    → StopsDigits rest
    → digits_value 0 (c ∷ s) < 2 ^ 63
    → parse_int_no_alloc ((c ∷ s) ++ rest) ≡ (pos (digits_value 0 (c ∷ s)), true)
unfolding parse_int_no_alloc
parse_int_no_alloc_value c s rest d st h = parse_int_loop_value (c ∷ s) rest 0 false d st h

-- A string that does not start with a digit is not a number.
pub parse_int_no_alloc_refuses : (s : Bytes) → StopsDigits s → parse_int_no_alloc s ≡ (pos 0, false)
unfolding parse_int_no_alloc parse_int_loop
parse_int_no_alloc_refuses [] h = refl
parse_int_no_alloc_refuses (c ∷ s) h = ground (arith, h)

-- Whatever its value, a string of digits parses to the low 64 bits of it, read as a signed number.
step_wraps :
    (w c : ℕ)
    → w < 2 ^ 64
    → c - b'0' < 10
    → wrap64 (wrap64 (signed64 w *ℤ pos 10) +ℤ pos (c - b'0'))
      ≡ signed64 ((w * 10 + (c - b'0')) % 2 ^ 64)
unfolding wrap64 ◌+ℤ◌ ◌*ℤ◌
step_wraps w c h k = ground arith

step_mod : (n d : ℕ) → (n % 2 ^ 64 * 10 + d) % 2 ^ 64 ≡ (n * 10 + d) % 2 ^ 64
step_mod n d = omega arith

or_true : (b : Bool) → b || true ≡ true
or_true true = refl
or_true false = refl

parse_int_loop_wraps :
    (s rest : Bytes) (n : ℕ) (found : Bool)
    → AllDigits s
    → StopsDigits rest
    → parse_int_loop (signed64 (n % 2 ^ 64)) found (s ++ rest)
      ≡ (signed64 (digits_value n s % 2 ^ 64), found || not (is_empty s))
unfolding parse_int_loop
parse_int_loop_wraps [] [] n found d st = ground arith
parse_int_loop_wraps [] (c ∷ r) n found d st = ground (arith, st)
parse_int_loop_wraps (c ∷ s) rest n found d st =
    let digit : c - b'0' < 10 = ground (arith, d.0) in
    rw (d.0, step_wraps (n % 2 ^ 64) c (omega arith) digit, step_mod n (c - b'0'), or_true)
      (parse_int_loop_wraps s rest (n * 10 + (c - b'0')) true d.1 st)

-- A string that starts with digits parses to the low 64 bits of its value, as a signed number: from
-- 2 ^ 63 on that is not the value any more.
pub parse_int_no_alloc_wraps :
    (c : ℕ) (s rest : Bytes)
    → AllDigits (c ∷ s)
    → StopsDigits rest
    → parse_int_no_alloc ((c ∷ s) ++ rest) ≡ (signed64 (digits_value 0 (c ∷ s) % 2 ^ 64), true)
unfolding parse_int_no_alloc
parse_int_no_alloc_wraps c s rest d st = parse_int_loop_wraps (c ∷ s) rest 0 false d st
