-- ===== src/Storage/Sieve/Pairs.antt =====
-- The entries of internal/storage/sieve/sieve.go with their keys, as pairs of an address and a key.
use bouine.Prelude.{ℕ, suc, ◌≡◌, refl, ap, ◌∙◌, List, [], ◌∷◌, ◌++◌, arith, length}
use bouine.Prelude.Bytes.{Bytes}
use bouine.Storage.Sieve.{Entry, update}
use bouine.Storage.Sieve.Chains.{NotIn}

abbrev pub addresses : List (ℕ × Bytes) → List ℕ
addresses [] = []
addresses ((h, k) ∷ xs) = h ∷ addresses xs

abbrev pub KeysOf : (ℕ → Entry Bytes) → List (ℕ × Bytes) → Type 0
KeysOf heap [] = Unit {0}
KeysOf heap ((h, k) ∷ xs) = ((heap h).key ≡ k) × KeysOf heap xs

pub KeysOf-same :
    (g h : ℕ → Entry Bytes) (xs : List (ℕ × Bytes))
    → ((x : ℕ) → (g x).key ≡ (h x).key)
    → KeysOf h xs
    → KeysOf g xs
KeysOf-same g h [] same v = tt
KeysOf-same g h ((a, k) ∷ xs) same (here, v) = (same a ∙ here, KeysOf-same g h xs same v)

pub addresses-append :
    (xs ys : List (ℕ × Bytes)) → addresses (xs ++ ys) ≡ addresses xs ++ addresses ys
addresses-append [] ys = refl
addresses-append ((h, k) ∷ xs) ys = ap (λ t. h ∷ t) (addresses-append xs ys)

-- What holds of a list with an entry in it holds of the list without.
pub KeysOf-middle :
    (heap : ℕ → Entry Bytes) (h : ℕ) (k : Bytes) (xs ys : List (ℕ × Bytes))
    → KeysOf heap (xs ++ ((h, k) ∷ ys))
    → ((heap h).key ≡ k) × KeysOf heap (xs ++ ys)
KeysOf-middle heap h k [] ys (here, v) = (here, v)
KeysOf-middle heap h k ((a, j) ∷ xs) ys (at_a, v) =
    let (here, w) = KeysOf-middle heap h k xs ys v in (here, (at_a, w))

abbrev first_or_zero : List ℕ → ℕ
first_or_zero [] = 0
first_or_zero (x ∷ xs) = x

abbrev rest_of : List ℕ → List ℕ
rest_of [] = []
rest_of (x ∷ xs) = xs

-- The pair at a place in the list of addresses.
pub split_pairs :
    (xs : List (ℕ × Bytes)) (before : List ℕ) (e : ℕ) (behind : List ℕ)
    → addresses xs ≡ before ++ (e ∷ behind)
    → (b : List (ℕ × Bytes)) × (k : Bytes) × (c : List (ℕ × Bytes)) × (xs ≡ b ++ ((e, k) ∷ c))
      × (addresses b ≡ before)
      × (addresses c ≡ behind)
split_pairs [] [] e behind is = absurd (ground (arith, ap (λ (l : List ℕ). length l) is))
split_pairs [] (x ∷ before) e behind is = absurd (ground (arith, ap (λ (l : List ℕ). length l) is))
split_pairs ((h, k) ∷ xs) [] e behind is =
    ([], k, xs, ap (λ t. (t, k) ∷ xs) (ap first_or_zero is), refl, ap rest_of is)
split_pairs ((h, k) ∷ xs) (x ∷ before) e behind is =
    let (b, j, c, at, p, q) = split_pairs xs before e behind (ap rest_of is) in
    (
      (h, k) ∷ b,
      j,
      c,
      ap (λ t. (h, k) ∷ t) at,
      ap (λ t. t ∷ addresses b) (ap first_or_zero is) ∙ ap (λ t. x ∷ t) p,
      q,
    )

-- A new entry has its key, and the others keep theirs.
pub KeysOf-fresh :
    (heap : ℕ → Entry Bytes) (n : ℕ) (new : Entry Bytes) (xs : List (ℕ × Bytes))
    → NotIn n (addresses xs)
    → KeysOf heap xs
    → KeysOf (update heap n new) xs
unfolding update
KeysOf-fresh heap n new [] d v = tt
KeysOf-fresh heap n new ((h, k) ∷ xs) (differs, d) (here, v) =
    (rw differs here, KeysOf-fresh heap n new xs d v)

pub length-addresses : (xs : List (ℕ × Bytes)) → length (addresses xs) ≡ length xs
length-addresses [] = refl
length-addresses ((h, k) ∷ xs) = ap suc (length-addresses xs)
