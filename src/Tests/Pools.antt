-- ===== src/Tests/Pools.antt =====
-- A sync.Pool for internal/storage/sieve/sieve.go at concrete shards: it hands out an address above
-- all that are in use, and so the first one again when the list is empty.
use bouine.Prelude.{
  ℕ, zero, suc, ◌+◌, ◌≤◌, ◌≡◌, refl, ap, ◌∙◌, sym, List, [], ◌∷◌, Option, none, some, arith, length,
}
use mathlib.Core.Path.{subst}
use bouine.Prelude.Bytes.{Bytes}
use bouine.Storage.Sieve.{Entry}
use bouine.Storage.Sieve.Chains.{Chain, NotIn, first_or}
use bouine.Storage.Sieve.Sweeps
use bouine.Storage.Sieve.Policy.{EntryPool, IsPool}

abbrev walk : ℕ → (ℕ → Entry Bytes) → Option ℕ → List ℕ
walk zero heap p = []
walk (suc n) heap none = []
walk (suc n) heap (some x) = x ∷ walk n heap (heap x).next

abbrev above : List ℕ → ℕ
above [] = 0
above (x ∷ xs) = suc x + above xs

abbrev pub above_all : EntryPool
above_all n l = above (walk l.len l.heap l.head)

walk-Chain :
    (heap : ℕ → Entry Bytes) (p : Option ℕ) (xs : List ℕ)
    → Chain heap p xs none
    → walk (length xs) heap (first_or xs none) ≡ xs
walk-Chain heap p [] c = refl
walk-Chain heap p (x ∷ xs) (before, next, c) =
    ap (λ t. x ∷ walk (length xs) heap t) next ∙ ap (λ t. x ∷ t) (walk-Chain heap (some x) xs c)

above-NotIn : (a : ℕ) (xs : List ℕ) → above xs ≤ a → NotIn a xs
above-NotIn a [] h = tt
above-NotIn a (x ∷ xs) h = (ground (arith, h), above-NotIn a xs (omega (arith, h)))

pub above_all-IsPool : IsPool above_all
unfolding IsPool Sweeps.IsSieve
above_all-IsPool n l xs (v, hand) =
    let walked : walk l.len l.heap l.head ≡ xs =
      ap (λ t. walk t l.heap l.head) v.len
      ∙ (ap (λ t. walk (length xs) l.heap t) v.head ∙ walk-Chain l.heap none xs v.chain) in
    subst (λ t. NotIn (above t) xs) (sym walked) (above-NotIn (above xs) xs (omega arith))
