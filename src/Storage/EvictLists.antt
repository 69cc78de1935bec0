-- ===== src/Storage/EvictLists.antt =====
-- internal/storage/evictor/evictor.go: the interface `List` of the eviction policies, at the keys of
-- objects, and what a client relies on. A pointer to an entry is a number. What the pool
-- that entries come from goes by is part of the state.
use bouine.Prelude.{
  ℕ, ◌≡◌, Bool, true, false, List, [], ◌∷◌, ◌==◌, ◌++◌, Option, none, some, length,
}
use bouine.Prelude.Bytes.{Bytes}
use bouine.Prelude.Int.{ℤ}

-- `insert` is Access with a lookup that answers nil, `touch` Access with one that answers the entry.
pub record EvictList (S : Type 0) : Type 0 where
  pub insert : Bytes → S → ℕ × S
  pub touch : ℕ → S → S
  pub mark_visited : ℕ → S → S
  pub is_visited : S → ℕ → Bool
  pub evict_bounded : ℤ → S → Option Bytes × S
  pub remove : ℕ → S → S
  pub len : S → ℕ
  pub clear : S → S

-- What EvictBounded does to the entries: it takes out one and returns its key, or none.
unfoldable pub TakesOne :
    {S : Type 0} → (S → List (ℕ × Bytes) → Type 0) → List (ℕ × Bytes) → Option Bytes × S → Type 0
TakesOne Holds xs (none, l) = Holds l xs
TakesOne Holds xs (some k, l) =
    (before : List (ℕ × Bytes)) × (h : ℕ) × (behind : List (ℕ × Bytes)) × (xs
      ≡ before ++ ((h, k) ∷ behind))
    × Holds l (before ++ behind)

-- A policy: the entries and their keys, in some order, that the list holds, and their visited bits.
pub record IsEvictList {S : Type 0} (e : EvictList S) (Holds : S → List (ℕ × Bytes) → Type 0)
    : Type 0 where
  pub insert :
      (k : Bytes) (l : S) (xs : List (ℕ × Bytes))
      → Holds l xs
      → Holds (e.insert k l).1 (((e.insert k l).0, k) ∷ xs)
  pub touch : (h : ℕ) (l : S) (xs : List (ℕ × Bytes)) → Holds l xs → Holds (e.touch h l) xs
  pub mark_visited :
      (h : ℕ) (l : S) (xs : List (ℕ × Bytes)) → Holds l xs → Holds (e.mark_visited h l) xs
  pub evict_bounded :
      (n : ℤ) (l : S) (xs : List (ℕ × Bytes)) → Holds l xs → TakesOne Holds xs (e.evict_bounded n l)
  pub remove :
      (h : ℕ) (k : Bytes) (l : S) (xs ys : List (ℕ × Bytes))
      → Holds l (xs ++ ((h, k) ∷ ys))
      → Holds (e.remove h l) (xs ++ ys)
  pub len : (l : S) (xs : List (ℕ × Bytes)) → Holds l xs → e.len l ≡ length xs
  pub clear : (l : S) (xs : List (ℕ × Bytes)) → Holds l xs → Holds (e.clear l) []
  pub new_unvisited : (k : Bytes) (l : S) → e.is_visited (e.insert k l).1 (e.insert k l).0 ≡ false
  pub touch_visits : (h : ℕ) (l : S) → e.is_visited (e.touch h l) h ≡ true
  pub mark_visits : (h : ℕ) (l : S) → e.is_visited (e.mark_visited h l) h ≡ true
  pub touch_other :
      (h j : ℕ) (l : S) → (j == h) ≡ false → e.is_visited (e.touch h l) j ≡ e.is_visited l j
  pub mark_other :
      (h j : ℕ) (l : S) → (j == h) ≡ false → e.is_visited (e.mark_visited h l) j ≡ e.is_visited l j
