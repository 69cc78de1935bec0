-- ===== src/Storage/HotShard/Changes.antt =====
-- internal/storage/hot.go: an entry of a shard that changes in place, and one that is put.
use bouine.Prelude.{
  ℕ, ◌+◌, ◌≡◌, refl, sym, ap, ◌∙◌, inl, inr, [], ◌∷◌, ◌++◌, Option, some, arith, Bool-cases,
}
use mathlib.Core.Path.{subst}
use bouine.Prelude.Bytes.{Bytes, eq_bytes, eq_bytes_sound}
use bouine.Prelude.Int.{ℤ, pos}
use bouine.Storage.HotShard.{HotEntry, obj_size}
use bouine.Storage.HotShard.Held.{
  Entries, Pairs, change, Held, IsMap, size_at, backed_at, sum_over, sum_over-middle, IsMap-front,
  sum_over-change, changed_self, locate,
}

-- The new entry has the same measure as the old one.
pub sum_over-same :
    (f : Option HotEntry → ℕ) (k : Bytes) (e : Option HotEntry) (entries : Entries) (xs : Pairs)
    → f e ≡ f (entries k)
    → sum_over f (change k e entries) xs ≡ sum_over f entries xs
unfolding sum_over
sum_over-same f k e entries [] same = refl
sum_over-same f k e entries ((h, j) ∷ xs) same =
    let rest = sum_over-same f k e entries xs same in
    elim (Bool-cases (eq_bytes j k)) [
      | inl is ↦
          let here : f e ≡ f (entries j) =
            same ∙ ap (λ t. f (entries t)) (sym (eq_bytes_sound j k is)) in
          rw (is, rest, here) refl
      | inr other ↦ rw (other, rest) refl
    ]

Held-same :
    (k : Bytes) (e e' : HotEntry) (entries : Entries) (xs : Pairs)
    → entries k ≡ some e
    → e'.entry ≡ e.entry
    → Held entries xs
    → Held (change k (some e') entries) xs
Held-same k e e' entries [] found same v = tt
Held-same k e e' entries ((h, j) ∷ xs) found same ((d, at_j, handle), v) = (
  elim (Bool-cases (eq_bytes j k)) [
    | inl is ↦
        let here : entries j ≡ some e = ap entries (eq_bytes_sound j k is) ∙ found in
        rw is (e', refl, ground (arith, here, at_j, handle, same))
    | inr other ↦ rw other (d, at_j, handle)
  ],
  Held-same k e e' entries xs found same v,
)

-- An entry may change in place, at the same size.
pub change-IsMap :
    (k : Bytes) (e e' : HotEntry) (entries : Entries) (bytes : ℤ) (xs : Pairs)
    → entries k ≡ some e
    → e'.entry ≡ e.entry
    → obj_size e'.obj ≡ obj_size e.obj
    → IsMap entries bytes xs
    → IsMap (change k (some e') entries) bytes xs
unfolding size_at
change-IsMap k e e' entries bytes xs found same size m = record {
  held = Held-same k e e' entries xs found same m.held;
  distinct = m.distinct;
  outside = λ j a. elim (Bool-cases (eq_bytes j k)) [
    | inl is ↦ absurd (ground (arith, ap entries (eq_bytes_sound j k is), found, m.outside j a))
    | inr other ↦ rw other (m.outside j a)
  ];
  total =
      m.total
      ∙ ap pos (sym (sum_over-same size_at k (some e') entries xs (size ∙ ap size_at (sym found))));
}

-- An entry that is in the map stands in the list.
pub position :
    (k : Bytes) (e : HotEntry) (entries : Entries) (bytes : ℤ) (xs : Pairs)
    → entries k ≡ some e
    → IsMap entries bytes xs
    → (before : Pairs) × (behind : Pairs) × (xs ≡ before ++ ((e.entry, k) ∷ behind))
      × IsMap entries bytes ((e.entry, k) ∷ (before ++ behind))
position k e entries bytes xs found m = elim (locate k xs) [
  | inl absent ↦ absurd (ground (arith, found, m.outside k absent))
  | inr (before, h, behind, is) ↦
      let front =
        IsMap-front entries bytes h k before behind (subst (λ t. IsMap entries bytes t) is m) in
      let (d, at_k, handle) = front.held.0 in
      let same : h ≡ e.entry = ground (arith, found, at_k, handle) in
      (
        before,
        behind,
        is ∙ ap (λ a. before ++ ((a, k) ∷ behind)) same,
        subst (λ a. IsMap entries bytes ((a, k) ∷ (before ++ behind))) same front,
      )
]

-- What a change of one entry does to the number of entries with a backup.
pub backed-change :
    (k : Bytes) (e e' : HotEntry) (entries : Entries) (bytes : ℤ) (xs : Pairs)
    → entries k ≡ some e
    → IsMap entries bytes xs
    → sum_over backed_at (change k (some e') entries) xs + backed_at (some e)
      ≡ sum_over backed_at entries xs + backed_at (some e')
unfolding sum_over
backed-change k e e' entries bytes xs found m =
    let (before, behind, is, front) = position k e entries bytes xs found m in
    let rest = before ++ behind in
    let new = change k (some e') entries in
    let old_sum =
      ap (λ t. sum_over backed_at entries t) is
      ∙ sum_over-middle backed_at entries e.entry k before behind in
    let new_sum =
      ap (λ t. sum_over backed_at new t) is
      ∙ sum_over-middle backed_at new e.entry k before behind in
    let same = sum_over-change backed_at k (some e') entries rest front.distinct.0 in
    let self : backed_at (new k) ≡ backed_at (some e') =
      ap backed_at (changed_self k (some e') entries) in
    let was : backed_at (entries k) ≡ backed_at (some e) = ap backed_at found in
    omega (arith, old_sum, new_sum, same, self, was)
