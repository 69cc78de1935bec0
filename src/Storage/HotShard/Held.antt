-- ===== src/Storage/HotShard/Held.antt =====
-- internal/storage/hot.go: the map of a shard against the entries of its eviction list.
use bouine.Prelude.{
  ℕ, ◌+◌, ◌≡◌, refl, ap, ◌∙◌, ◌⊎◌, inl, inr, false, List, [], ◌∷◌, ◌++◌, Option, none, some, arith,
  if◌then◌else◌, Bool-cases,
}
use bouine.Prelude.Bytes.{Bytes, eq_bytes, eq_bytes_sound, eq_bytes_refl}
use bouine.Prelude.Int.{ℤ, pos, ◌+ℤ◌, ◌-ℤ◌, int_laws}
use bouine.Storage.HotShard.{HotEntry, obj_size}

abbrev pub Entries : Type 0
Entries = Bytes → Option HotEntry

abbrev pub Pairs : Type 0
Pairs = List (ℕ × Bytes)

abbrev pub change : Bytes → Option HotEntry → Entries → Entries
change k e entries x = if eq_bytes x k then e else entries x

abbrev pub Absent : Bytes → Pairs → Type 0
Absent k [] = Unit {0}
Absent k ((h, j) ∷ xs) = (eq_bytes j k ≡ false) × Absent k xs

abbrev pub DistinctKeys : Pairs → Type 0
DistinctKeys [] = Unit {0}
DistinctKeys ((h, k) ∷ xs) = Absent k xs × DistinctKeys xs

-- Every entry of the list is in the map under its key.
abbrev pub Held : Entries → Pairs → Type 0
Held entries [] = Unit {0}
Held entries ((h, k) ∷ xs) =
    ((e : HotEntry) × (entries k ≡ some e) × (e.entry ≡ h)) × Held entries xs

unfoldable pub size_at : Option HotEntry → ℕ
size_at none = 0
size_at (some e) = obj_size e.obj

unfoldable pub backed_at : Option HotEntry → ℕ
backed_at none = 0
backed_at (some e) = if e.has_backup then 1 else 0

-- The sum of a measure over the keys of the list: of the sizes, or of the entries with a backup.
unfoldable pub sum_over : (Option HotEntry → ℕ) → Entries → Pairs → ℕ
sum_over f entries [] = 0
sum_over f entries ((h, k) ∷ xs) = f (entries k) + sum_over f entries xs

-- The map has just the entries of the list, each once, and `bytes` is the sum of their sizes.
pub record IsMap (entries : Entries) (bytes : ℤ) (xs : Pairs) : Type 0 where
  pub held : Held entries xs
  pub distinct : DistinctKeys xs
  pub outside : (k : Bytes) → Absent k xs → entries k ≡ none
  pub total : bytes ≡ pos (sum_over size_at entries xs)

pub Absent-middle :
    (k : Bytes) (p : ℕ × Bytes) (xs ys : Pairs)
    → Absent k (xs ++ (p ∷ ys))
    → (eq_bytes p.1 k ≡ false) × Absent k (xs ++ ys)
Absent-middle k p [] ys a = a
Absent-middle k p ((h, j) ∷ xs) ys (here, a) =
    let (q, rest) = Absent-middle k p xs ys a in (q, (here, rest))

Absent-back :
    (k : Bytes) (p : ℕ × Bytes) (xs ys : Pairs)
    → eq_bytes p.1 k ≡ false
    → Absent k (xs ++ ys)
    → Absent k (xs ++ (p ∷ ys))
Absent-back k p [] ys q a = (q, a)
Absent-back k p ((h, j) ∷ xs) ys q (here, a) = (here, Absent-back k p xs ys q a)

pub differs_sym : (a b : Bytes) → eq_bytes a b ≡ false → eq_bytes b a ≡ false
differs_sym a b d = elim (Bool-cases (eq_bytes b a)) [
  | inl is ↦ absurd (ground (arith, d, eq_bytes_sound b a is, eq_bytes_refl a))
  | inr d' ↦ d'
]

DistinctKeys-middle :
    (h : ℕ) (k : Bytes) (xs ys : Pairs)
    → DistinctKeys (xs ++ ((h, k) ∷ ys))
    → Absent k (xs ++ ys) × DistinctKeys (xs ++ ys)
DistinctKeys-middle h k [] ys d = d
DistinctKeys-middle h k ((g, j) ∷ xs) ys (a, d) =
    let (q, a') = Absent-middle j (h, k) xs ys a in
    let (b, d') = DistinctKeys-middle h k xs ys d in ((differs_sym k j q, b), (a', d'))

Held-middle :
    (entries : Entries) (h : ℕ) (k : Bytes) (xs ys : Pairs)
    → Held entries (xs ++ ((h, k) ∷ ys))
    → Held entries ((h, k) ∷ (xs ++ ys))
Held-middle entries h k [] ys v = v
Held-middle entries h k ((g, j) ∷ xs) ys (here, v) =
    let (e, rest) = Held-middle entries h k xs ys v in (e, (here, rest))

pub sum_over-middle :
    (f : Option HotEntry → ℕ) (entries : Entries) (h : ℕ) (k : Bytes) (xs ys : Pairs)
    → sum_over f entries (xs ++ ((h, k) ∷ ys)) ≡ sum_over f entries ((h, k) ∷ (xs ++ ys))
unfolding sum_over
sum_over-middle f entries h k [] ys = refl
sum_over-middle f entries h k ((g, j) ∷ xs) ys = omega (arith, sum_over-middle f entries h k xs ys)

-- Any entry may stand first.
pub IsMap-front :
    (entries : Entries) (bytes : ℤ) (h : ℕ) (k : Bytes) (xs ys : Pairs)
    → IsMap entries bytes (xs ++ ((h, k) ∷ ys))
    → IsMap entries bytes ((h, k) ∷ (xs ++ ys))
IsMap-front entries bytes h k xs ys m = record {
  held = Held-middle entries h k xs ys m.held;
  distinct = DistinctKeys-middle h k xs ys m.distinct;
  outside = λ j a. m.outside j (Absent-back j (h, k) xs ys a.0 a.1);
  total = m.total ∙ ap pos (sum_over-middle size_at entries h k xs ys);
}

pub changed_self : (k : Bytes) (e : Option HotEntry) (entries : Entries) → change k e entries k ≡ e
changed_self k e entries = rw (eq_bytes_refl k) refl

pub sum_over-change :
    (f : Option HotEntry → ℕ) (k : Bytes) (e : Option HotEntry) (entries : Entries) (xs : Pairs)
    → Absent k xs
    → sum_over f (change k e entries) xs ≡ sum_over f entries xs
unfolding sum_over
sum_over-change f k e entries [] a = refl
sum_over-change f k e entries ((h, j) ∷ xs) (here, a) =
    rw (here, sum_over-change f k e entries xs a) refl

Held-change :
    (k : Bytes) (e : Option HotEntry) (entries : Entries) (xs : Pairs)
    → Absent k xs
    → Held entries xs
    → Held (change k e entries) xs
Held-change k e entries [] a v = tt
Held-change k e entries ((h, j) ∷ xs) (here, a) (v, w) = (rw here v, Held-change k e entries xs a w)

-- The first entry leaves the map.
pub drop-IsMap :
    (entries : Entries) (bytes : ℤ) (h : ℕ) (k : Bytes) (xs : Pairs)
    → IsMap entries bytes ((h, k) ∷ xs)
    → IsMap (change k none entries) (bytes -ℤ pos (size_at (entries k))) xs
unfolding sum_over
drop-IsMap entries bytes h k xs m =
    let (absent, distinct) = m.distinct in
    let same = sum_over-change size_at k none entries xs absent in
    let before = m.total in
    record {
      held = Held-change k none entries xs absent m.held.1;
      distinct = distinct;
      outside = λ j a. elim (Bool-cases (eq_bytes j k)) [
        | inl is ↦ rw is refl
        | inr other ↦ rw other (m.outside j (differs_sym j k other, a))
      ];
      total = rw before (omega (int_laws, same));
    }

-- An entry is put under the first key, or under a new one, in the place of what was there.
pub put-IsMap :
    (entries : Entries) (before : ℤ) (e : HotEntry) (k : Bytes) (xs : Pairs)
    → Held entries xs
    → Absent k xs
    → DistinctKeys xs
    → ((j : Bytes) → eq_bytes j k ≡ false → Absent j xs → entries j ≡ none)
    → before ≡ pos (sum_over size_at entries xs)
    → IsMap (change k (some e) entries) (before +ℤ pos (obj_size e.obj)) ((e.entry, k) ∷ xs)
unfolding sum_over size_at
put-IsMap entries before e k xs held absent distinct outside sum =
    let self = changed_self k (some e) entries in
    let same = sum_over-change size_at k (some e) entries xs absent in
    let size : size_at (change k (some e) entries k) ≡ obj_size e.obj = ap size_at self in
    record {
      held = ((e, self, refl), Held-change k (some e) entries xs absent held);
      distinct = (absent, distinct);
      outside = λ j a. let other = differs_sym k j a.0 in rw other (outside j other a.1);
      total = rw sum (omega (int_laws, same, size));
    }

-- Where a key stands in the list, if it does.
pub locate :
    (k : Bytes) (xs : Pairs)
    → Absent k xs
      ⊎ ((before : Pairs) × (h : ℕ) × (behind : Pairs) × (xs ≡ before ++ ((h, k) ∷ behind)))
locate k [] = inl tt
locate k ((h, j) ∷ xs) = elim (Bool-cases (eq_bytes j k)) [
  | inl is ↦ inr ([], h, xs, ap (λ t. (h, t) ∷ xs) (eq_bytes_sound j k is))
  | inr other ↦ elim (locate k xs) [
    | inl a ↦ inl (other, a)
    | inr (before, g, behind, is) ↦ inr ((h, j) ∷ before, g, behind, ap (λ t. (h, j) ∷ t) is)
  ]
]
