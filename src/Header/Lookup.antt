-- ===== src/Header/Lookup.antt =====
-- What `Map` of pkg/header/headermap.go promises: a list of fields that is looked up by the
-- canonical form of a name.
use bouine.Prelude.{
  ℕ, ◌<◌, ◌≡◌, refl, ◌≢◌, true, false, List, [], ◌∷◌, none, some, arith, ◌==◌, if◌then◌else◌,
  length, set, inl, inr, Bool-cases, Option-cases, get_or-append_end, get_or-append_lt,
  get_or-set_self, get_or-set_ne,
}
use bouine.Prelude.Bytes.{Bytes, eq_bytes, eq_bytes_iff}
use bouine.Header.Canonical.{
  is_canonical, is_canonical_iff, canonicalize, intern_key-canonicalize, equals_canonical_of_iff,
}
use bouine.Header.HeaderMap.{
  HeaderEntry, HeaderMap, find_key, find_canonical_of, value_or_empty, get_fallback, get_found, get,
  insert_entry, insert_sorted, set_found, set_header,
}

abbrev pub AllEntries : (HeaderEntry → Type 0) → List HeaderEntry → Type 0
AllEntries P [] = Unit
AllEntries P (e ∷ es) = P e × AllEntries P es

abbrev pub IsStored : ℕ → HeaderEntry → Type 0
IsStored n e = (canonicalize e.key ≡ e.key) × (e.off < n)

abbrev pub Distinct : List HeaderEntry → Type 0
Distinct [] = Unit
Distinct (e ∷ es) = AllEntries (λ x. e.off ≢ x.off) es × Distinct es

-- Names are canonical, offsets in range, and no two entries share a value.
pub record IsValid (h : HeaderMap) : Type 0 where
  pub stored : AllEntries (IsStored (length h.values)) h.entries
  pub distinct : Distinct h.entries

-- The value of a name, with the canonical form already taken.
abbrev pub value_of : HeaderMap → Bytes → Bytes
value_of h ck = value_or_empty h.values (find_key ck h.entries)

find_canonical_of-find_key :
    (key : Bytes) (es : List HeaderEntry)
    → find_canonical_of key es ≡ find_key (canonicalize key) es
unfolding find_canonical_of find_key
find_canonical_of-find_key key [] = refl
find_canonical_of-find_key key (e ∷ es) = ground (
  arith,
  equals_canonical_of_iff e.key key,
  eq_bytes_iff e.key (canonicalize key),
  find_canonical_of-find_key key es,
)

find_key_not_canonical :
    (n : ℕ) (key : Bytes) (es : List HeaderEntry)
    → AllEntries (IsStored n) es
    → is_canonical key ≡ false
    → find_key key es ≡ none
unfolding find_key
find_key_not_canonical n key [] a h = refl
find_key_not_canonical n key (e ∷ es) a h =
    ground
      (arith, is_canonical_iff key, eq_bytes_iff e.key key, find_key_not_canonical n key es a.1)

find_key_of_empty :
    (key : Bytes) (es : List HeaderEntry) → length es == 0 ≡ true → find_key key es ≡ none
unfolding find_key
find_key_of_empty key [] h = refl
find_key_of_empty key (e ∷ es) h = absurd (ground arith)

-- On a valid map the two scans of `Get` come to one lookup: the first field whose name is the
-- canonical form of the key, and the empty text if there is none.
pub get-value_of :
    (h : HeaderMap) (key : Bytes) → IsValid h → get h key ≡ value_of h (canonicalize key)
unfolding get get_fallback get_found
get-value_of h key v = ground (
  arith,
  is_canonical_iff key,
  find_key_of_empty (canonicalize key) h.entries,
  find_key_not_canonical (length h.values) key h.entries v.stored,
  find_canonical_of-find_key key h.entries,
)

find_key_insert :
    (j : Bytes) (x : HeaderEntry) (es : List HeaderEntry)
    → find_key x.key es ≡ none
    → find_key j (insert_entry x es) ≡ (if eq_bytes x.key j then some x else find_key j es)
unfolding find_key insert_entry
find_key_insert j x [] h = refl
find_key_insert j x (e ∷ es) h = ground (
  arith,
  eq_bytes_iff x.key j,
  eq_bytes_iff e.key j,
  eq_bytes_iff e.key x.key,
  find_key_insert j x es,
)

find_key-key :
    (j : Bytes) (es : List HeaderEntry) (e : HeaderEntry) → find_key j es ≡ some e → e.key ≡ j
unfolding find_key
find_key-key j [] e h = cc
find_key-key j (x ∷ es) e h = ground (arith, eq_bytes_iff x.key j, find_key-key j es e)

find_key-IsStored :
    (n : ℕ) (j : Bytes) (es : List HeaderEntry) (e : HeaderEntry)
    → AllEntries (IsStored n) es
    → find_key j es ≡ some e
    → IsStored n e
unfolding find_key
find_key-IsStored n j [] e a h = cc
find_key-IsStored n j (x ∷ es) e a h = ground (arith, find_key-IsStored n j es e a.1)

find_key_off_ne :
    (off : ℕ) (j : Bytes) (es : List HeaderEntry) (d : HeaderEntry)
    → AllEntries (λ x. off ≢ x.off) es
    → find_key j es ≡ some d
    → off ≢ d.off
unfolding find_key
find_key_off_ne off j [] d a h = cc
find_key_off_ne off j (x ∷ es) d a h = ground (arith, a.0, find_key_off_ne off j es d a.1)

-- Two entries that share their value have one name.
find_key_same_off :
    (j k : Bytes) (es : List HeaderEntry) (d e : HeaderEntry)
    → Distinct es
    → find_key j es ≡ some d
    → find_key k es ≡ some e
    → d.off ≡ e.off
    → j ≡ k
unfolding find_key
find_key_same_off j k [] d e h p q o = cc
find_key_same_off j k (x ∷ es) d e h p q o = ground (
  arith,
  eq_bytes_iff x.key j,
  eq_bytes_iff x.key k,
  find_key_off_ne x.off j es d h.0,
  find_key_off_ne x.off k es e h.0,
  find_key_same_off j k es d e h.1,
)

value_of_insert :
    (h : HeaderMap) (k v j : Bytes)
    → IsValid h
    → find_key k h.entries ≡ none
    → value_of (insert_sorted h k v) j ≡ (if eq_bytes k j then v else value_of h j)
unfolding insert_sorted
value_of_insert h k v j valid p =
    let x : HeaderEntry = record { key = k; off = length h.values } in
    rw (find_key_insert j x h.entries p) (elim (Option-cases (find_key j h.entries)) [
      | inl n ↦ rw n (elim (Bool-cases (eq_bytes k j)) [
        | inl e ↦ rw e (get_or-append_end h.values v [])
        | inr e ↦ rw e
      ])
      | inr (d, s) ↦ rw s (elim (Bool-cases (eq_bytes k j)) [
        | inl e ↦ rw e (get_or-append_end h.values v [])
        | inr e ↦ rw e (
            get_or-append_lt h.values _ d.off []
              (find_key-IsStored (length h.values) j h.entries d valid.stored s).1)
      ])
    ])

value_of_replace :
    (h : HeaderMap) (k v j : Bytes) (e : HeaderEntry)
    → IsValid h
    → find_key k h.entries ≡ some e
    → value_of (record h { values = set h.values e.off v }) j
      ≡ (if eq_bytes k j then v else value_of h j)
value_of_replace h k v j e valid p = elim (Bool-cases (eq_bytes k j)) [
  | inl same ↦
      rw (same, ← (eq_bytes_iff k j).0 same, p)
        (get_or-set_self h.values e.off v []
          (find_key-IsStored (length h.values) k h.entries e valid.stored p).1)
  | inr other ↦ elim (Option-cases (find_key j h.entries)) [
    | inl n ↦ rw (other, n)
    | inr (d, s) ↦
        rw (other, s)
          (get_or-set_ne h.values e.off d.off v [] (λ o.
            ground
              (arith, eq_bytes_iff k j, find_key_same_off k j h.entries e d valid.distinct p s o)))
  ]
]

-- After `Set` the name has the new value, and every other name the one that it had.
pub value_of-set_header :
    (h : HeaderMap) (key value j : Bytes)
    → IsValid h
    → value_of (set_header h key value) j
      ≡ (if eq_bytes (canonicalize key) j then value else value_of h j)
unfolding set_header set_found
value_of-set_header h key value j valid =
    rw (intern_key-canonicalize key) (elim (Option-cases (find_key (canonicalize key) h.entries)) [
      | inl p ↦ rw p (value_of_insert h (canonicalize key) value j valid p)
      | inr (e, p) ↦ rw p (value_of_replace h (canonicalize key) value j e valid p)
    ])
