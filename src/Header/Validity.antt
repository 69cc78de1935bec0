-- ===== src/Header/Validity.antt =====
-- The validity of `Map` of pkg/header/headermap.go under its operations, and what a lookup finds
-- after it.
use bouine.Prelude.{
  ℕ, ◌≤◌, ◌≡◌, refl, sym, ◌≢◌, List, [], ◌∷◌, ◌++◌, arith, if◌then◌else◌, length, length-append,
  length-set, inl, inr, Bool-cases, Option-cases,
}
use bouine.Prelude.Bytes.{Bytes, eq_bytes, eq_bytes_iff}
use bouine.Header.Canonical.{
  canonicalize, canonicalize_idem, canonical_header_key-canonicalize, intern_key-canonicalize,
}
use bouine.Header.HeaderMap.{
  HeaderEntry, HeaderMap, find_key, get, append_entry_canonical, append_entry, insert_entry,
  insert_sorted, set_found, set_header, remove_first, del, gt_bytes,
}
use bouine.Header.Lookup.{
  AllEntries, IsStored, Distinct, IsValid, value_of, get-value_of, value_of-set_header,
}

All-insert :
    (P : HeaderEntry → Type 0) (x : HeaderEntry) (es : List HeaderEntry)
    → P x
    → AllEntries P es
    → AllEntries P (insert_entry x es)
unfolding insert_entry
All-insert P x [] p a = (p, tt)
All-insert P x (e ∷ es) p a = elim (Bool-cases (gt_bytes e.key x.key)) [
  | inl g ↦ rw g (p, a)
  | inr g ↦ rw g (a.0, All-insert P x es p a.1)
]

All-append :
    (P : HeaderEntry → Type 0) (es fs : List HeaderEntry)
    → AllEntries P es
    → AllEntries P fs
    → AllEntries P (es ++ fs)
All-append P [] fs a b = b
All-append P (e ∷ es) fs a b = (a.0, All-append P es fs a.1 b)

All-remove :
    (P : HeaderEntry → Type 0) (k : Bytes) (es : List HeaderEntry)
    → AllEntries P es
    → AllEntries P (remove_first k es)
unfolding remove_first
All-remove P k [] a = tt
All-remove P k (e ∷ es) a = elim (Bool-cases (eq_bytes e.key k)) [
  | inl g ↦ rw g a.1
  | inr g ↦ rw g (a.0, All-remove P k es a.1)
]

IsStored-mono :
    (m n : ℕ) (es : List HeaderEntry)
    → m ≤ n
    → AllEntries (IsStored m) es
    → AllEntries (IsStored n) es
IsStored-mono m n [] le a = tt
IsStored-mono m n (e ∷ es) le a = ((a.0.0, omega (arith, a.0.1)), IsStored-mono m n es le a.1)

-- An offset past the values is new.
stored_fresh :
    (n : ℕ) (es : List HeaderEntry) → AllEntries (IsStored n) es → AllEntries (λ x. n ≢ x.off) es
stored_fresh n [] a = tt
stored_fresh n (e ∷ es) a = (λ p. absurd (omega (arith, a.0.1, p)), stored_fresh n es a.1)

Distinct-insert :
    (x : HeaderEntry) (es : List HeaderEntry)
    → AllEntries (λ y. x.off ≢ y.off) es
    → Distinct es
    → Distinct (insert_entry x es)
unfolding insert_entry
Distinct-insert x [] f d = (tt, tt)
Distinct-insert x (e ∷ es) f d = elim (Bool-cases (gt_bytes e.key x.key)) [
  | inl g ↦ rw g (f, d)
  | inr g ↦
      rw g
        (All-insert (λ y. e.off ≢ y.off) x es (λ p. f.0 (sym p)) d.0, Distinct-insert x es f.1 d.1)
]

Distinct-append :
    (x : HeaderEntry) (es : List HeaderEntry)
    → AllEntries (λ y. x.off ≢ y.off) es
    → Distinct es
    → Distinct (es ++ (x ∷ []))
Distinct-append x [] f d = (tt, tt)
Distinct-append x (e ∷ es) f d = (
  All-append (λ y. e.off ≢ y.off) es (x ∷ []) d.0 (λ p. f.0 (sym p), tt),
  Distinct-append x es f.1 d.1,
)

Distinct-remove : (k : Bytes) (es : List HeaderEntry) → Distinct es → Distinct (remove_first k es)
unfolding remove_first
Distinct-remove k [] d = tt
Distinct-remove k (e ∷ es) d = elim (Bool-cases (eq_bytes e.key k)) [
  | inl g ↦ rw g d.1
  | inr g ↦ rw g (All-remove (λ y. e.off ≢ y.off) k es d.0, Distinct-remove k es d.1)
]

module _ (h : HeaderMap) (valid : IsValid h) where
  grown : (value : Bytes) → AllEntries (IsStored (length (h.values ++ (value ∷ [])))) h.entries
  grown value =
      IsStored-mono (length h.values) _ h.entries
        (omega (arith, length-append {0} h.values (value ∷ []))) valid.stored

  new-IsStored :
      (key value : Bytes)
      → canonicalize key ≡ key
      → IsStored (length (h.values ++ (value ∷ []))) (record { key = key; off = length h.values })
  new-IsStored key value c = (c, omega (arith, length-append {0} h.values (value ∷ [])))

  insert_sorted-IsValid :
      (key value : Bytes) → canonicalize key ≡ key → IsValid (insert_sorted h key value)
  unfolding insert_sorted
  insert_sorted-IsValid key value c = record {
    stored = All-insert _ _ h.entries (new-IsStored key value c) (grown value);
    distinct =
        Distinct-insert _ h.entries (stored_fresh (length h.values) h.entries valid.stored)
          valid.distinct;
  }

  append_entry_canonical-IsValid :
      (key value : Bytes) → canonicalize key ≡ key → IsValid (append_entry_canonical h key value)
  unfolding append_entry_canonical
  append_entry_canonical-IsValid key value c = record {
    stored = All-append _ h.entries _ (grown value) (new-IsStored key value c, tt);
    distinct =
        Distinct-append _ h.entries (stored_fresh (length h.values) h.entries valid.stored)
          valid.distinct;
  }

  set_header-IsValid : (key value : Bytes) → IsValid (set_header h key value)
  unfolding set_header set_found
  set_header-IsValid key value =
      rw (intern_key-canonicalize key)
        (elim (Option-cases (find_key (canonicalize key) h.entries)) [
          | inl p ↦ rw p (insert_sorted-IsValid (canonicalize key) value (canonicalize_idem key))
          | inr (e, p) ↦ rw p (record {
            stored = rw (length-set h.values e.off value) valid.stored;
            distinct = valid.distinct;
          })
        ])

  append_entry-IsValid : (key value : Bytes) → IsValid (append_entry h key value)
  unfolding append_entry
  append_entry-IsValid key value =
      rw (intern_key-canonicalize key)
        (append_entry_canonical-IsValid (canonicalize key) value (canonicalize_idem key))

  del-IsValid : (key : Bytes) → IsValid (del h key)
  unfolding del
  del-IsValid key = record {
    stored = All-remove _ _ h.entries valid.stored;
    distinct = Distinct-remove _ h.entries valid.distinct;
  }

  -- From a valid map `Set`, `AppendEntry` and `Del` make a valid map.
  pub header_map_operations-IsValid :
      (key value : Bytes)
      → IsValid (set_header h key value) × IsValid (append_entry h key value) × IsValid (del h key)
  header_map_operations-IsValid key value =
      (set_header-IsValid key value, append_entry-IsValid key value, del-IsValid key)

  -- After `Set`, `Get` of a name with the same canonical form gives the value that was set, and `Get`
  -- of any other name gives what it gave before.
  pub get-set_header :
      (key value j : Bytes)
      → get (set_header h key value) j
        ≡ (if eq_bytes (canonicalize key) (canonicalize j) then value else get h j)
  get-set_header key value j =
      rw
        (
          get-value_of (set_header h key value) j (set_header-IsValid key value),
          get-value_of h j valid,
        )
        (value_of-set_header h key value (canonicalize j) valid)

find_key_remove_ne :
    (j k : Bytes) (es : List HeaderEntry) → j ≢ k → find_key j (remove_first k es) ≡ find_key j es
unfolding find_key remove_first
find_key_remove_ne j k [] h = refl
find_key_remove_ne j k (e ∷ es) h =
    ground (arith, eq_bytes_iff e.key j, eq_bytes_iff e.key k, find_key_remove_ne j k es h)

value_of-del_ne :
    (h : HeaderMap) (key ck : Bytes)
    → ck ≢ canonicalize key
    → value_of (del h key) ck ≡ value_of h ck
unfolding del
value_of-del_ne h key ck ne =
    rw (canonical_header_key-canonicalize, find_key_remove_ne ck (canonicalize key) h.entries ne)

-- `Del` of a name leaves alone what `Get` gives for every name with another canonical form.
pub get-del_ne :
    (h : HeaderMap) (key j : Bytes)
    → IsValid h
    → canonicalize j ≢ canonicalize key
    → get (del h key) j ≡ get h j
get-del_ne h key j valid ne =
    rw (get-value_of (del h key) j (del-IsValid h valid key), get-value_of h j valid)
      (value_of-del_ne h key (canonicalize j) ne)
