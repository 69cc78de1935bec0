-- ===== src/Storage/HeaderOrder.antt =====
-- The header of a decoded blob: fields that are written in order with canonical keys come back.
use mathlib.Core.List.{map}
use bouine.Prelude.{
  ℕ, suc, ◌≡◌, refl, sym, ap, ◌∙◌, false, List, [], ◌∷◌, ◌++◌, arith, length, get_or, length-append,
  append_assoc, append_nil,
}
use bouine.Prelude.Bytes.{Bytes}
use bouine.Header.Canonical.{intern_key}
use bouine.Header.HeaderMap.{
  HeaderEntry, HeaderMap, empty_map, value_at, fields, append_entry_canonical, append_entry,
  gt_bytes, insert_entry,
}
use bouine.Storage.Codec.{append_entries, sort_entries, header_of}

-- No key of the list is above a key that follows it.
abbrev pub NotAbove : Bytes → List Bytes → Type 0
NotAbove k [] = Unit
NotAbove k (l ∷ ls) = (gt_bytes k l ≡ false) × NotAbove k ls

abbrev pub InOrder : List Bytes → Type 0
InOrder [] = Unit
InOrder (k ∷ ks) = NotAbove k ks × InOrder ks

abbrev pub AllCanonical : List Bytes → Type 0
AllCanonical [] = Unit
AllCanonical (k ∷ ks) = (intern_key k ≡ k) × AllCanonical ks

abbrev pub keys_of : List HeaderEntry → List Bytes
keys_of es = map (λ e. e.key) es

keys_of-append : (es fs : List HeaderEntry) → keys_of (es ++ fs) ≡ keys_of es ++ keys_of fs
keys_of-append [] fs = refl
keys_of-append (e ∷ es) fs = ap (λ t. e.key ∷ t) (keys_of-append es fs)

NotAbove-at :
    (k l : Bytes) (ls bs : List Bytes) → NotAbove k (ls ++ (l ∷ bs)) → gt_bytes k l ≡ false
NotAbove-at k l [] bs h = h.0
NotAbove-at k l (a ∷ ls) bs h = NotAbove-at k l ls bs h.1

insert_entry_last :
    (x : HeaderEntry) (es : List HeaderEntry) (ks : List Bytes)
    → InOrder (keys_of es ++ (x.key ∷ ks))
    → insert_entry x es ≡ es ++ (x ∷ [])
unfolding insert_entry
insert_entry_last x [] ks h = refl
insert_entry_last x (e ∷ es) ks h =
    rw (NotAbove-at e.key x.key (keys_of es) ks h.0)
      (ap (λ t. e ∷ t) (insert_entry_last x es ks h.1))

sort_entries-append :
    (sorted es : List HeaderEntry)
    → InOrder (keys_of sorted ++ keys_of es)
    → sort_entries sorted es ≡ sorted ++ es
unfolding sort_entries
sort_entries-append sorted [] h = sym (append_nil sorted)
sort_entries-append sorted (e ∷ es) h =
    let next : InOrder (keys_of (sorted ++ (e ∷ [])) ++ keys_of es) =
      rw (keys_of-append sorted (e ∷ []), append_assoc (keys_of sorted) (e.key ∷ []) (keys_of es))
        h in
    rw (insert_entry_last e sorted (keys_of es) h)
      (sort_entries-append (sorted ++ (e ∷ [])) es next ∙ append_assoc sorted (e ∷ []) es)

-- The entries that appending makes, over values of which there are `n`.
entries_from : ℕ → List (Bytes × Bytes) → List HeaderEntry
entries_from n [] = []
entries_from n ((k, v) ∷ ps) = record { key = k; off = n } ∷ entries_from (suc n) ps

abbrev pub names_of : List (Bytes × Bytes) → List Bytes
names_of ps = map (λ p. p.0) ps

abbrev pub texts_of : List (Bytes × Bytes) → List Bytes
texts_of ps = map (λ p. p.1) ps

append_entries_from :
    (h : HeaderMap) (ps : List (Bytes × Bytes))
    → AllCanonical (names_of ps)
    → append_entries h ps ≡ record {
      entries = h.entries ++ entries_from (length h.values) ps;
      values = h.values ++ texts_of ps;
    }
unfolding append_entries append_entry append_entry_canonical entries_from
append_entries_from h [] c = rw (append_nil h.entries, append_nil h.values) refl
append_entries_from h ((k, v) ∷ ps) c =
    let one : length (h.values ++ (v ∷ [])) ≡ suc (length h.values) =
      omega (arith, length-append h.values (v ∷ [])) in
    let e : HeaderEntry = record { key = k; off = length h.values } in
    rw c.0 (
      append_entries_from (append_entry_canonical h k v) ps c.1
      ∙ rw
          (
            one,
            append_assoc h.values (v ∷ []) (texts_of ps),
            append_assoc h.entries (e ∷ []) (entries_from (suc (length h.values)) ps),
          )
          refl)

keys_of-entries_from :
    (n : ℕ) (ps : List (Bytes × Bytes)) → keys_of (entries_from n ps) ≡ names_of ps
unfolding entries_from
keys_of-entries_from n [] = refl
keys_of-entries_from n ((k, v) ∷ ps) = ap (λ t. k ∷ t) (keys_of-entries_from (suc n) ps)

get_or_behind : (vs ws : List Bytes) (v : Bytes) → get_or (vs ++ (v ∷ ws)) (length vs) [] ≡ v
get_or_behind [] ws v = refl
get_or_behind (u ∷ vs) ws v = get_or_behind vs ws v

fields_from :
    (vs : List Bytes) (ps : List (Bytes × Bytes))
    → map (λ e. (e.key, value_at (vs ++ texts_of ps) e)) (entries_from (length vs) ps) ≡ ps
unfolding entries_from
fields_from vs [] = refl
fields_from vs ((k, v) ∷ ps) =
    let one : length (vs ++ (v ∷ [])) ≡ suc (length vs) =
      omega (arith, length-append vs (v ∷ [])) in
    let rest : map (λ e. (e.key, value_at (vs ++ (v ∷ texts_of ps)) e))
          (entries_from (suc (length vs)) ps)
        ≡ ps =
      rw (one, append_assoc vs (v ∷ []) (texts_of ps)) at (fields_from (vs ++ (v ∷ [])) ps) in
    rw (get_or_behind vs (texts_of ps) v, rest) refl

pub fields-header_of :
    (ps : List (Bytes × Bytes))
    → AllCanonical (names_of ps)
    → InOrder (names_of ps)
    → fields (header_of ps) ≡ ps
unfolding header_of fields
fields-header_of ps c o =
    let ordered : InOrder (keys_of (entries_from 0 ps)) = rw (keys_of-entries_from 0 ps) o in
    rw (append_entries_from empty_map ps c, sort_entries-append [] (entries_from 0 ps) ordered)
      (fields_from [] ps)
