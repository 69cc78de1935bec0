-- ===== src/Header/HeaderMap.antt =====
-- pkg/header/headermap.go: `Map`, a flat list of key and offset pairs over a slice of values.
-- `internValue` returns an equal text, so it is left out. An offset is always in range there, and
-- `value_at` reads the empty text where Go would panic.
use mathlib.Core.List.{map}
use bouine.Prelude.{
  ℕ, ◌+◌, Bool, true, false, ◌&&◌, List, [], ◌∷◌, ◌++◌, Option, none, some, ltb, ◌==◌,
  if◌then◌else◌, length, get_or, set, not,
}
use bouine.Prelude.Bytes.{Bytes, codes, eq_bytes, is_empty}
use bouine.Header.Canonical.{is_canonical, canonical_header_key, intern_key, equals_canonical_of}

pub record HeaderEntry : Type 0 where
  pub key : Bytes
  pub off : ℕ

pub record HeaderMap : Type 0 where
  pub entries : List HeaderEntry
  pub values : List Bytes

-- `Map{}`, and `NewMap(n)`, whose capacity shows nowhere.
abbrev pub empty_map : HeaderMap
empty_map = record { entries = []; values = [] }

abbrev pub value_at : List Bytes → HeaderEntry → Bytes
value_at values e = get_or values e.off []

-- `for i := range h.entries { if h.entries[i].key == key { return … } }`
unfoldable pub find_key : Bytes → List HeaderEntry → Option HeaderEntry
find_key key [] = none
find_key key (e ∷ es) = if eq_bytes e.key key then some e else find_key key es

-- The second scan, against the canonical form of the key.
unfoldable pub find_canonical_of : Bytes → List HeaderEntry → Option HeaderEntry
find_canonical_of key [] = none
find_canonical_of key (e ∷ es) =
    if equals_canonical_of e.key key then some e else find_canonical_of key es

abbrev pub value_or_empty : List Bytes → Option HeaderEntry → Bytes
value_or_empty values none = []
value_or_empty values (some e) = value_at values e

-- The second half of Get, behind the first scan.
unfoldable pub get_fallback : HeaderMap → Bytes → Bytes
get_fallback h key =
    if is_canonical key then [] else value_or_empty h.values (find_canonical_of key h.entries)

unfoldable pub get_found : HeaderMap → Bytes → Option HeaderEntry → Bytes
get_found h key none = get_fallback h key
get_found h key (some e) = value_at h.values e

unfoldable pub get : HeaderMap → Bytes → Bytes
get h key = if length h.entries == 0 then [] else get_found h key (find_key key h.entries)

-- `strings.Join(parts, sep)`
unfoldable pub join : Bytes → List Bytes → Bytes
join sep [] = []
join sep (p ∷ []) = p
join sep (p ∷ q ∷ ps) = p ++ (sep ++ join sep (q ∷ ps))

unfoldable pub parts_of : (HeaderEntry → Bool) → List Bytes → List HeaderEntry → List Bytes
parts_of p values [] = []
parts_of p values (e ∷ es) =
    let rest = parts_of p values es in if p e then value_at values e ∷ rest else rest

-- The parts that GetAll joins.
unfoldable pub all_parts : HeaderMap → Bytes → List Bytes → List Bytes
all_parts h key (p ∷ ps) = p ∷ ps
all_parts h key [] =
    if is_canonical key
    then []
    else parts_of (λ e. equals_canonical_of e.key key) h.values h.entries

unfoldable pub join_parts : List Bytes → Bytes
join_parts [] = []
join_parts (p ∷ []) = p
join_parts (p ∷ q ∷ ps) = join (codes ", ") (p ∷ q ∷ ps)

unfoldable pub get_all : HeaderMap → Bytes → Bytes
get_all h key = join_parts (all_parts h key (parts_of (λ e. eq_bytes e.key key) h.values h.entries))

-- The second pass of CookieAll, with `b` so far.
unfoldable pub join_cookies : Bytes → List Bytes → Bytes
join_cookies b [] = b
join_cookies b (v ∷ vs) = join_cookies (if is_empty b then v else (b ++ codes "; ") ++ v) vs

-- Its first pass counts the values that are not empty.
unfoldable pub cookie_values : HeaderMap → List Bytes
cookie_values h =
    parts_of (λ e. eq_bytes e.key (codes "Cookie") && not (is_empty (value_at h.values e))) h.values
      h.entries

unfoldable pub cookies_of : List Bytes → Bytes
cookies_of [] = []
cookies_of (v ∷ []) = v
cookies_of (v ∷ w ∷ vs) = join_cookies [] (v ∷ w ∷ vs)

unfoldable pub cookie_all : HeaderMap → Bytes
cookie_all h = cookies_of (cookie_values h)

unfoldable pub has : HeaderMap → Bytes → Bool
has h key = elim (find_key (canonical_header_key key) h.entries) [ none ↦ false | some e ↦ true ]

unfoldable pub append_entry_canonical : HeaderMap → Bytes → Bytes → HeaderMap
append_entry_canonical h key value = record {
  entries = h.entries ++ (record { key = key; off = length h.values } ∷ []);
  values = h.values ++ (value ∷ []);
}

unfoldable pub append_entry : HeaderMap → Bytes → Bytes → HeaderMap
append_entry h key value = append_entry_canonical h (intern_key key) value

-- `a > b` on strings.
unfoldable pub gt_bytes : Bytes → Bytes → Bool
gt_bytes [] b = false
gt_bytes (x ∷ a) [] = true
gt_bytes (x ∷ a) (y ∷ b) = let rest = gt_bytes a b in if x == y then rest else ltb y x

-- The entry goes in front of the first one with a greater key.
unfoldable pub insert_entry : HeaderEntry → List HeaderEntry → List HeaderEntry
insert_entry x [] = x ∷ []
insert_entry x (e ∷ es) =
    let rest = insert_entry x es in if gt_bytes e.key x.key then x ∷ e ∷ es else e ∷ rest

unfoldable pub insert_sorted : HeaderMap → Bytes → Bytes → HeaderMap
insert_sorted h key value = record {
  entries = insert_entry (record { key = key; off = length h.values }) h.entries;
  values = h.values ++ (value ∷ []);
}

unfoldable pub set_found : HeaderMap → Bytes → Bytes → Option HeaderEntry → HeaderMap
set_found h key value none = insert_sorted h key value
set_found h key value (some e) = record h { values = set h.values e.off value }

unfoldable pub set_header : HeaderMap → Bytes → Bytes → HeaderMap
set_header h key value = let ck = intern_key key in set_found h ck value (find_key ck h.entries)

-- SetEntryRaw appends where Set keeps the order.
unfoldable pub set_raw_found : HeaderMap → Bytes → Bytes → Option HeaderEntry → HeaderMap
set_raw_found h key value none = append_entry_canonical h key value
set_raw_found h key value (some e) = record h { values = set h.values e.off value }

unfoldable pub set_entry_raw : HeaderMap → Bytes → Bytes → HeaderMap
set_entry_raw h key value = set_raw_found h key value (find_key key h.entries)

unfoldable pub remove_first : Bytes → List HeaderEntry → List HeaderEntry
remove_first key [] = []
remove_first key (e ∷ es) = if eq_bytes e.key key then es else e ∷ remove_first key es

-- The value of a deleted entry stays in the values.
unfoldable pub del : HeaderMap → Bytes → HeaderMap
del h key = record h { entries = remove_first (canonical_header_key key) h.entries }

abbrev pub len : HeaderMap → ℕ
len h = length h.entries

-- What Range calls `f` with, as long as that answers true.
unfoldable pub fields : HeaderMap → List (Bytes × Bytes)
fields h = map (λ e. (e.key, value_at h.values e)) h.entries

unfoldable pub sum_lengths : List Bytes → ℕ
sum_lengths [] = 0
sum_lengths (v ∷ vs) = length v + sum_lengths vs

unfoldable pub footprint : HeaderMap → ℕ × ℕ × ℕ
footprint h = (length h.entries, length h.values, sum_lengths h.values)

unfoldable pub clone : HeaderMap → HeaderMap
clone h = if length h.entries == 0 then empty_map else h
