-- ===== src/Api/StatusTtl.antt =====
-- pkg/api/status_ttl.go: the per-status policy of negative caching. A Go map is an association list
-- in the order in which a `range` over it happens to go; the error texts are left out.
use bouine.Prelude.{
  ℕ, ◌+◌, ◌-◌, ◌*◌, ◌/◌, Bool, false, ◌&&◌, ◌||◌, List, [], ◌∷◌, Option, none, some, ltb, leb, ◌^◌,
  map, ◌==◌, if◌then◌else◌,
}
use mathlib.Core.Option.{get_or}
use mathlib.Core.Option
use bouine.Prelude.Bytes.{Bytes, codes, eq_bytes, is_digit}
use bouine.Prelude.Int.{ℤ, pos, negsuc, sub_ℕ, ltb_ℤ, leb_ℤ}

pub data Error : Type 0 where
  invalid_key out_of_range negative_ttl duplicate_status duplicate_class : Error

-- The value and the nil error, or the error.
pub data Result {ℓ} (A : Type ℓ) : Type ℓ where
  err : Error → Result A
  ok : A → Result A

infixl 5 ◌>>=◌
abbrev pub ◌>>=◌ {ℓ κ} : {A : Type ℓ} {B : Type κ} → Result A → (A → Result B) → Result B
err e >>= next = err e
ok x >>= next = next x

-- `strconv.Atoi`: a sign, then digits, and no more than an int64 holds.
unfoldable pub atoi_digits : ℕ → ℕ → Bytes → Option ℕ
atoi_digits limit acc [] = some acc
atoi_digits limit acc (c ∷ s) =
    let next = acc * 10 + (c - b'0') in
    let rest = atoi_digits limit next s in if is_digit c && leb next limit then rest else none

unfoldable pub atoi_unsigned : ℕ → Bytes → Option ℕ
atoi_unsigned limit [] = none
atoi_unsigned limit (c ∷ s) = atoi_digits limit 0 (c ∷ s)

unfoldable pub atoi : Bytes → Option ℤ
atoi [] = none
atoi (c ∷ s) =
    if c == b'-'
    then Option.map (λ n. sub_ℕ 0 n) (atoi_unsigned (2 ^ 63) s)
    else if c == b'+'
    then Option.map pos (atoi_unsigned (2 ^ 63 - 1) s)
    else Option.map pos (atoi_unsigned (2 ^ 63 - 1) (c ∷ s))

-- The code as a status, if it is an error status.
unfoldable pub validate_status_ttl_code : ℤ → Result ℕ
validate_status_ttl_code (negsuc n) = err out_of_range
validate_status_ttl_code (pos code) =
    if ltb code 400 || ltb 599 code then err out_of_range else ok code

unfoldable pub parse_status_code : Option ℤ → Result (ℕ × ℕ)
parse_status_code none = err invalid_key
parse_status_code (some code) = do c ← validate_status_ttl_code code; ok (c, c)

unfoldable pub parse_status_ttl_key : Bytes → Result (ℕ × ℕ)
parse_status_ttl_key key =
    if eq_bytes key (codes "4xx")
    then ok (400, 499)
    else if eq_bytes key (codes "5xx")
    then ok (500, 599)
    else parse_status_code (atoi key)

-- A map from ints to durations.
unfoldable pub find_ttl : ℕ → List (ℕ × ℤ) → Option ℤ
find_ttl k [] = none
find_ttl k ((j, v) ∷ m) = if j == k then some v else find_ttl k m

-- A StatusTTLPolicy; `none` is the nil policy.
pub record Policy : Type 0 where
  pub exact : List (ℕ × ℤ)
  pub classes : List (ℕ × ℤ)

abbrev pub StatusTtl : Type 0
StatusTtl = Option Policy

abbrev pub class_of : ℕ → ℕ
class_of lo = lo / 100

-- One round of the loop of NewStatusTTLMap: an entry that is not there yet is added.
unfoldable pub add_exact : Policy → ℕ → ℤ → Option ℤ → Result Policy
add_exact p lo ttl (some _) = err duplicate_status
add_exact p lo ttl none = ok (record p { exact = (lo, ttl) ∷ p.exact })

unfoldable pub add_class : Policy → ℕ → ℤ → Option ℤ → Result Policy
add_class p cls ttl (some _) = err duplicate_class
add_class p cls ttl none = ok (record p { classes = (cls, ttl) ∷ p.classes })

unfoldable pub add_entry : Policy → ℤ → ℕ × ℕ → Result Policy
add_entry p ttl (lo, hi) =
    if ltb_ℤ ttl (pos 0)
    then err negative_ttl
    else if lo == hi
    then add_exact p lo ttl (find_ttl lo p.exact)
    else add_class p (class_of lo) ttl (find_ttl (class_of lo) p.classes)

unfoldable pub add_key : Policy → Bytes × ℤ → Result Policy
add_key p (key, ttl) = do range ← parse_status_ttl_key key; add_entry p ttl range

unfoldable pub add_keys : Policy → List (Bytes × ℤ) → Result Policy
add_keys p [] = ok p
add_keys p (e ∷ es) = do q ← add_key p e; add_keys q es

unfoldable pub new_status_ttl_map : List (Bytes × ℤ) → Result StatusTtl
new_status_ttl_map [] = ok none
new_status_ttl_map (e ∷ es) = do
  p ← add_keys (record { exact = []; classes = [] }) (e ∷ es)
  ok (some p)

abbrev pub negative_statuses : List Bytes
negative_statuses = codes "404" ∷ codes "405" ∷ codes "410" ∷ codes "501" ∷ []

unfoldable pub default_neg_ttl_map : ℤ → List (Bytes × ℤ)
default_neg_ttl_map d = if leb_ℤ d (pos 0) then [] else map (λ s. (s, d)) negative_statuses

-- The method `TTL`: an exact entry before its class, and 0 for what has neither.
unfoldable pub policy_ttl : Policy → ℕ → Option ℤ → ℤ
policy_ttl p status (some d) = d
policy_ttl p status none = get_or (find_ttl (status / 100) p.classes) (pos 0)

unfoldable pub ttl_of : StatusTtl → ℕ → ℤ
ttl_of none status = pos 0
ttl_of (some p) status = policy_ttl p status (find_ttl status p.exact)

unfoldable pub neg_cacheable : StatusTtl → ℕ → Bool
neg_cacheable s status = ltb_ℤ (pos 0) (ttl_of s status)

unfoldable pub any_positive : List (ℕ × ℤ) → Bool
any_positive [] = false
any_positive ((k, ttl) ∷ m) = ltb_ℤ (pos 0) ttl || any_positive m

unfoldable pub covers_anything : StatusTtl → Bool
covers_anything none = false
covers_anything (some p) = any_positive p.exact || any_positive p.classes
