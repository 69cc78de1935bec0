-- ===== src/Storage/Bans.antt =====
-- internal/storage/bans.go and the ban predicates of hot.go: a ban, its predicate and its class. Go's regular expressions are a parameter: `regexp` gives
-- the test of a pattern, or none for one that does not compile.
pub mod Snapshots
pub mod Lookups
pub mod Literals
pub mod Classes
pub mod Surrogates
pub mod BanList
pub mod Registrations
pub mod Views
pub mod Invariants
pub mod Escapes
pub mod Pruning
use bouine.Prelude.{
  ℕ, Bool, true, false, ◌&&◌, ◌||◌, not, List, [], ◌∷◌, ◌++◌, Option, none, some, ◌==◌, leb, length,
  if◌then◌else◌,
}
use bouine.Prelude.Bytes.{Bytes, codes, eq_bytes, is_empty, has_prefix}
use bouine.Prelude.Int.{ℤ, pos, ◌-ℤ◌, ltb_ℤ, eq_ℤ, min_int64, wrap64}
use bouine.Header.HeaderMap.{get}
use bouine.Api.Object.{Object, is_zero_time, add_time}
use bouine.Cluster.Wire.{unix_epoch}
use bouine.Cluster.Events.{BanExpr}

abbrev pub Regexp : Type 0
Regexp = Bytes → Option (Bytes → Bool)

pub record BanPattern : Type 0 where
  pub host_regex : Bytes
  pub path_regex : Bytes
  pub surrogate_key : Bytes

abbrev pub pattern_of : BanExpr → BanPattern
pattern_of e = record {
  host_regex = e.host_regex;
  path_regex = e.path_regex;
  surrogate_key = e.surrogate_key;
}

pub record ActiveBan : Type 0 where
  pub pred : Object → Bool
  pub created : ℤ
  pub pattern : BanPattern
  pub exempt_nanos : ℤ
  pub surrogate : Bool

-- noExemption is the least int64.
unfoldable pub exempt_after : ActiveBan → ℤ
exempt_after b = if eq_ℤ b.exempt_nanos min_int64 then pos 0 else add_time unix_epoch b.exempt_nanos

unfoldable pub exempt_nanos_of : ℤ → ℤ
exempt_nanos_of t = if is_zero_time t then min_int64 else wrap64 (t -ℤ unix_epoch)

-- `\.+*?()|[]{}^$`
unfoldable pub is_metachar : ℕ → Bool
is_metachar c =
    c == 92
    || c == b'.'
    || c == b'+'
    || c == b'*'
    || c == b'?'
    || c == b'('
    || c == b')'
    || c == b'|'
    || c == b'['
    || c == b']'
    || c == b'{'
    || c == b'}'
    || c == b'^'
    || c == b'$'

unfoldable pub is_ban_literal : Bytes → Bool
is_ban_literal [] = true
is_ban_literal (c ∷ s) = not (is_metachar c) && is_ban_literal s

abbrev pub prepend : ℕ → Option Bytes → Option Bytes
prepend c none = none
prepend c (some s) = some (c ∷ s)

unfoldable pub literal_of_body : Bytes → Option Bytes
literal_of_body [] = some []
literal_of_body (c ∷ []) = if is_metachar c then none else some (c ∷ [])
literal_of_body (c ∷ d ∷ s) = elim (c == 92) [
  | true ↦ prepend d (literal_of_body s)
  | false ↦ elim (is_metachar c) [ true ↦ none | false ↦ prepend c (literal_of_body (d ∷ s)) ]
]

-- `pattern[len(pattern)-1] == '$'`
unfoldable pub ends_in_dollar : Bytes → Bool
ends_in_dollar [] = false
ends_in_dollar (c ∷ []) = c == b'$'
ends_in_dollar (c ∷ d ∷ s) = ends_in_dollar (d ∷ s)

unfoldable pub drop_last : Bytes → Bytes
drop_last [] = []
drop_last (c ∷ []) = []
drop_last (c ∷ d ∷ s) = c ∷ drop_last (d ∷ s)

-- The literal of ^literal, and of ^literal$; none where isAnchoredPrefix and isAnchoredExact say no.
unfoldable pub anchored_prefix : Bytes → Option Bytes
anchored_prefix [] = none
anchored_prefix (c ∷ s) =
    if is_empty s || not (c == b'^') || ends_in_dollar s then none else literal_of_body s

unfoldable pub anchored_exact : Bytes → Option Bytes
anchored_exact [] = none
anchored_exact (c ∷ s) =
    if leb (length s) 1 || not (c == b'^') || not (ends_in_dollar s)
    then none
    else literal_of_body (drop_last s)

-- A class with what the snapshot keeps of the pattern: the string of literalHostPattern or
-- literalPathPattern, or the prefix of anchoredPrefix.
pub data BanClass : Type 0 where
  opaque_ban : BanClass
  literal_host : Bytes → BanClass
  literal_path : Bytes → BanClass
  literal_surrogate : BanClass
  prefix_host : Bytes → BanClass
  prefix_path : Bytes → BanClass

abbrev pub prefix_class : (Bytes → BanClass) → Option Bytes → BanClass
prefix_class prefix none = opaque_ban
prefix_class prefix (some p) = prefix p

abbrev pub exact_class : (Bytes → BanClass) → Option Bytes → BanClass → BanClass
exact_class literal none other = other
exact_class literal (some s) other = literal s

-- The anchored forms hold metacharacters, so a literal pattern is its own string.
unfoldable pub classify_pattern : (Bytes → BanClass) → (Bytes → BanClass) → Bytes → BanClass
classify_pattern literal prefix s =
    if is_ban_literal s
    then literal s
    else exact_class literal (anchored_exact s) (prefix_class prefix (anchored_prefix s))

unfoldable pub classify_ban : BanPattern → BanClass
classify_ban p =
    if is_empty p.host_regex
    then if is_empty p.path_regex
      then if is_empty p.surrogate_key then opaque_ban else literal_surrogate
      else if is_empty p.surrogate_key
      then classify_pattern literal_path prefix_path p.path_regex
      else opaque_ban
    else if is_empty p.path_regex && is_empty p.surrogate_key
    then classify_pattern literal_host prefix_host p.host_regex
    else opaque_ban

abbrev pub host_of : Object → Bytes
host_of obj = get obj.header (codes "X-Bouine-Host")

abbrev pub path_of : Object → Bytes
path_of obj = get obj.header (codes "X-Bouine-Path")

-- compileBanPattern: the test that the predicate makes of a header value.
unfoldable pub compile_ban_pattern : Regexp → Bytes → Option (Bytes → Bool)
compile_ban_pattern regexp s =
    if is_empty s
    then some (λ v. true)
    else if is_ban_literal s
    then some (λ v. eq_bytes v s)
    else regexp s

unfoldable pub has_surrogate_key : List Bytes → Bytes → Bool
has_surrogate_key [] key = false
has_surrogate_key (k ∷ ks) key = eq_bytes k key || has_surrogate_key ks key

-- `StoredAt.After(t)`
abbrev pub after : ℤ → ℤ → Bool
after a b = ltb_ℤ b a

unfoldable pub ban_predicate : BanExpr → (Bytes → Bool) → (Bytes → Bool) → Object → Bool
ban_predicate e host path obj =
    not (not (is_zero_time e.created_at) && after obj.stored_at e.created_at)
    && host (host_of obj)
    && path (path_of obj)
    && (is_empty e.surrogate_key || has_surrogate_key obj.surrogate_keys e.surrogate_key)

unfoldable pub compile_ban_predicate : Regexp → BanExpr → Option (Object → Bool)
compile_ban_predicate regexp e = elim (compile_ban_pattern regexp e.host_regex) [
  | none ↦ none
  | some host ↦ elim (compile_ban_pattern regexp e.path_regex) [
    | none ↦ none
    | some path ↦ some (ban_predicate e host path)
  ]
]

unfoldable pub subject_to : Object → ℤ → Bool
subject_to obj exempt = is_zero_time exempt || not (after obj.stored_at exempt)
