-- ===== src/Header/CacheControl.antt =====
-- pkg/header/cachedirectives.go: the Cache-Control tokenizer over strings (`ParseCacheControl`).
use bouine.Prelude.{
  ℕ, zero, suc, Bool, true, false, ◌&&◌, ◌||◌, [], ◌∷◌, Option, none, some, ◌==◌, if◌then◌else◌,
  length, not, drop,
}
use bouine.Prelude.Bytes.{Bytes, codes, is_empty, span}
use bouine.Prelude.Int.{ℤ, pos, max_int64, ltb_ℤ, ◌*ℤ◌, wrap64}
use mathlib.Core.Option.{get_or}
use bouine.Header.Text.{eq_fold, parse_int_no_alloc}

-- `Directives`. A `time.Duration` is its int64 number of nanoseconds.
pub record Directives : Type 0 where
  pub no_cache_fields : Bytes
  pub max_age : ℤ
  pub stale_if_error : ℤ
  pub stale_while_revalid : ℤ
  pub max_stale : ℤ
  pub min_fresh : ℤ
  pub s_max_age : ℤ
  pub max_age_set : Bool
  pub s_max_age_set : Bool
  pub min_fresh_set : Bool
  pub max_stale_set : Bool
  pub stale_while_revalid_set : Bool
  pub stale_if_error_set : Bool
  pub must_revalidate : Bool
  pub proxy_revalidate : Bool
  pub immutable : Bool
  pub no_transform : Bool
  pub only_if_cached : Bool
  pub must_understand : Bool
  pub no_store : Bool
  pub is_public : Bool
  pub is_private : Bool
  pub no_cache : Bool

-- `var d Directives`
abbrev pub no_directives : Directives
no_directives = record {
  no_cache_fields = [];
  max_age = pos 0;
  stale_if_error = pos 0;
  stale_while_revalid = pos 0;
  max_stale = pos 0;
  min_fresh = pos 0;
  s_max_age = pos 0;
  max_age_set = false;
  s_max_age_set = false;
  min_fresh_set = false;
  max_stale_set = false;
  stale_while_revalid_set = false;
  stale_if_error_set = false;
  must_revalidate = false;
  proxy_revalidate = false;
  immutable = false;
  no_transform = false;
  only_if_cached = false;
  must_understand = false;
  no_store = false;
  is_public = false;
  is_private = false;
  no_cache = false;
}

-- `time.Second`
abbrev pub second : ℤ
second = pos 1000000000

-- `for i < len(s) && (s[i] == ' ' || s[i] == ',' || s[i] == '\t')`: the slice from the new `i` on.
unfoldable pub skip_cc_delimiters : Bytes → Bytes
skip_cc_delimiters [] = []
skip_cc_delimiters (c ∷ s) =
    if c == b' ' || c == b',' || c == 9 then skip_cc_delimiters s else c ∷ s

-- A value is quoted or plain. With it comes the slice from the next `i` on.
unfoldable pub scan_quoted : Bytes → Bytes × Bytes
scan_quoted s = let (val, rest) = span (λ c. not (c == b'"')) s in (val, drop 1 rest)

unfoldable pub scan_plain : Bytes → Bytes × Bytes
scan_plain = span (λ c. not (c == b',') && not (c == b' ') && not (c == 9))

unfoldable pub scan_cc_value : Bytes → Bytes × Bytes
scan_cc_value [] = scan_plain []
scan_cc_value (c ∷ s) = if c == b'"' then scan_quoted s else scan_plain (c ∷ s)

-- `if i < len(s) && s[i] == '='`, behind the key.
unfoldable pub scan_after_key : Bytes → Bytes → Bytes × Bytes × Bytes
scan_after_key key [] = (key, [], [])
scan_after_key key (c ∷ s) =
    let (val, next) = scan_cc_value s in if c == b'=' then (key, val, next) else (key, [], c ∷ s)

unfoldable pub scan_key : Bytes → Bytes × Bytes
scan_key = span (λ c. not (c == b'=') && not (c == b',') && not (c == b' ') && not (c == 9))

unfoldable pub scan_cc_token : Bytes → Bytes × Bytes × Bytes
scan_cc_token s = let (key, rest) = scan_key s in scan_after_key key rest

-- The duration and its flag, which the source writes through two pointers.
unfoldable pub parse_dur : ℤ → Bool → Bytes → ℤ × Bool
parse_dur dur is_set val =
    let (n, ok) = parse_int_no_alloc val in
    let d = wrap64 (n *ℤ second) in
    if not ok then (dur, is_set) else if not is_set || ltb_ℤ dur d then (d, true) else (dur, is_set)

-- `none` where the source answers false.
unfoldable pub apply_bool_directive : Directives → Bytes → Option Directives
apply_bool_directive d key =
    if eq_fold key (codes "no-store")
    then some (record d { no_store = true })
    else if eq_fold key (codes "no-cache")
    then some (record d { no_cache = true })
    else if eq_fold key (codes "private")
    then some (record d { is_private = true })
    else if eq_fold key (codes "public")
    then some (record d { is_public = true })
    else if eq_fold key (codes "must-revalidate")
    then some (record d { must_revalidate = true })
    else if eq_fold key (codes "proxy-revalidate")
    then some (record d { proxy_revalidate = true })
    else if eq_fold key (codes "immutable")
    then some (record d { immutable = true })
    else if eq_fold key (codes "no-transform")
    then some (record d { no_transform = true })
    else if eq_fold key (codes "only-if-cached")
    then some (record d { only_if_cached = true })
    else if eq_fold key (codes "must-understand")
    then some (record d { must_understand = true })
    else none

unfoldable pub set_max_age : Directives → Bytes → Directives
set_max_age d val =
    let (v, s) = parse_dur d.max_age d.max_age_set val in record d { max_age = v; max_age_set = s }

unfoldable pub set_s_max_age : Directives → Bytes → Directives
set_s_max_age d val =
    let (v, s) = parse_dur d.s_max_age d.s_max_age_set val in
    record d { s_max_age = v; s_max_age_set = s }

unfoldable pub set_min_fresh : Directives → Bytes → Directives
set_min_fresh d val =
    let (v, s) = parse_dur d.min_fresh d.min_fresh_set val in
    record d { min_fresh = v; min_fresh_set = s }

unfoldable pub set_max_stale : Directives → Bytes → Directives
set_max_stale d val =
    let (v, s) = parse_dur d.max_stale d.max_stale_set val in
    if is_empty val
    then record d { max_stale = max_int64; max_stale_set = true }
    else record d { max_stale = v; max_stale_set = s }

unfoldable pub set_stale_while_revalidate : Directives → Bytes → Directives
set_stale_while_revalidate d val =
    let (v, s) = parse_dur d.stale_while_revalid d.stale_while_revalid_set val in
    record d { stale_while_revalid = v; stale_while_revalid_set = s }

unfoldable pub set_stale_if_error : Directives → Bytes → Directives
set_stale_if_error d val =
    let (v, s) = parse_dur d.stale_if_error d.stale_if_error_set val in
    record d { stale_if_error = v; stale_if_error_set = s }

unfoldable pub apply_dur_directive : Directives → Bytes → Bytes → Directives
apply_dur_directive d key val =
    if eq_fold key (codes "max-age")
    then set_max_age d val
    else if eq_fold key (codes "s-maxage")
    then set_s_max_age d val
    else if eq_fold key (codes "min-fresh")
    then set_min_fresh d val
    else if eq_fold key (codes "max-stale")
    then set_max_stale d val
    else if eq_fold key (codes "stale-while-revalidate")
    then set_stale_while_revalidate d val
    else if eq_fold key (codes "stale-if-error")
    then set_stale_if_error d val
    else d

unfoldable pub apply_cc_directive : Directives → Bytes → Bytes → Directives
apply_cc_directive d key val =
    if eq_fold key (codes "no-cache") && not (is_empty val)
    then record d { no_cache_fields = val }
    else get_or (apply_bool_directive d key) (apply_dur_directive d key val)

-- The outer loop, with fuel; `none` means that the fuel ran out.
unfoldable pub parse_loop : ℕ → Bytes → Directives → Option Directives
parse_loop zero s d = none
parse_loop (suc fuel) s d = elim (skip_cc_delimiters s) [
  | [] ↦ some d
  | c ∷ r ↦
      let (key, val, next) = scan_cc_token (c ∷ r) in
      parse_loop fuel next (apply_cc_directive d key val)
]

-- Each round takes a byte at least, so a round more than the bytes is fuel enough.
unfoldable pub parse_cache_control : Bytes → Directives
parse_cache_control s = get_or (parse_loop (suc (length s)) s no_directives) no_directives
