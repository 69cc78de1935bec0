-- ===== src/Header/CacheControlBytes.antt =====
-- pkg/header/cachedirectives.go: the second copy of the tokenizer, over byte slices
-- (`ParseCacheControlBytes`).
use bouine.Prelude.{
  ℕ, zero, suc, Bool, true, false, ◌&&◌, ◌||◌, [], ◌∷◌, Option, none, some, ◌==◌, if◌then◌else◌,
  length, not, drop, ◌-◌,
}
use bouine.Prelude.Bytes.{Bytes, codes, is_empty, span, is_digit}
use bouine.Prelude.Int.{ℤ, pos, max_int64, ltb_ℤ, ◌*ℤ◌, ◌+ℤ◌, wrap64}
use mathlib.Core.Option.{get_or}
use bouine.Header.Text.{fold_byte}
use bouine.Header.CacheControl.{Directives, no_directives, second}

-- `if ca >= 'A' && ca <= 'Z' { ca += 'a' - 'A' }`, in the copy over byte slices.
unfoldable pub eq_fold_bytes_loop : Bytes → Bytes → Bool
eq_fold_bytes_loop (a ∷ s) (b ∷ t) =
    if fold_byte a == fold_byte b then eq_fold_bytes_loop s t else false
eq_fold_bytes_loop _ _ = true

unfoldable pub eq_fold_bytes : Bytes → Bytes → Bool
eq_fold_bytes a b = if length a == length b then eq_fold_bytes_loop a b else false

unfoldable pub parse_int_bytes_loop : ℤ → Bool → Bytes → ℤ × Bool
parse_int_bytes_loop n found [] = (n, found)
parse_int_bytes_loop n found (c ∷ s) =
    let rest = parse_int_bytes_loop (wrap64 (wrap64 (n *ℤ pos 10) +ℤ pos (c - b'0'))) true s in
    if is_digit c then rest else (n, found)

unfoldable pub parse_int_bytes : Bytes → ℤ × Bool
parse_int_bytes s = if is_empty s then (pos 0, false) else parse_int_bytes_loop (pos 0) false s

-- `for i < len(s) && (s[i] == ' ' || s[i] == ',' || s[i] == '\t')`: the slice from the new `i` on.
unfoldable pub skip_cc_delimiters_bytes : Bytes → Bytes
skip_cc_delimiters_bytes [] = []
skip_cc_delimiters_bytes (c ∷ s) =
    if c == b' ' || c == b',' || c == 9 then skip_cc_delimiters_bytes s else c ∷ s

-- A value is quoted or plain. With it comes the slice from the next `i` on.
unfoldable pub scan_quoted_bytes : Bytes → Bytes × Bytes
scan_quoted_bytes s = let (val, rest) = span (λ c. not (c == b'"')) s in (val, drop 1 rest)

unfoldable pub scan_plain_bytes : Bytes → Bytes × Bytes
scan_plain_bytes = span (λ c. not (c == b',') && not (c == b' ') && not (c == 9))

unfoldable pub scan_cc_value_bytes : Bytes → Bytes × Bytes
scan_cc_value_bytes [] = scan_plain_bytes []
scan_cc_value_bytes (c ∷ s) = if c == b'"' then scan_quoted_bytes s else scan_plain_bytes (c ∷ s)

-- `if i < len(s) && s[i] == '='`, behind the key.
unfoldable pub scan_after_key_bytes : Bytes → Bytes → Bytes × Bytes × Bytes
scan_after_key_bytes key [] = (key, [], [])
scan_after_key_bytes key (c ∷ s) =
    let (val, next) = scan_cc_value_bytes s in
    if c == b'=' then (key, val, next) else (key, [], c ∷ s)

unfoldable pub scan_key_bytes : Bytes → Bytes × Bytes
scan_key_bytes = span (λ c. not (c == b'=') && not (c == b',') && not (c == b' ') && not (c == 9))

unfoldable pub scan_cc_token_bytes : Bytes → Bytes × Bytes × Bytes
scan_cc_token_bytes s = let (key, rest) = scan_key_bytes s in scan_after_key_bytes key rest

-- The duration and its flag, which the source writes through two pointers.
unfoldable pub parse_dur_bytes : ℤ → Bool → Bytes → ℤ × Bool
parse_dur_bytes dur is_set val =
    let (n, ok) = parse_int_bytes val in
    let d = wrap64 (n *ℤ second) in
    if not ok then (dur, is_set) else if not is_set || ltb_ℤ dur d then (d, true) else (dur, is_set)

-- `none` where the source answers false.
unfoldable pub apply_bool_directive_bytes : Directives → Bytes → Option Directives
apply_bool_directive_bytes d key =
    if eq_fold_bytes key (codes "no-store")
    then some (record d { no_store = true })
    else if eq_fold_bytes key (codes "no-cache")
    then some (record d { no_cache = true })
    else if eq_fold_bytes key (codes "private")
    then some (record d { is_private = true })
    else if eq_fold_bytes key (codes "public")
    then some (record d { is_public = true })
    else if eq_fold_bytes key (codes "must-revalidate")
    then some (record d { must_revalidate = true })
    else if eq_fold_bytes key (codes "proxy-revalidate")
    then some (record d { proxy_revalidate = true })
    else if eq_fold_bytes key (codes "immutable")
    then some (record d { immutable = true })
    else if eq_fold_bytes key (codes "no-transform")
    then some (record d { no_transform = true })
    else if eq_fold_bytes key (codes "only-if-cached")
    then some (record d { only_if_cached = true })
    else if eq_fold_bytes key (codes "must-understand")
    then some (record d { must_understand = true })
    else none

unfoldable pub set_max_age_bytes : Directives → Bytes → Directives
set_max_age_bytes d val =
    let (v, s) = parse_dur_bytes d.max_age d.max_age_set val in
    record d { max_age = v; max_age_set = s }

unfoldable pub set_s_max_age_bytes : Directives → Bytes → Directives
set_s_max_age_bytes d val =
    let (v, s) = parse_dur_bytes d.s_max_age d.s_max_age_set val in
    record d { s_max_age = v; s_max_age_set = s }

unfoldable pub set_min_fresh_bytes : Directives → Bytes → Directives
set_min_fresh_bytes d val =
    let (v, s) = parse_dur_bytes d.min_fresh d.min_fresh_set val in
    record d { min_fresh = v; min_fresh_set = s }

unfoldable pub set_max_stale_bytes : Directives → Bytes → Directives
set_max_stale_bytes d val =
    let (v, s) = parse_dur_bytes d.max_stale d.max_stale_set val in
    if is_empty val
    then record d { max_stale = max_int64; max_stale_set = true }
    else record d { max_stale = v; max_stale_set = s }

unfoldable pub set_stale_while_revalidate_bytes : Directives → Bytes → Directives
set_stale_while_revalidate_bytes d val =
    let (v, s) = parse_dur_bytes d.stale_while_revalid d.stale_while_revalid_set val in
    record d { stale_while_revalid = v; stale_while_revalid_set = s }

unfoldable pub set_stale_if_error_bytes : Directives → Bytes → Directives
set_stale_if_error_bytes d val =
    let (v, s) = parse_dur_bytes d.stale_if_error d.stale_if_error_set val in
    record d { stale_if_error = v; stale_if_error_set = s }

unfoldable pub apply_dur_directive_bytes : Directives → Bytes → Bytes → Directives
apply_dur_directive_bytes d key val =
    if eq_fold_bytes key (codes "max-age")
    then set_max_age_bytes d val
    else if eq_fold_bytes key (codes "s-maxage")
    then set_s_max_age_bytes d val
    else if eq_fold_bytes key (codes "min-fresh")
    then set_min_fresh_bytes d val
    else if eq_fold_bytes key (codes "max-stale")
    then set_max_stale_bytes d val
    else if eq_fold_bytes key (codes "stale-while-revalidate")
    then set_stale_while_revalidate_bytes d val
    else if eq_fold_bytes key (codes "stale-if-error")
    then set_stale_if_error_bytes d val
    else d

unfoldable pub apply_cc_directive_bytes : Directives → Bytes → Bytes → Directives
apply_cc_directive_bytes d key val =
    if eq_fold_bytes key (codes "no-cache") && not (is_empty val)
    then record d { no_cache_fields = val }
    else get_or (apply_bool_directive_bytes d key) (apply_dur_directive_bytes d key val)

-- The outer loop, with fuel; `none` means that the fuel ran out.
unfoldable pub parse_loop_bytes : ℕ → Bytes → Directives → Option Directives
parse_loop_bytes zero s d = none
parse_loop_bytes (suc fuel) s d = elim (skip_cc_delimiters_bytes s) [
  | [] ↦ some d
  | c ∷ r ↦
      let (key, val, next) = scan_cc_token_bytes (c ∷ r) in
      parse_loop_bytes fuel next (apply_cc_directive_bytes d key val)
]

-- Each round takes a byte at least, so a round more than the bytes is fuel enough.
unfoldable pub parse_cache_control_bytes : Bytes → Directives
parse_cache_control_bytes s =
    get_or (parse_loop_bytes (suc (length s)) s no_directives) no_directives
