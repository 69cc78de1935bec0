-- ===== src/Header/Copies.antt =====
-- The two copies of the tokenizer in pkg/header/cachedirectives.go, side by side.
use bouine.Prelude.{ℕ, zero, suc, ◌≡◌, refl, Bool, true, false, [], ◌∷◌, inl, inr}
use bouine.Prelude.Bytes.{Bytes}
use bouine.Prelude.Int.{ℤ}
use bouine.Header.Scan.{List-cases}
use bouine.Header.Text.{eq_fold_loop, eq_fold, parse_int_loop, parse_int_no_alloc}
use bouine.Header.CacheControl.{
  Directives, skip_cc_delimiters, scan_cc_value, scan_after_key, scan_cc_token, parse_dur,
  scan_quoted, scan_plain, scan_key, set_max_age, set_s_max_age, set_min_fresh, set_max_stale,
  set_stale_while_revalidate, set_stale_if_error, apply_bool_directive, apply_dur_directive,
  apply_cc_directive, parse_loop, parse_cache_control,
}
use bouine.Header.CacheControlBytes.{
  eq_fold_bytes_loop, eq_fold_bytes, parse_int_bytes_loop, parse_int_bytes,
  skip_cc_delimiters_bytes, scan_cc_value_bytes, scan_after_key_bytes, scan_cc_token_bytes,
  parse_dur_bytes, scan_quoted_bytes, scan_plain_bytes, scan_key_bytes, set_max_age_bytes,
  set_s_max_age_bytes, set_min_fresh_bytes, set_max_stale_bytes, set_stale_while_revalidate_bytes,
  set_stale_if_error_bytes, apply_bool_directive_bytes, apply_dur_directive_bytes,
  apply_cc_directive_bytes, parse_loop_bytes, parse_cache_control_bytes,
}

eq_fold_bytes_loop_agrees : (a b : Bytes) → eq_fold_bytes_loop a b ≡ eq_fold_loop a b
unfolding eq_fold_bytes_loop eq_fold_loop
eq_fold_bytes_loop_agrees [] b = refl
eq_fold_bytes_loop_agrees (x ∷ a) [] = refl
eq_fold_bytes_loop_agrees (x ∷ a) (y ∷ b) = rw (eq_fold_bytes_loop_agrees a b)

eq_fold_bytes_agrees : (a b : Bytes) → eq_fold_bytes a b ≡ eq_fold a b
unfolding eq_fold_bytes eq_fold
eq_fold_bytes_agrees a b = rw (eq_fold_bytes_loop_agrees a b)

parse_int_bytes_loop_agrees :
    (s : Bytes) (n : ℤ) (found : Bool) → parse_int_bytes_loop n found s ≡ parse_int_loop n found s
unfolding parse_int_bytes_loop parse_int_loop
parse_int_bytes_loop_agrees [] n found = refl
parse_int_bytes_loop_agrees (c ∷ s) n found = rw (parse_int_bytes_loop_agrees s _ true)

parse_int_bytes_agrees : (s : Bytes) → parse_int_bytes s ≡ parse_int_no_alloc s
unfolding parse_int_bytes parse_int_no_alloc
parse_int_bytes_agrees s = rw (parse_int_bytes_loop_agrees s _ false)

skip_agrees : (s : Bytes) → skip_cc_delimiters_bytes s ≡ skip_cc_delimiters s
unfolding skip_cc_delimiters_bytes skip_cc_delimiters
skip_agrees [] = refl
skip_agrees (c ∷ s) = rw (skip_agrees s)

scan_cc_value_agrees : (s : Bytes) → scan_cc_value_bytes s ≡ scan_cc_value s
unfolding scan_cc_value_bytes scan_cc_value scan_quoted_bytes scan_quoted scan_plain_bytes
    scan_plain
scan_cc_value_agrees [] = refl
scan_cc_value_agrees (c ∷ s) = refl

scan_after_key_agrees : (key s : Bytes) → scan_after_key_bytes key s ≡ scan_after_key key s
unfolding scan_after_key_bytes scan_after_key
scan_after_key_agrees key [] = refl
scan_after_key_agrees key (c ∷ s) = rw scan_cc_value_agrees

scan_cc_token_agrees : (s : Bytes) → scan_cc_token_bytes s ≡ scan_cc_token s
unfolding scan_cc_token_bytes scan_cc_token scan_key_bytes scan_key
scan_cc_token_agrees s = rw scan_after_key_agrees

parse_dur_bytes_agrees :
    (dur : ℤ) (is_set : Bool) (val : Bytes)
    → parse_dur_bytes dur is_set val ≡ parse_dur dur is_set val
unfolding parse_dur_bytes parse_dur
parse_dur_bytes_agrees dur is_set val = rw parse_int_bytes_agrees

apply_bool_agrees :
    (d : Directives) (key : Bytes) → apply_bool_directive_bytes d key ≡ apply_bool_directive d key
unfolding apply_bool_directive_bytes apply_bool_directive
apply_bool_agrees d key = simp eq_fold_bytes_agrees

apply_dur_agrees :
    (d : Directives) (key val : Bytes)
    → apply_dur_directive_bytes d key val ≡ apply_dur_directive d key val
unfolding apply_dur_directive_bytes apply_dur_directive set_max_age_bytes set_max_age
    set_s_max_age_bytes set_s_max_age set_min_fresh_bytes set_min_fresh set_max_stale_bytes
    set_max_stale set_stale_while_revalidate_bytes set_stale_while_revalidate
    set_stale_if_error_bytes set_stale_if_error
apply_dur_agrees d key val = simp (eq_fold_bytes_agrees, parse_dur_bytes_agrees)

-- What one directive does to the record is the same in both copies.
pub apply_cc_directive_bytes_agrees :
    (d : Directives) (key val : Bytes)
    → apply_cc_directive_bytes d key val ≡ apply_cc_directive d key val
unfolding apply_cc_directive_bytes apply_cc_directive
apply_cc_directive_bytes_agrees d key val =
    simp (eq_fold_bytes_agrees, apply_bool_agrees, apply_dur_agrees)

parse_loop_agrees : (f : ℕ) (s : Bytes) (d : Directives) → parse_loop_bytes f s d ≡ parse_loop f s d
unfolding parse_loop_bytes parse_loop
parse_loop_agrees zero s d = refl
parse_loop_agrees (suc f) s d = elim (List-cases (skip_cc_delimiters s)) [
  | inl e ↦ rw (skip_agrees, e, parse_loop_bytes, parse_loop)
  | inr (c, r, e) ↦
      rw (skip_agrees, e, parse_loop_bytes, parse_loop)
        (rw (parse_loop_agrees f, scan_cc_token_agrees, apply_cc_directive_bytes_agrees))
]

-- The tokenizer over a byte slice and the one over a string give the same directives for every
-- value.
pub parse_cache_control_bytes_agrees :
    (s : Bytes) → parse_cache_control_bytes s ≡ parse_cache_control s
unfolding parse_cache_control_bytes parse_cache_control
parse_cache_control_bytes_agrees s = rw parse_loop_agrees
