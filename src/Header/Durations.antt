-- ===== src/Header/Durations.antt =====
-- The delta-seconds of pkg/header/cachedirectives.go, and what a later directive can change.
use bouine.Prelude.{
  ℕ, ◌*◌, ◌≤◌, ◌≡◌, refl, inl, inr, true, false, List, [], ◌∷◌, ◌++◌, ◌&&◌, not, foldl, arith,
  Bool-cases,
}
use mathlib.Core.Option.{get_or}
use bouine.Prelude.Bytes.{Bytes, codes, is_empty}
use bouine.Prelude.Int.{ℤ, pos, ◌≤ℤ◌, ◌<ℤ◌, ◌*ℤ◌, wrap64}
use bouine.Header.Text.{eq_fold, AllDigits, digits_value, StopsDigits, parse_int_no_alloc_value}
use bouine.Header.CacheControl.{
  Directives, second, parse_dur, apply_bool_directive, apply_dur_directive, apply_cc_directive,
  parse_cache_control, set_max_age, set_s_max_age, set_min_fresh, set_max_stale,
  set_stale_while_revalidate, set_stale_if_error,
}
use bouine.Header.Render.{
  Written, AllWritten, key_of, value_of, apply_written, render, parse_cache_control-render,
}

-- A set duration only grows, and stays set.
parse_dur_grows :
    (dur : ℤ) (val : Bytes)
    → (dur ≤ℤ (parse_dur dur true val).0) × ((parse_dur dur true val).1 ≡ true)
unfolding parse_dur
parse_dur_grows dur val = ground arith

-- What a directive that comes later cannot take back.
pub record Keeps (d e : Directives) : Type 0 where
  pub no_store : d.no_store ≡ true → e.no_store ≡ true
  pub no_cache : d.no_cache ≡ true → e.no_cache ≡ true
  pub is_private : d.is_private ≡ true → e.is_private ≡ true
  pub must_revalidate : d.must_revalidate ≡ true → e.must_revalidate ≡ true
  pub proxy_revalidate : d.proxy_revalidate ≡ true → e.proxy_revalidate ≡ true
  pub max_age : d.max_age_set ≡ true → (e.max_age_set ≡ true) × (d.max_age ≤ℤ e.max_age)
  pub s_max_age : d.s_max_age_set ≡ true → (e.s_max_age_set ≡ true) × (d.s_max_age ≤ℤ e.s_max_age)

Keeps-refl : (d : Directives) → Keeps d d
Keeps-refl d = ground arith

Keeps-trans : (d e f : Directives) → Keeps d e → Keeps e f → Keeps d f
Keeps-trans d e f h k = record {
  no_store = λ p. k.no_store (h.no_store p);
  no_cache = λ p. k.no_cache (h.no_cache p);
  is_private = λ p. k.is_private (h.is_private p);
  must_revalidate = λ p. k.must_revalidate (h.must_revalidate p);
  proxy_revalidate = λ p. k.proxy_revalidate (h.proxy_revalidate p);
  max_age = λ p. ground (arith, h.max_age p, k.max_age);
  s_max_age = λ p. ground (arith, h.s_max_age p, k.s_max_age);
}

apply_bool_Keeps :
    (d : Directives) (key : Bytes) (e : Directives)
    → Keeps d e
    → Keeps d (get_or (apply_bool_directive d key) e)
unfolding apply_bool_directive
apply_bool_Keeps d key e h = ground arith

apply_dur_Keeps : (d : Directives) (key val : Bytes) → Keeps d (apply_dur_directive d key val)
unfolding apply_dur_directive set_max_age set_s_max_age set_min_fresh set_max_stale
    set_stale_while_revalidate set_stale_if_error
apply_dur_Keeps d key val =
    ground (arith, parse_dur_grows d.max_age val, parse_dur_grows d.s_max_age val)

apply_cc_directive-Keeps :
    (d : Directives) (key val : Bytes) → Keeps d (apply_cc_directive d key val)
unfolding apply_cc_directive
apply_cc_directive-Keeps d key val =
    elim (Bool-cases (eq_fold key (codes "no-cache") && not (is_empty val))) [
      | inl p ↦ rw p (ground (arith, Keeps-refl d))
      | inr p ↦ rw p (apply_bool_Keeps d key _ (apply_dur_Keeps d key val))
    ]

written_Keeps : (ws : List Written) (d : Directives) → Keeps d (foldl apply_written d ws)
written_Keeps [] d = Keeps-refl d
written_Keeps (w ∷ ws) d =
    Keeps-trans d (apply_written d w) _ (apply_cc_directive-Keeps d (key_of w) (value_of w))
      (written_Keeps ws (apply_written d w))

foldl_append :
    (ws more : List Written) (d : Directives)
    → foldl apply_written d (ws ++ more) ≡ foldl apply_written (foldl apply_written d ws) more
foldl_append [] more d = refl
foldl_append (w ∷ ws) more d = foldl_append ws more (apply_written d w)

AllWritten-append :
    (ws more : List Written) → AllWritten ws → AllWritten more → AllWritten (ws ++ more)
AllWritten-append [] more h k = k
AllWritten-append (w ∷ ws) more h k = (h.0, AllWritten-append ws more h.1 k)

-- Directives that are added behind a list of directives take back none of no-store, no-cache,
-- private, must-revalidate and proxy-revalidate, and never shorten a max-age or s-maxage: of
-- several values the largest counts.
pub render_append_Keeps :
    (ws more : List Written)
    → AllWritten ws
    → AllWritten more
    → Keeps (parse_cache_control (render ws)) (parse_cache_control (render (ws ++ more)))
render_append_Keeps ws more h k =
    rw
      (
        parse_cache_control-render ws h,
        parse_cache_control-render (ws ++ more) (AllWritten-append ws more h k),
        foldl_append,
      )
      (written_Keeps more _)

mul_second_negative : (n : ℕ) → 9223372037 ≤ n → n ≤ 18446744073 → wrap64 (pos n *ℤ second) <ℤ pos 0
unfolding wrap64 ◌*ℤ◌
mul_second_negative n lo hi = ground arith

-- A number of seconds from 9223372037 to 18446744073 is read without an error, and the first such
-- value of a directive makes its duration negative: the product with a second leaves the int64.
pub parse_dur_overflows :
    (dur : ℤ) (c : ℕ) (s rest : Bytes)
    → AllDigits (c ∷ s)
    → StopsDigits rest
    → 9223372037 ≤ digits_value 0 (c ∷ s)
    → digits_value 0 (c ∷ s) ≤ 18446744073
    → ((parse_dur dur false ((c ∷ s) ++ rest)).1 ≡ true)
      × ((parse_dur dur false ((c ∷ s) ++ rest)).0 <ℤ pos 0)
unfolding parse_dur
parse_dur_overflows dur c s rest d st lo hi =
    rw (parse_int_no_alloc_value c s rest d st (omega arith))
      (refl, mul_second_negative (digits_value 0 (c ∷ s)) lo hi)

-- Up to 9223372036 seconds the duration of a directive is exactly the number written.
pub parse_dur_exact :
    (dur : ℤ) (c : ℕ) (s rest : Bytes)
    → AllDigits (c ∷ s)
    → StopsDigits rest
    → digits_value 0 (c ∷ s) ≤ 9223372036
    → parse_dur dur false ((c ∷ s) ++ rest) ≡ (pos (digits_value 0 (c ∷ s) * 1000000000), true)
unfolding parse_dur wrap64 ◌*ℤ◌
parse_dur_exact dur c s rest d st hi =
    ground (arith, parse_int_no_alloc_value c s rest d st (omega arith))
