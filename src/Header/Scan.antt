-- ===== src/Header/Scan.antt =====
-- The tokenizer's loop of pkg/header/cachedirectives.go, round by round.
use bouine.Prelude.{
  ℕ, zero, suc, ◌≤◌, ◌<◌, ◌≡◌, refl, ◌⊎◌, inl, inr, Bool, true, false, ◌&&◌, ◌||◌, [], ◌∷◌, some,
  arith, ◌==◌, length, not, length-drop, Bool-cases,
}
use bouine.Prelude.Bytes.{Bytes, span, length-span}
use bouine.Header.CacheControl.{
  Directives, no_directives, skip_cc_delimiters, scan_quoted, scan_plain, scan_cc_value,
  scan_after_key, scan_key, scan_cc_token, apply_cc_directive, parse_loop, parse_cache_control,
}

-- The bytes between two directives.
abbrev pub is_delimiter : ℕ → Bool
is_delimiter c = c == b' ' || c == b',' || c == 9

-- What the delimiter loop leaves: no more bytes, and no delimiter in front.
pub skip_front :
    (s : Bytes) (c : ℕ) (r : Bytes)
    → skip_cc_delimiters s ≡ c ∷ r
    → (is_delimiter c ≡ false) × (suc (length r) ≤ length s)
unfolding skip_cc_delimiters
skip_front [] c r h = cc
skip_front (x ∷ s) c r h = ground (arith, skip_front s c r)

length-scan_cc_value : (s : Bytes) → length (scan_cc_value s).1 ≤ length s
unfolding scan_cc_value scan_quoted scan_plain span
length-scan_cc_value [] = omega arith
length-scan_cc_value (c ∷ s) = ground (
  arith,
  length-drop 1 (span (λ x. not (x == b'"')) s).1,
  length-span (λ x. not (x == b'"')) s,
  length-span (λ x. not (x == b',') && not (x == b' ') && not (x == 9)) (c ∷ s),
)

length-scan_after_key : (key s : Bytes) → length (scan_after_key key s).2 ≤ length s
unfolding scan_after_key
length-scan_after_key key [] = omega arith
length-scan_after_key key (c ∷ s) = ground (arith, length-scan_cc_value s)

-- After the key comes no more than there was, and less if there is a value.
length-scan_key : (s : Bytes) → length (scan_key s).1 ≤ length s
unfolding scan_key
length-scan_key s = length-span _ s

scan_key_stop : (c : ℕ) (s : Bytes) → c == b'=' ≡ true → scan_key (c ∷ s) ≡ ([], c ∷ s)
unfolding scan_key span
scan_key_stop c s h = ground arith

scan_key_goes :
    (c : ℕ) (s : Bytes)
    → is_delimiter c ≡ false
    → c == b'=' ≡ false
    → length (scan_key (c ∷ s)).1 ≤ length s
unfolding scan_key span
scan_key_goes c s h e = ground (
  arith,
  length-span (λ x. not (x == b'=') && not (x == b',') && not (x == b' ') && not (x == 9)) s,
)

scan_after_key_value :
    (key : Bytes) (c : ℕ) (s : Bytes)
    → c == b'=' ≡ true
    → length (scan_after_key key (c ∷ s)).2 ≤ length s
unfolding scan_after_key
scan_after_key_value key c s h = ground (arith, length-scan_cc_value s)

scan_cc_token_parts : (s : Bytes) → scan_cc_token s ≡ scan_after_key (scan_key s).0 (scan_key s).1
unfolding scan_cc_token
scan_cc_token_parts s = refl

-- A token takes a byte at least, if it does not start with a delimiter.
pub scan_cc_token_takes :
    (c : ℕ) (s : Bytes) → is_delimiter c ≡ false → length (scan_cc_token (c ∷ s)).2 ≤ length s
scan_cc_token_takes c s h = rw scan_cc_token_parts (elim (Bool-cases (c == b'=')) [
  | inl e ↦ rw (scan_key_stop c s e) (scan_after_key_value [] c s e)
  | inr e ↦ omega (
    arith,
    length-scan_after_key (scan_key (c ∷ s)).0 (scan_key (c ∷ s)).1,
    scan_key_goes c s h e,
  )
])

pub List-cases : (s : Bytes) → (s ≡ []) ⊎ ((c : ℕ) × (r : Bytes) × (s ≡ c ∷ r))
List-cases [] = inl refl
List-cases (c ∷ r) = inr (c, r, refl)

-- One round of the loop.
pub parse_loop_stop :
    (f : ℕ) (s : Bytes) (d : Directives)
    → skip_cc_delimiters s ≡ []
    → parse_loop (suc f) s d ≡ some d
unfolding parse_loop
parse_loop_stop f s d h = rw (h, parse_loop)

pub parse_loop_step :
    (f : ℕ) (s : Bytes) (d : Directives) (c : ℕ) (r : Bytes)
    → skip_cc_delimiters s ≡ c ∷ r
    → parse_loop (suc f) s d
      ≡ parse_loop f
          (scan_cc_token (c ∷ r)).2
          (apply_cc_directive d (scan_cc_token (c ∷ r)).0 (scan_cc_token (c ∷ r)).1)
unfolding parse_loop
parse_loop_step f s d c r h = rw (h, parse_loop)

parse_loop_total :
    (f : ℕ) (s : Bytes) (d : Directives)
    → length s < f
    → (r : Directives) × (parse_loop f s d ≡ some r)
parse_loop_total zero s d h = absurd (omega arith)
parse_loop_total (suc f) s d h = elim (List-cases (skip_cc_delimiters s)) [
  | inl e ↦ (d, parse_loop_stop f s d e)
  | inr (c, r, e) ↦
      let (nd, shorter) = skip_front s c r e in
      rw (parse_loop_step f s d c r e)
        (parse_loop_total f _ _ (omega (arith, scan_cc_token_takes c r nd)))
]

-- The tokenizer's loop over any value ends within one round more than the value has bytes, and what
-- it has then collected is what `ParseCacheControl` returns.
pub parse_loop_ends :
    (s : Bytes) → parse_loop (suc (length s)) s no_directives ≡ some (parse_cache_control s)
unfolding parse_cache_control
parse_loop_ends s =
    let (r, e) = parse_loop_total (suc (length s)) s no_directives (omega arith) in rw e
