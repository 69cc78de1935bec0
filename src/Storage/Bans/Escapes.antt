-- ===== src/Storage/Bans/Escapes.antt =====
-- internal/storage/bans.go: literalOfBody on an escaped letter or digit, such as \d.
use bouine.Prelude.{
  ℕ, ◌≡◌, refl, ap, ◌∙◌, inl, inr, true, false, [], ◌∷◌, ◌++◌, some, ◌==◌, leb, length, arith,
  Bool-cases,
}
use bouine.Prelude.Bytes.{Bytes, has_prefix, is_empty}
use bouine.Prelude.Int.{ℤ}
use bouine.Api.Object.{Object}
use bouine.Storage.Bans.{
  BanPattern, ActiveBan, is_metachar, is_ban_literal, prepend, literal_of_body, ends_in_dollar,
  anchored_prefix, anchored_exact, prefix_path, classify_pattern, classify_ban, path_of,
}
use bouine.Storage.Bans.Snapshots.{
  is_ban_expired, add_ban, add_ban_class, as_prefix, compile_ban_snapshot, hit_literal,
  literal_match, lookup_literal, any_prefix, prefix_match, any_opaque, snapshot_matches,
}
use bouine.Storage.Bans.Literals.{Quotes, done, plain, quoted, plain_char, quoted_char, is_alnum}

escaped_last :
    {body lit : Bytes}
    → Quotes body lit
    → (d : ℕ) → literal_of_body (body ++ (92 ∷ d ∷ [])) ≡ some (lit ++ (d ∷ []))
unfolding literal_of_body
escaped_last done d = refl
escaped_last (plain c {body} m a q) d =
    plain_char c (body ++ (92 ∷ d ∷ [])) m ∙ ap (λ o. prepend c o) (escaped_last q d)
escaped_last (quoted c {body} p q) d =
    quoted_char c (body ++ (92 ∷ d ∷ [])) ∙ ap (λ o. prepend c o) (escaped_last q d)

last_char : (s : Bytes) (d : ℕ) → ends_in_dollar (s ++ (92 ∷ d ∷ [])) ≡ (d == b'$')
unfolding ends_in_dollar
last_char [] d = refl
last_char (c ∷ []) d = refl
last_char (c ∷ e ∷ s) d = last_char (e ∷ s) d

-- The pattern of a path ban with an escaped letter or digit at its end.
unfoldable pub escape_pattern : Bytes → ℕ → BanPattern
escape_pattern body d = record {
  host_regex = [];
  path_regex = b'^' ∷ (body ++ (92 ∷ d ∷ []));
  surrogate_key = [];
}

escape_class :
    (body lit : Bytes)
    → Quotes body lit
    → (d : ℕ) → is_alnum d ≡ true
    → classify_ban (escape_pattern body d) ≡ prefix_path (lit ++ (d ∷ []))
unfolding classify_ban escape_pattern classify_pattern is_ban_literal anchored_exact anchored_prefix
    is_metachar
escape_class body lit q d alnum =
    let plain_end : ends_in_dollar (body ++ (92 ∷ d ∷ [])) ≡ false =
      last_char body d ∙ ground (arith, alnum) in
    let some_body : is_empty (body ++ (92 ∷ d ∷ [])) ≡ false = full body in
    rw (plain_end, some_body, escaped_last q d)
      (elim (Bool-cases (leb (length (body ++ (92 ∷ d ∷ []))) 1)) [
        | inl short ↦ rw short refl
        | inr long ↦ rw long refl
      ])
  where
    full : (s : Bytes) → is_empty (s ++ (92 ∷ d ∷ [])) ≡ false
    full [] = refl
    full (c ∷ s) = refl

-- A ban on the paths that begin with some text and then a class such as \d is taken for one on the
-- text followed by the letter itself: as the only ban it matches no object whose path does not begin
-- so, whatever its predicate says.
pub escape-misses :
    (body lit : Bytes)
    → Quotes body lit
    → (d : ℕ) → is_alnum d ≡ true
    → (b : ActiveBan) → b.pattern ≡ escape_pattern body d
    → (now ttl : ℤ) (obj : Object) → has_prefix (path_of obj) (lit ++ (d ∷ [])) ≡ false
    → snapshot_matches (compile_ban_snapshot now ttl (b ∷ [])) obj ≡ false
unfolding compile_ban_snapshot add_ban add_ban_class as_prefix snapshot_matches literal_match
    prefix_match any_prefix any_opaque lookup_literal hit_literal
escape-misses body lit q d alnum b p now ttl obj other =
    let class : classify_ban b.pattern ≡ prefix_path (lit ++ (d ∷ [])) =
      ap classify_ban p ∙ escape_class body lit q d alnum in
    elim (Bool-cases (is_ban_expired now ttl b)) [
      | inl old ↦ rw old refl
      | inr young ↦ rw (young, class, add_ban_class) (ground (arith, other))
    ]
