-- ===== src/Storage/Bans/Classes.antt =====
-- internal/storage/bans.go and hot.go: the class of a ban against its compiled predicate.
use bouine.Prelude.{
  ◌≡◌, ◌⊎◌, inl, inr, refl, sym, ap, ◌∙◌, Bool, true, false, ◌&&◌, ◌||◌, not, List, [], ◌∷◌, Option,
  none, some, arith, Bool-cases, Option-cases,
}
use mathlib.Core.Path.{subst}
use bouine.Prelude.Bytes.{Bytes, eq_bytes, is_empty, has_prefix}
use bouine.Prelude.Int.{ℤ}
use bouine.Api.Object.{Object, is_zero_time}
use bouine.Cluster.Events.{BanExpr}
use bouine.Storage.Bans.{
  Regexp, pattern_of, ActiveBan, exempt_after, is_ban_literal, anchored_prefix, anchored_exact,
  BanClass, opaque_ban, literal_host, literal_path, prefix_host, prefix_path, classify_pattern,
  classify_ban, host_of, path_of, compile_ban_pattern, ban_predicate, compile_ban_predicate, after,
  subject_to,
}
use bouine.Storage.Bans.Snapshots.{snapshot_matches, compile_ban_snapshot}
use bouine.Storage.Bans.Literals.{
  IsRegexp, no_classes, anchored_exact-matches, anchored_prefix-matches,
}
use bouine.Storage.Bans.Lookups.{
  any_hits, ClassAgrees, AllAgree, Apart, compile_ban_snapshot-any_hits,
}

-- What the test `f` of one pattern does, by the class that the pattern has.
data TestedAs (literal prefix : Bytes → BanClass) (f : Bytes → Bool) : BanClass → Type 0 where
  equal : (t : Bytes) → ((v : Bytes) → f v ≡ eq_bytes v t) → TestedAs literal prefix f (literal t)
  starts : (t : Bytes) → ((v : Bytes) → f v ≡ has_prefix v t) → TestedAs literal prefix f (prefix t)
  other : TestedAs literal prefix f opaque_ban

abbrev test_of : Option (Bytes → Bool) → Bytes → Bool
test_of none v = false
test_of (some f) v = f v

classify_pattern-TestedAs :
    (regexp : Regexp)
    → IsRegexp regexp
    → (literal prefix : Bytes → BanClass) (s : Bytes) (f : Bytes → Bool) → is_empty s ≡ false
    → no_classes s ≡ true
    → compile_ban_pattern regexp s ≡ some f
    → TestedAs literal prefix f (classify_pattern literal prefix s)
unfolding classify_pattern compile_ban_pattern
classify_pattern-TestedAs regexp law literal prefix s f full n h =
    elim (Bool-cases (is_ban_literal s)) [
      | inl lit ↦
          let is : some (λ v. eq_bytes v s) ≡ some f = sym (rw (full, lit) refl) ∙ h in
          rw lit (equal s (λ v. ap (λ o. test_of o v) (sym is)))
      | inr pattern ↦
          let r : regexp s ≡ some f = sym (rw (full, pattern) refl) ∙ h in
          rw pattern (elim (Option-cases (anchored_exact s)) [
            | inr (t, e) ↦ rw e (equal t (anchored_exact-matches regexp law s t e n f r))
            | inl e ↦ elim (Option-cases (anchored_prefix s)) [
              | inr (t, p) ↦ rw (e, p) (starts t (anchored_prefix-matches regexp law s t p n f r))
              | inl p ↦ rw (e, p) other
            ]
          ])
    ]

abbrev holds_at : Object → Option (Object → Bool) → Bool
holds_at obj none = false
holds_at obj (some p) = p obj

-- A ban whose predicate was compiled from its own pattern, with the creation time that it still has
-- as its exemption instant, or with none.
pub record IsCompiled (regexp : Regexp) (b : ActiveBan) : Type 0 where
  pub expr : BanExpr
  pub pred : compile_ban_predicate regexp expr ≡ some b.pred
  pub pattern : pattern_of expr ≡ b.pattern
  pub instant : (is_zero_time expr.created_at ≡ true) ⊎ (exempt_after b ≡ expr.created_at)
  pub host_classes : no_classes expr.host_regex ≡ true
  pub path_classes : no_classes expr.path_regex ≡ true

kept_of : BanExpr → Object → Bool
kept_of e obj = not (not (is_zero_time e.created_at) && after obj.stored_at e.created_at)

-- An object that is subject to the ban is not exempt by the predicate's own test.
subject-kept :
    (regexp : Regexp) (b : ActiveBan) (k : IsCompiled regexp b) (obj : Object)
    → subject_to obj (exempt_after b) ≡ true
    → kept_of k.expr obj ≡ true
unfolding kept_of subject_to
subject-kept regexp b k obj s = elim k.instant [
  | inl zero_time ↦ rw zero_time refl
  | inr same ↦
      let s' = subst (λ t. (is_zero_time t || not (after obj.stored_at t)) ≡ true) same s in
      ground (arith, s')
]

agrees_host :
    (obj : Object) (b : ActiveBan) (kept : Bool) (f : Bytes → Bool) (c : BanClass)
    → (subject_to obj (exempt_after b) ≡ true → kept ≡ true)
    → b.pred obj ≡ (kept && f (host_of obj))
    → TestedAs literal_host prefix_host f c
    → ClassAgrees obj b c
agrees_host obj b kept f c k p (equal t e) = λ s. rw (p, k s, e (host_of obj)) refl
agrees_host obj b kept f c k p (starts t e) = λ h. ground (arith, h, p, e (host_of obj))
agrees_host obj b kept f c k p other = tt

agrees_path :
    (obj : Object) (b : ActiveBan) (kept : Bool) (f : Bytes → Bool) (c : BanClass)
    → (subject_to obj (exempt_after b) ≡ true → kept ≡ true)
    → b.pred obj ≡ (kept && f (path_of obj))
    → TestedAs literal_path prefix_path f c
    → ClassAgrees obj b c
agrees_path obj b kept f c k p (equal t e) = λ s. rw (p, k s, e (path_of obj)) refl
agrees_path obj b kept f c k p (starts t e) = λ h. ground (arith, h, p, e (path_of obj))
agrees_path obj b kept f c k p other = tt

-- The tests that a compiled predicate is made of.
compiled_tests :
    (regexp : Regexp) (e : BanExpr) (p : Object → Bool)
    → compile_ban_predicate regexp e ≡ some p
    → (host : Bytes → Bool) × (path : Bytes → Bool) × (compile_ban_pattern regexp e.host_regex
        ≡ some host)
      × (compile_ban_pattern regexp e.path_regex ≡ some path)
      × ((obj : Object) → p obj ≡ ban_predicate e host path obj)
unfolding compile_ban_predicate
compiled_tests regexp e p h = elim (Option-cases (compile_ban_pattern regexp e.host_regex)) [
  | inl a ↦
      let none_host : compile_ban_predicate regexp e ≡ none = rw (a, compile_ban_predicate) refl in
      absurd (ground (arith, none_host, h))
  | inr (host, a) ↦ elim (Option-cases (compile_ban_pattern regexp e.path_regex)) [
    | inl b ↦
        let none_path : compile_ban_predicate regexp e ≡ none =
          rw (a, compile_ban_predicate, b) refl in
        absurd (ground (arith, none_path, h))
    | inr (path, b) ↦
        let both : compile_ban_predicate regexp e ≡ some (ban_predicate e host path) =
          rw (a, compile_ban_predicate, b) refl in
        let is : some (ban_predicate e host path) ≡ some p = sym both ∙ h in
        (host, path, a, b, λ obj. ap (λ o. holds_at obj o) (sym is))
  ]
]

empty_test :
    (regexp : Regexp) (s : Bytes) (f : Bytes → Bool)
    → is_empty s ≡ true
    → compile_ban_pattern regexp s ≡ some f
    → (v : Bytes) → f v ≡ true
unfolding compile_ban_pattern
empty_test regexp s f e h v =
    let is : some (λ v'. true) ≡ some f = sym (rw e refl) ∙ h in ap (λ o. test_of o v) (sym is)

compiled-ClassAgrees :
    (regexp : Regexp)
    → IsRegexp regexp
    → (obj : Object) (b : ActiveBan) → IsCompiled regexp b
    → ClassAgrees obj b (classify_ban b.pattern)
unfolding classify_ban ban_predicate kept_of
compiled-ClassAgrees regexp law obj b k =
    let e = k.expr in
    let (host, path, ch, cp, is) = compiled_tests regexp e b.pred k.pred in
    let kept : subject_to obj (exempt_after b) ≡ true → kept_of e obj ≡ true =
      subject-kept regexp b k obj in
    subst (λ t. ClassAgrees obj b (classify_ban t)) k.pattern
      (elim (Bool-cases (is_empty e.host_regex)) [
        | inl no_host ↦ elim (Bool-cases (is_empty e.path_regex)) [
          | inl no_path ↦ elim (Bool-cases (is_empty e.surrogate_key)) [
            | inl no_key ↦ rw (no_host, no_path, no_key) tt
            | inr key ↦ rw (no_host, no_path, key) tt
          ]
          | inr on_path ↦ elim (Bool-cases (is_empty e.surrogate_key)) [
            | inl no_key ↦
                rw (no_host, on_path, no_key)
                  (agrees_path obj b (kept_of e obj) path
                    (classify_pattern literal_path prefix_path e.path_regex) kept
                    (ground (
                      arith,
                      is obj,
                      empty_test regexp e.host_regex host no_host ch (host_of obj),
                      no_key,
                    ))
                    (classify_pattern-TestedAs regexp law literal_path prefix_path e.path_regex path
                      on_path k.path_classes cp))
            | inr key ↦ rw (no_host, on_path, key) tt
          ]
        ]
        | inr on_host ↦ elim (Bool-cases (is_empty e.path_regex && is_empty e.surrogate_key)) [
          | inl alone ↦
              rw (on_host, alone)
                (agrees_host obj b (kept_of e obj) host
                  (classify_pattern literal_host prefix_host e.host_regex) kept
                  (ground (
                    arith,
                    is obj,
                    alone,
                    empty_test regexp e.path_regex path (ground (arith, alone)) cp (path_of obj),
                  ))
                  (classify_pattern-TestedAs regexp law literal_host prefix_host e.host_regex host
                    on_host k.host_classes ch))
          | inr more ↦ rw (on_host, more) tt
        ]
      ])

abbrev pub AllCompiled : Regexp → List ActiveBan → Type 0
AllCompiled regexp [] = Unit {0}
AllCompiled regexp (b ∷ bs) = IsCompiled regexp b × AllCompiled regexp bs

AllCompiled-AllAgree :
    (regexp : Regexp)
    → IsRegexp regexp
    → (obj : Object) (bs : List ActiveBan) → AllCompiled regexp bs
    → AllAgree obj bs
AllCompiled-AllAgree regexp law obj [] k = tt
AllCompiled-AllAgree regexp law obj (b ∷ bs) (here, k) =
    (compiled-ClassAgrees regexp law obj b here, AllCompiled-AllAgree regexp law obj bs k)

-- The snapshot with its literal sets and prefixes matches an object exactly where a walk of the list
-- with the full predicates does, if the regular expressions are what their package documents and
-- each ban of the list has the predicate that was compiled from its own pattern, with a CreatedAt
-- that is zero or still is the ban's exemption instant, so that it was not issued again with another
-- one. The host and path patterns are of ASCII only, no backslash in them stands before a letter or
-- a digit, and no two bans come down to the same literal.
pub compiled_snapshot-any_hits :
    (regexp : Regexp)
    → IsRegexp regexp
    → (now ttl : ℤ) (bans : List ActiveBan) → AllCompiled regexp bans
    → Apart bans
    → (obj : Object)
    → snapshot_matches (compile_ban_snapshot now ttl bans) obj ≡ any_hits now ttl obj bans
compiled_snapshot-any_hits regexp law now ttl bans k apart obj =
    compile_ban_snapshot-any_hits now ttl obj bans apart
      (AllCompiled-AllAgree regexp law obj bans k)
