-- ===== src/Storage/Bans/Lookups.antt =====
-- internal/storage/bans.go: the compiled snapshot against a walk of the list of bans.
use bouine.Prelude.{
  ◌≡◌, refl, sym, ◌∙◌, inl, inr, Bool, true, false, ◌&&◌, ◌||◌, not, List, [], ◌∷◌, ◌++◌, none,
  some, foldl, arith, if◌then◌else◌, Bool-cases,
}
use mathlib.Core.Path.{subst}
use bouine.Prelude.Bytes.{Bytes, eq_bytes, eq_bytes_sound, eq_bytes_refl, has_prefix}
use bouine.Prelude.Int.{ℤ}
use bouine.Api.Object.{Object}
use bouine.Storage.Bans.{
  ActiveBan, exempt_after, BanClass, opaque_ban, literal_host, literal_path, literal_surrogate,
  prefix_host, prefix_path, classify_ban, subject_to, host_of, path_of,
}
use bouine.Storage.Bans.Snapshots.{
  OpaqueBan, PrefixBan, BanSnapshot, empty_snapshot, put_literal, lookup_literal, as_opaque,
  as_prefix, add_ban_class, is_ban_expired, add_ban, compile_ban_snapshot, hit_literal,
  literal_match, any_prefix, prefix_match, any_opaque, snapshot_matches,
}

-- One ban on its own: it has not expired, the object is not exempt, and its predicate holds.
unfoldable pub ban_hits : ℤ → ℤ → Object → ActiveBan → Bool
ban_hits now ttl obj b =
    not (is_ban_expired now ttl b) && (subject_to obj (exempt_after b) && b.pred obj)

unfoldable pub any_hits : ℤ → ℤ → Object → List ActiveBan → Bool
any_hits now ttl obj [] = false
any_hits now ttl obj (b ∷ bs) = ban_hits now ttl obj b || any_hits now ttl obj bs

-- What a class says of the predicate of its ban, at one object.
abbrev pub ClassAgrees : Object → ActiveBan → BanClass → Type 0
ClassAgrees obj b (literal_host s) =
    subject_to obj (exempt_after b) ≡ true → b.pred obj ≡ eq_bytes (host_of obj) s
ClassAgrees obj b (literal_path s) =
    subject_to obj (exempt_after b) ≡ true → b.pred obj ≡ eq_bytes (path_of obj) s
ClassAgrees obj b (prefix_host p) = b.pred obj ≡ true → has_prefix (host_of obj) p ≡ true
ClassAgrees obj b (prefix_path p) = b.pred obj ≡ true → has_prefix (path_of obj) p ≡ true
ClassAgrees obj b literal_surrogate = Unit {0}
ClassAgrees obj b opaque_ban = Unit {0}

abbrev pub AllAgree : Object → List ActiveBan → Type 0
AllAgree obj [] = Unit {0}
AllAgree obj (b ∷ bs) = ClassAgrees obj b (classify_ban b.pattern) × AllAgree obj bs

-- The snapshot has no literal of the class yet.
abbrev NewIn : BanSnapshot → BanClass → Type 0
NewIn snap (literal_host s) = lookup_literal s snap.hosts ≡ none
NewIn snap (literal_path s) = lookup_literal s snap.paths ≡ none
NewIn snap (prefix_host p) = Unit {0}
NewIn snap (prefix_path p) = Unit {0}
NewIn snap literal_surrogate = Unit {0}
NewIn snap opaque_ban = Unit {0}

-- Two bans that the snapshot would keep in one place: on the same host, or on the same path.
unfoldable pub same_literal : BanClass → BanClass → Bool
same_literal (literal_host s) (literal_host t) = eq_bytes t s
same_literal (literal_path s) (literal_path t) = eq_bytes t s
same_literal _ _ = false

abbrev pub AllApart : ActiveBan → List ActiveBan → Type 0
AllApart b [] = Unit {0}
AllApart b (c ∷ cs) =
    (same_literal (classify_ban b.pattern) (classify_ban c.pattern) ≡ false) × AllApart b cs

abbrev pub Apart : List ActiveBan → Type 0
Apart [] = Unit {0}
Apart (b ∷ bs) = AllApart b bs × Apart bs

lookup_literal-put_literal :
    (h s : Bytes) (v : ℤ) (m : List (Bytes × ℤ))
    → lookup_literal h (put_literal s v m) ≡ (if eq_bytes h s then some v else lookup_literal h m)
unfolding lookup_literal put_literal
lookup_literal-put_literal h s v [] = refl
lookup_literal-put_literal h s v ((k, w) ∷ m) = elim (Bool-cases (eq_bytes s k)) [
  | inl same ↦ rw same (
      subst
        (λ t. (if eq_bytes h s then some v else lookup_literal h m) ≡ (
          if eq_bytes h s then some v else (if eq_bytes h t then some w else lookup_literal h m)))
        (eq_bytes_sound s k same)
        (elim (Bool-cases (eq_bytes h s)) [ inl a ↦ rw a refl | inr a ↦ rw a refl ]))
  | inr other ↦ rw other (elim (Bool-cases (eq_bytes h k)) [
    | inl is ↦
        let differs : eq_bytes h s ≡ false = elim (Bool-cases (eq_bytes h s)) [
          | inl a ↦
              absurd (
                ground (arith, other, eq_bytes_refl k, eq_bytes_sound h k is, eq_bytes_sound h s a))
          | inr a ↦ a
        ] in
        rw (is, differs) refl
    | inr is ↦ rw is (lookup_literal-put_literal h s v m)
  ])
]

any_prefix-append :
    (obj : Object) (v : Bytes) (xs : List PrefixBan) (b : PrefixBan)
    → any_prefix obj v (xs ++ (b ∷ [])) ≡ (
        any_prefix obj v xs
        || (has_prefix v b.prefix && subject_to obj b.exempt_after && b.pred obj))
unfolding any_prefix
any_prefix-append obj v [] b = ground arith
any_prefix-append obj v (x ∷ xs) b = rw (any_prefix-append obj v xs b) (ground arith)

any_opaque-append :
    (obj : Object) (xs : List OpaqueBan) (b : OpaqueBan)
    → any_opaque obj (xs ++ (b ∷ []))
      ≡ (any_opaque obj xs || (subject_to obj b.exempt_after && b.pred obj))
unfolding any_opaque
any_opaque-append obj [] b = ground arith
any_opaque-append obj (x ∷ xs) b = rw (any_opaque-append obj xs b) (ground arith)

-- A literal's map after one more ban.
hit-put_literal :
    (obj : Object) (h s : Bytes) (v : ℤ) (m : List (Bytes × ℤ))
    → lookup_literal s m ≡ none
    → hit_literal obj (lookup_literal h (put_literal s v m))
      ≡ (hit_literal obj (lookup_literal h m) || (subject_to obj v && eq_bytes h s))
unfolding hit_literal
hit-put_literal obj h s v m new =
    rw (lookup_literal-put_literal h s v m) (elim (Bool-cases (eq_bytes h s)) [
      | inl is ↦
          let gone : lookup_literal h m ≡ none =
            subst (λ t. lookup_literal t m ≡ none) (sym (eq_bytes_sound h s is)) new in
          rw (is, gone) (ground arith)
      | inr is ↦ rw is (ground arith)
    ])

-- What a ban of each class adds to what the snapshot matches.
add_ban_class-hits :
    (obj : Object) (snap : BanSnapshot) (b : ActiveBan) (c : BanClass)
    → NewIn snap c
    → ClassAgrees obj b c
    → snapshot_matches (add_ban_class c b snap) obj
      ≡ (snapshot_matches snap obj || (subject_to obj (exempt_after b) && b.pred obj))
unfolding snapshot_matches add_ban_class literal_match prefix_match as_prefix as_opaque
add_ban_class-hits obj snap b (literal_host s) new agrees =
    elim (Bool-cases (subject_to obj (exempt_after b))) [
      | inl is ↦
          rw (hit-put_literal obj (host_of obj) s (exempt_after b) snap.hosts new, agrees is)
            (ground arith)
      | inr exempt ↦
          rw (hit-put_literal obj (host_of obj) s (exempt_after b) snap.hosts new, exempt)
            (ground arith)
    ]
add_ban_class-hits obj snap b (literal_path s) new agrees =
    elim (Bool-cases (subject_to obj (exempt_after b))) [
      | inl is ↦
          rw (hit-put_literal obj (path_of obj) s (exempt_after b) snap.paths new, agrees is)
            (ground arith)
      | inr exempt ↦
          rw (hit-put_literal obj (path_of obj) s (exempt_after b) snap.paths new, exempt)
            (ground arith)
    ]
add_ban_class-hits obj snap b (prefix_host p) new agrees =
    rw (any_prefix-append obj (host_of obj) snap.host_prefixes (as_prefix b p))
      (ground (arith, agrees))
add_ban_class-hits obj snap b (prefix_path p) new agrees =
    rw (any_prefix-append obj (path_of obj) snap.path_prefixes (as_prefix b p))
      (ground (arith, agrees))
add_ban_class-hits obj snap b literal_surrogate new agrees =
    rw (any_opaque-append obj snap.opaque_bans (as_opaque b)) (ground arith)
add_ban_class-hits obj snap b opaque_ban new agrees =
    rw (any_opaque-append obj snap.opaque_bans (as_opaque b)) (ground arith)

add_ban-hits :
    (now ttl : ℤ) (obj : Object) (snap : BanSnapshot) (b : ActiveBan)
    → NewIn snap (classify_ban b.pattern)
    → ClassAgrees obj b (classify_ban b.pattern)
    → snapshot_matches (add_ban now ttl snap b) obj
      ≡ (snapshot_matches snap obj || ban_hits now ttl obj b)
unfolding add_ban ban_hits
add_ban-hits now ttl obj snap b new agrees = elim (Bool-cases (is_ban_expired now ttl b)) [
  | inl old ↦ rw old (ground arith)
  | inr young ↦ rw young (add_ban_class-hits obj snap b (classify_ban b.pattern) new agrees)
]

lookup_literal-put_other :
    (s t : Bytes) (v : ℤ) (m : List (Bytes × ℤ))
    → eq_bytes t s ≡ false
    → lookup_literal t m ≡ none
    → lookup_literal t (put_literal s v m) ≡ none
lookup_literal-put_other s t v m other gone = rw (lookup_literal-put_literal t s v m, other) gone

add_ban_class-NewIn :
    (snap : BanSnapshot) (b : ActiveBan) (c d : BanClass)
    → same_literal c d ≡ false
    → NewIn snap d
    → NewIn (add_ban_class c b snap) d
unfolding add_ban_class same_literal
add_ban_class-NewIn snap b (literal_host s) (literal_host t) apart new =
    lookup_literal-put_other s t (exempt_after b) snap.hosts apart new
add_ban_class-NewIn snap b (literal_path s) (literal_path t) apart new =
    lookup_literal-put_other s t (exempt_after b) snap.paths apart new
add_ban_class-NewIn snap b (literal_path s) (literal_host t) apart new = new
add_ban_class-NewIn snap b (literal_host s) (literal_path t) apart new = new
add_ban_class-NewIn snap b (prefix_host p) (literal_host t) apart new = new
add_ban_class-NewIn snap b (prefix_host p) (literal_path t) apart new = new
add_ban_class-NewIn snap b (prefix_path p) (literal_host t) apart new = new
add_ban_class-NewIn snap b (prefix_path p) (literal_path t) apart new = new
add_ban_class-NewIn snap b literal_surrogate (literal_host t) apart new = new
add_ban_class-NewIn snap b literal_surrogate (literal_path t) apart new = new
add_ban_class-NewIn snap b opaque_ban (literal_host t) apart new = new
add_ban_class-NewIn snap b opaque_ban (literal_path t) apart new = new
add_ban_class-NewIn snap b c (prefix_host p) apart new = tt
add_ban_class-NewIn snap b c (prefix_path p) apart new = tt
add_ban_class-NewIn snap b c literal_surrogate apart new = tt
add_ban_class-NewIn snap b c opaque_ban apart new = tt

abbrev AllNew : BanSnapshot → List ActiveBan → Type 0
AllNew snap [] = Unit {0}
AllNew snap (b ∷ bs) = NewIn snap (classify_ban b.pattern) × AllNew snap bs

add_ban-AllNew :
    (now ttl : ℤ) (snap : BanSnapshot) (b : ActiveBan) (bs : List ActiveBan)
    → AllApart b bs
    → AllNew snap bs
    → AllNew (add_ban now ttl snap b) bs
unfolding add_ban
add_ban-AllNew now ttl snap b [] apart new = tt
add_ban-AllNew now ttl snap b (c ∷ cs) (differs, apart) (here, new) = (
  elim (Bool-cases (is_ban_expired now ttl b)) [
    | inl old ↦ rw old here
    | inr young ↦
        rw young (
          add_ban_class-NewIn snap b (classify_ban b.pattern) (classify_ban c.pattern) differs here)
  ],
  add_ban-AllNew now ttl snap b cs apart new,
)

empty-AllNew : (bs : List ActiveBan) → AllNew empty_snapshot bs
unfolding lookup_literal
empty-AllNew [] = tt
empty-AllNew (b ∷ bs) = (new (classify_ban b.pattern), empty-AllNew bs)
  where
    new : (c : BanClass) → NewIn empty_snapshot c
    new (literal_host s) = refl
    new (literal_path s) = refl
    new (prefix_host p) = tt
    new (prefix_path p) = tt
    new literal_surrogate = tt
    new opaque_ban = tt

compiled-hits :
    (now ttl : ℤ) (obj : Object) (bs : List ActiveBan) (snap : BanSnapshot)
    → Apart bs
    → AllNew snap bs
    → AllAgree obj bs
    → snapshot_matches (foldl (add_ban now ttl) snap bs) obj
      ≡ (snapshot_matches snap obj || any_hits now ttl obj bs)
unfolding any_hits
compiled-hits now ttl obj [] snap apart new agree = ground arith
compiled-hits now ttl obj (b ∷ bs) snap (first, apart) (here, new) (agrees, agree) =
    compiled-hits now ttl obj bs (add_ban now ttl snap b) apart
      (add_ban-AllNew now ttl snap b bs first new) agree
    ∙ rw (add_ban-hits now ttl obj snap b here agrees) (ground arith)

empty_hits : (obj : Object) → snapshot_matches empty_snapshot obj ≡ false
unfolding snapshot_matches literal_match prefix_match any_prefix any_opaque lookup_literal
    hit_literal
empty_hits obj = refl

-- The compiled snapshot matches an object exactly where some ban of the list does on its own: one that
-- has not expired, that the object was not stored after, and whose predicate holds. It wants that the
-- predicates mean what their classes say, and that no two bans come down to the same literal.
pub compile_ban_snapshot-any_hits :
    (now ttl : ℤ) (obj : Object) (bans : List ActiveBan)
    → Apart bans
    → AllAgree obj bans
    → snapshot_matches (compile_ban_snapshot now ttl bans) obj ≡ any_hits now ttl obj bans
unfolding compile_ban_snapshot
compile_ban_snapshot-any_hits now ttl obj bans apart agree =
    rw
      (
        compiled-hits now ttl obj bans empty_snapshot apart (empty-AllNew bans) agree,
        empty_hits obj,
      )
      refl
