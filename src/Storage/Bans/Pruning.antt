-- ===== src/Storage/Bans/Pruning.antt =====
-- internal/storage/bans.go: pruneExpired of the reaper, setTTL, and the descriptors of the explain plane
-- against the snapshot.
use bouine.Prelude.{
  ℕ, ◌≡◌, refl, sym, ap, ◌∙◌, inl, inr, Bool, true, false, ◌&&◌, ◌||◌, not, List, [], ◌∷◌, map,
  Option, none, some, ◌==◌, if◌then◌else◌, Bool-cases,
}
use bouine.Prelude.Bytes.{Bytes}
use bouine.Prelude.Int.{ℤ}
use bouine.Api.Object.{Object, add_time}
use bouine.Storage.Bans.{Regexp, BanPattern, ActiveBan, exempt_after, subject_to}
use bouine.Storage.Bans.Snapshots.{is_ban_expired, compile_ban_snapshot, snapshot_matches}
use bouine.Storage.Bans.Surrogates.{surrogate_remove}
use bouine.Storage.Bans.Lookups.{ban_hits, any_hits, Apart}
use bouine.Storage.Bans.Literals.{IsRegexp}
use bouine.Storage.Bans.Classes.{AllCompiled, compiled_snapshot-any_hits}
use bouine.Storage.Bans.BanList.{
  BanListState, ttl_or_default, find_pattern, delete_pattern, rebuild_snapshot, current_snapshot,
}
use bouine.Storage.Bans.Registrations.{IsBanList, non_surrogates}

unfoldable pub set_ttl : ℤ → BanListState → BanListState
set_ttl d b = record b { ttl = d }

unfoldable pub young_bans : ℤ → BanListState → List ℕ → List ℕ
young_bans now b [] = []
young_bans now b (a ∷ list) =
    let rest = young_bans now b list in
    if is_ban_expired now (ttl_or_default b) (b.bans a) then rest else a ∷ rest

unfoldable pub rest_changes : ℤ → BanListState → List ℕ → Bool
rest_changes now b [] = false
rest_changes now b (a ∷ list) =
    is_ban_expired now (ttl_or_default b) (b.bans a) && not (b.bans a).surrogate
    || rest_changes now b list

-- An expired ban leaves the index, and the surrogate set if it is there.
unfoldable pub drop_views : (Bytes → ℕ) → ℕ → BanListState → BanListState
drop_views hash a b =
    let ban = b.bans a in
    record b {
      index = delete_pattern ban.pattern b.index;
      surr =
          if ban.surrogate
          then surrogate_remove hash ban.pattern.surrogate_key a b.surr
          else b.surr;
    }

unfoldable pub prune_views : (Bytes → ℕ) → ℤ → List ℕ → BanListState → BanListState
prune_views hash now [] b = b
prune_views hash now (a ∷ list) b =
    prune_views hash now list
      (if is_ban_expired now (ttl_or_default b) (b.bans a) then drop_views hash a b else b)

abbrev pub is_address : Option ℕ → ℕ → Bool
is_address none a = false
is_address (some x) a = x == a

unfoldable pub keep_indexed : BanListState → List ℕ → List ℕ
keep_indexed b [] = []
keep_indexed b (r ∷ rest) =
    let kept = keep_indexed b rest in
    if is_address (find_pattern (b.bans r).pattern b.index) r then r ∷ kept else kept

unfoldable pub prune_expired : (Bytes → ℕ) → ℤ → BanListState → BanListState
prune_expired hash now b =
    let c = prune_views hash now b.list b in
    rebuild_snapshot now (record c {
      list = young_bans now b b.list;
      rest = if rest_changes now b b.list then keep_indexed c b.rest else b.rest;
    })

pub record BanDescriptor : Type 0 where
  pub pattern : BanPattern
  pub created_at : ℤ
  pub expires_at : ℤ

unfoldable pub descriptors_of : ℤ → ℤ → Object → List ActiveBan → List BanDescriptor
descriptors_of now ttl obj [] = []
descriptors_of now ttl obj (b ∷ bs) =
    let rest = descriptors_of now ttl obj bs in
    if is_ban_expired now ttl b || not (subject_to obj (exempt_after b)) || not (b.pred obj)
    then rest
    else record { pattern = b.pattern; created_at = b.created; expires_at = add_time b.created ttl }
      ∷ rest

unfoldable pub descriptors : Object → ℤ → BanListState → List BanDescriptor
descriptors obj now b = descriptors_of now (ttl_or_default b) obj (map b.bans b.list)

abbrev pub is_nonempty : List BanDescriptor → Bool
is_nonempty [] = false
is_nonempty (d ∷ ds) = true

described :
    (now ttl : ℤ) (obj : Object) (bs : List ActiveBan)
    → is_nonempty (descriptors_of now ttl obj bs) ≡ any_hits now ttl obj bs
unfolding descriptors_of any_hits ban_hits
described now ttl obj [] = refl
described now ttl obj (b ∷ bs) =
    let ih = described now ttl obj bs in
    branch (is_ban_expired now ttl b) (subject_to obj (exempt_after b)) (b.pred obj) _
      (descriptors_of now ttl obj bs) (any_hits now ttl obj bs) ih
  where
    branch :
        (old subject hit : Bool) (d : BanDescriptor) (ds : List BanDescriptor) (rest : Bool)
        → is_nonempty ds ≡ rest
        → is_nonempty (if old || not subject || not hit then ds else d ∷ ds)
          ≡ (not old && (subject && hit) || rest)
    branch true subject hit d ds rest h = h
    branch false false hit d ds rest h = h
    branch false true false d ds rest h = h
    branch false true true d ds rest h = refl

-- No ban of the list is on a surrogate key alone.
abbrev pub NoSurrogates : (ℕ → ActiveBan) → List ℕ → Type 0
NoSurrogates bans [] = Unit {0}
NoSurrogates bans (a ∷ list) = ((bans a).surrogate ≡ false) × NoSurrogates bans list

all_others :
    (bans : ℕ → ActiveBan) (list : List ℕ)
    → NoSurrogates bans list
    → non_surrogates bans list ≡ list
unfolding non_surrogates
all_others bans [] n = refl
all_others bans (a ∷ list) (other, n) = rw other (ap (λ t. a ∷ t) (all_others bans list n))

-- MatchingBans has an answer for an object exactly where the snapshot, compiled at the same time,
-- matches it: on a list whose views are in step, without surrogate bans, in which each ban has the
-- predicate that was compiled from its own pattern, with a CreatedAt that is zero or still is the
-- ban's exemption instant. The regular expressions are what their package documents, the host and
-- path patterns are of ASCII only, no backslash in them stands before a letter or a
-- digit, and no two bans come down to the same literal.
pub descriptors-snapshot_matches :
    (regexp : Regexp)
    → IsRegexp regexp
    → (b : BanListState) → IsBanList b
    → NoSurrogates b.bans b.list
    → AllCompiled regexp (map b.bans b.list)
    → Apart (map b.bans b.list)
    → (obj : Object) (now : ℤ)
    → is_nonempty (descriptors obj now b)
      ≡ snapshot_matches (current_snapshot true now (record b { dirty = true })).0 obj
unfolding descriptors current_snapshot rebuild_snapshot ttl_or_default
descriptors-snapshot_matches regexp law b v none_surrogate compiled apart obj now =
    let rest : b.rest ≡ b.list = v.rest ∙ all_others b.bans b.list none_surrogate in
    described now (ttl_or_default b) obj (map b.bans b.list)
    ∙ (sym (
          compiled_snapshot-any_hits regexp law now (ttl_or_default b) (map b.bans b.list) compiled
            apart obj)
        ∙ ap
            (λ l. snapshot_matches (compile_ban_snapshot now (ttl_or_default b) (map b.bans l)) obj)
            (sym rest))

abbrev AllYoung : ℤ → BanListState → List ℕ → Type 0
AllYoung now b [] = Unit {0}
AllYoung now b (a ∷ list) =
    (is_ban_expired now (ttl_or_default b) (b.bans a) ≡ false) × AllYoung now b list

-- What the reaper leaves in the list has not expired.
young_bans-AllYoung :
    (now : ℤ) (b : BanListState) (list : List ℕ) → AllYoung now b (young_bans now b list)
unfolding young_bans
young_bans-AllYoung now b [] = tt
young_bans-AllYoung now b (a ∷ list) =
    elim (Bool-cases (is_ban_expired now (ttl_or_default b) (b.bans a))) [
      | inl old ↦ rw old (young_bans-AllYoung now b list)
      | inr young ↦ rw young (young, young_bans-AllYoung now b list)
    ]
