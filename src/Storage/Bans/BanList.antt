-- ===== src/Storage/Bans/BanList.antt =====
-- internal/storage/bans.go: the list of active bans with its views. A pointer to a ban is an address
-- in `bans`; a call holds the mutex throughout, so it is a function on the state. `now` is what
-- time.Now answers, `fresh` the address of a new ban, `hash` the hash of maphash.
use bouine.Prelude.{
  ℕ, Bool, true, false, ◌&&◌, ◌||◌, not, List, [], ◌∷◌, ◌++◌, map, Option, none, some, ◌==◌, leb,
  length, if◌then◌else◌,
}
use bouine.Prelude.Bytes.{Bytes, eq_bytes}
use bouine.Prelude.Int.{ℤ, pos, pos_part, leb_ℤ}
use bouine.Api.Object.{Object}
use bouine.Cluster.Events.{BanExpr}
use bouine.Storage.Bans.{
  BanPattern, pattern_of, ActiveBan, exempt_nanos_of, BanClass, literal_surrogate, opaque_ban,
  literal_host, literal_path, prefix_host, prefix_path, classify_ban,
}
use bouine.Storage.Bans.Snapshots.{
  BanSnapshot, empty_snapshot, is_ban_expired, compile_ban_snapshot, snapshot_matches,
}
use bouine.Storage.Bans.Surrogates.{
  SurrogateTable, surrogate_put, surrogate_remove, surrogate_matches,
}

pub record BanListState : Type 0 where
  pub bans : ℕ → ActiveBan
  pub snap : Option BanSnapshot
  pub index : List (BanPattern × ℕ)
  pub surr : Option SurrogateTable
  pub list : List ℕ
  pub rest : List ℕ
  pub ttl : ℤ
  pub capacity : ℤ
  pub dirty : Bool

unfoldable pub ttl_or_default : BanListState → ℤ
ttl_or_default b = if leb_ℤ b.ttl (pos 0) then pos 86400000000000 else b.ttl

unfoldable pub cap_or_default : BanListState → ℕ
cap_or_default b = if leb_ℤ b.capacity (pos 0) then 4096 else pos_part b.capacity

unfoldable pub eq_pattern : BanPattern → BanPattern → Bool
eq_pattern p q =
    eq_bytes p.host_regex q.host_regex
    && eq_bytes p.path_regex q.path_regex
    && eq_bytes p.surrogate_key q.surrogate_key

unfoldable pub find_pattern : BanPattern → List (BanPattern × ℕ) → Option ℕ
find_pattern p [] = none
find_pattern p ((q, a) ∷ m) = if eq_pattern p q then some a else find_pattern p m

unfoldable pub delete_pattern : BanPattern → List (BanPattern × ℕ) → List (BanPattern × ℕ)
delete_pattern p [] = []
delete_pattern p ((q, a) ∷ m) = if eq_pattern p q then m else (q, a) ∷ delete_pattern p m

unfoldable pub is_surrogate_class : BanClass → Bool
is_surrogate_class literal_surrogate = true
is_surrogate_class opaque_ban = false
is_surrogate_class (literal_host s) = false
is_surrogate_class (literal_path s) = false
is_surrogate_class (prefix_host p) = false
is_surrogate_class (prefix_path p) = false

-- `slices.DeleteFunc` of one pointer.
unfoldable pub delete_address : ℕ → List ℕ → List ℕ
delete_address a [] = []
delete_address a (x ∷ xs) = if x == a then delete_address a xs else x ∷ delete_address a xs

unfoldable pub drop_rest : ℕ → List ℕ → List ℕ
drop_rest a [] = []
drop_rest a (x ∷ xs) = if x == a then xs else delete_address a (x ∷ xs)

unfoldable pub evict_ban : (Bytes → ℕ) → ℕ → List ℕ → BanListState → BanListState
evict_ban hash a list b =
    let ban = b.bans a in
    let index = delete_pattern ban.pattern b.index in
    if ban.surrogate
    then record b {
      list = list;
      index = index;
      surr = surrogate_remove hash ban.pattern.surrogate_key a b.surr;
    }
    else record b { list = list; index = index; rest = drop_rest a b.rest; dirty = true }

-- popExpiredHeadLocked on the bans of the list.
unfoldable pub pop_expired : (Bytes → ℕ) → ℤ → List ℕ → BanListState → BanListState
pop_expired hash now [] b = b
pop_expired hash now (a ∷ list) b = elim (is_ban_expired now (ttl_or_default b) (b.bans a)) [
  | true ↦ pop_expired hash now list (evict_ban hash a list b)
  | false ↦ b
]

-- The eviction loop of register on the bans of the list.
unfoldable pub evict_to_cap : (Bytes → ℕ) → List ℕ → BanListState → BanListState
evict_to_cap hash [] b = b
evict_to_cap hash (a ∷ list) b = elim (leb (cap_or_default b) (length (a ∷ list))) [
  | true ↦ evict_to_cap hash list (evict_ban hash a list b)
  | false ↦ b
]

unfoldable pub set_ban : ℕ → ActiveBan → (ℕ → ActiveBan) → ℕ → ActiveBan
set_ban a ban bans x = if x == a then ban else bans x

-- The ban keeps its predicate.
unfoldable pub refresh_ban : ℤ → ActiveBan → ActiveBan
refresh_ban created ban = record ban { created = created; exempt_nanos = exempt_nanos_of created }

unfoldable pub refresh_known : ℕ → ℤ → BanListState → BanListState
refresh_known a created b = record b {
  bans = set_ban a (refresh_ban created (b.bans a)) b.bans;
  dirty = not (b.bans a).surrogate || b.dirty;
}

unfoldable pub new_ban : BanPattern → (Object → Bool) → ℤ → ActiveBan
new_ban pat pred created = record {
  pred = pred;
  created = created;
  pattern = pat;
  exempt_nanos = exempt_nanos_of created;
  surrogate = is_surrogate_class (classify_ban pat);
}

unfoldable pub append_ban : (Bytes → ℕ) → ℕ → ActiveBan → BanListState → BanListState
append_ban hash fresh ban b =
    let added = record b {
      bans = set_ban fresh ban b.bans;
      index = b.index ++ ((ban.pattern, fresh) ∷ []);
      list = b.list ++ (fresh ∷ []);
    } in
    if ban.surrogate
    then record added {
      surr = surrogate_put hash ban.pattern.surrogate_key fresh (cap_or_default b) b.surr;
    }
    else record added { rest = b.rest ++ (fresh ∷ []); dirty = true }

unfoldable pub register :
    (Bytes → ℕ) → ℤ → ℕ → BanExpr → (Object → Bool) → ℤ → BanListState → BanListState
register hash now fresh expr pred created b =
    let popped = pop_expired hash now b.list b in
    elim (find_pattern (pattern_of expr) popped.index) [
      | some a ↦ refresh_known a created popped
      | none ↦
          append_ban hash fresh (new_ban (pattern_of expr) pred created)
            (evict_to_cap hash popped.list popped)
    ]

unfoldable pub rebuild_snapshot : ℤ → BanListState → BanListState
rebuild_snapshot now b = record b {
  snap = some (compile_ban_snapshot now (ttl_or_default b) (map b.bans b.rest));
  dirty = false;
}

abbrev pub or_empty : Option BanSnapshot → BanSnapshot
or_empty none = empty_snapshot
or_empty (some s) = s

abbrev pub is_nil : Option BanSnapshot → Bool
is_nil none = true
is_nil (some s) = false

-- `snapshot`; `locked` says whether TryLock gets the mutex.
unfoldable pub current_snapshot : Bool → ℤ → BanListState → BanSnapshot × BanListState
current_snapshot locked now b =
    let after = if locked && (b.dirty || is_nil b.snap) then rebuild_snapshot now b else b in
    (or_empty after.snap, after)

unfoldable pub list_matches : (Bytes → ℕ) → Bool → ℤ → Object → BanListState → Bool × BanListState
list_matches hash locked now obj b =
    let (snap, after) = current_snapshot locked now b in
    (snapshot_matches snap obj || surrogate_matches hash after.bans after.surr obj, after)
