-- ===== src/Storage/Bans/Snapshots.antt =====
-- internal/storage/bans.go: the compiled snapshot of the bans that are not on surrogate keys, what
-- it matches, and the surrogate bans beside it. A map is an association list.
use bouine.Prelude.{
  Bool, false, ◌&&◌, ◌||◌, List, [], ◌∷◌, ◌++◌, Option, none, some, foldl, if◌then◌else◌,
}
use bouine.Prelude.Bytes.{Bytes, eq_bytes, has_prefix}
use bouine.Prelude.Int.{ℤ, leb_ℤ}
use bouine.Api.Object.{Object, sub_time}
use bouine.Storage.Bans.{
  ActiveBan, exempt_after, BanClass, opaque_ban, literal_host, literal_path, literal_surrogate,
  prefix_host, prefix_path, classify_ban, subject_to, host_of, path_of,
}

pub record OpaqueBan : Type 0 where
  pub exempt_after : ℤ
  pub pred : Object → Bool

pub record PrefixBan : Type 0 where
  pub exempt_after : ℤ
  pub pred : Object → Bool
  pub prefix : Bytes

pub record BanSnapshot : Type 0 where
  pub hosts : List (Bytes × ℤ)
  pub paths : List (Bytes × ℤ)
  pub host_prefixes : List PrefixBan
  pub path_prefixes : List PrefixBan
  pub opaque_bans : List OpaqueBan

abbrev pub empty_snapshot : BanSnapshot
empty_snapshot = record {
  hosts = [];
  paths = [];
  host_prefixes = [];
  path_prefixes = [];
  opaque_bans = [];
}

-- A key of a map that is set again keeps one value, the last.
unfoldable pub put_literal : Bytes → ℤ → List (Bytes × ℤ) → List (Bytes × ℤ)
put_literal k v [] = (k, v) ∷ []
put_literal k v ((k', v') ∷ m) = if eq_bytes k k' then (k, v) ∷ m else (k', v') ∷ put_literal k v m

unfoldable pub lookup_literal : Bytes → List (Bytes × ℤ) → Option ℤ
lookup_literal k [] = none
lookup_literal k ((k', v) ∷ m) = if eq_bytes k k' then some v else lookup_literal k m

unfoldable pub as_opaque : ActiveBan → OpaqueBan
as_opaque b = record { exempt_after = exempt_after b; pred = b.pred }

unfoldable pub as_prefix : ActiveBan → Bytes → PrefixBan
as_prefix b p = record { exempt_after = exempt_after b; pred = b.pred; prefix = p }

unfoldable pub add_ban_class : BanClass → ActiveBan → BanSnapshot → BanSnapshot
add_ban_class (literal_host s) b snap = record snap {
  hosts = put_literal s (exempt_after b) snap.hosts;
}
add_ban_class (literal_path s) b snap = record snap {
  paths = put_literal s (exempt_after b) snap.paths;
}
add_ban_class (prefix_host p) b snap = record snap {
  host_prefixes = snap.host_prefixes ++ (as_prefix b p ∷ []);
}
add_ban_class (prefix_path p) b snap = record snap {
  path_prefixes = snap.path_prefixes ++ (as_prefix b p ∷ []);
}
add_ban_class literal_surrogate b snap = record snap {
  opaque_bans = snap.opaque_bans ++ (as_opaque b ∷ []);
}
add_ban_class opaque_ban b snap = record snap {
  opaque_bans = snap.opaque_bans ++ (as_opaque b ∷ []);
}

-- `now.Sub(b.created) >= ttl`
unfoldable pub is_ban_expired : ℤ → ℤ → ActiveBan → Bool
is_ban_expired now ttl b = leb_ℤ ttl (sub_time now b.created)

unfoldable pub add_ban : ℤ → ℤ → BanSnapshot → ActiveBan → BanSnapshot
add_ban now ttl snap b =
    if is_ban_expired now ttl b then snap else add_ban_class (classify_ban b.pattern) b snap

unfoldable pub compile_ban_snapshot : ℤ → ℤ → List ActiveBan → BanSnapshot
compile_ban_snapshot now ttl bans = foldl (add_ban now ttl) empty_snapshot bans

unfoldable pub hit_literal : Object → Option ℤ → Bool
hit_literal obj none = false
hit_literal obj (some exempt) = subject_to obj exempt

unfoldable pub literal_match : Object → BanSnapshot → Bool
literal_match obj s =
    hit_literal obj (lookup_literal (host_of obj) s.hosts)
    || hit_literal obj (lookup_literal (path_of obj) s.paths)

unfoldable pub any_prefix : Object → Bytes → List PrefixBan → Bool
any_prefix obj v [] = false
any_prefix obj v (b ∷ bs) =
    has_prefix v b.prefix && subject_to obj b.exempt_after && b.pred obj || any_prefix obj v bs

unfoldable pub prefix_match : Object → BanSnapshot → Bool
prefix_match obj s =
    any_prefix obj (host_of obj) s.host_prefixes || any_prefix obj (path_of obj) s.path_prefixes

unfoldable pub any_opaque : Object → List OpaqueBan → Bool
any_opaque obj [] = false
any_opaque obj (b ∷ bs) = subject_to obj b.exempt_after && b.pred obj || any_opaque obj bs

unfoldable pub snapshot_matches : BanSnapshot → Object → Bool
snapshot_matches s obj = literal_match obj s || prefix_match obj s || any_opaque obj s.opaque_bans
