-- ===== src/Storage/Bans/Surrogates.antt =====
-- internal/storage/bans.go: the surrogate set. A pointer to a ban is its address; the shards' atomic
-- pointers are a function, nil an empty shard, and the hash of maphash a parameter.
use bouine.Prelude.{
  ℕ, zero, suc, ◌*◌, ◌/◌, ◌%◌, Bool, false, ◌&&◌, ◌||◌, not, List, [], ◌∷◌, Option, none, some,
  ◌==◌, ltb, leb, length, if◌then◌else◌,
}
use bouine.Prelude.Bytes.{Bytes, eq_bytes}
use bouine.Prelude.Int.{ℤ, eq_ℤ, min_int64}
use bouine.Header.HeaderMap.{gt_bytes}
use bouine.Api.Object.{Object, add_time}
use bouine.Cluster.Wire.{unix_epoch}
use bouine.Storage.Bans.{ActiveBan, after}

pub record SurrogateEntry : Type 0 where
  pub ban : ℕ
  pub key : Bytes

pub record SurrogateTable : Type 0 where
  pub size : ℕ
  pub shards : ℕ → List SurrogateEntry

-- The doubling in newSurrogateTable: 54 rounds pass any int.
unfoldable pub table_size : ℕ → ℕ → ℕ → ℕ
table_size zero n capacity = n
table_size (suc f) n capacity =
    let more = table_size f (n * 2) capacity in if ltb n (capacity / 2) then more else n

unfoldable pub new_surrogate_table : ℕ → SurrogateTable
new_surrogate_table capacity = record { size = table_size 54 1024 capacity; shards = λ i. [] }

abbrev pub shard_of : (Bytes → ℕ) → SurrogateTable → Bytes → ℕ
shard_of hash t key = hash key % t.size

unfoldable pub find_linear : Bytes → List SurrogateEntry → Option ℕ
find_linear key [] = none
find_linear key (e ∷ es) = if eq_bytes e.key key then some e.ban else find_linear key es

-- `slices.BinarySearchFunc` on a sorted slice: the first entry whose key is not less, if it is the key.
unfoldable pub find_sorted : Bytes → List SurrogateEntry → Option ℕ
find_sorted key [] = none
find_sorted key (e ∷ es) =
    if gt_bytes key e.key
    then find_sorted key es
    else if eq_bytes e.key key
    then some e.ban
    else none

unfoldable pub find_surrogate : Bytes → List SurrogateEntry → Option ℕ
find_surrogate key sh = if leb (length sh) 8 then find_linear key sh else find_sorted key sh

unfoldable pub insert_surrogate : SurrogateEntry → List SurrogateEntry → List SurrogateEntry
insert_surrogate e [] = e ∷ []
insert_surrogate e (x ∷ xs) = if gt_bytes e.key x.key then x ∷ insert_surrogate e xs else e ∷ x ∷ xs

unfoldable pub remove_surrogate : Bytes → ℕ → List SurrogateEntry → List SurrogateEntry
remove_surrogate key ban [] = []
remove_surrogate key ban (x ∷ xs) =
    if gt_bytes key x.key
    then x ∷ remove_surrogate key ban xs
    else if eq_bytes x.key key && x.ban == ban
    then xs
    else x ∷ xs

unfoldable pub store_shard : ℕ → List SurrogateEntry → SurrogateTable → SurrogateTable
store_shard i sh t = record t { shards = λ j. if j == i then sh else t.shards j }

abbrev pub table_or_new : ℕ → Option SurrogateTable → SurrogateTable
table_or_new capacity none = new_surrogate_table capacity
table_or_new capacity (some t) = t

unfoldable pub surrogate_put :
    (Bytes → ℕ) → Bytes → ℕ → ℕ → Option SurrogateTable → Option SurrogateTable
surrogate_put hash key ban capacity table =
    let t = table_or_new capacity table in
    let i = shard_of hash t key in
    some (store_shard i (insert_surrogate (record { ban = ban; key = key }) (t.shards i)) t)

unfoldable pub surrogate_remove :
    (Bytes → ℕ) → Bytes → ℕ → Option SurrogateTable → Option SurrogateTable
surrogate_remove hash key ban none = none
surrogate_remove hash key ban (some t) =
    let i = shard_of hash t key in some (store_shard i (remove_surrogate key ban (t.shards i)) t)

unfoldable pub subject_to_nanos : Object → ℤ → Bool
subject_to_nanos obj exempt =
    eq_ℤ exempt min_int64 || not (after obj.stored_at (add_time unix_epoch exempt))

unfoldable pub hit_ban : (ℕ → ActiveBan) → Object → Option ℕ → Bool
hit_ban bans obj none = false
hit_ban bans obj (some a) = subject_to_nanos obj (bans a).exempt_nanos

unfoldable pub any_surrogate :
    (Bytes → ℕ) → (ℕ → ActiveBan) → SurrogateTable → Object → List Bytes → Bool
any_surrogate hash bans t obj [] = false
any_surrogate hash bans t obj (k ∷ ks) =
    hit_ban bans obj (find_surrogate k (t.shards (shard_of hash t k)))
    || any_surrogate hash bans t obj ks

unfoldable pub surrogate_matches :
    (Bytes → ℕ) → (ℕ → ActiveBan) → Option SurrogateTable → Object → Bool
surrogate_matches hash bans none obj = false
surrogate_matches hash bans (some t) obj = any_surrogate hash bans t obj obj.surrogate_keys
