-- ===== src/Storage/HotShard/Lives.antt =====
-- internal/storage/hot.go: a shard from its creation on, through any operations.
use bouine.Prelude.{refl, Bool, List, [], none, arith}
use bouine.Prelude.Bytes.{Bytes}
use bouine.Prelude.Int.{ℤ, pos}
use bouine.Api.Object.{Object}
use bouine.Storage.EvictLists.{EvictList, IsEvictList}
use bouine.Storage.HotShard.{
  Shard, delete, ban_shard, reap_shard, set_backed, clear_backed, put_stored, sweep_over,
  get_object,
}
use bouine.Storage.HotShard.Held.{Pairs, sum_over}
use bouine.Storage.HotShard.Shards.{IsShard}
use bouine.Storage.HotShard.Victims.{evict_over-IsShard}
use bouine.Storage.HotShard.Operations.{SomeShard, delete-SomeShard, ban-SomeShard, reap-SomeShard}
use bouine.Storage.HotShard.Reaches.{
  put_stored_lem, set_backed-SomeShard, clear_backed-SomeShard, get_object-SomeShard,
}

module _ {S : Type 0} where
  -- A shard of NewHotStore over an empty list.
  unfoldable pub new_shard : S → Shard S
  new_shard l = record {
    entries = λ k. none;
    evict = l;
    bytes = pos 0;
    backed_count = pos 0;
    evictions = 0;
    tombstoned = [];
    demoted = [];
  }

  -- The shards that operations lead to, one after another as the lock lets them.
  pub data Lives (list : EvictList S) (l : S) : Shard S → Type 0 where
    created : Lives list l (new_shard l)
    puts :
        {s : Shard S} (max : ℤ) (k : Bytes) (stored : Object)
        → Lives list l s
        → Lives list l (put_stored list max k stored s).1
    gets :
        {s : Shard S} (banned : Object → Bool) (k : Bytes)
        → Lives list l s
        → Lives list l (get_object list banned k s).1
    deletes : {s : Shard S} (k : Bytes) → Lives list l s → Lives list l (delete list k s)
    bans :
        {s : Shard S} (pred : Object → Bool) (ks : List Bytes)
        → Lives list l s
        → Lives list l (ban_shard list pred ks s)
    reaps :
        {s : Shard S} (may_reap : Object → Bool) (now : ℤ) (ks : List Bytes)
        → Lives list l s
        → Lives list l (reap_shard list may_reap now ks s)
    sweeps : {s : Shard S} (max : ℤ) → Lives list l s → Lives list l (sweep_over list max s)
    backs : {s : Shard S} (k : Bytes) → Lives list l s → Lives list l (set_backed list k s)
    unbacks : {s : Shard S} (k : Bytes) → Lives list l s → Lives list l (clear_backed list k s)

module _ {S : Type 0} (Holds : S → Pairs → Type 0) (list : EvictList S)
    (law : IsEvictList list Holds) where
  new-IsShard : (l : S) → Holds l [] → IsShard Holds (new_shard l) []
  unfolding new_shard sum_over
  new-IsShard l e = record {
    listed = e;
    mapped = record { held = tt; distinct = tt; outside = λ k a. refl; total = refl };
    backed = omega arith;
  }

  -- Whatever Get, Put, Delete, ban scans, reaper passes, sweeps and changes of backup come one after
  -- another, over a policy that keeps its list the map of a shard has just the entries of the list,
  -- under distinct keys, `bytes` is the sum of their sizes, and backedCount is at least the number of
  -- those with a backup.
  pub Lives-SomeShard :
      (l : S) → Holds l [] → {s : Shard S} → Lives list l s → SomeShard Holds list law s
  unfolding sweep_over
  Lives-SomeShard l e created = ([], new-IsShard l e)
  Lives-SomeShard l e (puts {s} max k stored v) =
      (put_stored_lem Holds list law max k stored s (Lives-SomeShard l e v)).0
  Lives-SomeShard l e (gets {s} banned k v) =
      get_object-SomeShard Holds list law banned k s (Lives-SomeShard l e v)
  Lives-SomeShard l e (deletes {s} k v) =
      delete-SomeShard Holds list law k s (Lives-SomeShard l e v)
  Lives-SomeShard l e (bans {s} pred ks v) =
      ban-SomeShard Holds list law pred ks s (Lives-SomeShard l e v)
  Lives-SomeShard l e (reaps {s} may_reap now ks v) =
      reap-SomeShard Holds list law may_reap now ks s (Lives-SomeShard l e v)
  Lives-SomeShard l e (sweeps {s} max v) =
      let (xs, w) = Lives-SomeShard l e v in
      evict_over-IsShard Holds list law (list.len s.evict) (pos 0) max s xs w
  Lives-SomeShard l e (backs {s} k v) =
      set_backed-SomeShard Holds list law k s (Lives-SomeShard l e v)
  Lives-SomeShard l e (unbacks {s} k v) =
      clear_backed-SomeShard Holds list law k s (Lives-SomeShard l e v)
