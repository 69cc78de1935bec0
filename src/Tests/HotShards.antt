-- ===== src/Tests/HotShards.antt =====
-- internal/storage/hot.go at concrete shards over the SIEVE list.
use bouine.Prelude.{true, ◌⊎◌, ◌≡◌, refl, false, [], none, replicate}
use bouine.Prelude.Bytes.{Bytes, codes}
use bouine.Prelude.Int.{pos, ◌≤ℤ◌}
use bouine.Api.Object.{Object}
use bouine.Storage.Sieve.Sweeps
use bouine.Storage.Sieve.Policy.{Pooled, sieve_policy, HoldsPairs}
use bouine.Storage.Sieve.Policy
use bouine.Storage.EvictLists.{EvictList, IsEvictList}
use bouine.Tests.Pools.{above_all, above_all-IsPool}
use bouine.Header.HeaderMap
use bouine.Prelude.Int
use bouine.Storage.Sieve
use bouine.Storage.HotShard
use bouine.Storage.HotShard.{Shard, delete, put_stored, sweep_over, set_backed, get_object}
use bouine.Storage.HotShard.Operations.{SomeShard}
use bouine.Storage.HotShard.Reaches.{IsStored, put_stored_lem}
use bouine.Storage.HotShard.Sweeper.{Settled, sweep_over-Settled}
use bouine.Storage.HotShard.Lives.{
  new_shard, Lives, created, puts, deletes, backs, gets, sweeps, Lives-SomeShard,
}

abbrev pub page_of : Bytes → Object
page_of body = record {
  stored_at = pos 63902822400000000000;
  last_modified = pos 0;
  etag = [];
  cache_control = codes "max-age=60";
  header = record { entries = []; values = [] };
  body_size = pos 5;
  ttl = pos 60000000000;
  origin_age = pos 0;
  stale_if_error = pos 0;
  stale_while_revalidate = pos 0;
  status_code = pos 200;
  resp_no_cache = false;
  resp_must_revalidate = false;
  key = [];
  vary_key = [];
  vary_value = [];
  pool = codes "web";
  hits = 0;
  keep_grace = false;
  has_date = false;
  has_connection_list = false;
  has_no_cache_fields = false;
  paired_key = [];
  surrogate_keys = [];
  body = body;
}

abbrev first_key : Bytes
first_key = replicate 16 1

abbrev second_key : Bytes
second_key = replicate 16 2

abbrev policy : EvictList Pooled
policy = sieve_policy above_all

sieve-IsEvictList_example : IsEvictList policy HoldsPairs
sieve-IsEvictList_example = Policy.sieve-IsEvictList above_all above_all-IsPool

policy-IsEvictList : IsEvictList policy HoldsPairs
policy-IsEvictList = Policy.sieve-IsEvictList above_all above_all-IsPool

abbrev empty_list : Pooled
empty_list = (
  record {
    heap = λ a. record { key = []; prev = none; next = none; visited = false; io_bits = 0 };
    head = none;
    tail = none;
    hand = none;
    len = 0;
  },
  0,
)

empty_list-Holds : HoldsPairs empty_list []
unfolding HoldsPairs Sweeps.IsSieve
empty_list-Holds =
    ((record { chain = tt; distinct = tt; head = refl; tail = refl; len = refl }, tt), tt)

-- Two objects, the first with a backup, and a budget for both.
abbrev two_pages : Shard Pooled
two_pages =
    (put_stored policy (pos 4000) second_key (page_of (codes "hello")) (
      set_backed policy first_key
        (put_stored policy (pos 4000) first_key (page_of (codes "world"))
          (new_shard empty_list)).1)).1

abbrev two_pages-Lives : Lives policy empty_list two_pages
two_pages-Lives =
    puts (pos 4000) second_key (page_of (codes "hello"))
      (backs first_key (puts (pos 4000) first_key (page_of (codes "world")) created))

two_pages-SomeShard : SomeShard HoldsPairs policy policy-IsEvictList two_pages
two_pages-SomeShard =
    Lives-SomeShard HoldsPairs policy policy-IsEvictList empty_list empty_list-Holds two_pages-Lives

-- The sweeper under a budget of nothing, after a Get and a Delete.
abbrev swept : Shard Pooled
swept =
    sweep_over policy (pos 0)
      (delete policy first_key (get_object policy (λ obj. false) second_key two_pages).1)

Lives-SomeShard_example : SomeShard HoldsPairs policy policy-IsEvictList swept
Lives-SomeShard_example =
    Lives-SomeShard HoldsPairs policy policy-IsEvictList empty_list empty_list-Holds
      (sweeps (pos 0) (deletes first_key (gets (λ obj. false) second_key two_pages-Lives)))

put_stored_lem_example :
    (SomeShard HoldsPairs policy policy-IsEvictList
      (put_stored policy (pos 1000) first_key (page_of (codes "again")) two_pages).1)
    × (IsStored (page_of (codes "again")) (
        (put_stored policy (pos 1000) first_key (page_of (codes "again")) two_pages).1.entries
          first_key))
    × (((put_stored policy (pos 1000) first_key (page_of (codes "again")) two_pages).0 ≡ true)
        ⊎ ((put_stored policy (pos 1000) first_key (page_of (codes "again")) two_pages).1.bytes
            ≤ℤ pos 1000))
put_stored_lem_example =
    put_stored_lem HoldsPairs policy policy-IsEvictList (pos 1000) first_key
      (page_of (codes "again")) two_pages two_pages-SomeShard

sweep_over-Settled_example :
    Settled HoldsPairs policy policy-IsEvictList
      (pos 0)
      (pos 600)
      (sweep_over policy (pos 600) two_pages)
sweep_over-Settled_example =
    sweep_over-Settled HoldsPairs policy policy-IsEvictList (pos 600) two_pages two_pages-SomeShard

-- What the shard holds: two objects of 519 bytes each.
two_pages_bytes : two_pages.bytes ≡ pos 1038
unfolding new_shard put_stored HotShard.evict_over HotShard.replace_old HotShard.insert_stored
    HotShard.with_entry HotShard.obj_size set_backed sieve_policy Sieve.access HeaderMap.footprint
    HeaderMap.sum_lengths Int.◌+ℤ◌
two_pages_bytes = refl
