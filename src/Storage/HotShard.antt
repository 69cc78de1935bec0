-- ===== src/Storage/HotShard.antt =====
-- internal/storage/hot.go: one shard of the hot tier over an eviction list, as the interface gives it.
-- A call holds the shard's lock, so it is a function on the shard. The map of entries is a function;
-- the callbacks OnEvict and OnEvictDemoted are the lists of the keys that they were called
-- with. The slab allocator is off, which is the default; the log records are left out.
pub mod Held
pub mod Shards
pub mod Victims
pub mod Changes
pub mod Operations
pub mod Puts
pub mod Reaches
pub mod Sweeper
pub mod Lives
use bouine.Prelude.{
  ℕ, zero, suc, ◌+◌, ◌*◌, ◌%◌, ◌^◌, Bool, true, false, ◌&&◌, ◌||◌, not, List, [], ◌∷◌, ◌++◌, Option,
  none, some, ◌==◌, length, if◌then◌else◌,
}
use bouine.Prelude.Bytes.{Bytes, eq_bytes}
use bouine.Prelude.Int.{ℤ, pos, ◌+ℤ◌, ◌-ℤ◌, leb_ℤ, ltb_ℤ, eq_ℤ, wrap64}
use bouine.Header.HeaderMap.{footprint, sum_lengths}
use bouine.Api.Object.{Object, add_time}
use bouine.Storage.EvictLists.{EvictList}

pub record HotEntry : Type 0 where
  pub obj : Object
  pub entry : ℕ
  pub has_backup : Bool
  pub window_hits : ℕ

pub record Shard (S : Type 0) : Type 0 where
  pub entries : Bytes → Option HotEntry
  pub evict : S
  pub bytes : ℤ
  pub backed_count : ℤ
  pub evictions : ℕ
  pub tombstoned : List Bytes
  pub demoted : List Bytes

-- objSize, with the struct sizes that the source gives.
unfoldable pub obj_size : Object → ℕ
obj_size obj =
    let (entries, value_slots, value_bytes) = footprint obj.header in
    length obj.body
    + (352 + 32 + 40 + 32)
    + (24 + 24 + 24 * entries + 16 * value_slots + value_bytes)
    + length obj.vary_key
    + length obj.etag
    + length obj.cache_control
    + length obj.vary_value
    + sum_lengths obj.surrogate_keys

pub data EvictReason : Type 0 where
  by_sieve : EvictReason
  by_reaper : EvictReason
  by_ban : EvictReason
  by_delete : EvictReason

-- TTL, stale-while-revalidate and stale-if-error are over, and the object is not held for grace.
unfoldable pub is_reapable : (Object → Bool) → ℤ → Object → Bool
is_reapable may_reap now obj =
    ltb_ℤ
      (add_time obj.stored_at
        (wrap64 (wrap64 (obj.ttl +ℤ obj.stale_while_revalidate) +ℤ obj.stale_if_error)))
      now
    && not (obj.keep_grace && not (may_reap obj))

-- A hit: the visited bit is set already, or it is set now and the object's counter goes up.
unfoldable pub count_hit : Bool → HotEntry → HotEntry
count_hit true e = record e { window_hits = suc e.window_hits }
count_hit false e = record e {
  window_hits = suc e.window_hits;
  obj = record e.obj { hits = suc e.obj.hits % 2 ^ 64 };
}

module _ {S : Type 0} where
  unfoldable pub with_entry : Bytes → Option HotEntry → Shard S → Shard S
  with_entry k e s = record s { entries = λ x. if eq_bytes x k then e else s.entries x }

  unfoldable pub notify_evict : Bytes → HotEntry → EvictReason → Shard S → Shard S
  notify_evict k e by_sieve s =
      if e.has_backup then record s { demoted = s.demoted ++ (k ∷ []) } else s
  notify_evict k e by_reaper s =
      if e.has_backup then record s { tombstoned = s.tombstoned ++ (k ∷ []) } else s
  notify_evict k e by_ban s =
      if e.has_backup then record s { tombstoned = s.tombstoned ++ (k ∷ []) } else s
  notify_evict k e by_delete s =
      if e.has_backup then record s { tombstoned = s.tombstoned ++ (k ∷ []) } else s

  abbrev pub less_bytes : Object → Shard S → Shard S
  less_bytes obj s = record s { bytes = s.bytes -ℤ pos (obj_size obj) }

  -- One victim of the eviction list, which has it no more.
  unfoldable pub drop_victim : Bytes → Shard S → Shard S
  drop_victim k s = elim (s.entries k) [
    | none ↦ s
    | some old ↦
        let t = with_entry k none (less_bytes old.obj (notify_evict k old by_sieve s)) in
        record t { evictions = suc t.evictions }
  ]

  abbrev pub count_eviction : Shard S → Shard S
  count_eviction s = record s { evictions = suc s.evictions }

module _ {S : Type 0} (list : EvictList S) where
  -- A hot-only victim goes back to the head, marked as visited.
  unfoldable pub reinsert : Bytes → HotEntry → Shard S → Shard S
  reinsert k he s =
      let (h, l) = list.insert k s.evict in
      with_entry k (some (record he { entry = h })) (record s { evict = list.mark_visited h l })

  -- maxSweepProbes is 128.
  unfoldable pub evict_standard : Shard S → Option Bytes × Shard S
  evict_standard s =
      let (k, l) = list.evict_bounded (pos 128) s.evict in (k, record s { evict = l })

  -- The rounds that are left of maxEvictSkips.
  unfoldable pub skip_hot_only : ℕ → Shard S → Option Bytes × Shard S
  skip_hot_only zero s = evict_standard s
  skip_hot_only (suc n) s =
      let (victim, t) = evict_standard s in
      elim victim [
        | none ↦ (none, t)
        | some k ↦ elim (t.entries k) [
          | none ↦ skip_hot_only n t
          | some he ↦ elim he.has_backup [
            | true ↦ (some k, record t { backed_count = t.backed_count -ℤ pos 1 })
            | false ↦ skip_hot_only n (reinsert k he t)
          ]
        ]
      ]

  unfoldable pub evict_prefer_backed : Shard S → Option Bytes × Shard S
  evict_prefer_backed s =
      if eq_ℤ s.backed_count (pos 0) then evict_standard s else skip_hot_only 4 s

  -- The loops of putStored and of the sweeper, for at most as many victims: while the shard is over
  -- its budget with `size` bytes more.
  unfoldable pub evict_over : ℕ → ℤ → ℤ → Shard S → Shard S
  evict_over zero size max s = s
  evict_over (suc n) size max s = elim (leb_ℤ (s.bytes +ℤ size) max || list.len s.evict == 0) [
    | true ↦ s
    | false ↦
        let (victim, t) = evict_prefer_backed s in
        elim victim [ none ↦ t | some k ↦ evict_over n size max (drop_victim k t) ]
  ]

  -- The entry that putStored writes over: it stays in the map until then.
  unfoldable pub replace_old : Bytes → Shard S → Shard S
  replace_old k s = elim (s.entries k) [
    | none ↦ s
    | some old ↦
        let t = less_bytes old.obj (notify_evict k old by_delete s) in
        record t {
          evict = list.remove old.entry t.evict;
          backed_count = if old.has_backup then t.backed_count -ℤ pos 1 else t.backed_count;
        }
  ]

  unfoldable pub insert_stored : Bytes → Object → Shard S → Shard S
  insert_stored k stored s =
      let (h, l) = list.insert k s.evict in
      with_entry k (some (record { obj = stored; entry = h; has_backup = false; window_hits = 0 }))
        (record s { evict = list.mark_visited h l; bytes = s.bytes +ℤ pos (obj_size stored) })

  -- putStored: inlineEvictCap is 4. The answer is whether the sweeper is signalled.
  unfoldable pub put_stored : ℤ → Bytes → Object → Shard S → Bool × Shard S
  put_stored max k stored s =
      let size = pos (obj_size stored) in
      let t = evict_over 4 size max s in
      (ltb_ℤ max (t.bytes +ℤ size), insert_stored k stored (replace_old k t))

  -- The sweeper's loop: each round takes an entry out, so the length is enough.
  unfoldable pub sweep_over : ℤ → Shard S → Shard S
  sweep_over max s = evict_over (list.len s.evict) (pos 0) max s

  -- What Delete, evictBanned, the reaper and banShard do with an entry of the shard.
  unfoldable pub drop_entry : EvictReason → Bytes → HotEntry → Shard S → Shard S
  drop_entry reason k e s =
      let t = less_bytes e.obj (notify_evict k e reason s) in
      with_entry k none (record t { evict = list.remove e.entry t.evict })

  unfoldable pub delete : Bytes → Shard S → Shard S
  delete k s = elim (s.entries k) [ none ↦ s | some e ↦ drop_entry by_delete k e s ]

  -- banShard, over the keys that the walk of the map meets.
  unfoldable pub ban_shard : (Object → Bool) → List Bytes → Shard S → Shard S
  ban_shard pred [] s = s
  ban_shard pred (k ∷ ks) s = elim (s.entries k) [
    | none ↦ ban_shard pred ks s
    | some e ↦ elim (pred e.obj) [
      | true ↦ ban_shard pred ks (count_eviction (drop_entry by_ban k e s))
      | false ↦ ban_shard pred ks s
    ]
  ]

  -- reapShard, over the keys that the walk meets before its time is up.
  unfoldable pub reap_shard : (Object → Bool) → ℤ → List Bytes → Shard S → Shard S
  reap_shard may_reap now [] s = s
  reap_shard may_reap now (k ∷ ks) s = elim (s.entries k) [
    | none ↦ reap_shard may_reap now ks s
    | some e ↦ elim (is_reapable may_reap now e.obj) [
      | true ↦ reap_shard may_reap now ks (count_eviction (drop_entry by_reaper k e s))
      | false ↦ reap_shard may_reap now ks s
    ]
  ]

  unfoldable pub set_backed : Bytes → Shard S → Shard S
  set_backed k s = elim (s.entries k) [
    | none ↦ s
    | some e ↦ elim e.has_backup [
      | true ↦ s
      | false ↦
          with_entry k (some (record e { has_backup = true }))
            (record s { backed_count = s.backed_count +ℤ pos 1 })
    ]
  ]

  unfoldable pub clear_backed : Bytes → Shard S → Shard S
  clear_backed k s = elim (s.entries k) [
    | none ↦ s
    | some e ↦ elim e.has_backup [
      | false ↦ s
      | true ↦
          with_entry k (some (record e { has_backup = false }))
            (record s { backed_count = s.backed_count -ℤ pos 1 })
    ]
  ]

  abbrev pub touched : Bool → ℕ → S → S
  touched true h l = l
  touched false h l = list.touch h l

  -- Get: an object that a ban matches is evicted.
  unfoldable pub get_object : (Object → Bool) → Bytes → Shard S → Option Object × Shard S
  get_object banned k s = elim (s.entries k) [
    | none ↦ (none, s)
    | some e ↦
        let seen = list.is_visited s.evict e.entry in
        let e' = count_hit seen e in
        let t = with_entry k (some e') (record s { evict = touched seen e.entry s.evict }) in
        if banned e'.obj
        then (none, count_eviction (drop_entry by_ban k e' t))
        else (some e'.obj, t)
  ]
