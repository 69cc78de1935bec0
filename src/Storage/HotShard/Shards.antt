-- ===== src/Storage/HotShard/Shards.antt =====
-- internal/storage/hot.go: evictions and removals keep a shard's map, list and counters in step.
use bouine.Prelude.{
  ℕ, ◌≡◌, refl, sym, ap, ◌∙◌, inl, inr, Bool, true, false, ◌∷◌, ◌++◌, none, some, arith,
  if◌then◌else◌,
}
use mathlib.Core.Path.{subst}
use bouine.Prelude.Bytes.{Bytes}
use bouine.Prelude.Int.{pos, ◌-ℤ◌, ◌≤ℤ◌}
use bouine.Storage.EvictLists.{EvictList, IsEvictList}
use bouine.Storage.HotShard.{
  HotEntry, Shard, obj_size, EvictReason, by_sieve, by_reaper, by_ban, by_delete, with_entry,
  notify_evict, drop_victim, drop_entry,
}
use bouine.Storage.HotShard.Held.{
  Pairs, change, IsMap, size_at, backed_at, sum_over, sum_over-middle, IsMap-front, sum_over-change,
  drop-IsMap, locate,
}

-- A shard whose map has just the entries of its eviction list, whose bytes are the sum of their sizes,
-- and whose count of entries with a backup is not below the number of those.
pub record IsShard {S : Type 0} (Holds : S → Pairs → Type 0) (s : Shard S) (xs : Pairs)
    : Type 0 where
  pub listed : Holds s.evict xs
  pub mapped : IsMap s.entries s.bytes xs
  pub backed : pos (sum_over backed_at s.entries xs) ≤ℤ s.backed_count

-- A shard that just lost a victim from its list, which is still in its map.
pub record Lost {S : Type 0} (Holds : S → Pairs → Type 0) (s : Shard S) (h : ℕ) (k : Bytes)
    (xs : Pairs) : Type 0 where
  pub listed : Holds s.evict xs
  pub mapped : IsMap s.entries s.bytes ((h, k) ∷ xs)
  pub backed : pos (sum_over backed_at s.entries xs) ≤ℤ s.backed_count

-- Two shards that differ in what was counted and reported only.
pub record SameShard {S : Type 0} (s t : Shard S) : Type 0 where
  pub entries : t.entries ≡ s.entries
  pub evict : t.evict ≡ s.evict
  pub bytes : t.bytes ≡ s.bytes
  pub count : t.backed_count ≡ s.backed_count

module _ {S : Type 0} where
  if-SameShard : (c : Bool) (s x : Shard S) → SameShard s x → SameShard s (if c then x else s)
  if-SameShard true s x v = v
  if-SameShard false s x v = record { entries = refl; evict = refl; bytes = refl; count = refl }

  pub notify-SameShard :
      (k : Bytes) (e : HotEntry) (r : EvictReason) (s : Shard S)
      → SameShard s (notify_evict k e r s)
  unfolding notify_evict
  notify-SameShard k e by_sieve s =
      if-SameShard e.has_backup s _
        (record { entries = refl; evict = refl; bytes = refl; count = refl })
  notify-SameShard k e by_reaper s =
      if-SameShard e.has_backup s _
        (record { entries = refl; evict = refl; bytes = refl; count = refl })
  notify-SameShard k e by_ban s =
      if-SameShard e.has_backup s _
        (record { entries = refl; evict = refl; bytes = refl; count = refl })
  notify-SameShard k e by_delete s =
      if-SameShard e.has_backup s _
        (record { entries = refl; evict = refl; bytes = refl; count = refl })

  -- The parts of a shard that dropping a victim leaves.
  pub drop_victim_lem :
      (k : Bytes) (e : HotEntry) (s : Shard S)
      → s.entries k ≡ some e
      → ((drop_victim k s).entries ≡ change k none s.entries)
        × ((drop_victim k s).evict ≡ s.evict)
        × ((drop_victim k s).bytes ≡ s.bytes -ℤ pos (obj_size e.obj))
        × ((drop_victim k s).backed_count ≡ s.backed_count)
  unfolding drop_victim with_entry
  drop_victim_lem k e s found =
      let n = notify-SameShard k e by_sieve s in
      rw (found, drop_victim)
        (
          ap (λ m. change k none m) n.entries,
          n.evict,
          ap (λ b. b -ℤ pos (obj_size e.obj)) n.bytes,
          n.count,
        )

  module _ (list : EvictList S) where
    pub drop_entry_lem :
        (r : EvictReason) (k : Bytes) (e : HotEntry) (s : Shard S)
        → ((drop_entry list r k e s).entries ≡ change k none s.entries)
          × ((drop_entry list r k e s).evict ≡ list.remove e.entry s.evict)
          × ((drop_entry list r k e s).bytes ≡ s.bytes -ℤ pos (obj_size e.obj))
          × ((drop_entry list r k e s).backed_count ≡ s.backed_count)
    unfolding drop_entry with_entry
    drop_entry_lem r k e s =
        let n = notify-SameShard k e r s in
        (
          ap (λ m. change k none m) n.entries,
          ap (λ l. list.remove e.entry l) n.evict,
          ap (λ b. b -ℤ pos (obj_size e.obj)) n.bytes,
          n.count,
        )

-- A map and a list that lose the same key.
module _ {S : Type 0} (Holds : S → Pairs → Type 0) where
  pub lost-IsShard :
      (s t : Shard S) (h : ℕ) (k : Bytes) (e : HotEntry) (xs : Pairs)
      → IsMap s.entries s.bytes ((h, k) ∷ xs)
      → s.entries k ≡ some e
      → Holds t.evict xs
      → t.entries ≡ change k none s.entries
      → t.bytes ≡ s.bytes -ℤ pos (obj_size e.obj)
      → pos (sum_over backed_at s.entries xs) ≤ℤ t.backed_count
      → IsShard Holds t xs
  unfolding size_at
  lost-IsShard s t h k e xs m found listed entries bytes backed = record {
    listed = listed;
    mapped =
        subst (λ f. IsMap f t.bytes xs) (sym entries)
          (subst (λ b. IsMap (change k none s.entries) b xs)
            (ap (λ o. s.bytes -ℤ pos (size_at o)) found ∙ sym bytes)
            (drop-IsMap s.entries s.bytes h k xs m));
    backed =
        subst (λ n. pos n ≤ℤ t.backed_count)
          (sym (
            ap (λ f. sum_over backed_at f xs) entries
            ∙ sum_over-change backed_at k none s.entries xs m.distinct.0))
          backed;
  }

  pub victim-IsShard :
      (s : Shard S) (h : ℕ) (k : Bytes) (xs : Pairs)
      → Lost Holds s h k xs
      → IsShard Holds (drop_victim k s) xs
  victim-IsShard s h k xs v =
      let (e, found, same) = v.mapped.held.0 in
      let (entries, evict, bytes, count) = drop_victim_lem k e s found in
      lost-IsShard s (drop_victim k s) h k e xs v.mapped found
        (subst (λ l. Holds l xs) (sym evict) v.listed) entries bytes
        (subst (λ c. pos (sum_over backed_at s.entries xs) ≤ℤ c) (sym count) v.backed)

  module _ (list : EvictList S) (law : IsEvictList list Holds) where
    -- Whatever the reason, an entry that is dropped leaves a shard.
    pub drop_entry-IsShard :
        (r : EvictReason) (k : Bytes) (e : HotEntry) (s : Shard S) (xs : Pairs)
        → s.entries k ≡ some e
        → IsShard Holds s xs
        → (ys : Pairs) × IsShard Holds (drop_entry list r k e s) ys
    unfolding sum_over
    drop_entry-IsShard r k e s xs found v = elim (locate k xs) [
      | inl absent ↦ absurd (ground (arith, found, v.mapped.outside k absent))
      | inr (before, h, behind, is) ↦
          let m =
            IsMap-front s.entries s.bytes h k before behind
              (subst (λ t. IsMap s.entries s.bytes t) is v.mapped) in
          let (e', found', same) = m.held.0 in
          let handle : h ≡ e.entry = ground (arith, found, found', same) in
          let (entries, evict, bytes, count) = drop_entry_lem list r k e s in
          let sums = sum_over-middle backed_at s.entries h k before behind in
          let all : pos (sum_over backed_at s.entries (before ++ ((h, k) ∷ behind)))
              ≤ℤ s.backed_count =
            subst (λ t. pos (sum_over backed_at s.entries t) ≤ℤ s.backed_count) is v.backed in
          (
            before ++ behind,
            lost-IsShard s (drop_entry list r k e s) h k e (before ++ behind) m found
                (subst (λ l. Holds l (before ++ behind)) (sym evict)
                  (law.remove e.entry k s.evict before behind (
                    subst (λ a. Holds s.evict (before ++ ((a, k) ∷ behind))) handle
                      (subst (λ t. Holds s.evict t) is v.listed))))
                entries bytes
                (subst (λ c. pos (sum_over backed_at s.entries (before ++ behind)) ≤ℤ c) (sym count)
                  (omega (arith, all, sums))),
          )
    ]
