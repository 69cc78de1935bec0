-- ===== src/Storage/HotShard/Sweeper.antt =====
-- internal/storage/hot.go: where the sweeper's loop ends.
use bouine.Prelude.{
  ℕ, zero, suc, ◌≤◌, ◌≡◌, refl, sym, ◌⊎◌, inl, inr, true, ◌||◌, none, ◌==◌, length, arith,
  Bool-cases, Option-cases,
}
use mathlib.Core.Path.{subst}
use bouine.Prelude.Int.{ℤ, pos, ◌+ℤ◌, ◌≤ℤ◌, leb_ℤ}
use bouine.Storage.EvictLists.{EvictList, IsEvictList}
use bouine.Storage.HotShard.{Shard, drop_victim, evict_prefer_backed, evict_over, sweep_over}
use bouine.Storage.HotShard.Held.{Pairs}
use bouine.Storage.HotShard.Shards.{IsShard, victim-IsShard}
use bouine.Storage.HotShard.Victims.{Chosen, prefer-Chosen, over_done, over_none, over_some}
use bouine.Storage.HotShard.Operations.{SomeShard}

module _ {S : Type 0} (Holds : S → Pairs → Type 0) (list : EvictList S)
    (law : IsEvictList list Holds) where
  -- The shard fits its budget with `size` bytes more, or its list is empty, or evictPreferBacked found
  -- no victim within its probes.
  unfoldable pub Settled : ℤ → ℤ → Shard S → Type 0
  Settled size max t =
      (t.bytes +ℤ size ≤ℤ max)
      ⊎ ((list.len t.evict ≡ 0)
          ⊎ ((u : Shard S) × ((evict_prefer_backed list u).0 ≡ none)
              × (t ≡ (evict_prefer_backed list u).1)))

  stops-Settled :
      (size max : ℤ) (s : Shard S)
      → (leb_ℤ (s.bytes +ℤ size) max || list.len s.evict == 0) ≡ true
      → Settled size max s
  unfolding Settled
  stops-Settled size max s stop = elim (Bool-cases (leb_ℤ (s.bytes +ℤ size) max)) [
    | inl fits ↦ inl (ground (arith, fits))
    | inr over ↦ inr (inl (ground (arith, over, stop)))
  ]

  evict_over-Settled :
      (n : ℕ) (size max : ℤ) (s : Shard S) (xs : Pairs)
      → IsShard Holds s xs
      → length xs ≤ n
      → Settled size max (evict_over list n size max s)
  unfolding Settled
  evict_over-Settled zero size max s xs v few =
      unfold evict_over in inr (inl (omega (arith, law.len s.evict xs v.listed, few)))
  evict_over-Settled (suc n) size max s xs v few =
      let t = (evict_prefer_backed list s).1 in
      let chosen = prefer-Chosen Holds list law s xs v in
      elim (Bool-cases (leb_ℤ (s.bytes +ℤ size) max || list.len s.evict == 0)) [
        | inl stop ↦
            subst (λ r. Settled size max r) (sym (over_done Holds list law n size max s stop))
              (stops-Settled size max s stop)
        | inr more ↦ elim (Option-cases (evict_prefer_backed list s).0) [
          | inl h ↦
              subst (λ r. Settled size max r) (sym (over_none Holds list law n size max s more h))
                (inr (inr (s, h, refl)))
          | inr (k, h) ↦
              let (a, ys, lost, fewer) = subst (λ o. Chosen Holds xs o t) h chosen in
              subst (λ r. Settled size max r) (sym (over_some Holds list law n size max s k more h))
                (evict_over-Settled n size max (drop_victim k t) ys
                  (victim-IsShard Holds t a k ys lost) (omega (arith, few, fewer)))
        ]
      ]

  -- The sweeper's loop ends, after at most as many rounds as the list has entries, with the shard
  -- within its budget, with an empty list, or because evictPreferBacked found no victim.
  pub sweep_over-Settled :
      (max : ℤ) (s : Shard S)
      → SomeShard Holds list law s
      → Settled (pos 0) max (sweep_over list max s)
  unfolding sweep_over
  sweep_over-Settled max s (xs, v) =
      evict_over-Settled (list.len s.evict) (pos 0) max s xs v
        (omega (arith, law.len s.evict xs v.listed))
