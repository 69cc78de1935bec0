-- ===== src/Storage/HotShard/Operations.antt =====
-- internal/storage/hot.go: every operation on a shard keeps its map, list and counters in step.
use bouine.Prelude.{
  ◌≡◌, refl, sym, inl, inr, Bool, true, false, List, [], ◌∷◌, none, some, Bool-cases, Option-cases,
}
use mathlib.Core.Path.{subst}
use bouine.Prelude.Bytes.{Bytes}
use bouine.Prelude.Int.{ℤ}
use bouine.Api.Object.{Object}
use bouine.Storage.EvictLists.{EvictList, IsEvictList}
use bouine.Storage.HotShard.{
  HotEntry, Shard, by_ban, by_delete, by_reaper, drop_entry, count_eviction, delete, ban_shard,
  is_reapable, reap_shard,
}
use bouine.Storage.HotShard.Held.{Pairs}
use bouine.Storage.HotShard.Shards.{IsShard, drop_entry-IsShard}

module _ {S : Type 0} (Holds : S → Pairs → Type 0) (list : EvictList S)
    (law : IsEvictList list Holds) where
  abbrev pub SomeShard : Shard S → Type 0
  SomeShard s = (xs : Pairs) × IsShard Holds s xs

  pub count-SomeShard : (s : Shard S) → SomeShard s → SomeShard (count_eviction s)
  count-SomeShard s (xs, v) =
      (xs, record { listed = v.listed; mapped = v.mapped; backed = v.backed })

  drop-SomeShard :
      (k : Bytes) (e : HotEntry) (s : Shard S)
      → s.entries k ≡ some e
      → SomeShard s
      → SomeShard (drop_entry list by_delete k e s)
        × SomeShard (count_eviction (drop_entry list by_ban k e s))
        × SomeShard (count_eviction (drop_entry list by_reaper k e s))
  drop-SomeShard k e s found (xs, v) = (
    drop_entry-IsShard Holds list law by_delete k e s xs found v,
    count-SomeShard (drop_entry list by_ban k e s)
        (drop_entry-IsShard Holds list law by_ban k e s xs found v),
    count-SomeShard (drop_entry list by_reaper k e s)
        (drop_entry-IsShard Holds list law by_reaper k e s xs found v),
  )

  pub delete-SomeShard : (k : Bytes) (s : Shard S) → SomeShard s → SomeShard (delete list k s)
  unfolding delete
  delete-SomeShard k s v = elim (Option-cases (s.entries k)) [
    | inl gone ↦ subst (λ t. SomeShard t) (sym (rw (delete, gone) refl)) v
    | inr (e, found) ↦
        subst (λ t. SomeShard t) (sym (rw (delete, found) refl)) (drop-SomeShard k e s found v).0
  ]

  ban_none :
      (pred : Object → Bool) (k : Bytes) (ks : List Bytes) (s : Shard S)
      → s.entries k ≡ none
      → ban_shard list pred (k ∷ ks) s ≡ ban_shard list pred ks s
  unfolding ban_shard
  ban_none pred k ks s gone = rw (ban_shard, gone) refl

  ban_hit :
      (pred : Object → Bool) (k : Bytes) (ks : List Bytes) (s : Shard S) (e : HotEntry)
      → s.entries k ≡ some e
      → pred e.obj ≡ true
      → ban_shard list pred (k ∷ ks) s
        ≡ ban_shard list pred ks (count_eviction (drop_entry list by_ban k e s))
  unfolding ban_shard
  ban_hit pred k ks s e found hit = rw (ban_shard, found, hit) refl

  ban_miss :
      (pred : Object → Bool) (k : Bytes) (ks : List Bytes) (s : Shard S) (e : HotEntry)
      → s.entries k ≡ some e
      → pred e.obj ≡ false
      → ban_shard list pred (k ∷ ks) s ≡ ban_shard list pred ks s
  unfolding ban_shard
  ban_miss pred k ks s e found miss = rw (ban_shard, found, miss) refl

  pub ban-SomeShard :
      (pred : Object → Bool) (ks : List Bytes) (s : Shard S)
      → SomeShard s
      → SomeShard (ban_shard list pred ks s)
  unfolding ban_shard
  ban-SomeShard pred [] s v = v
  ban-SomeShard pred (k ∷ ks) s v = elim (Option-cases (s.entries k)) [
    | inl gone ↦
        subst (λ t. SomeShard t) (sym (ban_none pred k ks s gone)) (ban-SomeShard pred ks s v)
    | inr (e, found) ↦ elim (Bool-cases (pred e.obj)) [
      | inl hit ↦
          subst (λ t. SomeShard t) (sym (ban_hit pred k ks s e found hit))
            (ban-SomeShard pred ks (count_eviction (drop_entry list by_ban k e s))
              (drop-SomeShard k e s found v).1)
      | inr miss ↦
          subst (λ t. SomeShard t) (sym (ban_miss pred k ks s e found miss))
            (ban-SomeShard pred ks s v)
    ]
  ]

  reap_none :
      (may_reap : Object → Bool) (now : ℤ) (k : Bytes) (ks : List Bytes) (s : Shard S)
      → s.entries k ≡ none
      → reap_shard list may_reap now (k ∷ ks) s ≡ reap_shard list may_reap now ks s
  unfolding reap_shard
  reap_none may_reap now k ks s gone = rw (reap_shard, gone) refl

  reap_hit :
      (may_reap : Object → Bool) (now : ℤ) (k : Bytes) (ks : List Bytes) (s : Shard S)
      (e : HotEntry)
      → s.entries k ≡ some e
      → is_reapable may_reap now e.obj ≡ true
      → reap_shard list may_reap now (k ∷ ks) s
        ≡ reap_shard list may_reap now ks (count_eviction (drop_entry list by_reaper k e s))
  unfolding reap_shard
  reap_hit may_reap now k ks s e found hit = rw (reap_shard, found, hit) refl

  reap_miss :
      (may_reap : Object → Bool) (now : ℤ) (k : Bytes) (ks : List Bytes) (s : Shard S)
      (e : HotEntry)
      → s.entries k ≡ some e
      → is_reapable may_reap now e.obj ≡ false
      → reap_shard list may_reap now (k ∷ ks) s ≡ reap_shard list may_reap now ks s
  unfolding reap_shard
  reap_miss may_reap now k ks s e found miss = rw (reap_shard, found, miss) refl

  pub reap-SomeShard :
      (may_reap : Object → Bool) (now : ℤ) (ks : List Bytes) (s : Shard S)
      → SomeShard s
      → SomeShard (reap_shard list may_reap now ks s)
  unfolding reap_shard
  reap-SomeShard may_reap now [] s v = v
  reap-SomeShard may_reap now (k ∷ ks) s v = elim (Option-cases (s.entries k)) [
    | inl gone ↦
        subst (λ t. SomeShard t) (sym (reap_none may_reap now k ks s gone))
          (reap-SomeShard may_reap now ks s v)
    | inr (e, found) ↦ elim (Bool-cases (is_reapable may_reap now e.obj)) [
      | inl hit ↦
          subst (λ t. SomeShard t) (sym (reap_hit may_reap now k ks s e found hit))
            (reap-SomeShard may_reap now ks (count_eviction (drop_entry list by_reaper k e s))
              (drop-SomeShard k e s found v).2)
      | inr miss ↦
          subst (λ t. SomeShard t) (sym (reap_miss may_reap now k ks s e found miss))
            (reap-SomeShard may_reap now ks s v)
    ]
  ]
