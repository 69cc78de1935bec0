-- ===== src/Storage/HotShard/Victims.antt =====
-- internal/storage/hot.go: evictPreferBacked and the loops that evict keep a shard in step.
use bouine.Prelude.{
  ℕ, zero, suc, ◌≡◌, refl, sym, ap, ◌∙◌, inl, inr, Bool, true, false, ◌||◌, ◌∷◌, ◌++◌, Option, none,
  some, ◌==◌, length, length-append, arith, if◌then◌else◌, Bool-cases, Option-cases,
}
use mathlib.Core.Path.{subst}
use bouine.Prelude.Bytes.{Bytes}
use bouine.Prelude.Int.{ℤ, pos, ◌+ℤ◌, ◌-ℤ◌, ◌≤ℤ◌, leb_ℤ, eq_ℤ, int_laws}
use bouine.Storage.EvictLists.{EvictList, IsEvictList, TakesOne}
use bouine.Storage.HotShard.{
  HotEntry, Shard, obj_size, with_entry, drop_victim, reinsert, evict_standard, skip_hot_only,
  evict_prefer_backed, evict_over,
}
use bouine.Storage.HotShard.Held.{
  Pairs, change, IsMap, size_at, backed_at, sum_over, sum_over-middle, IsMap-front, sum_over-change,
  put-IsMap, changed_self, differs_sym,
}
use bouine.Storage.HotShard.Shards.{IsShard, Lost, victim-IsShard}

module _ {S : Type 0} (Holds : S → Pairs → Type 0) where
  -- What EvictBounded leaves of a shard: a victim counts among the entries with a backup still.
  abbrev TakenAs : Pairs → Option Bytes → Shard S → Type 0
  TakenAs xs none t = IsShard Holds t xs
  TakenAs xs (some k) t =
      (h : ℕ) × (ys : Pairs) × Holds t.evict ys
      × IsMap t.entries t.bytes ((h, k) ∷ ys)
      × (pos (sum_over backed_at t.entries ((h, k) ∷ ys)) ≤ℤ t.backed_count)
      × (suc (length ys) ≡ length xs)

  -- A victim, or none, and what is left.
  abbrev pub Chosen : Pairs → Option Bytes → Shard S → Type 0
  Chosen xs none t = (ys : Pairs) × IsShard Holds t ys
  Chosen xs (some k) t =
      (h : ℕ) × (ys : Pairs) × Lost Holds t h k ys × (suc (length ys) ≡ length xs)

  take-TakenAs :
      (s : Shard S) (xs : Pairs) (r : Option Bytes × S)
      → IsShard Holds s xs
      → TakesOne Holds xs r
      → TakenAs xs r.0 (record s { evict = r.1 })
  unfolding TakesOne
  take-TakenAs s xs (none, l) v t = record { listed = t; mapped = v.mapped; backed = v.backed }
  take-TakenAs s xs (some k, l) v (before, h, behind, is, t) =
      let sums = sum_over-middle backed_at s.entries h k before behind in
      let all : pos (sum_over backed_at s.entries (before ++ ((h, k) ∷ behind))) ≤ℤ s.backed_count =
        subst (λ p. pos (sum_over backed_at s.entries p) ≤ℤ s.backed_count) is v.backed in
      (
        h,
        before ++ behind,
        t,
        IsMap-front s.entries s.bytes h k before behind
            (subst (λ p. IsMap s.entries s.bytes p) is v.mapped),
        omega (arith, all, sums),
        omega (
          arith,
          ap (λ (t' : Pairs). length t') is,
          length-append before ((h, k) ∷ behind),
          length-append before behind,
        ),
      )

  TakenAs-Chosen : (xs : Pairs) (o : Option Bytes) (t : Shard S) → TakenAs xs o t → Chosen xs o t
  unfolding sum_over
  TakenAs-Chosen xs none t v = (xs, v)
  TakenAs-Chosen xs (some k) t (h, ys, listed, mapped, backed, fewer) =
      (h, ys, record { listed = listed; mapped = mapped; backed = omega (arith, backed) }, fewer)

  Chosen-length :
      (xs ys : Pairs) (o : Option Bytes) (t : Shard S)
      → length ys ≡ length xs
      → Chosen ys o t
      → Chosen xs o t
  Chosen-length xs ys none t e v = v
  Chosen-length xs ys (some k) t e (h, zs, lost, fewer) = (h, zs, lost, fewer ∙ e)

  module _ (list : EvictList S) (law : IsEvictList list Holds) where
    standard-TakenAs :
        (s : Shard S) (xs : Pairs)
        → IsShard Holds s xs
        → TakenAs xs (evict_standard list s).0 (evict_standard list s).1
    unfolding evict_standard
    standard-TakenAs s xs v =
        take-TakenAs s xs (list.evict_bounded (pos 128) s.evict) v
          (law.evict_bounded (pos 128) s.evict xs v.listed)

    reinsert-IsShard :
        (s : Shard S) (h : ℕ) (k : Bytes) (e : HotEntry) (ys : Pairs)
        → Holds s.evict ys
        → IsMap s.entries s.bytes ((h, k) ∷ ys)
        → (pos (sum_over backed_at s.entries ((h, k) ∷ ys)) ≤ℤ s.backed_count)
        → s.entries k ≡ some e
        → e.has_backup ≡ false
        → (zs : Pairs) × IsShard Holds (reinsert list k e s) zs × (length zs ≡ suc (length ys))
    unfolding reinsert with_entry sum_over size_at backed_at
    reinsert-IsShard s h k e ys listed m backed found hot =
        let g = (list.insert k s.evict).0 in
        let e' : HotEntry = record e { entry = g } in
        let before : s.bytes -ℤ pos (obj_size e.obj) ≡ pos (sum_over size_at s.entries ys) =
          rw (m.total, found) (omega int_laws) in
        let sum : (s.bytes -ℤ pos (obj_size e.obj)) +ℤ pos (obj_size e.obj) ≡ s.bytes =
          omega int_laws in
        let new =
          put-IsMap s.entries (s.bytes -ℤ pos (obj_size e.obj)) e' k ys m.held.1 m.distinct.0
            m.distinct.1 (λ j d a. m.outside j (differs_sym j k d, a)) before in
        let self = changed_self k (some e') s.entries in
        let none_here : backed_at (change k (some e') s.entries k) ≡ 0 =
          ap backed_at self ∙ rw hot refl in
        let same = sum_over-change backed_at k (some e') s.entries ys m.distinct.0 in
        (
          (g, k) ∷ ys,
          record {
            listed =
                law.mark_visited g (list.insert k s.evict).1 ((g, k) ∷ ys)
                  (law.insert k s.evict ys listed);
            mapped = subst (λ b. IsMap (change k (some e') s.entries) b ((g, k) ∷ ys)) sum new;
            backed = omega (arith, backed, none_here, same);
          },
          refl,
        )

  -- The rounds of evictPreferBacked.
  module _ (list : EvictList S) where
    skip_none :
        (n : ℕ) (s : Shard S)
        → (evict_standard list s).0 ≡ none
        → skip_hot_only list (suc n) s ≡ (none, (evict_standard list s).1)
    unfolding skip_hot_only
    skip_none n s h = rw (skip_hot_only, h) refl

    skip_backed :
        (n : ℕ) (s : Shard S) (k : Bytes) (e : HotEntry)
        → (evict_standard list s).0 ≡ some k
        → (evict_standard list s).1.entries k ≡ some e
        → e.has_backup ≡ true
        → skip_hot_only list (suc n) s ≡ (
          some k,
          record (evict_standard list s).1 {
            backed_count = (evict_standard list s).1.backed_count -ℤ pos 1;
          },
        )
    unfolding skip_hot_only
    skip_backed n s k e h f b = rw (skip_hot_only, h, f, b) refl

    skip_hot :
        (n : ℕ) (s : Shard S) (k : Bytes) (e : HotEntry)
        → (evict_standard list s).0 ≡ some k
        → (evict_standard list s).1.entries k ≡ some e
        → e.has_backup ≡ false
        → skip_hot_only list (suc n) s
          ≡ skip_hot_only list n (reinsert list k e (evict_standard list s).1)
    unfolding skip_hot_only
    skip_hot n s k e h f b =
        let t = (evict_standard list s).1 in
        let rounds : Bool → Option Bytes × Shard S = λ c. elim c as (λ x. Option Bytes × Shard S) [
          | true ↦ (some k, record t { backed_count = t.backed_count -ℤ pos 1 })
          | false ↦ skip_hot_only list n (reinsert list k e t)
        ] in
        rw (skip_hot_only, h, f) (ap rounds b)

  module _ (list : EvictList S) (law : IsEvictList list Holds) where
    standard-Chosen :
        (s : Shard S) (xs : Pairs)
        → IsShard Holds s xs
        → Chosen xs (evict_standard list s).0 (evict_standard list s).1
    standard-Chosen s xs v =
        TakenAs-Chosen xs (evict_standard list s).0 (evict_standard list s).1
          (standard-TakenAs list law s xs v)

    skip-Chosen :
        (n : ℕ) (s : Shard S) (xs : Pairs)
        → IsShard Holds s xs
        → Chosen xs (skip_hot_only list n s).0 (skip_hot_only list n s).1
    unfolding sum_over backed_at
    skip-Chosen zero s xs v = unfold skip_hot_only in standard-Chosen s xs v
    skip-Chosen (suc n) s xs v =
        let t = (evict_standard list s).1 in
        let taken = standard-TakenAs list law s xs v in
        elim (Option-cases (evict_standard list s).0) [
          | inl h ↦
              subst (λ r. Chosen xs r.0 r.1) (sym (skip_none list n s h))
                (xs, subst (λ o. TakenAs xs o t) h taken)
          | inr (k, h) ↦
              let (a, ys, listed, m, backed, fewer) = subst (λ o. TakenAs xs o t) h taken in
              let (e, found, same) = m.held.0 in
              elim (Bool-cases e.has_backup) [
                | inl b ↦
                    let one : backed_at (t.entries k) ≡ 1 = rw found (rw b refl) in
                    let left : pos (sum_over backed_at t.entries ys) ≤ℤ t.backed_count -ℤ pos 1 =
                      omega (int_laws, backed, one) in
                    subst (λ r. Chosen xs r.0 r.1) (sym (skip_backed list n s k e h found b))
                      (a, ys, record { listed = listed; mapped = m; backed = left }, fewer)
                | inr hot ↦
                    let (zs, w, long) =
                      reinsert-IsShard list law t a k e ys listed m backed found hot in
                    subst (λ r. Chosen xs r.0 r.1) (sym (skip_hot list n s k e h found hot))
                      (Chosen-length xs zs (skip_hot_only list n (reinsert list k e t)).0
                        (skip_hot_only list n (reinsert list k e t)).1 (long ∙ fewer)
                        (skip-Chosen n (reinsert list k e t) zs w))
              ]
        ]

    -- Whichever way it picks its victim, evictPreferBacked leaves a shard, or one that lost the
    -- victim from its list only.
    pub prefer-Chosen :
        (s : Shard S) (xs : Pairs)
        → IsShard Holds s xs
        → Chosen xs (evict_prefer_backed list s).0 (evict_prefer_backed list s).1
    unfolding evict_prefer_backed
    prefer-Chosen s xs v =
        branch (eq_ℤ s.backed_count (pos 0)) (evict_standard list s) (skip_hot_only list 4 s)
          (standard-Chosen s xs v) (skip-Chosen 4 s xs v)
      where
        branch :
            (c : Bool) (x y : Option Bytes × Shard S)
            → Chosen xs x.0 x.1
            → Chosen xs y.0 y.1
            → Chosen xs (if c then x else y).0 (if c then x else y).1
        branch true x y l r = l
        branch false x y l r = r

    pub over_done :
        (n : ℕ) (size max : ℤ) (s : Shard S)
        → (leb_ℤ (s.bytes +ℤ size) max || list.len s.evict == 0) ≡ true
        → evict_over list (suc n) size max s ≡ s
    unfolding evict_over
    over_done n size max s h = rw (evict_over, h) refl

    pub over_none :
        (n : ℕ) (size max : ℤ) (s : Shard S)
        → (leb_ℤ (s.bytes +ℤ size) max || list.len s.evict == 0) ≡ false
        → (evict_prefer_backed list s).0 ≡ none
        → evict_over list (suc n) size max s ≡ (evict_prefer_backed list s).1
    unfolding evict_over
    over_none n size max s h g = rw (evict_over, h, g) refl

    pub over_some :
        (n : ℕ) (size max : ℤ) (s : Shard S) (k : Bytes)
        → (leb_ℤ (s.bytes +ℤ size) max || list.len s.evict == 0) ≡ false
        → (evict_prefer_backed list s).0 ≡ some k
        → evict_over list (suc n) size max s
          ≡ evict_over list n size max (drop_victim k (evict_prefer_backed list s).1)
    unfolding evict_over
    over_some n size max s k h g = rw (evict_over, h, g) refl

    pub evict_over-IsShard :
        (n : ℕ) (size max : ℤ) (s : Shard S) (xs : Pairs)
        → IsShard Holds s xs
        → (ys : Pairs) × IsShard Holds (evict_over list n size max s) ys
    evict_over-IsShard zero size max s xs v = unfold evict_over in (xs, v)
    evict_over-IsShard (suc n) size max s xs v =
        let t = (evict_prefer_backed list s).1 in
        let chosen = prefer-Chosen s xs v in
        elim (Bool-cases (leb_ℤ (s.bytes +ℤ size) max || list.len s.evict == 0)) [
          | inl stop ↦
              subst (λ r. (ys : Pairs) × IsShard Holds r ys) (sym (over_done n size max s stop))
                (xs, v)
          | inr more ↦ elim (Option-cases (evict_prefer_backed list s).0) [
            | inl h ↦
                subst (λ r. (ys : Pairs) × IsShard Holds r ys) (sym (over_none n size max s more h))
                  (subst (λ o. Chosen xs o t) h chosen)
            | inr (k, h) ↦
                let (a, ys, lost, fewer) = subst (λ o. Chosen xs o t) h chosen in
                subst (λ r. (zs : Pairs) × IsShard Holds r zs)
                  (sym (over_some n size max s k more h))
                  (evict_over-IsShard n size max (drop_victim k t) ys
                    (victim-IsShard Holds t a k ys lost))
          ]
        ]
