-- ===== src/Storage/HotShard/Reaches.antt =====
-- internal/storage/hot.go: what holds of a shard after any operations on it.
use bouine.Prelude.{
  ◌⊎◌, ℕ, ◌+◌, ◌≡◌, refl, sym, ap, inl, inr, Bool, true, false, Option, none, some, arith,
  if◌then◌else◌, Bool-cases, Option-cases,
}
use mathlib.Core.Path.{subst}
use bouine.Prelude.Bytes.{Bytes}
use bouine.Prelude.Int.{ltb_ℤ, ℤ, pos, ◌+ℤ◌, ◌-ℤ◌, ◌≤ℤ◌, int_laws}
use bouine.Api.Object.{Object}
use bouine.Storage.EvictLists.{EvictList, IsEvictList}
use bouine.Storage.HotShard.{
  HotEntry, Shard, obj_size, by_ban, with_entry, replace_old, insert_stored, drop_entry,
  count_eviction, set_backed, clear_backed, evict_over, put_stored, count_hit, touched, get_object,
}
use bouine.Storage.HotShard.Held.{Pairs, change, IsMap, backed_at, sum_over, changed_self}
use bouine.Storage.HotShard.Shards.{drop_entry-IsShard}
use bouine.Storage.HotShard.Victims.{evict_over-IsShard}
use bouine.Storage.HotShard.Changes.{change-IsMap, backed-change}
use bouine.Storage.HotShard.Operations.{SomeShard, count-SomeShard}
use bouine.Storage.HotShard.Puts.{replaced, replaced_none, insert-SomeShard, replaced-Ready}

-- An entry that holds the object, new: without a backup or hits.
unfoldable pub IsStored : Object → Option HotEntry → Type 0
IsStored stored o =
    (h : ℕ) × (o ≡ some (record { obj = stored; entry = h; has_backup = false; window_hits = 0 }))

count_hit_keeps :
    (c : Bool) (e : HotEntry)
    → ((count_hit c e).entry ≡ e.entry)
      × ((count_hit c e).has_backup ≡ e.has_backup)
      × (obj_size (count_hit c e).obj ≡ obj_size e.obj)
unfolding count_hit obj_size
count_hit_keeps true e = (refl, refl, refl)
count_hit_keeps false e = (refl, refl, refl)

module _ {S : Type 0} (list : EvictList S) where
  replace_old_bytes : (k : Bytes) (s : Shard S) → (replace_old list k s).bytes ≤ℤ s.bytes
  replace_old_bytes k s = elim (Option-cases (s.entries k)) [
    | inl gone ↦ rw (replaced_none list k s gone) (omega arith)
    | inr (e, found) ↦ rw ((replaced list k e s found).2) (omega int_laws)
  ]

module _ {S : Type 0} (Holds : S → Pairs → Type 0) (list : EvictList S)
    (law : IsEvictList list Holds) where
  -- After a Put the shard is in step, the key has the object, with no backup and no hits, and
  -- either the sweeper is called or the bytes are within the budget.
  pub put_stored_lem :
      (max : ℤ) (k : Bytes) (stored : Object) (s : Shard S)
      → SomeShard Holds list law s
      → (SomeShard Holds list law (put_stored list max k stored s).1)
        × (IsStored stored ((put_stored list max k stored s).1.entries k))
        × (((put_stored list max k stored s).0 ≡ true)
            ⊎ ((put_stored list max k stored s).1.bytes ≤ℤ max))
  unfolding put_stored insert_stored with_entry IsStored
  put_stored_lem max k stored s (xs, v) =
      let size = pos (obj_size stored) in
      let t = evict_over list 4 size max s in
      let w = evict_over-IsShard Holds list law 4 size max s xs v in
      let r = replaced-Ready Holds list law k t w in
      let fewer = replace_old_bytes list k t in
      (
        insert-SomeShard Holds list law k stored (replace_old list k t) r,
        (
          (list.insert k (replace_old list k t).evict).0,
          changed_self k _ (replace_old list k t).entries,
        ),
        elim (Bool-cases (ltb_ℤ max (t.bytes +ℤ size))) [
          | inl over ↦ inl over
          | inr fits ↦
              let room : t.bytes +ℤ size ≤ℤ max = ground (arith, fits) in
              inr (omega (int_laws, room, fewer))
        ],
      )

  change-SomeShard :
      (k : Bytes) (e e' : HotEntry) (s t : Shard S)
      → s.entries k ≡ some e
      → e'.entry ≡ e.entry
      → obj_size e'.obj ≡ obj_size e.obj
      → t.entries ≡ change k (some e') s.entries
      → t.bytes ≡ s.bytes
      → ((xs : Pairs) → Holds s.evict xs → Holds t.evict xs)
      → ((n : ℕ) (m : ℕ)
          → n + backed_at (some e) ≡ m + backed_at (some e')
          → pos m ≤ℤ s.backed_count
          → pos n ≤ℤ t.backed_count)
      → SomeShard Holds list law s
      → SomeShard Holds list law t
  change-SomeShard k e e' s t found same size entries bytes listed count (xs, v) = (
    xs,
    record {
      listed = listed xs v.listed;
      mapped =
          subst (λ b. IsMap t.entries b xs) (sym bytes)
            (subst (λ m. IsMap m s.bytes xs) (sym entries)
              (change-IsMap k e e' s.entries s.bytes xs found same size v.mapped));
      backed =
          subst (λ m. pos (sum_over backed_at m xs) ≤ℤ t.backed_count) (sym entries)
            (count (sum_over backed_at (change k (some e') s.entries) xs)
              (sum_over backed_at s.entries xs)
              (backed-change k e e' s.entries s.bytes xs found v.mapped) v.backed);
    },
  )

  pub set_backed-SomeShard :
      (k : Bytes) (s : Shard S)
      → SomeShard Holds list law s
      → SomeShard Holds list law (set_backed list k s)
  unfolding set_backed with_entry backed_at
  set_backed-SomeShard k s v = elim (Option-cases (s.entries k)) [
    | inl gone ↦ subst (λ t. SomeShard Holds list law t) (sym (rw (set_backed, gone) refl)) v
    | inr (e, found) ↦ elim (Bool-cases e.has_backup) [
      | inl already ↦
          subst (λ t. SomeShard Holds list law t) (sym (rw (set_backed, found, already) refl)) v
      | inr fresh ↦
          let none_before : backed_at (some e) ≡ 0 = rw fresh refl in
          let e' : HotEntry = record e { has_backup = true } in
          let t = with_entry k (some e') (record s { backed_count = s.backed_count +ℤ pos 1 }) in
          subst (λ u. SomeShard Holds list law u) (sym (rw (set_backed, found, fresh) refl))
            (change-SomeShard k e e' s t found refl refl refl refl (λ xs l. l)
              (λ n m eq le. omega (int_laws, eq, le, none_before)) v)
    ]
  ]

  pub clear_backed-SomeShard :
      (k : Bytes) (s : Shard S)
      → SomeShard Holds list law s
      → SomeShard Holds list law (clear_backed list k s)
  unfolding clear_backed with_entry backed_at
  clear_backed-SomeShard k s v = elim (Option-cases (s.entries k)) [
    | inl gone ↦ subst (λ t. SomeShard Holds list law t) (sym (rw (clear_backed, gone) refl)) v
    | inr (e, found) ↦ elim (Bool-cases e.has_backup) [
      | inr already ↦
          subst (λ t. SomeShard Holds list law t) (sym (rw (clear_backed, found, already) refl)) v
      | inl backed ↦
          let one_before : backed_at (some e) ≡ 1 = rw backed refl in
          let e' : HotEntry = record e { has_backup = false } in
          let t = with_entry k (some e') (record s { backed_count = s.backed_count -ℤ pos 1 }) in
          subst (λ u. SomeShard Holds list law u) (sym (rw (clear_backed, found, backed) refl))
            (change-SomeShard k e e' s t found refl refl refl refl (λ xs l. l)
              (λ n m eq le. omega (int_laws, eq, le, one_before)) v)
    ]
  ]

  touched_holds :
      (c : Bool) (h : ℕ) (l : S) (xs : Pairs) → Holds l xs → Holds (touched list c h l) xs
  touched_holds true h l xs v = v
  touched_holds false h l xs v = law.touch h l xs v

  abbrev either : Bool → Object → Shard S → Shard S → Option Object × Shard S
  either c o x y = if c then (none, x) else (some o, y)

  either-SomeShard :
      (c : Bool) (o : Object) (x y : Shard S)
      → SomeShard Holds list law x
      → SomeShard Holds list law y
      → SomeShard Holds list law (either c o x y).1
  either-SomeShard true o x y v w = v
  either-SomeShard false o x y v w = w

  pub get_object-SomeShard :
      (banned : Object → Bool) (k : Bytes) (s : Shard S)
      → SomeShard Holds list law s
      → SomeShard Holds list law (get_object list banned k s).1
  unfolding get_object with_entry backed_at
  get_object-SomeShard banned k s v = elim (Option-cases (s.entries k)) [
    | inl gone ↦ rw (get_object, gone) v
    | inr (e, found) ↦
        let seen = list.is_visited s.evict e.entry in
        let e' = count_hit seen e in
        let (entry, backup, size) = count_hit_keeps seen e in
        let t = with_entry k (some e') (record s { evict = touched list seen e.entry s.evict }) in
        let w : SomeShard Holds list law t =
          change-SomeShard k e e' s t found entry size refl refl
            (touched_holds seen e.entry s.evict)
            (λ n m eq le.
              let same : backed_at (some e') ≡ backed_at (some e) =
                ap (λ c. if c then 1 else 0) backup in
              omega (arith, eq, le, same))
            v in
        let dropped = count-SomeShard Holds list law (drop_entry list by_ban k e' t) (
          drop_entry-IsShard Holds list law by_ban k e' t w.0 (changed_self k (some e') s.entries)
            w.1) in
        rw (get_object, found)
          (either-SomeShard (banned e'.obj) e'.obj (count_eviction (drop_entry list by_ban k e' t))
            t dropped w)
  ]
