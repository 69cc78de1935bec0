-- ===== src/Storage/HotShard/Puts.antt =====
-- internal/storage/hot.go: putStored keeps a shard in step and stores the object.
use bouine.Prelude.{
  ℕ, ◌+◌, ◌≡◌, refl, sym, ap, ◌∙◌, inl, inr, Bool, true, false, [], ◌∷◌, ◌++◌, none, some, arith,
  if◌then◌else◌, Option-cases,
}
use mathlib.Core.Path.{subst}
use bouine.Prelude.Bytes.{Bytes, eq_bytes}
use bouine.Prelude.Int.{ℤ, pos, ◌-ℤ◌, ◌≤ℤ◌, int_laws}
use bouine.Api.Object.{Object}
use bouine.Storage.EvictLists.{EvictList, IsEvictList}
use bouine.Storage.HotShard.{
  HotEntry, Shard, obj_size, by_delete, with_entry, replace_old, insert_stored,
}
use bouine.Storage.HotShard.Held.{
  Entries, Pairs, change, Absent, DistinctKeys, Held, size_at, backed_at, sum_over, sum_over-middle,
  sum_over-change, put-IsMap, changed_self, locate, differs_sym,
}
use bouine.Storage.HotShard.Shards.{IsShard, notify-SameShard}
use bouine.Storage.HotShard.Changes.{position}
use bouine.Storage.HotShard.Operations.{SomeShard}

-- A shard whose list and counters are without a key, whatever its map has there.
pub record Ready {S : Type 0} (Holds : S → Pairs → Type 0) (k : Bytes) (s : Shard S) : Type 0 where
  pairs : Pairs
  listed : Holds s.evict pairs
  held : Held s.entries pairs
  absent : Absent k pairs
  distinct : DistinctKeys pairs
  outside : (j : Bytes) → eq_bytes j k ≡ false → Absent j pairs → s.entries j ≡ none
  total : s.bytes ≡ pos (sum_over size_at s.entries pairs)
  backed : pos (sum_over backed_at s.entries pairs) ≤ℤ s.backed_count

module _ {S : Type 0} (list : EvictList S) where
  -- The parts of a shard whose old entry is written over.
  pub replaced :
      (k : Bytes) (e : HotEntry) (s : Shard S)
      → s.entries k ≡ some e
      → ((replace_old list k s).entries ≡ s.entries)
        × ((replace_old list k s).evict ≡ list.remove e.entry s.evict)
        × ((replace_old list k s).bytes ≡ s.bytes -ℤ pos (obj_size e.obj))
        × ((replace_old list k s).backed_count
            ≡ (if e.has_backup then s.backed_count -ℤ pos 1 else s.backed_count))
  unfolding replace_old
  replaced k e s found =
      let n = notify-SameShard k e by_delete s in
      rw (found, replace_old)
        (
          n.entries,
          ap (λ l. list.remove e.entry l) n.evict,
          ap (λ b. b -ℤ pos (obj_size e.obj)) n.bytes,
          ap (λ c. if e.has_backup then c -ℤ pos 1 else c) n.count,
        )

  pub replaced_none : (k : Bytes) (s : Shard S) → s.entries k ≡ none → replace_old list k s ≡ s
  unfolding replace_old
  replaced_none k s gone = rw (gone, replace_old) refl

  fewer_backed :
      (c : Bool) (n : ℕ) (count : ℤ)
      → pos ((if c then 1 else 0) + n) ≤ℤ count
      → pos n ≤ℤ (if c then count -ℤ pos 1 else count)
  fewer_backed true n count le = omega (int_laws, le)
  fewer_backed false n count le = omega (arith, le)

module _ {S : Type 0} (Holds : S → Pairs → Type 0) (list : EvictList S)
    (law : IsEvictList list Holds) where
  none-Ready :
      (k : Bytes) (s : Shard S) (xs : Pairs)
      → s.entries k ≡ none
      → IsShard Holds s xs
      → Ready Holds k s
  none-Ready k s xs gone v = elim (locate k xs) [
    | inl absent ↦ record {
      pairs = xs;
      listed = v.listed;
      held = v.mapped.held;
      absent = absent;
      distinct = v.mapped.distinct;
      outside = λ j d a. v.mapped.outside j a;
      total = v.mapped.total;
      backed = v.backed;
    }
    | inr (before, h, behind, is) ↦
        let (e, found, same) =
          held_at s.entries h k before behind (subst (λ t. Held s.entries t) is v.mapped.held) in
        absurd (ground (arith, gone, found))
  ]
    where
      held_at :
          (entries : Entries) (h : ℕ) (j : Bytes) (xs ys : Pairs)
          → Held entries (xs ++ ((h, j) ∷ ys))
          → (e : HotEntry) × (entries j ≡ some e) × (e.entry ≡ h)
      held_at entries h j [] ys w = w.0
      held_at entries h j (x ∷ xs) ys w = held_at entries h j xs ys w.1

  old-Ready :
      (k : Bytes) (e : HotEntry) (s : Shard S) (xs : Pairs)
      → s.entries k ≡ some e
      → IsShard Holds s xs
      → Ready Holds k (replace_old list k s)
  unfolding sum_over size_at backed_at
  old-Ready k e s xs found v =
      let t = replace_old list k s in
      let (entries, evict, bytes, count) = replaced list k e s found in
      let (before, behind, is, front) = position k e s.entries s.bytes xs found v.mapped in
      let rest = before ++ behind in
      let sum : s.bytes -ℤ pos (obj_size e.obj) ≡ pos (sum_over size_at s.entries rest) =
        rw (front.total, found) (omega int_laws) in
      let all : pos (sum_over backed_at s.entries ((e.entry, k) ∷ rest)) ≤ℤ s.backed_count =
        subst (λ n. pos n ≤ℤ s.backed_count)
          (ap (λ t'. sum_over backed_at s.entries t') is
            ∙ sum_over-middle backed_at s.entries e.entry k before behind)
          v.backed in
      let all' : pos ((if e.has_backup then 1 else 0) + sum_over backed_at s.entries rest)
          ≤ℤ s.backed_count =
        subst (λ n. pos (n + sum_over backed_at s.entries rest) ≤ℤ s.backed_count)
          (ap backed_at found) all in
      record {
        pairs = rest;
        listed =
            subst (λ l. Holds l rest) (sym evict)
              (law.remove e.entry k s.evict before behind
                (subst (λ t'. Holds s.evict t') is v.listed));
        held = subst (λ m. Held m rest) (sym entries) front.held.1;
        absent = front.distinct.0;
        distinct = front.distinct.1;
        outside = λ j d a. ap (λ m. m j) entries ∙ front.outside j (differs_sym j k d, a);
        total = bytes ∙ (sum ∙ ap (λ m. pos (sum_over size_at m rest)) (sym entries));
        backed =
            subst (λ c. pos (sum_over backed_at t.entries rest) ≤ℤ c) (sym count)
              (subst
                (λ m.
                  pos (sum_over backed_at m rest)
                  ≤ℤ (if e.has_backup then s.backed_count -ℤ pos 1 else s.backed_count))
                (sym entries)
                (fewer_backed list e.has_backup (sum_over backed_at s.entries rest) s.backed_count
                  all'));
      }

  pub insert-SomeShard :
      (k : Bytes) (stored : Object) (s : Shard S)
      → Ready Holds k s
      → SomeShard Holds list law (insert_stored list k stored s)
  unfolding insert_stored with_entry sum_over backed_at
  insert-SomeShard k stored s r =
      let g = (list.insert k s.evict).0 in
      let e : HotEntry = record { obj = stored; entry = g; has_backup = false; window_hits = 0 } in
      let new : backed_at (change k (some e) s.entries k) ≡ 0 =
        ap backed_at (changed_self k (some e) s.entries) in
      let same = sum_over-change backed_at k (some e) s.entries r.pairs r.absent in
      let backed = r.backed in
      (
        (g, k) ∷ r.pairs,
        record {
          listed =
              law.mark_visited g (list.insert k s.evict).1 ((g, k) ∷ r.pairs)
                (law.insert k s.evict r.pairs r.listed);
          mapped =
              put-IsMap s.entries s.bytes e k r.pairs r.held r.absent r.distinct r.outside r.total;
          backed = omega (arith, backed, new, same);
        },
      )

  pub replaced-Ready :
      (k : Bytes) (s : Shard S) → SomeShard Holds list law s → Ready Holds k (replace_old list k s)
  replaced-Ready k s (xs, v) = elim (Option-cases (s.entries k)) [
    | inl gone ↦
        subst (λ t. Ready Holds k t) (sym (replaced_none list k s gone)) (none-Ready k s xs gone v)
    | inr (e, found) ↦ old-Ready k e s xs found v
  ]
