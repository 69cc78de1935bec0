-- ===== src/Storage/Sieve/Policy.antt =====
-- internal/storage/sieve/sieve.go as an eviction policy of the interface in
-- internal/storage/evictor/evictor.go. The entries come from a sync.Pool, which may hand out one that
-- was used before.
use bouine.Prelude.{
  ℕ, suc, ◌≡◌, refl, sym, ap, ◌∙◌, true, false, List, [], ◌∷◌, ◌++◌, Option, none, some, arith,
  length,
}
use mathlib.Core.Path.{subst}
use bouine.Prelude.Bytes.{Bytes}
use bouine.Prelude.Int.{ℤ}
use bouine.Storage.EvictLists.{EvictList, IsEvictList, TakesOne}
use bouine.Storage.Sieve.{
  Entry, SieveList, update, set_visited, push_head, access, remove_entry, evict_bounded, clear,
}
use bouine.Storage.Sieve.Chains.{NotIn, update_self}
use bouine.Storage.Sieve.Sweeps.{IsSieve, SameLinks, touch-Chain}
use bouine.Storage.Sieve.Evictions.{Evicts}
use bouine.Storage.Sieve.Progress.{evict_bounded-Evicts}
use bouine.Storage.Sieve.Accesses.{access-IsSieve, remove_entry-IsSieve, clear-IsSieve}
use bouine.Storage.Sieve.Pairs.{
  addresses, KeysOf, KeysOf-same, addresses-append, KeysOf-middle, split_pairs, KeysOf-fresh,
  length-addresses,
}
use bouine.Storage.Sieve.Fields.{
  evict_bounded_key, push_head_key, remove_entry_key, visited_key, push_head_visited, visit_self,
  visit_other,
}

-- A SIEVE list with the number of entries that were taken from the pool.
abbrev pub Pooled : Type 0
Pooled = SieveList Bytes × ℕ

-- What `Get` of the pool answers, by the number of calls before and the list at that time: a new
-- entry, or any that was put back. An entry is put back when it leaves the list.
abbrev pub EntryPool : Type 0
EntryPool = ℕ → SieveList Bytes → ℕ

-- What the list relies on: an entry that is in use is not handed out.
unfoldable pub IsPool : EntryPool → Type 0
IsPool pool = (n : ℕ) (l : SieveList Bytes) (xs : List ℕ) → IsSieve l xs → NotIn (pool n l) xs

unfoldable pub sieve_policy : EntryPool → EvictList Pooled
sieve_policy pool = record {
  insert = λ k s. let (h, fresh, l) = access k none (pool s.1 s.0) s.0 in (h, (l, suc s.1));
  touch = λ h s. ((access [] (some h) 0 s.0).2, s.1);
  mark_visited = λ h s. (record s.0 { heap = set_visited h true s.0.heap }, s.1);
  is_visited = λ s h. (s.0.heap h).visited;
  evict_bounded = λ n s. let (k, l) = evict_bounded n s.0 in (k, (l, s.1));
  remove = λ h s. (remove_entry h s.0, s.1);
  len = λ s. s.0.len;
  clear = λ s. (clear s.0, s.1);
}

-- The entries in the order of the list, with their keys.
unfoldable pub HoldsPairs : Pooled → List (ℕ × Bytes) → Type 0
HoldsPairs s xs = IsSieve s.0 (addresses xs) × KeysOf s.0.heap xs

takes-HoldsPairs :
    (l : SieveList Bytes) (n : ℕ) (xs : List (ℕ × Bytes)) (r : Option Bytes × SieveList Bytes)
    → HoldsPairs (l, n) xs
    → ((x : ℕ) → (r.1.heap x).key ≡ (l.heap x).key)
    → Evicts l (addresses xs) r
    → TakesOne HoldsPairs xs (r.0, (r.1, n))
unfolding HoldsPairs TakesOne Evicts
takes-HoldsPairs l n xs (none, l') (v, keys) same e = (e, KeysOf-same l'.heap l.heap xs same keys)
takes-HoldsPairs l n xs (some k, l') (v, keys) same (before, e, behind, is, key, w) =
    let (b, j, c, at, p, q) = split_pairs xs before e behind is in
    let all : KeysOf l.heap (b ++ ((e, j) ∷ c)) = subst (λ t. KeysOf l.heap t) at keys in
    let (here, keys') = KeysOf-middle l.heap e j b c all in
    let together : addresses (b ++ c) ≡ before ++ behind = addresses-append b c ∙ rw (p, q) refl in
    (
      b,
      e,
      c,
      at ∙ ap (λ t. b ++ ((e, t) ∷ c)) (sym here ∙ sym key),
      (subst (λ t. IsSieve l' t) (sym together) w, KeysOf-same l'.heap l.heap (b ++ c) same keys'),
    )

insert-HoldsPairs :
    (pool : EntryPool)
    → IsPool pool
    → (k : Bytes) (s : Pooled) (xs : List (ℕ × Bytes)) → HoldsPairs s xs
    → HoldsPairs ((sieve_policy pool).insert k s).1 ((((sieve_policy pool).insert k s).0, k) ∷ xs)
unfolding HoldsPairs sieve_policy access IsPool
insert-HoldsPairs pool free k s xs (v, keys) =
    let l = s.0 in
    let n = pool s.1 l in
    let apart : NotIn n (addresses xs) = free s.1 l (addresses xs) v in
    let new : Entry Bytes = record {
      key = k;
      prev = none;
      next = none;
      visited = false;
      io_bits = 0;
    } in
    let l0 : SieveList Bytes = record l { heap = update l.heap n new } in
    let at_new : (update l.heap n new n).key ≡ k = unfold update in ground arith in
    (
      access-IsSieve k none n l (addresses xs) apart v,
      (
        push_head_key n l0 n ∙ at_new,
        KeysOf-same (push_head n l0).heap l0.heap xs (push_head_key n l0)
            (KeysOf-fresh l.heap n new xs apart keys),
      ),
    )

touch-HoldsPairs :
    (pool : EntryPool) (h : ℕ) (s : Pooled) (xs : List (ℕ × Bytes))
    → HoldsPairs s xs
    → HoldsPairs ((sieve_policy pool).touch h s) xs
      × HoldsPairs ((sieve_policy pool).mark_visited h s) xs
unfolding HoldsPairs sieve_policy access SameLinks set_visited IsSieve
touch-HoldsPairs pool h s xs ((v, hand), keys) =
    let new : Entry Bytes = record (s.0.heap h) { visited = true } in
    let kept =
      KeysOf-same (set_visited h true s.0.heap) s.0.heap xs (visited_key h true s.0.heap) keys in
    let chain = touch-Chain s.0.heap h new none (addresses xs) none (refl, refl, refl) v.chain in
    let linked : IsSieve (record s.0 { heap = update s.0.heap h new }) (addresses xs) = (
      record { chain = chain; distinct = v.distinct; head = v.head; tail = v.tail; len = v.len },
      hand,
    ) in
    ((linked, kept), (linked, kept))

remove-HoldsPairs :
    (pool : EntryPool) (h : ℕ) (k : Bytes) (s : Pooled) (xs ys : List (ℕ × Bytes))
    → HoldsPairs s (xs ++ ((h, k) ∷ ys))
    → HoldsPairs ((sieve_policy pool).remove h s) (xs ++ ys)
unfolding HoldsPairs sieve_policy
remove-HoldsPairs pool h k s xs ys (v, keys) =
    let l = s.0 in
    let (here, keys') = KeysOf-middle l.heap h k xs ys keys in
    (
      subst (λ t. IsSieve (remove_entry h l) t) (sym (addresses-append xs ys))
          (remove_entry-IsSieve l (addresses xs) h (addresses ys)
            (subst (λ t. IsSieve l t) (addresses-append xs ((h, k) ∷ ys)) v)),
      KeysOf-same (remove_entry h l).heap l.heap (xs ++ ys) (remove_entry_key h l) keys',
    )

len-HoldsPairs : (s : Pooled) (xs : List (ℕ × Bytes)) → HoldsPairs s xs → s.0.len ≡ length xs
unfolding HoldsPairs IsSieve
len-HoldsPairs s xs (v, keys) = v.0.len ∙ length-addresses xs

evict-HoldsPairs :
    (pool : EntryPool) (n : ℤ) (s : Pooled) (xs : List (ℕ × Bytes))
    → HoldsPairs s xs
    → TakesOne HoldsPairs xs ((sieve_policy pool).evict_bounded n s)
unfolding sieve_policy HoldsPairs
evict-HoldsPairs pool n s xs v =
    takes-HoldsPairs s.0 s.1 xs (evict_bounded n s.0) v (evict_bounded_key n s.0)
      (evict_bounded-Evicts n s.0 (addresses xs) v.0)

clear-HoldsPairs :
    (pool : EntryPool) (s : Pooled) (xs : List (ℕ × Bytes))
    → HoldsPairs s xs
    → HoldsPairs ((sieve_policy pool).clear s) []
unfolding sieve_policy HoldsPairs
clear-HoldsPairs pool s xs (v, keys) = ((clear-IsSieve s.0 (addresses xs) v).0, tt)

insert_visited :
    (pool : EntryPool) (k : Bytes) (s : Pooled)
    → let p = sieve_policy pool in p.is_visited (p.insert k s).1 (p.insert k s).0 ≡ false
unfolding sieve_policy access
insert_visited pool k s =
    let n = pool s.1 s.0 in
    push_head_visited n _ n ∙ ap (λ (t : Entry Bytes). t.visited) (update_self s.0.heap n _)

-- The SIEVE list is an eviction policy, with a pool that does not hand out an entry of the list: on
-- its entries and their keys each operation of the interface does what a client relies on, and
-- Access and MarkVisited set the visited bit of the entry and no other, while a new entry has none.
pub sieve-IsEvictList :
    (pool : EntryPool) → IsPool pool → IsEvictList (sieve_policy pool) HoldsPairs
unfolding sieve_policy access
sieve-IsEvictList pool free = record {
  insert = insert-HoldsPairs pool free;
  touch = λ h s xs v. (touch-HoldsPairs pool h s xs v).0;
  mark_visited = λ h s xs v. (touch-HoldsPairs pool h s xs v).1;
  evict_bounded = evict-HoldsPairs pool;
  remove = remove-HoldsPairs pool;
  len = len-HoldsPairs;
  clear = clear-HoldsPairs pool;
  new_unvisited = insert_visited pool;
  touch_visits = λ h s. visit_self s.0.heap h;
  mark_visits = λ h s. visit_self s.0.heap h;
  touch_other = λ h j s. visit_other s.0.heap h j;
  mark_other = λ h j s. visit_other s.0.heap h j;
}
