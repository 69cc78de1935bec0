-- ===== src/Storage/Sieve/Fields.antt =====
-- internal/storage/sieve/sieve.go: what the operations leave of the keys and the visited bits.
use bouine.Prelude.{
  ℕ, zero, suc, ◌≡◌, refl, sym, ap, ◌∙◌, inl, inr, Bool, true, false, ◌||◌, Option, none, some,
  ◌==◌, ==_iff, Bool-cases, Option-cases,
}
use bouine.Prelude.Bytes.{Bytes}
use bouine.Prelude.Int.{ℤ, pos, pos_part, leb_ℤ}
use bouine.Storage.Sieve.{
  Entry, SieveList, update, set_visited, set_prev, set_next, set_prev_of, push_head, remove_entry,
  eq_pointer, pass_by, evict, sweep, evict_bounded, or_else,
}
use bouine.Storage.Sieve.Chains.{update_self, update_other}
use bouine.Storage.Sieve.Sweeps.{SameLinks, touch_keeps}
use bouine.Storage.Sieve.Evictions.{
  remove_keeps, set_next_key, set_prev_key, sweep-none, sweep_visited, sweep_unvisited,
}

evict_key : (e : ℕ) (l : SieveList Bytes) (x : ℕ) → ((evict e l).1.heap x).key ≡ (l.heap x).key
unfolding evict
evict_key e l x = (remove_keeps e (record l { hand = (l.heap e).prev }) x).0

-- An eviction changes no key.
pub sweep_key : (n : ℕ) (l : SieveList Bytes) (x : ℕ) → ((sweep n l).1.heap x).key ≡ (l.heap x).key
unfolding sweep pass_by set_visited SameLinks
sweep_key zero l x = refl
sweep_key (suc n) l x = elim (Option-cases (or_else l.hand l.tail)) [
  | inl h ↦ ap (λ r. (r.1.heap x).key) (sweep-none n l h)
  | inr (cur, h) ↦ elim (Bool-cases (l.heap cur).visited) [
    | inl seen ↦
        ap (λ r. (r.1.heap x).key) (sweep_visited n l cur h seen)
        ∙ (sweep_key n (pass_by cur (record l { hand = some cur })) x
            ∙ (touch_keeps l.heap cur (record (l.heap cur) { visited = false }) x
                (refl, refl, refl)).2)
    | inr unseen ↦
        ap (λ r. (r.1.heap x).key) (sweep_unvisited n l cur h unseen)
        ∙ evict_key cur (record l { hand = some cur }) x
  ]
]

pub evict_bounded_key :
    (n : ℤ) (l : SieveList Bytes) (x : ℕ) → ((evict_bounded n l).1.heap x).key ≡ (l.heap x).key
unfolding evict_bounded
evict_bounded_key n l x = elim (Bool-cases (l.len == 0 || leb_ℤ n (pos 0))) [
  | inl stop ↦ rw stop refl
  | inr go ↦ rw go (sweep_key (pos_part n) (record l { hand = or_else l.hand l.tail }) x)
]

set_prev_of_key :
    (p q : Option ℕ) (h : ℕ → Entry Bytes) (x : ℕ) → (set_prev_of p q h x).key ≡ (h x).key
unfolding set_prev_of
set_prev_of_key none q h x = refl
set_prev_of_key (some a) q h x = set_prev_key h a q x

pub push_head_key :
    (e : ℕ) (l : SieveList Bytes) (x : ℕ) → ((push_head e l).heap x).key ≡ (l.heap x).key
unfolding push_head
push_head_key e l x =
    set_prev_of_key l.head (some e) (set_next e l.head (set_prev e none l.heap)) x
    ∙ (set_next_key (set_prev e none l.heap) e l.head x ∙ set_prev_key l.heap e none x)

pub remove_entry_key :
    (e : ℕ) (l : SieveList Bytes) (x : ℕ) → ((remove_entry e l).heap x).key ≡ (l.heap x).key
unfolding remove_entry
remove_entry_key e l x = elim (Bool-cases (eq_pointer l.hand (some e))) [
  | inl at_hand ↦ rw at_hand (remove_keeps e (record l { hand = (l.heap e).prev }) x).0
  | inr elsewhere ↦ rw elsewhere (remove_keeps e l x).0
]

pub visited_key :
    (a : ℕ) (v : Bool) (heap : ℕ → Entry Bytes) (x : ℕ)
    → (set_visited a v heap x).key ≡ (heap x).key
unfolding set_visited SameLinks
visited_key a v heap x =
    (touch_keeps heap a (record (heap a) { visited = v }) x (refl, refl, refl)).2

-- The visited bits are in the heap.
update_visited :
    (heap : ℕ → Entry Bytes) (a : ℕ) (new : Entry Bytes) (x : ℕ)
    → new.visited ≡ (heap a).visited
    → (update heap a new x).visited ≡ (heap x).visited
unfolding update
update_visited heap a new x same = elim (Bool-cases (x == a)) [
  | inl e ↦ rw e (same ∙ ap (λ t. (heap t).visited) (sym ((==_iff x a).0 e)))
  | inr e ↦ rw e refl
]

set_prev_of_visited :
    (p q : Option ℕ) (heap : ℕ → Entry Bytes) (x : ℕ)
    → (set_prev_of p q heap x).visited ≡ (heap x).visited
unfolding set_prev_of set_prev
set_prev_of_visited none q heap x = refl
set_prev_of_visited (some a) q heap x = update_visited heap a _ x refl

pub push_head_visited :
    (e : ℕ) (l : SieveList Bytes) (x : ℕ) → ((push_head e l).heap x).visited ≡ (l.heap x).visited
unfolding push_head set_next set_prev
push_head_visited e l x =
    set_prev_of_visited l.head (some e) (set_next e l.head (set_prev e none l.heap)) x
    ∙ (update_visited (set_prev e none l.heap) e _ x refl ∙ update_visited l.heap e _ x refl)

pub visit_self : (heap : ℕ → Entry Bytes) (h : ℕ) → (set_visited h true heap h).visited ≡ true
unfolding set_visited
visit_self heap h = ap (λ (t : Entry Bytes). t.visited) (update_self heap h _)

pub visit_other :
    (heap : ℕ → Entry Bytes) (h j : ℕ)
    → (j == h) ≡ false
    → (set_visited h true heap j).visited ≡ (heap j).visited
unfolding set_visited
visit_other heap h j d = ap (λ (t : Entry Bytes). t.visited) (update_other heap h _ j d)
