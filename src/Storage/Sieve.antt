-- ===== src/Storage/Sieve.antt =====
-- internal/storage/sieve/sieve.go and the entries of internal/storage/evictor/evictor.go. A pointer is an
-- address in a heap of entries, nil is `none`. sync.Pool is a parameter: the address that its Get
-- returns. SIEVE does not use the frequency bits of an entry.
pub mod Chains
pub mod Links
pub mod Sweeps
pub mod Evictions
pub mod Progress
pub mod Accesses
pub mod Pairs
pub mod Fields
pub mod Policy
use bouine.Prelude.{
  ℕ, zero, suc, ◌+◌, ◌-◌, Bool, true, false, ◌||◌, Option, none, some, ◌==◌, if◌then◌else◌,
}
use bouine.Prelude.Int.{ℤ, pos, pos_part, leb_ℤ}

pub record Entry (K : Type 0) : Type 0 where
  pub key : K
  pub prev : Option ℕ
  pub next : Option ℕ
  pub visited : Bool
  pub io_bits : ℕ

pub record SieveList (K : Type 0) : Type 0 where
  pub heap : ℕ → Entry K
  pub head : Option ℕ
  pub tail : Option ℕ
  pub hand : Option ℕ
  pub len : ℕ

unfoldable pub update : {K : Type 0} → (ℕ → Entry K) → ℕ → Entry K → ℕ → Entry K
update heap a e b = if b == a then e else heap b

abbrev pub eq_pointer : Option ℕ → Option ℕ → Bool
eq_pointer none none = true
eq_pointer none (some b) = false
eq_pointer (some a) none = false
eq_pointer (some a) (some b) = a == b

unfoldable pub set_prev : {K : Type 0} → ℕ → Option ℕ → (ℕ → Entry K) → ℕ → Entry K
set_prev a p heap = update heap a (record (heap a) { prev = p })

unfoldable pub set_next : {K : Type 0} → ℕ → Option ℕ → (ℕ → Entry K) → ℕ → Entry K
set_next a n heap = update heap a (record (heap a) { next = n })

unfoldable pub set_visited : {K : Type 0} → ℕ → Bool → (ℕ → Entry K) → ℕ → Entry K
set_visited a v heap = update heap a (record (heap a) { visited = v })

-- An assignment through a pointer that is tested for nil first.
unfoldable pub set_prev_of : {K : Type 0} → Option ℕ → Option ℕ → (ℕ → Entry K) → ℕ → Entry K
set_prev_of none p heap = heap
set_prev_of (some a) p heap = set_prev a p heap

abbrev pub or_else : Option ℕ → Option ℕ → Option ℕ
or_else none d = d
or_else (some a) d = some a

unfoldable pub push_head : {K : Type 0} → ℕ → SieveList K → SieveList K
push_head e l = record l {
  heap = set_prev_of l.head (some e) (set_next e l.head (set_prev e none l.heap));
  head = some e;
  tail = or_else l.tail (some e);
  len = suc l.len;
}

-- The three parts of `remove`: the entry before, the entry behind, and the removed one. Each reads the
-- links as the part before leaves them.
unfoldable pub bypass_prev : {K : Type 0} → ℕ → SieveList K → SieveList K
bypass_prev e l =
    let n = (l.heap e).next in
    elim (l.heap e).prev [
      | none ↦ record l { head = n }
      | some p ↦ record l { heap = set_next p n l.heap }
    ]

unfoldable pub bypass_next : {K : Type 0} → ℕ → SieveList K → SieveList K
bypass_next e l =
    let p = (l.heap e).prev in
    elim (l.heap e).next [
      | none ↦ record l { tail = p }
      | some n ↦ record l { heap = set_prev n p l.heap }
    ]

unfoldable pub detach : {K : Type 0} → ℕ → SieveList K → SieveList K
detach e l = record l { heap = set_next e none (set_prev e none l.heap); len = l.len - 1 }

unfoldable pub remove : {K : Type 0} → ℕ → SieveList K → SieveList K
remove e l = detach e (bypass_next e (bypass_prev e l))

-- `Remove`. The entry goes to the pool, which nothing here refers to.
unfoldable pub remove_entry : {K : Type 0} → ℕ → SieveList K → SieveList K
remove_entry e l =
    remove e (if eq_pointer l.hand (some e) then record l { hand = (l.heap e).prev } else l)

-- `Access`: `looked_up` is what the lookup answers, `fresh` what the pool does, whose Reset clears it.
unfoldable pub access : {K : Type 0} → K → Option ℕ → ℕ → SieveList K → ℕ × Bool × SieveList K
access key (some e) fresh l = (e, false, record l { heap = set_visited e true l.heap })
access key none fresh l = (
  fresh,
  true,
  push_head fresh (record l {
    heap =
        update l.heap fresh
          (record { key = key; prev = none; next = none; visited = false; io_bits = 0 });
  }),
)

-- An entry that was visited gets a second chance; another one is evicted.
unfoldable pub pass_by : {K : Type 0} → ℕ → SieveList K → SieveList K
pass_by cur l =
    let heap' = set_visited cur false l.heap in
    record l { heap = heap'; hand = or_else (heap' cur).prev l.tail }

unfoldable pub evict : {K : Type 0} → ℕ → SieveList K → Option K × SieveList K
evict cur l =
    let l' = remove cur (record l { hand = (l.heap cur).prev }) in (some (l'.heap cur).key, l')

-- The loop of EvictBounded.
unfoldable pub sweep : {K : Type 0} → ℕ → SieveList K → Option K × SieveList K
sweep zero l = (none, l)
sweep (suc n) l = elim (or_else l.hand l.tail) [
  | none ↦ (none, record l { hand = l.tail })
  | some cur ↦ elim (l.heap cur).visited [
    | true ↦ sweep n (pass_by cur (record l { hand = some cur }))
    | false ↦ evict cur (record l { hand = some cur })
  ]
]

unfoldable pub evict_bounded : {K : Type 0} → ℤ → SieveList K → Option K × SieveList K
evict_bounded max_probes l =
    if l.len == 0 || leb_ℤ max_probes (pos 0)
    then (none, l)
    else sweep (pos_part max_probes) (record l { hand = or_else l.hand l.tail })

-- The loop of `Clear`, which hands each entry to the pool; `len` rounds are enough.
unfoldable pub clear_loop : {K : Type 0} → ℕ → SieveList K → SieveList K
clear_loop zero l = l
clear_loop (suc n) l = elim l.head [
  | none ↦ l
  | some e ↦ clear_loop n (record l { head = (l.heap e).next })
]

unfoldable pub clear : {K : Type 0} → SieveList K → SieveList K
clear l = record (clear_loop l.len l) { head = none; tail = none; hand = none; len = 0 }
