-- ===== src/Storage/Cachaner.antt =====
-- internal/storage/cachaner/cachaner.go: SIEVE with a frequency counter of three bits to an entry. Its
-- NewList, Clear, Remove, pushHead and remove are those of sieve.go word for word, and are taken from
-- there.
pub mod Chances
use bouine.Prelude.{
  ℕ, zero, suc, ◌+◌, ◌-◌, ◌*◌, Bool, true, false, ◌||◌, Option, none, some, ◌==◌, leb,
  if◌then◌else◌,
}
use bouine.Prelude.Int.{ℤ, pos, pos_part, leb_ℤ}
use bouine.Storage.Sieve.{
  Entry, SieveList, update, set_visited, or_else, push_head, remove_entry, pass_by, evict,
}

abbrev pub max_freq : ℕ
max_freq = 7

unfoldable pub set_io_bits : {K : Type 0} → ℕ → ℕ → (ℕ → Entry K) → ℕ → Entry K
set_io_bits a bits heap = update heap a (record (heap a) { io_bits = bits })

unfoldable pub increment_freq : {K : Type 0} → ℕ → SieveList K → SieveList K
increment_freq e l =
    let bits = (l.heap e).io_bits in
    if leb max_freq bits then l else record l { heap = set_io_bits e (bits + 1) l.heap }

-- `Access`, with the pool and the lookup as in sieve.go.
unfoldable pub access_freq : {K : Type 0} → K → Option ℕ → ℕ → SieveList K → ℕ × Bool × SieveList K
access_freq key (some e) fresh l =
    let l' = increment_freq e l in (e, false, record l' { heap = set_visited e true l'.heap })
access_freq key none fresh l = (
  fresh,
  true,
  push_head fresh (record l {
    heap =
        update l.heap fresh
          (record { key = key; prev = none; next = none; visited = false; io_bits = 0 });
  }),
)

-- An entry with frequency left loses one of it.
unfoldable pub demote : {K : Type 0} → ℕ → SieveList K → SieveList K
demote cur l =
    let heap' = set_io_bits cur ((l.heap cur).io_bits - 1) l.heap in
    record l { heap = heap'; hand = or_else (heap' cur).prev l.tail }

unfoldable pub sweep_freq : {K : Type 0} → ℕ → SieveList K → Option K × SieveList K
sweep_freq zero l = (none, l)
sweep_freq (suc n) l = elim (or_else l.hand l.tail) [
  | none ↦ (none, record l { hand = l.tail })
  | some cur ↦ elim (l.heap cur).visited [
    | true ↦ sweep_freq n (pass_by cur (record l { hand = some cur }))
    | false ↦ elim (l.heap cur).io_bits [
      | zero ↦ evict cur (record l { hand = some cur })
      | suc bits ↦ sweep_freq n (demote cur (record l { hand = some cur }))
    ]
  ]
]

unfoldable pub evict_bounded_freq : {K : Type 0} → ℤ → SieveList K → Option K × SieveList K
evict_bounded_freq max_probes l =
    if l.len == 0 || leb_ℤ max_probes (pos 0)
    then (none, l)
    else sweep_freq (pos_part max_probes) (record l { hand = or_else l.hand l.tail })

-- `Evict`
unfoldable pub evict_any : {K : Type 0} → SieveList K → Option K × SieveList K
evict_any l = evict_bounded_freq (pos (l.len * (max_freq + 2))) l

-- `Defer`
unfoldable pub defer : {K : Type 0} → ℕ → SieveList K → SieveList K
defer e l = push_head e (remove_entry e l)
