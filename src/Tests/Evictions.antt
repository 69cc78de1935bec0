-- ===== src/Tests/Evictions.antt =====
-- internal/storage/sieve/sieve.go and internal/storage/cachaner/cachaner.go at a list of two entries, the older of them visited.
use bouine.Prelude.{ℕ, ◌<◌, ◌≡◌, refl, true, false, [], ◌∷◌, some, none, arith, ◌==◌, if◌then◌else◌}
use bouine.Prelude.Int.{pos}
use bouine.Storage.Sieve.{Entry, SieveList, access, remove_entry, evict_bounded, clear_loop, clear}
use bouine.Storage.Sieve.Sweeps.{IsSieve}
use bouine.Storage.Sieve.Evictions.{Evicts}
use bouine.Storage.Sieve.Progress
use bouine.Storage.Sieve.Progress.{is_some, visited_count}
use bouine.Storage.Cachaner.{evict_any}
use bouine.Storage.Cachaner.Chances
use bouine.Storage.Sieve.Accesses
use bouine.Storage.Sieve.Accesses.{accessed}

abbrev two_entries_heap : ℕ → Entry ℕ
two_entries_heap a =
    if a == 1
    then record { key = 10; prev = none; next = some 2; visited = false; io_bits = 0 }
    else record { key = 20; prev = some 1; next = none; visited = true; io_bits = 0 }

abbrev two_entries : SieveList ℕ
two_entries = record { heap = two_entries_heap; head = some 1; tail = some 2; hand = none; len = 2 }

two_entries-IsSieve : IsSieve two_entries (1 ∷ 2 ∷ [])
unfolding IsSieve
two_entries-IsSieve = (
  record {
    chain = (refl, refl, (refl, refl, tt));
    distinct = ((refl, tt), (tt, tt));
    head = refl;
    tail = refl;
    len = refl;
  },
  tt,
)

evict_bounded-Evicts_example : Evicts two_entries (1 ∷ 2 ∷ []) (evict_bounded (pos 8) two_entries)
evict_bounded-Evicts_example =
    Progress.evict_bounded-Evicts (pos 8) two_entries (1 ∷ 2 ∷ []) two_entries-IsSieve

few_visited : visited_count two_entries.heap (1 ∷ 2 ∷ []) < 8
unfolding visited_count
few_visited = omega arith

evict_bounded-is_some_example : is_some (evict_bounded (pos 8) two_entries).0 ≡ true
evict_bounded-is_some_example =
    Progress.evict_bounded-is_some 8 two_entries (1 ∷ 2 ∷ []) two_entries-IsSieve (omega arith)
      few_visited

access_remove_clear-IsSieve_example :
    IsSieve (access 30 none 3 two_entries).2 (accessed none 3 (1 ∷ 2 ∷ []))
    × IsSieve (remove_entry 2 two_entries) (1 ∷ [])
    × IsSieve (clear two_entries) []
    × ((clear_loop two_entries.len two_entries).head ≡ none)
access_remove_clear-IsSieve_example =
    Accesses.access_remove_clear-IsSieve two_entries (1 ∷ []) 2 [] 30 none 3 (refl, (refl, tt))
      two_entries-IsSieve

evict_any-Evicts_example :
    Evicts two_entries (1 ∷ 2 ∷ []) (evict_any two_entries)
    × (is_some (evict_any two_entries).0 ≡ true)
evict_any-Evicts_example =
    Chances.evict_any-Evicts two_entries (1 ∷ 2 ∷ []) two_entries-IsSieve (omega arith)
      (omega arith, (omega arith, tt))
