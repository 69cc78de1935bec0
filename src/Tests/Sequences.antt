-- ===== src/Tests/Sequences.antt =====
-- internal/cluster/seqtracker.go at concrete numbers.
use bouine.Prelude.{
  ℕ, ◌+◌, ◌-◌, ◌≤◌, ◌^◌, ◌≡◌, ◌⊎◌, Bool, true, false, [], ◌∷◌, none, some, arith, length,
}
use bouine.Prelude.Bytes.{codes}
use bouine.Prelude.Int.{pos}
use bouine.Cluster.SeqWindow.{SeqWindow, record_seq, new_window, unmark_loop}
use bouine.Cluster.Dedup
use bouine.Cluster.Dedup.{Tracks, adding}
use bouine.Cluster.SeqTracker.{SeqTracker, seen}
use bouine.Cluster.Issuers

abbrev none_seen : ℕ → Bool
none_seen s = false

-- Number 41 was seen, and 40 comes after it.
record_seq-Tracks_example :
    ((w' : SeqWindow) × (record_seq (new_window 41) 40 ≡ some (false, w'))
      × (adding 41 none_seen 40 ≡ false)
      × Tracks w' (adding 40 (adding 41 none_seen)))
    ⊎ ((record_seq (new_window 41) 40 ≡ some (true, new_window 41))
        × ((adding 41 none_seen 40 ≡ true) ⊎ (40 + 4096 ≤ (new_window 41).high)))
record_seq-Tracks_example =
    Dedup.record_seq-Tracks (new_window 41) (adding 41 none_seen) 40
      (Dedup.new_window-Tracks 41 (omega arith)) (omega arith)

unmark_loop-diverges_example : unmark_loop 9 (2 ^ 64 - 2) (2 ^ 64 - 1) none_seen ≡ none
unmark_loop-diverges_example = Dedup.unmark_loop-diverges 9 (2 ^ 64 - 2) none_seen (omega arith)

abbrev tracker : SeqTracker
tracker =
    record {
      name = codes "bouine-0";
      window = record { high = 7; bits = none_seen };
      last_seen = pos 5;
    }
    ∷ []

length-seen_example :
    (r : Bool × SeqTracker) × (seen tracker (codes "bouine-1") 8 (pos 9) ≡ some r)
    × (length r.1 ≤ 256)
length-seen_example =
    Issuers.length-seen tracker (codes "bouine-1") 8 (pos 9) (omega arith, tt) (omega arith)
      (omega arith)
