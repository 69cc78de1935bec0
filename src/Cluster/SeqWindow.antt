-- ===== src/Cluster/SeqWindow.antt =====
-- internal/cluster/seqtracker.go: the window of the numbers seen from one issuer. The bit `i % 8` of
-- the byte `i / 8` of the bitmap is the slot `i`. The loop of slideTo counts in a uint64 and runs on
-- fuel; `none` is a loop that is not done.
use bouine.Prelude.{
  ℕ, zero, suc, ◌+◌, ◌-◌, ◌%◌, ◌^◌, Bool, true, false, Option, none, some, ltb, leb, ◌==◌,
  if◌then◌else◌,
}

abbrev pub seq_dedup_window : ℕ
seq_dedup_window = 4096

pub record SeqWindow : Type 0 where
  pub high : ℕ
  pub bits : ℕ → Bool

unfoldable pub slot_has : (ℕ → Bool) → ℕ → Bool
slot_has bits seq = bits (seq % seq_dedup_window)

unfoldable pub mark : (ℕ → Bool) → ℕ → ℕ → Bool
mark bits seq i = if i == seq % seq_dedup_window then true else bits i

unfoldable pub unmark : (ℕ → Bool) → ℕ → ℕ → Bool
unmark bits seq i = if i == seq % seq_dedup_window then false else bits i

-- `for s := w.high + 1; s <= seq; s++ { w.unmark(s) }`
unfoldable pub unmark_loop : ℕ → ℕ → ℕ → (ℕ → Bool) → Option (ℕ → Bool)
unmark_loop zero s seq bits = none
unmark_loop (suc fuel) s seq bits =
    let rest = unmark_loop fuel ((s + 1) % 2 ^ 64) seq (unmark bits s) in
    if leb s seq then rest else some bits

unfoldable pub slide_to : SeqWindow → ℕ → Option (ℕ → Bool)
slide_to w seq =
    if leb seq_dedup_window (seq - w.high)
    then some (λ i. false)
    else unmark_loop (seq_dedup_window + 1) ((w.high + 1) % 2 ^ 64) seq w.bits

-- The slide of recordLocked, then the mark of the number that is the new high.
unfoldable pub mark_high : ℕ → Option (ℕ → Bool) → Option (Bool × SeqWindow)
mark_high seq none = none
mark_high seq (some bits) = some (false, record { high = seq; bits = mark bits seq })

-- recordLocked on the window of a known issuer: whether the number is a duplicate, and the window.
unfoldable pub record_seq : SeqWindow → ℕ → Option (Bool × SeqWindow)
record_seq w seq =
    if ltb w.high seq
    then mark_high seq (slide_to w seq)
    else if leb seq_dedup_window (w.high - seq)
    then some (true, w)
    else if slot_has w.bits seq
    then some (true, w)
    else some (false, record w { bits = mark w.bits seq })

-- recordLocked for an issuer that has no window.
unfoldable pub new_window : ℕ → SeqWindow
new_window seq = record { high = seq; bits = mark (λ i. false) seq }
