-- ===== src/Cluster/SeqTracker.antt =====
-- internal/cluster/seqtracker.go: the issuers that are tracked. The maps `wins` and `lastSeen` always
-- have the same keys, so one list of entries is both, in the order in which a `range` over the maps
-- goes. `none` is a slide that does not end.
use bouine.Prelude.{
  ℕ, Bool, true, false, List, [], ◌∷◌, Option, none, some, ltb, ◌==◌, if◌then◌else◌, length,
}
use bouine.Prelude.Bytes.{Bytes, eq_bytes, is_empty}
use bouine.Prelude.Int.{ℤ, pos, ltb_ℤ}
use bouine.Api.Object.{sub_time, before}
use bouine.Cluster.SeqWindow.{SeqWindow, record_seq, new_window}

pub record Issuer : Type 0 where
  pub name : Bytes
  pub window : SeqWindow
  pub last_seen : ℤ

abbrev pub SeqTracker : Type 0
SeqTracker = List Issuer

-- An hour, in nanoseconds.
abbrev pub seq_tracker_ttl : ℤ
seq_tracker_ttl = pos 3600000000000

abbrev pub seq_trackers : ℕ
seq_trackers = 256

unfoldable pub find_issuer : Bytes → SeqTracker → Option Issuer
find_issuer name [] = none
find_issuer name (i ∷ t) = if eq_bytes i.name name then some i else find_issuer name t

-- `delete` on both maps.
unfoldable pub forget : Bytes → SeqTracker → SeqTracker
forget name [] = []
forget name (i ∷ t) = if eq_bytes i.name name then forget name t else i ∷ forget name t

-- An assignment to both maps.
unfoldable pub remember : Issuer → SeqTracker → SeqTracker
remember new [] = new ∷ []
remember new (i ∷ t) = if eq_bytes i.name new.name then new ∷ t else i ∷ remember new t

unfoldable pub is_expired : ℤ → Issuer → Bool
is_expired now i = ltb_ℤ seq_tracker_ttl (sub_time now i.last_seen)

-- The first loop of pruneLocked.
unfoldable pub drop_expired : ℤ → SeqTracker → SeqTracker
drop_expired now [] = []
drop_expired now (i ∷ t) = if is_expired now i then drop_expired now t else i ∷ drop_expired now t

-- The second loop: the issuer that was seen least recently, the first of several.
unfoldable pub oldest : Issuer → SeqTracker → Issuer
oldest best [] = best
oldest best (i ∷ t) = oldest (if before i.last_seen best.last_seen then i else best) t

unfoldable pub drop_oldest : SeqTracker → SeqTracker
drop_oldest [] = []
drop_oldest (i ∷ t) = forget (oldest i t).name (i ∷ t)

unfoldable pub prune : SeqTracker → ℤ → SeqTracker
prune t now =
    let live = drop_expired now t in if length live == length t then drop_oldest live else live

-- The window of a known issuer after a number: a duplicate leaves the maps alone.
unfoldable pub store_window :
    SeqTracker → Bytes → ℤ → Option (Bool × SeqWindow) → Option (Bool × SeqTracker)
store_window t name now none = none
store_window t name now (some (true, w)) = some (true, t)
store_window t name now (some (false, w)) =
    some (false, remember (record { name = name; window = w; last_seen = now }) t)

-- The steps of `seen` once the state of the issuer is looked up: an expired state is dropped first.
unfoldable pub record_locked :
    SeqTracker → Bytes → ℕ → ℤ → Option Issuer → Option (Bool × SeqTracker)
record_locked t name seq now none =
    some (false, remember (record { name = name; window = new_window seq; last_seen = now }) t)
record_locked t name seq now (some i) =
    if is_expired now i
    then some (
      false,
      remember (record { name = name; window = new_window seq; last_seen = now }) (forget name t),
    )
    else store_window t name now (record_seq i.window seq)

unfoldable pub prune_full : ℤ → Option (Bool × SeqTracker) → Option (Bool × SeqTracker)
prune_full now none = none
prune_full now (some (dup, t)) = some (dup, if ltb seq_trackers (length t) then prune t now else t)

unfoldable pub seen : SeqTracker → Bytes → ℕ → ℤ → Option (Bool × SeqTracker)
seen t name seq now =
    if is_empty name
    then some (false, t)
    else prune_full now (record_locked t name seq now (find_issuer name t))
