-- ===== src/Cluster/Issuers.antt =====
-- What holds of the issuers that internal/cluster/seqtracker.go tracks.
use bouine.Prelude.{
  ℕ, suc, ◌-◌, ◌≤◌, ◌<◌, ◌^◌, ◌≡◌, refl, sym, ◌⊎◌, inl, inr, Bool, true, false, [], ◌∷◌, none, some,
  arith, ltb, length, Bool-cases,
}
use mathlib.Core.Path.{subst}
use bouine.Prelude.Bytes.{Bytes, eq_bytes, eq_bytes_refl, is_empty}
use bouine.Prelude.Int.{ℤ}
use bouine.Api.Object.{before}
use bouine.Cluster.SeqWindow.{SeqWindow, new_window}
use bouine.Cluster.Dedup.{record_seq-returns}
use bouine.Cluster.SeqTracker.{
  Issuer, SeqTracker, find_issuer, forget, remember, is_expired, drop_expired, oldest, drop_oldest,
  prune, store_window, record_locked, prune_full, seen,
}

length-forget : (name : Bytes) (t : SeqTracker) → length (forget name t) ≤ length t
unfolding forget
length-forget name [] = omega arith
length-forget name (i ∷ t) = ground (arith, length-forget name t)

length-remember : (new : Issuer) (t : SeqTracker) → length (remember new t) ≤ suc (length t)
unfolding remember
length-remember new [] = omega arith
length-remember new (i ∷ t) = ground (arith, length-remember new t)

length-drop_expired : (now : ℤ) (t : SeqTracker) → length (drop_expired now t) ≤ length t
unfolding drop_expired
length-drop_expired now [] = omega arith
length-drop_expired now (i ∷ t) = ground (arith, length-drop_expired now t)

abbrev Among : Issuer → SeqTracker → Type 0
Among x [] = ⊥
Among x (i ∷ t) = (x ≡ i) ⊎ Among x t

forget-Among : (x : Issuer) (t : SeqTracker) → Among x t → length (forget x.name t) < length t
unfolding forget
forget-Among x [] h = absurd h
forget-Among x (i ∷ t) (inl e) = ground (arith, e, eq_bytes_refl i.name, length-forget x.name t)
forget-Among x (i ∷ t) (inr h) = ground (arith, forget-Among x t h, length-forget x.name t)

oldest_step :
    (best i : Issuer) (t : SeqTracker)
    → (oldest best (i ∷ t) ≡ oldest i t) ⊎ (oldest best (i ∷ t) ≡ oldest best t)
unfolding oldest
oldest_step best i t = elim (Bool-cases (before i.last_seen best.last_seen)) [
  | inl e ↦ inl (rw e refl)
  | inr e ↦ inr (rw e refl)
]

oldest_nil : (best : Issuer) → oldest best [] ≡ best
unfolding oldest
oldest_nil best = refl

Among-by : {x y : Issuer} (l : SeqTracker) → y ≡ x → Among y l → Among x l
Among-by l e h = subst (λ z. Among z l) e h

oldest-Among : (best : Issuer) (t : SeqTracker) → Among (oldest best t) (best ∷ t)
oldest-Among best [] = inl (oldest_nil best)
oldest-Among best (i ∷ t) = elim (oldest_step best i t) [
  | inl e ↦ Among-by (best ∷ i ∷ t) (sym e) (inr (oldest-Among i t))
  | inr e ↦
      Among-by (best ∷ i ∷ t) (sym e)
        (elim (oldest-Among best t) [ inl h ↦ inl h | inr h ↦ inr (inr h) ])
]

length-drop_oldest : (t : SeqTracker) → length (drop_oldest t) ≤ length t - 1
unfolding drop_oldest
length-drop_oldest [] = omega arith
length-drop_oldest (i ∷ t) = omega (arith, forget-Among (oldest i t) (i ∷ t) (oldest-Among i t))

length-prune : (t : SeqTracker) (now : ℤ) → length (prune t now) ≤ length t - 1
unfolding prune
length-prune t now =
    ground (arith, length-drop_expired now t, length-drop_oldest (drop_expired now t))

-- The windows hold uint64 numbers.
abbrev pub AllHigh : SeqTracker → Type 0
AllHigh [] = Unit
AllHigh (i ∷ t) = (i.window.high < 2 ^ 64) × AllHigh t

find_issuer_high :
    (name : Bytes) (t : SeqTracker)
    → AllHigh t
    → (find_issuer name t ≡ none)
      ⊎ ((i : Issuer) × (find_issuer name t ≡ some i) × (i.window.high < 2 ^ 64))
unfolding find_issuer
find_issuer_high name [] h = inl refl
find_issuer_high name (i ∷ t) h = elim (Bool-cases (eq_bytes i.name name)) [
  | inl e ↦ inr (i, rw e refl, h.0)
  | inr e ↦ rw e (find_issuer_high name t h.1)
]

store_window_bound :
    (t : SeqTracker) (name : Bytes) (now : ℤ) (r : Bool × SeqWindow)
    → (s : Bool × SeqTracker) × (store_window t name now (some r) ≡ some s)
      × (length s.1 ≤ suc (length t))
unfolding store_window
store_window_bound t name now (true, w) = ((true, t), refl, omega arith)
store_window_bound t name now (false, w) =
    let new : Issuer = record { name = name; window = w; last_seen = now } in
    ((false, remember new t), refl, length-remember new t)

record_locked_bound :
    (t : SeqTracker) (name : Bytes) (seq : ℕ) (now : ℤ)
    → AllHigh t
    → seq < 2 ^ 64 - 1
    → (s : Bool × SeqTracker) × (record_locked t name seq now (find_issuer name t) ≡ some s)
      × (length s.1 ≤ suc (length t))
unfolding record_locked
record_locked_bound t name seq now high top =
    let new : Issuer = record { name = name; window = new_window seq; last_seen = now } in
    elim (find_issuer_high name t high) [
      | inl e ↦ ((false, remember new t), rw e refl, length-remember new t)
      | inr (i, e, small) ↦ elim (Bool-cases (is_expired now i)) [
        | inl old ↦ (
          (false, remember new (forget name t)),
          rw (e, old) refl,
          omega (arith, length-remember new (forget name t), length-forget name t),
        )
        | inr live ↦
            let (r, recorded) = record_seq-returns i.window seq small top in
            rw (e, live, recorded) (store_window_bound t name now r)
      ]
    ]

prune_full_bound :
    (now : ℤ) (s : Bool × SeqTracker)
    → length s.1 ≤ 257
    → (r : Bool × SeqTracker) × (prune_full now (some s) ≡ some r) × (length r.1 ≤ 256)
unfolding prune_full
prune_full_bound now (dup, t) h = elim (Bool-cases (ltb 256 (length t))) [
  | inl full ↦ ((dup, prune t now), rw full refl, omega (arith, length-prune t now, h))
  | inr room ↦ ((dup, t), rw room refl, ground (arith, room))
]

-- The tracker answers for every number below the last uint64, and never holds more than 256
-- issuers: from at most 256, an event leaves at most 256, whoever it says that it is from.
pub length-seen :
    (t : SeqTracker) (name : Bytes) (seq : ℕ) (now : ℤ)
    → AllHigh t
    → seq < 2 ^ 64 - 1
    → length t ≤ 256
    → (r : Bool × SeqTracker) × (seen t name seq now ≡ some r) × (length r.1 ≤ 256)
unfolding seen
length-seen t name seq now high top small = elim (Bool-cases (is_empty name)) [
  | inl e ↦ ((false, t), rw e refl, small)
  | inr e ↦
      let (s, locked, grown) = record_locked_bound t name seq now high top in
      rw (e, locked) (prune_full_bound now s (omega arith))
]
