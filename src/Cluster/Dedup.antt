-- ===== src/Cluster/Dedup.antt =====
-- What the window of internal/cluster/seqtracker.go knows of the numbers that it let through.
use bouine.Prelude.{
  ℕ, zero, suc, ◌+◌, ◌-◌, ◌%◌, ◌^◌, ◌≤◌, ◌<◌, ◌≡◌, refl, sym, ◌⊎◌, inl, inr, ◌≢◌, Bool, true, false,
  ◌||◌, none, some, arith, ltb, leb, ◌==◌, if◌then◌else◌, Bool-cases,
}
use bouine.Cluster.SeqWindow.{
  SeqWindow, seq_dedup_window, slot_has, mark, unmark, unmark_loop, slide_to, mark_high, record_seq,
  new_window,
}

-- The loop without its test: `n` slots from `s` on are cleared.
clear_range : (ℕ → Bool) → ℕ → ℕ → ℕ → Bool
clear_range bits s zero = bits
clear_range bits s (suc n) = clear_range (unmark bits s) (s + 1) n

clear_range-false : (n s i : ℕ) (bits : ℕ → Bool) → bits i ≡ false → clear_range bits s n i ≡ false
unfolding clear_range unmark
clear_range-false zero s i bits h = h
clear_range-false (suc n) s i bits h =
    clear_range-false n (s + 1) i (unmark bits s) (ground (arith, h))

clear_range_covered :
    (n s t : ℕ) (bits : ℕ → Bool) → s ≤ t → t < s + n → clear_range bits s n (t % 4096) ≡ false
unfolding clear_range
clear_range_covered zero s t bits h k = absurd (omega arith)
clear_range_covered (suc n) s t bits h k = elim (Bool-cases (t == s)) [
  | inl e ↦
      clear_range-false n (s + 1) (t % 4096) (unmark bits s) (unfold unmark in ground (arith, e))
  | inr e ↦ clear_range_covered n (s + 1) t (unmark bits s) (ground (arith, e, h)) (omega arith)
]

clear_range_below :
    (n s t : ℕ) (bits : ℕ → Bool)
    → t < s
    → s + n ≤ t + 4096
    → clear_range bits s n (t % 4096) ≡ bits (t % 4096)
unfolding clear_range
clear_range_below zero s t bits h k = refl
clear_range_below (suc n) s t bits h k =
    let other : (t % 4096 == s % 4096) ≡ false = ground (arith, h, k) in
    rw (clear_range_below n (s + 1) t (unmark bits s) (omega arith) (omega arith))
      (unfold unmark in rw other refl)

-- With fuel for the numbers from `s` to `seq` the loop ends, unless `seq` is the last uint64.
unmark_loop-clear_range :
    (n fuel s seq : ℕ) (bits : ℕ → Bool)
    → s + n ≡ seq + 1
    → n < fuel
    → seq < 2 ^ 64 - 1
    → unmark_loop fuel s seq bits ≡ some (clear_range bits s n)
unfolding unmark_loop clear_range
unmark_loop-clear_range n zero s seq bits h k top = absurd (omega arith)
unmark_loop-clear_range zero (suc fuel) s seq bits h k top =
    let done : leb s seq ≡ false = ground (arith, h) in rw done refl
unmark_loop-clear_range (suc n) (suc fuel) s seq bits h k top =
    let go : leb s seq ≡ true = ground (arith, h) in
    let small : (s + 1) % 2 ^ 64 ≡ s + 1 = omega arith in
    rw (go, small)
      (unmark_loop-clear_range n fuel (s + 1) seq (unmark bits s) (omega arith) (omega arith) top)

-- The loop that clears the slots up to the last uint64 does not end: after it the counter is 0.
pub unmark_loop-diverges :
    (fuel s : ℕ) (bits : ℕ → Bool) → s < 2 ^ 64 → unmark_loop fuel s (2 ^ 64 - 1) bits ≡ none
unfolding unmark_loop
unmark_loop-diverges zero s bits h = refl
unmark_loop-diverges (suc fuel) s bits h =
    let go : leb s (2 ^ 64 - 1) ≡ true = ground (arith, h) in
    rw go (unmark_loop-diverges fuel ((s + 1) % 2 ^ 64) (unmark bits s) (omega arith))

-- The window agrees with the numbers that were let through: none is above its high, and within the
-- last 4096 a slot is set exactly for those.
pub record Tracks (w : SeqWindow) (seen : ℕ → Bool) : Type 0 where
  pub high_is_uint64 : w.high < 2 ^ 64
  pub below : (s : ℕ) → seen s ≡ true → s ≤ w.high
  pub slots : (s : ℕ) → s ≤ w.high → w.high < s + 4096 → w.bits (s % 4096) ≡ seen s

abbrev pub adding : ℕ → (ℕ → Bool) → ℕ → Bool
adding seq seen s = s == seq || seen s

not_seen : {w : SeqWindow} {seen : ℕ → Bool} (s : ℕ) → Tracks w seen → w.high < s → seen s ≡ false
not_seen {seen = seen} s t above = elim (Bool-cases (seen s)) [
  | inl e ↦ absurd (omega (arith, t.below s e, above))
  | inr e ↦ e
]

marked-Tracks :
    (bits : ℕ → Bool) (high seq : ℕ) (seen : ℕ → Bool)
    → seq ≤ high
    → high < 2 ^ 64
    → high < seq + 4096
    → ((s : ℕ) → seen s ≡ true → s ≤ high)
    → ((s : ℕ) → s ≤ high → high < s + 4096 → s ≢ seq → bits (s % 4096) ≡ seen s)
    → Tracks (record { high = high; bits = mark bits seq }) (adding seq seen)
unfolding mark
marked-Tracks bits high seq seen le top near below slots = record {
  high_is_uint64 = top;
  below = λ s e. ground (arith, e, below s, le);
  slots = λ s h k. elim (Bool-cases (s == seq)) [
    | inl e ↦ ground (arith, e)
    | inr e ↦ ground (arith, e, h, k, slots s h k (ground (arith, e)))
  ];
}

slot_after :
    (w : SeqWindow) (seen : ℕ → Bool) (seq s : ℕ)
    → Tracks w seen
    → w.high < seq
    → s ≤ seq
    → seq < s + 4096
    → clear_range w.bits (w.high + 1) (seq - w.high) (s % 4096) ≡ seen s
slot_after w seen seq s t above h k = elim (Bool-cases (ltb w.high s)) [
  | inl new ↦
      rw
        (
          clear_range_covered (seq - w.high) (w.high + 1) s w.bits (ground (arith, new))
              (omega arith),
          not_seen s t (ground (arith, new)),
        )
        refl
  | inr old ↦
      let le : s ≤ w.high = ground (arith, old) in
      rw (clear_range_below (seq - w.high) (w.high + 1) s w.bits (omega arith) (omega arith))
        (t.slots s le (omega arith))
]

slide_to_slots :
    (w : SeqWindow) (seen : ℕ → Bool) (seq : ℕ)
    → Tracks w seen
    → w.high < seq
    → seq < 2 ^ 64 - 1
    → (bits : ℕ → Bool) × (slide_to w seq ≡ some bits)
      × ((s : ℕ) → s ≤ seq → seq < s + 4096 → s ≢ seq → bits (s % 4096) ≡ seen s)
unfolding slide_to
slide_to_slots w seen seq t above top = elim (Bool-cases (leb 4096 (seq - w.high))) [
  | inl far ↦
      ((λ i. false), rw far refl, λ s h k ne. sym (not_seen s t (ground (arith, far, h, k))))
  | inr near ↦
      let n : ℕ = seq - w.high in
      let start : (w.high + 1) % 2 ^ 64 ≡ w.high + 1 = omega arith in
      (
        clear_range w.bits (w.high + 1) n,
        rw (near, start)
            (unmark_loop-clear_range n 4097 (w.high + 1) seq w.bits (omega arith)
              (ground (arith, near)) top),
        λ s h k ne. slot_after w seen seq s t above h k,
      )
]

-- A window that agrees with the numbers let through goes on to agree with them. A number below the
-- last uint64 is let through only if it was not before, and then counts as let through; it is
-- dropped, and the window left as it is, only if it was let through before or is 4096 or more below
-- the highest.
pub record_seq-Tracks :
    (w : SeqWindow) (seen : ℕ → Bool) (seq : ℕ)
    → Tracks w seen
    → seq < 2 ^ 64 - 1
    → ((w' : SeqWindow) × (record_seq w seq ≡ some (false, w'))
        × (seen seq ≡ false)
        × Tracks w' (adding seq seen))
      ⊎ ((record_seq w seq ≡ some (true, w)) × ((seen seq ≡ true) ⊎ (seq + 4096 ≤ w.high)))
unfolding record_seq mark_high slot_has
record_seq-Tracks w seen seq t top = elim (Bool-cases (ltb w.high seq)) [
  | inl above ↦
      let (bits, slid, slots) = slide_to_slots w seen seq t (ground (arith, above)) top in
      inl (
        record { high = seq; bits = mark bits seq },
        rw (above, slid) refl,
        not_seen seq t (ground (arith, above)),
        marked-Tracks bits seq seq seen (omega arith) (omega arith) (omega arith)
            (λ s e. ground (arith, t.below s e, above)) slots,
      )
  | inr below ↦ elim (Bool-cases (leb 4096 (w.high - seq))) [
    | inl old ↦ inr (rw (below, old) refl, inr (ground (arith, old)))
    | inr near ↦
        let le : seq ≤ w.high = ground (arith, below) in
        let close : w.high < seq + 4096 = ground (arith, near) in
        elim (Bool-cases (w.bits (seq % 4096))) [
          | inl set ↦ inr (rw (below, near, set) refl, inl (sym (rw set at (t.slots seq le close))))
          | inr clear ↦ inl (
            record { high = w.high; bits = mark w.bits seq },
            rw (below, near, clear) refl,
            sym (rw clear at (t.slots seq le close)),
            marked-Tracks w.bits w.high seq seen le t.high_is_uint64 close t.below
                (λ s h k ne. t.slots s h k),
          )
        ]
  ]
]

-- The window of an issuer that has none yet agrees with the one number that made it.
pub new_window-Tracks : (seq : ℕ) → seq < 2 ^ 64 → Tracks (new_window seq) (adding seq (λ s. false))
unfolding new_window
new_window-Tracks seq top =
    marked-Tracks (λ i. false) seq seq (λ s. false) (omega arith) top (omega arith)
      (λ s e. ground (arith, e)) (λ s h k ne. refl)

known :
    (w : SeqWindow) (seq : ℕ)
    → (r : Bool × SeqWindow) × ((if leb seq_dedup_window (w.high - seq)
          then some (true, w)
          else if slot_has w.bits seq
          then some (true, w)
          else some (false, record w { bits = mark w.bits seq }))
        ≡ some r)
known w seq = elim (Bool-cases (leb 4096 (w.high - seq))) [
  | inl e ↦ ((true, w), rw e refl)
  | inr e ↦ elim (Bool-cases (slot_has w.bits seq)) [
    | inl e' ↦ ((true, w), rw (e, e') refl)
    | inr e' ↦ ((false, record w { bits = mark w.bits seq }), rw (e, e') refl)
  ]
]

pub record_seq-returns :
    (w : SeqWindow) (seq : ℕ)
    → w.high < 2 ^ 64
    → seq < 2 ^ 64 - 1
    → (r : Bool × SeqWindow) × (record_seq w seq ≡ some r)
unfolding record_seq mark_high slide_to
record_seq-returns w seq small top = elim (Bool-cases (ltb w.high seq)) [
  | inl above ↦ elim (Bool-cases (leb 4096 (seq - w.high))) [
    | inl far ↦ ((false, record { high = seq; bits = mark (λ i. false) seq }), rw (above, far) refl)
    | inr near ↦
        let n : ℕ = seq - w.high in
        let start : (w.high + 1) % 2 ^ 64 ≡ w.high + 1 = ground (arith, above) in
        let ends : unmark_loop 4097 (w.high + 1) seq w.bits
            ≡ some (clear_range w.bits (w.high + 1) n) =
          unmark_loop-clear_range n 4097 (w.high + 1) seq w.bits (ground (arith, above))
            (ground (arith, near)) top in
        (
          (false, record { high = seq; bits = mark (clear_range w.bits (w.high + 1) n) seq }),
          rw (above, near, start, ends) refl,
        )
  ]
  | inr below ↦ rw below (known w seq)
]
