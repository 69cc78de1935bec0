-- ===== src/Storage/Cachaner/Chances.antt =====
-- internal/storage/cachaner/cachaner.go: Evict takes an entry out of every list that has one.
use bouine.Prelude.{
  ℕ, zero, suc, ◌+◌, ◌-◌, ◌*◌, ◌≤◌, ◌<◌, ◌≡◌, ◌⊎◌, inl, inr, refl, sym, ap, ◌∙◌, true, false, ◌||◌,
  List, [], ◌∷◌, ◌++◌, some, ◌==◌, if◌then◌else◌, arith, length, Bool-cases, Option-cases,
}
use mathlib.Core.Path.{subst}
use bouine.Prelude.Int.{pos, leb_ℤ}
use bouine.Storage.Sieve.{Entry, SieveList, update, set_visited, or_else, pass_by, evict}
use bouine.Storage.Sieve.Chains.{NotIn, Distinct-middle, update_other, update_self}
use bouine.Storage.Sieve.Links.{Holds}
use bouine.Storage.Sieve.Sweeps.{HandIn, IsSieve, SameLinks, touch_keeps, touch-IsSieve}
use bouine.Storage.Sieve.Evictions.{Evicts, Evicts-through, evict-Evicts, cursor-HandIn, with_hand}
use bouine.Storage.Sieve.Progress.{is_some, has_cursor, cursor-IsSieve, evict_some}
use bouine.Storage.Cachaner.{set_io_bits, demote, sweep_freq, evict_bounded_freq, evict_any}

bits_left : (b : ℕ) → (b ≡ 0) ⊎ ((c : ℕ) × (b ≡ suc c))
bits_left zero = inl refl
bits_left (suc c) = inr (c, refl)

module _ {K : Type 0} where
  -- How often a sweep passes an entry by, and all entries of the list.
  weight : Entry K → ℕ
  weight e = (if e.visited then 1 else 0) + e.io_bits

  chances : (ℕ → Entry K) → List ℕ → ℕ
  chances h [] = 0
  chances h (x ∷ xs) = weight (h x) + chances h xs

  -- The counter of an entry has three bits.
  abbrev pub BitsFit : (ℕ → Entry K) → List ℕ → Type 0
  BitsFit h [] = Unit
  BitsFit h (x ∷ xs) = ((h x).io_bits ≤ 7) × BitsFit h xs

  chances-BitsFit : (h : ℕ → Entry K) (xs : List ℕ) → BitsFit h xs → chances h xs ≤ 8 * length xs
  unfolding chances weight
  chances-BitsFit h [] b = omega arith
  chances-BitsFit h (x ∷ xs) b = ground (arith, chances-BitsFit h xs b.1, b.0)

  chances-append :
      (h : ℕ → Entry K) (xs ys : List ℕ) → chances h (xs ++ ys) ≡ chances h xs + chances h ys
  unfolding chances
  chances-append h [] ys = omega arith
  chances-append h (x ∷ xs) ys = omega (arith, chances-append h xs ys)

  chances-NotIn :
      (h : ℕ → Entry K) (e : ℕ) (new : Entry K) (xs : List ℕ)
      → NotIn e xs
      → chances (update h e new) xs ≡ chances h xs
  unfolding chances
  chances-NotIn h e new [] d = refl
  chances-NotIn h e new (x ∷ xs) d =
      rw (update_other h e new x d.0, chances-NotIn h e new xs d.1) refl

  -- One chance of the entry under the hand is used up.
  chances-middle :
      (h : ℕ → Entry K) (xs : List ℕ) (e : ℕ) (ys : List ℕ) (new : Entry K)
      → NotIn e xs
      → NotIn e ys
      → suc (weight new) ≡ weight (h e)
      → suc (chances (update h e new) (xs ++ (e ∷ ys))) ≡ chances h (xs ++ (e ∷ ys))
  unfolding chances
  chances-middle h xs e ys new dx dy w =
      let h' = update h e new in
      let at_e : weight (h' e) ≡ weight new = ap weight (update_self h e new) in
      omega (
        arith,
        chances-append h' xs (e ∷ ys),
        chances-append h xs (e ∷ ys),
        chances-NotIn h e new xs dx,
        chances-NotIn h e new ys dy,
        at_e,
        w,
      )

  sweep_freq_visited :
      (n : ℕ) (l : SieveList K) (cur : ℕ)
      → or_else l.hand l.tail ≡ some cur
      → (l.heap cur).visited ≡ true
      → sweep_freq (suc n) l ≡ sweep_freq n (pass_by cur (record l { hand = some cur }))
  unfolding sweep_freq
  sweep_freq_visited n l cur h v = rw (h, sweep_freq, v) refl

  sweep_freq_demoted :
      (n : ℕ) (l : SieveList K) (cur bits : ℕ)
      → or_else l.hand l.tail ≡ some cur
      → (l.heap cur).visited ≡ false
      → (l.heap cur).io_bits ≡ suc bits
      → sweep_freq (suc n) l ≡ sweep_freq n (demote cur (record l { hand = some cur }))
  unfolding sweep_freq
  sweep_freq_demoted n l cur bits h v b = rw (h, sweep_freq, v, b) refl

  sweep_freq_cold :
      (n : ℕ) (l : SieveList K) (cur : ℕ)
      → or_else l.hand l.tail ≡ some cur
      → (l.heap cur).visited ≡ false
      → (l.heap cur).io_bits ≡ 0
      → sweep_freq (suc n) l ≡ evict cur (record l { hand = some cur })
  unfolding sweep_freq
  sweep_freq_cold n l cur h v b = rw (h, sweep_freq, v, b) refl

  -- What one round does with the entry under the hand: it is touched, and has a chance less, or it is
  -- evicted.
  Round : ℕ → SieveList K → ℕ → Type 0
  Round n l cur =
      ((new : Entry K) × SameLinks new (l.heap cur)
        × (suc (weight new) ≡ weight (l.heap cur))
        × (sweep_freq (suc n) l
            ≡ sweep_freq n (record l {
              heap = update l.heap cur new;
              hand = or_else (update l.heap cur new cur).prev l.tail;
            })))
      ⊎ (sweep_freq (suc n) l ≡ evict cur (record l { hand = some cur }))

  round : (n : ℕ) (l : SieveList K) (cur : ℕ) → or_else l.hand l.tail ≡ some cur → Round n l cur
  unfolding Round SameLinks weight pass_by set_visited demote set_io_bits
  round n l cur h = elim (Bool-cases (l.heap cur).visited) [
    | inl seen ↦ inl (
      record (l.heap cur) { visited = false },
      (refl, refl, refl),
      rw seen (omega arith),
      sweep_freq_visited n l cur h seen,
    )
    | inr unseen ↦ elim (bits_left (l.heap cur).io_bits) [
      | inl cold ↦ inr (sweep_freq_cold n l cur h unseen cold)
      | inr (bits, warm) ↦ inl (
        record (l.heap cur) { io_bits = (l.heap cur).io_bits - 1 },
        (refl, refl, refl),
        omega (arith, warm),
        sweep_freq_demoted n l cur bits h unseen warm,
      )
    ]
  ]

  -- What a sweep returns, and that it returns a key where the chances are fewer than the probes.
  sweep_freq_lem :
      (n : ℕ) (l : SieveList K) (xs : List ℕ)
      → IsSieve l xs
      → 1 ≤ length xs
      → Evicts l xs (sweep_freq n l) × ((chances l.heap xs < n) → is_some (sweep_freq n l).0 ≡ true)
  unfolding IsSieve Evicts Round sweep_freq SameLinks
  sweep_freq_lem zero l xs v one = (v, λ few. absurd (omega (arith, few)))
  sweep_freq_lem (suc n) l xs v one = elim (Option-cases (or_else l.hand l.tail)) [
    | inl h ↦ absurd (grind (arith, ap is_some h, has_cursor l xs v.0 one))
    | inr (cur, h) ↦
        let (before, behind, is) = subst (λ p. HandIn p xs) h (cursor-HandIn l xs v) in
        let held : Holds l (before ++ (cur ∷ behind)) = subst (λ t. Holds l t) is v.0 in
        let (dx, dy, rest) = Distinct-middle before cur behind held.distinct in
        elim (round n l cur h) [
          | inl (new, links, w, goes) ↦
              let next : SieveList K = record l {
                heap = update l.heap cur new;
                hand = or_else (update l.heap cur new cur).prev l.tail;
              } in
              let kept : IsSieve next xs =
                subst (λ t. IsSieve next t) (sym is)
                  (touch-IsSieve l before cur behind new links held) in
              let less : suc (chances next.heap xs) ≡ chances l.heap xs =
                subst (λ t. suc (chances next.heap t) ≡ chances l.heap t) (sym is)
                  (chances-middle l.heap before cur behind new dx dy w) in
              let (gone, some_gone) = sweep_freq_lem n next xs kept one in
              (
                subst (λ r. Evicts l xs r) (sym goes)
                    (Evicts-through l next xs (sweep_freq n next)
                      (λ x. (touch_keeps l.heap cur new x links).2) gone),
                λ few. ap (λ r. is_some r.0) goes ∙ some_gone (omega (arith, few, less)),
              )
          | inr cold ↦
              let l0 : SieveList K = record l { hand = some cur } in
              (
                subst (λ r. Evicts l xs r) (sym cold)
                    (Evicts-through l l0 xs (evict cur l0) (λ x. refl)
                      (subst (λ t. Evicts l0 t (evict cur l0)) (sym is)
                        (evict-Evicts l0 before cur behind
                          (with_hand l (some cur) (before ++ (cur ∷ behind)) held)))),
                λ few. ap (λ r. is_some r.0) cold ∙ evict_some cur l0,
              )
        ]
  ]

  evict_any_sweeps :
      (l : SieveList K)
      → 1 ≤ l.len
      → evict_any l ≡ sweep_freq (l.len * 9) (record l { hand = or_else l.hand l.tail })
  unfolding evict_any evict_bounded_freq
  evict_any_sweeps l some_len =
      let go : (l.len == 0 || leb_ℤ (pos (l.len * 9)) (pos 0)) ≡ false = ground arith in rw go refl

  -- Evict on a list that is not empty, whose counters have three bits, takes out one entry and returns
  -- its key, with the others in their order and the hand on one of them or on none: nine probes for
  -- each entry are enough.
  pub evict_any-Evicts :
      (l : SieveList K) (xs : List ℕ)
      → IsSieve l xs
      → 1 ≤ length xs
      → BitsFit l.heap xs
      → Evicts l xs (evict_any l) × (is_some (evict_any l).0 ≡ true)
  unfolding IsSieve Evicts
  evict_any-Evicts l xs v one b =
      let l0 : SieveList K = record l { hand = or_else l.hand l.tail } in
      let start = evict_any_sweeps l (omega (arith, v.0.len, one)) in
      let (gone, some_gone) = sweep_freq_lem (l.len * 9) l0 xs (cursor-IsSieve l xs v) one in
      (
        subst (λ r. Evicts l xs r) (sym start)
            (Evicts-through l l0 xs (sweep_freq (l.len * 9) l0) (λ x. refl) gone),
        ap (λ r. is_some r.0) start
            ∙ some_gone (omega (arith, v.0.len, one, chances-BitsFit l.heap xs b)),
      )
