-- ===== src/Storage/Sieve/Evictions.antt =====
-- internal/storage/sieve/sieve.go: EvictBounded takes one entry out of the list, or none.
use bouine.Prelude.{
  ℕ, zero, suc, ◌≡◌, inl, inr, refl, sym, ap, ◌∙◌, true, false, List, ◌∷◌, ◌++◌, Option, none, some,
  ◌==◌, arith, Bool-cases, Option-cases,
}
use mathlib.Core.Path.{subst}
use bouine.Storage.Sieve.{
  set_visited, Entry, SieveList, update, or_else, bypass_prev, bypass_next, detach, remove, pass_by,
  evict, sweep, set_prev, set_next,
}
use bouine.Storage.Sieve.Chains.{last_or}
use bouine.Storage.Sieve.Links.{
  Holds, remove-Holds, bypass_prev-some, bypass_prev-none, bypass_next-some, bypass_next-none,
}
use bouine.Storage.Sieve.Sweeps.{
  HandIn, HandIn-append, last_or-HandIn, IsSieve, SameLinks, or_else-HandIn, touch_keeps, prev_of,
  pass_by-IsSieve,
}

module _ {K : Type 0} where
  pub update_key :
      (h : ℕ → Entry K) (a : ℕ) (e : Entry K) (x : ℕ)
      → e.key ≡ (h a).key
      → (update h a e x).key ≡ (h x).key
  unfolding update
  update_key h a e x k = elim (Bool-cases (x == a)) [
    | inl is ↦ rw is (k ∙ ap (λ t. (h t).key) (ground (arith, is)))
    | inr other ↦ rw other refl
  ]

  pub set_next_key :
      (h : ℕ → Entry K) (a : ℕ) (n : Option ℕ) (x : ℕ) → (set_next a n h x).key ≡ (h x).key
  unfolding set_next
  set_next_key h a n x = update_key h a _ x refl

  pub set_prev_key :
      (h : ℕ → Entry K) (a : ℕ) (p : Option ℕ) (x : ℕ) → (set_prev a p h x).key ≡ (h x).key
  unfolding set_prev
  set_prev_key h a p x = update_key h a _ x refl

  -- A removal changes no key, and does not move the hand.
  bypass_prev_key :
      (e : ℕ) (l : SieveList K) (x : ℕ)
      → (((bypass_prev e l).heap x).key ≡ (l.heap x).key) × ((bypass_prev e l).hand ≡ l.hand)
  bypass_prev_key e l x = elim (Option-cases (l.heap e).prev) [
    | inl h ↦ rw (bypass_prev-none e l h) (refl, refl)
    | inr (a, h) ↦ rw (bypass_prev-some e l a h) (set_next_key l.heap a (l.heap e).next x, refl)
  ]

  bypass_next_key :
      (e : ℕ) (l : SieveList K) (x : ℕ)
      → (((bypass_next e l).heap x).key ≡ (l.heap x).key) × ((bypass_next e l).hand ≡ l.hand)
  bypass_next_key e l x = elim (Option-cases (l.heap e).next) [
    | inl h ↦ rw (bypass_next-none e l h) (refl, refl)
    | inr (a, h) ↦ rw (bypass_next-some e l a h) (set_prev_key l.heap a (l.heap e).prev x, refl)
  ]

  pub remove_keeps :
      (e : ℕ) (l : SieveList K) (x : ℕ)
      → (((remove e l).heap x).key ≡ (l.heap x).key) × ((remove e l).hand ≡ l.hand)
  unfolding remove detach
  remove_keeps e l x =
      let l1 = bypass_prev e l in
      let l2 = bypass_next e l1 in
      let (k1, h1) = bypass_prev_key e l x in
      let (k2, h2) = bypass_next_key e l1 x in
      (
        set_next_key (set_prev e none l2.heap) e none x
            ∙ (set_prev_key l2.heap e none x ∙ (k2 ∙ k1)),
        h2 ∙ h1,
      )

  -- One entry of the list is gone, and its key is returned, or none is.
  unfoldable pub Evicts : SieveList K → List ℕ → Option K × SieveList K → Type 0
  Evicts l xs (none, l') = IsSieve l' xs
  Evicts l xs (some k, l') =
      (before : List ℕ) × (e : ℕ) × (behind : List ℕ) × (xs ≡ before ++ (e ∷ behind))
      × (k ≡ (l.heap e).key)
      × IsSieve l' (before ++ behind)

  pub evict-Evicts :
      (l : SieveList K) (xs : List ℕ) (e : ℕ) (ys : List ℕ)
      → Holds l (xs ++ (e ∷ ys))
      → Evicts l (xs ++ (e ∷ ys)) (evict e l)
  unfolding Evicts evict IsSieve
  evict-Evicts l xs e ys v =
      let moved : SieveList K = record l { hand = (l.heap e).prev } in
      let v' : Holds moved (xs ++ (e ∷ ys)) = record {
        chain = v.chain;
        distinct = v.distinct;
        head = v.head;
        tail = v.tail;
        len = v.len;
      } in
      let (key, hand) = remove_keeps e moved e in
      (
        xs,
        e,
        ys,
        refl,
        key,
        (
          remove-Holds e moved xs ys v',
          subst (λ p. HandIn p (xs ++ ys)) (sym (hand ∙ prev_of l xs e ys v))
              (HandIn-append (last_or none xs) xs ys (last_or-HandIn xs)),
        ),
      )

  pub Evicts-through :
      (l m : SieveList K) (xs : List ℕ) (r : Option K × SieveList K)
      → ((x : ℕ) → (m.heap x).key ≡ (l.heap x).key)
      → Evicts m xs r
      → Evicts l xs r
  unfolding Evicts
  Evicts-through l m xs (none, l') h v = v
  Evicts-through l m xs (some k, l') h (before, e, behind, is, key, v) =
      (before, e, behind, is, key ∙ h e, v)

  pub cursor-HandIn :
      (l : SieveList K) (xs : List ℕ) → IsSieve l xs → HandIn (or_else l.hand l.tail) xs
  unfolding IsSieve
  cursor-HandIn l xs (v, hand) =
      or_else-HandIn l.hand l.tail xs hand
        (subst (λ p. HandIn p xs) (sym v.tail) (last_or-HandIn xs))

  -- The three ways of a round.
  pub sweep-none :
      (n : ℕ) (l : SieveList K)
      → or_else l.hand l.tail ≡ none
      → sweep (suc n) l ≡ (none, record l { hand = l.tail })
  unfolding sweep
  sweep-none n l h = rw (h, sweep) refl

  pub sweep_visited :
      (n : ℕ) (l : SieveList K) (cur : ℕ)
      → or_else l.hand l.tail ≡ some cur
      → (l.heap cur).visited ≡ true
      → sweep (suc n) l ≡ sweep n (pass_by cur (record l { hand = some cur }))
  unfolding sweep
  sweep_visited n l cur h v = rw (h, sweep, v) refl

  pub sweep_unvisited :
      (n : ℕ) (l : SieveList K) (cur : ℕ)
      → or_else l.hand l.tail ≡ some cur
      → (l.heap cur).visited ≡ false
      → sweep (suc n) l ≡ evict cur (record l { hand = some cur })
  unfolding sweep
  sweep_unvisited n l cur h v = rw (h, sweep, v) refl

  pub with_hand :
      (l : SieveList K) (p : Option ℕ) (xs : List ℕ) → Holds l xs → Holds (record l { hand = p }) xs
  with_hand l p xs v = record {
    chain = v.chain;
    distinct = v.distinct;
    head = v.head;
    tail = v.tail;
    len = v.len;
  }

  -- Whatever the number of probes, a sweep leaves the list as it is, or without one entry, whose key
  -- it returns.
  pub sweep-Evicts :
      (n : ℕ) (l : SieveList K) (xs : List ℕ) → IsSieve l xs → Evicts l xs (sweep n l)
  unfolding Evicts IsSieve pass_by sweep SameLinks set_visited
  sweep-Evicts zero l xs v = v
  sweep-Evicts (suc n) l xs v = elim (Option-cases (or_else l.hand l.tail)) [
    | inl h ↦
        subst (λ r. Evicts l xs r) (sym (sweep-none n l h))
          (with_hand l l.tail xs v.0, subst (λ p. HandIn p xs) (sym v.0.tail) (last_or-HandIn xs))
    | inr (cur, h) ↦
        let (before, behind, is) = subst (λ p. HandIn p xs) h (cursor-HandIn l xs v) in
        let v' : Holds (record l { hand = some cur }) (before ++ (cur ∷ behind)) =
          with_hand l (some cur) (before ++ (cur ∷ behind)) (subst (λ t. Holds l t) is v.0) in
        elim (Bool-cases (l.heap cur).visited) [
          | inl seen ↦
              let l' = pass_by cur (record l { hand = some cur }) in
              subst (λ r. Evicts l xs r) (sym (sweep_visited n l cur h seen))
                (Evicts-through l l' xs (sweep n l')
                  (λ x.
                    (touch_keeps l.heap cur (record (l.heap cur) { visited = false }) x
                      (refl, refl, refl)).2)
                  (sweep-Evicts n l' xs (
                    subst (λ t. IsSieve l' t) (sym is)
                      (pass_by-IsSieve (record l { hand = some cur }) before cur behind v'))))
          | inr unseen ↦
              subst (λ r. Evicts l xs r) (sym (sweep_unvisited n l cur h unseen))
                (Evicts-through l (record l { hand = some cur }) xs
                  (evict cur (record l { hand = some cur })) (λ x. refl)
                  (subst
                    (λ t.
                      Evicts (record l { hand = some cur }) t
                        (evict cur (record l { hand = some cur })))
                    (sym is) (evict-Evicts (record l { hand = some cur }) before cur behind v')))
        ]
  ]
