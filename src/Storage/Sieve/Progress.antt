-- ===== src/Storage/Sieve/Progress.antt =====
-- internal/storage/sieve/sieve.go: how many probes EvictBounded needs.
use bouine.Prelude.{
  ℕ, zero, suc, ◌+◌, ◌≤◌, ◌<◌, ◌≡◌, inl, inr, refl, sym, ap, ◌∙◌, Bool, true, false, ◌||◌, List, [],
  ◌∷◌, ◌++◌, Option, none, some, ◌==◌, if◌then◌else◌, arith, length, Bool-cases, Option-cases,
}
use mathlib.Core.Path.{subst}
use bouine.Prelude.Int.{ℤ, pos, pos_part, leb_ℤ}
use bouine.Storage.Sieve.{
  Entry, SieveList, set_visited, or_else, pass_by, evict, sweep, evict_bounded,
}
use bouine.Storage.Sieve.Chains.{last_or, NotIn, Distinct-middle, update_other, update_self}
use bouine.Storage.Sieve.Links.{Holds}
use bouine.Storage.Sieve.Sweeps.{HandIn, IsSieve, pass_by-IsSieve}
use bouine.Storage.Sieve.Evictions.{
  Evicts, sweep-Evicts, sweep_visited, sweep_unvisited, cursor-HandIn, with_hand,
}

abbrev pub is_some : {A : Type 0} → Option A → Bool
is_some none = false
is_some (some a) = true

last_or-is_some : (x : ℕ) (xs : List ℕ) → is_some (last_or (some x) xs) ≡ true
last_or-is_some x [] = refl
last_or-is_some x (y ∷ xs) = last_or-is_some y xs

or_else-is_some : (p q : Option ℕ) → is_some q ≡ true → is_some (or_else p q) ≡ true
or_else-is_some none q h = h
or_else-is_some (some a) q h = refl

module _ {K : Type 0} where
  -- The entries of the list that have their second chance left.
  unfoldable pub visited_count : (ℕ → Entry K) → List ℕ → ℕ
  visited_count h [] = 0
  visited_count h (x ∷ xs) = (if (h x).visited then 1 else 0) + visited_count h xs

  visited_count-append :
      (h : ℕ → Entry K) (xs ys : List ℕ)
      → visited_count h (xs ++ ys) ≡ visited_count h xs + visited_count h ys
  unfolding visited_count
  visited_count-append h [] ys = omega arith
  visited_count-append h (x ∷ xs) ys = omega (arith, visited_count-append h xs ys)

  visited_count-NotIn :
      (h : ℕ → Entry K) (e : ℕ) (v : Bool) (xs : List ℕ)
      → NotIn e xs
      → visited_count (set_visited e v h) xs ≡ visited_count h xs
  unfolding visited_count set_visited
  visited_count-NotIn h e v [] d = refl
  visited_count-NotIn h e v (x ∷ xs) d =
      rw (update_other h e (record (h e) { visited = v }) x d.0, visited_count-NotIn h e v xs d.1)
        refl

  visited_self : (h : ℕ → Entry K) (e : ℕ) → (set_visited e false h e).visited ≡ false
  unfolding set_visited
  visited_self h e = ap (λ t. t.visited) (update_self h e (record (h e) { visited = false }))

  -- A second chance that is used up.
  visited_count-middle :
      (h : ℕ → Entry K) (xs : List ℕ) (e : ℕ) (ys : List ℕ)
      → NotIn e xs
      → NotIn e ys
      → (h e).visited ≡ true
      → suc (visited_count (set_visited e false h) (xs ++ (e ∷ ys)))
        ≡ visited_count h (xs ++ (e ∷ ys))
  unfolding visited_count
  visited_count-middle h xs e ys dx dy seen =
      let h' = set_visited e false h in
      let cleared : (h' e).visited ≡ false = visited_self h e in
      let after : visited_count h' (e ∷ ys) ≡ visited_count h ys =
        rw cleared (omega (arith, visited_count-NotIn h e false ys dy)) in
      let here : visited_count h (e ∷ ys) ≡ suc (visited_count h ys) = rw seen (omega arith) in
      omega (
        arith,
        visited_count-append h' xs (e ∷ ys),
        visited_count-append h xs (e ∷ ys),
        visited_count-NotIn h e false xs dx,
        after,
        here,
      )

  pub evict_some : (e : ℕ) (l : SieveList K) → is_some (evict e l).0 ≡ true
  unfolding evict
  evict_some e l = refl

  pub has_cursor :
      (l : SieveList K) (xs : List ℕ)
      → Holds l xs
      → 1 ≤ length xs
      → is_some (or_else l.hand l.tail) ≡ true
  has_cursor l [] v one = absurd (omega arith)
  has_cursor l (x ∷ xs) v one =
      or_else-is_some l.hand l.tail (ap is_some v.tail ∙ last_or-is_some x xs)

  sweep_some :
      (n : ℕ) (l : SieveList K) (xs : List ℕ)
      → IsSieve l xs
      → 1 ≤ length xs
      → visited_count l.heap xs < n
      → is_some (sweep n l).0 ≡ true
  unfolding IsSieve pass_by
  sweep_some zero l xs v one few = absurd (omega arith)
  sweep_some (suc n) l xs v one few = elim (Option-cases (or_else l.hand l.tail)) [
    | inl h ↦ absurd (grind (arith, ap is_some h, has_cursor l xs v.0 one))
    | inr (cur, h) ↦
        let (before, behind, is) = subst (λ p. HandIn p xs) h (cursor-HandIn l xs v) in
        let l0 = record l { hand = some cur } in
        let held : Holds l (before ++ (cur ∷ behind)) = subst (λ t. Holds l t) is v.0 in
        let (dx, dy, rest) = Distinct-middle before cur behind held.distinct in
        elim (Bool-cases (l.heap cur).visited) [
          | inl seen ↦
              let fewer : suc (visited_count (set_visited cur false l.heap) xs)
                  ≡ visited_count l.heap xs =
                subst
                  (λ t.
                    suc (visited_count (set_visited cur false l.heap) t) ≡ visited_count l.heap t)
                  (sym is) (visited_count-middle l.heap before cur behind dx dy seen) in
              ap (λ r. is_some r.0) (sweep_visited n l cur h seen)
              ∙ sweep_some n (pass_by cur l0) xs
                  (subst (λ t. IsSieve (pass_by cur l0) t) (sym is)
                    (pass_by-IsSieve l0 before cur behind
                      (with_hand l (some cur) (before ++ (cur ∷ behind)) held)))
                  one (omega (arith, few, fewer))
          | inr unseen ↦
              ap (λ r. is_some r.0) (sweep_unvisited n l cur h unseen) ∙ evict_some cur l0
        ]
  ]

  evict_bounded_sweeps :
      (n : ℕ) (l : SieveList K)
      → 1 ≤ n
      → 1 ≤ l.len
      → evict_bounded (pos n) l ≡ sweep n (record l { hand = or_else l.hand l.tail })
  unfolding evict_bounded
  evict_bounded_sweeps n l one some_len =
      let go : (l.len == 0 || leb_ℤ (pos n) (pos 0)) ≡ false = ground arith in rw go refl

  pub cursor-IsSieve :
      (l : SieveList K) (xs : List ℕ)
      → IsSieve l xs
      → IsSieve (record l { hand = or_else l.hand l.tail }) xs
  unfolding IsSieve
  cursor-IsSieve l xs v = (with_hand l (or_else l.hand l.tail) xs v.0, cursor-HandIn l xs v)

  -- Whatever the bound, EvictBounded keeps the list whole: it either takes out one entry and returns
  -- its key, with the other entries in their order, or returns no key and takes out none; the hand
  -- stays on an entry of the list or on none.
  pub evict_bounded-Evicts :
      (max_probes : ℤ) (l : SieveList K) (xs : List ℕ)
      → IsSieve l xs
      → Evicts l xs (evict_bounded max_probes l)
  unfolding evict_bounded Evicts
  evict_bounded-Evicts max_probes l xs v =
      elim (Bool-cases (l.len == 0 || leb_ℤ max_probes (pos 0))) [
        | inl stop ↦ rw stop v
        | inr go ↦ rw go (
            sweep-Evicts (pos_part max_probes) (record l { hand = or_else l.hand l.tail }) xs
              (cursor-IsSieve l xs v))
      ]

  -- With more probes than the list has visited entries, EvictBounded evicts one of a list that is not
  -- empty.
  pub evict_bounded-is_some :
      (n : ℕ) (l : SieveList K) (xs : List ℕ)
      → IsSieve l xs
      → 1 ≤ length xs
      → visited_count l.heap xs < n
      → is_some (evict_bounded (pos n) l).0 ≡ true
  unfolding IsSieve
  evict_bounded-is_some n l xs v one few =
      ap (λ r. is_some r.0)
        (evict_bounded_sweeps n l (omega (arith, few)) (omega (arith, v.0.len, one)))
      ∙ sweep_some n (record l { hand = or_else l.hand l.tail }) xs (cursor-IsSieve l xs v) one few
