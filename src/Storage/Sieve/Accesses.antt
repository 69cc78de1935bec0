-- ===== src/Storage/Sieve/Accesses.antt =====
-- internal/storage/sieve/sieve.go: Access and Remove keep the list.
use bouine.Prelude.{
  ℕ, suc, ◌≡◌, ◌⊎◌, inl, inr, refl, sym, ap, ◌∙◌, true, false, List, [], ◌∷◌, ◌++◌, Option, none,
  some, ◌==◌, arith, length, Bool-cases,
}
use mathlib.Core.Path.{subst}
use bouine.Storage.Sieve.{
  set_visited, Entry, SieveList, update, eq_pointer, push_head, remove_entry, access, clear_loop,
  clear,
}
use bouine.Storage.Sieve.Chains.{Chain, first_or, last_or, NotIn, Chain-update}
use bouine.Storage.Sieve.Links.{Holds, push_head-Holds, remove-Holds}
use bouine.Storage.Sieve.Sweeps.{
  HandIn, HandIn-append, last_or-HandIn, IsSieve, touch-Chain, SameLinks, prev_of,
}
use bouine.Storage.Sieve.Evictions.{remove_keeps, with_hand}

abbrev first_is : List ℕ → ℕ → ℕ
first_is [] d = d
first_is (x ∷ xs) d = x

abbrev rest_of : List ℕ → List ℕ
rest_of [] = []
rest_of (x ∷ xs) = xs

HandIn-cases : (a x : ℕ) (xs : List ℕ) → HandIn (some a) (x ∷ xs) → (x ≡ a) ⊎ HandIn (some a) xs
HandIn-cases a x xs ([], behind, is) = inl (ap (λ l. first_is l a) is)
HandIn-cases a x xs (b ∷ before, behind, is) = inr (before, behind, ap rest_of is)

HandIn-cons : (p : Option ℕ) (x : ℕ) (xs : List ℕ) → HandIn p xs → HandIn p (x ∷ xs)
HandIn-cons none x xs h = tt
HandIn-cons (some a) x xs (before, behind, is) = (x ∷ before, behind, ap (λ t. x ∷ t) is)

-- A hand on another entry than the one that goes.
HandIn-other :
    (a e : ℕ) (xs ys : List ℕ)
    → (a == e) ≡ false
    → HandIn (some a) (xs ++ (e ∷ ys))
    → HandIn (some a) (xs ++ ys)
HandIn-other a e [] ys d h = elim (HandIn-cases a e ys h) [
  | inl is ↦ absurd (ground (arith, d, is))
  | inr k ↦ k
]
HandIn-other a e (x ∷ xs) ys d h = elim (HandIn-cases a x (xs ++ (e ∷ ys)) h) [
  | inl is ↦ ([], xs ++ ys, ap (λ t. t ∷ (xs ++ ys)) is)
  | inr k ↦ HandIn-cons (some a) x (xs ++ ys) (HandIn-other a e xs ys d k)
]

HandIn-pointer :
    (p : Option ℕ) (e : ℕ) (xs ys : List ℕ)
    → eq_pointer p (some e) ≡ false
    → HandIn p (xs ++ (e ∷ ys))
    → HandIn p (xs ++ ys)
HandIn-pointer none e xs ys d h = tt
HandIn-pointer (some a) e xs ys d h = HandIn-other a e xs ys d h

-- An entry that is looked up stays where it is; a new one, at an address outside the list, becomes
-- the head.
abbrev pub accessed : Option ℕ → ℕ → List ℕ → List ℕ
accessed none fresh xs = fresh ∷ xs
accessed (some e) fresh xs = xs

module _ {K : Type 0} where
  pub access-IsSieve :
      (key : K) (looked_up : Option ℕ) (fresh : ℕ) (l : SieveList K) (xs : List ℕ)
      → NotIn fresh xs
      → IsSieve l xs
      → IsSieve (access key looked_up fresh l).2 (accessed looked_up fresh xs)
  unfolding IsSieve access push_head set_visited SameLinks
  access-IsSieve key (some e) fresh l xs d (v, hand) = (
    record {
      chain =
          touch-Chain l.heap e (record (l.heap e) { visited = true }) none xs none
            (refl, refl, refl) v.chain;
      distinct = v.distinct;
      head = v.head;
      tail = v.tail;
      len = v.len;
    },
    hand,
  )
  access-IsSieve key none fresh l xs d (v, hand) =
      let new : Entry K = record {
        key = key;
        prev = none;
        next = none;
        visited = false;
        io_bits = 0;
      } in
      let l0 : SieveList K = record l { heap = update l.heap fresh new } in
      let v0 : Holds l0 xs = record {
        chain = Chain-update l.heap fresh new none xs none d v.chain;
        distinct = v.distinct;
        head = v.head;
        tail = v.tail;
        len = v.len;
      } in
      (push_head-Holds fresh l0 xs d v0, HandIn-cons l.hand fresh xs hand)

  pub remove_entry-IsSieve :
      (l : SieveList K) (xs : List ℕ) (e : ℕ) (ys : List ℕ)
      → IsSieve l (xs ++ (e ∷ ys))
      → IsSieve (remove_entry e l) (xs ++ ys)
  unfolding IsSieve remove_entry
  remove_entry-IsSieve l xs e ys (v, hand) = elim (Bool-cases (eq_pointer l.hand (some e))) [
    | inl at_hand ↦
        let moved : SieveList K = record l { hand = (l.heap e).prev } in
        rw at_hand (
          remove-Holds e moved xs ys (with_hand l (l.heap e).prev (xs ++ (e ∷ ys)) v),
          subst (λ p. HandIn p (xs ++ ys)) (sym ((remove_keeps e moved e).1 ∙ prev_of l xs e ys v))
              (HandIn-append (last_or none xs) xs ys (last_or-HandIn xs)),
        )
    | inr elsewhere ↦ rw elsewhere (
      remove-Holds e l xs ys v,
      subst (λ p. HandIn p (xs ++ ys)) (sym (remove_keeps e l e).1)
          (HandIn-pointer l.hand e xs ys elsewhere hand),
    )
  ]

  clear_loop_step :
      (n : ℕ) (l : SieveList K) (e : ℕ)
      → l.head ≡ some e
      → clear_loop (suc n) l ≡ clear_loop n (record l { head = (l.heap e).next })
  unfolding clear_loop
  clear_loop_step n l e h = rw (h, clear_loop) refl

  -- The loop of Clear has come to the end of the list.
  clear_loop_ends :
      (l : SieveList K) (p : Option ℕ) (xs : List ℕ)
      → Chain l.heap p xs none
      → l.head ≡ first_or xs none
      → (clear_loop (length xs) l).head ≡ none
  unfolding clear_loop
  clear_loop_ends l p [] c h = h
  clear_loop_ends l p (x ∷ xs) c h =
      ap (λ m. m.head) (clear_loop_step (length xs) l x h)
      ∙ clear_loop_ends (record l { head = (l.heap x).next }) (some x) xs c.2 c.1

  pub clear-IsSieve :
      (l : SieveList K) (xs : List ℕ)
      → IsSieve l xs
      → IsSieve (clear l) [] × ((clear_loop l.len l).head ≡ none)
  unfolding IsSieve clear
  clear-IsSieve l xs (v, hand) = (
    (record { chain = tt; distinct = tt; head = refl; tail = refl; len = refl }, tt),
    subst (λ n. (clear_loop n l).head ≡ none) (sym v.len)
        (clear_loop_ends l none xs v.chain v.head),
  )

  -- Behind the pointers stays a doubly linked list without repetition, with the right ends, length and
  -- hand: after Access it is the same list, or has the new entry at the head; after Remove of an entry
  -- it is the list without it; after Clear, whose loop has gone through all entries, it is empty.
  pub access_remove_clear-IsSieve :
      (l : SieveList K) (xs : List ℕ) (e : ℕ) (ys : List ℕ) (key : K) (looked_up : Option ℕ)
      (fresh : ℕ)
      → NotIn fresh (xs ++ (e ∷ ys))
      → IsSieve l (xs ++ (e ∷ ys))
      → IsSieve (access key looked_up fresh l).2 (accessed looked_up fresh (xs ++ (e ∷ ys)))
        × IsSieve (remove_entry e l) (xs ++ ys)
        × IsSieve (clear l) []
        × ((clear_loop l.len l).head ≡ none)
  access_remove_clear-IsSieve l xs e ys key looked_up fresh d v =
      let (cleared, ended) = clear-IsSieve l (xs ++ (e ∷ ys)) v in
      (
        access-IsSieve key looked_up fresh l (xs ++ (e ∷ ys)) d v,
        remove_entry-IsSieve l xs e ys v,
        cleared,
        ended,
      )
