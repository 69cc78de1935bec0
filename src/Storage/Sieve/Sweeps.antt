-- ===== src/Storage/Sieve/Sweeps.antt =====
-- internal/storage/sieve/sieve.go: the hand, and what EvictBounded takes out of the list.
use bouine.Prelude.{
  ℕ, ◌≡◌, inl, inr, refl, sym, ap, ◌∙◌, false, List, [], ◌∷◌, ◌++◌, Option, none, some, ◌==◌,
  append_assoc, Bool-cases, ==_iff,
}
use mathlib.Core.Path.{subst}
use bouine.Storage.Sieve.{Entry, SieveList, update, set_visited, or_else, pass_by}
use bouine.Storage.Sieve.Chains.{last_or, Chain, Chain-append, Last-cases, last_or-append}
use bouine.Storage.Sieve.Links.{Holds}

-- The hand points at no entry, or at one of the list.
abbrev pub HandIn : Option ℕ → List ℕ → Type 0
HandIn none xs = Unit
HandIn (some a) xs = (before : List ℕ) × (behind : List ℕ) × (xs ≡ before ++ (a ∷ behind))

pub HandIn-append : (p : Option ℕ) (xs ys : List ℕ) → HandIn p xs → HandIn p (xs ++ ys)
HandIn-append none xs ys h = tt
HandIn-append (some a) xs ys (before, behind, e) =
    (before, behind ++ ys, ap (λ t. t ++ ys) e ∙ append_assoc before (a ∷ behind) ys)

pub last_or-HandIn : (xs : List ℕ) → HandIn (last_or none xs) xs
last_or-HandIn xs = elim (Last-cases xs) [
  | inl e ↦ subst (λ t. HandIn (last_or none t) t) (sym e) tt
  | inr (zs, a, e) ↦
      subst (λ t. HandIn (last_or none t) t) (sym e)
        (subst (λ p. HandIn p (zs ++ (a ∷ []))) (sym (last_or-append none zs (a ∷ [])))
          (zs, [], refl))
]

pub or_else-HandIn :
    (p q : Option ℕ) (xs : List ℕ) → HandIn p xs → HandIn q xs → HandIn (or_else p q) xs
or_else-HandIn none q xs h k = k
or_else-HandIn (some a) q xs h k = h

module _ {K : Type 0} where
  -- An entry that is given other bits, but not other links or another key.
  unfoldable pub SameLinks : Entry K → Entry K → Type 0
  SameLinks new old = (new.prev ≡ old.prev) × (new.next ≡ old.next) × (new.key ≡ old.key)

  pub touch_keeps :
      (h : ℕ → Entry K) (a : ℕ) (new : Entry K) (x : ℕ)
      → SameLinks new (h a)
      → SameLinks (update h a new x) (h x)
  unfolding update SameLinks
  touch_keeps h a new x (p, n, k) = elim (Bool-cases (x == a)) [
    | inl e ↦
        let is : a ≡ x = sym ((==_iff x a).0 e) in
        rw e (p ∙ ap (λ t. (h t).prev) is, n ∙ ap (λ t. (h t).next) is, k ∙ ap (λ t. (h t).key) is)
    | inr e ↦ rw e (refl, refl, refl)
  ]

  pub touch-Chain :
      (h : ℕ → Entry K) (a : ℕ) (new : Entry K) (p : Option ℕ) (xs : List ℕ) (n : Option ℕ)
      → SameLinks new (h a)
      → Chain h p xs n
      → Chain (update h a new) p xs n
  unfolding SameLinks
  touch-Chain h a new p [] n s c = tt
  touch-Chain h a new p (x ∷ xs) n s c =
      let (kp, kn, kk) = touch_keeps h a new x s in
      (kp ∙ c.0, kn ∙ c.1, touch-Chain h a new (some x) xs n s c.2)

  -- The link in front of an entry of the list.
  pub prev_of :
      (l : SieveList K) (xs : List ℕ) (e : ℕ) (ys : List ℕ)
      → Holds l (xs ++ (e ∷ ys))
      → (l.heap e).prev ≡ last_or none xs
  prev_of l xs e ys v = (Chain-append l.heap none xs (e ∷ ys) none v.chain).1.0

  -- The keys that the list holds in order, with a hand on one of them or on none.
  unfoldable pub IsSieve : SieveList K → List ℕ → Type 0
  IsSieve l xs = Holds l xs × HandIn l.hand xs

  -- The entry under the hand is touched, and the hand goes on.
  pub touch-IsSieve :
      (l : SieveList K) (xs : List ℕ) (e : ℕ) (ys : List ℕ) (new : Entry K)
      → SameLinks new (l.heap e)
      → Holds l (xs ++ (e ∷ ys))
      → IsSieve
          (record l {
            heap = update l.heap e new;
            hand = or_else (update l.heap e new e).prev l.tail;
          })
          (xs ++ (e ∷ ys))
  unfolding IsSieve SameLinks
  touch-IsSieve l xs e ys new s v = (
    record {
      chain = touch-Chain l.heap e new none (xs ++ (e ∷ ys)) none s v.chain;
      distinct = v.distinct;
      head = v.head;
      tail = v.tail;
      len = v.len;
    },
    or_else-HandIn (update l.heap e new e).prev l.tail (xs ++ (e ∷ ys))
        (subst (λ p. HandIn p (xs ++ (e ∷ ys)))
          (sym ((touch_keeps l.heap e new e s).0 ∙ prev_of l xs e ys v))
          (HandIn-append (last_or none xs) xs (e ∷ ys) (last_or-HandIn xs)))
        (subst (λ p. HandIn p (xs ++ (e ∷ ys))) (sym v.tail) (last_or-HandIn (xs ++ (e ∷ ys)))),
  )

  pub pass_by-IsSieve :
      (l : SieveList K) (xs : List ℕ) (e : ℕ) (ys : List ℕ)
      → Holds l (xs ++ (e ∷ ys))
      → IsSieve (pass_by e l) (xs ++ (e ∷ ys))
  unfolding pass_by set_visited SameLinks
  pass_by-IsSieve l xs e ys v =
      touch-IsSieve l xs e ys (record (l.heap e) { visited = false }) (refl, refl, refl) v
