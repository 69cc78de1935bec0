-- ===== src/Storage/Sieve/Links.antt =====
-- internal/storage/sieve/sieve.go: the list of entries behind the pointers, and what the operations make
-- of it.
use bouine.Prelude.{
  ℕ, suc, ◌≡◌, inl, inr, refl, sym, ap, ◌∙◌, false, List, [], ◌∷◌, ◌++◌, Option, none, some, ◌==◌,
  arith, length, length-append, Option-cases, append_assoc, append_nil,
}
use mathlib.Core.Path.{subst}
use bouine.Storage.Sieve.{
  Entry, SieveList, update, set_prev, set_next, set_prev_of, or_else, push_head, bypass_prev,
  bypass_next, detach, remove,
}
use bouine.Storage.Sieve.Chains.{
  first_or, last_or, NotIn, Distinct, Chain, apart, same, NotIn-both, Distinct-middle, update_other,
  Chain-update, Chain-append, Chain-join, Chain-set_next, Chain-set_prev, Last-cases,
  last_or-append,
}

-- The list `xs`, from the head to the tail.
pub record Holds {K : Type 0} (l : SieveList K) (xs : List ℕ) : Type 0 where
  pub chain : Chain l.heap none xs none
  pub distinct : Distinct xs
  pub head : l.head ≡ first_or xs none
  pub tail : l.tail ≡ last_or none xs
  pub len : l.len ≡ length xs

-- Once the entry in front of `e` leads past it, and once the entry behind does too.
abbrev Before : {K : Type 0} → SieveList K → ℕ → List ℕ → List ℕ → Type 0
Before l e xs ys =
    Chain l.heap none xs (first_or ys none)
    × Chain l.heap (last_or none xs) (e ∷ ys) none
    × (l.head ≡ first_or (xs ++ ys) none)

abbrev Around : {K : Type 0} → SieveList K → List ℕ → List ℕ → Type 0
Around l xs ys =
    Chain l.heap none xs (first_or ys none)
    × Chain l.heap (last_or none xs) ys none
    × (l.head ≡ first_or (xs ++ ys) none)
    × (l.tail ≡ last_or none (xs ++ ys))

first_or-append :
    (zs : List ℕ) (a : ℕ) (us vs : List ℕ)
    → first_or ((zs ++ (a ∷ us)) ++ vs) none ≡ first_or (zs ++ (a ∷ [])) none
first_or-append [] a us vs = refl
first_or-append (z ∷ zs) a us vs = refl

last_around :
    (xs : List ℕ) (e y : ℕ) (ys : List ℕ)
    → last_or none (xs ++ (e ∷ y ∷ ys)) ≡ last_or none (xs ++ (y ∷ ys))
last_around xs e y ys = last_or-append none xs (e ∷ y ∷ ys) ∙ sym (last_or-append none xs (y ∷ ys))

last_or_else :
    (x : ℕ) (xs : List ℕ) (d : Option ℕ) → or_else (last_or (some x) xs) d ≡ last_or (some x) xs
last_or_else x [] d = refl
last_or_else x (y ∷ xs) d = last_or_else y xs d

module _ {K : Type 0} where
  -- Both links of an entry outside the chain, and of the entry itself.
  relink-Chain :
      (h : ℕ → Entry K) (e : ℕ) (q m p : Option ℕ) (xs : List ℕ) (n : Option ℕ)
      → NotIn e xs
      → Chain h p xs n
      → Chain (set_next e m (set_prev e q h)) p xs n
  unfolding set_prev set_next
  relink-Chain h e q m p xs n d c = Chain-update _ e _ p xs n d (Chain-update h e _ p xs n d c)

  set_prev_other :
      (h : ℕ → Entry K) (a : ℕ) (q : Option ℕ) (x : ℕ) → (x == a) ≡ false → set_prev a q h x ≡ h x
  unfolding set_prev
  set_prev_other h a q x d = update_other h a _ x d

  relinked :
      (h : ℕ → Entry K) (e : ℕ) (q m : Option ℕ)
      → ((set_next e m (set_prev e q h) e).prev ≡ q) × ((set_next e m (set_prev e q h) e).next ≡ m)
  unfolding set_prev set_next update
  relinked h e q m = rw (same e) (refl, refl)

  pub bypass_prev-some :
      (e : ℕ) (l : SieveList K) (a : ℕ)
      → (l.heap e).prev ≡ some a
      → bypass_prev e l ≡ record l { heap = set_next a (l.heap e).next l.heap }
  unfolding bypass_prev
  bypass_prev-some e l a h = rw (h, bypass_prev) refl

  pub bypass_prev-none :
      (e : ℕ) (l : SieveList K)
      → (l.heap e).prev ≡ none
      → bypass_prev e l ≡ record l { head = (l.heap e).next }
  unfolding bypass_prev
  bypass_prev-none e l h = rw (h, bypass_prev) refl

  pub bypass_next-some :
      (e : ℕ) (l : SieveList K) (a : ℕ)
      → (l.heap e).next ≡ some a
      → bypass_next e l ≡ record l { heap = set_prev a (l.heap e).prev l.heap }
  unfolding bypass_next
  bypass_next-some e l a h = rw (h, bypass_next) refl

  pub bypass_next-none :
      (e : ℕ) (l : SieveList K)
      → (l.heap e).next ≡ none
      → bypass_next e l ≡ record l { tail = (l.heap e).prev }
  unfolding bypass_next
  bypass_next-none e l h = rw (h, bypass_next) refl

  Before-head :
      (e : ℕ) (l : SieveList K) (ys : List ℕ) → Holds l (e ∷ ys) → Before (bypass_prev e l) e [] ys
  Before-head e l ys v =
      subst (λ m. Before m e [] ys) (sym (bypass_prev-none e l v.chain.0)) (tt, v.chain, v.chain.1)

  Before-behind :
      (e : ℕ) (l : SieveList K) (zs : List ℕ) (a : ℕ) (ys : List ℕ)
      → Holds l ((zs ++ (a ∷ [])) ++ (e ∷ ys))
      → Before (bypass_prev e l) e (zs ++ (a ∷ [])) ys
  unfolding set_next
  Before-behind e l zs a ys v =
      let (left, right) = Chain-append l.heap none (zs ++ (a ∷ [])) (e ∷ ys) none v.chain in
      let (nl, nr, rest) =
        Distinct-middle zs a (e ∷ ys)
          (subst Distinct (append_assoc zs (a ∷ []) (e ∷ ys)) v.distinct) in
      let is_a : (l.heap e).prev ≡ some a = right.0 ∙ last_or-append none zs (a ∷ []) in
      subst (λ m. Before m e (zs ++ (a ∷ [])) ys) (sym (bypass_prev-some e l a is_a))
        (
          subst (λ n. Chain (set_next a (l.heap e).next l.heap) none (zs ++ (a ∷ [])) n) right.1
              (Chain-set_next l.heap none zs a (some e) (l.heap e).next nl left),
          Chain-update l.heap a (record (l.heap a) { next = (l.heap e).next })
              (last_or none (zs ++ (a ∷ []))) (e ∷ ys) none nr right,
          v.head ∙ (first_or-append zs a [] (e ∷ ys) ∙ sym (first_or-append zs a [] ys)),
        )

  bypass_prev-Before :
      (e : ℕ) (l : SieveList K) (xs ys : List ℕ)
      → Holds l (xs ++ (e ∷ ys))
      → Before (bypass_prev e l) e xs ys
  bypass_prev-Before e l xs ys v = elim (Last-cases xs) [
    | inl at_head ↦
        subst (λ t. Before (bypass_prev e l) e t ys) (sym at_head)
          (Before-head e l ys (subst (λ t. Holds l (t ++ (e ∷ ys))) at_head v))
    | inr (zs, a, is) ↦
        subst (λ t. Before (bypass_prev e l) e t ys) (sym is)
          (Before-behind e l zs a ys (subst (λ t. Holds l (t ++ (e ∷ ys))) is v))
  ]

  -- The tail as it was, with the entry still in the list.
  bypass_next-Around :
      (e : ℕ) (l : SieveList K) (xs ys : List ℕ)
      → Distinct (xs ++ ys)
      → l.tail ≡ last_or none (xs ++ (e ∷ ys))
      → Before l e xs ys
      → Around (bypass_next e l) xs ys
  unfolding set_prev
  bypass_next-Around e l xs [] d t b =
      subst (λ m. Around m xs []) (sym (bypass_next-none e l b.1.1))
        (b.0, tt, b.2, b.1.0 ∙ ap (λ u. last_or none u) (sym (append_nil xs)))
  bypass_next-Around e l xs (y ∷ ys) d t b =
      let (nl, nr, rest) = Distinct-middle xs y ys d in
      let (c, chained, head) = b in
      subst (λ m. Around m xs (y ∷ ys)) (sym (bypass_next-some e l y chained.1))
        (
          Chain-update l.heap y (record (l.heap y) { prev = (l.heap e).prev }) none xs (some y) nl
              c,
          subst (λ p. Chain (set_prev y (l.heap e).prev l.heap) p (y ∷ ys) none) chained.0
              (Chain-set_prev l.heap (some e) (l.heap e).prev y ys none nr chained.2),
          head,
          t ∙ last_around xs e y ys,
        )

  bypass_prev_keeps :
      (e : ℕ) (l : SieveList K)
      → ((bypass_prev e l).tail ≡ l.tail) × ((bypass_prev e l).len ≡ l.len)
  bypass_prev_keeps e l = elim (Option-cases (l.heap e).prev) [
    | inl h ↦ rw (bypass_prev-none e l h) (refl, refl)
    | inr (a, h) ↦ rw (bypass_prev-some e l a h) (refl, refl)
  ]

  bypass_next_keeps : (e : ℕ) (l : SieveList K) → (bypass_next e l).len ≡ l.len
  bypass_next_keeps e l = elim (Option-cases (l.heap e).next) [
    | inl h ↦ rw (bypass_next-none e l h) refl
    | inr (a, h) ↦ rw (bypass_next-some e l a h) refl
  ]

  pub remove-Holds :
      (e : ℕ) (l : SieveList K) (xs ys : List ℕ)
      → Holds l (xs ++ (e ∷ ys))
      → Holds (remove e l) (xs ++ ys)
  unfolding remove detach set_prev set_next
  remove-Holds e l xs ys v =
      let (nl, nr, d) = Distinct-middle xs e ys v.distinct in
      let l1 = bypass_prev e l in
      let l2 = bypass_next e l1 in
      let around =
        bypass_next-Around e l1 xs ys d ((bypass_prev_keeps e l).0 ∙ v.tail)
          (bypass_prev-Before e l xs ys v) in
      let len2 : l2.len ≡ length (xs ++ (e ∷ ys)) =
        bypass_next_keeps e l1 ∙ ((bypass_prev_keeps e l).1 ∙ v.len) in
      let joined = Chain-join l2.heap none xs ys none around.0 around.1 in
      record {
        chain =
            relink-Chain l2.heap e none none none (xs ++ ys) none (NotIn-both e xs ys nl nr) joined;
        distinct = d;
        head = around.2;
        tail = around.3;
        len = omega (arith, len2, length-append xs (e ∷ ys), length-append xs ys);
      }

  push_head_empty :
      (e : ℕ) (l : SieveList K)
      → Chain
          (set_prev_of none (some e) (set_next e none (set_prev e none l.heap)))
          none
          (e ∷ [])
          none
  unfolding set_prev_of
  push_head_empty e l = let (p, n) = relinked l.heap e none none in (p, n, tt)

  push_head_full :
      (e : ℕ) (l : SieveList K) (x : ℕ) (xs : List ℕ)
      → NotIn e (x ∷ xs)
      → NotIn x xs
      → Chain l.heap none (x ∷ xs) none
      → Chain
          (set_prev_of (some x) (some e) (set_next e (some x) (set_prev e none l.heap)))
          none
          (e ∷ x ∷ xs)
          none
  unfolding set_prev_of
  push_head_full e l x xs d dx c =
      let h1 = set_next e (some x) (set_prev e none l.heap) in
      let (p, n) = relinked l.heap e none (some x) in
      let other : set_prev x (some e) h1 e ≡ h1 e =
        set_prev_other h1 x (some e) e (apart x e d.0) in
      (
        ap (λ t. t.prev) other ∙ p,
        ap (λ t. t.next) other ∙ n,
        Chain-set_prev h1 none (some e) x xs none dx
            (relink-Chain l.heap e none (some x) none (x ∷ xs) none d c),
      )

  pub push_head-Holds :
      (e : ℕ) (l : SieveList K) (xs : List ℕ)
      → NotIn e xs
      → Holds l xs
      → Holds (push_head e l) (e ∷ xs)
  unfolding push_head
  push_head-Holds e l [] d v = record {
    chain =
        subst
          (λ p.
            Chain (set_prev_of p (some e) (set_next e p (set_prev e none l.heap))) none (e ∷ [])
              none)
          (sym v.head) (push_head_empty e l);
    distinct = (tt, tt);
    head = refl;
    tail = ap (λ t. or_else t (some e)) v.tail;
    len = ap suc v.len;
  }
  push_head-Holds e l (x ∷ xs) d v = record {
    chain =
        subst
          (λ p.
            Chain (set_prev_of p (some e) (set_next e p (set_prev e none l.heap))) none (e ∷ x ∷ xs)
              none)
          (sym v.head) (push_head_full e l x xs d v.distinct.0 v.chain);
    distinct = (d, v.distinct);
    head = refl;
    tail = ap (λ t. or_else t (some e)) v.tail ∙ last_or_else x xs (some e);
    len = ap suc v.len;
  }
