-- ===== src/Storage/Sieve/Chains.antt =====
-- Doubly linked chains of entries, for internal/storage/sieve/sieve.go: what an assignment to an entry
-- does to a chain that has it, and to one that has not.
use bouine.Prelude.{
  ℕ, ◌≡◌, refl, ap, ◌∙◌, ◌⊎◌, inl, inr, true, false, List, [], ◌∷◌, ◌++◌, Option, some, ◌==◌, arith,
}
use bouine.Storage.Sieve.{Entry, update, set_prev, set_next}

abbrev pub first_or : List ℕ → Option ℕ → Option ℕ
first_or [] n = n
first_or (x ∷ xs) n = some x

abbrev pub last_or : Option ℕ → List ℕ → Option ℕ
last_or p [] = p
last_or p (x ∷ xs) = last_or (some x) xs

abbrev pub NotIn : ℕ → List ℕ → Type 0
NotIn a [] = Unit
NotIn a (x ∷ xs) = ((x == a) ≡ false) × NotIn a xs

abbrev pub Distinct : List ℕ → Type 0
Distinct [] = Unit
Distinct (x ∷ xs) = NotIn x xs × Distinct xs

-- The entries `xs` are linked one to the next, between `p` and `n`.
abbrev pub Chain : {K : Type 0} → (ℕ → Entry K) → Option ℕ → List ℕ → Option ℕ → Type 0
Chain h p [] n = Unit
Chain h p (x ∷ xs) n = ((h x).prev ≡ p) × ((h x).next ≡ first_or xs n) × Chain h (some x) xs n

pub apart : (x a : ℕ) → (x == a) ≡ false → (a == x) ≡ false
apart x a h = ground (arith, h)

pub same : (x : ℕ) → (x == x) ≡ true
same x = ground arith

pub NotIn-append : (a : ℕ) (xs ys : List ℕ) → NotIn a (xs ++ ys) → NotIn a xs × NotIn a ys
NotIn-append a [] ys h = (tt, h)
NotIn-append a (x ∷ xs) ys h = let (l, r) = NotIn-append a xs ys h.1 in ((h.0, l), r)

pub NotIn-both : (a : ℕ) (xs ys : List ℕ) → NotIn a xs → NotIn a ys → NotIn a (xs ++ ys)
NotIn-both a [] ys h k = k
NotIn-both a (x ∷ xs) ys h k = (h.0, NotIn-both a xs ys h.1 k)

-- The middle entry of a list without repetition is on neither side, and the sides have none.
pub Distinct-middle :
    (xs : List ℕ) (e : ℕ) (ys : List ℕ)
    → Distinct (xs ++ (e ∷ ys))
    → NotIn e xs × NotIn e ys × Distinct (xs ++ ys)
Distinct-middle [] e ys h = (tt, h.0, h.1)
Distinct-middle (x ∷ xs) e ys h =
    let (l, r, d) = Distinct-middle xs e ys h.1 in
    let (nx, ne) = NotIn-append x xs (e ∷ ys) h.0 in
    ((apart e x ne.0, l), r, (NotIn-both x xs ys nx ne.1, d))

module _ {K : Type 0} where
  pub update_other :
      (h : ℕ → Entry K) (a : ℕ) (e : Entry K) (x : ℕ) → (x == a) ≡ false → update h a e x ≡ h x
  unfolding update
  update_other h a e x d = rw d refl

  pub update_self : (h : ℕ → Entry K) (a : ℕ) (e : Entry K) → update h a e a ≡ e
  unfolding update
  update_self h a e = rw (same a) refl

  -- An entry outside the chain can be anything.
  pub Chain-update :
      (h : ℕ → Entry K) (a : ℕ) (e : Entry K) (p : Option ℕ) (xs : List ℕ) (n : Option ℕ)
      → NotIn a xs
      → Chain h p xs n
      → Chain (update h a e) p xs n
  Chain-update h a e p [] n d c = tt
  Chain-update h a e p (x ∷ xs) n d c =
      let u : update h a e x ≡ h x = update_other h a e x d.0 in
      (ap (λ t. t.prev) u ∙ c.0, ap (λ t. t.next) u ∙ c.1, Chain-update h a e (some x) xs n d.1 c.2)

  pub Chain-append :
      (h : ℕ → Entry K) (p : Option ℕ) (xs ys : List ℕ) (n : Option ℕ)
      → Chain h p (xs ++ ys) n
      → Chain h p xs (first_or ys n) × Chain h (last_or p xs) ys n
  Chain-append h p [] ys n c = (tt, c)
  Chain-append h p (x ∷ []) ys n c = ((c.0, c.1, tt), c.2)
  Chain-append h p (x ∷ y ∷ xs) ys n c =
      let (l, r) = Chain-append h (some x) (y ∷ xs) ys n c.2 in ((c.0, c.1, l), r)

  pub Chain-join :
      (h : ℕ → Entry K) (p : Option ℕ) (xs ys : List ℕ) (n : Option ℕ)
      → Chain h p xs (first_or ys n)
      → Chain h (last_or p xs) ys n
      → Chain h p (xs ++ ys) n
  Chain-join h p [] ys n c d = d
  Chain-join h p (x ∷ []) ys n c d = (c.0, c.1, d)
  Chain-join h p (x ∷ y ∷ xs) ys n c d = (c.0, c.1, Chain-join h (some x) (y ∷ xs) ys n c.2 d)

  -- The link behind the last entry, and the one in front of the first.
  pub Chain-set_next :
      (h : ℕ → Entry K) (p : Option ℕ) (xs : List ℕ) (a : ℕ) (n m : Option ℕ)
      → NotIn a xs
      → Chain h p (xs ++ (a ∷ [])) n
      → Chain (set_next a m h) p (xs ++ (a ∷ [])) m
  unfolding set_next
  Chain-set_next h p xs a n m d c =
      let (l, r) = Chain-append h p xs (a ∷ []) n c in
      let u : update h a (record (h a) { next = m }) a ≡ record (h a) { next = m } =
        update_self h a _ in
      Chain-join (update h a (record (h a) { next = m })) p xs (a ∷ []) m
        (Chain-update h a (record (h a) { next = m }) p xs (some a) d l)
        (ap (λ t. t.prev) u ∙ r.0, ap (λ t. t.next) u, tt)

  pub Chain-set_prev :
      (h : ℕ → Entry K) (p q : Option ℕ) (x : ℕ) (xs : List ℕ) (n : Option ℕ)
      → NotIn x xs
      → Chain h p (x ∷ xs) n
      → Chain (set_prev x q h) q (x ∷ xs) n
  unfolding set_prev
  Chain-set_prev h p q x xs n d c =
      let u : update h x (record (h x) { prev = q }) x ≡ record (h x) { prev = q } =
        update_self h x _ in
      (
        ap (λ t. t.prev) u,
        ap (λ t. t.next) u ∙ c.1,
        Chain-update h x (record (h x) { prev = q }) (some x) xs n d c.2,
      )

pub Last-cases : (xs : List ℕ) → (xs ≡ []) ⊎ ((ys : List ℕ) × (a : ℕ) × (xs ≡ ys ++ (a ∷ [])))
Last-cases [] = inl refl
Last-cases (x ∷ xs) = elim (Last-cases xs) [
  | inl e ↦ inr ([], x, ap (λ t. x ∷ t) e)
  | inr (ys, a, e) ↦ inr (x ∷ ys, a, ap (λ t. x ∷ t) e)
]

pub last_or-append :
    (p : Option ℕ) (xs ys : List ℕ) → last_or p (xs ++ ys) ≡ last_or (last_or p xs) ys
last_or-append p [] ys = refl
last_or-append p (x ∷ xs) ys = last_or-append (some x) xs ys
