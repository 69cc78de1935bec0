-- ===== src/Storage/Bans/Views.antt =====
-- internal/storage/bans.go: a refreshed and an added ban keep the index and the views of the list.
use bouine.Prelude.{
  ℕ, ◌≡◌, refl, sym, ap, ◌∙◌, inl, inr, Bool, true, false, List, [], ◌∷◌, ◌++◌, map, none, some,
  ◌==◌, arith, if◌then◌else◌, Bool-cases,
}
use bouine.Prelude.Bytes.{Bytes}
use bouine.Prelude.Int.{ℤ}
use bouine.Storage.Sieve.Chains.{NotIn}
use bouine.Storage.Bans.{BanPattern, ActiveBan}
use bouine.Storage.Bans.BanList.{
  BanListState, eq_pattern, find_pattern, set_ban, refresh_ban, refresh_known, append_ban,
}
use bouine.Storage.Bans.Registrations.{index_entry, non_surrogates, IsBanList, eq_pattern_refl}

-- Bans that keep their patterns and classes keep the views of the list.
abbrev AllKept : (ℕ → ActiveBan) → (ℕ → ActiveBan) → List ℕ → Type 0
AllKept h g [] = Unit {0}
AllKept h g (x ∷ xs) =
    (((g x).pattern ≡ (h x).pattern) × ((g x).surrogate ≡ (h x).surrogate)) × AllKept h g xs

views_kept :
    (h g : ℕ → ActiveBan) (list : List ℕ)
    → AllKept h g list
    → (map (index_entry g) list ≡ map (index_entry h) list)
      × (non_surrogates g list ≡ non_surrogates h list)
unfolding non_surrogates
views_kept h g [] k = (refl, refl)
views_kept h g (x ∷ xs) ((p, s), k) =
    let (index, rest) = views_kept h g xs k in (rw (p, index) refl, rw (s, rest) refl)

set_new-AllKept :
    (h : ℕ → ActiveBan) (a : ℕ) (ban : ActiveBan) (list : List ℕ)
    → NotIn a list
    → AllKept h (set_ban a ban h) list
unfolding set_ban
set_new-AllKept h a ban [] d = tt
set_new-AllKept h a ban (x ∷ xs) (here, d) = (rw here (refl, refl), set_new-AllKept h a ban xs d)

refresh_known-AllKept :
    (h : ℕ → ActiveBan) (a : ℕ) (created : ℤ) (list : List ℕ)
    → AllKept h (set_ban a (refresh_ban created (h a)) h) list
unfolding set_ban refresh_ban
refresh_known-AllKept h a created [] = tt
refresh_known-AllKept h a created (x ∷ xs) = (
  elim (Bool-cases (x == a)) [
    | inl is ↦
        let same : x ≡ a = ground (arith, is) in
        rw is (ap (λ t. (h t).pattern) (sym same), ap (λ t. (h t).surrogate) (sym same))
    | inr other ↦ rw other (refl, refl)
  ],
  refresh_known-AllKept h a created xs,
)

pub set_ban_self : (h : ℕ → ActiveBan) (a : ℕ) (ban : ActiveBan) → set_ban a ban h a ≡ ban
unfolding set_ban
set_ban_self h a ban = ground arith

pub refresh_known-IsBanList :
    (a : ℕ) (created : ℤ) (b : BanListState) → IsBanList b → IsBanList (refresh_known a created b)
unfolding refresh_known
refresh_known-IsBanList a created b v =
    let (index, rest) =
      views_kept b.bans (set_ban a (refresh_ban created (b.bans a)) b.bans) b.list
        (refresh_known-AllKept b.bans a created b.list) in
    record { index = v.index ∙ sym index; rest = v.rest ∙ sym rest }

append_surrogate :
    (h : ℕ → ActiveBan) (xs : List ℕ) (a : ℕ)
    → (h a).surrogate ≡ true
    → non_surrogates h (xs ++ (a ∷ [])) ≡ non_surrogates h xs
unfolding non_surrogates
append_surrogate h [] a s = rw s refl
append_surrogate h (x ∷ xs) a s = rw (append_surrogate h xs a s) refl

append_other :
    (h : ℕ → ActiveBan) (xs : List ℕ) (a : ℕ)
    → (h a).surrogate ≡ false
    → non_surrogates h (xs ++ (a ∷ [])) ≡ non_surrogates h xs ++ (a ∷ [])
unfolding non_surrogates
append_other h [] a s = rw s refl
append_other h (x ∷ xs) a s = elim (Bool-cases (h x).surrogate) [
  | inl t ↦ rw t (append_other h xs a s)
  | inr t ↦ rw t (ap (λ l. x ∷ l) (append_other h xs a s))
]

if-IsBanList :
    (c : Bool) (x y : BanListState)
    → (c ≡ true → IsBanList x)
    → (c ≡ false → IsBanList y)
    → IsBanList (if c then x else y)
if-IsBanList true x y l r = l refl
if-IsBanList false x y l r = r refl

index-append :
    (h : ℕ → ActiveBan) (xs : List ℕ) (a : ℕ)
    → map (index_entry h) (xs ++ (a ∷ [])) ≡ map (index_entry h) xs ++ (index_entry h a ∷ [])
index-append h [] a = refl
index-append h (x ∷ xs) a = ap (λ t. index_entry h x ∷ t) (index-append h xs a)

pub append_ban-IsBanList :
    (hash : Bytes → ℕ) (a : ℕ) (ban : ActiveBan) (b : BanListState)
    → NotIn a b.list
    → IsBanList b
    → IsBanList (append_ban hash a ban b)
unfolding append_ban
append_ban-IsBanList hash a ban b new v =
    let g = set_ban a ban b.bans in
    let self : g a ≡ ban = set_ban_self b.bans a ban in
    let (index, rest) = views_kept b.bans g b.list (set_new-AllKept b.bans a ban b.list new) in
    let index' : b.index ++ ((ban.pattern, a) ∷ []) ≡ map (index_entry g) (b.list ++ (a ∷ [])) =
      rw (index-append g b.list a, self, index, v.index) refl in
    if-IsBanList ban.surrogate _ _
      (λ s. record {
        index = index';
        rest =
            v.rest
            ∙ (sym rest ∙ sym (append_surrogate g b.list a (ap (λ t. t.surrogate) self ∙ s)));
      })
      (λ s. record {
        index = index';
        rest =
            ap (λ t. t ++ (a ∷ [])) (v.rest ∙ sym rest)
            ∙ sym (append_other g b.list a (ap (λ t. t.surrogate) self ∙ s));
      })

pub find_none-behind :
    (p : BanPattern) (h : ℕ → ActiveBan) (gone list : List ℕ)
    → find_pattern p (map (index_entry h) (gone ++ list)) ≡ none
    → find_pattern p (map (index_entry h) list) ≡ none
unfolding find_pattern
find_none-behind p h [] list f = f
find_none-behind p h (x ∷ gone) list f = elim (Bool-cases (eq_pattern p (h x).pattern)) [
  | inl is ↦ absurd (ground (arith, is, f))
  | inr other ↦ find_none-behind p h gone list (sym (rw other refl) ∙ f)
]

pub find_last :
    (p : BanPattern) (m : List (BanPattern × ℕ)) (a : ℕ)
    → find_pattern p m ≡ none
    → find_pattern p (m ++ ((p, a) ∷ [])) ≡ some a
unfolding find_pattern
find_last p [] a f = rw (eq_pattern_refl p) refl
find_last p ((q, b) ∷ m) a f = elim (Bool-cases (eq_pattern p q)) [
  | inl is ↦ absurd (ground (arith, is, f))
  | inr other ↦ rw other (find_last p m a (sym (rw other refl) ∙ f))
]
