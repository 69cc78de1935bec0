-- ===== src/Storage/Bans/Literals.antt =====
-- internal/storage/bans.go: the literals that literalOfBody reads out of patterns, against
-- what Go's regular expressions say of such patterns.
use bouine.Prelude.{
  ℕ, ◌<◌, ◌≡◌, refl, sym, ap, ◌∙◌, inl, inr, Bool, true, false, ◌&&◌, ◌||◌, not, [], ◌∷◌, ◌++◌,
  Option, none, some, ◌==◌, ltb, leb, length, arith, Bool-cases,
}
use mathlib.Core.Path.{subst}
use bouine.Prelude.Bytes.{Bytes, eq_bytes, is_empty, has_prefix}
use bouine.Storage.Bans.{
  Regexp, is_metachar, prepend, literal_of_body, ends_in_dollar, drop_last, anchored_prefix,
  anchored_exact,
}

abbrev pub is_alnum : ℕ → Bool
is_alnum c = leb b'0' c && leb c b'9' || leb b'A' c && leb c b'Z' || leb b'a' c && leb c b'z'

-- An ASCII character that `\` makes a literal of itself.
abbrev pub is_punctuation : ℕ → Bool
is_punctuation c = ltb c 128 && not (is_alnum c)

-- A pattern of plain ASCII characters and of quoted punctuation, and its literal.
pub data Quotes : Bytes → Bytes → Type 0 where
  done : Quotes [] []
  plain :
      (c : ℕ) {body lit : Bytes}
      → is_metachar c ≡ false
      → c < 128
      → Quotes body lit
      → Quotes (c ∷ body) (c ∷ lit)
  quoted :
      (c : ℕ) {body lit : Bytes}
      → is_punctuation c ≡ true
      → Quotes body lit
      → Quotes (92 ∷ c ∷ body) (c ∷ lit)

-- What the package regexp documents of ^literal and ^literal$, where it takes the pattern.
pub record IsRegexp (regexp : Regexp) : Type 0 where
  pub prefix :
      (body lit : Bytes)
      → Quotes body lit
      → (f : Bytes → Bool) → regexp (b'^' ∷ body) ≡ some f
      → (v : Bytes) → f v ≡ has_prefix v lit
  pub exact :
      (body lit : Bytes)
      → Quotes body lit
      → (f : Bytes → Bool) → regexp (b'^' ∷ (body ++ (b'$' ∷ []))) ≡ some f
      → (v : Bytes) → f v ≡ eq_bytes v lit

abbrev punctuation_first : Bytes → Bool
punctuation_first [] = true
punctuation_first (d ∷ s) = is_punctuation d

-- Only ASCII, and no backslash before a letter or a digit, as in \d.
unfoldable pub no_classes : Bytes → Bool
no_classes [] = true
no_classes (c ∷ s) = ltb c 128 && (not (c == 92) || punctuation_first s) && no_classes s

not_backslash : (c : ℕ) → is_metachar c ≡ false → (c == 92) ≡ false
unfolding is_metachar
not_backslash c m = ground (arith, m)

pub plain_char :
    (c : ℕ) (body : Bytes)
    → is_metachar c ≡ false
    → literal_of_body (c ∷ body) ≡ prepend c (literal_of_body body)
unfolding literal_of_body
plain_char c [] m = rw m refl
plain_char c (d ∷ body) m = rw (not_backslash c m, literal_of_body, m) refl

pub quoted_char :
    (d : ℕ) (body : Bytes) → literal_of_body (92 ∷ d ∷ body) ≡ prepend d (literal_of_body body)
unfolding literal_of_body
quoted_char d body = refl

meta_char :
    (c d : ℕ) (body : Bytes)
    → (c == 92) ≡ false
    → is_metachar c ≡ true
    → literal_of_body (c ∷ d ∷ body) ≡ none
unfolding literal_of_body
meta_char c d body other m = rw (other, literal_of_body, m) refl

no_classes_quoted :
    (d : ℕ) (s : Bytes)
    → no_classes (92 ∷ d ∷ s) ≡ true
    → (is_punctuation d ≡ true) × (no_classes s ≡ true)
unfolding no_classes
no_classes_quoted d s n = (ground (arith, n), ground (arith, n))

no_classes_rest :
    (c : ℕ) (s : Bytes) → no_classes (c ∷ s) ≡ true → (c < 128) × (no_classes s ≡ true)
unfolding no_classes
no_classes_rest c s n = (ground (arith, n), ground (arith, n))

-- literalOfBody reads the literal of every such pattern.
pub literal_of_body-Quotes : {body lit : Bytes} → Quotes body lit → literal_of_body body ≡ some lit
unfolding literal_of_body
literal_of_body-Quotes done = refl
literal_of_body-Quotes (plain c {body} m a q) =
    plain_char c body m ∙ rw (literal_of_body-Quotes q) refl
literal_of_body-Quotes (quoted c p q) = rw (literal_of_body-Quotes q) refl

prepend-inverts :
    (c : ℕ) (o : Option Bytes) (lit : Bytes)
    → prepend c o ≡ some lit
    → (rest : Bytes) × (o ≡ some rest) × (lit ≡ c ∷ rest)
prepend-inverts c none lit h = absurd (ground (arith, h))
prepend-inverts c (some rest) lit h = (rest, refl, cc)

-- And it reads no other literal, where the pattern has no escape of a letter or digit.
pub Quotes-literal_of_body :
    (body lit : Bytes) → no_classes body ≡ true → literal_of_body body ≡ some lit → Quotes body lit
unfolding literal_of_body no_classes
Quotes-literal_of_body [] lit n h = subst (λ t. Quotes [] t) (cc) done
Quotes-literal_of_body (c ∷ []) lit n h = elim (Bool-cases (is_metachar c)) [
  | inl m ↦ absurd (ground (arith, h, m))
  | inr m ↦
      let same : c ∷ [] ≡ lit = ground (arith, h, m) in
      subst (λ t. Quotes (c ∷ []) t) same (plain c m (no_classes_rest c [] n).0 done)
]
Quotes-literal_of_body (c ∷ d ∷ s) lit n h = elim (Bool-cases (c == 92)) [
  | inl is ↦
      let backslash : c ≡ 92 = ground (arith, is) in
      let n' = subst (λ t. no_classes (t ∷ d ∷ s) ≡ true) backslash n in
      let h' = subst (λ t. literal_of_body (t ∷ d ∷ s) ≡ some lit) backslash h in
      let (p, n2) = no_classes_quoted d s n' in
      let (rest, h2, e) = prepend-inverts d (literal_of_body s) lit (sym (quoted_char d s) ∙ h') in
      subst (λ t. Quotes (t ∷ d ∷ s) lit) (sym backslash)
        (subst (λ t. Quotes (92 ∷ d ∷ s) t) (sym e)
          (quoted d p (Quotes-literal_of_body s rest n2 h2)))
  | inr other ↦ elim (Bool-cases (is_metachar c)) [
    | inl m ↦ absurd (ground (arith, meta_char c d s other m, h))
    | inr m ↦
        let (a, n2) = no_classes_rest c (d ∷ s) n in
        let (rest, h2, e) =
          prepend-inverts c (literal_of_body (d ∷ s)) lit (sym (plain_char c (d ∷ s) m) ∙ h) in
        subst (λ t. Quotes (c ∷ d ∷ s) t) (sym e)
          (plain c m a (Quotes-literal_of_body (d ∷ s) rest n2 h2))
  ]
]

dollar_last : (s : Bytes) → ends_in_dollar s ≡ true → s ≡ drop_last s ++ (b'$' ∷ [])
unfolding ends_in_dollar drop_last
dollar_last [] h = absurd (ground (arith, h))
dollar_last (c ∷ []) h = ground (arith, h)
dollar_last (c ∷ d ∷ s) h = ap (λ t. c ∷ t) (dollar_last (d ∷ s) h)

no_classes-drop_last : (s : Bytes) → no_classes s ≡ true → no_classes (drop_last s) ≡ true
unfolding no_classes drop_last
no_classes-drop_last [] n = refl
no_classes-drop_last (c ∷ []) n = refl
no_classes-drop_last (c ∷ d ∷ []) n = ground (arith, n)
no_classes-drop_last (c ∷ d ∷ e ∷ s) n = ground (arith, n, no_classes-drop_last (d ∷ e ∷ s))

-- The string of a pattern that isAnchoredExact takes is the one string that the expression matches.
pub anchored_exact-matches :
    (regexp : Regexp)
    → IsRegexp regexp
    → (s lit : Bytes) → anchored_exact s ≡ some lit
    → no_classes s ≡ true
    → (f : Bytes → Bool) → regexp s ≡ some f
    → (v : Bytes) → f v ≡ eq_bytes v lit
unfolding anchored_exact
anchored_exact-matches regexp law [] lit h n f r v = absurd (ground (arith, h))
anchored_exact-matches regexp law (c ∷ s) lit h n f r v =
    elim (Bool-cases (leb (length s) 1 || not (c == b'^') || not (ends_in_dollar s))) [
      | inl bad ↦ absurd (ground (arith, h, bad))
      | inr good ↦
          let caret : c ≡ b'^' = ground (arith, good) in
          let dollar : ends_in_dollar s ≡ true = ground (arith, good) in
          let body : literal_of_body (drop_last s) ≡ some lit = sym (rw good refl) ∙ h in
          let q =
            Quotes-literal_of_body (drop_last s) lit
              (no_classes-drop_last s (no_classes_rest c s n).1) body in
          law.exact (drop_last s) lit q f
            (subst (λ t. regexp (b'^' ∷ t) ≡ some f) (dollar_last s dollar)
              (subst (λ t. regexp (t ∷ s) ≡ some f) caret r))
            v
    ]

-- The prefix of a pattern that isAnchoredPrefix takes is what the expression looks for.
pub anchored_prefix-matches :
    (regexp : Regexp)
    → IsRegexp regexp
    → (s lit : Bytes) → anchored_prefix s ≡ some lit
    → no_classes s ≡ true
    → (f : Bytes → Bool) → regexp s ≡ some f
    → (v : Bytes) → f v ≡ has_prefix v lit
unfolding anchored_prefix
anchored_prefix-matches regexp law [] lit h n f r v = absurd (ground (arith, h))
anchored_prefix-matches regexp law (c ∷ s) lit h n f r v =
    elim (Bool-cases (is_empty s || not (c == b'^') || ends_in_dollar s)) [
      | inl bad ↦ absurd (ground (arith, h, bad))
      | inr good ↦
          let caret : c ≡ b'^' = ground (arith, good) in
          let body : literal_of_body s ≡ some lit = sym (rw good refl) ∙ h in
          law.prefix s lit (Quotes-literal_of_body s lit (no_classes_rest c s n).1 body) f
            (subst (λ t. regexp (t ∷ s) ≡ some f) caret r) v
    ]
