-- ===== src/Header/Canonical.antt =====
-- pkg/header/headermap.go: the canonical form of a header name.
use bouine.Prelude.{
  ℕ, ◌+◌, ◌-◌, ◌≡◌, refl, ◌↔◌, Bool, true, false, ◌&&◌, [], ◌∷◌, arith, leb, ◌==◌, ==_iff,
  if◌then◌else◌, length,
}
use bouine.Prelude.Bytes.{Bytes}

abbrev pub is_lower : ℕ → Bool
is_lower c = leb b'a' c && leb c b'z'

abbrev pub is_upper : ℕ → Bool
is_upper c = leb b'A' c && leb c b'Z'

-- The flag `upper` after a byte. The switch of the three functions sets it in the same way.
abbrev pub next_upper : Bool → ℕ → Bool
next_upper upper c = if upper then false else c == b'-'

-- The byte that the switch leaves in place of `c`.
abbrev pub canonical_byte : Bool → ℕ → ℕ
canonical_byte upper c =
    if upper && is_lower c
    then c - 32
    else if upper
    then c
    else if c == b'-'
    then c
    else if is_upper c
    then c + 32
    else c

-- The loop of `isCanonical`.
unfoldable pub is_canonical_loop : Bool → Bytes → Bool
is_canonical_loop upper [] = true
is_canonical_loop upper (c ∷ s) =
    let rest = is_canonical_loop (next_upper upper c) s in
    if upper && is_lower c
    then false
    else if upper
    then rest
    else if c == b'-'
    then rest
    else if is_upper c
    then false
    else rest

unfoldable pub is_canonical : Bytes → Bool
is_canonical = is_canonical_loop true

-- The loop of `canonicalize`.
unfoldable pub canonicalize_loop : Bool → Bytes → Bytes
canonicalize_loop upper [] = []
canonicalize_loop upper (c ∷ s) = canonical_byte upper c ∷ canonicalize_loop (next_upper upper c) s

unfoldable pub canonicalize : Bytes → Bytes
canonicalize = canonicalize_loop true

unfoldable pub canonical_header_key : Bytes → Bytes
canonical_header_key key = if is_canonical key then key else canonicalize key

-- Interning keeps the text, so an interned key is its canonical form.
unfoldable pub intern_key : Bytes → Bytes
intern_key key = if is_canonical key then key else canonical_header_key key

-- The loop of `equalsCanonicalOf`, over two texts of one length.
unfoldable pub equals_canonical_loop : Bool → Bytes → Bytes → Bool
equals_canonical_loop upper (x ∷ stored) (c ∷ key) =
    let rest = equals_canonical_loop (next_upper upper c) stored key in
    if x == canonical_byte upper c then rest else false
equals_canonical_loop upper _ _ = true

unfoldable pub equals_canonical_of : Bytes → Bytes → Bool
equals_canonical_of stored key =
    if length stored == length key then equals_canonical_loop true stored key else false

is_canonical_loop_iff :
    (u : Bool) (s : Bytes) → (is_canonical_loop u s ≡ true) ↔ (canonicalize_loop u s ≡ s)
unfolding is_canonical_loop canonicalize_loop
is_canonical_loop_iff u [] = (λ h. refl, λ h. refl)
is_canonical_loop_iff u (c ∷ s) =
    let ih = is_canonical_loop_iff (next_upper u c) s in
    (λ h. ground (arith, ih), λ h. ground (arith, ih))

canonical_byte_idem :
    (u : Bool) (c : ℕ) → canonical_byte u (canonical_byte u c) ≡ canonical_byte u c
canonical_byte_idem u c = ground arith

next_upper-canonical_byte : (u : Bool) (c : ℕ) → next_upper u (canonical_byte u c) ≡ next_upper u c
next_upper-canonical_byte u c = ground arith

canonicalize_loop_idem :
    (u : Bool) (s : Bytes) → canonicalize_loop u (canonicalize_loop u s) ≡ canonicalize_loop u s
unfolding canonicalize_loop
canonicalize_loop_idem u [] = refl
canonicalize_loop_idem u (c ∷ s) =
    rw (canonical_byte_idem, next_upper-canonical_byte, canonicalize_loop_idem (next_upper u c) s)

equals_canonical_loop_iff :
    (u : Bool) (x key : Bytes)
    → length x ≡ length key
    → (equals_canonical_loop u x key ≡ true) ↔ (x ≡ canonicalize_loop u key)
unfolding equals_canonical_loop canonicalize_loop
equals_canonical_loop_iff u [] [] h = (λ h. refl, λ h. refl)
equals_canonical_loop_iff u [] (c ∷ s) h = absurd (omega arith)
equals_canonical_loop_iff u (x ∷ xs) [] h = absurd (omega arith)
equals_canonical_loop_iff u (x ∷ xs) (c ∷ s) h =
    let ih = equals_canonical_loop_iff (next_upper u c) xs s (omega arith) in
    let here = ==_iff x (canonical_byte u c) in
    (λ e. ground (arith, ih, here), λ e. ground (arith, ih, here))

-- The check for the canonical form says true exactly of the texts that canonicalizing leaves alone.
pub is_canonical_iff : (s : Bytes) → (is_canonical s ≡ true) ↔ (canonicalize s ≡ s)
unfolding is_canonical canonicalize
is_canonical_iff s = is_canonical_loop_iff true s

-- The canonical form is its own canonical form.
pub canonicalize_idem : (s : Bytes) → canonicalize (canonicalize s) ≡ canonicalize s
unfolding canonicalize
canonicalize_idem s = canonicalize_loop_idem true s

-- The short cut for names in canonical form does not change the result.
pub canonical_header_key-canonicalize : (key : Bytes) → canonical_header_key key ≡ canonicalize key
unfolding canonical_header_key
canonical_header_key-canonicalize key = ground (arith, is_canonical_iff key)

-- Interning a name gives its canonical form, whichever of the two checks it passes.
pub intern_key-canonicalize : (key : Bytes) → intern_key key ≡ canonicalize key
unfolding intern_key
intern_key-canonicalize key =
    ground (arith, is_canonical_iff key, canonical_header_key-canonicalize key)

length-canonicalize_loop : (u : Bool) (s : Bytes) → length (canonicalize_loop u s) ≡ length s
unfolding canonicalize_loop
length-canonicalize_loop u [] = refl
length-canonicalize_loop u (c ∷ s) = omega (arith, length-canonicalize_loop (next_upper u c) s)

equals_canonical_of_complete :
    (x key : Bytes) → x ≡ canonicalize key → equals_canonical_of x key ≡ true
unfolding equals_canonical_of canonicalize
equals_canonical_of_complete x key e =
    let same : length x ≡ length key = rw (e, length-canonicalize_loop) in
    rw (same, (==_iff (length key) (length key)).1 refl)
      ((equals_canonical_loop_iff true x key same).1 e)

-- The comparison that never builds the canonical form compares with it: it says true exactly if the
-- stored name is the canonical form of the key.
pub equals_canonical_of_iff :
    (x key : Bytes) → (equals_canonical_of x key ≡ true) ↔ (x ≡ canonicalize key)
equals_canonical_of_iff x key = (sound, equals_canonical_of_complete x key)
  where
    sound : equals_canonical_of x key ≡ true → x ≡ canonicalize key
    sound h =
        unfold equals_canonical_of canonicalize in
        ground (arith, equals_canonical_loop_iff true x key)
