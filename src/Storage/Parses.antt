-- ===== src/Storage/Parses.antt =====
-- What a reader of internal/storage/codec.go makes of the bytes that were written for it: all of
-- them give the value, and a strict prefix of them is corrupt.
use bouine.Prelude.{
  ℕ, zero, suc, ◌-◌, ◌^◌, ◌≤◌, ◌<◌, ◌≡◌, refl, ap, ◌∙◌, ◌⊎◌, inl, inr, true, false, List, [], ◌∷◌,
  ◌++◌, arith, ltb, length, take, length-append, length-take, append_assoc, take-append,
  drop-append, Bool-cases,
}
use bouine.Prelude.Bytes.{Bytes}
use bouine.Prelude.Int.{ℤ, pos, ◌+ℤ◌, ◌-ℤ◌, eq_ℤ, signed64, IsInt64, wrap64_fits, int_laws}
use bouine.Cluster.Wire.{unix_epoch}
use bouine.Storage.Varint.{
  uvarint, zigzag, unzigzag, unzigzag-zigzag, zigzag-lt, uvarint_reads, uvarint_truncated,
}
use bouine.Storage.Codec.{
  corrupt, Result, ok, err, Reader, after, ◌>>=◌, give, from_varint, read_uvarint, read_varint,
  read_bytes, first_byte, read_byte, read_str, read_time, check_count, read_count, read_strings,
  read_pairs, append_string, append_varint, append_time, append_strings, append_pairs,
}

pub record Parses {A : Type 0} (r : Reader A) (bs : Bytes) (v : A) : Type 0 where
  pub reads : (rest : Bytes) → r (bs ++ rest) ≡ ok (v, rest)
  pub cut : (n : ℕ) → n < length bs → r (take n bs) ≡ err corrupt

pub give-Parses : {A : Type 0} (v : A) → Parses (give v) [] v
give-Parses v = record { reads = λ rest. refl; cut = λ n h. absurd (omega arith) }

-- A prefix of two pieces ends in the first, or is the first and a prefix of the second.
take-append_lt : (n : ℕ) (xs ys : Bytes) → n < length xs → take n (xs ++ ys) ≡ take n xs
take-append_lt n [] ys h = absurd (omega arith)
take-append_lt zero (x ∷ xs) ys h = refl
take-append_lt (suc n) (x ∷ xs) ys h = ap (λ t. x ∷ t) (take-append_lt n xs ys (omega arith))

take-append_ge :
    (n : ℕ) (xs ys : Bytes) → length xs ≤ n → take n (xs ++ ys) ≡ xs ++ take (n - length xs) ys
take-append_ge n [] ys h = let e : n - 0 ≡ n = omega arith in rw e refl
take-append_ge zero (x ∷ xs) ys h = absurd (omega arith)
take-append_ge (suc n) (x ∷ xs) ys h =
    let e : suc n - suc (length xs) ≡ n - length xs = omega arith in
    rw e (ap (λ t. x ∷ t) (take-append_ge n xs ys (omega arith)))

bind_cut :
    {A B : Type 0} (r : Reader A) (next : A → Reader B) (xs ys : Bytes) (a : A) {b : B}
    → Parses r xs a
    → Parses (next a) ys b
    → (n : ℕ) → n < length (xs ++ ys)
    → (r >>= next) (take n (xs ++ ys)) ≡ err corrupt
bind_cut r next xs ys a p q n h = elim (Bool-cases (ltb n (length xs))) [
  | inl early ↦
      let lt : n < length xs = ground (arith, early) in
      rw (take-append_lt n xs ys lt) (ap (after next) (p.cut n lt))
  | inr late ↦
      let ge : length xs ≤ n = ground (arith, late) in
      let short : n - length xs < length ys = omega (arith, h, length-append xs ys, ge) in
      rw (take-append_ge n xs ys ge)
        (ap (after next) (p.reads (take (n - length xs) ys)) ∙ q.cut (n - length xs) short)
]

pub bind-Parses :
    {A B : Type 0} (r : Reader A) (next : A → Reader B) {xs ys : Bytes} (a : A) {b : B}
    → Parses r xs a
    → Parses (next a) ys b
    → Parses (r >>= next) (xs ++ ys) b
bind-Parses r next {xs = xs} {ys = ys} a p q = record {
  reads =
      λ rest. rw (append_assoc xs ys rest) (ap (after next) (p.reads (ys ++ rest)) ∙ q.reads rest);
  cut = λ n h. bind_cut r next xs ys a p q n h;
}

pub map-Parses :
    {A B : Type 0} (r : Reader A) (f : A → B) {bs : Bytes} (a : A)
    → Parses r bs a
    → Parses (r >>= λ x. give (f x)) bs (f a)
map-Parses r f {bs = bs} a p = record {
  reads = λ rest. ap (after (λ x. give (f x))) (p.reads rest);
  cut = λ n h. ap (after (λ x. give (f x))) (p.cut n h);
}

pub uvarint-Parses : (x : ℕ) → x < 2 ^ 64 → Parses read_uvarint (uvarint x) x
unfolding read_uvarint from_varint
uvarint-Parses x h = record {
  reads = λ rest. rw (uvarint_reads x rest h) refl;
  cut = λ n k. rw (uvarint_truncated x n k) refl;
}

pub varint-Parses : (z : ℤ) → IsInt64 z → Parses read_varint (append_varint z) z
unfolding read_varint append_varint
varint-Parses z h =
    rw (unzigzag-zigzag z) at
      (map-Parses read_uvarint unzigzag (zigzag z) (uvarint-Parses (zigzag z) (zigzag-lt z h)))

pub bytes-Parses : (s : Bytes) → Parses (read_bytes (pos (length s))) s s
unfolding read_bytes
bytes-Parses s = record {
  reads = λ rest.
      let room : ltb (length (s ++ rest)) (length s) ≡ false =
        ground (arith, length-append s rest) in
      rw (room, take-append s rest, drop-append s rest) refl;
  cut = λ n h.
      let short : ltb (length (take n s)) (length s) ≡ true = ground (arith, length-take n s, h) in
      rw short refl;
}

pub key-Parses : (s : Bytes) → length s ≡ 16 → Parses (read_bytes (pos 16)) s s
key-Parses s h = rw h at (bytes-Parses s)

pub byte-Parses : (b : ℕ) → Parses read_byte (b ∷ []) b
unfolding read_byte first_byte
byte-Parses b = map-Parses (read_bytes (pos 1)) first_byte (b ∷ []) (bytes-Parses (b ∷ []))

pub str-Parses : (s : Bytes) → length s < 2 ^ 63 → Parses read_str (append_string s) s
unfolding read_str append_string
str-Parses s h =
    let same : signed64 (length s) ≡ pos (length s) = ground (arith, h) in
    bind-Parses read_uvarint (λ n. read_bytes (signed64 n)) (length s)
      (uvarint-Parses (length s) (omega arith)) (rw same (bytes-Parses s))

-- The times that a blob carries: the zero time, and those within an int64 of nanoseconds of 1970.
abbrev pub IsBlobTime : ℤ → Type 0
IsBlobTime t = (t ≡ pos 0) ⊎ ((eq_ℤ t (pos 0) ≡ false) × IsInt64 (t -ℤ unix_epoch))

pub time-Parses : (t : ℤ) → IsBlobTime t → Parses read_time (append_time t) t
unfolding read_time append_time
time-Parses t (inl zero_time) =
    rw zero_time (bind-Parses read_byte _ 0 (byte-Parses 0) (give-Parses (pos 0)))
time-Parses t (inr (set, fits)) =
    let sum : unix_epoch +ℤ (t -ℤ unix_epoch) ≡ t = omega int_laws in
    rw (set, wrap64_fits (t -ℤ unix_epoch) fits)
      (bind-Parses read_byte _ 1 (byte-Parses 1) (
        rw sum at (
          map-Parses read_varint (λ nano. unix_epoch +ℤ nano) (t -ℤ unix_epoch)
            (varint-Parses (t -ℤ unix_epoch) fits))))

-- The count, for elements that have at least as many bytes: a prefix that has room for it ends in
-- the elements.
checked_cut :
    {B : Type 0} (n : ℕ) (next : ℕ → Reader B) (ys : Bytes) {b : B}
    → Parses (next n) ys b
    → (m : ℕ) → m < length ys
    → (check_count n >>= next) (take m ys) ≡ err corrupt
unfolding check_count
checked_cut n next ys p m h = elim (Bool-cases (ltb (length (take m ys)) n)) [
  | inl over ↦ rw over refl
  | inr room ↦ rw room (p.cut m h)
]

checked-Parses :
    {B : Type 0} (n : ℕ) (next : ℕ → Reader B) {ys : Bytes} {b : B}
    → n ≤ length ys
    → Parses (next n) ys b
    → Parses (check_count n >>= next) ys b
unfolding check_count
checked-Parses n next {ys = ys} enough p = record {
  reads = λ rest.
      let room : ltb (length (ys ++ rest)) n ≡ false =
        ground (arith, length-append ys rest, enough) in
      rw room (p.reads rest);
  cut = λ m h. checked_cut n next ys p m h;
}

after_assoc :
    {A B C : Type 0} (f : A → Reader B) (g : B → Reader C) (o : Result (A × Bytes))
    → after g (after f o) ≡ after (λ a. f a >>= g) o
after_assoc f g (err e) = refl
after_assoc f g (ok (a, left)) = refl

bind_assoc :
    {A B C : Type 0} (r : Reader A) (f : A → Reader B) (g : B → Reader C) (s : Bytes)
    → ((r >>= f) >>= g) s ≡ (r >>= λ a. f a >>= g) s
bind_assoc r f g s = after_assoc f g (r s)

pub count-Parses :
    {B : Type 0} (n : ℕ) (next : ℕ → Reader B) {ys : Bytes} {b : B}
    → n < 2 ^ 64
    → n ≤ length ys
    → Parses (next n) ys b
    → Parses (read_count >>= next) (uvarint n ++ ys) b
unfolding read_count
count-Parses n next {ys = ys} small enough p =
    let q =
      bind-Parses read_uvarint (λ m. check_count m >>= next) n (uvarint-Parses n small)
        (checked-Parses n next enough p) in
    record {
      reads = λ rest.
          bind_assoc read_uvarint check_count next ((uvarint n ++ ys) ++ rest) ∙ q.reads rest;
      cut = λ m h. bind_assoc read_uvarint check_count next (take m (uvarint n ++ ys)) ∙ q.cut m h;
    }

abbrev pub AllShort : List Bytes → Type 0
AllShort [] = Unit
AllShort (s ∷ ss) = (length s < 2 ^ 63) × AllShort ss

abbrev pub AllShortPairs : List (Bytes × Bytes) → Type 0
AllShortPairs [] = Unit
AllShortPairs ((k, v) ∷ ps) = (length k < 2 ^ 63) × (length v < 2 ^ 63) × AllShortPairs ps

pub strings-Parses :
    (ss : List Bytes) → AllShort ss → Parses (read_strings (length ss)) (append_strings ss) ss
unfolding read_strings append_strings
strings-Parses [] h = give-Parses []
strings-Parses (s ∷ ss) h =
    bind-Parses read_str _ s (str-Parses s h.0)
      (map-Parses (read_strings (length ss)) (λ l. s ∷ l) ss (strings-Parses ss h.1))

pub pairs-Parses :
    (ps : List (Bytes × Bytes))
    → AllShortPairs ps
    → Parses (read_pairs (length ps)) (append_pairs ps) ps
unfolding read_pairs append_pairs
pairs-Parses [] h = give-Parses []
pairs-Parses ((k, v) ∷ ps) h = bind-Parses read_str _ k (str-Parses k h.0) (
    bind-Parses read_str _ v (str-Parses v h.1)
      (map-Parses (read_pairs (length ps)) (λ l. (k, v) ∷ l) ps (pairs-Parses ps h.2)))
