-- ===== src/Cluster/Cursor.antt =====
-- What the writes and the reads of internal/cluster/codec.go do to a buffer, in a form that chains.
use bouine.Prelude.{
  append_assoc, append_nil, take-append, drop-drop, ℕ, zero, suc, ◌+◌, ◌%◌, ◌^◌, ◌≤◌, ◌≡◌, refl, ap,
  false, [], ◌∷◌, ◌++◌, arith, length, length-append, drop, ltb, ◌==◌, length-drop, replicate,
  length-replicate,
}
use bouine.Prelude.Bytes.{Bytes}
use bouine.Prelude.Int.{ℤ, bits64}
use bouine.Cluster.Wire.{
  Outcome, ok, ◌>>=◌, Cursor, write, copy_to, store, le_bytes, put_string, put_time, put_uint64,
  room, encode_time, max_string_len, put_header, encode_frame, binary_magic, binary_version,
}

-- For the lists of lemmas, which want the type.
pub length-append_bytes : (xs ys : Bytes) → length (xs ++ ys) ≡ length xs + length ys
length-append_bytes xs ys = length-append xs ys

-- A cursor behind what has been written, with room left.
abbrev pub at : Bytes → Bytes → Cursor
at done pad = record { buf = done ++ pad; off = length done }

write_start : (pad s : Bytes) → length s ≤ length pad → write pad 0 s ≡ s ++ drop (length s) pad
unfolding write
write_start [] [] h = refl
write_start [] (c ∷ s) h = absurd (omega arith)
write_start (b ∷ pad) [] h = refl
write_start (b ∷ pad) (c ∷ s) h = rw (write_start pad s (omega arith))

write_at :
    (done pad s : Bytes)
    → length s ≤ length pad
    → write (done ++ pad) (length done) s ≡ (done ++ s) ++ drop (length s) pad
unfolding write
write_at [] pad s h = write_start pad s h
write_at (b ∷ done) pad [] h = rw (append_nil done)
write_at (b ∷ done) pad (c ∷ s) h = rw (write_at done pad (c ∷ s) h)

-- A writer that appends these bytes wherever it has room for them.
abbrev pub Puts : (Cursor → Outcome Cursor) → Bytes → Type 0
Puts p bs =
    (done pad : Bytes)
    → length bs ≤ length pad
    → p (at done pad) ≡ ok (at (done ++ bs) (drop (length bs) pad))

pub store-Puts : (bs : Bytes) → Puts (λ c. store c bs) bs
unfolding store
store-Puts bs done pad h =
    rw (write_at done pad bs h) (ground (arith, length-append done pad, length-append done bs))

copy_to-Puts : (bs : Bytes) → Puts (λ c. copy_to c bs) bs
unfolding copy_to
copy_to-Puts bs done pad h =
    rw (write_at done pad bs h) (ground (arith, length-append done pad, length-append done bs))

pub Puts-bind :
    (p q : Cursor → Outcome Cursor) {xs bs : Bytes}
    → Puts p xs
    → Puts q bs
    → Puts (λ c. p c >>= q) (xs ++ bs)
Puts-bind p q {xs = xs} {bs = bs} hp hq done pad h =
    let first : length xs ≤ length pad = omega (arith, h, length-append xs bs) in
    let second : length bs ≤ length (drop (length xs) pad) =
      omega (arith, h, length-append xs bs, length-drop (length xs) pad) in
    rw
      (
        hp done pad first,
        hq (done ++ xs) (drop (length xs) pad) second,
        append_assoc done xs bs,
        drop-drop (length xs) (length bs) pad,
        length-append xs bs,
      )
      refl

-- The bytes that a frame spends on each field.
abbrev pub word_bytes : ℕ → Bytes
word_bytes w = le_bytes 8 w

abbrev pub time_bytes : ℤ → Bytes
time_bytes t = le_bytes 8 (bits64 (encode_time t))

abbrev pub string_bytes : Bytes → Bytes
string_bytes s = le_bytes 2 (length s % 2 ^ 16) ++ s

pub put_uint64-Puts : (w : ℕ) → Puts (λ c. put_uint64 c w) (word_bytes w)
unfolding put_uint64
put_uint64-Puts w = store-Puts (le_bytes 8 w)

pub put_time-Puts : (t : ℤ) → Puts (λ c. put_time c t) (time_bytes t)
unfolding put_time
put_time-Puts t = put_uint64-Puts (bits64 (encode_time t))

pub put_string-Puts :
    (s : Bytes) → length s ≤ max_string_len → Puts (λ c. put_string c s) (string_bytes s)
unfolding put_string
put_string-Puts s h done pad room =
    let short : ltb max_string_len (length s) ≡ false = ground (arith, h) in
    rw short (
      Puts-bind (λ c. store c (le_bytes 2 (length s % 2 ^ 16))) (λ c. copy_to c s)
        (store-Puts (le_bytes 2 (length s % 2 ^ 16))) (copy_to-Puts s) done pad room)

-- The header of a frame, and the whole of it.
abbrev pub header_bytes : ℕ → Bytes
header_bytes zero = binary_magic ∷ binary_version ∷ []
header_bytes (suc t) = binary_magic ∷ binary_version ∷ suc t ∷ []

put_header-Puts : (msg_type : ℕ) → Puts (λ c. put_header c msg_type) (header_bytes msg_type)
unfolding put_header
put_header-Puts zero =
    Puts-bind (λ c. store c (binary_magic ∷ [])) (λ c. store c (binary_version ∷ []) >>= ok)
      (store-Puts (binary_magic ∷ [])) (λ d p h. rw (store-Puts (binary_version ∷ []) d p h) refl)
put_header-Puts (suc t) =
    let typed : (suc t == 0) ≡ false = ground arith in
    rw typed (
      Puts-bind (λ c. store c (binary_magic ∷ []))
        (λ c. store c (binary_version ∷ []) >>= λ d. store d (suc t ∷ []))
        (store-Puts (binary_magic ∷ []))
        (Puts-bind (λ c. store c (binary_version ∷ [])) (λ c. store c (suc t ∷ []))
          (store-Puts (binary_version ∷ [])) (store-Puts (suc t ∷ []))))

-- A buffer of the size of the frame is enough, and the frame is all of it.
pub encode_frame-Puts :
    (total msg_type : ℕ) (put : Cursor → Outcome Cursor) (bs : Bytes)
    → Puts put bs
    → total ≡ length (header_bytes msg_type ++ bs)
    → encode_frame total msg_type put ≡ ok (header_bytes msg_type ++ bs)
unfolding encode_frame
encode_frame-Puts total msg_type put bs h size =
    let hdr = header_bytes msg_type in
    let pad : Bytes = replicate total 0 in
    let padded : length pad ≡ total = length-replicate total 0 in
    let sizes : total ≡ length hdr + length bs = omega (arith, size, length-append hdr bs) in
    let first : length hdr ≤ length pad = omega (arith, sizes, padded) in
    let second : length bs ≤ length (drop (length hdr) pad) =
      omega (arith, sizes, padded, length-drop (length hdr) pad) in
    rw (put_header-Puts msg_type [] pad first, h hdr (drop (length hdr) pad) second)
      (ap ok (take-append (hdr ++ bs) (drop (length bs) (drop (length hdr) pad))))
