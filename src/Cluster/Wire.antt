-- ===== src/Cluster/Wire.antt =====
-- internal/cluster/codec.go: the wire primitives, the frame header and the times. A buffer is the
-- list of its bytes; a cursor is the buffer and the offset that the code passes along.
use bouine.Prelude.{
  ℕ, zero, suc, ◌+◌, ◌*◌, ◌/◌, ◌%◌, Bool, ◌&&◌, [], ◌∷◌, ltb, leb, ◌==◌, if◌then◌else◌, not, ◌||◌,
  length, take, drop, get_or, replicate, ◌^◌,
}
use bouine.Prelude.Bytes.{Bytes}
use bouine.Prelude.Int.{ℤ, pos, ◌+ℤ◌, ◌-ℤ◌, eq_ℤ, wrap64, signed64, bits64}
use bouine.Api.Object.{is_zero_time}

pub data Error : Type 0 where
  short_frame bad_magic string_too_long : Error
  unsupported_ver : ℕ → Error
  wrong_msg_type : ℕ → ℕ → Error
  too_many_events trailing_bytes : ℕ → Error

-- A call returns, returns an error, or indexes a slice out of its bounds.
pub data Outcome {ℓ} (A : Type ℓ) : Type ℓ where
  ok : A → Outcome A
  err : Error → Outcome A
  panic : Outcome A

-- What follows an outcome runs on its value; an error or a panic ends the call.
infixl 5 ◌>>◌ ◌>>=◌
abbrev pub ◌>>◌ {ℓ} : {B : Type ℓ} → Outcome (Unit {0}) → Outcome B → Outcome B
panic >> next = panic
err e >> next = err e
ok _ >> next = next

abbrev pub ◌>>=◌ {ℓ κ} : {A : Type ℓ} {B : Type κ} → Outcome A → (A → Outcome B) → Outcome B
panic >>= next = panic
err e >>= next = err e
ok x >>= next = next x

pub record Cursor : Type 0 where
  pub buf : Bytes
  pub off : ℕ

abbrev pub binary_magic : ℕ
binary_magic = 66

abbrev pub binary_version : ℕ
binary_version = 3

abbrev pub binary_hdr_len : ℕ
binary_hdr_len = 2

abbrev pub gossip_hdr_len : ℕ
gossip_hdr_len = 3

abbrev pub max_string_len : ℕ
max_string_len = 65535

-- Nanoseconds from the zero `time.Time` to the Unix epoch.
abbrev pub unix_epoch : ℤ
unix_epoch = pos 62135596800000000000

-- `t.UnixNano()` counts from the epoch and wraps.
unfoldable pub encode_time : ℤ → ℤ
encode_time t = if is_zero_time t then pos 0 else wrap64 (t -ℤ unix_epoch)

unfoldable pub decode_time : ℤ → ℤ
decode_time nano = if eq_ℤ nano (pos 0) then pos 0 else unix_epoch +ℤ nano

-- The low `n` bytes of a word, the least first, and the word of such bytes.
abbrev pub le_bytes : ℕ → ℕ → Bytes
le_bytes zero w = []
le_bytes (suc n) w = w % 256 ∷ le_bytes n (w / 256)

abbrev pub le_value : Bytes → ℕ
le_value [] = 0
le_value (b ∷ bs) = b + 256 * le_value bs

-- `copy(buf[off:], s)` writes what fits.
unfoldable pub write : Bytes → ℕ → Bytes → Bytes
write [] off s = []
write (b ∷ buf) off [] = b ∷ buf
write (b ∷ buf) zero (c ∷ s) = c ∷ write buf zero s
write (b ∷ buf) (suc off) (c ∷ s) = b ∷ write buf off (c ∷ s)

-- `copy(buf[off:], s)`, which panics where the slice starts after the end of the buffer, and a
-- write that needs its room: an assignment to `buf[i]`, `PutUint64`, `copy(buf[off:off+16], key)`.
unfoldable pub copy_to : Cursor → Bytes → Outcome Cursor
copy_to c s =
    if leb c.off (length c.buf)
    then ok (record { buf = write c.buf c.off s; off = c.off + length s })
    else panic

unfoldable pub store : Cursor → Bytes → Outcome Cursor
store c s =
    if leb (c.off + length s) (length c.buf)
    then ok (record { buf = write c.buf c.off s; off = c.off + length s })
    else panic

unfoldable pub put_uint64 : Cursor → ℕ → Outcome Cursor
put_uint64 c w = store c (le_bytes 8 w)

unfoldable pub put_time : Cursor → ℤ → Outcome Cursor
put_time c t = put_uint64 c (bits64 (encode_time t))

unfoldable pub put_string : Cursor → Bytes → Outcome Cursor
put_string c s =
    if ltb max_string_len (length s)
    then err string_too_long
    else do c ← store c (le_bytes 2 (length s % 2 ^ 16)); copy_to c s

-- `buf[off:off+n]`
unfoldable pub slice : Bytes → ℕ → ℕ → Outcome Bytes
slice buf off n = if leb (off + n) (length buf) then ok (take n (drop off buf)) else panic

-- `binary.LittleEndian.Uint64(buf[off:])` and `Uint16`, for 8 and 2 bytes.
unfoldable pub load : ℕ → Bytes → ℕ → Outcome ℕ
load n buf off = do bs ← slice buf off n; ok (le_value bs)

unfoldable pub load_time : Bytes → ℕ → Outcome ℤ
load_time buf off = do w ← load 8 buf off; ok (decode_time (signed64 w))

-- The test that comes before a read of n bytes.
unfoldable pub room : Bytes → ℕ → ℕ → Outcome (Unit {0})
room buf off n = if ltb (length buf) (off + n) then err short_frame else ok tt

unfoldable pub read_string : Bytes → ℕ → Outcome (Bytes × ℕ)
read_string buf off = do
  room buf off 2
  n ← load 2 buf off
  room buf (off + 2) n
  s ← slice buf (off + 2) n
  ok (s, off + 2 + n)

-- The header, then the payload; the frame is what was written of the buffer.
unfoldable pub put_header : Cursor → ℕ → Outcome Cursor
put_header c msg_type = do
  c ← store c (binary_magic ∷ [])
  c ← store c (binary_version ∷ [])
  if msg_type == 0 then ok c else store c (msg_type ∷ [])

unfoldable pub encode_frame : ℕ → ℕ → (Cursor → Outcome Cursor) → Outcome Bytes
encode_frame total msg_type put = do
  c ← put_header (record { buf = replicate total 0; off = 0 }) msg_type
  c ← put c
  ok (take c.off c.buf)

unfoldable pub hdr_len : ℕ → ℕ
hdr_len want_type = if want_type == 0 then binary_hdr_len else gossip_hdr_len

-- The index `buf[i]`, which panics out of range.
unfoldable pub byte_at : Bytes → ℕ → Outcome ℕ
byte_at [] i = panic
byte_at (b ∷ buf) zero = ok b
byte_at (b ∷ buf) (suc i) = byte_at buf i

-- `if test { return err }`
abbrev pub fail_if : Bool → Error → Outcome (Unit {0})
fail_if test e = if test then err e else ok tt

-- `wantType != 0 && buf[2] != wantType`: the byte is read only where a type is wanted.
unfoldable pub check_type : Bytes → ℕ → Outcome (Unit {0})
check_type buf zero = ok tt
check_type buf (suc t) = do
  got ← byte_at buf 2
  fail_if (not (got == suc t)) (wrong_msg_type got (suc t))

unfoldable pub decode_frame {ℓ} : {A : Type ℓ} → Bytes → ℕ → (Bytes → ℕ → Outcome A) → Outcome A
decode_frame buf want_type decode = do
  fail_if (ltb (length buf) (hdr_len want_type)) short_frame
  magic ← byte_at buf 0
  fail_if (not (magic == binary_magic)) bad_magic
  version ← byte_at buf 1
  fail_if (not (version == binary_version)) (unsupported_ver version)
  check_type buf want_type
  decode buf (hdr_len want_type)

unfoldable pub frame_len : Bool → ℕ → ℕ
frame_len gossip payload_len =
    if gossip then gossip_hdr_len + payload_len else binary_hdr_len + payload_len

unfoldable pub is_binary_frame : Bytes → Bool
is_binary_frame msg = ltb 0 (length msg) && (get_or msg 0 0 == binary_magic)

unfoldable pub gossip_msg_type : Bytes → ℕ
gossip_msg_type msg =
    if not (is_binary_frame msg) || ltb (length msg) gossip_hdr_len then 0 else get_or msg 2 0
