-- ===== src/Storage/Blobs.antt =====
-- internal/storage/codec.go: EncodeObject and DecodeObject against each other.
use bouine.Prelude.{ℕ, ◌<◌, ◌≡◌, refl, ◌++◌, length, take}
use bouine.Prelude.Bytes.{Bytes}
use bouine.Header.HeaderMap.{fields}
use bouine.Api.Object.{Object}
use bouine.Storage.Codec.{
  corrupt, ok, err, ◌>>=◌, read_byte, encode_object, is_known, decode_versioned, decoded,
  decode_object,
}
use bouine.Storage.Parses.{Parses, bind-Parses, byte-Parses}
use bouine.Storage.Objects.{IsStorable, as_decoded, fixed-Parses}
use bouine.Storage.HeaderOrder.{AllCanonical, InOrder, names_of, fields-header_of}

object-Parses :
    (obj : Object)
    → IsStorable obj
    → Parses (read_byte >>= decode_versioned) (encode_object obj) (as_decoded obj)
unfolding decode_versioned is_known encode_object
object-Parses obj s = bind-Parses read_byte _ 7 (byte-Parses 7) (fixed-Parses obj s)

-- An object that Go can hold comes back from its blob, whatever bytes follow it: every field is
-- the same but the header map, which is built anew from the same fields, and the size, which is the
-- length of the body.
pub decode_object-encode_object :
    (obj : Object)
    → IsStorable obj
    → (rest : Bytes) → decode_object (encode_object obj ++ rest) ≡ ok (as_decoded obj)
unfolding decode_object decoded
decode_object-encode_object obj s rest = rw ((object-Parses obj s).reads rest) refl

-- The header that comes back has the same fields in the same order, where their keys are canonical
-- and none stands before a lesser one.
pub decoded_fields :
    (obj : Object)
    → AllCanonical (names_of (fields obj.header))
    → InOrder (names_of (fields obj.header))
    → fields ((as_decoded obj).header) ≡ fields obj.header
unfolding as_decoded
decoded_fields obj c o = fields-header_of (fields obj.header) c o

-- A blob that was cut short anywhere is an error, ErrCorrupt, and never a wrong object.
pub decode_object_cut :
    (obj : Object)
    → IsStorable obj
    → (n : ℕ) → n < length (encode_object obj)
    → decode_object (take n (encode_object obj)) ≡ err corrupt
unfolding decode_object decoded
decode_object_cut obj s n h = rw ((object-Parses obj s).cut n h) refl
