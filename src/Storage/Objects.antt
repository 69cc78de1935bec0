-- ===== src/Storage/Objects.antt =====
-- The blobs of internal/storage/codec.go, from the encoder to the decoder.
use bouine.Prelude.{
  ℕ, zero, suc, ◌^◌, ◌≤◌, ◌<◌, ◌≡◌, refl, Bool, true, false, List, [], ◌∷◌, ◌++◌, arith, ◌==◌,
  length, drop, length-append,
}
use bouine.Prelude.Bytes.{Bytes}
use bouine.Prelude.Int.{pos, bits64, bits64-lt, signed64-bits64, IsInt64}
use bouine.Header.HeaderMap.{fields}
use bouine.Api.Object.{Object}
use bouine.Storage.Varint.{uvarint, uvarint_bytes}
use bouine.Storage.Codec.{
  read_uvarint, read_varint, read_bytes, read_byte, read_str, read_time, read_strings, read_pairs,
  header_of, append_string, append_strings, append_pairs, bit, object_flags, flag, encode_content,
  encode_transient, encode_object, decode_content, decode_paired, decode_transient, finish_object,
  zero_object, decode_fields,
}
use bouine.Storage.Parses.{
  Parses, bind-Parses, map-Parses, uvarint-Parses, varint-Parses, key-Parses, byte-Parses,
  str-Parses, IsBlobTime, time-Parses, count-Parses, AllShort, AllShortPairs, strings-Parses,
  pairs-Parses,
}

-- The objects that Go can hold: keys of 16 bytes, int64 and uint64 numbers, times near enough to
-- 1970, and texts shorter than 2 ^ 63.
pub record IsStorable (obj : Object) : Type 0 where
  pub key : length obj.key ≡ 16
  pub paired_key : length obj.paired_key ≡ 16
  pub vary_key : length obj.vary_key < 2 ^ 63
  pub vary_value : length obj.vary_value < 2 ^ 63
  pub status_code : IsInt64 obj.status_code
  pub ttl : IsInt64 obj.ttl
  pub stale_while_revalidate : IsInt64 obj.stale_while_revalidate
  pub stale_if_error : IsInt64 obj.stale_if_error
  pub stored_at : IsBlobTime obj.stored_at
  pub last_modified : IsBlobTime obj.last_modified
  pub hits : obj.hits < 2 ^ 64
  pub etag : length obj.etag < 2 ^ 63
  pub pool : length obj.pool < 2 ^ 63
  pub cache_control : length obj.cache_control < 2 ^ 63
  pub origin_age : IsInt64 obj.origin_age
  pub header_count : length (fields obj.header) < 2 ^ 63
  pub header_texts : AllShortPairs (fields obj.header)
  pub surrogate_count : length obj.surrogate_keys < 2 ^ 63
  pub surrogate_texts : AllShort obj.surrogate_keys
  pub body : length obj.body < 2 ^ 63

-- What comes back: the header map is built anew from its fields, and the size is the body's.
unfoldable pub as_decoded : Object → Object
as_decoded obj = record obj {
  header = header_of (fields obj.header);
  body_size = pos (length obj.body);
}

length-uvarint : (rounds x : ℕ) → 1 ≤ length (uvarint_bytes rounds x)
unfolding uvarint_bytes
length-uvarint zero x = omega arith
length-uvarint (suc rounds) x = ground arith

length-append_string : (s : Bytes) → 1 ≤ length (append_string s)
unfolding append_string
length-append_string s =
    omega (arith, length-append (uvarint (length s)) s, length-uvarint 9 (length s))

length-append_strings : (ss : List Bytes) → length ss ≤ length (append_strings ss)
unfolding append_strings
length-append_strings [] = omega arith
length-append_strings (s ∷ ss) = omega (
  arith,
  length-append (append_string s) (append_strings ss),
  length-append_string s,
  length-append_strings ss,
)

length-append_pairs : (ps : List (Bytes × Bytes)) → length ps ≤ length (append_pairs ps)
unfolding append_pairs
length-append_pairs [] = omega arith
length-append_pairs ((k, v) ∷ ps) = omega (
  arith,
  length-append (append_string k) (append_string v ++ append_pairs ps),
  length-append (append_string v) (append_pairs ps),
  length-append_string k,
  length-append_pairs ps,
)

-- The last part of a blob, over the fields before it.
content-Parses :
    (ver : ℕ) (obj o : Object)
    → IsStorable obj
    → Parses
        (decode_content ver o)
        (encode_content obj)
        (finish_object ver o (fields obj.header) obj.surrogate_keys obj.body)
unfolding decode_content encode_content
content-Parses ver obj o s =
    let ps = fields obj.header in
    let keys = obj.surrogate_keys in
    let tail = append_strings keys ++ append_string obj.body in
    count-Parses (length ps) _ (omega (arith, s.header_count))
      (omega (
        arith,
        length-append_pairs ps,
        length-append (append_pairs ps) (uvarint (length keys) ++ tail),
      ))
      (bind-Parses (read_pairs (length ps)) _ ps (pairs-Parses ps s.header_texts) (
        count-Parses (length keys) _ (omega (arith, s.surrogate_count))
          (omega (
            arith,
            length-append_strings keys,
            length-append (append_strings keys) (append_string obj.body),
          ))
          (bind-Parses (read_strings (length keys)) _ keys (strings-Parses keys s.surrogate_texts) (
            map-Parses read_str (λ body. finish_object ver o ps keys body) obj.body
              (str-Parses obj.body s.body)))))

flags_read :
    (obj : Object)
    → (flag (object_flags obj) 0 ≡ obj.has_date)
      × (flag (object_flags obj) 1 ≡ obj.resp_no_cache)
      × (flag (object_flags obj) 2 ≡ obj.resp_must_revalidate)
      × (flag (object_flags obj) 3 ≡ obj.has_connection_list)
      × (flag (object_flags obj) 4 ≡ obj.has_no_cache_fields)
unfolding flag object_flags
flags_read obj = ground arith

paired-Parses :
    (obj o : Object)
    → IsStorable obj
    → Parses (decode_paired 7 o) (obj.paired_key ++ encode_content obj) (
        finish_object 7
          (record o { paired_key = obj.paired_key })
          (fields obj.header)
          obj.surrogate_keys
          obj.body)
unfolding decode_paired
paired-Parses obj o s =
    bind-Parses (read_bytes (pos 16)) _ obj.paired_key (key-Parses obj.paired_key s.paired_key)
      (content-Parses 7 obj (record o { paired_key = obj.paired_key }) s)

abbrev with_transient : Object → Object → Object
with_transient obj o = record o {
  cache_control = obj.cache_control;
  origin_age = obj.origin_age;
  has_date = obj.has_date;
  resp_no_cache = obj.resp_no_cache;
  resp_must_revalidate = obj.resp_must_revalidate;
  has_connection_list = obj.has_connection_list;
  has_no_cache_fields = obj.has_no_cache_fields;
  paired_key = obj.paired_key;
}

transient-Parses :
    (obj o : Object)
    → IsStorable obj
    → Parses
        (decode_transient 7 o)
        (encode_transient obj)
        (finish_object 7 (with_transient obj o) (fields obj.header) obj.surrogate_keys obj.body)
unfolding decode_transient encode_transient decode_paired
transient-Parses obj o s =
    let (f0, f1, f2, f3, f4) = flags_read obj in
    bind-Parses read_str _ obj.cache_control (str-Parses obj.cache_control s.cache_control) (
      bind-Parses read_varint _ obj.origin_age (varint-Parses obj.origin_age s.origin_age) (
        bind-Parses read_byte _ (object_flags obj) (byte-Parses (object_flags obj))
          (rw (f0, f1, f2, f3, f4) (paired-Parses obj (with_transient obj o) s))))

bit-back : (b : Bool) → (bit b == 1) ≡ b
bit-back true = refl
bit-back false = refl

-- The object as it stands before the transient block.
abbrev with_fixed : Object → Object
with_fixed obj = record zero_object {
  key = obj.key;
  vary_key = obj.vary_key;
  vary_value = obj.vary_value;
  status_code = obj.status_code;
  ttl = obj.ttl;
  stale_while_revalidate = obj.stale_while_revalidate;
  stale_if_error = obj.stale_if_error;
  stored_at = obj.stored_at;
  last_modified = obj.last_modified;
  hits = obj.hits;
  etag = obj.etag;
  keep_grace = obj.keep_grace;
  pool = obj.pool;
}

finish_fixed :
    (obj : Object)
    → finish_object 7
        (with_transient obj (with_fixed obj))
        (fields obj.header)
        obj.surrogate_keys
        obj.body
      ≡ as_decoded obj
unfolding finish_object as_decoded
finish_fixed obj = refl

-- What is read behind the key, up to the transient block.
pub fixed-Parses :
    (obj : Object)
    → IsStorable obj
    → Parses (decode_fields 7) (drop 1 (encode_object obj)) (as_decoded obj)
unfolding decode_fields encode_object
fixed-Parses obj s = bind-Parses (read_bytes (pos 16)) _ obj.key (key-Parses obj.key s.key) (
    bind-Parses read_str _ obj.vary_key (str-Parses obj.vary_key s.vary_key) (
      bind-Parses read_str _ obj.vary_value (str-Parses obj.vary_value s.vary_value) (
        bind-Parses read_uvarint _ (bits64 obj.status_code)
          (uvarint-Parses (bits64 obj.status_code) (bits64-lt obj.status_code))
          (bind-Parses read_varint _ obj.ttl (varint-Parses obj.ttl s.ttl) (
            bind-Parses read_varint _ obj.stale_while_revalidate
              (varint-Parses obj.stale_while_revalidate s.stale_while_revalidate)
              (bind-Parses read_varint _ obj.stale_if_error
                (varint-Parses obj.stale_if_error s.stale_if_error)
                (bind-Parses read_time _ obj.stored_at (time-Parses obj.stored_at s.stored_at) (
                  bind-Parses read_time _ obj.last_modified
                    (time-Parses obj.last_modified s.last_modified)
                    (bind-Parses read_uvarint _ obj.hits (uvarint-Parses obj.hits s.hits) (
                      bind-Parses read_str _ obj.etag (str-Parses obj.etag s.etag) (
                        bind-Parses read_byte _ (bit obj.keep_grace)
                          (byte-Parses (bit obj.keep_grace))
                          (bind-Parses read_str _ obj.pool (str-Parses obj.pool s.pool) (
                            rw
                              (
                                signed64-bits64 obj.status_code s.status_code,
                                bit-back obj.keep_grace,
                              )
                              (rw (finish_fixed obj) at
                                (transient-Parses obj (with_fixed obj) s)))))))))))))))
