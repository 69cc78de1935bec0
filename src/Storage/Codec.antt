-- ===== src/Storage/Codec.antt =====
-- internal/storage/codec.go: the binary form of a stored object. A reader takes what is left of the
-- blob. Once a read has failed the code makes no other, and returns that error at the end; here the
-- reads that follow are not made.
use bouine.Prelude.{
  ℕ, zero, suc, ◌+◌, ◌*◌, ◌/◌, ◌%◌, ◌^◌, Bool, true, false, ◌||◌, not, List, [], ◌∷◌, ◌++◌, Option,
  none, some, ltb, leb, ◌==◌, if◌then◌else◌, length, take, drop,
}
use bouine.Prelude.Bytes.{Bytes, codes, is_empty}
use bouine.Prelude.Int.{ℤ, pos, negsuc, ◌+ℤ◌, ◌-ℤ◌, wrap64, signed64, bits64}
use bouine.Header.CacheControl.{parse_cache_control}
use bouine.Header.HeaderMap.{
  HeaderMap, HeaderEntry, empty_map, append_entry, insert_entry, fields, has, get_all,
}
use bouine.Api.Object.{Object, is_zero_time}
use bouine.Cluster.Wire.{unix_epoch}
use bouine.Storage.Varint.{uvarint, scan_uvarint, zigzag, unzigzag}

pub data Error : Type 0 where
  corrupt : Error
  unknown_version : ℕ → Error

pub data Result {ℓ} (A : Type ℓ) : Type ℓ where
  ok : A → Result A
  err : Error → Result A

abbrev pub Reader : Type 0 → Type 0
Reader A = Bytes → Result (A × Bytes)

-- The next read, where the one before it succeeded.
abbrev pub after : {A B : Type 0} → (A → Reader B) → Result (A × Bytes) → Result (B × Bytes)
after next (err e) = err e
after next (ok (a, left)) = next a left

infixl 5 ◌>>=◌
abbrev pub ◌>>=◌ : {A B : Type 0} → Reader A → (A → Reader B) → Reader B
◌>>=◌ r next s = after next (r s)

abbrev pub give : {A : Type 0} → A → Reader A
give a s = ok (a, s)

-- A field that blobs of older versions do not have.
abbrev pub since : {A : Type 0} → Bool → A → Reader A → Reader A
since true missing r = r
since false missing r = give missing

unfoldable pub from_varint : Option (ℕ × Bytes) → Result (ℕ × Bytes)
from_varint none = err corrupt
from_varint (some r) = ok r

unfoldable pub read_uvarint : Reader ℕ
read_uvarint s = from_varint (scan_uvarint 0 s)

unfoldable pub read_varint : Reader ℤ
read_varint = do u ← read_uvarint; give (unzigzag u)

-- `bytes(n)`, for an `n` that may be negative.
unfoldable pub read_bytes : ℤ → Reader Bytes
read_bytes (negsuc n) s = err corrupt
read_bytes (pos n) s = if ltb (length s) n then err corrupt else ok (take n s, drop n s)

unfoldable pub first_byte : Bytes → ℕ
first_byte [] = 0
first_byte (b ∷ s) = b

unfoldable pub read_byte : Reader ℕ
read_byte = do b ← read_bytes (pos 1); give (first_byte b)

unfoldable pub read_str : Reader Bytes
read_str = do n ← read_uvarint; read_bytes (signed64 n)

unfoldable pub read_time : Reader ℤ
read_time = do
  present ← read_byte
  if present == 0 then give (pos 0) else (do nano ← read_varint; give (unix_epoch +ℤ nano))

-- `count` accepts no more elements than bytes are left.
unfoldable pub check_count : ℕ → Reader ℕ
check_count n s = if ltb (length s) n then err corrupt else ok (n, s)

unfoldable pub read_count : Reader ℕ
read_count = do n ← read_uvarint; check_count n

unfoldable pub read_strings : ℕ → Reader (List Bytes)
read_strings zero = give []
read_strings (suc n) = do s ← read_str; ss ← read_strings n; give (s ∷ ss)

unfoldable pub read_pairs : ℕ → Reader (List (Bytes × Bytes))
read_pairs zero = give []
read_pairs (suc n) = do k ← read_str; v ← read_str; ps ← read_pairs n; give ((k, v) ∷ ps)

unfoldable pub append_entries : HeaderMap → List (Bytes × Bytes) → HeaderMap
append_entries h [] = h
append_entries h ((k, v) ∷ ps) = append_entries (append_entry h k v) ps

-- SortEntries is a stable sort by key.
unfoldable pub sort_entries : List HeaderEntry → List HeaderEntry → List HeaderEntry
sort_entries sorted [] = sorted
sort_entries sorted (e ∷ es) = sort_entries (insert_entry e sorted) es

unfoldable pub header_of : List (Bytes × Bytes) → HeaderMap
header_of ps =
    let h = append_entries empty_map ps in record h { entries = sort_entries [] h.entries }

unfoldable pub append_string : Bytes → Bytes
append_string s = uvarint (length s) ++ s

unfoldable pub append_varint : ℤ → Bytes
append_varint z = uvarint (zigzag z)

unfoldable pub append_time : ℤ → Bytes
append_time t = if is_zero_time t then 0 ∷ [] else 1 ∷ append_varint (wrap64 (t -ℤ unix_epoch))

abbrev pub bit : Bool → ℕ
bit b = if b then 1 else 0

-- The flags of version 6, one bit to each.
unfoldable pub object_flags : Object → ℕ
object_flags obj =
    bit obj.has_date
    + 2 * bit obj.resp_no_cache
    + 4 * bit obj.resp_must_revalidate
    + 8 * bit obj.has_connection_list
    + 16 * bit obj.has_no_cache_fields

unfoldable pub flag : ℕ → ℕ → Bool
flag flags k = (flags / 2 ^ k) % 2 == 1

unfoldable pub append_strings : List Bytes → Bytes
append_strings [] = []
append_strings (s ∷ ss) = append_string s ++ append_strings ss

unfoldable pub append_pairs : List (Bytes × Bytes) → Bytes
append_pairs [] = []
append_pairs ((k, v) ∷ ps) = append_string k ++ (append_string v ++ append_pairs ps)

-- The header, the surrogate keys and the body.
unfoldable pub encode_content : Object → Bytes
encode_content obj =
    uvarint (length (fields obj.header))
    ++ (append_pairs (fields obj.header)
        ++ (uvarint (length obj.surrogate_keys)
            ++ (append_strings obj.surrogate_keys ++ append_string obj.body)))

-- The block of version 6, and the paired key of version 7.
unfoldable pub encode_transient : Object → Bytes
encode_transient obj =
    append_string obj.cache_control
    ++ (append_varint obj.origin_age ++ (object_flags obj ∷ (obj.paired_key ++ encode_content obj)))

unfoldable pub encode_object : Object → Bytes
encode_object obj =
    7
    ∷ (obj.key
        ++ (append_string obj.vary_key
            ++ (append_string obj.vary_value
                ++ (uvarint (bits64 obj.status_code)
                    ++ (append_varint obj.ttl
                        ++ (append_varint obj.stale_while_revalidate
                            ++ (append_varint obj.stale_if_error
                                ++ (append_time obj.stored_at
                                    ++ (append_time obj.last_modified
                                        ++ (uvarint obj.hits
                                            ++ (append_string obj.etag
                                                ++ (bit obj.keep_grace
                                                    ∷ (append_string obj.pool
                                                        ++ encode_transient obj)))))))))))))

-- What versions before 6 do not have is read off the header.
unfoldable pub backfill_flags : Object → Object
backfill_flags obj =
    let obj' = record obj { has_date = has obj.header (codes "Date") } in
    let raw = get_all obj.header (codes "Cache-Control") in
    let cc = parse_cache_control raw in
    if is_empty raw then obj' else record obj' {
      resp_no_cache = cc.no_cache;
      resp_must_revalidate = cc.must_revalidate || cc.proxy_revalidate;
      has_no_cache_fields = not (is_empty cc.no_cache_fields);
    }

-- The object over the fields that are read already.
unfoldable pub finish_object : ℕ → Object → List (Bytes × Bytes) → List Bytes → Bytes → Object
finish_object ver obj pairs keys body =
    let obj1 = record obj { header = header_of pairs } in
    let obj2 = if ltb ver 6 then backfill_flags obj1 else obj1 in
    record obj2 { surrogate_keys = keys; body = body; body_size = pos (length body) }

-- The header map, the surrogate keys and the body, whose bytes are read as those of a string are.
unfoldable pub decode_content : ℕ → Object → Reader Object
decode_content ver obj = do
  nh ← read_count
  pairs ← read_pairs nh
  nsk ← read_count
  keys ← read_strings nsk
  body ← read_str
  give (finish_object ver obj pairs keys body)

unfoldable pub decode_paired : ℕ → Object → Reader Object
decode_paired ver obj = do
  paired ← since (leb 7 ver) (obj.paired_key) (read_bytes (pos 16))
  decode_content ver (record obj { paired_key = paired })

unfoldable pub decode_transient : ℕ → Object → Reader Object
decode_transient ver obj =
    if leb 6 ver
    then (do
      cc ← read_str
      age ← read_varint
      flags ← read_byte
      decode_paired ver (record obj {
        cache_control = cc;
        origin_age = age;
        has_date = flag flags 0;
        resp_no_cache = flag flags 1;
        resp_must_revalidate = flag flags 2;
        has_connection_list = flag flags 3;
        has_no_cache_fields = flag flags 4;
      }))
    else decode_paired ver obj

-- `&api.Object{}`; a key is 16 zero bytes.
abbrev pub zero_key : Bytes
zero_key = 0 ∷ 0 ∷ 0 ∷ 0 ∷ 0 ∷ 0 ∷ 0 ∷ 0 ∷ 0 ∷ 0 ∷ 0 ∷ 0 ∷ 0 ∷ 0 ∷ 0 ∷ 0 ∷ []

abbrev pub zero_object : Object
zero_object = record {
  stored_at = pos 0;
  last_modified = pos 0;
  etag = [];
  cache_control = [];
  header = empty_map;
  body_size = pos 0;
  ttl = pos 0;
  origin_age = pos 0;
  stale_if_error = pos 0;
  stale_while_revalidate = pos 0;
  status_code = pos 0;
  resp_no_cache = false;
  resp_must_revalidate = false;
  key = zero_key;
  vary_key = [];
  vary_value = [];
  pool = [];
  hits = 0;
  keep_grace = false;
  has_date = false;
  has_connection_list = false;
  has_no_cache_fields = false;
  paired_key = zero_key;
  surrogate_keys = [];
  body = [];
}

unfoldable pub decode_fields : ℕ → Reader Object
decode_fields ver = do
  key ← read_bytes (pos 16)
  vary_key ← read_str
  vary_value ← since (leb 4 ver) [] read_str
  status ← read_uvarint
  ttl ← read_varint
  swr ← read_varint
  sie ← read_varint
  stored_at ← read_time
  last_modified ← read_time
  hits ← read_uvarint
  etag ← read_str
  grace ← since (leb 5 ver) 0 read_byte
  pool ← since (leb 5 ver) [] read_str
  decode_transient ver (record zero_object {
    key = key;
    vary_key = vary_key;
    vary_value = vary_value;
    status_code = signed64 status;
    ttl = ttl;
    stale_while_revalidate = swr;
    stale_if_error = sie;
    stored_at = stored_at;
    last_modified = last_modified;
    hits = hits;
    etag = etag;
    keep_grace = grace == 1;
    pool = pool;
  })

unfoldable pub is_known : ℕ → Bool
is_known ver = ver == 7 || ver == 6 || ver == 5 || ver == 4 || ver == 3

unfoldable pub decode_versioned : ℕ → Reader Object
decode_versioned ver s =
    if not (is_known ver) then err (unknown_version ver) else decode_fields ver s

-- The object; bytes behind it are not looked at.
unfoldable pub decoded : Result (Object × Bytes) → Result Object
decoded (err e) = err e
decoded (ok (obj, left)) = ok obj

unfoldable pub decode_object : Bytes → Result Object
decode_object blob = decoded ((read_byte >>= decode_versioned) blob)
