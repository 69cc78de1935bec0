-- ===== src/Tests/Blobs.antt =====
-- internal/storage/codec.go at a concrete object.
use bouine.Prelude.{
  ◌≡◌, refl, inl, inr, ◌<◌, true, false, [], ◌∷◌, ◌++◌, arith, replicate, length, take,
}
use bouine.Prelude.Bytes.{codes}
use bouine.Prelude.Int
use bouine.Prelude.Int.{ℤ, pos}
use bouine.Header.HeaderMap.{HeaderMap, fields}
use bouine.Api.Object.{Object}
use bouine.Storage.Varint
use bouine.Storage.Codec
use bouine.Storage.Codec.{corrupt, ok, err, encode_object, decode_object}
use bouine.Storage.Objects.{IsStorable, as_decoded}
use bouine.Storage.Blobs

abbrev page_header : HeaderMap
page_header = record {
  entries = record { key = codes "Age"; off = 1 } ∷ record { key = codes "Via"; off = 0 } ∷ [];
  values = codes "bouine" ∷ codes "7" ∷ [];
}

abbrev page : Object
page = record {
  stored_at = pos 63902822400000000000;
  last_modified = pos 0;
  etag = codes "a1";
  cache_control = codes "max-age=60";
  header = page_header;
  body_size = pos 0;
  ttl = pos 60000000000;
  origin_age = pos 7000000000;
  stale_if_error = pos 0;
  stale_while_revalidate = pos 0;
  status_code = pos 200;
  resp_no_cache = false;
  resp_must_revalidate = true;
  key = replicate 16 3;
  vary_key = [];
  vary_value = [];
  pool = codes "web";
  hits = 300;
  keep_grace = true;
  has_date = false;
  has_connection_list = true;
  has_no_cache_fields = false;
  paired_key = replicate 16 9;
  surrogate_keys = codes "news" ∷ [];
  body = codes "hello";
}

page-IsStorable : IsStorable page
unfolding fields Int.◌-ℤ◌
page-IsStorable = record {
  key = refl;
  paired_key = refl;
  vary_key = omega arith;
  vary_value = omega arith;
  status_code = omega arith;
  ttl = omega arith;
  stale_while_revalidate = omega arith;
  stale_if_error = omega arith;
  stored_at = inr (refl, omega arith);
  last_modified = inl refl;
  hits = omega arith;
  etag = omega arith;
  pool = omega arith;
  cache_control = omega arith;
  origin_age = omega arith;
  header_count = omega arith;
  header_texts = (omega arith, omega arith, (omega arith, omega arith, tt));
  surrogate_count = omega arith;
  surrogate_texts = (omega arith, tt);
  body = omega arith;
}

decode_object-encode_object_example :
    decode_object (encode_object page ++ (1 ∷ [])) ≡ ok (as_decoded page)
decode_object-encode_object_example =
    Blobs.decode_object-encode_object page page-IsStorable (1 ∷ [])

page_is_long : 40 < length (encode_object page)
unfolding encode_object Codec.append_string Varint.uvarint_bytes Codec.append_varint Varint.zigzag
    Codec.append_time Int.wrap64 Int.◌-ℤ◌
page_is_long = omega arith

decode_object_cut_example : decode_object (take 40 (encode_object page)) ≡ err corrupt
decode_object_cut_example = Blobs.decode_object_cut page page-IsStorable 40 page_is_long
