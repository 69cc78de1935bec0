-- ===== src/Cluster/PurgeFrames.antt =====
-- The frames of a purge in internal/cluster/codec.go: the bytes that are written, and how they are read.
use bouine.Prelude.{
  ℕ, ◌+◌, ◌^◌, ◌≤◌, ◌<◌, ◌≡◌, refl, sym, ap, ◌∙◌, append_assoc, append_nil, [], ◌++◌, arith, length,
}
use mathlib.Core.Path.{subst}
use bouine.Prelude.Bytes.{Bytes}
use bouine.Cluster.Wire.{
  ok, ◌>>=◌, store, put_string, put_time, put_uint64, slice, frame_len, max_string_len,
}
use bouine.Cluster.Cursor.{
  length-append_bytes, word_bytes, time_bytes, string_bytes, Puts, Puts-bind, store-Puts,
  put_uint64-Puts, put_time-Puts, put_string-Puts,
}
use bouine.Cluster.Reads.{
  At, At-step, At-room, At-slice, At-word, At-time, At-string, At-string_step, IsWireTime,
}
use bouine.Cluster.Frames.{length-string_bytes, decode_frame-encode_frame}
use bouine.Cluster.Events.{
  PurgeEvent, purge_payload_len, put_purge_payload, decode_purge_payload, encode_purge_gossip,
  encode_purge_http, decode_purge_gossip, decode_purge_http, msg_type_purge,
}

-- The purges that a frame can carry: keys of 16 bytes, texts of at most 65535 bytes, times that the
-- wire can tell, and words of 64 bits.
pub record IsWirePurge (evt : PurgeEvent) : Type 0 where
  pub key : length evt.key ≡ 16
  pub vary_key : length evt.vary_key ≤ max_string_len
  pub issuer : length evt.issuer ≤ max_string_len
  pub issued_at : IsWireTime evt.issued_at
  pub seq : evt.seq < 2 ^ 64

abbrev pub purge_bytes : PurgeEvent → Bytes
purge_bytes evt =
    evt.key
    ++ (string_bytes evt.vary_key
        ++ (string_bytes evt.issuer ++ (time_bytes evt.issued_at ++ word_bytes evt.seq)))

pub put_purge_payload-Puts :
    (evt : PurgeEvent)
    → length evt.vary_key ≤ max_string_len
    → length evt.issuer ≤ max_string_len
    → Puts (put_purge_payload evt) (purge_bytes evt)
unfolding put_purge_payload
put_purge_payload-Puts evt vary issuer =
    Puts-bind (λ c. store c evt.key) _ (store-Puts evt.key)
      (Puts-bind (λ c. put_string c evt.vary_key) _ (put_string-Puts evt.vary_key vary)
        (Puts-bind (λ c. put_string c evt.issuer) _ (put_string-Puts evt.issuer issuer)
          (Puts-bind (λ c. put_time c evt.issued_at) (λ c. put_uint64 c evt.seq)
            (put_time-Puts evt.issued_at) (put_uint64-Puts evt.seq))))

pub length-purge_bytes :
    (evt : PurgeEvent) → length evt.key ≡ 16 → purge_payload_len evt ≡ length (purge_bytes evt)
unfolding purge_payload_len
length-purge_bytes evt h =
    let at = time_bytes evt.issued_at ++ word_bytes evt.seq in
    let issuer = string_bytes evt.issuer ++ at in
    let vary = string_bytes evt.vary_key ++ issuer in
    omega (
      arith,
      h,
      length-append_bytes evt.key vary,
      length-string_bytes evt.vary_key issuer,
      length-string_bytes evt.issuer at,
    )

-- The bytes of a purge in front of others, field by field.
unfoldable pub purge_bytes_then : PurgeEvent → Bytes → Bytes
purge_bytes_then evt rest =
    evt.key
    ++ (string_bytes evt.vary_key
        ++ (string_bytes evt.issuer ++ (time_bytes evt.issued_at ++ (word_bytes evt.seq ++ rest))))

pub purge_bytes-append :
    (evt : PurgeEvent) (rest : Bytes) → purge_bytes evt ++ rest ≡ purge_bytes_then evt rest
unfolding purge_bytes_then
purge_bytes-append evt rest =
    let at = time_bytes evt.issued_at ++ word_bytes evt.seq in
    append_assoc evt.key (string_bytes evt.vary_key ++ (string_bytes evt.issuer ++ at)) rest
    ∙ ap (λ t. evt.key ++ t)
        (append_assoc (string_bytes evt.vary_key) (string_bytes evt.issuer ++ at) rest
          ∙ ap (λ t. string_bytes evt.vary_key ++ t)
              (append_assoc (string_bytes evt.issuer) at rest))

pub decode_purge_payload-At :
    {buf : Bytes} {off : ℕ} (evt : PurgeEvent) (rest : Bytes)
    → IsWirePurge evt
    → At buf off (purge_bytes_then evt rest)
    → decode_purge_payload buf off ≡ ok evt
unfolding decode_purge_payload purge_bytes_then
decode_purge_payload-At {buf = buf} {off = off} evt rest wire h =
    let seq = word_bytes evt.seq ++ rest in
    let at = time_bytes evt.issued_at ++ seq in
    let issuer = string_bytes evt.issuer ++ at in
    let vary = string_bytes evt.vary_key ++ issuer in
    let size : length evt.key ≡ 16 = wire.key in
    let at_vary : At buf (off + 16) vary = rw size at (At-step evt.key vary h) in
    let at_issuer : At buf (off + 16 + 2 + length evt.vary_key) issuer =
      At-string_step evt.vary_key issuer at_vary in
    let at_time : At buf (off + 16 + 2 + length evt.vary_key + 2 + length evt.issuer) at =
      At-string_step evt.issuer at at_issuer in
    let at_seq : At buf (off + 16 + 2 + length evt.vary_key + 2 + length evt.issuer + 8) seq =
      At-step (time_bytes evt.issued_at) seq at_time in
    let key : slice buf off 16 ≡ ok evt.key = rw size at (At-slice evt.key vary h) in
    rw
      (
        At-room 16 h (omega (arith, size, length-append_bytes)),
        key,
        At-string evt.vary_key issuer at_vary wire.vary_key,
        At-string evt.issuer at at_issuer wire.issuer,
        At-room 16 at_time (omega (arith)),
        At-time evt.issued_at seq at_time wire.issued_at,
        At-word evt.seq rest at_seq wire.seq,
      )
      refl

purge_alone :
    {buf : Bytes} {off : ℕ} (evt : PurgeEvent)
    → At buf off (purge_bytes evt)
    → At buf off (purge_bytes_then evt [])
purge_alone {buf = buf} {off = off} evt h =
    subst (λ t. At buf off t) (sym (append_nil (purge_bytes evt)) ∙ purge_bytes-append evt []) h

decode_purge_gossip-encode_purge_gossip :
    (evt : PurgeEvent)
    → IsWirePurge evt
    → (encode_purge_gossip evt >>= decode_purge_gossip) ≡ ok evt
unfolding encode_purge_gossip decode_purge_gossip frame_len
decode_purge_gossip-encode_purge_gossip evt wire =
    decode_frame-encode_frame msg_type_purge (put_purge_payload evt) decode_purge_payload
      (put_purge_payload-Puts evt wire.vary_key wire.issuer)
      (omega (arith, length-purge_bytes evt wire.key))
      (λ buf off h. decode_purge_payload-At evt [] wire (purge_alone evt h))

-- The body of the HTTP request to a peer has no type byte.
decode_purge_http-encode_purge_http :
    (evt : PurgeEvent) → IsWirePurge evt → (encode_purge_http evt >>= decode_purge_http) ≡ ok evt
unfolding encode_purge_http decode_purge_http frame_len
decode_purge_http-encode_purge_http evt wire =
    decode_frame-encode_frame 0 (put_purge_payload evt) decode_purge_payload
      (put_purge_payload-Puts evt wire.vary_key wire.issuer)
      (omega (arith, length-purge_bytes evt wire.key))
      (λ buf off h. decode_purge_payload-At evt [] wire (purge_alone evt h))

-- A purge that the wire can carry is decoded as it was sent, from its gossip frame and from the body
-- of the HTTP request to a peer.
pub decode_purge-encode_purge :
    (evt : PurgeEvent)
    → IsWirePurge evt
    → ((encode_purge_gossip evt >>= decode_purge_gossip) ≡ ok evt)
      × ((encode_purge_http evt >>= decode_purge_http) ≡ ok evt)
decode_purge-encode_purge evt wire =
    (decode_purge_gossip-encode_purge_gossip evt wire, decode_purge_http-encode_purge_http evt wire)
