-- ===== src/Cluster/RefreshFrames.antt =====
-- The frames of a refresh in internal/cluster/codec.go: the bytes that are written, and how they are read.
use bouine.Prelude.{
  ℕ, ◌+◌, ◌^◌, ◌≤◌, ◌<◌, ◌≡◌, refl, sym, ap, ◌∙◌, append_assoc, append_nil, [], ◌++◌, arith, length,
}
use mathlib.Core.Path.{subst}
use bouine.Prelude.Bytes.{Bytes}
use bouine.Cluster.Wire.{
  ok, ◌>>=◌, store, put_string, put_time, put_uint64, slice, frame_len, max_string_len,
}
use bouine.Cluster.Cursor.{
  length-append_bytes, word_bytes, time_bytes, string_bytes, Puts, Puts-bind, store-Puts,
  put_uint64-Puts, put_time-Puts, put_string-Puts,
}
use bouine.Cluster.Reads.{
  At, At-step, At-room, At-slice, At-word, At-time, At-string, At-string_step, IsWireTime,
}
use bouine.Cluster.Frames.{length-string_bytes, decode_frame-encode_frame}
use bouine.Cluster.Events.{
  RefreshEvent, refresh_payload_len, put_refresh_payload, decode_refresh_payload,
  encode_refresh_gossip, encode_refresh_http, decode_refresh_gossip, decode_refresh_http,
  msg_type_refresh,
}

-- The refreshes that a frame can carry.
pub record IsWireRefresh (evt : RefreshEvent) : Type 0 where
  pub key : length evt.key ≡ 16
  pub issuer : length evt.issuer ≤ max_string_len
  pub issued_at : IsWireTime evt.issued_at
  pub seq : evt.seq < 2 ^ 64

abbrev pub refresh_bytes : RefreshEvent → Bytes
refresh_bytes evt =
    evt.key ++ (string_bytes evt.issuer ++ (time_bytes evt.issued_at ++ word_bytes evt.seq))

pub put_refresh_payload-Puts :
    (evt : RefreshEvent)
    → length evt.issuer ≤ max_string_len
    → Puts (put_refresh_payload evt) (refresh_bytes evt)
unfolding put_refresh_payload
put_refresh_payload-Puts evt issuer =
    Puts-bind (λ c. store c evt.key) _ (store-Puts evt.key)
      (Puts-bind (λ c. put_string c evt.issuer) _ (put_string-Puts evt.issuer issuer)
        (Puts-bind (λ c. put_time c evt.issued_at) (λ c. put_uint64 c evt.seq)
          (put_time-Puts evt.issued_at) (put_uint64-Puts evt.seq)))

pub length-refresh_bytes :
    (evt : RefreshEvent)
    → length evt.key ≡ 16
    → refresh_payload_len evt ≡ length (refresh_bytes evt)
unfolding refresh_payload_len
length-refresh_bytes evt h =
    let at = time_bytes evt.issued_at ++ word_bytes evt.seq in
    let issuer = string_bytes evt.issuer ++ at in
    omega (arith, h, length-append_bytes evt.key issuer, length-string_bytes evt.issuer at)

-- The bytes of a refresh in front of others, field by field.
unfoldable pub refresh_bytes_then : RefreshEvent → Bytes → Bytes
refresh_bytes_then evt rest =
    evt.key
    ++ (string_bytes evt.issuer ++ (time_bytes evt.issued_at ++ (word_bytes evt.seq ++ rest)))

pub refresh_bytes-append :
    (evt : RefreshEvent) (rest : Bytes) → refresh_bytes evt ++ rest ≡ refresh_bytes_then evt rest
unfolding refresh_bytes_then
refresh_bytes-append evt rest =
    let at = time_bytes evt.issued_at ++ word_bytes evt.seq in
    append_assoc evt.key (string_bytes evt.issuer ++ at) rest
    ∙ ap (λ t. evt.key ++ t) (append_assoc (string_bytes evt.issuer) at rest)

pub decode_refresh_payload-At :
    {buf : Bytes} {off : ℕ} (evt : RefreshEvent) (rest : Bytes)
    → IsWireRefresh evt
    → At buf off (refresh_bytes_then evt rest)
    → decode_refresh_payload buf off ≡ ok evt
unfolding decode_refresh_payload refresh_bytes_then
decode_refresh_payload-At {buf = buf} {off = off} evt rest wire h =
    let seq = word_bytes evt.seq ++ rest in
    let at = time_bytes evt.issued_at ++ seq in
    let issuer = string_bytes evt.issuer ++ at in
    let size : length evt.key ≡ 16 = wire.key in
    let at_issuer : At buf (off + 16) issuer = rw size at (At-step evt.key issuer h) in
    let at_time : At buf (off + 16 + 2 + length evt.issuer) at =
      At-string_step evt.issuer at at_issuer in
    let at_seq : At buf (off + 16 + 2 + length evt.issuer + 8) seq =
      At-step (time_bytes evt.issued_at) seq at_time in
    let key : slice buf off 16 ≡ ok evt.key = rw size at (At-slice evt.key issuer h) in
    rw
      (
        At-room 16 h (omega (arith, size, length-append_bytes)),
        key,
        At-string evt.issuer at at_issuer wire.issuer,
        At-room 16 at_time (omega (arith)),
        At-time evt.issued_at seq at_time wire.issued_at,
        At-word evt.seq rest at_seq wire.seq,
      )
      refl

refresh_alone :
    {buf : Bytes} {off : ℕ} (evt : RefreshEvent)
    → At buf off (refresh_bytes evt)
    → At buf off (refresh_bytes_then evt [])
refresh_alone {buf = buf} {off = off} evt h =
    subst (λ t. At buf off t) (sym (append_nil (refresh_bytes evt)) ∙ refresh_bytes-append evt []) h

-- A refresh that the wire can carry is decoded as it was sent, from its gossip frame and from the
-- body of the HTTP request to a peer.
pub decode_refresh-encode_refresh :
    (evt : RefreshEvent)
    → IsWireRefresh evt
    → ((encode_refresh_gossip evt >>= decode_refresh_gossip) ≡ ok evt)
      × ((encode_refresh_http evt >>= decode_refresh_http) ≡ ok evt)
unfolding encode_refresh_gossip decode_refresh_gossip encode_refresh_http decode_refresh_http
    frame_len
decode_refresh-encode_refresh evt wire = (
  decode_frame-encode_frame msg_type_refresh (put_refresh_payload evt) decode_refresh_payload
      (put_refresh_payload-Puts evt wire.issuer) (omega (arith, length-refresh_bytes evt wire.key))
      (λ buf off h. decode_refresh_payload-At evt [] wire (refresh_alone evt h)),
  decode_frame-encode_frame 0 (put_refresh_payload evt) decode_refresh_payload
      (put_refresh_payload-Puts evt wire.issuer) (omega (arith, length-refresh_bytes evt wire.key))
      (λ buf off h. decode_refresh_payload-At evt [] wire (refresh_alone evt h)),
)
