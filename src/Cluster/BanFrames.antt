-- ===== src/Cluster/BanFrames.antt =====
-- The frames of a ban in internal/cluster/codec.go: the bytes that are written, and how they are read.
use bouine.Prelude.{ℕ, ◌+◌, ◌^◌, ◌≤◌, ◌<◌, ◌≡◌, refl, [], ◌++◌, arith, length}
use bouine.Prelude.Bytes.{Bytes}
use bouine.Cluster.Wire.{ok, ◌>>=◌, put_string, put_time, put_uint64, frame_len, max_string_len}
use bouine.Cluster.Cursor.{
  word_bytes, time_bytes, string_bytes, Puts, Puts-bind, put_uint64-Puts, put_time-Puts,
  put_string-Puts,
}
use bouine.Cluster.Reads.{
  At, At-step, At-room, At-word, At-time, At-string, At-string_step, IsWireTime,
}
use bouine.Cluster.Frames.{length-string_bytes, decode_frame-encode_frame}
use bouine.Cluster.Events.{
  BanEvent, ban_payload_len, put_ban_payload, decode_ban_payload, encode_ban_gossip,
  encode_ban_http, decode_ban_gossip, decode_ban_http, msg_type_ban,
}

-- The bans that a frame can carry.
pub record IsWireBan (evt : BanEvent) : Type 0 where
  pub host : length evt.predicate.host_regex ≤ max_string_len
  pub path : length evt.predicate.path_regex ≤ max_string_len
  pub surrogate : length evt.predicate.surrogate_key ≤ max_string_len
  pub created_at : IsWireTime evt.predicate.created_at
  pub issuer : length evt.issuer ≤ max_string_len
  pub issued_at : IsWireTime evt.issued_at
  pub seq : evt.seq < 2 ^ 64

-- What stands in the frame from the issuer on, and the whole payload.
abbrev tail_bytes : BanEvent → Bytes
tail_bytes evt = string_bytes evt.issuer ++ (time_bytes evt.issued_at ++ word_bytes evt.seq)

abbrev ban_bytes : BanEvent → Bytes
ban_bytes evt =
    string_bytes evt.predicate.host_regex
    ++ (string_bytes evt.predicate.path_regex
        ++ (string_bytes evt.predicate.surrogate_key
            ++ (time_bytes evt.predicate.created_at ++ tail_bytes evt)))

put_ban_payload-Puts : (evt : BanEvent) → IsWireBan evt → Puts (put_ban_payload evt) (ban_bytes evt)
unfolding put_ban_payload
put_ban_payload-Puts evt wire =
    let p = evt.predicate in
    Puts-bind (λ c. put_string c p.host_regex) _ (put_string-Puts p.host_regex wire.host)
      (Puts-bind (λ c. put_string c p.path_regex) _ (put_string-Puts p.path_regex wire.path)
        (Puts-bind (λ c. put_string c p.surrogate_key) _
          (put_string-Puts p.surrogate_key wire.surrogate)
          (Puts-bind (λ c. put_time c p.created_at) _ (put_time-Puts p.created_at)
            (Puts-bind (λ c. put_string c evt.issuer) _ (put_string-Puts evt.issuer wire.issuer)
              (Puts-bind (λ c. put_time c evt.issued_at) (λ c. put_uint64 c evt.seq)
                (put_time-Puts evt.issued_at) (put_uint64-Puts evt.seq))))))

length-ban_bytes : (evt : BanEvent) → ban_payload_len evt ≡ length (ban_bytes evt)
unfolding ban_payload_len
length-ban_bytes evt =
    let p = evt.predicate in
    let tail = tail_bytes evt in
    let created = time_bytes p.created_at ++ tail in
    let surrogate = string_bytes p.surrogate_key ++ created in
    let path = string_bytes p.path_regex ++ surrogate in
    omega (
      arith,
      length-string_bytes p.host_regex path,
      length-string_bytes p.path_regex surrogate,
      length-string_bytes p.surrogate_key created,
      length-string_bytes evt.issuer (time_bytes evt.issued_at ++ word_bytes evt.seq),
    )

decode_ban_payload-At :
    {buf : Bytes} {off : ℕ} (evt : BanEvent)
    → IsWireBan evt
    → At buf off (ban_bytes evt)
    → decode_ban_payload buf off ≡ ok evt
unfolding decode_ban_payload
decode_ban_payload-At {buf = buf} {off = off} evt wire h =
    let p = evt.predicate in
    let seq = word_bytes evt.seq in
    let at = time_bytes evt.issued_at ++ seq in
    let tail = tail_bytes evt in
    let created = time_bytes p.created_at ++ tail in
    let surrogate = string_bytes p.surrogate_key ++ created in
    let path = string_bytes p.path_regex ++ surrogate in
    let at_path : At buf (off + 2 + length p.host_regex) path =
      At-string_step p.host_regex path h in
    let at_surrogate : At buf (off + 2 + length p.host_regex + 2 + length p.path_regex) surrogate =
      At-string_step p.path_regex surrogate at_path in
    let n : ℕ =
      off + 2 + length p.host_regex + 2 + length p.path_regex + 2 + length p.surrogate_key in
    let at_created : At buf n created = At-string_step p.surrogate_key created at_surrogate in
    let at_issuer : At buf (n + 8) tail = At-step (time_bytes p.created_at) tail at_created in
    let at_time : At buf (n + 8 + 2 + length evt.issuer) at =
      At-string_step evt.issuer at at_issuer in
    let at_seq : At buf (n + 8 + 2 + length evt.issuer + 8) seq =
      At-step (time_bytes evt.issued_at) seq at_time in
    rw
      (
        At-string p.host_regex path h wire.host,
        At-string p.path_regex surrogate at_path wire.path,
        At-string p.surrogate_key created at_surrogate wire.surrogate,
        At-room 8 at_created (omega arith),
        At-time p.created_at tail at_created wire.created_at,
        At-string evt.issuer at at_issuer wire.issuer,
        At-room 16 at_time (omega arith),
        At-time evt.issued_at seq at_time wire.issued_at,
        At-word evt.seq [] at_seq wire.seq,
      )
      refl

-- A ban that the wire can carry is decoded as it was sent, from its gossip frame and from the body
-- of the HTTP request to a peer.
pub decode_ban-encode_ban :
    (evt : BanEvent)
    → IsWireBan evt
    → ((encode_ban_gossip evt >>= decode_ban_gossip) ≡ ok evt)
      × ((encode_ban_http evt >>= decode_ban_http) ≡ ok evt)
unfolding encode_ban_gossip decode_ban_gossip encode_ban_http decode_ban_http frame_len
decode_ban-encode_ban evt wire = (
  decode_frame-encode_frame msg_type_ban (put_ban_payload evt) decode_ban_payload
      (put_ban_payload-Puts evt wire) (omega (arith, length-ban_bytes evt))
      (λ buf off h. decode_ban_payload-At evt wire h),
  decode_frame-encode_frame 0 (put_ban_payload evt) decode_ban_payload
      (put_ban_payload-Puts evt wire) (omega (arith, length-ban_bytes evt))
      (λ buf off h. decode_ban_payload-At evt wire h),
)
