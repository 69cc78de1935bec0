-- ===== src/Cluster/Events.antt =====
-- internal/cluster/codec.go: the frames of the purge, ban and refresh events of pkg/api/cluster.go.
-- A key is a list of 16 bytes.
use bouine.Prelude.{ℕ, ◌+◌, true, false, length}
use bouine.Prelude.Bytes.{Bytes}
use bouine.Prelude.Int.{ℤ}
use bouine.Cluster.Wire.{
  Outcome, ok, ◌>>=◌, ◌>>◌, Cursor, store, put_string, put_time, put_uint64, room, slice, load,
  load_time, read_string, encode_frame, decode_frame, frame_len,
}

pub record PurgeEvent : Type 0 where
  pub key : Bytes
  pub vary_key : Bytes
  pub issuer : Bytes
  pub issued_at : ℤ
  pub seq : ℕ

pub record BanExpr : Type 0 where
  pub host_regex : Bytes
  pub path_regex : Bytes
  pub surrogate_key : Bytes
  pub created_at : ℤ

pub record BanEvent : Type 0 where
  pub predicate : BanExpr
  pub issuer : Bytes
  pub issued_at : ℤ
  pub seq : ℕ

pub record RefreshEvent : Type 0 where
  pub key : Bytes
  pub issuer : Bytes
  pub issued_at : ℤ
  pub seq : ℕ

abbrev pub msg_type_purge : ℕ
msg_type_purge = 1

abbrev pub msg_type_ban : ℕ
msg_type_ban = 2

abbrev pub msg_type_refresh : ℕ
msg_type_refresh = 3

unfoldable pub purge_payload_len : PurgeEvent → ℕ
purge_payload_len evt = 16 + 2 + length evt.vary_key + 2 + length evt.issuer + 8 + 8

unfoldable pub put_purge_payload : PurgeEvent → Cursor → Outcome Cursor
put_purge_payload evt c = do
  c ← store c evt.key
  c ← put_string c evt.vary_key
  c ← put_string c evt.issuer
  c ← put_time c evt.issued_at
  put_uint64 c evt.seq

unfoldable pub decode_purge_payload : Bytes → ℕ → Outcome PurgeEvent
decode_purge_payload buf off = do
  room buf off 16
  key ← slice buf off 16
  vary ← read_string buf (off + 16)
  issuer ← read_string buf vary.1
  room buf issuer.1 16
  at ← load_time buf issuer.1
  seq ← load 8 buf (issuer.1 + 8)
  ok (record { key = key; vary_key = vary.0; issuer = issuer.0; issued_at = at; seq = seq })

unfoldable pub encode_purge_gossip : PurgeEvent → Outcome Bytes
encode_purge_gossip evt =
    encode_frame (frame_len true (purge_payload_len evt)) msg_type_purge (put_purge_payload evt)

unfoldable pub encode_purge_http : PurgeEvent → Outcome Bytes
encode_purge_http evt =
    encode_frame (frame_len false (purge_payload_len evt)) 0 (put_purge_payload evt)

unfoldable pub decode_purge_gossip : Bytes → Outcome PurgeEvent
decode_purge_gossip buf = decode_frame buf msg_type_purge decode_purge_payload

unfoldable pub decode_purge_http : Bytes → Outcome PurgeEvent
decode_purge_http buf = decode_frame buf 0 decode_purge_payload

unfoldable pub ban_payload_len : BanEvent → ℕ
ban_payload_len evt =
    2
    + length evt.predicate.host_regex
    + 2
    + length evt.predicate.path_regex
    + 2
    + length evt.predicate.surrogate_key
    + 8
    + 2
    + length evt.issuer
    + 8
    + 8

unfoldable pub put_ban_payload : BanEvent → Cursor → Outcome Cursor
put_ban_payload evt c = do
  c ← put_string c evt.predicate.host_regex
  c ← put_string c evt.predicate.path_regex
  c ← put_string c evt.predicate.surrogate_key
  c ← put_time c evt.predicate.created_at
  c ← put_string c evt.issuer
  c ← put_time c evt.issued_at
  put_uint64 c evt.seq

unfoldable pub decode_ban_payload : Bytes → ℕ → Outcome BanEvent
decode_ban_payload buf off = do
  host ← read_string buf off
  path ← read_string buf host.1
  surrogate ← read_string buf path.1
  room buf surrogate.1 8
  created ← load_time buf surrogate.1
  issuer ← read_string buf (surrogate.1 + 8)
  room buf issuer.1 16
  at ← load_time buf issuer.1
  seq ← load 8 buf (issuer.1 + 8)
  ok (record {
    predicate = record {
      host_regex = host.0;
      path_regex = path.0;
      surrogate_key = surrogate.0;
      created_at = created;
    };
    issuer = issuer.0;
    issued_at = at;
    seq = seq;
  })

unfoldable pub encode_ban_gossip : BanEvent → Outcome Bytes
encode_ban_gossip evt =
    encode_frame (frame_len true (ban_payload_len evt)) msg_type_ban (put_ban_payload evt)

unfoldable pub encode_ban_http : BanEvent → Outcome Bytes
encode_ban_http evt = encode_frame (frame_len false (ban_payload_len evt)) 0 (put_ban_payload evt)

unfoldable pub decode_ban_gossip : Bytes → Outcome BanEvent
decode_ban_gossip buf = decode_frame buf msg_type_ban decode_ban_payload

unfoldable pub decode_ban_http : Bytes → Outcome BanEvent
decode_ban_http buf = decode_frame buf 0 decode_ban_payload

unfoldable pub refresh_payload_len : RefreshEvent → ℕ
refresh_payload_len evt = 16 + 2 + length evt.issuer + 8 + 8

unfoldable pub put_refresh_payload : RefreshEvent → Cursor → Outcome Cursor
put_refresh_payload evt c = do
  c ← store c evt.key
  c ← put_string c evt.issuer
  c ← put_time c evt.issued_at
  put_uint64 c evt.seq

unfoldable pub decode_refresh_payload : Bytes → ℕ → Outcome RefreshEvent
decode_refresh_payload buf off = do
  room buf off 16
  key ← slice buf off 16
  issuer ← read_string buf (off + 16)
  room buf issuer.1 16
  at ← load_time buf issuer.1
  seq ← load 8 buf (issuer.1 + 8)
  ok (record { key = key; issuer = issuer.0; issued_at = at; seq = seq })

unfoldable pub encode_refresh_gossip : RefreshEvent → Outcome Bytes
encode_refresh_gossip evt =
    encode_frame (frame_len true (refresh_payload_len evt)) msg_type_refresh
      (put_refresh_payload evt)

unfoldable pub encode_refresh_http : RefreshEvent → Outcome Bytes
encode_refresh_http evt =
    encode_frame (frame_len false (refresh_payload_len evt)) 0 (put_refresh_payload evt)

unfoldable pub decode_refresh_gossip : Bytes → Outcome RefreshEvent
decode_refresh_gossip buf = decode_frame buf msg_type_refresh decode_refresh_payload

unfoldable pub decode_refresh_http : Bytes → Outcome RefreshEvent
decode_refresh_http buf = decode_frame buf 0 decode_refresh_payload
