-- ===== src/Cluster/BatchFrames.antt =====
-- What the batch codec of internal/cluster/codec_batch.go needs of the codec of its events, and
-- that those of purges and refreshes have it.
use bouine.Prelude.{ℕ, ◌+◌, ◌%◌, ◌^◌, ◌≤◌, ◌≡◌, refl, ◌++◌, arith, length}
use mathlib.Core.Path.{subst}
use bouine.Prelude.Bytes.{Bytes}
use bouine.Cluster.Wire.{ok, load, frame_len}
use bouine.Cluster.Cursor.{
  length-append_bytes, word_bytes, time_bytes, string_bytes, Puts, header_bytes,
}
use bouine.Cluster.Reads.{At, At-step, At-room, At-load, At-string_step}
use bouine.Cluster.Events.{PurgeEvent, RefreshEvent, purge_payload_len, refresh_payload_len}
use bouine.Cluster.PurgeFrames.{
  IsWirePurge, purge_bytes, put_purge_payload-Puts, length-purge_bytes, purge_bytes_then,
  purge_bytes-append, decode_purge_payload-At,
}
use bouine.Cluster.RefreshFrames.{
  IsWireRefresh, refresh_bytes, put_refresh_payload-Puts, length-refresh_bytes, refresh_bytes_then,
  refresh_bytes-append, decode_refresh_payload-At,
}
use bouine.Cluster.Batches.{
  BatchCodec, decode_purge_payload_bounded, decode_refresh_payload_bounded, purge_batch_gossip,
  purge_batch_http, refresh_batch_gossip, refresh_batch_http,
}

-- The events of a codec that the wire can carry, with their bytes.
pub record Carries {E : Type 0} (c : BatchCodec E) (IsWire : E → Type 0) (bytes : E → Bytes)
    : Type 0 where
  pub puts : (evt : E) → IsWire evt → Puts (c.put evt) (bytes evt)
  pub size : (evt : E) → IsWire evt → c.payload_len evt ≡ length (bytes evt)
  pub reads :
      (buf : Bytes) (off : ℕ) (evt : E) (rest : Bytes)
      → IsWire evt
      → At buf off (bytes evt ++ rest)
      → c.decode_one buf off ≡ ok (evt, off + length (bytes evt))
  pub header : (n : ℕ) → frame_len c.gossip n ≡ length (header_bytes c.msg_type) + n

-- The length that stands in front of a text.
At-string_length :
    {buf : Bytes} {off : ℕ} (s rest : Bytes)
    → At buf off (string_bytes s ++ rest)
    → length s ≤ 65535
    → load 2 buf off ≡ ok (length s)
At-string_length s rest h small =
    let short : length s % 2 ^ 16 ≡ length s = omega (arith, small) in
    rw short at (At-load 2 (length s % 2 ^ 16) (s ++ rest) h (omega arith))

bounded_purge :
    (buf : Bytes) (off : ℕ) (evt : PurgeEvent) (rest : Bytes)
    → IsWirePurge evt
    → At buf off (purge_bytes evt ++ rest)
    → decode_purge_payload_bounded buf off ≡ ok (evt, off + length (purge_bytes evt))
unfolding decode_purge_payload_bounded purge_bytes_then purge_payload_len
bounded_purge buf off evt rest wire h0 =
    let h : At buf off (purge_bytes_then evt rest) =
      subst (λ t. At buf off t) (purge_bytes-append evt rest) h0 in
    let v = length evt.vary_key in
    let i = length evt.issuer in
    let size : length (purge_bytes evt) ≡ 16 + 2 + v + 2 + i + 16 =
      omega (arith, length-purge_bytes evt wire.key) in
    let at = time_bytes evt.issued_at ++ (word_bytes evt.seq ++ rest) in
    let issuer = string_bytes evt.issuer ++ at in
    let vary = string_bytes evt.vary_key ++ issuer in
    let at_vary : At buf (off + 16) vary = rw wire.key at (At-step evt.key vary h) in
    let at_issuer : At buf (off + (16 + 2 + v)) issuer =
      subst (λ o. At buf o issuer) (omega arith) (At-string_step evt.vary_key issuer at_vary) in
    rw
      (
        decode_purge_payload-At evt rest wire h,
        At-room 16 h0 (omega (arith, size, length-append_bytes (purge_bytes evt) rest)),
        At-string_length evt.vary_key issuer at_vary wire.vary_key,
        At-room (16 + 2 + v + 2) h0
            (omega (arith, size, length-append_bytes (purge_bytes evt) rest)),
        At-string_length evt.issuer at at_issuer wire.issuer,
        At-room (16 + 2 + v + 2 + i + 16) h0
            (omega (arith, size, length-append_bytes (purge_bytes evt) rest)),
        size,
      )
      refl

bounded_refresh :
    (buf : Bytes) (off : ℕ) (evt : RefreshEvent) (rest : Bytes)
    → IsWireRefresh evt
    → At buf off (refresh_bytes evt ++ rest)
    → decode_refresh_payload_bounded buf off ≡ ok (evt, off + length (refresh_bytes evt))
unfolding decode_refresh_payload_bounded refresh_bytes_then refresh_payload_len
bounded_refresh buf off evt rest wire h0 =
    let h : At buf off (refresh_bytes_then evt rest) =
      subst (λ t. At buf off t) (refresh_bytes-append evt rest) h0 in
    let i = length evt.issuer in
    let size : length (refresh_bytes evt) ≡ 16 + 2 + i + 16 =
      omega (arith, length-refresh_bytes evt wire.key) in
    let at = time_bytes evt.issued_at ++ (word_bytes evt.seq ++ rest) in
    let issuer = string_bytes evt.issuer ++ at in
    let at_issuer : At buf (off + 16) issuer = rw wire.key at (At-step evt.key issuer h) in
    rw
      (
        decode_refresh_payload-At evt rest wire h,
        At-room (16 + 2) h0 (omega (arith, size, length-append_bytes (refresh_bytes evt) rest)),
        At-string_length evt.issuer at at_issuer wire.issuer,
        At-room (16 + 2 + i + 16) h0
            (omega (arith, size, length-append_bytes (refresh_bytes evt) rest)),
        size,
      )
      refl

-- The four batches of the codec.
pub purge_batch_gossip-Carries : Carries purge_batch_gossip IsWirePurge purge_bytes
unfolding frame_len
purge_batch_gossip-Carries = record {
  puts = λ evt w. put_purge_payload-Puts evt w.vary_key w.issuer;
  size = λ evt w. length-purge_bytes evt w.key;
  reads = bounded_purge;
  header = λ n. refl;
}

pub purge_batch_http-Carries : Carries purge_batch_http IsWirePurge purge_bytes
unfolding frame_len
purge_batch_http-Carries = record {
  puts = purge_batch_gossip-Carries.puts;
  size = purge_batch_gossip-Carries.size;
  reads = bounded_purge;
  header = λ n. refl;
}

pub refresh_batch_gossip-Carries : Carries refresh_batch_gossip IsWireRefresh refresh_bytes
unfolding frame_len
refresh_batch_gossip-Carries = record {
  puts = λ evt w. put_refresh_payload-Puts evt w.issuer;
  size = λ evt w. length-refresh_bytes evt w.key;
  reads = bounded_refresh;
  header = λ n. refl;
}

pub refresh_batch_http-Carries : Carries refresh_batch_http IsWireRefresh refresh_bytes
unfolding frame_len
refresh_batch_http-Carries = record {
  puts = refresh_batch_gossip-Carries.puts;
  size = refresh_batch_gossip-Carries.size;
  reads = bounded_refresh;
  header = λ n. refl;
}
