-- ===== src/Cluster/Batches.antt =====
-- internal/cluster/codec_batch.go: many events in one frame, and in frames of a bounded size. The kind
-- of a batch, which its error texts name, is left out.
use bouine.Prelude.{
  ℕ, zero, suc, ◌+◌, ◌-◌, ◌%◌, ◌^◌, Bool, true, false, ◌&&◌, List, [], ◌∷◌, ltb, ◌==◌,
  if◌then◌else◌, length,
}
use bouine.Prelude.Bytes.{Bytes}
use bouine.Prelude.Int.{ℤ, pos, leb_ℤ, ltb_ℤ}
use bouine.Cluster.Wire.{
  Outcome, ok, err, ◌>>◌, ◌>>=◌, Cursor, too_many_events, trailing_bytes, le_bytes, store, load,
  room, encode_frame, decode_frame, frame_len,
}
use bouine.Cluster.Events.{
  PurgeEvent, RefreshEvent, purge_payload_len, put_purge_payload, decode_purge_payload,
  refresh_payload_len, put_refresh_payload, decode_refresh_payload,
}

abbrev pub batch_max_events : ℕ
batch_max_events = 4096

abbrev pub batch_count_len : ℕ
batch_count_len = 4

pub record BatchCodec (E : Type 0) : Type 0 where
  pub payload_len : E → ℕ
  pub put : E → Cursor → Outcome Cursor
  pub decode_one : Bytes → ℕ → Outcome (E × ℕ)
  pub msg_type : ℕ
  pub gossip : Bool

unfoldable pub put_all : {E : Type 0} → BatchCodec E → List E → Cursor → Outcome Cursor
put_all c [] cur = ok cur
put_all c (evt ∷ evts) cur = c.put evt cur >>= put_all c evts

-- `total`, to which a loop adds each payload.
unfoldable pub add_payloads : {E : Type 0} → BatchCodec E → ℕ → List E → ℕ
add_payloads c total [] = total
add_payloads c total (evt ∷ evts) = add_payloads c (total + c.payload_len evt) evts

unfoldable pub put_batch : {E : Type 0} → BatchCodec E → List E → Cursor → Outcome Cursor
put_batch c evts cur =
    store cur (le_bytes batch_count_len (length evts % 2 ^ 32)) >>= put_all c evts

unfoldable pub encode : {E : Type 0} → BatchCodec E → List E → Outcome Bytes
encode c evts =
    encode_frame (add_payloads c (frame_len c.gossip batch_count_len) evts) c.msg_type
      (put_batch c evts)

unfoldable pub decode_events : {E : Type 0} → BatchCodec E → ℕ → Bytes → ℕ → Outcome (List E × ℕ)
decode_events c zero buf off = ok ([], off)
decode_events c (suc n) buf off = do
  (evt, next) ← c.decode_one buf off
  (evts, end) ← decode_events c n buf next
  ok (evt ∷ evts, end)

unfoldable pub whole_frame : {E : Type 0} → Bytes → List E × ℕ → Outcome (List E)
whole_frame buf (evts, off) =
    if off == length buf then ok evts else err (trailing_bytes (length buf - off))

-- The cap on the events of a frame.
unfoldable pub cap_count : ℕ → Outcome (Unit {0})
cap_count count = if ltb batch_max_events count then err (too_many_events count) else ok tt

unfoldable pub decode_batch : {E : Type 0} → BatchCodec E → Bytes → ℕ → Outcome (List E)
decode_batch c buf off = do
  room buf off batch_count_len
  count ← load 4 buf off
  cap_count count
  (evts, end) ← decode_events c count buf (off + batch_count_len)
  whole_frame buf (evts, end)

unfoldable pub decode : {E : Type 0} → BatchCodec E → Bytes → Outcome (List E)
decode c buf = decode_frame buf c.msg_type (decode_batch c)

-- The inner loop of encodeBudgeted: the events of one frame, and the rest. `started` says that the
-- frame has an event.
unfoldable pub fill_frame : {E : Type 0} → BatchCodec E → ℤ → ℕ → Bool → List E → List E × List E
fill_frame c budget frame started [] = ([], [])
fill_frame c budget frame started (evt ∷ evts) =
    let n = frame + c.payload_len evt in
    let (batch, rest) = fill_frame c budget n true evts in
    if started && ltb_ℤ budget (pos n) then ([], evt ∷ evts) else (evt ∷ batch, rest)

-- The outer loop. Each round takes an event, so that as many rounds as events are enough.
unfoldable pub sub_batches : {E : Type 0} → BatchCodec E → ℤ → ℕ → List E → List (List E)
sub_batches c budget fuel [] = []
sub_batches c budget zero (evt ∷ evts) = []
sub_batches c budget (suc fuel) (evt ∷ evts) =
    let (batch, rest) =
      fill_frame c budget (frame_len c.gossip batch_count_len) false (evt ∷ evts) in
    batch ∷ sub_batches c budget fuel rest

unfoldable pub encode_each : {E : Type 0} → BatchCodec E → List (List E) → Outcome (List Bytes)
encode_each c [] = ok []
encode_each c (batch ∷ batches) = do
  body ← encode c batch
  frames ← encode_each c batches
  ok (body ∷ frames)

unfoldable pub encode_budgeted : {E : Type 0} → BatchCodec E → List E → ℤ → Outcome (List Bytes)
encode_budgeted c [] budget = ok []
encode_budgeted c (evt ∷ evts) budget =
    if leb_ℤ budget (pos 0)
    then encode_each c ((evt ∷ evts) ∷ [])
    else encode_each c (sub_batches c budget (length (evt ∷ evts)) (evt ∷ evts))

unfoldable pub decode_purge_payload_bounded : Bytes → ℕ → Outcome (PurgeEvent × ℕ)
decode_purge_payload_bounded buf off = do
  evt ← decode_purge_payload buf off
  room buf off 16
  vk_len ← load 2 buf (off + 16)
  room buf off (16 + 2 + vk_len + 2)
  issuer_len ← load 2 buf (off + (16 + 2 + vk_len))
  room buf off (16 + 2 + vk_len + 2 + issuer_len + 16)
  ok (evt, off + (16 + 2 + vk_len + 2 + issuer_len + 16))

unfoldable pub decode_refresh_payload_bounded : Bytes → ℕ → Outcome (RefreshEvent × ℕ)
decode_refresh_payload_bounded buf off = do
  evt ← decode_refresh_payload buf off
  room buf off (16 + 2)
  issuer_len ← load 2 buf (off + 16)
  room buf off (16 + 2 + issuer_len + 16)
  ok (evt, off + (16 + 2 + issuer_len + 16))

abbrev pub purge_batch_gossip : BatchCodec PurgeEvent
purge_batch_gossip = record {
  payload_len = purge_payload_len;
  put = put_purge_payload;
  decode_one = decode_purge_payload_bounded;
  msg_type = 4;
  gossip = true;
}

abbrev pub purge_batch_http : BatchCodec PurgeEvent
purge_batch_http = record purge_batch_gossip { msg_type = 0; gossip = false }

abbrev pub refresh_batch_gossip : BatchCodec RefreshEvent
refresh_batch_gossip = record {
  payload_len = refresh_payload_len;
  put = put_refresh_payload;
  decode_one = decode_refresh_payload_bounded;
  msg_type = 5;
  gossip = true;
}

abbrev pub refresh_batch_http : BatchCodec RefreshEvent
refresh_batch_http = record refresh_batch_gossip { msg_type = 0; gossip = false }
