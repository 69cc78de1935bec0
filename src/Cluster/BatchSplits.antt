-- ===== src/Cluster/BatchSplits.antt =====
-- internal/cluster/codec_batch.go: frames of many events, for any codec that carries its events.
use bouine.Prelude.{
  ℕ, ◌+◌, ◌%◌, ◌^◌, ◌≤◌, ◌≡◌, refl, sym, ◌∙◌, true, false, List, [], ◌∷◌, ◌++◌, arith, ltb, ◌==◌,
  length, append_nil,
}
use bouine.Prelude.Bytes.{Bytes}
use bouine.Cluster.Wire.{ok, ◌>>=◌, store, le_bytes, frame_len, load}
use bouine.Cluster.Cursor.{
  length-append_bytes, Puts, Puts-bind, store-Puts, header_bytes, encode_frame-Puts,
}
use bouine.Cluster.Reads.{At, At-step, At-room, At-load}
use bouine.Cluster.Frames.{decode_frame-encode_frame}
use bouine.Cluster.Batches.{
  BatchCodec, put_all, add_payloads, put_batch, encode, decode_events, whole_frame, cap_count,
  decode_batch, decode,
}
use bouine.Cluster.BatchFrames.{Carries}

abbrev pub All : {E : Type 0} → (E → Type 0) → List E → Type 0
All P [] = Unit
All P (x ∷ xs) = P x × All P xs

module _ {E : Type 0} (c : BatchCodec E) {IsWire : E → Type 0} {bytes : E → Bytes}
    (k : Carries c IsWire bytes) where
  all_bytes : List E → Bytes
  all_bytes [] = []
  all_bytes (evt ∷ evts) = bytes evt ++ all_bytes evts

  put_all-Puts : (evts : List E) → All IsWire evts → Puts (put_all c evts) (all_bytes evts)
  unfolding put_all all_bytes
  put_all-Puts [] w = λ done pad h. rw (append_nil done) refl
  put_all-Puts (evt ∷ evts) w =
      Puts-bind (c.put evt) (put_all c evts) (k.puts evt w.0) (put_all-Puts evts w.1)

  add_payloads-length :
      (total : ℕ) (evts : List E)
      → All IsWire evts
      → add_payloads c total evts ≡ total + length (all_bytes evts)
  unfolding add_payloads all_bytes
  add_payloads-length total [] w = omega arith
  add_payloads-length total (evt ∷ evts) w =
      add_payloads-length (total + c.payload_len evt) evts w.1
      ∙ omega (arith, k.size evt w.0, length-append_bytes (bytes evt) (all_bytes evts))

  decode_events-At :
      (buf : Bytes) (evts : List E) (off : ℕ)
      → All IsWire evts
      → At buf off (all_bytes evts)
      → decode_events c (length evts) buf off ≡ ok (evts, off + length (all_bytes evts))
  unfolding decode_events all_bytes
  decode_events-At buf [] off w h = let e : off + 0 ≡ off = omega arith in rw e refl
  decode_events-At buf (evt ∷ evts) off w h =
      let rest = all_bytes evts in
      let e : off + length (bytes evt) + length rest ≡ off + length (bytes evt ++ rest) =
        omega (arith, length-append_bytes (bytes evt) rest) in
      rw
        (
          k.reads buf off evt rest w.0 h,
          decode_events-At buf evts (off + length (bytes evt)) w.1 (At-step (bytes evt) rest h),
          e,
        )
        refl

  batch_bytes : List E → Bytes
  batch_bytes evts = le_bytes 4 (length evts % 2 ^ 32) ++ all_bytes evts

  put_batch-Puts : (evts : List E) → All IsWire evts → Puts (put_batch c evts) (batch_bytes evts)
  unfolding put_batch batch_bytes
  put_batch-Puts evts w =
      Puts-bind (λ cur. store cur (le_bytes 4 (length evts % 2 ^ 32))) (put_all c evts)
        (store-Puts (le_bytes 4 (length evts % 2 ^ 32))) (put_all-Puts evts w)

  frame_size :
      (evts : List E)
      → All IsWire evts
      → add_payloads c (frame_len c.gossip 4) evts
        ≡ length (header_bytes c.msg_type) + length (batch_bytes evts)
  unfolding batch_bytes
  frame_size evts w = omega (arith, add_payloads-length (frame_len c.gossip 4) evts w, k.header 4)

  decode_batch-At :
      {buf : Bytes} {off : ℕ} (evts : List E)
      → All IsWire evts
      → length evts ≤ 4096
      → At buf off (batch_bytes evts)
      → decode_batch c buf off ≡ ok evts
  unfolding decode_batch batch_bytes cap_count whole_frame
  decode_batch-At {buf = buf} {off = off} evts w few h =
      let n : length evts % 2 ^ 32 ≡ length evts = omega (arith, few) in
      let count : load 4 buf off ≡ ok (length evts) =
        rw n at (At-load 4 (length evts % 2 ^ 32) (all_bytes evts) h (omega arith)) in
      let body : At buf (off + 4) (all_bytes evts) =
        At-step (le_bytes 4 (length evts % 2 ^ 32)) (all_bytes evts) h in
      let capped : ltb 4096 (length evts) ≡ false = ground (arith, few) in
      let whole : (off + 4 + length (all_bytes evts) == length buf) ≡ true =
        ground (arith, body.inside) in
      rw
        (
          At-room 4 h (omega arith),
          count,
          capped,
          decode_events-At buf evts (off + 4) w body,
          whole,
        )
        refl

  -- A batch of at most 4096 events that the wire can carry is decoded from its one frame as it was
  -- sent.
  pub decode-encode :
      (evts : List E)
      → All IsWire evts
      → length evts ≤ 4096
      → (encode c evts >>= decode c) ≡ ok evts
  unfolding encode decode
  decode-encode evts w few =
      decode_frame-encode_frame c.msg_type (put_batch c evts) (decode_batch c)
        (put_batch-Puts evts w) (frame_size evts w) (λ buf off h. decode_batch-At evts w few h)

  -- The frame itself, whose length is what encodeBudgeted counts.
  pub encode_total :
      (evts : List E)
      → All IsWire evts
      → (frame : Bytes) × (encode c evts ≡ ok frame)
        × (length frame ≡ add_payloads c (frame_len c.gossip 4) evts)
  unfolding encode
  encode_total evts w =
      let hdr = header_bytes c.msg_type in
      let len : add_payloads c (frame_len c.gossip 4) evts ≡ length (hdr ++ batch_bytes evts) =
        omega (arith, frame_size evts w, length-append_bytes hdr (batch_bytes evts)) in
      (
        hdr ++ batch_bytes evts,
        encode_frame-Puts (add_payloads c (frame_len c.gossip 4) evts) c.msg_type (put_batch c evts)
            (batch_bytes evts) (put_batch-Puts evts w) len,
        sym len,
      )
