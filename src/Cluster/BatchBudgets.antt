-- ===== src/Cluster/BatchBudgets.antt =====
-- internal/cluster/codec_batch.go: encodeBudgeted, for any codec that carries its events.
use bouine.Prelude.{
  ℕ, zero, suc, ◌+◌, ◌≤◌, ◌≡◌, refl, sym, ap, ◌∙◌, ◌⊎◌, inl, inr, Bool, true, false, ◌&&◌, List, [],
  ◌∷◌, ◌++◌, arith, length, length-append, append_nil, Bool-cases,
}
use mathlib.Core.Path.{subst}
use bouine.Prelude.Bytes.{Bytes}
use bouine.Prelude.Int.{ℤ, pos, leb_ℤ, ltb_ℤ, ◌≤ℤ◌}
use bouine.Cluster.Wire.{Outcome, ok, ◌>>=◌, frame_len}
use bouine.Cluster.Batches.{
  BatchCodec, add_payloads, encode, decode, fill_frame, sub_batches, encode_each, encode_budgeted,
}
use bouine.Cluster.BatchFrames.{Carries}
use bouine.Cluster.BatchSplits.{All, encode_total, decode-encode}

-- What a receiver applies of several frames: the events of each, in order.
unfoldable pub decode_each : {E : Type 0} → BatchCodec E → List Bytes → Outcome (List E)
decode_each c [] = ok []
decode_each c (frame ∷ frames) = do
  evts ← decode c frame
  others ← decode_each c frames
  ok (evts ++ others)

All-append : {E : Type 0} (P : E → Type 0) (xs ys : List E) → All P (xs ++ ys) → All P xs × All P ys
All-append P [] ys h = (tt, h)
All-append P (x ∷ xs) ys h = let (l, r) = All-append P xs ys h.1 in ((h.0, l), r)

joined : {E : Type 0} → List (List E) → List E
joined [] = []
joined (b ∷ bs) = b ++ joined bs

module _ {E : Type 0} (c : BatchCodec E) {IsWire : E → Type 0} {bytes : E → Bytes}
    (k : Carries c IsWire bytes) where
  fill_frame-append :
      (budget : ℤ) (evts : List E) (frame : ℕ) (started : Bool)
      → let (batch, rest) = fill_frame c budget frame started evts in batch ++ rest ≡ evts
  unfolding fill_frame
  fill_frame-append budget [] frame started = refl
  fill_frame-append budget (evt ∷ evts) frame started =
      let n = frame + c.payload_len evt in
      elim (Bool-cases (started && ltb_ℤ budget (pos n))) [
        | inl full ↦ rw full refl
        | inr fits ↦ rw fits (ap (λ t. evt ∷ t) (fill_frame-append budget evts n true))
      ]

  -- Behind the first event a frame takes only what fits.
  fill_frame_fits :
      (budget : ℤ) (evts : List E) (frame : ℕ)
      → pos frame ≤ℤ budget
      → pos (add_payloads c frame (fill_frame c budget frame true evts).0) ≤ℤ budget
  unfolding fill_frame add_payloads
  fill_frame_fits budget [] frame h = h
  fill_frame_fits budget (evt ∷ evts) frame h =
      let n = frame + c.payload_len evt in
      elim (Bool-cases (ltb_ℤ budget (pos n))) [
        | inl full ↦ rw full h
        | inr fits ↦ rw fits (fill_frame_fits budget evts n (ground (arith, fits)))
      ]

  -- A first event that is over the budget stays alone.
  fill_frame_alone :
      (budget : ℤ) (evts : List E) (frame : ℕ)
      → leb_ℤ (pos frame) budget ≡ false
      → (fill_frame c budget frame true evts).0 ≡ []
  unfolding fill_frame
  fill_frame_alone budget [] frame h = refl
  fill_frame_alone budget (evt ∷ evts) frame h =
      let over : ltb_ℤ budget (pos (frame + c.payload_len evt)) ≡ true = ground (arith, h) in
      rw over refl

  -- The frame of a batch is within the budget, or has a single event.
  Fits : ℤ → List E → Type 0
  Fits budget batch =
      (pos (add_payloads c (frame_len c.gossip 4) batch) ≤ℤ budget)
      ⊎ ((evt : E) × (batch ≡ (evt ∷ [])))

  first_frame-Fits :
      (budget : ℤ) (evt : E) (evts : List E)
      → Fits budget
          (evt ∷ (fill_frame c budget (frame_len c.gossip 4 + c.payload_len evt) true evts).0)
  unfolding Fits add_payloads
  first_frame-Fits budget evt evts =
      let n = frame_len c.gossip 4 + c.payload_len evt in
      elim (Bool-cases (leb_ℤ (pos n) budget)) [
        | inl fits ↦ inl (fill_frame_fits budget evts n (ground (arith, fits)))
        | inr over ↦ inr (evt, ap (λ t. evt ∷ t) (fill_frame_alone budget evts n over))
      ]

  -- As many rounds as events leave none over.
  sub_batches-joined :
      (budget : ℤ) (fuel : ℕ) (evts : List E)
      → length evts ≤ fuel
      → (joined (sub_batches c budget fuel evts) ≡ evts)
        × All (Fits budget) (sub_batches c budget fuel evts)
  unfolding sub_batches joined fill_frame
  sub_batches-joined budget fuel [] h = (refl, tt)
  sub_batches-joined budget zero (evt ∷ evts) h = absurd (omega arith)
  sub_batches-joined budget (suc fuel) (evt ∷ evts) h =
      let n = frame_len c.gossip 4 + c.payload_len evt in
      let filled = fill_frame c budget n true evts in
      let whole : filled.0 ++ filled.1 ≡ evts = fill_frame-append budget evts n true in
      let short : length filled.1 ≤ fuel =
        omega (arith, h, ap length whole, length-append filled.0 filled.1) in
      let (j, f) = sub_batches-joined budget fuel filled.1 short in
      (ap (λ t. evt ∷ t) (ap (λ t. filled.0 ++ t) j ∙ whole), (first_frame-Fits budget evt evts, f))

  -- A frame that is within the budget or has a single event.
  pub FrameFits : ℤ → Bytes → Type 0
  FrameFits budget frame =
      (pos (length frame) ≤ℤ budget) ⊎ ((evt : E) × (encode c (evt ∷ []) ≡ ok frame))

  encode_each_lem :
      (budget : ℤ) (batches : List (List E))
      → All IsWire (joined batches)
      → length (joined batches) ≤ 4096
      → All (Fits budget) batches
      → (frames : List Bytes) × (encode_each c batches ≡ ok frames)
        × (decode_each c frames ≡ ok (joined batches))
        × All (FrameFits budget) frames
  unfolding encode_each decode_each joined Fits FrameFits
  encode_each_lem budget [] w few f = ([], refl, refl, tt)
  encode_each_lem budget (b ∷ bs) w few f =
      let (wb, wbs) = All-append IsWire b (joined bs) w in
      let sum : length b + length (joined bs) ≤ 4096 =
        omega (arith, few, length-append b (joined bs)) in
      let (frame, enc, size) = encode_total c k b wb in
      let dec : decode c frame ≡ ok b = rw enc at (decode-encode c k b wb (omega (arith, sum))) in
      let (frames, encs, decs, fits) = encode_each_lem budget bs wbs (omega (arith, sum)) f.1 in
      let fit : FrameFits budget frame = elim (f.0) [
        | inl within ↦ inl (rw size within)
        | inr (evt, alone) ↦ inr (evt, subst (λ l. encode c l ≡ ok frame) alone enc)
      ] in
      (frame ∷ frames, rw (enc, encs) refl, rw (dec, decs) refl, (fit, fits))

  -- Whatever the budget, encodeBudgeted returns frames for events that the wire can carry, of which
  -- there are at most 4096: applied one after the other the frames give the events in their order,
  -- and under a positive budget each frame is within it or is that of a single event.
  pub encode_budgeted_lem :
      (evts : List E) (budget : ℤ)
      → All IsWire evts
      → length evts ≤ 4096
      → (frames : List Bytes) × (encode_budgeted c evts budget ≡ ok frames)
        × (decode_each c frames ≡ ok evts)
        × ((leb_ℤ budget (pos 0) ≡ true) ⊎ All (FrameFits budget) frames)
  unfolding encode_budgeted decode_each joined encode_each
  encode_budgeted_lem [] budget w few = ([], refl, refl, inr tt)
  encode_budgeted_lem (evt ∷ evts) budget w few = elim (Bool-cases (leb_ℤ budget (pos 0))) [
    | inl off ↦
        let (frame, enc, size) = encode_total c k (evt ∷ evts) w in
        let dec : decode c frame ≡ ok (evt ∷ evts) =
          rw enc at (decode-encode c k (evt ∷ evts) w few) in
        (frame ∷ [], rw (off, enc) refl, rw (dec, append_nil evts) refl, inl off)
    | inr on ↦
        let (j, f) = sub_batches-joined budget (length (evt ∷ evts)) (evt ∷ evts) (omega arith) in
        let batches = sub_batches c budget (length (evt ∷ evts)) (evt ∷ evts) in
        let (frames, encs, decs, fits) =
          encode_each_lem budget batches (subst (λ l. All IsWire l) (sym j) w)
            (subst (λ l. length l ≤ 4096) (sym j) few) f in
        (frames, rw on encs, decs ∙ ap ok j, inr fits)
  ]
