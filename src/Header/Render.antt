-- ===== src/Header/Render.antt =====
-- What the tokenizer of pkg/header/cachedirectives.go reads, against a printer of directive lists.
use bouine.Prelude.{
  ℕ, zero, suc, ◌≤◌, ◌<◌, ◌≡◌, refl, ◌∙◌, Bool, true, false, ◌&&◌, List, [], ◌∷◌, ◌++◌, some, arith,
  ◌==◌, length, not, length-append, foldl,
}
use bouine.Prelude.Bytes.{Bytes, span}
use bouine.Header.CacheControl.{
  Directives, no_directives, skip_cc_delimiters, scan_quoted, scan_plain, scan_cc_value,
  scan_after_key, scan_key, scan_cc_token, apply_cc_directive, parse_loop, parse_cache_control,
}
use bouine.Header.Scan.{parse_loop_stop, parse_loop_step}

-- A directive as it is written: a key alone, a key with a plain value, a key with a quoted one.
pub data Written : Type 0 where
  bare : Bytes → Written
  plain : Bytes → Bytes → Written
  quoted : Bytes → Bytes → Written

abbrev pub AllBytes : (ℕ → Bool) → Bytes → Type 0
AllBytes p [] = Unit
AllBytes p (c ∷ s) = (p c ≡ true) × AllBytes p s

abbrev pub in_key : ℕ → Bool
in_key c = not (c == b'=') && not (c == b',') && not (c == b' ') && not (c == 9)

abbrev pub in_plain : ℕ → Bool
in_plain c = not (c == b',') && not (c == b' ') && not (c == 9)

abbrev pub in_quoted : ℕ → Bool
in_quoted c = not (c == b'"')

abbrev pub IsKey : Bytes → Type 0
IsKey [] = ⊥
IsKey (c ∷ s) = AllBytes in_key (c ∷ s)

-- A plain value has no separator, and does not open with a quote.
abbrev pub IsPlain : Bytes → Type 0
IsPlain [] = Unit
IsPlain (c ∷ s) = (in_quoted c ≡ true) × AllBytes in_plain (c ∷ s)

abbrev pub IsWritten : Written → Type 0
IsWritten (bare k) = IsKey k
IsWritten (plain k v) = IsKey k × IsPlain v
IsWritten (quoted k v) = IsKey k × AllBytes in_quoted v

abbrev pub AllWritten : List Written → Type 0
AllWritten [] = Unit
AllWritten (w ∷ ws) = IsWritten w × AllWritten ws

abbrev pub key_of : Written → Bytes
key_of (bare k) = k
key_of (plain k v) = k
key_of (quoted k v) = k

abbrev pub value_of : Written → Bytes
value_of (bare k) = []
value_of (plain k v) = v
value_of (quoted k v) = v

-- What follows the key.
abbrev pub render_value : Written → Bytes → Bytes
render_value (bare k) rest = rest
render_value (plain k v) rest = b'=' ∷ (v ++ rest)
render_value (quoted k v) rest = b'=' ∷ b'"' ∷ (v ++ (b'"' ∷ rest))

abbrev pub render_one : Written → Bytes → Bytes
render_one w rest = key_of w ++ render_value w rest

-- The directives behind the first, each after a comma and a space.
abbrev pub render_more : List Written → Bytes
render_more [] = []
render_more (w ∷ ws) = b',' ∷ b' ' ∷ render_one w (render_more ws)

abbrev pub render : List Written → Bytes
render [] = []
render (w ∷ ws) = render_one w (render_more ws)

-- The directives applied one after the other.
abbrev pub apply_written : Directives → Written → Directives
apply_written d w = apply_cc_directive d (key_of w) (value_of w)

-- A text that a loop with the test `p` stops in front of.
abbrev Stops : (ℕ → Bool) → Bytes → Type 0
Stops p [] = Unit
Stops p (c ∷ s) = p c ≡ false

span_append :
    (p : ℕ → Bool) (s rest : Bytes) → AllBytes p s → Stops p rest → span p (s ++ rest) ≡ (s, rest)
unfolding span
span_append p [] [] a h = refl
span_append p [] (c ∷ r) a h = rw h
span_append p (c ∷ s) rest a h = rw (a.0, span_append p s rest a.1 h)

more-Stops_key : (ws : List Written) → Stops in_key (render_more ws)
more-Stops_key [] = tt
more-Stops_key (w ∷ ws) = refl

more-Stops_plain : (ws : List Written) → Stops in_plain (render_more ws)
more-Stops_plain [] = tt
more-Stops_plain (w ∷ ws) = refl

value-Stops_key : (w : Written) (ws : List Written) → Stops in_key (render_value w (render_more ws))
value-Stops_key (bare k) ws = more-Stops_key ws
value-Stops_key (plain k v) ws = refl
value-Stops_key (quoted k v) ws = refl

IsKey-AllBytes : (k : Bytes) → IsKey k → AllBytes in_key k
IsKey-AllBytes [] h = tt
IsKey-AllBytes (c ∷ k) h = h

scan_cc_value_plain :
    (v : Bytes) (ws : List Written)
    → IsPlain v
    → scan_cc_value (v ++ render_more ws) ≡ (v, render_more ws)
unfolding scan_cc_value scan_plain
scan_cc_value_plain [] [] h = unfold span in refl
scan_cc_value_plain [] (w ∷ ws) h = span_append in_plain [] (render_more (w ∷ ws)) tt refl
scan_cc_value_plain (c ∷ v) ws h =
    let scanned : span in_plain ((c ∷ v) ++ render_more ws) ≡ (c ∷ v, render_more ws) =
      span_append in_plain (c ∷ v) (render_more ws) h.1 (more-Stops_plain ws) in
    ground (arith, scanned)

scan_cc_value_quoted :
    (v : Bytes) (rest : Bytes)
    → AllBytes in_quoted v
    → scan_cc_value (b'"' ∷ (v ++ (b'"' ∷ rest))) ≡ (v, rest)
unfolding scan_cc_value scan_quoted
scan_cc_value_quoted v rest h = rw (span_append in_quoted v (b'"' ∷ rest) h refl)

scan_after_key_value :
    (key : Bytes) (w : Written) (ws : List Written)
    → IsWritten w
    → scan_after_key key (render_value w (render_more ws)) ≡ (key, value_of w, render_more ws)
unfolding scan_after_key
scan_after_key_value key (bare k) [] h = refl
scan_after_key_value key (bare k) (w ∷ ws) h = refl
scan_after_key_value key (plain k v) ws h = rw (scan_cc_value_plain v ws h.1)
scan_after_key_value key (quoted k v) ws h = rw (scan_cc_value_quoted v (render_more ws) h.1)

written-IsKey : (w : Written) → IsWritten w → IsKey (key_of w)
written-IsKey (bare k) h = h
written-IsKey (plain k v) h = h.0
written-IsKey (quoted k v) h = h.0

-- One directive is read back whole, up to what follows it.
scan_cc_token_render :
    (w : Written) (ws : List Written)
    → IsWritten w
    → scan_cc_token (render_one w (render_more ws)) ≡ (key_of w, value_of w, render_more ws)
unfolding scan_cc_token scan_key
scan_cc_token_render w ws h =
    let scanned : span in_key (key_of w ++ render_value w (render_more ws))
        ≡ (key_of w, render_value w (render_more ws)) =
      span_append in_key (key_of w) (render_value w (render_more ws))
        (IsKey-AllBytes (key_of w) (written-IsKey w h)) (value-Stops_key w ws) in
    rw scanned (scan_after_key_value (key_of w) w ws h)

skip_key :
    (k rest : Bytes)
    → IsKey k
    → (c : ℕ) × (r : Bytes) × (k ++ rest ≡ c ∷ r) × (skip_cc_delimiters (k ++ rest) ≡ c ∷ r)
unfolding skip_cc_delimiters
skip_key [] rest h = absurd h
skip_key (c ∷ k) rest h = (c, k ++ rest, refl, ground (arith, h.0))

-- A round of the loop over one written directive.
parse_loop-render_one :
    (f : ℕ) (w : Written) (ws : List Written) (d : Directives)
    → IsWritten w
    → parse_loop (suc f) (render_one w (render_more ws)) d
      ≡ parse_loop f (render_more ws) (apply_written d w)
parse_loop-render_one f w ws d h =
    let (c, r, e, s) = skip_key (key_of w) (render_value w (render_more ws)) (written-IsKey w h) in
    let token : scan_cc_token (c ∷ r) ≡ (key_of w, value_of w, render_more ws) =
      rw (← e) (scan_cc_token_render w ws h) in
    parse_loop_step f (render_one w (render_more ws)) d c r s ∙ rw token

skip_more :
    (w : Written) (rest : Bytes)
    → skip_cc_delimiters (b',' ∷ b' ' ∷ render_one w rest) ≡ skip_cc_delimiters (render_one w rest)
unfolding skip_cc_delimiters
skip_more w rest = refl

parse_loop_skips :
    (f : ℕ) (s t : Bytes) (d : Directives)
    → skip_cc_delimiters s ≡ skip_cc_delimiters t
    → parse_loop (suc f) s d ≡ parse_loop (suc f) t d
unfolding parse_loop
parse_loop_skips f s t d h = rw (h, parse_loop)

length-render_value : (w : Written) (rest : Bytes) → length rest ≤ length (render_value w rest)
length-render_value (bare k) rest = omega arith
length-render_value (plain k v) rest = omega (arith, length-append {0} v rest)
length-render_value (quoted k v) rest = omega (arith, length-append {0} v (b'"' ∷ rest))

key_has_bytes : (k : Bytes) → IsKey k → 0 < length k
key_has_bytes [] h = absurd h
key_has_bytes (c ∷ k) h = omega arith

length-render_one :
    (w : Written) (ws : List Written)
    → length (render_more ws) ≤ length (render_one w (render_more ws))
length-render_one w ws = omega (
  arith,
  length-append {0} (key_of w) (render_value w (render_more ws)),
  length-render_value w (render_more ws),
)

parse_loop-render_more :
    (ws : List Written) (f : ℕ) (d : Directives)
    → AllWritten ws
    → length (render_more ws) < f
    → parse_loop f (render_more ws) d ≡ some (foldl apply_written d ws)
parse_loop-render_more ws zero d h lt = absurd (omega arith)
parse_loop-render_more [] (suc f) d h lt =
    parse_loop_stop f [] d (unfold skip_cc_delimiters in refl)
parse_loop-render_more (w ∷ ws) (suc f) d h lt =
    parse_loop_skips f _ (render_one w (render_more ws)) d (skip_more w (render_more ws))
    ∙ parse_loop-render_one f w ws d h.0
    ∙ parse_loop-render_more ws f (apply_written d w) h.1 (omega (arith, length-render_one w ws))

length-render_more_lt :
    (w : Written) (ws : List Written)
    → IsWritten w
    → length (render_more ws) < length (render_one w (render_more ws))
length-render_more_lt w ws h = omega (
  arith,
  length-append {0} (key_of w) (render_value w (render_more ws)),
  length-render_value w (render_more ws),
  key_has_bytes (key_of w) (written-IsKey w h),
)

-- Reading back a printed list of directives applies each of them, in order, to the empty record:
-- keys without separators, plain values without separators, quoted ones without a quote.
pub parse_cache_control-render :
    (ws : List Written)
    → AllWritten ws
    → parse_cache_control (render ws) ≡ foldl apply_written no_directives ws
unfolding parse_cache_control
parse_cache_control-render [] h = unfold parse_loop skip_cc_delimiters in refl
parse_cache_control-render (w ∷ ws) h =
    let whole = render_one w (render_more ws) in
    let read : parse_loop (suc (length whole)) whole no_directives
        ≡ some (foldl apply_written no_directives (w ∷ ws)) =
      parse_loop-render_one (length whole) w ws no_directives h.0
      ∙ parse_loop-render_more ws (length whole) (apply_written no_directives w) h.1
          (length-render_more_lt w ws h.0) in
    rw read
