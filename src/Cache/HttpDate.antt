-- ===== src/Cache/HttpDate.antt =====
-- internal/cache/httpdate.go: dates and ages of HTTP headers. `time.Parse` of the standard library
-- is the parameter `time_parse`: a layout and a text, and the time if the text fits the layout.
use bouine.Prelude.{
  ℕ, ◌+◌, ◌-◌, Bool, true, false, ◌&&◌, ◌||◌, List, [], ◌∷◌, ◌++◌, Option, none, some, ltb, leb,
  ◌==◌, if◌then◌else◌, length, get_or, drop, take, not,
}
use bouine.Prelude.Bytes.{Bytes, codes, is_empty, is_digit, trim_space, contains}
use bouine.Prelude.Int.{ℤ, pos, ◌+ℤ◌, ◌*ℤ◌, ltb_ℤ, leb_ℤ, eq_ℤ, wrap64, div_trunc}
use bouine.Header.Text.{eq_fold, parse_int_no_alloc}
use bouine.Header.CacheControl.{second}
use bouine.Header.HeaderMap.{HeaderMap, get}
use bouine.Api.Object.{Object, is_zero_time, sub_time}

-- `strings.Index(s, ":")`
unfoldable pub index_colon : ℕ → Bytes → Option ℕ
index_colon i [] = none
index_colon i (c ∷ s) = let rest = index_colon (i + 1) s in if c == b':' then some i else rest

unfoldable pub valid_http_time_field : Bytes → Bool
valid_http_time_field s = elim (index_colon 0 s) [
  | none ↦ true
  | some idx ↦ if ltb idx 2 then true else is_digit (get_or s (idx - 2) 0)
]

unfoldable pub normalize_tz : Bytes → Bytes
normalize_tz s =
    if leb 3 (length s)
    then (if eq_fold (drop (length s - 3) s) (codes "gmt")
        then take (length s - 3) s ++ codes "GMT"
        else s)
    else s

abbrev pub formats : List Bytes
formats =
    codes "Mon, 02 Jan 2006 15:04:05 GMT"
    ∷ codes "Monday, 02-Jan-06 15:04:05 MST"
    ∷ codes "Mon Jan  2 15:04:05 2006"
    ∷ codes "Mon, 2 Jan 2006 15:04:05 GMT"
    ∷ codes "Mon,  2 Jan 2006 15:04:05 GMT"
    ∷ []

module _ (time_parse : Bytes → Bytes → Option ℤ) where
  -- The loop over the layouts: the first that the text fits.
  unfoldable pub try_formats : List Bytes → Bytes → ℤ
  try_formats [] s = pos 0
  try_formats (f ∷ fs) s = elim (time_parse f s) [ some t ↦ t | none ↦ try_formats fs s ]

  unfoldable pub parse_http_date : Bytes → ℤ
  parse_http_date raw =
      let s = trim_space raw in
      if is_empty s
      then pos 0
      else if not (valid_http_time_field s)
      then pos 0
      else if contains s (codes ",") && contains s (codes "  ")
      then pos 0
      else try_formats formats (normalize_tz s)

-- The scan for a decimal point.
unfoldable pub has_point : Bytes → Bool
has_point [] = false
has_point (c ∷ s) = c == b'.' || has_point s

abbrev pub max_age_seconds : ℤ
max_age_seconds = pos 2147483648

-- The body of parseOriginAge, on the value of the Age header.
unfoldable pub parse_age : Bytes → ℤ
parse_age raw =
    let s = trim_space raw in
    let (secs, ok) = parse_int_no_alloc s in
    if is_empty s
    then pos 0
    else if has_point s
    then pos 0
    else if not ok || ltb_ℤ secs (pos 0)
    then pos 0
    else if ltb_ℤ max_age_seconds secs
    then wrap64 (max_age_seconds *ℤ second)
    else wrap64 (secs *ℤ second)

unfoldable pub parse_origin_age : HeaderMap → ℤ
parse_origin_age h = parse_age (get h (codes "Age"))

unfoldable pub effective_origin_age : Object → ℤ
effective_origin_age obj =
    if not (eq_ℤ obj.origin_age (pos 0)) then obj.origin_age else parse_origin_age obj.header

unfoldable pub compute_age : Object → ℤ → ℤ
compute_age obj now = wrap64 (sub_time now obj.stored_at +ℤ effective_origin_age obj)

module _ (time_parse : Bytes → Bytes → Option ℤ) where
  -- The Date header if it is a date, and `now` if it is not.
  unfoldable pub reference_time : HeaderMap → ℤ → ℤ
  reference_time h now =
      let date = get h (codes "Date") in
      let dt = parse_http_date time_parse date in
      if is_empty date then now else if is_zero_time dt then now else dt

  unfoldable pub heuristic_ttl : HeaderMap → ℤ → ℤ
  heuristic_ttl h now =
      let lm = get h (codes "Last-Modified") in
      let lm_time = parse_http_date time_parse lm in
      let age = sub_time (reference_time h now) lm_time in
      if is_empty lm
      then pos 0
      else if is_zero_time lm_time
      then pos 0
      else if leb_ℤ age (pos 0)
      then pos 0
      else div_trunc age 10

  -- `corrected.Truncate(time.Second)` drops what is less than a second.
  unfoldable pub corrected_initial_age : ℤ → ℤ → Bytes → ℤ → ℤ
  corrected_initial_age origin_age response_delay date received =
      let corrected = wrap64 (origin_age +ℤ response_delay) in
      let dt = parse_http_date time_parse date in
      let apparent = sub_time received dt in
      let larger =
        if is_empty date
        then corrected
        else if is_zero_time dt || ltb_ℤ received dt
        then corrected
        else if ltb_ℤ corrected apparent
        then apparent
        else corrected in
      div_trunc larger 1000000000 *ℤ second
