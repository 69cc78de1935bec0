-- ===== src/Tests/Headers.antt =====
-- pkg/header at concrete field values and header maps.
use bouine.Prelude.{
  suc, ◌≡◌, refl, true, false, List, [], ◌∷◌, some, arith, length, foldl, if◌then◌else◌,
}
use bouine.Prelude.Bytes.{Bytes, codes, eq_bytes}
use bouine.Prelude.Int.{pos, ◌<ℤ◌}
use bouine.Header.CacheControl.{no_directives, parse_loop, parse_cache_control, parse_dur}
use bouine.Header.CacheControlBytes.{parse_cache_control_bytes}
use bouine.Header.Scan
use bouine.Header.Copies
use bouine.Header.Render
use bouine.Header.Render.{Written, bare, plain, quoted, render, apply_written}
use bouine.Header.Durations
use bouine.Header.Durations.{Keeps}
use bouine.Header.Canonical
use bouine.Header.Canonical.{
  is_canonical, canonicalize, canonical_header_key, intern_key, equals_canonical_of,
}
use bouine.Header.HeaderMap.{HeaderMap, get, set_header, append_entry, del}
use bouine.Header.Lookup.{IsValid}
use bouine.Header.Validity

abbrev field : Bytes
field = codes "max-age=60, private"

parse_loop_ends_example :
    parse_loop (suc (length field)) field no_directives ≡ some (parse_cache_control field)
parse_loop_ends_example = Scan.parse_loop_ends field

parse_cache_control_bytes_agrees_example :
    parse_cache_control_bytes field ≡ parse_cache_control field
parse_cache_control_bytes_agrees_example = Copies.parse_cache_control_bytes_agrees field

abbrev written : List Written
written =
    bare (codes "no-cache")
    ∷ plain (codes "max-age") (codes "60")
    ∷ quoted (codes "private") (codes "Set-Cookie, Date")
    ∷ []

parse_cache_control-render_example :
    parse_cache_control (render written) ≡ foldl apply_written no_directives written
parse_cache_control-render_example = Render.parse_cache_control-render written (ground arith)

abbrev more : List Written
more = plain (codes "max-age") (codes "5") ∷ bare (codes "public") ∷ []

parse_dur_overflows_example :
    ((parse_dur (pos 0) false (codes "9223372037")).1 ≡ true)
    × ((parse_dur (pos 0) false (codes "9223372037")).0 <ℤ pos 0)
parse_dur_overflows_example =
    Durations.parse_dur_overflows (pos 0) b'9' (codes "223372037") [] (ground arith) tt
      (omega arith) (omega arith)

-- Vary: Accept, then Age: 3.
abbrev headers : HeaderMap
headers = record {
  entries = record { key = codes "Vary"; off = 0 } ∷ record { key = codes "Age"; off = 1 } ∷ [];
  values = codes "Accept" ∷ codes "3" ∷ [];
}

headers-IsValid : IsValid headers
unfolding Canonical.canonicalize Canonical.canonicalize_loop
headers-IsValid = record {
  stored = ((refl, omega arith), ((refl, omega arith), tt));
  distinct = ((omega arith, tt), (tt, tt));
}

header_map_operations-IsValid_example :
    IsValid (set_header headers (codes "age") (codes "4"))
    × IsValid (append_entry headers (codes "age") (codes "4"))
    × IsValid (del headers (codes "age"))
header_map_operations-IsValid_example =
    Validity.header_map_operations-IsValid headers headers-IsValid (codes "age") (codes "4")

get-set_header_example : get (set_header headers (codes "age") (codes "4")) (codes "AGE") ≡ (
    if eq_bytes (canonicalize (codes "age")) (canonicalize (codes "AGE"))
    then codes "4"
    else get headers (codes "AGE"))
get-set_header_example =
    Validity.get-set_header headers headers-IsValid (codes "age") (codes "4") (codes "AGE")
