-- ===== src/Cache/Range.antt =====
-- internal/cache/range.go: one range of a Range header. The numbers are those of `strconv.ParseInt`
-- in base 10 for 64 bits, which reads what `strconv.Atoi` reads.
use bouine.Prelude.{◌||◌, [], ◌∷◌, Option, none, some, ◌==◌, if◌then◌else◌}
use mathlib.Core.Option
use bouine.Prelude.Bytes.{Bytes, is_empty, trim_space}
use bouine.Prelude.Int.{ℤ, pos, ◌-ℤ◌, ltb_ℤ, leb_ℤ, wrap64}
use bouine.Api.StatusTtl.{atoi}

-- `strings.SplitN(spec, "-", 2)`, if it has two parts.
unfoldable pub split_range : Bytes → Option (Bytes × Bytes)
split_range [] = none
split_range (c ∷ s) =
    if c == b'-' then some ([], s) else Option.map (λ (a, b). (c ∷ a, b)) (split_range s)

-- `bytes=-n`: the last n bytes.
unfoldable pub suffix_range : Option ℤ → ℤ → Option (ℤ × ℤ)
suffix_range none size = none
suffix_range (some suffix) size =
    if leb_ℤ suffix (pos 0)
    then none
    else let start = wrap64 (size -ℤ suffix) in
      some (if ltb_ℤ start (pos 0) then pos 0 else start, wrap64 (size -ℤ pos 1))

unfoldable pub range_end : ℤ → ℤ → Option ℤ → Option (ℤ × ℤ)
range_end start size none = none
range_end start size (some last) =
    if ltb_ℤ last start
    then none
    else if leb_ℤ size last
    then some (start, wrap64 (size -ℤ pos 1))
    else some (start, last)

unfoldable pub range_from : Option ℤ → Bytes → ℤ → Option (ℤ × ℤ)
range_from none last size = none
range_from (some start) last size =
    if ltb_ℤ start (pos 0) || leb_ℤ size start
    then none
    else if is_empty last
    then some (start, wrap64 (size -ℤ pos 1))
    else range_end start size (atoi last)

unfoldable pub range_of : Option (Bytes × Bytes) → ℤ → Option (ℤ × ℤ)
range_of none size = none
range_of (some (a, b)) size =
    let first = trim_space a in
    let last = trim_space b in
    if is_empty first then suffix_range (atoi last) size else range_from (atoi first) last size

unfoldable pub parse_range : Bytes → ℤ → Option (ℤ × ℤ)
parse_range spec size = range_of (split_range spec) size
