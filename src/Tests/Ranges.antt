-- ===== src/Tests/Ranges.antt =====
-- internal/cache/range.go at concrete ranges.
use bouine.Prelude.{◌≡◌, refl, some, arith}
use bouine.Prelude.Bytes
use bouine.Prelude.Bytes.{codes}
use bouine.Prelude.Int
use bouine.Prelude.Int.{ℤ, pos, negsuc}
use bouine.Api.StatusTtl
use bouine.Cache.Range
use bouine.Cache.Range.{parse_range, suffix_range}
use bouine.Cache.RangeBounds
use bouine.Cache.RangeBounds.{Inside}

last_cut : parse_range (codes "2-99") (pos 10) ≡ some (pos 2, pos 9)
unfolding Range.parse_range Range.split_range Range.range_of Range.range_from Range.range_end
    Range.suffix_range StatusTtl.atoi StatusTtl.atoi_unsigned StatusTtl.atoi_digits Bytes.trim_space
    Bytes.trim_left Bytes.trim_right Int.wrap64 Int.◌-ℤ◌
last_cut = refl

parse_range-Inside_example : Inside (pos 10) (pos 2, pos 9)
parse_range-Inside_example =
    RangeBounds.parse_range-Inside (codes "2-99") (pos 10) (pos 2, pos 9) (omega arith)
      (omega arith) last_cut
