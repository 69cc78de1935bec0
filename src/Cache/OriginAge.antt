-- ===== src/Cache/OriginAge.antt =====
-- What holds of the Age header of internal/cache/httpdate.go.
use bouine.Prelude.{append_nil, ℕ, ◌%◌, ◌^◌, ◌≡◌, refl, true, false, [], ◌∷◌, arith, if◌then◌else◌}
use bouine.Prelude.Bytes.{Bytes, trim_space}
use bouine.Prelude.Int.{pos, ◌*ℤ◌, ltb_ℤ, signed64, wrap64}
use bouine.Header.CacheControl.{second}
use bouine.Header.Text.{AllDigits, digits_value, parse_int_no_alloc, parse_int_no_alloc_wraps}
use bouine.Cache.HttpDate.{parse_age, has_point, max_age_seconds}

digits_no_point : (s : Bytes) → AllDigits s → has_point s ≡ false
unfolding has_point
digits_no_point [] d = refl
digits_no_point (c ∷ s) d = ground (arith, d.0, digits_no_point s d.1)

-- An Age header that is a string of digits, of any length, is an age of the seconds that the low
-- 64 bits of its value are as an int64: none if that is negative, and 2 ^ 31 seconds if it is more.
pub parse_age_digits :
    (raw : Bytes) (c : ℕ) (s : Bytes)
    → trim_space raw ≡ c ∷ s
    → AllDigits (c ∷ s)
    → let secs = signed64 (digits_value 0 (c ∷ s) % 2 ^ 64) in
      parse_age raw ≡ (
        if ltb_ℤ secs (pos 0)
        then pos 0
        else if ltb_ℤ max_age_seconds secs
        then wrap64 (max_age_seconds *ℤ second)
        else wrap64 (secs *ℤ second))
unfolding parse_age
parse_age_digits raw c s trimmed digits =
    let parsed : parse_int_no_alloc (c ∷ s) ≡ (signed64 (digits_value 0 (c ∷ s) % 2 ^ 64), true) =
      rw (append_nil (c ∷ s)) at (parse_int_no_alloc_wraps c s [] digits tt) in
    rw (trimmed, parsed, digits_no_point (c ∷ s) digits) refl
