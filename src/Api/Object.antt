-- ===== src/Api/Object.antt =====
-- pkg/api/storage.go: the stored object and its freshness windows. A `time.Time` is the integer of
-- its nanoseconds from the zero time, a `time.Duration` its int64. The heads that
-- the serving layer computes ahead are left out.
use bouine.Prelude.{ℕ, List, Bool, false, ◌||◌, if◌then◌else◌}
use bouine.Prelude.Bytes.{Bytes}
use bouine.Prelude.Int.{ℤ, pos, ◌+ℤ◌, ◌-ℤ◌, ltb_ℤ, eq_ℤ, min_int64, max_int64}
use bouine.Header.HeaderMap.{HeaderMap}

pub record Object : Type 0 where
  pub stored_at : ℤ
  pub last_modified : ℤ
  pub etag : Bytes
  pub cache_control : Bytes
  pub header : HeaderMap
  pub body_size : ℤ
  pub ttl : ℤ
  pub origin_age : ℤ
  pub stale_if_error : ℤ
  pub stale_while_revalidate : ℤ
  pub status_code : ℤ
  pub resp_no_cache : Bool
  pub resp_must_revalidate : Bool
  pub key : Bytes
  pub vary_key : Bytes
  pub vary_value : Bytes
  pub pool : Bytes
  pub hits : ℕ
  pub keep_grace : Bool
  pub has_date : Bool
  pub has_connection_list : Bool
  pub has_no_cache_fields : Bool
  pub paired_key : Bytes
  pub surrogate_keys : List Bytes
  pub body : Bytes

-- `time.Time.IsZero`
abbrev pub is_zero_time : ℤ → Bool
is_zero_time t = eq_ℤ t (pos 0)

-- `time.Time.Sub` saturates.
unfoldable pub sub_time : ℤ → ℤ → ℤ
sub_time a b =
    let d = a -ℤ b in
    if ltb_ℤ d min_int64 then min_int64 else if ltb_ℤ max_int64 d then max_int64 else d

-- `time.Time.Add` and `Before`.
abbrev pub add_time : ℤ → ℤ → ℤ
add_time t d = t +ℤ d

abbrev pub before : ℤ → ℤ → Bool
before a b = ltb_ℤ a b

unfoldable pub fresh : Object → ℤ → Bool
fresh o now = before now (add_time o.stored_at o.ttl)

unfoldable pub stale_for_swr : Object → ℤ → Bool
stale_for_swr o now =
    if fresh o now || eq_ℤ o.stale_while_revalidate (pos 0)
    then false
    else before now (add_time (add_time o.stored_at o.ttl) o.stale_while_revalidate)

unfoldable pub stale_for_sie : Object → ℤ → Bool
stale_for_sie o now =
    if fresh o now || eq_ℤ o.stale_if_error (pos 0)
    then false
    else before now (add_time (add_time o.stored_at o.ttl) o.stale_if_error)

unfoldable pub stale_but_servable : Object → ℤ → Bool
stale_but_servable o now = stale_for_swr o now || stale_for_sie o now
