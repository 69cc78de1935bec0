-- ===== src/Cache/Cacheable.antt =====
-- internal/cache/cacheable.go: which responses may be stored.
use bouine.Prelude.{
  ℕ, Bool, true, false, ◌&&◌, ◌||◌, List, [], ◌∷◌, Option, none, some, ltb, ◌==◌, if◌then◌else◌,
  not,
}
use bouine.Prelude.Bytes.{Bytes, codes, eq_bytes, is_empty, trim_space, split}
use bouine.Prelude.Int.{ℤ, pos, leb_ℤ}
use bouine.Header.CacheControl.{Directives, parse_cache_control}
use bouine.Header.HeaderMap.{HeaderMap, get, get_all}
use bouine.Api.Object.{is_zero_time}
use bouine.Api.StatusTtl.{StatusTtl, neg_cacheable}
use bouine.Cache.HttpDate.{parse_http_date}

abbrev pub is_cdn_cc_char_forbidden : ℕ → Bool
is_cdn_cc_char_forbidden b =
    b == b'&' || b == b'@' || b == b'[' || b == b']' || b == b'{' || b == b'}' || b == b'"'

unfoldable pub has_meaningful_cdn_cc_directive : Directives → Bool
has_meaningful_cdn_cc_directive d =
    d.max_age_set || d.s_max_age_set || d.no_store || d.is_private || d.no_cache

-- The loop over the bytes of the value, with the answer of its early return.
unfoldable pub has_forbidden : Bytes → Bool
has_forbidden [] = false
has_forbidden (b ∷ s) =
    let rest = has_forbidden s in
    if ltb b 0x21 || ltb 0x7e b then rest else if is_cdn_cc_char_forbidden b then true else rest

-- `none` where the source answers false.
unfoldable pub cdn_cache_control : HeaderMap → Option Directives
cdn_cache_control resp =
    let v = get_all resp (codes "Cdn-Cache-Control") in
    let d = parse_cache_control v in
    if is_empty v
    then none
    else if has_forbidden v
    then none
    else if not (has_meaningful_cdn_cc_directive d)
    then none
    else some d

-- `varyContainsStar`, internal/cache/vary.go.
unfoldable pub any_star : List Bytes → Bool
any_star [] = false
any_star (f ∷ fs) = eq_bytes (trim_space f) (codes "*") || any_star fs

unfoldable pub vary_contains_star : Bytes → Bool
vary_contains_star vary = any_star (split b',' vary)

unfoldable pub has_vary_star : HeaderMap → Bool
has_vary_star h = vary_contains_star (get_all h (codes "Vary"))

unfoldable pub is_blocked_by_pragma : Directives → HeaderMap → Bool
is_blocked_by_pragma cc h =
    eq_bytes (get h (codes "Pragma")) (codes "no-cache")
    && not cc.max_age_set
    && not cc.s_max_age_set
    && is_empty (get h (codes "Expires"))
    && is_empty (get h (codes "Last-Modified"))

unfoldable pub client_state_in_map : HeaderMap → Bool
client_state_in_map m =
    not (is_empty (get m (codes "Set-Cookie"))) || not (is_empty (get m (codes "Set-Login")))

unfoldable pub is_blocked_by_client_state : Directives → HeaderMap → Bool
is_blocked_by_client_state cc h =
    if not (client_state_in_map h) then false else not cc.max_age_set && not cc.s_max_age_set

abbrev pub mem : ℕ → List ℕ → Bool
mem n [] = false
mem n (m ∷ ms) = n == m || mem n ms

abbrev pub understood_statuses : List ℕ
understood_statuses =
    200 ∷ 203 ∷ 204 ∷ 206 ∷ 300 ∷ 301 ∷ 302 ∷ 303 ∷ 304 ∷ 307 ∷ 308 ∷ 400 ∷ 401 ∷ 403 ∷ 404 ∷ 405
    ∷ 406 ∷ 408 ∷ 409 ∷ 410 ∷ 411 ∷ 412 ∷ 413 ∷ 414 ∷ 415 ∷ 416 ∷ 500 ∷ 501 ∷ 502 ∷ 503 ∷ 504 ∷ []

unfoldable pub is_understood_status : ℕ → Bool
is_understood_status status = mem status understood_statuses

abbrev pub heuristic_statuses : List ℕ
heuristic_statuses = 200 ∷ 203 ∷ 204 ∷ 206 ∷ 300 ∷ 301 ∷ 308 ∷ 404 ∷ 405 ∷ 410 ∷ 414 ∷ 501 ∷ []

unfoldable pub is_heuristic_status : ℕ → Bool
is_heuristic_status status = mem status heuristic_statuses

unfoldable pub is_cache_blocked : ℕ → Directives → Bool → HeaderMap → HeaderMap → Bool
is_cache_blocked status cc has_cdn req resp =
    if cc.no_store && (not cc.must_understand || not (is_understood_status status))
    then true
    else if cc.is_private
    then true
    else if not has_cdn && is_blocked_by_pragma cc resp
    then true
    else if has_vary_star resp
    then true
    else if is_blocked_by_client_state cc resp
    then true
    else if not (is_empty (get req (codes "Authorization")))
    then not cc.is_public && not cc.must_revalidate && not cc.s_max_age_set
    else false

-- The directives that count, and whether they are those of CDN-Cache-Control.
unfoldable pub effective_directives : HeaderMap → Option Directives → Directives × Bool
effective_directives resp (some cdn) = (cdn, true)
effective_directives resp none = (parse_cache_control (get_all resp (codes "Cache-Control")), false)

pub record ParsedResponse : Type 0 where
  pub req_header : HeaderMap
  pub resp_header : HeaderMap
  pub resp_cc : Directives
  pub status : ℕ
  pub has_cdn : Bool

unfoldable pub new_parsed_response : ℕ → HeaderMap → HeaderMap → ParsedResponse
new_parsed_response status req resp =
    let (cc, cdn) = effective_directives resp (cdn_cache_control resp) in
    record { req_header = req; resp_header = resp; resp_cc = cc; status = status; has_cdn = cdn }

module _ (time_parse : Bytes → Bytes → Option ℤ) where
  -- `exp != "" && !parseHTTPDate(exp).IsZero()`
  unfoldable pub has_valid_expires : HeaderMap → Bool
  has_valid_expires resp =
      let exp = get resp (codes "Expires") in
      not (is_empty exp) && not (is_zero_time (parse_http_date time_parse exp))

  -- What IsCacheable does once the directives are known.
  unfoldable pub is_cacheable_by : ℕ → HeaderMap → HeaderMap → StatusTtl → Directives × Bool → Bool
  is_cacheable_by status req resp neg (cc, has_cdn) =
      if is_cache_blocked status cc has_cdn req resp
      then false
      else if cc.max_age_set || cc.s_max_age_set
      then true
      else if has_valid_expires resp
      then true
      else if not (is_empty (get resp (codes "Last-Modified")))
          && (is_heuristic_status status || cc.is_public)
      then (if is_blocked_by_pragma cc resp then false else true)
      else if cc.no_cache && not (is_empty (get resp (codes "Etag"))) && is_heuristic_status status
      then true
      else if neg_cacheable neg status
      then true
      else false

  unfoldable pub is_cacheable : ℕ → HeaderMap → HeaderMap → StatusTtl → Bool
  is_cacheable status req resp neg =
      if status == 304
      then false
      else is_cacheable_by status req resp neg (effective_directives resp (cdn_cache_control resp))

  unfoldable pub is_cacheable_with_default : ℕ → HeaderMap → HeaderMap → StatusTtl → ℤ → Bool
  is_cacheable_with_default status req resp neg default_ttl =
      let (cc, has_cdn) = effective_directives resp (cdn_cache_control resp) in
      if is_cacheable status req resp neg
      then true
      else if leb_ℤ default_ttl (pos 0)
      then false
      else if is_cache_blocked status cc has_cdn req resp
      then false
      else is_heuristic_status status

  -- The methods of parsedResponse, which do not parse the headers again.
  unfoldable pub parsed_is_cacheable : ParsedResponse → StatusTtl → Bool
  parsed_is_cacheable p neg =
      if p.status == 304
      then false
      else if is_cache_blocked p.status p.resp_cc p.has_cdn p.req_header p.resp_header
      then false
      else if p.resp_cc.max_age_set || p.resp_cc.s_max_age_set
      then true
      else if has_valid_expires p.resp_header
      then true
      else if not (is_empty (get p.resp_header (codes "Last-Modified")))
          && (is_heuristic_status p.status || p.resp_cc.is_public)
      then (if not p.has_cdn && is_blocked_by_pragma p.resp_cc p.resp_header then false else true)
      else if p.resp_cc.no_cache
          && not (is_empty (get p.resp_header (codes "Etag")))
          && is_heuristic_status p.status
      then true
      else neg_cacheable neg p.status

  unfoldable pub parsed_is_cacheable_with_default : ParsedResponse → StatusTtl → ℤ → Bool
  parsed_is_cacheable_with_default p neg default_ttl =
      if parsed_is_cacheable p neg
      then true
      else if leb_ℤ default_ttl (pos 0)
      then false
      else if is_cache_blocked p.status p.resp_cc p.has_cdn p.req_header p.resp_header
      then false
      else is_heuristic_status p.status
