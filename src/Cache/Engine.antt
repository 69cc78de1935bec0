-- ===== src/Cache/Engine.antt =====
-- internal/cache/engine.go: the state machine that decides how a request is served.
use bouine.Prelude.{Bool, true, false, ◌&&◌, ◌||◌, Option, none, some, if◌then◌else◌, not}
use bouine.Prelude.Bytes.{Bytes, codes, eq_bytes, is_empty}
use bouine.Prelude.Int.{ℤ, ◌+ℤ◌, ◌-ℤ◌, ltb_ℤ, leb_ℤ, wrap64}
use bouine.Header.CacheControl.{Directives, no_directives, parse_cache_control}
use bouine.Header.HeaderMap.{HeaderMap, get}
use bouine.Api.Object.{
  Object, is_zero_time, sub_time, add_time, fresh, stale_for_swr, stale_for_sie,
}
use bouine.Cache.HttpDate.{effective_origin_age}

pub data Decision : Type 0 where
  hit miss revalidate stale_hit bypass : Decision

pub record Disposition : Type 0 where
  pub object : Option Object
  pub decision : Decision

abbrev pub decide : Decision → Disposition
decide d = record { object = none; decision = d }

abbrev pub serve : Decision → Object → Disposition
serve d o = record { object = some o; decision = d }

pub record RespGate : Type 0 where
  pub no_cache : Bool
  pub must_revalidate : Bool

unfoldable pub resp_gate_from_directives : Directives → RespGate
resp_gate_from_directives cc = record {
  no_cache = cc.no_cache;
  must_revalidate = cc.must_revalidate || cc.proxy_revalidate;
}

unfoldable pub resp_gate_from_object : Option Object → RespGate
resp_gate_from_object none = record { no_cache = false; must_revalidate = false }
resp_gate_from_object (some obj) = record {
  no_cache = obj.resp_no_cache;
  must_revalidate = obj.resp_must_revalidate;
}

unfoldable pub eval_miss : Directives → Disposition
eval_miss req = if req.only_if_cached then decide bypass else decide miss

abbrev pub has_validator : Object → Bool
has_validator obj = not (is_empty obj.etag) || not (is_zero_time obj.last_modified)

unfoldable pub revalidate_or_miss : Object → Disposition
revalidate_or_miss obj = if has_validator obj then serve revalidate obj else decide miss

-- `obj.CacheControl`, or the header of the object if that is empty.
unfoldable pub object_cache_control : Object → Bytes
object_cache_control obj =
    if is_empty obj.cache_control then get obj.header (codes "Cache-Control") else obj.cache_control

unfoldable pub obj_directives : Object → Directives
obj_directives obj = parse_cache_control (object_cache_control obj)

-- The age that the request's max-age is held against.
unfoldable pub current_age : Object → ℤ → ℤ
current_age obj now = wrap64 (sub_time now obj.stored_at +ℤ effective_origin_age obj)

unfoldable pub fresh_with_request_cc : Object → Directives → ℤ → Bool
fresh_with_request_cc obj req now =
    if not (fresh obj now)
    then false
    else if req.max_age_set && ltb_ℤ req.max_age (current_age obj now)
    then false
    else if req.min_fresh_set && ltb_ℤ (sub_time (add_time obj.stored_at obj.ttl) now) req.min_fresh
    then false
    else true

-- `age - (obj.TTL + originAge)`
unfoldable pub stale_age : Object → ℤ → ℤ
stale_age obj now = wrap64 (current_age obj now -ℤ wrap64 (obj.ttl +ℤ effective_origin_age obj))

unfoldable pub is_heuristic : Object → Bool
is_heuristic obj =
    let cc = obj_directives obj in
    not cc.max_age_set && not cc.s_max_age_set && is_empty (get obj.header (codes "Expires"))

unfoldable pub eval_stale : Directives → Object → ℤ → Disposition
eval_stale req obj now =
    if req.max_stale_set && leb_ℤ (stale_age obj now) req.max_stale
    then serve stale_hit obj
    else if stale_for_swr obj now
    then serve stale_hit obj
    else if stale_for_sie obj now
    then revalidate_or_miss obj
    else if is_heuristic obj
    then serve stale_hit obj
    else revalidate_or_miss obj

unfoldable pub evaluate_object : Object → Directives → RespGate → ℤ → Disposition
evaluate_object obj req rg now =
    if rg.no_cache || req.no_cache
    then (if has_validator obj then serve revalidate obj else decide miss)
    else if fresh_with_request_cc obj req now
    then serve hit obj
    else if rg.must_revalidate
    then revalidate_or_miss obj
    else eval_stale req obj now

-- The private `evaluate`.
unfoldable pub evaluate_core : Option Object → Directives → RespGate → ℤ → Disposition
evaluate_core none req rg now = if req.no_store then decide bypass else eval_miss req
evaluate_core (some obj) req rg now =
    if req.no_store then decide bypass else evaluate_object obj req rg now

-- The directives of the request, with Pragma counted as no-cache.
unfoldable pub request_directives : HeaderMap → Directives
request_directives h =
    let raw = get h (codes "Cache-Control") in
    let cc = if is_empty raw then no_directives else parse_cache_control raw in
    if not cc.no_cache && eq_bytes (get h (codes "Pragma")) (codes "no-cache")
    then record cc { no_cache = true }
    else cc

unfoldable pub evaluate_request : Directives → Option Object → ℤ → Disposition
evaluate_request req none now = if req.no_store then decide bypass else eval_miss req
evaluate_request req (some obj) now =
    if req.no_store
    then decide bypass
    else evaluate_core (some obj) req
        (resp_gate_from_directives (parse_cache_control (object_cache_control obj))) now

-- `Evaluate`, on the method and the header of the request.
unfoldable pub evaluate : Bytes → HeaderMap → Option Object → ℤ → Disposition
evaluate method h obj now =
    if not (eq_bytes method (codes "GET")) && not (eq_bytes method (codes "HEAD"))
    then decide bypass
    else evaluate_request (request_directives h) obj now
