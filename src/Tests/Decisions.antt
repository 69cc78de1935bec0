-- ===== src/Tests/Decisions.antt =====
-- internal/cache/engine.go at a concrete object.
use bouine.Prelude.{◌≡◌, refl, ◌↔◌, true, false, [], some, arith}
use bouine.Prelude.Bytes.{codes}
use bouine.Prelude.Int
use bouine.Prelude.Int.{ℤ, pos, ◌+ℤ◌, ◌-ℤ◌, ◌≤ℤ◌, ◌<ℤ◌, IsInt64}
use bouine.Header.CacheControl.{Directives, no_directives}
use bouine.Header.HeaderMap.{empty_map}
use bouine.Api.Object
use bouine.Api.Object.{Object}
use bouine.Cache.HttpDate
use bouine.Cache.HttpDate.{effective_origin_age}
use bouine.Cache.Engine
use bouine.Cache.Engine.{
  hit, miss, stale_hit, RespGate, resp_gate_from_object, resp_gate_from_directives,
  object_cache_control, current_age, fresh_with_request_cc, stale_age, evaluate_core, evaluate,
  request_directives,
}
use bouine.Cache.Serving
use bouine.Cache.Serving.{MayServeStale, MayServeFresh}

-- Stored at second 100 for 60 seconds, with no validator.
abbrev object : Object
object = record {
  stored_at = pos 100000000000;
  last_modified = pos 0;
  etag = [];
  cache_control = codes "max-age=60";
  header = empty_map;
  body_size = pos 3;
  ttl = pos 60000000000;
  origin_age = pos 1000000000;
  stale_if_error = pos 0;
  stale_while_revalidate = pos 30000000000;
  status_code = pos 200;
  resp_no_cache = false;
  resp_must_revalidate = false;
  key = [];
  vary_key = [];
  vary_value = [];
  pool = [];
  hits = 0;
  keep_grace = false;
  has_date = false;
  has_connection_list = false;
  has_no_cache_fields = false;
  paired_key = [];
  surrogate_keys = [];
  body = [];
}

abbrev open_gate : RespGate
open_gate = record { no_cache = false; must_revalidate = false }

-- The request asks for an age of at most 50 seconds and for 20 seconds of freshness.
abbrev request : Directives
request = record no_directives {
  max_age = pos 50000000000;
  max_age_set = true;
  min_fresh = pos 20000000000;
  min_fresh_set = true;
}

abbrev early : ℤ
early = pos 130000000000

abbrev late : ℤ
late = pos 170000000000

early-fits :
    (IsInt64 (early -ℤ object.stored_at))
    × (IsInt64 (early -ℤ object.stored_at +ℤ effective_origin_age object))
    × (IsInt64 (object.stored_at +ℤ object.ttl -ℤ early))
unfolding effective_origin_age ◌+ℤ◌ ◌-ℤ◌
early-fits = ground arith

evaluate_core-hit_iff_example :
    ((evaluate_core (some object) request open_gate early).decision ≡ hit)
    ↔ MayServeFresh object request open_gate early
evaluate_core-hit_iff_example =
    Serving.evaluate_core-hit_iff object request open_gate early early-fits.0 early-fits.1
      early-fits.2

late_is_stale_hit : (evaluate_core (some object) no_directives open_gate late).decision ≡ stale_hit
unfolding Engine.evaluate_core Engine.evaluate_object Engine.eval_stale Engine.fresh_with_request_cc
    Object.fresh Object.stale_for_swr Int.◌+ℤ◌ Int.◌-ℤ◌ Engine.stale_age
late_is_stale_hit = refl

evaluate_core-stale_hit_example : MayServeStale object no_directives open_gate late
evaluate_core-stale_hit_example =
    Serving.evaluate_core-stale_hit object no_directives open_gate late late_is_stale_hit

early_is_fresh : fresh_with_request_cc object request early ≡ true
unfolding Engine.fresh_with_request_cc Object.fresh Engine.current_age HttpDate.effective_origin_age
    Object.sub_time Int.wrap64 Int.◌+ℤ◌ Int.◌-ℤ◌
early_is_fresh = refl
