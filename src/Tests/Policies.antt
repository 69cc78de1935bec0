-- ===== src/Tests/Policies.antt =====
-- pkg/api/status_ttl.go and internal/cache/cacheable.go at concrete policies and responses.
use bouine.Prelude.{◌≡◌, refl, true, false, List, [], ◌∷◌, Option, none, some, ◌==◌}
use bouine.Prelude.Bytes
use bouine.Prelude.Bytes.{Bytes, codes, trim_space}
use bouine.Prelude.Int.{ℤ, pos}
use bouine.Header.CacheControl
use bouine.Header.Canonical
use bouine.Header.HeaderMap
use bouine.Header.HeaderMap.{HeaderMap, empty_map}
use bouine.Api.StatusTtl
use bouine.Api.StatusTtl.{Result, ok, StatusTtl, Policy, new_status_ttl_map, ttl_of}
use bouine.Cache.Cacheable
use bouine.Cache.Cacheable.{
  is_cacheable, is_cacheable_with_default, parsed_is_cacheable_with_default, new_parsed_response,
  is_heuristic_status, is_cache_blocked,
}
use bouine.Cache.Storable
use bouine.Cache.Storable.{IsAllowed, directives_of}

abbrev entries : List (Bytes × ℤ)
entries = (codes "404", pos 5) ∷ (codes "4xx", pos 9) ∷ []

abbrev policy : StatusTtl
policy = some (record { exact = (404, pos 5) ∷ []; classes = (4, pos 9) ∷ [] })

policy_built : new_status_ttl_map entries ≡ ok policy
unfolding new_status_ttl_map StatusTtl.add_keys StatusTtl.add_key StatusTtl.add_entry
    StatusTtl.add_exact StatusTtl.add_class StatusTtl.parse_status_ttl_key
    StatusTtl.parse_status_code StatusTtl.atoi StatusTtl.atoi_unsigned StatusTtl.atoi_digits
    StatusTtl.validate_status_ttl_code StatusTtl.find_ttl
policy_built = refl

-- A parser of dates that knows none.
abbrev no_date : Bytes → Bytes → Option ℤ
no_date layout text = none

parsed_is_cacheable_with_default_agrees_example :
    parsed_is_cacheable_with_default no_date
      (new_parsed_response 200 empty_map empty_map)
      policy
      (pos 1)
    ≡ is_cacheable_with_default no_date 200 empty_map empty_map policy (pos 1)
parsed_is_cacheable_with_default_agrees_example =
    Storable.parsed_is_cacheable_with_default_agrees no_date 200 empty_map empty_map policy (pos 1)

-- A 200 without headers is stored for the default TTL and for nothing else.
bare_stored : is_cacheable_with_default no_date 200 empty_map empty_map none (pos 1) ≡ true
unfolding Cacheable.has_meaningful_cdn_cc_directive Cacheable.has_forbidden
    Cacheable.cdn_cache_control Cacheable.any_star Cacheable.vary_contains_star
    Cacheable.has_vary_star Cacheable.is_blocked_by_pragma Cacheable.client_state_in_map
    Cacheable.is_blocked_by_client_state Cacheable.is_understood_status
    Cacheable.is_heuristic_status Cacheable.is_cache_blocked Cacheable.effective_directives
    Cacheable.has_valid_expires Cacheable.is_cacheable_by Cacheable.is_cacheable
    Cacheable.is_cacheable_with_default HeaderMap.find_key HeaderMap.find_canonical_of
    HeaderMap.get_fallback HeaderMap.get_found HeaderMap.get HeaderMap.join HeaderMap.parts_of
    HeaderMap.all_parts HeaderMap.join_parts HeaderMap.get_all HeaderMap.join_cookies
    HeaderMap.cookie_values HeaderMap.cookies_of HeaderMap.cookie_all HeaderMap.has
    Canonical.is_canonical_loop Canonical.is_canonical Canonical.canonicalize_loop
    Canonical.canonicalize Canonical.canonical_header_key Canonical.intern_key
    Canonical.equals_canonical_loop Canonical.equals_canonical_of CacheControl.parse_cache_control
    CacheControl.parse_loop CacheControl.skip_cc_delimiters StatusTtl.neg_cacheable StatusTtl.ttl_of
    Bytes.split Bytes.split_parts Bytes.trim_space Bytes.trim_left Bytes.trim_right
bare_stored = refl

bare_undecided : is_cacheable no_date 200 empty_map empty_map none ≡ false
unfolding Cacheable.has_meaningful_cdn_cc_directive Cacheable.has_forbidden
    Cacheable.cdn_cache_control Cacheable.any_star Cacheable.vary_contains_star
    Cacheable.has_vary_star Cacheable.is_blocked_by_pragma Cacheable.client_state_in_map
    Cacheable.is_blocked_by_client_state Cacheable.is_understood_status
    Cacheable.is_heuristic_status Cacheable.is_cache_blocked Cacheable.effective_directives
    Cacheable.has_valid_expires Cacheable.is_cacheable_by Cacheable.is_cacheable
    Cacheable.is_cacheable_with_default HeaderMap.find_key HeaderMap.find_canonical_of
    HeaderMap.get_fallback HeaderMap.get_found HeaderMap.get HeaderMap.join HeaderMap.parts_of
    HeaderMap.all_parts HeaderMap.join_parts HeaderMap.get_all HeaderMap.join_cookies
    HeaderMap.cookie_values HeaderMap.cookies_of HeaderMap.cookie_all HeaderMap.has
    Canonical.is_canonical_loop Canonical.is_canonical Canonical.canonicalize_loop
    Canonical.canonicalize Canonical.canonical_header_key Canonical.intern_key
    Canonical.equals_canonical_loop Canonical.equals_canonical_of CacheControl.parse_cache_control
    CacheControl.parse_loop CacheControl.skip_cc_delimiters StatusTtl.neg_cacheable StatusTtl.ttl_of
    Bytes.split Bytes.split_parts Bytes.trim_space Bytes.trim_left Bytes.trim_right
bare_undecided = refl

stored-IsAllowed_example :
    (200 == 304 ≡ false) × IsAllowed 200 (directives_of empty_map).0 empty_map empty_map
stored-IsAllowed_example =
    Storable.stored-IsAllowed no_date 200 empty_map empty_map none (pos 1) bare_stored

abbrev huge_age : Bytes
huge_age = codes " 9223372036854775808"

huge_age_trimmed : trim_space huge_age ≡ codes "9223372036854775808"
unfolding Bytes.trim_space Bytes.trim_left Bytes.trim_right
huge_age_trimmed = refl
