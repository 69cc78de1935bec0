-- ===== src/Cache/Storable.antt =====
-- What holds of the storage decision of internal/cache/cacheable.go.
use bouine.Prelude.{ℕ, ◌≡◌, refl, ◌⊎◌, Bool, true, false, ◌&&◌, ◌||◌, Option, arith, ◌==◌}
use bouine.Prelude.Bytes.{Bytes, codes, is_empty}
use bouine.Prelude.Int.{ℤ}
use bouine.Header.CacheControl.{Directives}
use bouine.Header.HeaderMap.{HeaderMap, get}
use bouine.Api.StatusTtl.{StatusTtl}
use bouine.Cache.Cacheable.{
  cdn_cache_control, has_vary_star, is_blocked_by_pragma, client_state_in_map,
  is_blocked_by_client_state, is_understood_status, is_heuristic_status, is_cache_blocked,
  effective_directives, new_parsed_response, is_cacheable_by, is_cacheable,
  is_cacheable_with_default, parsed_is_cacheable, parsed_is_cacheable_with_default,
}

-- The directives that decide, and whether CDN-Cache-Control gives them.
abbrev pub directives_of : HeaderMap → Directives × Bool
directives_of resp = effective_directives resp (cdn_cache_control resp)

and_false : (b : Bool) → b && false ≡ false
and_false true = refl
and_false false = refl

-- Pragma never blocks a response that has a Last-Modified.
pragma_needs_no_last_modified :
    (cc : Directives) (resp : HeaderMap)
    → is_empty (get resp (codes "Last-Modified")) ≡ false
    → is_blocked_by_pragma cc resp ≡ false
unfolding is_blocked_by_pragma
pragma_needs_no_last_modified cc resp h = rw h (simp and_false)

-- What RFC 9111 asks of a response before a shared cache stores it.
pub record IsAllowed (status : ℕ) (cc : Directives) (req resp : HeaderMap) : Type 0 where
  pub not_private : cc.is_private ≡ false
  pub no_vary_star : has_vary_star resp ≡ false
  pub may_store :
      (cc.no_store ≡ false) ⊎ ((cc.must_understand ≡ true) × (is_understood_status status ≡ true))
  pub no_client_state :
      (client_state_in_map resp ≡ false) ⊎ (cc.max_age_set || cc.s_max_age_set ≡ true)
  pub no_credentials :
      (is_empty (get req (codes "Authorization")) ≡ true)
      ⊎ (cc.is_public || cc.must_revalidate || cc.s_max_age_set ≡ true)

not_blocked_allows :
    (status : ℕ) (cc : Directives) (has_cdn : Bool) (req resp : HeaderMap)
    → is_cache_blocked status cc has_cdn req resp ≡ false
    → IsAllowed status cc req resp
unfolding is_cache_blocked is_blocked_by_client_state
not_blocked_allows status cc has_cdn req resp h = ground arith

heuristic_not_304 : (status : ℕ) → is_heuristic_status status ≡ true → status == 304 ≡ false
unfolding is_heuristic_status
heuristic_not_304 status h = ground arith

module _ (time_parse : Bytes → Bytes → Option ℤ) where
  -- The decision on directives that are parsed already is the decision that parses the headers
  -- again: the two copies of the rules agree on every response, although only one of them asks
  -- whether CDN-Cache-Control is there before it looks at Pragma.
  pub parsed_is_cacheable_agrees :
      (status : ℕ) (req resp : HeaderMap) (neg : StatusTtl)
      → parsed_is_cacheable time_parse (new_parsed_response status req resp) neg
        ≡ is_cacheable time_parse status req resp neg
  unfolding parsed_is_cacheable new_parsed_response is_cacheable is_cacheable_by
  parsed_is_cacheable_agrees status req resp neg =
      ground (arith, pragma_needs_no_last_modified (directives_of resp).0 resp)

  -- With a default TTL too, the decision on directives that are parsed already is the decision that
  -- parses the headers again, on every response.
  pub parsed_is_cacheable_with_default_agrees :
      (status : ℕ) (req resp : HeaderMap) (neg : StatusTtl) (default_ttl : ℤ)
      → parsed_is_cacheable_with_default time_parse
          (new_parsed_response status req resp)
          neg
          default_ttl
        ≡ is_cacheable_with_default time_parse status req resp neg default_ttl
  unfolding parsed_is_cacheable_with_default is_cacheable_with_default
  parsed_is_cacheable_with_default_agrees status req resp neg default_ttl =
      rw (parsed_is_cacheable_agrees status req resp neg) (unfold new_parsed_response in refl)

  stored_not_blocked :
      (status : ℕ) (req resp : HeaderMap) (neg : StatusTtl) (default_ttl : ℤ)
      → is_cacheable_with_default time_parse status req resp neg default_ttl ≡ true
      → (status == 304 ≡ false)
        × (is_cache_blocked status (directives_of resp).0 (directives_of resp).1 req resp ≡ false)
  unfolding is_cacheable_with_default is_cacheable is_cacheable_by
  stored_not_blocked status req resp neg default_ttl h = ground (arith, heuristic_not_304 status)

  -- Whatever the negative policy and the default TTL, a response that is stored is no 304, is not
  -- private, has no "*" in Vary, has no no-store that must-understand does not lift for a status the
  -- cache knows, sets no client state without an explicit lifetime, and answers no request with
  -- credentials unless public, must-revalidate or s-maxage allows it.
  pub stored-IsAllowed :
      (status : ℕ) (req resp : HeaderMap) (neg : StatusTtl) (default_ttl : ℤ)
      → is_cacheable_with_default time_parse status req resp neg default_ttl ≡ true
      → (status == 304 ≡ false) × IsAllowed status (directives_of resp).0 req resp
  stored-IsAllowed status req resp neg default_ttl h =
      let (other, open_) = stored_not_blocked status req resp neg default_ttl h in
      (
        other,
        not_blocked_allows status (directives_of resp).0 (directives_of resp).1 req resp open_,
      )
