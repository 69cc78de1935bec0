-- ===== src/Cache/Serving.antt =====
-- What holds of the serving decision of internal/cache/engine.go.
use bouine.Prelude.{◌≡◌, sym, ◌⊎◌, inl, inr, ◌↔◌, true, false, none, some, arith}
use bouine.Prelude.Int.{ℤ, ◌+ℤ◌, ◌-ℤ◌, wrap64_fits, IsInt64, ◌≤ℤ◌, ◌<ℤ◌, int_laws}
use bouine.Header.CacheControl.{Directives}
use bouine.Api.Object.{Object, sub_time, fresh, stale_for_swr, stale_for_sie}
use bouine.Cache.HttpDate.{effective_origin_age}
use bouine.Cache.Engine.{
  hit, miss, stale_hit, RespGate, eval_miss, revalidate_or_miss, current_age, fresh_with_request_cc,
  stale_age, is_heuristic, eval_stale, evaluate_object, evaluate_core,
}

-- What allows a stored response to be served stale.
pub record MayServeStale (obj : Object) (req : Directives) (rg : RespGate) (now : ℤ) : Type 0 where
  pub no_store : req.no_store ≡ false
  pub no_cache : (rg.no_cache ≡ false) × (req.no_cache ≡ false)
  pub not_fresh : fresh_with_request_cc obj req now ≡ false
  pub no_must_revalidate : rg.must_revalidate ≡ false
  pub window :
      ((req.max_stale_set ≡ true) × (stale_age obj now ≤ℤ req.max_stale))
      ⊎ ((stale_for_swr obj now ≡ true)
          ⊎ ((stale_for_sie obj now ≡ false) × (is_heuristic obj ≡ true)))

-- A stale response is served only where no no-store, no-cache and must-revalidate stands against it,
-- and the client's max-stale, the stale-while-revalidate window or a lifetime that was heuristic
-- allows it.
pub evaluate_core-stale_hit :
    (obj : Object) (req : Directives) (rg : RespGate) (now : ℤ)
    → (evaluate_core (some obj) req rg now).decision ≡ stale_hit
    → MayServeStale obj req rg now
unfolding evaluate_core evaluate_object eval_stale revalidate_or_miss
evaluate_core-stale_hit obj req rg now h = ground arith

-- With nothing stored the decision is a miss exactly if the request has neither no-store nor
-- only-if-cached.
pub evaluate_core_nothing :
    (req : Directives) (rg : RespGate) (now : ℤ)
    → ((evaluate_core none req rg now).decision ≡ miss)
      ↔ ((req.no_store ≡ false) × (req.only_if_cached ≡ false))
unfolding evaluate_core eval_miss
evaluate_core_nothing req rg now = (λ h. ground arith, λ h. ground arith)

either_map : {A B C : Type 0} → (B → C) → A ⊎ B → A ⊎ C
either_map f (inl a) = inl a
either_map f (inr b) = inr (f b)

sub_time_exact : (a b : ℤ) → IsInt64 (a -ℤ b) → sub_time a b ≡ a -ℤ b
unfolding sub_time
sub_time_exact a b h = ground arith

-- The age of the object at the origin cancels out of the age by which it is stale: as long as no
-- sum leaves the int64, that age is the time since the object expired.
pub stale_age_exact :
    (obj : Object) (now : ℤ)
    → IsInt64 (now -ℤ obj.stored_at)
    → IsInt64 (now -ℤ obj.stored_at +ℤ effective_origin_age obj)
    → IsInt64 (obj.ttl +ℤ effective_origin_age obj)
    → IsInt64 (now -ℤ (obj.stored_at +ℤ obj.ttl))
    → stale_age obj now ≡ now -ℤ (obj.stored_at +ℤ obj.ttl)
unfolding stale_age current_age
stale_age_exact obj now a b c d =
    let age = effective_origin_age obj in
    let cancel : now -ℤ obj.stored_at +ℤ age -ℤ (obj.ttl +ℤ age)
        ≡ now -ℤ (obj.stored_at +ℤ obj.ttl) =
      omega int_laws in
    rw (sub_time_exact now obj.stored_at a, wrap64_fits _ b, wrap64_fits _ c, cancel)
      (wrap64_fits _ d)

-- When a stored response is served without the origin: no directive is against it, it has not
-- expired, it is no older than the max-age of the request, and it lasts for the min-fresh.
pub record MayServeFresh (obj : Object) (req : Directives) (rg : RespGate) (now : ℤ) : Type 0 where
  pub no_store : req.no_store ≡ false
  pub no_cache : (rg.no_cache ≡ false) × (req.no_cache ≡ false)
  pub alive : now <ℤ obj.stored_at +ℤ obj.ttl
  pub young :
      (req.max_age_set ≡ false) ⊎ (now -ℤ obj.stored_at +ℤ effective_origin_age obj ≤ℤ req.max_age)
  pub lasts : (req.min_fresh_set ≡ false) ⊎ (now +ℤ req.min_fresh ≤ℤ obj.stored_at +ℤ obj.ttl)

fresh_tests :
    (obj : Object) (req : Directives) (now : ℤ)
    → (fresh_with_request_cc obj req now ≡ true) ↔ (
        (now <ℤ obj.stored_at +ℤ obj.ttl)
        × ((req.max_age_set ≡ false) ⊎ (current_age obj now ≤ℤ req.max_age))
        × ((req.min_fresh_set ≡ false)
            ⊎ (req.min_fresh ≤ℤ sub_time (obj.stored_at +ℤ obj.ttl) now)))
unfolding fresh_with_request_cc fresh
fresh_tests obj req now = (λ h. ground arith, λ h. ground arith)

hit_tests :
    (obj : Object) (req : Directives) (rg : RespGate) (now : ℤ)
    → ((evaluate_core (some obj) req rg now).decision ≡ hit) ↔ (
        (req.no_store ≡ false)
        × (rg.no_cache ≡ false)
        × (req.no_cache ≡ false)
        × (fresh_with_request_cc obj req now ≡ true))
unfolding evaluate_core evaluate_object eval_stale revalidate_or_miss
hit_tests obj req rg now = (λ h. ground arith, λ h. ground arith)

current_age_exact :
    (obj : Object) (now : ℤ)
    → IsInt64 (now -ℤ obj.stored_at)
    → IsInt64 (now -ℤ obj.stored_at +ℤ effective_origin_age obj)
    → current_age obj now ≡ now -ℤ obj.stored_at +ℤ effective_origin_age obj
unfolding current_age
current_age_exact obj now a b = rw (sub_time_exact now obj.stored_at a) (wrap64_fits _ b)

min_fresh_left : (e m now : ℤ) → IsInt64 (e -ℤ now) → (m ≤ℤ sub_time e now) ↔ (now +ℤ m ≤ℤ e)
min_fresh_left e m now fits =
    rw (sub_time_exact e now fits) (λ h. omega int_laws, λ h. omega int_laws)

-- Where the age of the object, with and without the age that it had from its origin, and the time
-- that it has left fit an int64: the decision for a stored object is a hit exactly when neither side
-- has no-cache, the request has no no-store, the object has not expired, its age is at most the
-- max-age of a request that has one, and a request with min-fresh ends no later than the object
-- expires.
pub evaluate_core-hit_iff :
    (obj : Object) (req : Directives) (rg : RespGate) (now : ℤ)
    → IsInt64 (now -ℤ obj.stored_at)
    → IsInt64 (now -ℤ obj.stored_at +ℤ effective_origin_age obj)
    → IsInt64 (obj.stored_at +ℤ obj.ttl -ℤ now)
    → ((evaluate_core (some obj) req rg now).decision ≡ hit) ↔ MayServeFresh obj req rg now
evaluate_core-hit_iff obj req rg now a b c =
    let age : current_age obj now ≡ now -ℤ obj.stored_at +ℤ effective_origin_age obj =
      current_age_exact obj now a b in
    let left = min_fresh_left (obj.stored_at +ℤ obj.ttl) req.min_fresh now c in
    let tests = hit_tests obj req rg now in
    let bounds = fresh_tests obj req now in
    (
      λ h.
          let (n, r, q, f) = tests.0 h in
          let (alive, young, lasts) = bounds.0 f in
          record {
            no_store = n;
            no_cache = (r, q);
            alive = alive;
            young = rw (sym age) young;
            lasts = either_map left.0 lasts;
          },
      λ v. tests.1 (
        v.no_store,
        v.no_cache.0,
        v.no_cache.1,
        bounds.1 (v.alive, rw age v.young, either_map left.1 v.lasts),
      ),
    )
