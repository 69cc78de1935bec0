-- ===== src/Cloudflare/CircuitRuns.antt =====
-- internal/cloudflare/circuit_breaker.go: what opens a closed circuit.
use bouine.Prelude.{
  inl, inr, ℕ, zero, suc, ◌+◌, ◌≤◌, ◌≡◌, refl, ap, ◌∙◌, Bool, true, false, ◌&&◌, ◌||◌, not, List,
  [], ◌∷◌, arith, Bool-cases,
}
use bouine.Prelude.Int.{ℤ, pos, ltb_ℤ}
use bouine.Cloudflare.Circuit.{
  circuit_closed, circuit_open, CircuitBreaker, eq_state, notify, transition_to, record_success,
  record_failure_in, record_failure,
}

-- The results of calls, one after the other; `true` is a success.
unfoldable pub record_result : ℤ → CircuitBreaker → Bool → CircuitBreaker
record_result now cb true = record_success now cb
record_result now cb false = record_failure now cb

unfoldable pub record_all : ℤ → CircuitBreaker → List Bool → CircuitBreaker
record_all now cb [] = cb
record_all now cb (r ∷ rs) = record_all now (record_result now cb r) rs

-- The list starts with `t` failures, or has `t` in a row somewhere.
unfoldable pub starts_with_failures : ℕ → List Bool → Bool
starts_with_failures zero rs = true
starts_with_failures (suc t) [] = false
starts_with_failures (suc t) (r ∷ rs) = not r && starts_with_failures t rs

unfoldable pub has_failures_in_row : ℕ → List Bool → Bool
has_failures_in_row t [] = starts_with_failures t []
has_failures_in_row t (r ∷ rs) = starts_with_failures t (r ∷ rs) || has_failures_in_row t rs

abbrev closed_with : CircuitBreaker → ℕ → CircuitBreaker
closed_with cb k = record cb { state = circuit_closed; failures = k }

abbrev open_at : CircuitBreaker → CircuitBreaker
open_at cb = record cb { state = circuit_open }

-- An open breaker stays open whatever is recorded.
open_stays :
    (now : ℤ) (cb : CircuitBreaker) (rs : List Bool)
    → eq_state (record_all now (open_at cb) rs).state circuit_open ≡ true
unfolding record_all record_result record_success record_failure record_failure_in
open_stays now cb [] = refl
open_stays now cb (true ∷ rs) = open_stays now (record cb { failures = 0 }) rs
open_stays now cb (false ∷ rs) = open_stays now cb rs

fewer_failures :
    (t u : ℕ) (rs : List Bool)
    → t ≤ u
    → starts_with_failures u rs ≡ true
    → starts_with_failures t rs ≡ true
unfolding starts_with_failures
fewer_failures zero u rs h e = refl
fewer_failures (suc t) zero rs h e = absurd (omega arith)
fewer_failures (suc t) (suc u) [] h e = e
fewer_failures (suc t) (suc u) (true ∷ rs) h e = e
fewer_failures (suc t) (suc u) (false ∷ rs) h e = fewer_failures t u rs (omega arith) e

-- A run at the start is a run.
or_start :
    (t : ℕ) (rs : List Bool)
    → (starts_with_failures t rs || has_failures_in_row t rs) ≡ has_failures_in_row t rs
unfolding has_failures_in_row
or_start t [] = elim (Bool-cases (starts_with_failures t [])) [
  | inl e ↦ rw e refl
  | inr e ↦ rw e refl
]
or_start t (r ∷ rs) = elim (Bool-cases (starts_with_failures t (r ∷ rs))) [
  | inl e ↦ rw e refl
  | inr e ↦ rw e refl
]

-- A longer run at the start adds nothing to a shorter one.
or_longer :
    (t u : ℕ) (rs : List Bool) (b : Bool)
    → t ≤ u
    → (starts_with_failures t rs || b)
      ≡ (starts_with_failures t rs || (starts_with_failures u rs || b))
or_longer t u rs b h = elim (Bool-cases (starts_with_failures t rs)) [
  | inl e ↦ rw e refl
  | inr e ↦ elim (Bool-cases (starts_with_failures u rs)) [
    | inl f ↦ absurd (grind (arith, e, fewer_failures t u rs h f))
    | inr f ↦ rw (e, f) refl
  ]
]

abbrev opened : ℤ → CircuitBreaker → ℕ → CircuitBreaker
opened now cb k = record cb {
  opened_at = now;
  failures = suc k;
  half_open_used = 0;
  changes = (circuit_closed, circuit_open) ∷ cb.changes;
}

failure_opens :
    (now : ℤ) (cb : CircuitBreaker) (k : ℕ)
    → ltb_ℤ (pos (suc k)) cb.cfg.failure_threshold ≡ false
    → record_failure now (closed_with cb k) ≡ open_at (opened now cb k)
unfolding record_failure record_failure_in transition_to notify
failure_opens now cb k h = rw h refl

failure_counts :
    (now : ℤ) (cb : CircuitBreaker) (k : ℕ)
    → ltb_ℤ (pos (suc k)) cb.cfg.failure_threshold ≡ true
    → record_failure now (closed_with cb k) ≡ closed_with cb (suc k)
unfolding record_failure record_failure_in
failure_counts now cb k h = rw h refl

-- With `k` failures in a row, the rest of a run is looked for at the start.
opens_from :
    (now : ℤ) (t : ℕ) (cb : CircuitBreaker) (k d : ℕ) (rs : List Bool)
    → cb.cfg.failure_threshold ≡ pos (suc t)
    → k + d ≡ t
    → eq_state (record_all now (closed_with cb k) rs).state circuit_open
      ≡ (starts_with_failures (suc d) rs || has_failures_in_row (suc t) rs)
unfolding record_all record_result record_success starts_with_failures has_failures_in_row
opens_from now t cb k d [] c e = refl
opens_from now t cb k d (true ∷ rs) c e =
    opens_from now t cb 0 t rs c (omega arith) ∙ or_start (suc t) rs
opens_from now t cb k zero (false ∷ rs) c e =
    let reached : ltb_ℤ (pos (suc k)) cb.cfg.failure_threshold ≡ false = rw c (ground (arith, e)) in
    ap (λ b. eq_state (record_all now b rs).state circuit_open) (failure_opens now cb k reached)
    ∙ open_stays now (opened now cb k) rs
opens_from now t cb k (suc d) (false ∷ rs) c e =
    let below : ltb_ℤ (pos (suc k)) cb.cfg.failure_threshold ≡ true = rw c (ground (arith, e)) in
    ap (λ b. eq_state (record_all now b rs).state circuit_open) (failure_counts now cb k below)
    ∙ (opens_from now t cb (suc k) d rs c (omega arith)
        ∙ or_longer (suc d) t rs (has_failures_in_row (suc t) rs) (omega arith))

-- Recorded on a breaker that is closed without failures, results open it exactly where as many
-- failures as the threshold, which is positive, come in a row among them.
pub record_all-opens :
    (now : ℤ) (cb : CircuitBreaker) (t : ℕ) (rs : List Bool)
    → cb.state ≡ circuit_closed
    → cb.failures ≡ 0
    → cb.cfg.failure_threshold ≡ pos (suc t)
    → eq_state (record_all now cb rs).state circuit_open ≡ has_failures_in_row (suc t) rs
record_all-opens now cb t rs s f c =
    let same : closed_with cb 0 ≡ cb = rw (s, f) refl in
    rw same at (opens_from now t cb 0 t rs c (omega arith) ∙ or_start (suc t) rs)
