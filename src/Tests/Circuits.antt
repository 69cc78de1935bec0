-- ===== src/Tests/Circuits.antt =====
-- internal/cloudflare/circuit_breaker.go at a threshold of one failure.
use bouine.Prelude.{ℕ, ◌≡◌, ◌⊎◌, ◌↔◌, refl, true, false, [], ◌∷◌, arith}
use bouine.Prelude.Int.{pos, ◌+ℤ◌, ◌<ℤ◌, IsInt64}
use bouine.Api.Object.{add_time}
use bouine.Cloudflare.Circuit
use bouine.Cloudflare.Circuit.{
  circuit_closed, circuit_open, CircuitConfig, CircuitBreaker, new_circuit_breaker, eq_state, allow,
  record_failure, Gate, new_gate, start_call, Step, start, failure, Reach, here, next,
}
use bouine.Cloudflare.CircuitRuns
use bouine.Cloudflare.CircuitRuns.{record_all, has_failures_in_row}
use bouine.Cloudflare.CircuitSteps
use bouine.Cloudflare.CircuitSteps.{IsValid}
use bouine.Cloudflare.CircuitWaits
use bouine.Cloudflare.CircuitWaits.{Until, Recovers}

abbrev one_failure : CircuitConfig
one_failure = record {
  failure_threshold = pos 1;
  open_timeout = pos 1000;
  half_open_max_calls = pos 0;
}

abbrev tripped : Gate
tripped = record {
  breaker = record_failure (pos 20) (new_circuit_breaker one_failure);
  in_flight = 0;
}

tripped_reached : Reach one_failure tripped
unfolding allow Circuit.allow_in new_circuit_breaker
tripped_reached =
    next (next here (start (pos 10) (new_gate one_failure)))
      (failure (pos 20) (new_circuit_breaker one_failure) 0)

Reach-IsValid_example : IsValid tripped.breaker tripped.in_flight
Reach-IsValid_example = CircuitSteps.Reach-IsValid tripped_reached

-- A call in flight on a closed breaker, whose failure at 20 opens it.
abbrev trying : CircuitBreaker
trying = (allow (pos 10) (new_circuit_breaker one_failure)).1

trying_reached : Reach one_failure (record { breaker = trying; in_flight = 1 })
unfolding allow Circuit.allow_in new_circuit_breaker
trying_reached = next here (start (pos 10) (new_gate one_failure))

trying-IsInt64 : IsInt64 trying.cfg.open_timeout
unfolding allow Circuit.allow_in new_circuit_breaker
trying-IsInt64 = ground arith

trying_closed : eq_state trying.state circuit_open ≡ false
unfolding allow Circuit.allow_in new_circuit_breaker
trying_closed = refl

trying_opens : eq_state (record_failure (pos 20) trying).state circuit_open ≡ true
unfolding allow Circuit.allow_in new_circuit_breaker record_failure Circuit.record_failure_in
    Circuit.transition_to Circuit.notify
trying_opens = refl

-- The breaker is open, and a call is tried before the 20 and the timeout of 1000 are over.
abbrev failed_gate : Gate
failed_gate = record { breaker = record_failure (pos 20) trying; in_flight = 0 }

tried_early :
    Until (add_time (pos 20) trying.cfg.open_timeout) failed_gate (start_call (pos 900) failed_gate)
unfolding allow Circuit.allow_in new_circuit_breaker ◌+ℤ◌
tried_early = CircuitWaits.tried CircuitWaits.here (pos 900) (ground arith)

opened_breaker_waits_example :
    ((allow (pos 1019) (start_call (pos 900) failed_gate).breaker).0 ≡ false)
    ↔ (pos 1019 <ℤ add_time (pos 20) trying.cfg.open_timeout)
opened_breaker_waits_example =
    CircuitWaits.opened_breaker_waits trying_reached trying-IsInt64 trying_closed (pos 20)
      trying_opens tried_early (pos 1019)

timeout-IsInt64 : IsInt64 tripped.breaker.cfg.open_timeout
unfolding record_failure Circuit.record_failure_in new_circuit_breaker Circuit.transition_to
    Circuit.notify
timeout-IsInt64 = ground arith

some_call_allowed_example :
    ((n : ℕ)
      → (allow
          (add_time tripped.breaker.opened_at tripped.breaker.cfg.open_timeout +ℤ pos n)
          tripped.breaker).0
        ≡ true)
    ⊎ Recovers tripped
some_call_allowed_example = CircuitWaits.some_call_allowed tripped_reached timeout-IsInt64

record_all-opens_example :
    eq_state
      (record_all (pos 20) (new_circuit_breaker one_failure) (true ∷ false ∷ [])).state
      circuit_open
    ≡ has_failures_in_row 1 (true ∷ false ∷ [])
unfolding new_circuit_breaker
record_all-opens_example =
    CircuitRuns.record_all-opens (pos 20) (new_circuit_breaker one_failure) 0 (true ∷ false ∷ [])
      refl refl refl
