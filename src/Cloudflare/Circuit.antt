-- ===== src/Cloudflare/Circuit.antt =====
-- internal/cloudflare/circuit_breaker.go. Each method holds the mutex throughout, so that a call is one
-- step; `now` is what nowFunc answers. What the two callbacks are called with is kept, the last
-- change first. A counter only goes up from 0, to the value of an int at most.
use bouine.Prelude.{ℕ, suc, Bool, true, false, List, [], ◌∷◌, if◌then◌else◌}
use bouine.Prelude.Int.{ℤ, pos, leb_ℤ, ltb_ℤ}
use bouine.Api.Object.{sub_time}

pub data CircuitState : Type 0 where
  circuit_closed circuit_open circuit_half_open : CircuitState

pub record CircuitConfig : Type 0 where
  pub failure_threshold : ℤ
  pub open_timeout : ℤ
  pub half_open_max_calls : ℤ

pub record CircuitBreaker : Type 0 where
  pub cfg : CircuitConfig
  pub state : CircuitState
  pub opened_at : ℤ
  pub failures : ℕ
  pub half_open_used : ℕ
  pub changes : List (CircuitState × CircuitState)
  pub rejects : ℕ

abbrev pub or_default : ℤ → ℤ → ℤ
or_default n default = if leb_ℤ n (pos 0) then default else n

unfoldable pub new_circuit_breaker : CircuitConfig → CircuitBreaker
new_circuit_breaker cfg = record {
  cfg = record {
    failure_threshold = or_default cfg.failure_threshold (pos 5);
    open_timeout = or_default cfg.open_timeout (pos 30000000000);
    half_open_max_calls = or_default cfg.half_open_max_calls (pos 1);
  };
  state = circuit_closed;
  opened_at = pos 0;
  failures = 0;
  half_open_used = 0;
  changes = [];
  rejects = 0;
}

abbrev pub eq_state : CircuitState → CircuitState → Bool
eq_state circuit_closed circuit_closed = true
eq_state circuit_open circuit_open = true
eq_state circuit_half_open circuit_half_open = true
eq_state _ _ = false

-- The end of transitionTo: onStateChange is called where the state is another one.
unfoldable pub notify : CircuitState → CircuitBreaker → CircuitBreaker
notify old cb =
    if eq_state old cb.state then cb else record cb { changes = (old, cb.state) ∷ cb.changes }

unfoldable pub transition_to : CircuitState → ℤ → CircuitBreaker → CircuitBreaker
transition_to circuit_closed now cb =
    notify cb.state (record cb { state = circuit_closed; failures = 0 })
transition_to circuit_open now cb =
    notify cb.state (record cb { state = circuit_open; opened_at = now; half_open_used = 0 })
transition_to circuit_half_open now cb =
    notify cb.state (record cb { state = circuit_half_open; half_open_used = 0 })

abbrev pub reject : CircuitBreaker → Bool × CircuitBreaker
reject cb = (false, record cb { rejects = suc cb.rejects })

-- A call in the half-open state, which uses up the budget of probes.
unfoldable pub allow_probe : CircuitBreaker → Bool × CircuitBreaker
allow_probe cb =
    if ltb_ℤ (pos cb.half_open_used) cb.cfg.half_open_max_calls
    then (true, record cb { half_open_used = suc cb.half_open_used })
    else reject cb

unfoldable pub allow_in : CircuitState → ℤ → CircuitBreaker → Bool × CircuitBreaker
allow_in circuit_closed now cb = (true, cb)
allow_in circuit_open now cb =
    if ltb_ℤ (sub_time now cb.opened_at) cb.cfg.open_timeout
    then reject cb
    else allow_probe (transition_to circuit_half_open now cb)
allow_in circuit_half_open now cb = allow_probe cb

unfoldable pub allow : ℤ → CircuitBreaker → Bool × CircuitBreaker
allow now cb = allow_in cb.state now cb

unfoldable pub record_success : ℤ → CircuitBreaker → CircuitBreaker
record_success now cb =
    let cb0 = record cb { failures = 0 } in
    if eq_state cb.state circuit_half_open then transition_to circuit_closed now cb0 else cb0

unfoldable pub record_failure_in : CircuitState → ℤ → CircuitBreaker → CircuitBreaker
record_failure_in circuit_closed now cb =
    let cb1 = record cb { failures = suc cb.failures } in
    if ltb_ℤ (pos cb1.failures) cb.cfg.failure_threshold
    then cb1
    else transition_to circuit_open now cb1
record_failure_in circuit_open now cb = cb
record_failure_in circuit_half_open now cb = transition_to circuit_open now cb

unfoldable pub record_failure : ℤ → CircuitBreaker → CircuitBreaker
record_failure now cb = record_failure_in cb.state now cb

-- `recordFlush` of cmd/bouine/cmd/cloudflare.go: a call of the API between Allow and the record of
-- its result. `in_flight` counts the calls in between, which several goroutines make.
pub record Gate : Type 0 where
  pub breaker : CircuitBreaker
  pub in_flight : ℕ

abbrev pub new_gate : CircuitConfig → Gate
new_gate cfg = record { breaker = new_circuit_breaker cfg; in_flight = 0 }

abbrev pub start_call : ℤ → Gate → Gate
start_call now g =
    let (allowed, cb) = allow now g.breaker in
    record { breaker = cb; in_flight = if allowed then suc g.in_flight else g.in_flight }

-- The steps that the goroutines make, in any order: a call is started or turned away, and one that
-- is in flight succeeds or fails.
pub data Step : Gate → Gate → Type 0 where
  start : (now : ℤ) (g : Gate) → Step g (start_call now g)
  success :
      (now : ℤ) (cb : CircuitBreaker) (n : ℕ)
      → Step
          (record { breaker = cb; in_flight = suc n })
          (record { breaker = record_success now cb; in_flight = n })
  failure :
      (now : ℤ) (cb : CircuitBreaker) (n : ℕ)
      → Step
          (record { breaker = cb; in_flight = suc n })
          (record { breaker = record_failure now cb; in_flight = n })

pub data Reach (cfg : CircuitConfig) : Gate → Type 0 where
  here : Reach cfg (new_gate cfg)
  next : {g h : Gate} → Reach cfg g → Step g h → Reach cfg h
