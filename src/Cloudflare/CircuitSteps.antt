-- ===== src/Cloudflare/CircuitSteps.antt =====
-- internal/cloudflare/circuit_breaker.go: what holds whatever the goroutines do.
use bouine.Prelude.{
  ℕ, suc, ◌≤◌, ◌≡◌, inl, inr, refl, List, [], ◌∷◌, arith, if◌then◌else◌, Bool-cases,
}
use bouine.Prelude.Int.{ℤ, pos, ltb_ℤ, ◌<ℤ◌, ◌≤ℤ◌}
use bouine.Api.Object.{sub_time}
use bouine.Cloudflare.Circuit.{
  CircuitState, circuit_closed, circuit_open, circuit_half_open, CircuitConfig, CircuitBreaker,
  or_default, new_circuit_breaker, notify, transition_to, allow_probe, allow_in, allow,
  record_success, record_failure_in, record_failure, Gate, Step, start, success, failure, Reach,
  here, next,
}

-- The state that the callback was told last.
abbrev pub told : List (CircuitState × CircuitState) → CircuitState
told [] = circuit_closed
told ((old, new) ∷ changes) = new

-- The changes that the comment on OnStateChange names, each from where the one before it led.
abbrev pub IsChange : CircuitState → CircuitState → Type 0
IsChange circuit_closed circuit_open = Unit
IsChange circuit_open circuit_half_open = Unit
IsChange circuit_half_open circuit_closed = Unit
IsChange circuit_half_open circuit_open = Unit
IsChange _ _ = ⊥

abbrev pub AreChanges : List (CircuitState × CircuitState) → Type 0
AreChanges [] = Unit
AreChanges ((old, new) ∷ changes) = (told changes ≡ old) × IsChange old new × AreChanges changes

-- What each state keeps of the counters, with `n` calls in flight.
abbrev pub Counts : CircuitState → CircuitBreaker → ℕ → Type 0
Counts circuit_closed cb n = pos cb.failures <ℤ cb.cfg.failure_threshold
Counts circuit_open cb n = cb.half_open_used ≡ 0
Counts circuit_half_open cb n =
    (1 ≤ cb.half_open_used)
    × (cb.half_open_used ≤ n)
    × (pos cb.half_open_used ≤ℤ cb.cfg.half_open_max_calls)

pub record IsValid (cb : CircuitBreaker) (n : ℕ) : Type 0 where
  pub threshold : pos 0 <ℤ cb.cfg.failure_threshold
  pub max_calls : pos 0 <ℤ cb.cfg.half_open_max_calls
  pub counts : Counts cb.state cb n
  pub notified : told cb.changes ≡ cb.state
  pub changes : AreChanges cb.changes

or_default_pos : (n d : ℤ) → pos 0 <ℤ d → pos 0 <ℤ or_default n d
or_default_pos n d h = ground arith

new-IsValid : (cfg : CircuitConfig) → IsValid (new_circuit_breaker cfg) 0
unfolding new_circuit_breaker
new-IsValid cfg = record {
  threshold = or_default_pos cfg.failure_threshold (pos 5) (omega arith);
  max_calls = or_default_pos cfg.half_open_max_calls (pos 1) (omega arith);
  counts = or_default_pos cfg.failure_threshold (pos 5) (omega arith);
  notified = refl;
  changes = tt;
}

abbrev pub in_state : CircuitState → CircuitBreaker → CircuitBreaker
in_state s cb = record cb { state = s }

-- A probe, of which at most `n` are in flight.
probe-IsValid :
    (cb : CircuitBreaker) (n : ℕ)
    → pos 0 <ℤ cb.cfg.failure_threshold
    → pos 0 <ℤ cb.cfg.half_open_max_calls
    → cb.half_open_used ≤ n
    → pos cb.half_open_used ≤ℤ cb.cfg.half_open_max_calls
    → told cb.changes ≡ circuit_half_open
    → AreChanges cb.changes
    → let (allowed, cb') = allow_probe (in_state circuit_half_open cb) in
      IsValid cb' (if allowed then suc n else n)
unfolding allow_probe
probe-IsValid cb n t m used room told_e chs =
    elim (Bool-cases (ltb_ℤ (pos cb.half_open_used) cb.cfg.half_open_max_calls)) [
      | inl free ↦ rw free (record {
        threshold = t;
        max_calls = m;
        counts = ground arith;
        notified = told_e;
        changes = chs;
      })
      | inr over ↦ rw over (record {
        threshold = t;
        max_calls = m;
        counts = ground arith;
        notified = told_e;
        changes = chs;
      })
    ]

-- Each operation, for every state to start from.
allow-IsValid :
    (now : ℤ) (s : CircuitState) (cb : CircuitBreaker) (n : ℕ)
    → IsValid (in_state s cb) n
    → let (allowed, cb') = allow now (in_state s cb) in IsValid cb' (if allowed then suc n else n)
unfolding allow allow_in transition_to notify
allow-IsValid now circuit_closed cb n v = record {
  threshold = v.threshold;
  max_calls = v.max_calls;
  counts = v.counts;
  notified = v.notified;
  changes = v.changes;
}
allow-IsValid now circuit_half_open cb n v =
    probe-IsValid cb n v.threshold v.max_calls v.counts.1 v.counts.2 v.notified v.changes
allow-IsValid now circuit_open cb n v =
    elim (Bool-cases (ltb_ℤ (sub_time now cb.opened_at) cb.cfg.open_timeout)) [
      | inl early ↦ rw early (record {
        threshold = v.threshold;
        max_calls = v.max_calls;
        counts = v.counts;
        notified = v.notified;
        changes = v.changes;
      })
      | inr late ↦ rw late (
          probe-IsValid (transition_to circuit_half_open now (in_state circuit_open cb)) n
            v.threshold v.max_calls (omega arith) (ground (arith, v.max_calls)) refl
            (v.notified, tt, v.changes))
    ]

success-IsValid :
    (now : ℤ) (s : CircuitState) (cb : CircuitBreaker) (n : ℕ)
    → IsValid (in_state s cb) (suc n)
    → IsValid (record_success now (in_state s cb)) n
unfolding record_success transition_to notify
success-IsValid now circuit_closed cb n v = record {
  threshold = v.threshold;
  max_calls = v.max_calls;
  counts = v.threshold;
  notified = v.notified;
  changes = v.changes;
}
success-IsValid now circuit_open cb n v = record {
  threshold = v.threshold;
  max_calls = v.max_calls;
  counts = v.counts;
  notified = v.notified;
  changes = v.changes;
}
success-IsValid now circuit_half_open cb n v = record {
  threshold = v.threshold;
  max_calls = v.max_calls;
  counts = v.threshold;
  notified = refl;
  changes = (v.notified, tt, v.changes);
}

failure-IsValid :
    (now : ℤ) (s : CircuitState) (cb : CircuitBreaker) (n : ℕ)
    → IsValid (in_state s cb) (suc n)
    → IsValid (record_failure now (in_state s cb)) n
unfolding record_failure record_failure_in transition_to notify
failure-IsValid now circuit_closed cb n v =
    elim (Bool-cases (ltb_ℤ (pos (suc cb.failures)) cb.cfg.failure_threshold)) [
      | inl below ↦ rw below (record {
        threshold = v.threshold;
        max_calls = v.max_calls;
        counts = ground (arith, below);
        notified = v.notified;
        changes = v.changes;
      })
      | inr reached ↦ rw reached (record {
        threshold = v.threshold;
        max_calls = v.max_calls;
        counts = refl;
        notified = refl;
        changes = (v.notified, tt, v.changes);
      })
    ]
failure-IsValid now circuit_open cb n v = record {
  threshold = v.threshold;
  max_calls = v.max_calls;
  counts = v.counts;
  notified = v.notified;
  changes = v.changes;
}
failure-IsValid now circuit_half_open cb n v = record {
  threshold = v.threshold;
  max_calls = v.max_calls;
  counts = refl;
  notified = refl;
  changes = (v.notified, tt, v.changes);
}

Step-IsValid :
    {g h : Gate} → Step g h → IsValid g.breaker g.in_flight → IsValid h.breaker h.in_flight
Step-IsValid (start now g) v = allow-IsValid now g.breaker.state g.breaker g.in_flight v
Step-IsValid (success now cb n) v = success-IsValid now cb.state cb n v
Step-IsValid (failure now cb n) v = failure-IsValid now cb.state cb n v

-- In every state that calls, successes and failures lead to, in any order and with any number of
-- calls in flight: a closed breaker has fewer failures than the threshold; a half-open one has let
-- through from one to the allowed number of probes, and all of them are still in flight; the
-- callback was told of each change of state, the last of them into the present state, and each is
-- one of closed to open, open to half-open, half-open to closed and half-open to open.
pub Reach-IsValid : {cfg : CircuitConfig} {g : Gate} → Reach cfg g → IsValid g.breaker g.in_flight
Reach-IsValid {cfg = cfg} here = new-IsValid cfg
Reach-IsValid (next r s) = Step-IsValid s (Reach-IsValid r)
