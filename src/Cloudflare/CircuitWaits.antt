-- ===== src/Cloudflare/CircuitWaits.antt =====
-- internal/cloudflare/circuit_breaker.go: how long calls are turned away, and that this ends.
use bouine.Prelude.{
  ℕ, suc, ◌≤◌, ◌≡◌, ◌⊎◌, ◌↔◌, inl, inr, refl, sym, ap, ◌∙◌, true, false, arith, Bool-cases,
}
use mathlib.Core.Path.{subst}
use bouine.Prelude.Int.{ℤ, pos, ltb_ℤ, ◌<ℤ◌, ◌≤ℤ◌, ◌+ℤ◌, ◌-ℤ◌, IsInt64, int_laws}
use bouine.Api.Object.{sub_time, add_time}
use bouine.Cloudflare.Circuit.{
  CircuitState, circuit_closed, circuit_open, circuit_half_open, CircuitConfig, CircuitBreaker,
  eq_state, notify, transition_to, allow_probe, allow_in, allow, record_success, record_failure_in,
  record_failure, Gate, start_call, Reach, next, start, success, failure, or_default,
  new_circuit_breaker,
}
use bouine.Cloudflare.CircuitSteps.{IsValid, in_state, Reach-IsValid}

-- The steps that the goroutines make after the gate `g`, all calls of Allow before the time `limit`.
pub data Until (limit : ℤ) (g : Gate) : Gate → Type 0 where
  here : Until limit g g
  tried : {h : Gate} → Until limit g h → (now : ℤ) → now <ℤ limit → Until limit g (start_call now h)
  succeeded :
      {cb : CircuitBreaker} {n : ℕ}
      → Until limit g (record { breaker = cb; in_flight = suc n })
      → (now : ℤ) → Until limit g (record { breaker = record_success now cb; in_flight = n })
  failed :
      {cb : CircuitBreaker} {n : ℕ}
      → Until limit g (record { breaker = cb; in_flight = suc n })
      → (now : ℤ) → Until limit g (record { breaker = record_failure now cb; in_flight = n })

-- What stays as it is while a breaker that opened at `f` waits.
record IsOpenAt (cfg : CircuitConfig) (f : ℤ) (cb : CircuitBreaker) : Type 0 where
  opened : eq_state cb.state circuit_open ≡ true
  instant : cb.opened_at ≡ f
  config : cb.cfg ≡ cfg

allow_cfg : (s : CircuitState) (now : ℤ) (cb : CircuitBreaker) → (allow_in s now cb).1.cfg ≡ cb.cfg
unfolding allow_in allow_probe transition_to notify
allow_cfg circuit_closed now cb = refl
allow_cfg circuit_open now cb = ground arith
allow_cfg circuit_half_open now cb = ground arith

success_cfg : (now : ℤ) (cb : CircuitBreaker) → (record_success now cb).cfg ≡ cb.cfg
unfolding record_success transition_to notify
success_cfg now cb = ground arith

failure_cfg :
    (s : CircuitState) (now : ℤ) (cb : CircuitBreaker) → (record_failure_in s now cb).cfg ≡ cb.cfg
unfolding record_failure_in transition_to notify
failure_cfg circuit_closed now cb = ground arith
failure_cfg circuit_open now cb = refl
failure_cfg circuit_half_open now cb = ground arith

-- The configuration with its defaults stays.
Reach-cfg :
    {cfg : CircuitConfig} {g : Gate} → Reach cfg g → g.breaker.cfg ≡ (new_circuit_breaker cfg).cfg
unfolding allow record_failure
Reach-cfg Reach.here = refl
Reach-cfg (next r (start now g)) = allow_cfg g.breaker.state now g.breaker ∙ Reach-cfg r
Reach-cfg (next r (success now cb n)) = success_cfg now cb ∙ Reach-cfg r
Reach-cfg (next r (failure now cb n)) = failure_cfg cb.state now cb ∙ Reach-cfg r

or_default_pos : (n d : ℤ) → pos 0 <ℤ d → pos 0 <ℤ or_default n d
or_default_pos n d h = ground arith

Reach-timeout : {cfg : CircuitConfig} {g : Gate} → Reach cfg g → pos 0 <ℤ g.breaker.cfg.open_timeout
unfolding new_circuit_breaker
Reach-timeout {cfg = cfg} r =
    subst (λ (c : CircuitConfig). pos 0 <ℤ c.open_timeout) (sym (Reach-cfg r))
      (or_default_pos cfg.open_timeout (pos 30000000000) (omega arith))

sub_time_early :
    (now f d : ℤ) → IsInt64 d → pos 0 <ℤ d → (ltb_ℤ (sub_time now f) d ≡ true) ↔ (now <ℤ f +ℤ d)
unfolding sub_time
sub_time_early now f d fits p =
    let split : (now -ℤ f <ℤ d) ↔ (now <ℤ f +ℤ d) = (λ h. omega int_laws, λ h. omega int_laws) in
    (λ h. split.0 (ground arith), λ h. let l = split.1 h in ground arith)

failure-IsOpenAt :
    (s : CircuitState) (f : ℤ) (cb : CircuitBreaker)
    → eq_state s circuit_open ≡ false
    → eq_state (record_failure_in s f (in_state s cb)).state circuit_open ≡ true
    → IsOpenAt cb.cfg f (record_failure_in s f (in_state s cb))
unfolding record_failure_in transition_to notify
failure-IsOpenAt circuit_closed f cb shut opens =
    elim (Bool-cases (ltb_ℤ (pos (suc cb.failures)) cb.cfg.failure_threshold)) [
      | inl few ↦ absurd (ground (arith, opens, few))
      | inr many ↦ rw many (record { opened = refl; instant = refl; config = refl })
    ]
failure-IsOpenAt circuit_open f cb shut opens = absurd (ground (arith, shut))
failure-IsOpenAt circuit_half_open f cb shut opens = record {
  opened = refl;
  instant = refl;
  config = refl;
}

-- An open breaker that is asked too early, and one that hears of calls from before it opened.
rejected-IsOpenAt :
    (s : CircuitState) (cfg : CircuitConfig) (f now : ℤ) (cb : CircuitBreaker)
    → ltb_ℤ (sub_time now f) cfg.open_timeout ≡ true
    → IsOpenAt cfg f (in_state s cb)
    → IsOpenAt cfg f (allow_in s now (in_state s cb)).1
unfolding allow_in
rejected-IsOpenAt circuit_closed cfg f now cb early o = absurd (ground (arith, o.opened))
rejected-IsOpenAt circuit_open cfg f now cb early o =
    let same : ltb_ℤ (sub_time now cb.opened_at) cb.cfg.open_timeout ≡ true =
      ap (λ t. ltb_ℤ (sub_time now t) cb.cfg.open_timeout) o.instant
      ∙ (ap (λ (c : CircuitConfig). ltb_ℤ (sub_time now f) c.open_timeout) o.config ∙ early) in
    rw same (record { opened = refl; instant = o.instant; config = o.config })
rejected-IsOpenAt circuit_half_open cfg f now cb early o = absurd (ground (arith, o.opened))

result-IsOpenAt :
    (s : CircuitState) (cfg : CircuitConfig) (f now : ℤ) (cb : CircuitBreaker)
    → IsOpenAt cfg f (in_state s cb)
    → IsOpenAt cfg f (record_success now (in_state s cb))
      × IsOpenAt cfg f (record_failure_in s now (in_state s cb))
unfolding record_success record_failure_in
result-IsOpenAt circuit_closed cfg f now cb o = absurd (ground (arith, o.opened))
result-IsOpenAt circuit_open cfg f now cb o =
    (record { opened = refl; instant = o.instant; config = o.config }, o)
result-IsOpenAt circuit_half_open cfg f now cb o = absurd (ground (arith, o.opened))

Until-IsOpenAt :
    {cfg : CircuitConfig} {f : ℤ} {g k : Gate}
    → IsInt64 cfg.open_timeout
    → pos 0 <ℤ cfg.open_timeout
    → IsOpenAt cfg f g.breaker
    → Until (add_time f cfg.open_timeout) g k
    → IsOpenAt cfg f k.breaker
unfolding allow record_failure
Until-IsOpenAt t p o here = o
Until-IsOpenAt {cfg = cfg} {f = f} t p o (tried {h = h} u now early) =
    rejected-IsOpenAt h.breaker.state cfg f now h.breaker
      ((sub_time_early now f cfg.open_timeout t p).1 early) (Until-IsOpenAt t p o u)
Until-IsOpenAt {cfg = cfg} {f = f} t p o (succeeded {cb = cb} u now) =
    (result-IsOpenAt cb.state cfg f now cb (Until-IsOpenAt t p o u)).0
Until-IsOpenAt {cfg = cfg} {f = f} t p o (failed {cb = cb} u now) =
    (result-IsOpenAt cb.state cfg f now cb (Until-IsOpenAt t p o u)).1

-- An open breaker lets a probe through exactly once the timeout is over.
open_waits :
    (s : CircuitState) (cfg : CircuitConfig) (f now : ℤ) (cb : CircuitBreaker)
    → IsInt64 cfg.open_timeout
    → pos 0 <ℤ cfg.open_timeout
    → pos 0 <ℤ cfg.half_open_max_calls
    → IsOpenAt cfg f (in_state s cb)
    → ((allow_in s now (in_state s cb)).0 ≡ false) ↔ (now <ℤ f +ℤ cfg.open_timeout)
unfolding allow_in allow_probe transition_to notify
open_waits circuit_closed cfg f now cb t p m o = absurd (ground (arith, o.opened))
open_waits circuit_half_open cfg f now cb t p m o = absurd (ground (arith, o.opened))
open_waits circuit_open cfg f now cb t p m o =
    let same : ltb_ℤ (sub_time now cb.opened_at) cb.cfg.open_timeout
        ≡ ltb_ℤ (sub_time now f) cfg.open_timeout =
      ap (λ t. ltb_ℤ (sub_time now t) cb.cfg.open_timeout) o.instant
      ∙ ap (λ (c : CircuitConfig). ltb_ℤ (sub_time now f) c.open_timeout) o.config in
    let room : ltb_ℤ (pos 0) cb.cfg.half_open_max_calls ≡ true =
      ap (λ (c : CircuitConfig). ltb_ℤ (pos 0) c.half_open_max_calls) o.config
      ∙ ground (arith, m) in
    let early = sub_time_early now f cfg.open_timeout t p in
    elim (Bool-cases (ltb_ℤ (sub_time now f) cfg.open_timeout)) [
      | inl e ↦ rw (same, e) (λ _. early.0 e, λ _. refl)
      | inr e ↦
          rw (same, e, room)
            (λ h. absurd (ground arith), λ h. absurd (ground (arith, early.1 h, e)))
    ]

-- When the failure of a call opens the breaker at `f`, then after whatever calls are tried before
-- the timeout, and whatever the calls still in flight come to, Allow turns a call away exactly
-- before `f` plus the timeout, in every state that can arise and for a timeout that is an int64.
pub opened_breaker_waits :
    {cfg : CircuitConfig} {cb : CircuitBreaker} {n : ℕ}
    → Reach cfg (record { breaker = cb; in_flight = suc n })
    → IsInt64 cb.cfg.open_timeout
    → eq_state cb.state circuit_open ≡ false
    → (f : ℤ) → eq_state (record_failure f cb).state circuit_open ≡ true
    → {k : Gate}
    → Until
        (add_time f cb.cfg.open_timeout)
        (record { breaker = record_failure f cb; in_flight = n })
        k
    → (now : ℤ) → ((allow now k.breaker).0 ≡ false) ↔ (now <ℤ add_time f cb.cfg.open_timeout)
unfolding allow record_failure
opened_breaker_waits {cb = cb} r t shut f opens {k = k} u now =
    let p = Reach-timeout r in
    open_waits k.breaker.state cb.cfg f now k.breaker t p (Reach-IsValid r).max_calls
      (Until-IsOpenAt t p (failure-IsOpenAt cb.state f cb shut opens) u)

sub_time_late : (f d : ℤ) (n : ℕ) → IsInt64 d → ltb_ℤ (sub_time (add_time f d +ℤ pos n) f) d ≡ false
unfolding sub_time
sub_time_late f d n fits =
    let late : (f +ℤ d +ℤ pos n) -ℤ f ≡ d +ℤ pos n = omega int_laws in
    let more : d ≤ℤ d +ℤ pos n = omega int_laws in rw late (ground (arith, fits, more))

-- What becomes of a breaker whose probes are used up: the result of a call in flight ends that.
pub record Recovers (g : Gate) : Type 0 where
  pub in_flight : 1 ≤ g.in_flight
  pub after_success : (now later : ℤ) → (allow later (record_success now g.breaker)).0 ≡ true
  pub after_failure :
      (now : ℤ) (n : ℕ)
      → (allow (add_time now g.breaker.cfg.open_timeout +ℤ pos n) (record_failure now g.breaker)).0
        ≡ true

state-Recovers :
    (s : CircuitState) (cb : CircuitBreaker) (m : ℕ)
    → IsInt64 cb.cfg.open_timeout
    → IsValid (in_state s cb) m
    → ((n : ℕ)
        → (allow (add_time cb.opened_at cb.cfg.open_timeout +ℤ pos n) (in_state s cb)).0 ≡ true)
      ⊎ Recovers (record { breaker = in_state s cb; in_flight = m })
unfolding allow allow_in allow_probe record_success record_failure record_failure_in transition_to
    notify
state-Recovers circuit_closed cb m t v = inl λ n. refl
state-Recovers circuit_open cb m t v =
    inl λ n. rw (sub_time_late cb.opened_at cb.cfg.open_timeout n t) (ground (arith, v.max_calls))
state-Recovers circuit_half_open cb m t v = inr (record {
  in_flight = ground (arith, v.counts.0, v.counts.1);
  after_success = λ now later. refl;
  after_failure =
      λ now n. rw (sub_time_late now cb.cfg.open_timeout n t) (ground (arith, v.max_calls));
})

-- A breaker does not turn calls away for ever. In every state that can arise, with a timeout that is
-- an int64, Allow lets a call through at every time from the last opening plus the timeout on; or a
-- call is in flight whose result ends the wait: after its success Allow lets a call through at every
-- time, and after its failure at every time from that failure plus the timeout on.
pub some_call_allowed :
    {cfg : CircuitConfig} {g : Gate}
    → Reach cfg g
    → IsInt64 g.breaker.cfg.open_timeout
    → ((n : ℕ)
        → (allow (add_time g.breaker.opened_at g.breaker.cfg.open_timeout +ℤ pos n) g.breaker).0
          ≡ true)
      ⊎ Recovers g
some_call_allowed {g = g} r t =
    state-Recovers g.breaker.state g.breaker g.in_flight t (Reach-IsValid r)
