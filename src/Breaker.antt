-- ===== src/Breaker.antt =====
-- `PeerCircuitBreaker` and the parts of `RetryPolicy` and `ExponentialBackoff` that are not sleeping
-- (src/ltp/network/resilience.py). Times are natural numbers, for the float clock; a call takes the
-- clock's reading as `now`. The lock makes a call one step.
pub mod States
pub mod Machine
use suwappu_lattice_protocol.Prelude.{
  ℕ, ◌+◌, ◌-◌, ◌*◌, ◌^◌, Bool, true, false, ltb, leb, not, if◌then◌else◌,
}
use Prim.Native.Nat.{min}

pub record Breaker : Type 0 where
  pub failure_threshold : ℕ
  pub cooldown_seconds : ℕ
  pub consecutive_failures : ℕ
  pub last_failure_at : ℕ
  pub half_open_attempted : Bool

abbrev pub make_breaker : ℕ → ℕ → Breaker
make_breaker failure_threshold cooldown_seconds = record {
  failure_threshold = failure_threshold;
  cooldown_seconds = cooldown_seconds;
  consecutive_failures = 0;
  last_failure_at = 0;
  half_open_attempted = false;
}

-- `_time.time() - self._last_failure_at >= self._cooldown_seconds`
abbrev pub cooled : Breaker → ℕ → Bool
cooled b now = leb (b.last_failure_at + b.cooldown_seconds) now

unfoldable pub is_open : Breaker → ℕ → Bool
is_open b now =
    if ltb b.consecutive_failures b.failure_threshold
    then false
    else if cooled b now
    then false
    else true

unfoldable pub is_half_open : Breaker → ℕ → Bool
is_half_open b now = if ltb b.consecutive_failures b.failure_threshold then false else cooled b now

pub data BreakerState : Type 0 where
  closed open_circuit half_open : BreakerState

unfoldable pub state : Breaker → ℕ → BreakerState
state b now =
    if ltb b.consecutive_failures b.failure_threshold
    then closed
    else if cooled b now
    then half_open
    else open_circuit

unfoldable pub allow_request : Breaker → ℕ → Breaker × Bool
allow_request b now =
    if ltb b.consecutive_failures b.failure_threshold
    then (b, true)
    else if cooled b now
    then if not b.half_open_attempted
      then (record b { half_open_attempted = true }, true)
      else (b, false)
    else (b, false)

unfoldable pub record_success : Breaker → Breaker
record_success b = record b { consecutive_failures = 0; half_open_attempted = false }

unfoldable pub record_failure : Breaker → ℕ → Breaker
record_failure b now = record b {
  consecutive_failures = b.consecutive_failures + 1;
  last_failure_at = now;
  half_open_attempted = false;
}

abbrev pub failure_count : Breaker → ℕ
failure_count b = b.consecutive_failures

pub record Backoff : Type 0 where
  pub base_delay : ℕ
  pub max_delay : ℕ
  pub jitter : ℕ

-- `jitter_drawn` is what the random source gave, from 0 to the jitter.
unfoldable pub delay_for : Backoff → ℕ → ℕ → ℕ
delay_for b attempt jitter_drawn =
    let delay = min b.max_delay (b.base_delay * 2 ^ attempt) in
    if ltb 0 b.jitter then delay + jitter_drawn else delay

pub record RetryPolicy : Type 0 where
  pub max_attempts : ℕ
  pub breaker : Breaker
  pub backoff : Backoff

abbrev pub with_breaker : RetryPolicy → Breaker × Bool → RetryPolicy × Bool
with_breaker p (b, allowed) = (record p { breaker = b }, allowed)

unfoldable pub should_attempt : RetryPolicy → ℕ → RetryPolicy × Bool
should_attempt p now = with_breaker p (allow_request p.breaker now)

unfoldable pub policy_success : RetryPolicy → RetryPolicy
policy_success p = record p { breaker = record_success p.breaker }

-- The policy after a failure, and the delay before the next attempt: none after the last.
unfoldable pub policy_failure : RetryPolicy → ℕ → ℕ → ℕ → RetryPolicy × ℕ
policy_failure p now attempt jitter_drawn = (
  record p { breaker = record_failure p.breaker now },
  if ltb (attempt + 1) p.max_attempts then delay_for p.backoff attempt jitter_drawn else 0,
)
