-- ===== src/Breaker/States.antt =====
-- A tripped breaker lets a probe through when it has cooled down.
use suwappu_lattice_protocol.Prelude.{ℕ, ◌+◌, ◌≤◌, ◌≡◌, refl, ap, true, false, ltb, leb, arith}
use suwappu_lattice_protocol.Breaker.{Breaker, allow_request, record_success, record_failure}

-- A failure that reaches the threshold opens the breaker. Once it has cooled down, it lets the next
-- request through and rejects the one after that, at any time, where no answer comes between; where
-- the threshold is at least one, it lets a request through after that one's success.
half_open-probe :
    (b : Breaker) (t now later : ℕ)
    → b.failure_threshold ≤ b.consecutive_failures + 1
    → t + b.cooldown_seconds ≤ now
    → let tripped = record_failure b t in
      let probed = (allow_request tripped now).0 in
      ((allow_request tripped now).1 ≡ true)
      × ((allow_request probed later).1 ≡ false)
      × ((1 ≤ b.failure_threshold) → (allow_request (record_success probed) later).1 ≡ true)
unfolding allow_request record_failure record_success
half_open-probe b t now later h cool =
    let tripped : ltb (b.consecutive_failures + 1) b.failure_threshold ≡ false = ground arith in
    let cold : leb (t + b.cooldown_seconds) now ≡ true = ground arith in
    let probed : allow_request (record_failure b t) now
        ≡ (record (record_failure b t) { half_open_attempted = true }, true) =
      rw (tripped, cold) refl in
    (ap (λ p. p.1) probed, rw probed (rw tripped (ground arith)), λ pos. rw probed (ground arith))
