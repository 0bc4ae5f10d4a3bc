-- ===== src/Breaker/Machine.antt =====
-- The breaker implements a machine of three states: counting failures, waiting to a time, probing.
use suwappu_lattice_protocol.Prelude.{
  ℕ, ◌+◌, ◌≤◌, ◌≡◌, refl, Bool, true, false, inl, inr, List, [], ◌∷◌, ltb, leb, ltb-cases, arith,
  Bool-cases, if◌then◌else◌,
}
use suwappu_lattice_protocol.Breaker.{Breaker, allow_request, record_success, record_failure}

-- A request asks, or an answer comes in.
pub data Event : Type 0 where
  ask fail : ℕ → Event
  succeed : Event

-- What the breaker promises: it has counted some failures in a row, it rejects up to a time, or it
-- has let a probe through and waits for its answer.
pub data Machine : Type 0 where
  counted : ℕ → Machine
  waiting : ℕ → Machine
  probing : Machine

abbrev pub asked : ℕ → Machine → Machine × Bool
asked now (counted n) = (counted n, true)
asked now (waiting t) = if leb t now then (probing, true) else (waiting t, false)
asked now probing = (probing, false)

-- A failure with a threshold and a cooldown.
abbrev pub failed : ℕ → ℕ → ℕ → Machine → Machine
failed threshold cooldown now (counted n) =
    if ltb (n + 1) threshold then counted (n + 1) else waiting (now + cooldown)
failed threshold cooldown now (waiting t) = waiting (now + cooldown)
failed threshold cooldown now probing = waiting (now + cooldown)

-- The answers to the requests of a sequence of events.
abbrev pub answers : ℕ → ℕ → Machine → List Event → List Bool
answers threshold cooldown m [] = []
answers threshold cooldown m (ask now ∷ es) =
    (asked now m).1 ∷ answers threshold cooldown (asked now m).0 es
answers threshold cooldown m (fail now ∷ es) =
    answers threshold cooldown (failed threshold cooldown now m) es
answers threshold cooldown m (succeed ∷ es) = answers threshold cooldown (counted 0) es

abbrev pub requests : Breaker → List Event → List Bool
requests b [] = []
requests b (ask now ∷ es) = (allow_request b now).1 ∷ requests (allow_request b now).0 es
requests b (fail now ∷ es) = requests (record_failure b now) es
requests b (succeed ∷ es) = requests (record_success b) es

-- The state of the machine that a breaker is in.
abbrev pub machine : Breaker → Machine
machine b =
    if ltb b.consecutive_failures b.failure_threshold
    then counted b.consecutive_failures
    else if b.half_open_attempted
    then probing
    else waiting (b.last_failure_at + b.cooldown_seconds)

-- A request answers as the machine does and leaves its next state; the settings stay.
asked-refines :
    (b : Breaker) (now : ℕ)
    → (machine (allow_request b now).0 ≡ (asked now (machine b)).0)
      × ((allow_request b now).1 ≡ (asked now (machine b)).1)
      × ((allow_request b now).0.failure_threshold ≡ b.failure_threshold)
      × ((allow_request b now).0.cooldown_seconds ≡ b.cooldown_seconds)
unfolding allow_request
asked-refines b now = (ground arith, ground arith, ground arith, ground arith)

failed-refines :
    (b : Breaker) (now : ℕ)
    → machine (record_failure b now) ≡ failed b.failure_threshold b.cooldown_seconds now (machine b)
unfolding record_failure
failed-refines b now = elim (ltb-cases b.consecutive_failures b.failure_threshold) [
  | inl (lt, few) ↦ rw few refl
  | inr (le, many) ↦
      let more : ltb (b.consecutive_failures + 1) b.failure_threshold ≡ false = ground arith in
      elim (Bool-cases b.half_open_attempted) [
        | inl probe ↦ rw (many, more, probe) refl
        | inr idle ↦ rw (many, more, idle) refl
      ]
]

-- On any sequence of requests and answers, a breaker with a threshold of at least one answers the
-- requests as the machine does from the state that the breaker is in.
pub requests-answers :
    (b : Breaker) (es : List Event)
    → 1 ≤ b.failure_threshold
    → requests b es ≡ answers b.failure_threshold b.cooldown_seconds (machine b) es
unfolding record_failure record_success
requests-answers b [] h = refl
requests-answers b (ask now ∷ es) h =
    let (m, a, t, c) = asked-refines b now in
    let rest = requests-answers (allow_request b now).0 es (rw t h) in
    let same : requests (allow_request b now).0 es
        ≡ answers b.failure_threshold b.cooldown_seconds (asked now (machine b)).0 es =
      rw (m, t, c) at rest in
    cc (a, same)
requests-answers b (fail now ∷ es) h =
    let rest = requests-answers (record_failure b now) es h in rw (failed-refines b now) at rest
requests-answers b (succeed ∷ es) h =
    let fresh : ltb 0 b.failure_threshold ≡ true = ground arith in
    rw fresh at (requests-answers (record_success b) es h)
