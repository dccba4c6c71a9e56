-- ===== src/HttpClient/Breaker.antt =====
-- httpclient/httpclient.go, CircuitBreaker and BreakerRoundTripper. Times are nanoseconds since a
-- start before the breaker's own; each locked method is one step, given what c.now() returns.
pub mod Invariant
pub mod Open
pub mod Trips
use bebo.Prelude.{
  ℕ, ◌+◌, Bool, true, false, not, Option, none, some, List, [], ◌∷◌, ◌++◌, leb, if◌then◌else◌,
}
use bebo.Prelude.Int.{ℤ, pos, negsuc}
use bebo.HttpClient.{HttpError, circuit_open, Reply, default_breaker_decider}

pub data BreakerState : Type 0 where
  state_closed state_open state_half_open : BreakerState

pub record Breaker : Type 0 where
  pub state : BreakerState
  pub failures : ℕ
  pub opened_at : ℕ
  pub half_open_in_flight : Bool
  pub max_failures : ℕ
  pub reset_timeout : ℕ
  -- the calls of onStateChange, in order
  pub changes : List BreakerState

-- An option that is not positive takes the default.
abbrev pub positive_or : ℕ → ℤ → ℕ
positive_or default (pos n) = if leb n 0 then default else n
positive_or default (negsuc n) = default

-- NewCircuitBreaker, by MaxFailures and ResetTimeout; the default timeout is 30 s.
unfoldable pub new_breaker : ℤ → ℤ → Breaker
new_breaker max_failures reset = record {
  state = state_closed;
  failures = 0;
  opened_at = 0;
  half_open_in_flight = false;
  max_failures = positive_or 5 max_failures;
  reset_timeout = positive_or 30000000000 reset;
  changes = [];
}

abbrev pub change_state : Breaker → BreakerState → Breaker
change_state c s = record c { state = s; changes = c.changes ++ (s ∷ []) }

-- now.Sub(openedAt) >= resetTimeout
abbrev pub is_due : Breaker → ℕ → Bool
is_due c now = leb (c.opened_at + c.reset_timeout) now

-- The switch of Allow, and the mark of a probe after it.
abbrev allow_in : BreakerState → Breaker → ℕ → Breaker × Option HttpError
allow_in state_closed c now = (c, none)
allow_in state_open c now =
    if is_due c now
    then (record (change_state c state_half_open) { half_open_in_flight = true }, none)
    else (c, some circuit_open)
allow_in state_half_open c now =
    if c.half_open_in_flight
    then (c, some circuit_open)
    else (record c { half_open_in_flight = true }, none)

unfoldable pub allow : Breaker → ℕ → Breaker × Option HttpError
allow c now = allow_in c.state c now

abbrev trip : Breaker → ℕ → Breaker
trip c now = record (change_state c state_open) { failures = 0; opened_at = now }

-- The switch of Record, and the count of failures after it.
abbrev record_in : BreakerState → Breaker → ℕ → Bool → Breaker
record_in state_half_open c now success =
    let landed = record c { half_open_in_flight = false } in
    if success then record (change_state landed state_closed) { failures = 0 } else trip landed now
record_in state_open c now success = c
record_in state_closed c now success =
    if success
    then record c { failures = 0 }
    else (let counted = record c { failures = c.failures + 1 } in
        if leb counted.max_failures counted.failures then trip counted now else counted)

unfoldable pub record_result : Breaker → ℕ → Bool → Breaker
record_result c now success = record_in c.state c now success

-- One call of BreakerRoundTripper.RoundTrip with a breaker, by the times of Allow and of Record,
-- the trip decider, and what the base transport replies: the breaker after it, what is returned,
-- and whether the base was called.
unfoldable pub breaker_round_trip :
    (Reply → Bool) → Reply → Breaker → ℕ → ℕ → Breaker × Reply × Bool
unfolding allow record_result
breaker_round_trip should_trip reply c t₁ t₂ = elim ((allow c t₁).1) [
  | some e ↦ ((allow c t₁).0, record { response = none; error = some e }, false)
  | none ↦ (record_result (allow c t₁).0 t₂ (not (should_trip reply)), reply, true)
]
