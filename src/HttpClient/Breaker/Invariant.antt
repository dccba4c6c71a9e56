-- ===== src/HttpClient/Breaker/Invariant.antt =====
-- httpclient/httpclient.go, CircuitBreaker: what holds between calls.
use bebo.Prelude.{ℕ, ◌<◌, ◌≡◌, Bool, true, List, [], ◌∷◌, arith, ◌≢◌}
use bebo.Prelude.Int.{ℤ}
use bebo.HttpClient.Breaker.{
  state_closed, state_half_open, Breaker, new_breaker, allow, record_result,
}

pub record Inv (c : Breaker) : Type 0 where
  pub limited : 0 < c.max_failures
  pub waits : 0 < c.reset_timeout
  pub counts_below : c.failures < c.max_failures
  pub counts_closed : c.state ≢ state_closed → c.failures ≡ 0
  pub probe_half_open : c.half_open_in_flight ≡ true → c.state ≡ state_half_open

-- A breaker that its callers use by Allow and Record in any order, at any times.
pub data Call : Type 0 where
  allows : ℕ → Call
  records : ℕ → Bool → Call

unfoldable pub run : Breaker → List Call → Breaker
run c [] = c
run c (allows t ∷ calls) = run (allow c t).0 calls
run c (records t success ∷ calls) = run (record_result c t success) calls

new_breaker-Inv : (max_failures reset : ℤ) → Inv (new_breaker max_failures reset)
unfolding new_breaker
new_breaker-Inv m r = ground arith

allow-Inv : (c : Breaker) (t : ℕ) → Inv c → Inv (allow c t).0
unfolding allow
allow-Inv c t h = ground arith

record_result-Inv : (c : Breaker) (t : ℕ) (s : Bool) → Inv c → Inv (record_result c t s)
unfolding record_result
record_result-Inv c t s h = ground arith

run-Inv_of : (c : Breaker) (calls : List Call) → Inv c → Inv (run c calls)
unfolding run
run-Inv_of c [] h = h
run-Inv_of c (allows t ∷ calls) h = run-Inv_of (allow c t).0 calls (allow-Inv c t h)
run-Inv_of c (records t s ∷ calls) h =
    run-Inv_of (record_result c t s) calls (record_result-Inv c t s h)

-- A breaker made with any options and used by any calls of Allow and Record at any times has
-- positive limits, counts fewer failures than the limit, counts none unless it is closed, and has
-- a probe in flight only while half-open.
pub run-Inv :
    (max_failures reset : ℤ) (calls : List Call) → Inv (run (new_breaker max_failures reset) calls)
run-Inv m r calls = run-Inv_of _ calls (new_breaker-Inv m r)
