-- ===== src/HttpClient/Breaker/Open.antt =====
-- httpclient/httpclient.go, CircuitBreaker: an open breaker and its probe.
use bebo.Prelude.{
  ℕ, ◌+◌, ◌<◌, ◌≡◌, refl, Bool, true, false, Option, none, some, List, [], ◌∷◌, arith, ◌⊎◌, ◌≢◌,
  ◌↔◌, All,
}
use bebo.HttpClient.{HttpError, circuit_open, Reply}
use bebo.HttpClient.Breaker.{
  state_closed, state_open, Breaker, allow, record_result, breaker_round_trip,
}
use bebo.HttpClient.Breaker.Invariant.{Inv}

-- What Allow answers at the times of the list, one call after the other.
pub answers : Breaker → List ℕ → List (Option HttpError)
answers c [] = []
answers c (t ∷ ts) = (allow c t).1 ∷ answers (allow c t).0 ts

answers_of_fixed :
    (c : Breaker) (ts : List ℕ)
    → ((t : ℕ) → allow c t ≡ (c, some circuit_open))
    → All (λ a. a ≡ some circuit_open) (answers c ts)
unfolding answers
answers_of_fixed c [] h = tt
answers_of_fixed c (t ∷ ts) h = rw (h t) (refl, answers_of_fixed c ts h)

-- An open breaker rejects, and does not change, until its timeout has passed.
pub allow_open :
    (c : Breaker) (t : ℕ)
    → c.state ≡ state_open
    → t < c.opened_at + c.reset_timeout
    → allow c t ≡ (c, some circuit_open)
unfolding allow
allow_open c t o early = ground arith

blocked :
    (c : Breaker) (t t' : ℕ)
    → Inv c
    → c.state ≢ state_closed
    → (allow c t).1 ≡ none
    → allow (allow c t).0 t' ≡ ((allow c t).0, some circuit_open)
unfolding allow
blocked c t t' i n a = ground arith

-- Once a breaker that is not closed has let a call through, it rejects every further call, at
-- whatever times, as long as no result is recorded: one probe is in flight at a time.
pub single_probe :
    (c : Breaker) (t : ℕ) (ts : List ℕ)
    → Inv c
    → c.state ≢ state_closed
    → (allow c t).1 ≡ none
    → All (λ a. a ≡ some circuit_open) (answers (allow c t).0 ts)
single_probe c t ts i n a = answers_of_fixed (allow c t).0 ts (λ t'. blocked c t t' i n a)

-- The probe's result decides: success closes the breaker with no failure counted, and failure
-- opens it, so that it rejects until the timeout has passed again from then.
pub probe_decides :
    (c : Breaker) (t t₁ t₂ : ℕ)
    → c.state ≡ state_open
    → (allow c t).1 ≡ none
    → t₂ < t₁ + c.reset_timeout
    → ((record_result (allow c t).0 t₁ true).state ≡ state_closed)
      × ((record_result (allow c t).0 t₁ true).failures ≡ 0)
      × ((record_result (allow c t).0 t₁ false).state ≡ state_open)
      × ((allow (record_result (allow c t).0 t₁ false) t₂).1 ≡ some circuit_open)
unfolding allow record_result
probe_decides c t t₁ t₂ o a early = ground arith

-- A whole round trip leaves no probe in flight, so a later call is not locked out by it; it calls
-- the base exactly when Allow lets it through, and returns its reply then; otherwise it returns the
-- circuit-open error and the breaker is unchanged. The invariant is kept.
pub breaker_round_trip_lem :
    (should_trip : Reply → Bool) (reply : Reply) (c : Breaker) (t₁ t₂ : ℕ)
    → Inv c
    → c.half_open_in_flight ≡ false
    → let (c', result, called) = breaker_round_trip should_trip reply c t₁ t₂ in
      (c'.half_open_in_flight ≡ false)
      × Inv c'
      × ((called ≡ true) ↔ ((allow c t₁).1 ≡ none))
      × (((called ≡ true) × (result ≡ reply))
          ⊎ ((called ≡ false)
              × (c' ≡ c)
              × (result ≡ record { response = none; error = some circuit_open })))
unfolding breaker_round_trip
breaker_round_trip_lem should_trip reply c t₁ t₂ i free = ground arith
