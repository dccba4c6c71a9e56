-- ===== src/HttpClient/Tests.antt =====
-- httpclient/httpclient.go: the theorems at small breakers and requests.
use bebo.Prelude.{
  ℕ, zero, suc, ◌≤◌, ◌<◌, ◌≡◌, ◌≢◌, ◌↔◌, refl, true, false, none, some, [], ◌∷◌, map, All, arith,
}
use bebo.Prelude.Int.{pos}
use bebo.HttpClient.{circuit_open, Reply, default_retry_decider, is_idempotent}
use bebo.HttpClient.Breaker.{state_closed, state_open, Breaker, new_breaker, allow}
use bebo.HttpClient.Breaker.Invariant.{Inv, allows, records, run, run-Inv}
use bebo.HttpClient.Breaker.Open.{answers, single_probe}
use bebo.HttpClient.Breaker.Trips.{record_all, outcome, HasRun, record_all-opens_iff}
use bebo.HttpClient.Retry.{
  no_body, one_shot, Request, RetryOptions, normalize_retry_options, World, Outcome, clone_request,
  interrupted, is_last, round_trip,
}
use bebo.HttpClient.Retry.Total.{budget, count_sent, round_trip_total}

-- A breaker that opens at the third failure in a row, and for 10 ns.
abbrev closed_breaker : Breaker
closed_breaker = record {
  state = state_closed;
  failures = 0;
  opened_at = 0;
  half_open_in_flight = false;
  max_failures = 3;
  reset_timeout = 10;
  changes = [];
}

abbrev open_breaker : Breaker
open_breaker = record closed_breaker { state = state_open; opened_at = 5 }

closed_breaker-Inv : Inv closed_breaker
closed_breaker-Inv = record {
  limited = omega arith;
  waits = omega arith;
  counts_below = omega arith;
  counts_closed = λ n. refl;
  probe_half_open = λ e. cc;
}

open_breaker-Inv : Inv open_breaker
open_breaker-Inv = record {
  limited = omega arith;
  waits = omega arith;
  counts_below = omega arith;
  counts_closed = λ n. refl;
  probe_half_open = λ e. cc;
}

is_not_closed : state_open ≢ state_closed
is_not_closed e = cc

probe_let_through : (allow open_breaker 20).1 ≡ none
unfolding allow
probe_let_through = refl

run-Inv_example :
    Inv (run (new_breaker (pos 3) (pos 10)) (allows 1 ∷ records 2 false ∷ allows 3 ∷ []))
run-Inv_example = run-Inv (pos 3) (pos 10) (allows 1 ∷ records 2 false ∷ allows 3 ∷ [])

single_probe_example :
    All (λ a. a ≡ some circuit_open) (answers (allow open_breaker 20).0 (21 ∷ 99 ∷ []))
single_probe_example =
    single_probe open_breaker 20 (21 ∷ 99 ∷ []) open_breaker-Inv is_not_closed probe_let_through

abbrev server_error : Reply
server_error = record {
  response = some (record { status_code = 503; body_open = true });
  error = none;
}

record_all-opens_iff_example :
    ((record_all closed_breaker ((1, false) ∷ (2, true) ∷ (3, false) ∷ [])).state ≡ state_open)
    ↔ HasRun 3 (map outcome ((1, false) ∷ (2, true) ∷ (3, false) ∷ []))
record_all-opens_iff_example =
    record_all-opens_iff closed_breaker ((1, false) ∷ (2, true) ∷ (3, false) ∷ [])
      closed_breaker-Inv refl refl

-- Two replies of status 503, and then one of status 200; no wait is interrupted.
abbrev ok_reply : Reply
ok_reply = record { response = some (record { status_code = 200; body_open = true }); error = none }

abbrev recovering : ℕ → Reply
recovering zero = server_error
recovering (suc zero) = server_error
recovering (suc (suc n)) = ok_reply

abbrev world : World
world = record { base = recovering; wait = λ n. none }

abbrev options : RetryOptions
options = record {
  max_retries = pos 5;
  backoff = some (λ n. pos 1);
  retry_if = none;
  has_on_retry = true;
}

abbrev get_request : Request
get_request = record { method = "GET"; body = no_body }

abbrev put_stream : Request
put_stream = record { method = "PUT"; body = one_shot }

abbrev post_request : Request
post_request = record { method = "POST"; body = no_body }

round_trip_total_example :
    (out : Outcome) × (round_trip 6 world options get_request ≡ some out)
    × (count_sent out.events ≤ suc (budget (pos 5)))
round_trip_total_example = round_trip_total 6 world options get_request (omega arith)

clones : (n : ℕ) → clone_request get_request n ≡ none
unfolding clone_request
clones zero = refl
clones (suc n) = refl

goes_on : (n : ℕ) → n < 2 → is_last world (normalize_retry_options options) get_request n ≡ false
unfolding normalize_retry_options default_retry_decider
goes_on zero h = refl
goes_on (suc zero) h = refl
goes_on (suc (suc n)) h = absurd (omega arith)

stops_at_two : is_last world (normalize_retry_options options) get_request 2 ≡ true
unfolding normalize_retry_options default_retry_decider
stops_at_two = refl

never_interrupted :
    (r : Request) (n : ℕ) → interrupted world (normalize_retry_options options) r n ≡ none
unfolding normalize_retry_options
never_interrupted r n = refl

put_goes_on : is_last world (normalize_retry_options options) put_stream 0 ≡ false
unfolding normalize_retry_options default_retry_decider
put_goes_on = refl

post_not_idempotent : is_idempotent "POST" ≡ false
unfolding is_idempotent
post_not_idempotent = refl
