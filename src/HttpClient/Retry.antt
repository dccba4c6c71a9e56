-- ===== src/HttpClient/Retry.antt =====
-- httpclient/httpclient.go, RetryRoundTripper: the retry loop. The base transport, the request's
-- GetBody and the waits enter as functions of the attempt, and what the loop does is recorded as a
-- list of events. The request is not nil.
pub mod Total
pub mod Bodies
use Prim.Native.String.{String}
use bebo.Prelude.{
  ℕ, zero, suc, ◌+◌, Bool, true, false, not, ◌||◌, ◌&&◌, Option, none, some, List, [], ◌∷◌, ◌++◌,
  ltb, leb, if◌then◌else◌,
}
use bebo.Prelude.Int.{ℤ, pos, negsuc, ltb_ℤ}
use bebo.HttpClient.{HttpError, body_not_replayable, Response, Reply, default_retry_decider}
use bebo.HttpClient.Backoff.{exponential_backoff, default_base, default_max}

-- No body; a body with no GetBody; a body with the error, if any, of GetBody at each attempt.
pub data Body : Type 0 where
  no_body one_shot : Body
  replayable : (ℕ → Option HttpError) → Body

pub record Request : Type 0 where
  pub method : String
  pub body : Body

-- none stands for nil.
pub record RetryOptions : Type 0 where
  pub max_retries : ℤ
  pub backoff : Option (ℤ → ℤ)
  pub retry_if : Option (Request → Reply → Bool)
  pub has_on_retry : Bool

-- The options after normalizeRetryOptions.
pub record RetryPlan : Type 0 where
  pub max_retries : ℤ
  pub backoff : ℤ → ℤ
  pub retry_if : Request → Reply → Bool
  pub has_on_retry : Bool

abbrev pub or_default {ℓ} : {A : Type ℓ} → A → Option A → A
or_default d none = d
or_default d (some a) = a

unfoldable pub normalize_retry_options : RetryOptions → RetryPlan
normalize_retry_options o = record {
  max_retries = o.max_retries;
  backoff = or_default (exponential_backoff default_base default_max) o.backoff;
  retry_if = or_default (λ req reply. default_retry_decider req.method reply) o.retry_if;
  has_on_retry = o.has_on_retry;
}

pub data Event : Type 0 where
  sent : ℕ → Event
  body_closed : Event
  on_retry : ℕ → Option HttpError → Option Response → Event
  waited : ℤ → Event

-- What the world answers: the base transport at each attempt, and sleepWithContext after the
-- wait before each attempt.
pub record World : Type 0 where
  pub base : ℕ → Reply
  pub wait : ℕ → Option HttpError

pub record Outcome : Type 0 where
  pub reply : Reply
  pub events : List Event

-- cloneRequest: its error, if any.
unfoldable pub clone_body : Body → ℕ → Option HttpError
clone_body no_body attempt = none
clone_body one_shot attempt = some body_not_replayable
clone_body (replayable get_body) attempt = get_body attempt

unfoldable pub clone_request : Request → ℕ → Option HttpError
unfolding clone_body
clone_request req zero = none
clone_request req (suc n) = clone_body req.body (suc n)

abbrev pub is_not_replayable : HttpError → Bool
is_not_replayable body_not_replayable = true
is_not_replayable _ = false

-- attempt >= MaxRetries
abbrev pub reached : ℤ → ℕ → Bool
reached (pos n) attempt = leb n attempt
reached (negsuc n) attempt = true

-- resp.Body.Close(), where there is a response
abbrev pub close_body : Option Response → Option Response
close_body none = none
close_body (some r) = some (record r { body_open = false })

abbrev pub close_events : Option Response → List Event
close_events none = []
close_events (some _) = body_closed ∷ []

abbrev pub fail_with : HttpError → Reply
fail_with e = record { response = none; error = some e }

abbrev pub on_retry_events : Bool → ℕ → Reply → List Event
on_retry_events false attempt reply = []
on_retry_events true attempt reply = on_retry attempt reply.error reply.response ∷ []

abbrev pub wait_events : ℤ → List Event
wait_events delay = if ltb_ℤ (pos 0) delay then waited delay ∷ [] else []

module _ (world : World) (plan : RetryPlan) (req : Request) where
  -- The reply as it is kept when the loop goes on: its body is closed.
  abbrev pub kept : ℕ → Reply
  kept attempt = record {
    response = close_body (world.base attempt).response;
    error = (world.base attempt).error;
  }

  -- What a round that retries does, up to the wait before the attempt it counts to.
  abbrev pub round_events : ℕ → List Event
  round_events attempt =
      sent attempt
      ∷ (close_events (world.base attempt).response
          ++ (on_retry_events plan.has_on_retry (suc attempt) (kept attempt)
              ++ wait_events (plan.backoff (pos (suc attempt)))))

  -- sleepWithContext fails before the attempt.
  abbrev pub interrupted : ℕ → Option HttpError
  interrupted attempt =
      if ltb_ℤ (pos 0) (plan.backoff (pos attempt)) then world.wait attempt else none

  abbrev pub is_last : ℕ → Bool
  is_last attempt = reached plan.max_retries attempt || not (plan.retry_if req (world.base attempt))

  -- The loop of RoundTrip, on the attempt, the reply of the round before and the events so far;
  -- none means that the fuel ran out.
  pub retry_loop : ℕ → ℕ → Reply → List Event → Option Outcome
  unfolding clone_request
  retry_loop zero attempt last events = none
  retry_loop (suc fuel) attempt last events =
      let next = retry_loop fuel (suc attempt) (kept attempt) (events ++ round_events attempt) in
      elim (clone_request req attempt) [
        | some e ↦
            if is_not_replayable e && ltb 0 attempt
            then some (record { reply = last; events = events })
            else some (record { reply = fail_with e; events = events })
        | none ↦
            if is_last attempt
            then some
                (record { reply = world.base attempt; events = events ++ (sent attempt ∷ []) })
            else elim (interrupted (suc attempt)) [
              | some e ↦
                  some (record { reply = fail_with e; events = events ++ round_events attempt })
              | none ↦ next
            ]
      ]

-- RoundTrip, by the fuel.
unfoldable pub round_trip : ℕ → World → RetryOptions → Request → Option Outcome
unfolding retry_loop normalize_retry_options
round_trip fuel world options req =
    retry_loop world (normalize_retry_options options) req fuel 0
      (record { response = none; error = none }) []
