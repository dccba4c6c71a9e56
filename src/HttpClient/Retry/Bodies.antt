-- ===== src/HttpClient/Retry/Bodies.antt =====
-- httpclient/httpclient.go, RetryRoundTripper.RoundTrip: requests that are not sent twice.
use bebo.Prelude.{ℕ, suc, ◌≡◌, refl, false, none, some, [], ◌∷◌, ◌++◌, arith}
use bebo.HttpClient.{Response, default_retry_decider, is_idempotent}
use bebo.HttpClient.Retry.{
  one_shot, Request, RetryOptions, normalize_retry_options, sent, World, Outcome, kept,
  round_events, interrupted, is_last, retry_loop, round_trip,
}

-- A request whose body cannot be sent again gets, where its first reply would be retried, that
-- first reply with the response's body closed: the caller cannot read it.
pub one_shot-body_closed :
    (fuel : ℕ) (world : World) (options : RetryOptions) (req : Request) (r : Response)
    → req.body ≡ one_shot
    → (world.base 0).response ≡ some r
    → is_last world (normalize_retry_options options) req 0 ≡ false
    → interrupted world (normalize_retry_options options) req 1 ≡ none
    → (out : Outcome) × (round_trip (suc (suc fuel)) world options req ≡ some out)
      × (out.reply.response ≡ some (record r { body_open = false }))
unfolding round_trip
one_shot-body_closed fuel world options req r b e l i =
    let plan = normalize_retry_options options in
    let events = round_events world plan req 0 in
    (
      record { reply = kept world plan req 0; events = [] ++ events },
      rw (l, i, b, retry_loop) refl,
      rw e refl,
    )

-- By default a request whose method is not idempotent is sent once, whatever is replied, and the
-- caller gets that reply.
pub not_idempotent-sent_once :
    (fuel : ℕ) (world : World) (options : RetryOptions) (req : Request)
    → options.retry_if ≡ none
    → is_idempotent req.method ≡ false
    → round_trip (suc fuel) world options req
      ≡ some (record { reply = world.base 0; events = sent 0 ∷ [] })
unfolding round_trip default_retry_decider
not_idempotent-sent_once fuel world options req d n = ground arith
