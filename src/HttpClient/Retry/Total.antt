-- ===== src/HttpClient/Retry/Total.antt =====
-- httpclient/httpclient.go, RetryRoundTripper.RoundTrip: it ends, after a bounded number of calls of
-- the base transport, with the reply of the last one.
use bebo.Prelude.{
  subst, ℕ, zero, suc, ◌+◌, ◌-◌, ◌≤◌, ◌<◌, ◌≡◌, refl, ap, ◌∙◌, Bool, true, false, ◌&&◌, Option,
  none, some, List, [], ◌∷◌, ◌++◌, ltb, arith, Bool-cases, Option-cases, inl, inr,
}
use bebo.Prelude.Int.{ℤ, pos, negsuc, ltb_ℤ}
use bebo.HttpClient.{HttpError, Response, Reply}
use bebo.HttpClient.Retry.{
  Request, RetryOptions, RetryPlan, normalize_retry_options, Event, sent, body_closed, on_retry,
  waited, World, Outcome, clone_request, reached, kept, round_events, interrupted, is_last,
  retry_loop, round_trip, fail_with, close_events, on_retry_events, wait_events, is_not_replayable,
}

-- The retries that the options allow.
abbrev pub budget : ℤ → ℕ
budget (pos n) = n
budget (negsuc n) = 0

-- How often the base transport was called.
pub count_sent : List Event → ℕ
count_sent [] = 0
count_sent (sent _ ∷ es) = suc (count_sent es)
count_sent (body_closed ∷ es) = count_sent es
count_sent (on_retry _ _ _ ∷ es) = count_sent es
count_sent (waited _ ∷ es) = count_sent es

count_sent-append : (xs ys : List Event) → count_sent (xs ++ ys) ≡ count_sent xs + count_sent ys
unfolding count_sent
count_sent-append [] ys = omega arith
count_sent-append (sent _ ∷ xs) ys = omega (arith, count_sent-append xs ys)
count_sent-append (body_closed ∷ xs) ys = count_sent-append xs ys
count_sent-append (on_retry _ _ _ ∷ xs) ys = count_sent-append xs ys
count_sent-append (waited _ ∷ xs) ys = count_sent-append xs ys

reached-budget : (m : ℤ) (n : ℕ) → reached m n ≡ false → n < budget m
reached-budget (pos m) n h = ground arith
reached-budget (negsuc m) n h = cc

silent_wait : (d : ℤ) → count_sent (wait_events d) ≡ 0
unfolding count_sent
silent_wait d = elim (Bool-cases (ltb_ℤ (pos 0) d)) [ inl e ↦ rw e refl | inr e ↦ rw e refl ]

silent :
    (r : Option Response) (b : Bool) (n : ℕ) (reply : Reply) (d : ℤ)
    → count_sent (close_events r ++ (on_retry_events b n reply ++ wait_events d)) ≡ 0
unfolding count_sent
silent none false n reply d = silent_wait d
silent none true n reply d = silent_wait d
silent (some r) false n reply d = silent_wait d
silent (some r) true n reply d = silent_wait d

module _ (world : World) (plan : RetryPlan) (req : Request) where
  pub count_sent-round :
      (attempt : ℕ) (events : List Event)
      → count_sent (events ++ round_events world plan req attempt) ≡ suc (count_sent events)
  count_sent-round attempt events =
      rw (count_sent-append events (round_events world plan req attempt)) (
        unfold count_sent in
        (omega (
          arith,
          silent (world.base attempt).response plan.has_on_retry (suc attempt)
              (kept world plan req attempt) (plan.backoff (pos (suc attempt))),
        )))

  count_sent-last :
      (attempt : ℕ) (events : List Event)
      → count_sent (events ++ (sent attempt ∷ [])) ≡ suc (count_sent events)
  count_sent-last attempt events =
      rw (count_sent-append events (sent attempt ∷ [])) (unfold count_sent in (omega arith))

  -- What one round does.
  data Round (fuel attempt : ℕ) (last : Reply) (events : List Event) (o : Option Outcome)
      : Type 0 where
    stuck :
        (e : HttpError)
        → clone_request req attempt ≡ some e
        → (reply : Reply) → o ≡ some (record { reply = reply; events = events })
        → Round fuel attempt last events o
    final :
        is_last world plan req attempt ≡ true
        → o ≡ some (record { reply = world.base attempt; events = events ++ (sent attempt ∷ []) })
        → Round fuel attempt last events o
    broken :
        (e : HttpError)
        → is_last world plan req attempt ≡ false
        → interrupted world plan req (suc attempt) ≡ some e
        → o
          ≡ some (record {
            reply = fail_with e;
            events = events ++ round_events world plan req attempt;
          })
        → Round fuel attempt last events o
    again :
        is_last world plan req attempt ≡ false
        → o
          ≡ retry_loop world plan req fuel
              (suc attempt)
              (kept world plan req attempt)
              (events ++ round_events world plan req attempt)
        → Round fuel attempt last events o

  round :
      (fuel attempt : ℕ) (last : Reply) (events : List Event)
      → Round fuel attempt last events (retry_loop world plan req (suc fuel) attempt last events)
  unfolding retry_loop
  round fuel attempt last events = elim (Option-cases (clone_request req attempt)) [
    | inr (e, eq) ↦ elim (Bool-cases (is_not_replayable e && ltb 0 attempt)) [
      | inl t ↦ stuck e eq last (rw (eq, t, retry_loop) refl)
      | inr t ↦ stuck e eq (fail_with e) (rw (eq, t, retry_loop) refl)
    ]
    | inl eq ↦ elim (Bool-cases (is_last world plan req attempt)) [
      | inl t ↦ final t (rw (eq, t, retry_loop) refl)
      | inr t ↦ elim (Option-cases (interrupted world plan req (suc attempt))) [
        | inr (e, w) ↦ broken e t w (rw (eq, t, w, retry_loop) refl)
        | inl w ↦ again t (rw (eq, t, w, retry_loop) refl)
      ]
    ]
  ]

  abbrev Ends : ℕ → ℕ → List Event → Option Outcome → Type 0
  Ends b attempt events o =
      (out : Outcome) × (o ≡ some out)
      × (count_sent out.events ≤ count_sent events + suc (b - attempt))

  is_last-budget :
      (attempt : ℕ) → is_last world plan req attempt ≡ false → attempt < budget plan.max_retries
  is_last-budget attempt h = reached-budget plan.max_retries attempt (ground arith)

  retry_loop-Ends :
      (fuel attempt : ℕ) (last : Reply) (events : List Event)
      → budget plan.max_retries < attempt + fuel
      → attempt ≤ budget plan.max_retries
      → Ends
          (budget plan.max_retries)
          attempt
          events
          (retry_loop world plan req fuel attempt last events)
  retry_loop-Ends zero attempt last events h l = absurd (omega arith)
  retry_loop-Ends (suc fuel) attempt last events h l = elim (round fuel attempt last events) [
    | stuck e eq reply o ↦ (record { reply = reply; events = events }, o, omega arith)
    | final t o ↦ (
      record { reply = world.base attempt; events = events ++ (sent attempt ∷ []) },
      o,
      omega (arith, count_sent-last attempt events),
    )
    | broken e t w o ↦ (
      record { reply = fail_with e; events = events ++ round_events world plan req attempt },
      o,
      omega (arith, count_sent-round attempt events),
    )
    | again t o ↦
        let below = is_last-budget attempt t in
        let (out, eq, bound) =
          retry_loop-Ends fuel (suc attempt) (kept world plan req attempt)
            (events ++ round_events world plan req attempt) (omega arith) below in
        (out, o ∙ eq, omega (arith, count_sent-round attempt events, bound))
  ]

  -- The rounds before the first that is last.
  retry_loop_first :
      (k fuel attempt : ℕ) (last : Reply) (events : List Event)
      → ((n : ℕ) → clone_request req n ≡ none)
      → ((n : ℕ) → interrupted world plan req n ≡ none)
      → ((n : ℕ) → attempt ≤ n → n < attempt + k → is_last world plan req n ≡ false)
      → is_last world plan req (attempt + k) ≡ true
      → k < fuel
      → (out : Outcome) × (retry_loop world plan req fuel attempt last events ≡ some out)
        × (out.reply ≡ world.base (attempt + k))
        × (count_sent out.events ≡ count_sent events + suc k)
  retry_loop_first k zero attempt last events c i f l h = absurd (omega arith)
  retry_loop_first zero (suc fuel) attempt last events c i f l h =
      let l' : is_last world plan req attempt ≡ true =
        subst (λ n. is_last world plan req n ≡ true) (omega arith) l in
      elim (round fuel attempt last events) [
        | stuck e eq reply o ↦ absurd (cc (c attempt))
        | final t o ↦ (
          record { reply = world.base attempt; events = events ++ (sent attempt ∷ []) },
          o,
          ap world.base (omega arith),
          omega (arith, count_sent-last attempt events),
        )
        | broken e t w o ↦ absurd (cc)
        | again t o ↦ absurd (cc)
      ]
  retry_loop_first (suc k) (suc fuel) attempt last events c i f l h =
      let go_on = f attempt (omega arith) (omega arith) in
      elim (round fuel attempt last events) [
        | stuck e eq reply o ↦ absurd (cc (c attempt))
        | final t o ↦ absurd (cc)
        | broken e t w o ↦ absurd (cc (i (suc attempt)))
        | again t o ↦
            let e : suc attempt + k ≡ attempt + suc k = omega arith in
            let (out, eq, r, n) =
              retry_loop_first k fuel (suc attempt) (kept world plan req attempt)
                (events ++ round_events world plan req attempt) c i
                (λ n p q. f n (omega arith) (omega arith)) (rw e l) (omega arith) in
            (out, o ∙ eq, r ∙ ap world.base e, omega (arith, count_sent-round attempt events, n))
      ]

-- With more fuel than the retries that are allowed, RoundTrip ends, whatever the base transport,
-- the body and the waits do, and it calls the base at most once more than the allowed retries.
pub round_trip_total :
    (fuel : ℕ) (world : World) (options : RetryOptions) (req : Request)
    → budget options.max_retries < fuel
    → (out : Outcome) × (round_trip fuel world options req ≡ some out)
      × (count_sent out.events ≤ suc (budget options.max_retries))
unfolding round_trip count_sent normalize_retry_options
round_trip_total fuel world options req h =
    let (out, eq, bound) =
      retry_loop-Ends world (normalize_retry_options options) req fuel 0 _ [] (omega arith)
        (omega arith) in
    (out, eq, omega (arith, bound))

-- Where the request can be sent again and no wait is interrupted, RoundTrip calls the base up to
-- the first attempt k that is the last one (the retries are used up, or RetryIf refuses its reply),
-- once for each attempt, and returns the reply of attempt k.
pub round_trip-first_last :
    (k fuel : ℕ) (world : World) (options : RetryOptions) (req : Request)
    → ((n : ℕ) → clone_request req n ≡ none)
    → ((n : ℕ) → interrupted world (normalize_retry_options options) req n ≡ none)
    → ((n : ℕ) → n < k → is_last world (normalize_retry_options options) req n ≡ false)
    → is_last world (normalize_retry_options options) req k ≡ true
    → k < fuel
    → (out : Outcome) × (round_trip fuel world options req ≡ some out)
      × (out.reply ≡ world.base k)
      × (count_sent out.events ≡ suc k)
unfolding round_trip count_sent
round_trip-first_last k fuel world options req c i f l h =
    let plan = normalize_retry_options options in
    let start : 0 + k ≡ k = omega arith in
    let (out, eq, r, n) =
      retry_loop_first world plan req k fuel 0 (record { response = none; error = none }) [] c i
        (λ n p q. f n (omega arith)) (rw start l) h in
    (out, eq, r ∙ ap world.base start, omega (arith, n))
