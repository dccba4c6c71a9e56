-- ===== src/Tasks/Job/Ends.antt =====
-- tasks/tasks.go, Runner.runJob: it ends, after a bounded number of handler calls, and a job that
-- fails for good is reported once.
use bebo.Prelude.{
  ℕ, zero, suc, ◌+◌, ◌-◌, ◌≤◌, ◌<◌, ◌≡◌, refl, ◌∙◌, true, false, Option, none, some, List, [], ◌∷◌,
  ◌++◌, leb, arith, Bool-cases, Option-cases, ◌⊎◌, inl, inr,
}
use bebo.Prelude.Int.{ℤ, pos, ltb_ℤ}
use bebo.Tasks.Job.{
  TaskError, Job, RunnerOptions, Settings, settings, Event, handled, retrying, dead, waited, World,
  dead_letter, retry_info, wait_event, interrupted, job_loop, run_job,
}

abbrev pub is_handled : Event → ℕ
is_handled (handled _) = 1
is_handled _ = 0

abbrev pub is_dead : Event → ℕ
is_dead (dead _ _ _ _) = 1
is_dead _ = 0

unfoldable pub total : (Event → ℕ) → List Event → ℕ
total f [] = 0
total f (e ∷ es) = f e + total f es

-- How often the handler ran, and how often OnDeadLetter was called.
unfoldable pub count_handled : List Event → ℕ
count_handled es = total is_handled es

unfoldable pub count_dead : List Event → ℕ
count_dead es = total is_dead es

pub total-append :
    (f : Event → ℕ) (xs ys : List Event) → total f (xs ++ ys) ≡ total f xs + total f ys
unfolding total
total-append f [] ys = omega arith
total-append f (x ∷ xs) ys = omega (arith, total-append f xs ys)

module _ (world : World) (s : Settings) where
  abbrev pub ran : List Event → List Event
  ran events = events ++ (handled s.timeout ∷ [])

  abbrev pub announced : ℕ → TaskError → List Event → List Event
  announced attempts e events =
      ran events ++ (retry_info world s attempts e ++ wait_event world s attempts)

  abbrev pub broken_off : ℕ → TaskError → TaskError → List Event → List Event
  broken_off attempts e w events =
      ran events
      ++ (retry_info world s attempts e
          ++ (wait_event world s attempts ++ dead_letter world s attempts w))

  -- What one round does.
  pub data Round (fuel retries : ℕ) (events : List Event)
      (o : Option (Option TaskError × List Event)) : Type 0 where
    succeeds :
        world.handler (suc retries) ≡ none
        → o ≡ some (none, ran events)
        → Round fuel retries events o
    fails :
        (e : TaskError)
        → world.handler (suc retries) ≡ some e
        → (s.policy.retry_if e ≡ false) ⊎ (s.policy.max_retries ≤ retries)
        → o ≡ some (some e, ran events ++ dead_letter world s (suc retries) e)
        → Round fuel retries events o
    breaks :
        (e w : TaskError)
        → world.handler (suc retries) ≡ some e
        → retries < s.policy.max_retries
        → interrupted world s (suc retries) ≡ some w
        → o ≡ some (some w, broken_off (suc retries) e w events)
        → Round fuel retries events o
    repeats :
        (e : TaskError)
        → world.handler (suc retries) ≡ some e
        → s.policy.retry_if e ≡ true
        → retries < s.policy.max_retries
        → o ≡ job_loop world s fuel (suc retries) (announced (suc retries) e events)
        → Round fuel retries events o

  pub round :
      (fuel retries : ℕ) (events : List Event)
      → Round fuel retries events (job_loop world s (suc fuel) retries events)
  unfolding job_loop
  round fuel retries events = elim (Option-cases (world.handler (suc retries))) [
    | inl h ↦ succeeds h (rw (h, job_loop) refl)
    | inr (e, h) ↦ elim (Bool-cases (s.policy.retry_if e)) [
      | inr r ↦ fails e h (inl r) (rw (h, r, job_loop) refl)
      | inl r ↦ elim (Bool-cases (leb s.policy.max_retries retries)) [
        | inl m ↦ fails e h (inr (ground arith)) (rw (h, r, m, job_loop) refl)
        | inr m ↦ elim (Option-cases (interrupted world s (suc retries))) [
          | inl i ↦ repeats e h r (ground arith) (rw (h, r, m, i, job_loop) refl)
          | inr (w, i) ↦ breaks e w h (ground arith) i (rw (h, r, m, i, job_loop) refl)
        ]
      ]
    ]
  ]

  pub total-ran :
      (f : Event → ℕ) (events : List Event)
      → total f (ran events) ≡ total f events + f (handled s.timeout)
  unfolding total
  total-ran f events = rw (total-append f events (handled s.timeout ∷ [])) (omega arith)

  pub quiet_retry :
      (f : Event → ℕ) (n : ℕ) (e : TaskError)
      → ((a b c : ℕ) (x : TaskError) (d : ℤ) → f (retrying a b c x d) ≡ 0)
      → total f (retry_info world s n e) ≡ 0
  unfolding total
  quiet_retry f n e q = elim (Option-cases s.on_retry) [
    | inl h ↦ rw h refl
    | inr (k, h) ↦ rw h (omega (arith, q k s.name n e (s.policy.backoff (pos n))))
  ]

  pub quiet_wait :
      (f : Event → ℕ) (n : ℕ) → ((d : ℤ) → f (waited d) ≡ 0) → total f (wait_event world s n) ≡ 0
  unfolding total
  quiet_wait f n q = elim (Bool-cases (ltb_ℤ (pos 0) (s.policy.backoff (pos n)))) [
    | inl h ↦ rw h (omega (arith, q (s.policy.backoff (pos n))))
    | inr h ↦ rw h refl
  ]

  handled_dead_letter : (n : ℕ) (e : TaskError) → total is_handled (dead_letter world s n e) ≡ 0
  unfolding total
  handled_dead_letter n e = elim (Option-cases s.on_dead_letter) [
    | inl h ↦ rw h refl
    | inr (k, h) ↦ rw h refl
  ]

  handled_announced :
      (n : ℕ) (e : TaskError) (events : List Event)
      → total is_handled (announced n e events) ≡ suc (total is_handled events)
  handled_announced n e events =
      rw
        (
          total-append is_handled (ran events) _,
          total-append is_handled (retry_info world s n e) (wait_event world s n),
        )
        (omega (
          arith,
          total-ran is_handled events,
          quiet_retry is_handled n e (λ a b c x d. refl),
          quiet_wait is_handled n (λ d. refl),
        ))

  handled_broken_off :
      (n : ℕ) (e w : TaskError) (events : List Event)
      → total is_handled (broken_off n e w events) ≡ suc (total is_handled events)
  handled_broken_off n e w events =
      rw
        (
          total-append is_handled (ran events) _,
          total-append is_handled (retry_info world s n e) _,
          total-append is_handled (wait_event world s n) _,
        )
        (omega (
          arith,
          total-ran is_handled events,
          quiet_retry is_handled n e (λ a b c x d. refl),
          quiet_wait is_handled n (λ d. refl),
          handled_dead_letter n w,
        ))

  job_loop_ends :
      (fuel retries : ℕ) (events : List Event)
      → s.policy.max_retries < retries + fuel
      → retries ≤ s.policy.max_retries
      → (failure : Option TaskError) × (log : List Event) × (job_loop world s fuel retries events
          ≡ some (failure, log))
        × (total is_handled log ≤ total is_handled events + suc (s.policy.max_retries - retries))
  job_loop_ends zero retries events h l = absurd (omega arith)
  job_loop_ends (suc fuel) retries events h l = elim (round fuel retries events) [
    | succeeds ok o ↦ (none, ran events, o, omega (arith, total-ran is_handled events))
    | fails e bad _ o ↦ (
      some e,
      ran events ++ dead_letter world s (suc retries) e,
      o,
      omega (
        arith,
        total-append is_handled (ran events) (dead_letter world s (suc retries) e),
        total-ran is_handled events,
        handled_dead_letter (suc retries) e,
      ),
    )
    | breaks e w bad m i o ↦ (
      some w,
      broken_off (suc retries) e w events,
      o,
      omega (arith, handled_broken_off (suc retries) e w events),
    )
    | repeats e bad r m o ↦
        let (failure, log, eq, bound) =
          job_loop_ends fuel (suc retries) (announced (suc retries) e events) (omega arith) m in
        (failure, log, o ∙ eq, omega (arith, bound, handled_announced (suc retries) e events))
  ]

-- With more fuel than the retries that the job is allowed, runJob ends, and it has called the
-- handler at most once more than the allowed retries, whatever the handler and the waits return.
pub run_job_total :
    (fuel : ℕ) (world : World) (opts : RunnerOptions) (job : Job)
    → (settings opts job).policy.max_retries < fuel
    → (failure : Option TaskError) × (log : List Event) × (run_job fuel world opts job
        ≡ some (failure, log))
      × (count_handled log ≤ suc (settings opts job).policy.max_retries)
unfolding run_job count_handled total
run_job_total fuel world opts job h =
    let (failure, log, eq, bound) =
      job_loop_ends world (settings opts job) fuel 0 [] (omega arith) (omega arith) in
    (failure, log, eq, omega (arith, bound))
