-- ===== src/Tasks/Job/DeadLetters.antt =====
-- tasks/tasks.go, Runner.runJob: which jobs reach the dead-letter callback.
use bebo.Prelude.{
  ℕ, zero, suc, ◌+◌, ◌≡◌, refl, sym, ap, ◌∙◌, Option, none, some, List, [], arith, Option-cases,
  inl, inr,
}
use bebo.Tasks.Job.{
  TaskError, Job, RunnerOptions, Settings, settings, Event, World, dead_letter, retry_info,
  wait_event, job_loop, run_job,
}
use bebo.Tasks.Job.Ends.{
  total, count_dead, is_dead, total-append, ran, announced, broken_off, round, succeeds, fails,
  breaks, repeats, quiet_retry, quiet_wait, total-ran,
}

-- One dead letter for a failure, if the callback is set.
abbrev pub expected : Option ℕ → Option TaskError → ℕ
expected _ none = 0
expected none (some e) = 0
expected (some f) (some e) = 1

module _ (world : World) (s : Settings) where
  letter :
      (n : ℕ) (e : TaskError)
      → total is_dead (dead_letter world s n e) ≡ expected s.on_dead_letter (some e)
  unfolding total
  letter n e = elim (Option-cases s.on_dead_letter) [ inl h ↦ rw h refl | inr (k, h) ↦ rw h refl ]

  dead_announced :
      (n : ℕ) (e : TaskError) (events : List Event)
      → total is_dead (announced world s n e events) ≡ total is_dead events
  dead_announced n e events =
      rw
        (
          total-append is_dead (ran world s events) _,
          total-append is_dead (retry_info world s n e) (wait_event world s n),
        )
        (omega (
          arith,
          total-ran world s is_dead events,
          quiet_retry world s is_dead n e (λ a b c x d. refl),
          quiet_wait world s is_dead n (λ d. refl),
        ))

  dead_broken_off :
      (n : ℕ) (e w : TaskError) (events : List Event)
      → total is_dead (broken_off world s n e w events)
        ≡ total is_dead events + expected s.on_dead_letter (some w)
  dead_broken_off n e w events =
      rw
        (
          total-append is_dead (ran world s events) _,
          total-append is_dead (retry_info world s n e) _,
          total-append is_dead (wait_event world s n) _,
        )
        (omega (
          arith,
          total-ran world s is_dead events,
          quiet_retry world s is_dead n e (λ a b c x d. refl),
          quiet_wait world s is_dead n (λ d. refl),
          letter n w,
        ))

  Reports : List Event → Option TaskError → List Event → Type 0
  Reports events failure log =
      total is_dead log ≡ total is_dead events + expected s.on_dead_letter failure

  result_eq :
      {f g : Option TaskError} {a b : List Event}
      → ◌≡◌ {A = Option (Option TaskError × List Event)} (some (f, a)) (some (g, b))
      → (f ≡ g) × (a ≡ b)
  result_eq e = (cc, cc)

  no_fuel : {A : Type 0} {x : Option TaskError × List Event} → none ≡ some x → A
  no_fuel e = absurd (cc)

  job_loop-Reports :
      (fuel retries : ℕ) (events : List Event) (failure : Option TaskError) (log : List Event)
      → job_loop world s fuel retries events ≡ some (failure, log)
      → Reports events failure log
  unfolding Reports
  job_loop-Reports zero retries events failure log h =
      no_fuel {x = (failure, log)} (unfold job_loop in h)
  job_loop-Reports (suc fuel) retries events failure log h =
      elim (round world s fuel retries events) [
        | succeeds ok o ↦
            let (f, l) = result_eq (sym o ∙ h) in
            rw (← f, ← l) (omega (arith, total-ran world s is_dead events))
        | fails e bad _ o ↦
            let (f, l) = result_eq (sym o ∙ h) in
            rw (← f, ← l)
              (omega (
                arith,
                total-append is_dead (ran world s events) (dead_letter world s (suc retries) e),
                total-ran world s is_dead events,
                letter (suc retries) e,
              ))
        | breaks e w bad m i o ↦
            let (f, l) = result_eq (sym o ∙ h) in
            rw (← f, ← l) (dead_broken_off (suc retries) e w events)
        | repeats e bad r m o ↦
            job_loop-Reports fuel (suc retries) (announced world s (suc retries) e events) failure
              log (sym o ∙ h)
            ∙ ap (λ n. n + expected s.on_dead_letter failure)
                (dead_announced (suc retries) e events)
      ]

-- However a job ends, OnDeadLetter (the job's, or else the runner's) has been called once if the
-- job failed for good and the callback is set, and not at all otherwise.
pub run_job-dead_letters :
    (fuel : ℕ) (world : World) (opts : RunnerOptions) (job : Job) (failure : Option TaskError)
    (log : List Event)
    → run_job fuel world opts job ≡ some (failure, log)
    → count_dead log ≡ expected (settings opts job).on_dead_letter failure
unfolding run_job count_dead total
run_job-dead_letters fuel world opts job failure log h =
    unfold Reports in
    (job_loop-Reports world (settings opts job) fuel 0 [] failure log h) ∙ omega arith
