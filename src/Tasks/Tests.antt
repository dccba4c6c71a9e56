-- ===== src/Tasks/Tests.antt =====
-- tasks/tasks.go: the theorems at small jobs and runs.
use bebo.Prelude.{
  suc, ◌≤◌, ◌<◌, ◌≡◌, refl, true, false, Option, none, some, List, [], ◌∷◌, arith, Memᴰ,
}
use bebo.Prelude.Int.{pos}
use bebo.Tasks.Job.{
  TaskError, other, Job, RunnerOptions, normalize_options, settings, Event, handled, waited, dead,
  World, run_job, default_retry_decider,
}
use bebo.Tasks.Job.Ends.{count_handled, run_job_total}
use bebo.Tasks.Runner.{Runner, new_runner, checks, sends, takes, finishes, Reach, here, next}
use bebo.Tasks.Runner.Fifo.{Inv, Reach-Inv}
use bebo.Tasks.Runner.Shutdown.{send_after_shutdown-panics}

abbrev failing : World
failing = record { handler = λ n. some (other n); wait = λ n. none }

abbrev opts : RunnerOptions
unfolding normalize_options
opts = normalize_options (record {
  workers = pos 0;
  queue_size = pos 0;
  retry = some (record { max_retries = pos 2; backoff = some (λ n. pos 1); retry_if = none });
  timeout = pos 0;
  on_retry = none;
  on_dead_letter = some 4;
})

abbrev job : Job
job = record {
  name = 1;
  has_handler = true;
  retry = none;
  timeout = pos 0;
  on_retry = none;
  on_dead_letter = none;
}

two_retries : (settings opts job).policy.max_retries < 3
unfolding settings opts
two_retries = omega arith

run_job_total_example :
    (failure : Option TaskError) × (log : List Event) × (run_job 3 failing opts job
      ≡ some (failure, log))
    × (count_handled log ≤ suc (settings opts job).policy.max_retries)
run_job_total_example = run_job_total 3 failing opts job two_retries

abbrev failing_log : List Event
failing_log =
    handled (pos 0)
    ∷ waited (pos 1)
    ∷ handled (pos 0)
    ∷ waited (pos 1)
    ∷ handled (pos 0)
    ∷ dead 4 1 3 (other 3)
    ∷ []

runs_dead : run_job 3 failing opts job ≡ some (some (other 3), failing_log)
unfolding run_job opts default_retry_decider
runs_dead = refl

abbrev two_jobs : Runner
two_jobs = record {
  capacity = 2;
  closed = false;
  pending = [];
  queue = [];
  running = [];
  finished = 8 ∷ [];
  accepted = 8 ∷ [];
  panicked = false;
}

-- A job is sent, taken and done.
one_job_done : Reach (new_runner 2) two_jobs
unfolding new_runner
one_job_done =
    next
      (next (next (next here (checks 8 refl)) (sends [] [] 8 refl refl (omega arith)))
        (takes 8 [] refl))
      (finishes [] [] 8 refl)

Reach-Inv_example : Inv two_jobs
Reach-Inv_example = Reach-Inv 2 one_job_done

abbrev with_sender : Runner
with_sender = record two_jobs { pending = 9 ∷ [] }

send_after_shutdown-panics_example : (s : Runner) × Reach with_sender s × (s.panicked ≡ true)
send_after_shutdown-panics_example = send_after_shutdown-panics with_sender 9 (Memᴰ.head refl) refl
