-- ===== src/Tasks/Job.antt =====
-- tasks/tasks.go: retry policies, options, and Runner.runJob. A handler's results and the ends of
-- the waits enter as functions of the attempt; callbacks are numbers, none for nil, and the calls
-- made are recorded. A duration is an int64 of nanoseconds. ExponentialBackoff and
-- DefaultRetryDecider are the same code as in httpclient/httpclient.go, the latter on an error only.
pub mod Ends
pub mod DeadLetters
use bebo.Prelude.{
  ℕ, zero, suc, ◌+◌, Bool, true, false, not, ◌||◌, ◌&&◌, Option, none, some, List, [], ◌∷◌, ◌++◌,
  ltb, leb, if◌then◌else◌,
}
use bebo.Prelude.Int.{ℤ, pos, negsuc, ltb_ℤ, is_nonpos}
use bebo.HttpClient.Backoff.{exponential_backoff, default_base, default_max}

pub data TaskError : Type 0 where
  canceled deadline_exceeded : TaskError
  other : ℕ → TaskError

unfoldable pub default_retry_decider : TaskError → Bool
default_retry_decider canceled = false
default_retry_decider deadline_exceeded = false
default_retry_decider (other n) = true

-- none stands for nil.
pub record RetryPolicy : Type 0 where
  pub max_retries : ℤ
  pub backoff : Option (ℤ → ℤ)
  pub retry_if : Option (TaskError → Bool)

pub record Job : Type 0 where
  pub name : ℕ
  pub has_handler : Bool
  pub retry : Option RetryPolicy
  pub timeout : ℤ
  pub on_retry : Option ℕ
  pub on_dead_letter : Option ℕ

pub record Options : Type 0 where
  pub workers : ℤ
  pub queue_size : ℤ
  pub retry : Option RetryPolicy
  pub timeout : ℤ
  pub on_retry : Option ℕ
  pub on_dead_letter : Option ℕ

-- A policy with nothing left nil.
pub record Policy : Type 0 where
  pub max_retries : ℕ
  pub backoff : ℤ → ℤ
  pub retry_if : TaskError → Bool

pub record RunnerOptions : Type 0 where
  pub workers : ℕ
  pub queue_size : ℕ
  pub retry : Policy
  pub timeout : ℤ
  pub on_retry : Option ℕ
  pub on_dead_letter : Option ℕ

abbrev pub or_else {ℓ} : {A : Type ℓ} → Option A → A → A
or_else none d = d
or_else (some a) d = a

-- A negative number of retries is 0.
abbrev pub at_least_zero : ℤ → ℕ
at_least_zero (pos n) = n
at_least_zero (negsuc n) = 0

-- A size that is not positive takes the default.
abbrev pub positive_or : ℤ → ℕ → ℕ
positive_or (pos n) d = if leb n 0 then d else n
positive_or (negsuc n) d = d

unfoldable pub default_retry_policy : Policy
default_retry_policy = record {
  max_retries = 2;
  backoff = exponential_backoff default_base default_max;
  retry_if = default_retry_decider;
}

-- A policy with what it leaves nil taken from another one.
abbrev pub completed : Policy → RetryPolicy → Policy
completed defaults p = record {
  max_retries = at_least_zero p.max_retries;
  backoff = or_else p.backoff defaults.backoff;
  retry_if = or_else p.retry_if defaults.retry_if;
}

unfoldable pub normalize_retry_policy : Option RetryPolicy → Policy
unfolding default_retry_policy
normalize_retry_policy none = default_retry_policy
normalize_retry_policy (some p) = completed default_retry_policy p

unfoldable pub normalize_options : Options → RunnerOptions
unfolding normalize_retry_policy
normalize_options o = record {
  workers = positive_or o.workers 1;
  queue_size = positive_or o.queue_size 100;
  retry = normalize_retry_policy o.retry;
  timeout = o.timeout;
  on_retry = o.on_retry;
  on_dead_letter = o.on_dead_letter;
}

abbrev first_of_two : Option ℕ → Option ℕ → Option ℕ
first_of_two none b = b
first_of_two (some a) b = some a

-- What runJob settles before its loop: the job's own settings before the runner's.
pub record Settings : Type 0 where
  pub name : ℕ
  pub policy : Policy
  pub timeout : ℤ
  pub on_retry : Option ℕ
  pub on_dead_letter : Option ℕ

abbrev policy_of : Option RetryPolicy → Policy → Policy
policy_of none runner = runner
policy_of (some p) runner = completed runner p

unfoldable pub settings : RunnerOptions → Job → Settings
settings opts job = record {
  name = job.name;
  policy = policy_of job.retry opts.retry;
  timeout = if is_nonpos job.timeout then opts.timeout else job.timeout;
  on_retry = first_of_two job.on_retry opts.on_retry;
  on_dead_letter = first_of_two job.on_dead_letter opts.on_dead_letter;
}

-- What runJob does: a handler call with its timeout (0 or less for none), a call of OnRetry or of
-- OnDeadLetter with what it is given, a wait.
pub data Event : Type 0 where
  handled : ℤ → Event
  retrying : ℕ → ℕ → ℕ → TaskError → ℤ → Event
  dead : ℕ → ℕ → ℕ → TaskError → Event
  waited : ℤ → Event

-- The handler's result at each attempt, and that of sleepWithContext after each retry's wait.
pub record World : Type 0 where
  pub handler : ℕ → Option TaskError
  pub wait : ℕ → Option TaskError

module _ (world : World) (s : Settings) where
  abbrev pub dead_letter : ℕ → TaskError → List Event
  dead_letter attempts e = elim s.on_dead_letter [
    | none ↦ []
    | some f ↦ dead f s.name attempts e ∷ []
  ]

  abbrev pub retry_info : ℕ → TaskError → List Event
  retry_info retries e = elim s.on_retry [
    | none ↦ []
    | some f ↦ retrying f s.name retries e (s.policy.backoff (pos retries)) ∷ []
  ]

  abbrev pub wait_event : ℕ → List Event
  wait_event retries =
      let delay = s.policy.backoff (pos retries) in
      if ltb_ℤ (pos 0) delay then waited delay ∷ [] else []

  -- sleepWithContext fails after the retry is announced.
  abbrev pub interrupted : ℕ → Option TaskError
  interrupted retries =
      if ltb_ℤ (pos 0) (s.policy.backoff (pos retries)) then world.wait retries else none

  -- The loop of runJob. Attempts are one more than retries, counted from 0; none means that the
  -- fuel ran out. The result holds the error of the dead letter, if the job failed for good.
  pub job_loop : ℕ → ℕ → List Event → Option (Option TaskError × List Event)
  job_loop zero retries events = none
  job_loop (suc fuel) retries events =
      let attempts = suc retries in
      let ran = events ++ (handled s.timeout ∷ []) in
      elim (world.handler attempts) [
        | none ↦ some (none, ran)
        | some e ↦
            let again =
              job_loop fuel attempts (ran ++ (retry_info attempts e ++ wait_event attempts)) in
            if not (s.policy.retry_if e)
            then some (some e, ran ++ dead_letter attempts e)
            else if leb s.policy.max_retries retries
            then some (some e, ran ++ dead_letter attempts e)
            else elim (interrupted attempts) [
              | none ↦ again
              | some w ↦ some (
                some w,
                ran ++ (retry_info attempts e ++ (wait_event attempts ++ dead_letter attempts w)),
              )
            ]
      ]

unfoldable pub run_job : ℕ → World → RunnerOptions → Job → Option (Option TaskError × List Event)
unfolding job_loop settings
run_job fuel world opts job = job_loop world (settings opts job) fuel 0 []
