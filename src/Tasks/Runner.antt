-- ===== src/Tasks/Runner.antt =====
-- tasks/tasks.go, Runner: EnqueueContext, Shutdown and the workers as interleaved steps. A job is
-- a number. EnqueueContext checks r.closed under the lock and sends on the channel after it has let
-- the lock go, so the check and the send are two steps.
pub mod Fifo
pub mod Shutdown
use bebo.Prelude.{ℕ, ◌+◌, ◌≤◌, ◌<◌, ◌≡◌, Bool, true, false, List, [], ◌∷◌, ◌++◌, length}

pub record Runner : Type 0 where
  pub capacity : ℕ
  -- r.closed, and whether the channel is closed: Shutdown sets both under the lock
  pub closed : Bool
  -- senders past the check of r.closed that have not sent yet
  pub pending : List ℕ
  pub queue : List ℕ
  -- jobs taken by workers, being run
  pub running : List ℕ
  -- jobs whose runJob has returned
  pub finished : List ℕ
  -- jobs whose EnqueueContext returned nil, in the order of the sends
  pub accepted : List ℕ
  -- a send on a closed channel has panicked
  pub panicked : Bool

unfoldable pub new_runner : ℕ → Runner
new_runner capacity = record {
  capacity = capacity;
  closed = false;
  pending = [];
  queue = [];
  running = [];
  finished = [];
  accepted = [];
  panicked = false;
}

pub data Step (r : Runner) : Runner → Type 0 where
  -- EnqueueContext finds the runner open
  checks : (job : ℕ) → r.closed ≡ false → Step r (record r { pending = job ∷ r.pending })
  -- its send goes through while there is room
  sends :
      (before after : List ℕ) (job : ℕ)
      → r.pending ≡ before ++ (job ∷ after)
      → r.closed ≡ false
      → length r.queue < r.capacity
      → Step r (record r {
        pending = before ++ after;
        queue = r.queue ++ (job ∷ []);
        accepted = r.accepted ++ (job ∷ []);
      })
  -- its context ends first
  gives_up :
      (before after : List ℕ) (job : ℕ)
      → r.pending ≡ before ++ (job ∷ after)
      → Step r (record r { pending = before ++ after })
  -- its send finds the channel closed
  panics :
      (before after : List ℕ) (job : ℕ)
      → r.pending ≡ before ++ (job ∷ after)
      → r.closed ≡ true
      → Step r (record r { pending = before ++ after; panicked = true })
  -- Shutdown closes the channel, the first time
  shuts : r.closed ≡ false → Step r (record r { closed = true })
  -- a worker receives the oldest job
  takes :
      (job : ℕ) (rest : List ℕ)
      → r.queue ≡ job ∷ rest
      → Step r (record r { queue = rest; running = job ∷ r.running })
  -- a worker is done with a job
  finishes :
      (before after : List ℕ) (job : ℕ)
      → r.running ≡ before ++ (job ∷ after)
      → Step r (record r { running = before ++ after; finished = job ∷ r.finished })

pub data Reach (r : Runner) : Runner → Type 0 where
  here : Reach r r
  next : {s t : Runner} → Reach r s → Step s t → Reach r t
