-- ===== src/Tasks/Runner/Shutdown.antt =====
-- tasks/tasks.go, Runner: what Shutdown stops, and the race between it and EnqueueContext.
use bebo.Prelude.{ℕ, ◌≡◌, refl, ap, ◌∙◌, true, false, List, [], ◌∷◌, ◌++◌, Memᴰ}
use bebo.Tasks.Runner.{
  Runner, Step, checks, sends, gives_up, panics, shuts, takes, finishes, Reach, here, next,
}

Step-closed :
    {r s : Runner} → Step r s → r.closed ≡ true → (s.closed ≡ true) × (s.accepted ≡ r.accepted)
Step-closed (checks job o) c = cc
Step-closed (sends before after job e o room) c = cc
Step-closed (gives_up before after job e) c = (c, refl)
Step-closed (panics before after job e o) c = (c, refl)
Step-closed (shuts o) c = cc
Step-closed (takes job rest e) c = (c, refl)
Step-closed (finishes before after job e) c = (c, refl)

-- After Shutdown has closed the runner, no later step opens it again or accepts a job.
pub Reach-closed :
    {r s : Runner} → r.closed ≡ true → Reach r s → (s.closed ≡ true) × (s.accepted ≡ r.accepted)
Reach-closed c here = (c, refl)
Reach-closed c (next p st) =
    let (open_no_more, same) = Reach-closed c p in
    let (still, same') = Step-closed st open_no_more in (still, same' ∙ same)

split_at :
    (job : ℕ) (jobs : List ℕ)
    → Memᴰ job jobs
    → (before : List ℕ) × (after : List ℕ) × (jobs ≡ before ++ (job ∷ after))
split_at job [] m = elim m [ ]
split_at job (x ∷ xs) (Memᴰ.head e) = ([], xs, rw e refl)
split_at job (x ∷ xs) (Memᴰ.tail m) =
    let (before, after, e) = split_at job xs m in (x ∷ before, after, ap (λ t. x ∷ t) e)

-- From any open runner with a sender that is past its check of r.closed, a run leads to a panic:
-- Shutdown closes the channel before the send. Nothing in EnqueueContext excludes it.
pub send_after_shutdown-panics :
    (r : Runner) (job : ℕ)
    → Memᴰ job r.pending
    → r.closed ≡ false
    → (s : Runner) × Reach r s × (s.panicked ≡ true)
send_after_shutdown-panics r job m o =
    let (before, after, e) = split_at job r.pending m in
    (_, next (next here (shuts o)) (panics before after job e refl), refl)
