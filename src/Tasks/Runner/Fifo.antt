-- ===== src/Tasks/Runner/Fifo.antt =====
-- tasks/tasks.go, Runner: accepted jobs are taken in order, and none is lost or run twice.
use bebo.Prelude.{
  ℕ, suc, ◌+◌, ◌≤◌, ◌≡◌, refl, sym, ap, ◌∙◌, List, [], ◌∷◌, ◌++◌, length, length-append, arith,
  append-nil, append_assoc, ◌==◌, if◌then◌else◌,
}
use bebo.Tasks.Runner.{
  Runner, new_runner, Step, checks, sends, gives_up, panics, shuts, takes, finishes, Reach, here,
  next,
}

pub count : ℕ → List ℕ → ℕ
count j [] = 0
count j (x ∷ xs) = let rest = count j xs in if x == j then suc rest else rest

count-append : (j : ℕ) (xs ys : List ℕ) → count j (xs ++ ys) ≡ count j xs + count j ys
unfolding count
count-append j [] ys = omega arith
count-append j (x ∷ xs) ys = ground (arith, count-append j xs ys)

moved :
    (j : ℕ) (before after : List ℕ) (job : ℕ) (finished : List ℕ) (n : ℕ)
    → n ≡ count j (before ++ (job ∷ after))
    → n + count j finished ≡ count j (before ++ after) + count j (job ∷ finished)
moved j before after job finished n e =
    rw (e, count-append j before (job ∷ after), count-append j before after)
      (unfold count in (ground arith))

-- The accepted jobs are those that workers took, in their order, and then the queue; those taken
-- are being run or are finished; the queue is within its capacity.
pub record Inv (r : Runner) : Type 0 where
  pub taken : List ℕ
  pub in_order : r.accepted ≡ taken ++ r.queue
  pub worked_on : (j : ℕ) → count j taken ≡ count j r.running + count j r.finished
  pub fits : length r.queue ≤ r.capacity

new_runner-Inv : (capacity : ℕ) → Inv (new_runner capacity)
unfolding new_runner
new_runner-Inv capacity = record {
  taken = [];
  in_order = refl;
  worked_on = λ j. unfold count in refl;
  fits = omega arith;
}

Step-Inv : {r s : Runner} → Inv r → Step r s → Inv s
Step-Inv i (checks job o) = record {
  taken = i.taken;
  in_order = i.in_order;
  worked_on = i.worked_on;
  fits = i.fits;
}
Step-Inv {r} i (sends before after job e o room) = record {
  taken = i.taken;
  in_order = rw (i.in_order) (append_assoc i.taken r.queue (job ∷ []));
  worked_on = i.worked_on;
  fits = omega (arith, length-append {0} r.queue (job ∷ []));
}
Step-Inv i (gives_up before after job e) = record {
  taken = i.taken;
  in_order = i.in_order;
  worked_on = i.worked_on;
  fits = i.fits;
}
Step-Inv i (panics before after job e c) = record {
  taken = i.taken;
  in_order = i.in_order;
  worked_on = i.worked_on;
  fits = i.fits;
}
Step-Inv i (shuts o) = record {
  taken = i.taken;
  in_order = i.in_order;
  worked_on = i.worked_on;
  fits = i.fits;
}
Step-Inv {r} i (takes job rest e) = record {
  taken = i.taken ++ (job ∷ []);
  in_order = i.in_order ∙ (rw e (sym (append_assoc i.taken (job ∷ []) rest)));
  worked_on = λ j. took j;
  fits = omega (arith, i.fits, ap (λ (q : List ℕ). length q) e);
}
  where
    took :
        (j : ℕ) → count j (i.taken ++ (job ∷ [])) ≡ count j (job ∷ r.running) + count j r.finished
    took j =
        rw (count-append j i.taken (job ∷ [])) (unfold count in (ground (arith, i.worked_on j)))
Step-Inv {r} i (finishes before after job e) = record {
  taken = i.taken;
  in_order = i.in_order;
  worked_on = λ j. done j;
  fits = i.fits;
}
  where
    done : (j : ℕ) → count j i.taken ≡ count j (before ++ after) + count j (job ∷ r.finished)
    done j =
        i.worked_on j ∙ moved j before after job r.finished (count j r.running) (ap (count j) e)

-- Every state that a runner reaches, by steps of callers, Shutdown and workers in any order:
-- the accepted jobs are those taken and then the queue, in order; each job was taken as often as
-- it is running or finished; the queue is within its capacity.
pub Reach-Inv : (capacity : ℕ) {r : Runner} → Reach (new_runner capacity) r → Inv r
Reach-Inv capacity here = new_runner-Inv capacity
Reach-Inv capacity (next p st) = Step-Inv (Reach-Inv capacity p) st

-- When the queue is empty and no job is running, every accepted job has been run to its end, as
-- often as it was accepted: none is lost and none runs twice.
pub drained-all_finished :
    (capacity j : ℕ) (r : Runner)
    → Reach (new_runner capacity) r
    → r.queue ≡ []
    → r.running ≡ []
    → count j r.finished ≡ count j r.accepted
drained-all_finished capacity j r p q w =
    let i = Reach-Inv capacity p in
    let accepted : count j r.accepted ≡ count j i.taken =
      ap (count j) (i.in_order ∙ rw q (append-nil i.taken)) in
    let none_running : count j r.running ≡ 0 = rw w (unfold count in refl) in
    omega (arith, i.worked_on j, accepted, none_running)
