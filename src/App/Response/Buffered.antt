-- ===== src/App/Response/Buffered.antt =====
-- timeout.go: what reaches the response through a timeoutWriter.
use bebo.Prelude.{ℕ, ◌≡◌, refl, ◌∙◌, true, false, List, [], ◌∷◌, ◌==◌, if◌then◌else◌, arith, ==_iff}
use bebo.App.Response.{
  Buffer, Writer, timed, Action, set_header, add_header, write_header, write, buffer_action,
  act_all, new_timeout_writer, depth, commit, expire, client, committed,
}

unfoldable pub buffer_all : List Action → Buffer → Buffer
buffer_all [] tw = tw
buffer_all (a ∷ more) tw = buffer_all more (buffer_action a tw)

-- Actions on a timeoutWriter stay in it.
pub act_all-timed :
    (acts : List Action) (tw : Buffer) (w : Writer)
    → act_all acts (timed tw w) ≡ timed (buffer_all acts tw) w
unfolding act_all buffer_all
act_all-timed [] tw w = refl
act_all-timed (a ∷ more) tw w = act_all-timed more (buffer_action a tw) w

buffer_action-timed_out : (a : Action) (tw : Buffer) → (buffer_action a tw).timed_out ≡ tw.timed_out
buffer_action-timed_out (set_header k v) tw = refl
buffer_action-timed_out (add_header k v) tw = refl
buffer_action-timed_out (write_header s) tw = ground arith
buffer_action-timed_out (write bs) tw = ground arith

pub buffer_all-timed_out :
    (acts : List Action) (tw : Buffer) → (buffer_all acts tw).timed_out ≡ tw.timed_out
unfolding buffer_all
buffer_all-timed_out [] tw = refl
buffer_all-timed_out (a ∷ more) tw =
    buffer_all-timed_out more (buffer_action a tw) ∙ buffer_action-timed_out a tw

==_self : (n : ℕ) → (n == n) ≡ true
==_self n = (==_iff n n).1 refl

pub commit_top :
    (tw : Buffer) (w : Writer)
    → commit (depth w) (timed tw w)
      ≡ (if tw.timed_out then timed tw w else timed tw (committed tw w))
unfolding commit
commit_top tw w = rw (==_self (depth w)) refl

pub expire_top :
    (tw : Buffer) (w : Writer)
    → expire (depth w) (timed tw w) ≡ timed (record tw { timed_out = true }) w
unfolding expire
expire_top tw w = rw (==_self (depth w)) refl

-- Once the deadline has passed, nothing of the handler reaches the response: neither what it did
-- before nor what it does later, a late commit included.
pub expire-client :
    (acts late : List Action) (w : Writer)
    → (client (act_all late (expire (depth w) (act_all acts (new_timeout_writer w)))) ≡ client w)
      × (client (
            commit
              (depth w)
              (act_all late (expire (depth w) (act_all acts (new_timeout_writer w)))))
          ≡ client w)
unfolding new_timeout_writer
expire-client acts late w =
    let fresh : Buffer = record { header = []; buffer = []; code = 0; timed_out = false } in
    let over : Buffer = record (buffer_all acts fresh) { timed_out = true } in
    let gone = buffer_all-timed_out late over in
    rw
      (
        act_all-timed acts fresh w,
        expire_top (buffer_all acts fresh) w,
        act_all-timed late over w,
        commit_top (buffer_all late over) w,
        gone,
      )
      (refl, refl)
