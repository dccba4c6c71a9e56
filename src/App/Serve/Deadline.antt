-- ===== src/App/Serve/Deadline.antt =====
-- app.go and timeout.go: the errors of a route with a timeout.
use bebo.Prelude.{
  ℕ, ◌≡◌, refl, ap, ◌∙◌, true, false, none, some, List, [], Bool-cases, inl, inr, if◌then◌else◌,
}
use bebo.Prelude.Int.{is_nonpos}
use bebo.Prelude.Text.{Bytes, bytes}
use bebo.Router.{Params}
use bebo.App.Errors.{Error, reported, timeout_error, plain}
use bebo.App.Response.{
  Headers, Client, Buffer, Writer, direct, timed, Action, act_all, new_timeout_writer, received,
  set,
}
use bebo.App.Response.Buffered.{buffer_all, act_all-timed, expire_top}
use bebo.App.Table.{Entry, App}
use bebo.App.Serve.{
  Context, Request, Timing, Pages, page, wrap, error_response, default_error_handler,
  timeout_handler, run_entry, wants_json,
}

-- A context whose response has headers, but of which nothing has been sent.
abbrev pub unsent : {V : Type 0} → Headers → Request → Params → V → Context V
unsent h r ps v = record {
  writer = direct (record { header = h; sent = none; body = [] });
  request = r;
  params = ps;
  values = v;
}

module _ {V : Type 0} (pages : Pages) (h : Headers) (r : Request) (ps : Params) (v : V) where
  error_response-page :
      (e : Error)
      → pages.renderer ≡ none
      → (content_type : Bytes) × (error_response pages r e
          ≡ page content_type
              (reported e).status
              (if wants_json r then pages.json e else pages.html e))
  unfolding error_response
  error_response-page e bare = elim (Bool-cases (wants_json r)) [
    | inl j ↦ (bytes "application/json; charset=utf-8", rw j refl)
    | inr j ↦ (bytes "text/html; charset=utf-8", rw (j, bare) refl)
  ]

  received-page :
      (content_type : Bytes) (status : ℕ) (text : Bytes)
      → received (act_all (page content_type status text) (unsent h r ps v).writer)
        ≡ (some (status, set (bytes "Content-Type") content_type h), text)
  unfolding received act_all
  received-page content_type status text = refl

  -- The default error handler, without a template engine, sends the status of the error, or 500 for
  -- an error that is not structured, when nothing has been sent yet, with the text for that error.
  pub default_error_handler-status :
      (e : Error)
      → pages.renderer ≡ none
      → (h' : Headers) × (received (default_error_handler pages (unsent h r ps v) e).writer
          ≡ (some ((reported e).status, h'), if wants_json r then pages.json e else pages.html e))
  unfolding default_error_handler
  default_error_handler-status e bare =
      let (content_type, is_page) = error_response-page e bare in
      (
        set (bytes "Content-Type") content_type h,
        ap (λ acts. received (act_all acts (unsent h r ps v).writer)) is_page
            ∙ received-page content_type (reported e).status
                (if wants_json r then pages.json e else pages.html e),
      )

  default_error_handler-timed :
      (ctx : Context V) (tw : Buffer) (w : Writer) (e : Error)
      → received (default_error_handler pages (record ctx { writer = timed tw w }) e).writer
        ≡ received w
  unfolding default_error_handler received
  default_error_handler-timed ctx tw w e =
      rw (act_all-timed (error_response pages ctx.request e) tw w) refl

  module _ (a : App (Context V)) (t : Timing V) (entry : Entry (Context V)) where
    -- On a route with a timeout whose handler returns an error in time, without having written, the
    -- default error handler's response is lost: the client gets the status 200 and no body.
    pub run_entry-error_lost :
        (e : Error)
        → a.error_handler ≡ default_error_handler pages
        → is_nonpos entry.timeout ≡ false
        → t.expires ≡ false
        → ((ctx : Context V)
            → wrap a.middleware (wrap entry.middleware entry.handler) ctx ≡ (ctx, some e))
        → received (run_entry a t entry (unsent h r ps v)).writer ≡ (some (200, h), [])
    unfolding run_entry timeout_handler
    run_entry-error_lost e defaulted limited in_time fails =
        rw
          (
            limited,
            in_time,
            fails
                (record (unsent h r ps v) { writer = new_timeout_writer (unsent h r ps v).writer }),
            defaulted,
          )
          (default_error_handler-timed (unsent h r ps v)
              (record { header = []; buffer = []; code = 0; timed_out = false })
              (direct (record { header = h; sent = some (200, h); body = [] })) e
            ∙ unfold received in refl)

    -- Where the deadline passes first, after any actions of the handler on its writer, the client gets
    -- the status 200 and no body too, and not the status of the timeout error.
    pub run_entry-timeout_lost :
        (acts : List Action)
        → a.error_handler ≡ default_error_handler pages
        → is_nonpos entry.timeout ≡ false
        → t.expires ≡ true
        → ((ctx : Context V) → t.so_far ctx ≡ record ctx { writer = act_all acts ctx.writer })
        → received (run_entry a t entry (unsent h r ps v)).writer ≡ (some (200, h), [])
    unfolding run_entry timeout_handler new_timeout_writer
    run_entry-timeout_lost acts defaulted limited late partly =
        let fresh : Buffer = record { header = []; buffer = []; code = 0; timed_out = false } in
        let c : Client = record { header = h; sent = none; body = [] } in
        rw
          (
            limited,
            late,
            partly (record (unsent h r ps v) { writer = new_timeout_writer (direct c) }),
            defaulted,
            act_all-timed acts fresh (direct c),
            expire_top (buffer_all acts fresh) (direct c),
          )
          (default_error_handler-timed (unsent h r ps v)
              (record (buffer_all acts fresh) { timed_out = true }) (direct c)
              (timeout_error (bytes "request timeout") (plain (bytes "context deadline exceeded")))
            ∙ unfold received in refl)
