-- ===== src/Middleware/Etag/Complete.antt =====
-- middleware/cache.go: the calls on the writer of the ETag middleware keep the texts written.
use bebo.Prelude.{
  ℕ, ◌+◌, subst, ◌≡◌, refl, sym, ap, ◌∙◌, Bool, true, false, ◌&&◌, none, List, [], ◌∷◌, ◌++◌, ◌==◌,
  append_assoc, append-nil, Bool-cases, Option-cases, inl, inr, length,
}
use bebo.Prelude.Int.{pos, ltb_ℤ}
use bebo.Prelude.Text.{Bytes}
use bebo.App.Response.{
  Headers, Client, send_status, client_action, set_header, add_header, write_header, write,
}
use bebo.Middleware.Etag.{
  EtagWriter, Call, acts, flushes, copy_values, copy_headers, status_or_ok, write_some,
  flush_to_underlying, etag_write, etag_flush, call, call_all,
}

-- The texts of the writes among the calls, one after the other.
abbrev pub written : List Call → Bytes
written [] = []
written (acts (write bs) ∷ cs) = bs ++ written cs
written (acts (set_header _ _) ∷ cs) = written cs
written (acts (add_header _ _) ∷ cs) = written cs
written (acts (write_header _) ∷ cs) = written cs
written (flushes ∷ cs) = written cs

pub send_status-body : (status : ℕ) (c : Client) → (send_status status c).body ≡ c.body
send_status-body status c = elim (Option-cases c.sent) [
  | inl e ↦ rw e refl
  | inr (x, e) ↦ rw e refl
]

write-body : (bs : Bytes) (c : Client) → (client_action (write bs) c).body ≡ c.body ++ bs
write-body bs c = ap (λ b. b ++ bs) (send_status-body 200 c)

copy_values-body :
    (key : Bytes) (vs : List Bytes) (c : Client) → (copy_values key vs c).body ≡ c.body
unfolding copy_values
copy_values-body key [] c = refl
copy_values-body key (v ∷ vs) c = copy_values-body key vs (client_action (add_header key v) c)

pub copy_headers-body : (h : Headers) (c : Client) → (copy_headers h c).body ≡ c.body
unfolding copy_headers
copy_headers-body [] c = refl
copy_headers-body ((key, vs) ∷ h) c =
    copy_headers-body h (copy_values key vs c) ∙ copy_values-body key vs c

-- The body so far is in the buffer, and nothing has been sent, or it has been sent.
pub data Holds (body : Bytes) (e : EtagWriter) : Type 0 where
  kept :
      e.overflow ≡ false
      → e.wrote ≡ false
      → e.buffer ≡ body
      → e.client.body ≡ []
      → e.client.sent ≡ none
      → Holds body e
  sent : e.overflow ≡ true → e.wrote ≡ true → e.client.body ≡ body → Holds body e

write_some-body : (bs : Bytes) (c : Client) → (write_some bs c).body ≡ c.body ++ bs
write_some-body [] c = sym (append-nil c.body)
write_some-body (b ∷ bs) c = write-body (b ∷ bs) c

flushed : EtagWriter → EtagWriter
flushed e = record e {
  client =
      write_some e.buffer (send_status (status_or_ok e.status) (copy_headers e.header e.client));
  wrote = true;
}

flush_to_underlying-flushed : (e : EtagWriter) → e.wrote ≡ false → flush_to_underlying e ≡ flushed e
unfolding flush_to_underlying flushed
flush_to_underlying-flushed e unwrote = rw unwrote refl

flushed-body : (e : EtagWriter) → e.client.body ≡ [] → (flushed e).client.body ≡ e.buffer
unfolding flushed
flushed-body e empty =
    write_some-body e.buffer (send_status (status_or_ok e.status) (copy_headers e.header e.client))
    ∙ ap (λ b. b ++ e.buffer)
        (send_status-body (status_or_ok e.status) (copy_headers e.header e.client)
          ∙ copy_headers-body e.header e.client
          ∙ empty)

pub flush_body :
    (e : EtagWriter)
    → e.wrote ≡ false
    → e.client.body ≡ []
    → (flush_to_underlying e).client.body ≡ e.buffer
flush_body e unwrote empty =
    ap (λ x. x.client.body) (flush_to_underlying-flushed e unwrote) ∙ flushed-body e empty

-- A flush of what is kept sends it.
flush-Holds :
    (body : Bytes) (e : EtagWriter)
    → e.overflow ≡ true
    → e.wrote ≡ false
    → e.buffer ≡ body
    → e.client.body ≡ []
    → Holds body (flush_to_underlying e)
flush-Holds body e over unwrote same empty =
    subst (Holds body) (sym (flush_to_underlying-flushed e unwrote))
      (unfold flushed in (Holds.sent over refl (flushed-body e empty ∙ same)))

sent_more :
    (body bs : Bytes) (e : EtagWriter)
    → e.overflow ≡ true
    → Holds body e
    → Holds (body ++ bs) (record e { client = client_action (write bs) e.client })
sent_more body bs e over (Holds.kept fresh _ _ _ _) = absurd (let clash = sym over ∙ fresh in cc)
sent_more body bs e over (Holds.sent o w b) =
    Holds.sent o w (write-body bs e.client ∙ ap (λ x. x ++ bs) b)

flush_to_underlying-overflow : (e : EtagWriter) → (flush_to_underlying e).overflow ≡ e.overflow
unfolding flush_to_underlying
flush_to_underlying-overflow e = elim (Bool-cases e.wrote) [ inl w ↦ rw w refl | inr w ↦ rw w refl ]

sent_on : Bytes → EtagWriter → EtagWriter
sent_on bs e = record e { client = client_action (write bs) e.client }

is_over : Bytes → EtagWriter → Bool
is_over bs e = ltb_ℤ (pos 0) e.max_size && ltb_ℤ e.max_size (pos (length e.buffer + length bs))

etag_write-sent : (bs : Bytes) (e : EtagWriter) → e.overflow ≡ true → etag_write bs e ≡ sent_on bs e
unfolding etag_write sent_on
etag_write-sent bs e o = rw o refl

etag_write-over :
    (bs : Bytes) (e : EtagWriter)
    → e.overflow ≡ false
    → is_over bs e ≡ true
    → etag_write bs e ≡ sent_on bs (flush_to_underlying (record e { overflow = true }))
unfolding etag_write sent_on is_over
etag_write-over bs e o over = rw (o, over) refl

etag_write-fits :
    (bs : Bytes) (e : EtagWriter)
    → e.overflow ≡ false
    → is_over bs e ≡ false
    → etag_write bs e ≡ record e { buffer = e.buffer ++ bs }
unfolding etag_write is_over
etag_write-fits bs e o fits = rw (o, fits) refl

etag_write-Holds :
    (body bs : Bytes) (e : EtagWriter) → Holds body e → Holds (body ++ bs) (etag_write bs e)
unfolding sent_on
etag_write-Holds body bs e (Holds.sent o w b) =
    subst (Holds (body ++ bs)) (sym (etag_write-sent bs e o))
      (sent_more body bs e o (Holds.sent o w b))
etag_write-Holds body bs e (Holds.kept o w b empty unsent) = elim (Bool-cases (is_over bs e)) [
  | inl over ↦ subst (Holds (body ++ bs)) (sym (etag_write-over bs e o over)) (
      sent_more body bs (flush_to_underlying (record e { overflow = true }))
        (flush_to_underlying-overflow (record e { overflow = true }))
        (flush-Holds body (record e { overflow = true }) refl w b empty))
  | inr fits ↦
      subst (Holds (body ++ bs)) (sym (etag_write-fits bs e o fits))
        (Holds.kept o w (ap (λ x. x ++ bs) b) empty unsent)
]

etag_flush-sent : (e : EtagWriter) → e.overflow ≡ true → etag_flush e ≡ e
unfolding etag_flush
etag_flush-sent e o = rw o refl

etag_flush-kept :
    (e : EtagWriter)
    → e.overflow ≡ false
    → etag_flush e ≡ flush_to_underlying (record e { overflow = true })
unfolding etag_flush
etag_flush-kept e o = rw o refl

etag_flush-Holds : (body : Bytes) (e : EtagWriter) → Holds body e → Holds body (etag_flush e)
etag_flush-Holds body e (Holds.sent o w b) =
    subst (Holds body) (sym (etag_flush-sent e o)) (Holds.sent o w b)
etag_flush-Holds body e (Holds.kept o w b empty unsent) =
    subst (Holds body) (sym (etag_flush-kept e o))
      (flush-Holds body (record e { overflow = true }) refl w b empty)

with_header :
    (h : Headers) (body : Bytes) (e : EtagWriter)
    → Holds body e
    → Holds body (record e { header = h })
with_header h body e (Holds.sent o w b) = Holds.sent o w b
with_header h body e (Holds.kept o w b empty unsent) = Holds.kept o w b empty unsent

with_status :
    (status : ℕ) (body : Bytes) (e : EtagWriter)
    → Holds body e
    → Holds body (record e { status = status })
with_status status body e (Holds.sent o w b) = Holds.sent o w b
with_status status body e (Holds.kept o w b empty unsent) = Holds.kept o w b empty unsent

-- Every call keeps the texts written so far.
pub call_all-Holds :
    (cs : List Call) (body : Bytes) (e : EtagWriter)
    → Holds body e
    → Holds (body ++ written cs) (call_all cs e)
unfolding call_all call
call_all-Holds [] body e holds = subst (λ b. Holds b e) (sym (append-nil body)) holds
call_all-Holds (acts (set_header key value) ∷ cs) body e holds =
    call_all-Holds cs body (call (acts (set_header key value)) e) (with_header _ body e holds)
call_all-Holds (acts (add_header key value) ∷ cs) body e holds =
    call_all-Holds cs body (call (acts (add_header key value)) e) (with_header _ body e holds)
call_all-Holds (acts (write_header status) ∷ cs) body e holds =
    call_all-Holds cs body (call (acts (write_header status)) e)
      (elim (Bool-cases (e.status == 0)) [
        | inl z ↦ rw z (with_status status body e holds)
        | inr z ↦ rw z holds
      ])
call_all-Holds (acts (write bs) ∷ cs) body e holds =
    subst (λ b. Holds b (call_all cs (etag_write bs e))) (append_assoc body bs (written cs))
      (call_all-Holds cs (body ++ bs) (etag_write bs e) (etag_write-Holds body bs e holds))
call_all-Holds (flushes ∷ cs) body e holds =
    call_all-Holds cs body (etag_flush e) (etag_flush-Holds body e holds)
