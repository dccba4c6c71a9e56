-- ===== src/Middleware/Etag/Served.antt =====
-- middleware/cache.go: what the client of the ETag middleware gets.
use bebo.Prelude.{
  Memᴰ, Bool-cases, ℕ, subst, ◌≡◌, refl, sym, ap, ◌∙◌, Bool, true, false, not, ◌||◌, Option,
  if◌then◌else◌, none, some, List, [], ◌∷◌, ◌⊎◌, inl, inr, ltb,
}
use bebo.Prelude.Int.{ℤ}
use bebo.Prelude.Text.{Bytes, bytes, split, text_eq, text_eq_iff}
use bebo.Prelude.Ascii.{trim_space}
use bebo.App.Errors.{Error}
use bebo.Prelude.Dict.{lookup, bytes_eq}
use bebo.App.Response.{Headers, Client, send_status, client_action, add_header, set}
use bebo.Middleware.Etag.{
  EtagWriter, Call, new_etag_writer, copy_values, copy_headers, status_or_ok, flush_to_underlying,
  call_all, any_part, match_etag, is_get, has_value, etag_of, tagged, finalize, etag_serve,
}
use bebo.Middleware.Etag.Complete.{
  Holds, written, call_all-Holds, flush_body, send_status-body, copy_headers-body,
}

copy_values-sent :
    (key : Bytes) (vs : List Bytes) (c : Client) → (copy_values key vs c).sent ≡ c.sent
unfolding copy_values
copy_values-sent key [] c = refl
copy_values-sent key (v ∷ vs) c = copy_values-sent key vs (client_action (add_header key v) c)

copy_headers-sent : (h : Headers) (c : Client) → (copy_headers h c).sent ≡ c.sent
unfolding copy_headers
copy_headers-sent [] c = refl
copy_headers-sent ((key, vs) ∷ h) c =
    copy_headers-sent h (copy_values key vs c) ∙ copy_values-sent key vs c

send_status-unsent :
    (status : ℕ) (c : Client)
    → c.sent ≡ none
    → (send_status status c).sent ≡ some (status, c.header)
send_status-unsent status c unsent = rw unsent refl

not-not : (b : Bool) → not (not b) ≡ b
not-not true = refl
not-not false = refl

abbrev pub sent_status : Option (ℕ × Headers) → Option ℕ
sent_status none = none
sent_status (some (status, h)) = some status

choose :
    (P : EtagWriter → Type 0) (p : Bool) (x y : EtagWriter)
    → (p ≡ true → P x)
    → (p ≡ false → P y)
    → P (if p then x else y)
choose P true x y t f = t refl
choose P false x y t f = f refl

-- The header names the ETag: it is one of the parts between commas, apart from white space around it.
abbrev pub Names : Bytes → Bytes → Type 0
Names header etag = (part : Bytes) × Memᴰ part (split b',' header) × (trim_space part ≡ etag)

any_part_sound :
    (parts : List Bytes) (etag : Bytes)
    → any_part parts etag ≡ true
    → (part : Bytes) × Memᴰ part parts × (trim_space part ≡ etag)
unfolding any_part
any_part_sound [] etag h = cc
any_part_sound (part ∷ parts) etag h = elim (Bool-cases (text_eq (trim_space part) etag)) [
  | inl e ↦ (part, Memᴰ.head refl, (text_eq_iff (trim_space part) etag).0 e)
  | inr e ↦
      let (found, m, same) = any_part_sound parts etag (rw e at h) in (found, Memᴰ.tail m, same)
]

match_etag-Names : (header etag : Bytes) → match_etag header etag ≡ true → Names header etag
unfolding match_etag
match_etag-Names [] etag h = cc
match_etag-Names (b ∷ header) etag h = any_part_sound (split b',' (b ∷ header)) etag h

is_get-Reads :
    (method : Bytes) → is_get method ≡ true → (method ≡ bytes "GET") ⊎ (method ≡ bytes "HEAD")
is_get-Reads method h = elim (Bool-cases (text_eq method (bytes "GET"))) [
  | inl e ↦ inl ((text_eq_iff method (bytes "GET")).0 e)
  | inr e ↦ inr ((text_eq_iff method (bytes "HEAD")).0 (rw e at h))
]

module _ (hash : Bytes → Bytes) (weak : Bool) (method if_none_match : Bytes) where
  -- The whole body, or 304 to a request that names its ETag.
  abbrev pub Served : Bytes → Client → Type 0
  Served body c =
      (c.body ≡ body)
      ⊎ ((c.body ≡ [])
          × ((sent_status c.sent ≡ some 304)
              × (((method ≡ bytes "GET") ⊎ (method ≡ bytes "HEAD"))
                  × Names if_none_match (etag_of hash weak body))))

  Fine : Bytes → EtagWriter → Type 0
  Fine body e = Served body e.client

  not_modified :
      (body : Bytes) (h : Headers) (c : Client)
      → c.body ≡ []
      → c.sent ≡ none
      → is_get method ≡ true
      → Names if_none_match (etag_of hash weak body)
      → Served body (send_status 304 (copy_headers h c))
  not_modified body h c empty unsent get same = inr (
    send_status-body 304 (copy_headers h c) ∙ copy_headers-body h c ∙ empty,
    (
      ap sent_status (send_status-unsent 304 (copy_headers h c) (copy_headers-sent h c ∙ unsent)),
      (is_get-Reads method get, same),
    ),
  )

  tagged-Fine :
      (e : EtagWriter)
      → e.wrote ≡ false
      → e.client.body ≡ []
      → e.client.sent ≡ none
      → is_get method ≡ true
      → Fine e.buffer (tagged hash weak if_none_match e)
  unfolding tagged Fine
  tagged-Fine e unwrote empty unsent get =
      let etag = etag_of hash weak e.buffer in
      let h = set (bytes "Etag") etag e.header in
      choose (Fine e.buffer) (match_etag if_none_match etag) _ _
        (λ same.
          not_modified e.buffer h e.client empty unsent get
            (match_etag-Names if_none_match etag same))
        (λ other. inl (flush_body (record e { header = h }) unwrote empty))

  finalize-Fine :
      (body : Bytes) (e : EtagWriter)
      → Holds body e
      → Fine body (finalize hash weak method if_none_match e)
  unfolding finalize Fine
  finalize-Fine body e (Holds.sent o w b) =
      choose (Fine body) (e.overflow || e.wrote) _ _ (λ t. inl b)
        (λ f. absurd (let clash = sym f ∙ ap (λ x. x || e.wrote) o in cc))
  finalize-Fine body e (Holds.kept o w b empty unsent) =
      let flush : Fine body (flush_to_underlying e) = inl (flush_body e w empty ∙ b) in
      choose (Fine body) (e.overflow || e.wrote) _ _
        (λ t. absurd (let clash = sym t ∙ ap (λ x. x || e.wrote) o ∙ w in cc))
        (λ _.
          choose (Fine body)
            (ltb (status_or_ok e.status) 200 || not (ltb (status_or_ok e.status) 300)) _ _
            (λ _. flush)
            (λ _.
              choose (Fine body) (not (is_get method)) _ _ (λ _. flush)
                (λ get.
                  choose (Fine body)
                    (has_value (lookup (bytes "Etag") e.header)
                      || has_value (lookup (bytes "Content-Encoding") e.header))
                    _ _ (λ _. flush)
                    (λ _.
                      subst (λ x. Fine x (tagged hash weak if_none_match e)) b
                        (tagged-Fine e w empty unsent
                          (sym (not-not (is_get method)) ∙ ap not get))))))

  -- Nothing was sent, and nothing of the body, or all of it.
  abbrev pub Discarded : Bytes → Client → Type 0
  Discarded body c = ((c.body ≡ []) × (c.sent ≡ none)) ⊎ (c.body ≡ body)

  Holds-Discarded : (body : Bytes) (e : EtagWriter) → Holds body e → Discarded body e.client
  Holds-Discarded body e (Holds.kept _ _ _ empty unsent) = inl (empty, unsent)
  Holds-Discarded body e (Holds.sent _ _ b) = inr b

  -- Whatever the handler under the middleware calls, when nothing was sent before it. If it returns no
  -- error, the client gets every byte the handler writes, in order; or it gets an empty body with
  -- status 304, and then the method is GET or HEAD and a part between commas of If-None-Match is the
  -- ETag of those bytes. If it returns an error, that error is returned, and the client has got
  -- nothing, not even a status, or every byte the handler wrote.
  pub etag_serve-Served :
      (max_size : ℤ) (cs : List Call) (c : Client) (problem : Error)
      → c.body ≡ []
      → c.sent ≡ none
      → ((etag_serve hash weak method if_none_match max_size cs none c).1 ≡ none)
        × Served (written cs) (etag_serve hash weak method if_none_match max_size cs none c).0
        × ((etag_serve hash weak method if_none_match max_size cs (some problem) c).1
            ≡ some problem)
        × Discarded
            (written cs)
            (etag_serve hash weak method if_none_match max_size cs (some problem) c).0
  unfolding etag_serve new_etag_writer Fine
  etag_serve-Served max_size cs c problem empty unsent =
      let e = call_all cs (new_etag_writer c max_size) in
      let holds : Holds (written cs) e =
        call_all-Holds cs [] (new_etag_writer c max_size)
          (Holds.kept refl refl refl empty unsent) in
      (refl, finalize-Fine (written cs) e holds, refl, Holds-Discarded (written cs) e holds)
