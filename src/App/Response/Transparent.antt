-- ===== src/App/Response/Transparent.antt =====
-- timeout.go: a handler in time has the same response as without the timeoutWriter.
use bebo.Prelude.{
  ℕ, ◌≡◌, ◌≢◌, refl, sym, ap, ◌∙◌, true, false, Option, none, some, List, [], ◌∷◌, ◌++◌, ◌==◌,
  if◌then◌else◌, arith, append_assoc, append-nil, Bool-cases, inl, inr,
}
use bebo.Prelude.Text.{Bytes, text_eq, text_eq_iff}
use bebo.Prelude.Dict.{
  lookup, insert, bytes_eq, insert-absent, insert-last, lookup-last, lookup-insert, insert-append,
  lookup-append,
}
use bebo.App.Response.{
  Headers, set, add, values, Buffer, Writer, direct, timed, Action, set_header, add_header,
  write_header, write, act_all, new_timeout_writer, add_values, add_headers, commit, received,
}
use bebo.App.Response.Buffered.{buffer_all, act_all-timed, commit_top}

-- Headers as the handlers make them: no key twice, and a value for each key.
IsHeaders : Headers → Type 0
IsHeaders [] = Unit
IsHeaders ((key, vs) ∷ h) = (lookup key h ≡ none) × (vs ≢ []) × IsHeaders h

-- None of the keys of h stands in the others.
IsApart : Headers → Headers → Type 0
IsApart others [] = Unit
IsApart others ((key, vs) ∷ h) = (lookup key others ≡ none) × IsApart others h

abbrev holding : Headers → Writer
holding h = direct (record { header = h; sent = none; body = [] })

text_eq_refl : (k : Bytes) → text_eq k k ≡ true
text_eq_refl k = (text_eq_iff k k).1 refl

add-last :
    (key v : Bytes) (ws : List Bytes) (others : Headers)
    → lookup key others ≡ none
    → add key v (others ++ ((key, ws) ∷ [])) ≡ others ++ ((key, ws ++ (v ∷ [])) ∷ [])
unfolding add
add-last key v ws others h =
    ap (λ o. insert key (values o ++ (v ∷ [])) (others ++ ((key, ws) ∷ []))) found
    ∙ insert-last key (ws ++ (v ∷ [])) ws others h
  where
    found : lookup key (others ++ ((key, ws) ∷ [])) ≡ some ws
    found = lookup-last key key ws others h ∙ rw (text_eq_refl key) refl

add-absent :
    (key v : Bytes) (others : Headers)
    → lookup key others ≡ none
    → add key v others ≡ others ++ ((key, v ∷ []) ∷ [])
unfolding add
add-absent key v others h =
    ap (λ o. insert key (values o ++ (v ∷ [])) others) h ∙ insert-absent key (v ∷ []) others h

add_values-last :
    (key : Bytes) (vs ws : List Bytes) (others : Headers)
    → lookup key others ≡ none
    → add_values key vs (holding (others ++ ((key, ws) ∷ [])))
      ≡ holding (others ++ ((key, ws ++ vs) ∷ []))
unfolding add_values
add_values-last key [] ws others h =
    ap (λ x. holding (others ++ ((key, x) ∷ []))) (sym (append-nil ws))
add_values-last key (v ∷ vs) ws others h =
    ap (λ x. add_values key vs (holding x)) (add-last key v ws others h)
    ∙ add_values-last key vs (ws ++ (v ∷ [])) others h
    ∙ ap (λ x. holding (others ++ ((key, x) ∷ []))) (append_assoc ws (v ∷ []) vs)

add_values-absent :
    (key : Bytes) (vs : List Bytes) (others : Headers)
    → lookup key others ≡ none
    → vs ≢ []
    → add_values key vs (holding others) ≡ holding (others ++ ((key, vs) ∷ []))
unfolding add_values
add_values-absent key [] others h some_value = absurd (some_value refl)
add_values-absent key (v ∷ vs) others h some_value =
    ap (λ x. add_values key vs (holding x)) (add-absent key v others h)
    ∙ add_values-last key vs (v ∷ []) others h

IsApart-append :
    (key : Bytes) (vs : List Bytes) (others h : Headers)
    → IsApart others h
    → lookup key h ≡ none
    → IsApart (others ++ ((key, vs) ∷ [])) h
unfolding IsApart lookup
IsApart-append key vs others [] apart absent = tt
IsApart-append key vs others ((k, ws) ∷ h) (out, apart) absent = elim (Bool-cases (text_eq k key)) [
  | inl e ↦ absurd (let absent' = rw e at absent in cc)
  | inr e ↦
      let distinct : text_eq key k ≡ false = ground (arith, text_eq_iff k key, text_eq_iff key k) in
      (
        (lookup-last key k vs others out ∙ rw distinct refl),
        IsApart-append key vs others h apart (rw e at absent),
      )
]

add_headers-apart :
    (others h : Headers)
    → IsHeaders h
    → IsApart others h
    → add_headers h (holding others) ≡ holding (others ++ h)
unfolding add_headers IsHeaders IsApart
add_headers-apart others [] good apart = ap holding (sym (append-nil others))
add_headers-apart others ((key, vs) ∷ h) (absent, some_value, good) (out, apart) =
    ap (add_headers h) (add_values-absent key vs others out some_value)
    ∙ add_headers-apart (others ++ ((key, vs) ∷ [])) h good
        (IsApart-append key vs others h apart absent)
    ∙ ap holding (append_assoc others ((key, vs) ∷ []) h)

insert-IsHeaders :
    (key : Bytes) (vs : List Bytes) (h : Headers)
    → vs ≢ []
    → IsHeaders h
    → IsHeaders (insert key vs h)
unfolding insert IsHeaders
insert-IsHeaders key vs [] some_value good = (unfold lookup in refl, some_value, tt)
insert-IsHeaders key vs ((k, ws) ∷ h) some_value (absent, some_ws, good) =
    elim (Bool-cases (text_eq k key)) [
      | inl e ↦ let same = (text_eq_iff k key).0 e in rw e ((rw (← same) absent), some_value, good)
      | inr e ↦
          let distinct : text_eq key k ≡ false =
            ground (arith, text_eq_iff k key, text_eq_iff key k) in
          rw e (
            (lookup-insert key k vs h ∙ rw distinct absent),
            some_ws,
            insert-IsHeaders key vs h some_value good,
          )
    ]

append_one-ne-nil : (vs : List Bytes) (v : Bytes) → vs ++ (v ∷ []) ≢ []
append_one-ne-nil [] v = λ e. cc
append_one-ne-nil (x ∷ vs) v = λ e. cc

-- The texts of the writes.
texts : List Action → Bytes
texts [] = []
texts (write bs ∷ more) = bs ++ texts more
texts (set_header _ _ ∷ more) = texts more
texts (add_header _ _ ∷ more) = texts more
texts (write_header _ ∷ more) = texts more

abbrev pub OnlyWrites : List Action → Type 0
OnlyWrites [] = Unit
OnlyWrites (write bs ∷ more) = OnlyWrites more
OnlyWrites (set_header _ _ ∷ more) = ⊥
OnlyWrites (add_header _ _ ∷ more) = ⊥
OnlyWrites (write_header _ ∷ more) = ⊥

-- Headers first, then at most one status, which is not 0, and then writes.
abbrev pub IsOrderly : List Action → Type 0
IsOrderly [] = Unit
IsOrderly (set_header _ _ ∷ more) = IsOrderly more
IsOrderly (add_header _ _ ∷ more) = IsOrderly more
IsOrderly (write_header status ∷ more) = (status ≢ 0) × OnlyWrites more
IsOrderly (write bs ∷ more) = OnlyWrites more

writes_sent :
    (acts : List Action) (h : Headers) (x : ℕ × Headers) (b : Bytes)
    → OnlyWrites acts
    → act_all acts (direct (record { header = h; sent = some x; body = b }))
      ≡ direct (record { header = h; sent = some x; body = b ++ texts acts })
unfolding act_all texts
writes_sent [] h x b o =
    ap (λ t. direct (record { header = h; sent = some x; body = t })) (sym (append-nil b))
writes_sent (set_header _ _ ∷ more) h x b o = absurd o
writes_sent (add_header _ _ ∷ more) h x b o = absurd o
writes_sent (write_header _ ∷ more) h x b o = absurd o
writes_sent (write bs ∷ more) h x b o =
    writes_sent more h x (b ++ bs) o
    ∙ ap (λ t. direct (record { header = h; sent = some x; body = t }))
        (append_assoc b bs (texts more))

writes_kept :
    (acts : List Action) (h : Headers) (code : ℕ) (b : Bytes)
    → OnlyWrites acts
    → buffer_all acts (record { header = h; buffer = b; code = code; timed_out = false })
      ≡ record { header = h; buffer = b ++ texts acts; code = code; timed_out = false }
unfolding buffer_all texts
writes_kept [] h code b o =
    ap (λ t. record { header = h; buffer = t; code = code; timed_out = false }) (sym (append-nil b))
writes_kept (set_header _ _ ∷ more) h code b o = absurd o
writes_kept (add_header _ _ ∷ more) h code b o = absurd o
writes_kept (write_header _ ∷ more) h code b o = absurd o
writes_kept (write bs ∷ more) h code b o =
    writes_kept more h code (b ++ bs) o
    ∙ ap (λ t. record { header = h; buffer = t; code = code; timed_out = false })
        (append_assoc b bs (texts more))

abbrev keeping : Headers → ℕ → Bytes → Buffer
keeping h code b = record { header = h; buffer = b; code = code; timed_out = false }

commit-keeping :
    (others h : Headers) (code : ℕ) (b : Bytes)
    → IsHeaders h
    → IsApart others h
    → received (commit 0 (timed (keeping h code b) (holding others)))
      ≡ (some ((if code == 0 then 200 else code), others ++ h), b)
unfolding received
commit-keeping others h code b good apart = rw (commit_top (keeping h code b) (holding others)) (
    let moved = add_headers-apart others h good apart in
    elim (Bool-cases (code == 0)) [ inl e ↦ rw (moved, e) refl | inr e ↦ rw (moved, e) refl ])

-- None of the headers that are set or added is among the others.
abbrev pub OnlyNew : Headers → List Action → Type 0
OnlyNew others [] = Unit
OnlyNew others (set_header key _ ∷ more) = (lookup key others ≡ none) × OnlyNew others more
OnlyNew others (add_header key _ ∷ more) = (lookup key others ≡ none) × OnlyNew others more
OnlyNew others (write_header _ ∷ more) = OnlyNew others more
OnlyNew others (write _ ∷ more) = OnlyNew others more

insert-IsApart :
    (others : Headers) (key : Bytes) (vs : List Bytes) (h : Headers)
    → lookup key others ≡ none
    → IsApart others h
    → IsApart others (insert key vs h)
unfolding insert IsApart
insert-IsApart others key vs [] new apart = (new, tt)
insert-IsApart others key vs ((k, ws) ∷ h) new (out, apart) = elim (Bool-cases (text_eq k key)) [
  | inl e ↦ rw e (new, apart)
  | inr e ↦ rw e (out, insert-IsApart others key vs h new apart)
]

set-append :
    (key v : Bytes) (others h : Headers)
    → lookup key others ≡ none
    → set key v (others ++ h) ≡ others ++ set key v h
unfolding set
set-append key v others h new = insert-append key (v ∷ []) others h new

add-append :
    (key v : Bytes) (others h : Headers)
    → lookup key others ≡ none
    → add key v (others ++ h) ≡ others ++ add key v h
unfolding add
add-append key v others h new =
    ap (λ o. insert key (values o ++ (v ∷ [])) (others ++ h)) (lookup-append key others h new)
    ∙ insert-append key (values (lookup key h) ++ (v ∷ [])) others h new

received_sent :
    (h : Headers) (x : ℕ × Headers) (b : Bytes)
    → received (direct (record { header = h; sent = some x; body = b })) ≡ (some x, b)
unfolding received
received_sent h x b = refl

-- From headers that the handler has set so far, through the timeoutWriter and without it.
transparent :
    (others : Headers) (acts : List Action) (h : Headers)
    → IsOrderly acts
    → OnlyNew others acts
    → IsHeaders h
    → IsApart others h
    → received (commit 0 (timed (buffer_all acts (keeping h 0 [])) (holding others)))
      ≡ received (act_all acts (holding (others ++ h)))
unfolding buffer_all act_all
transparent others [] h o new good apart =
    commit-keeping others h 0 [] good apart ∙ (unfold received in refl)
transparent others (set_header key v ∷ more) h o (new, news) good apart =
    transparent others more (set key v h) o news
      (unfold set in insert-IsHeaders key (v ∷ []) h (λ e. cc) good)
      (unfold set in insert-IsApart others key (v ∷ []) h new apart)
    ∙ ap (λ x. received (act_all more (holding x))) (sym (set-append key v others h new))
transparent others (add_header key v ∷ more) h o (new, news) good apart =
    transparent others more (add key v h) o news
      (unfold add in
        insert-IsHeaders key (values (lookup key h) ++ (v ∷ [])) h
          (append_one-ne-nil (values (lookup key h)) v) good)
      (unfold add in insert-IsApart others key (values (lookup key h) ++ (v ∷ [])) h new apart)
    ∙ ap (λ x. received (act_all more (holding x))) (sym (add-append key v others h new))
transparent others (write_header status ∷ more) h (nonzero, o) new good apart =
    let other : (status == 0) ≡ false = ground arith in
    ap (λ tw. received (commit 0 (timed tw (holding others)))) (writes_kept more h status [] o)
    ∙ commit-keeping others h status (texts more) good apart
    ∙ status_kept other
    ∙ sym (
        ap received (writes_sent more (others ++ h) (status, others ++ h) [] o)
        ∙ received_sent (others ++ h) (status, others ++ h) (texts more))
  where
    status_kept :
        (status == 0) ≡ false
        → ◌≡◌ {A = Option (ℕ × Headers) × Bytes}
            (some ((if status == 0 then 200 else status), others ++ h), texts more)
            (some (status, others ++ h), texts more)
    status_kept e = rw e refl
transparent others (write bs ∷ more) h o new good apart =
    ap (λ tw. received (commit 0 (timed tw (holding others)))) (writes_kept more h 0 bs o)
    ∙ commit-keeping others h 0 (bs ++ texts more) good apart
    ∙ sym (
        ap received (writes_sent more (others ++ h) (200, others ++ h) bs o)
        ∙ received_sent (others ++ h) (200, others ++ h) (bs ++ texts more))

-- A handler first sets or adds headers, then sends at most one status, and then writes. When nothing
-- has been sent before, the response may have any headers, as long as the handler sets and adds none of
-- them. Then it has the same response, status, headers and body, when TimeoutHandler commits it in
-- time as without it.
pub commit-transparent :
    (others : Headers) (acts : List Action)
    → IsOrderly acts
    → OnlyNew others acts
    → received (
        commit 0 (
          act_all acts
            (new_timeout_writer (direct (record { header = others; sent = none; body = [] })))))
      ≡ received (act_all acts (direct (record { header = others; sent = none; body = [] })))
unfolding new_timeout_writer IsHeaders IsApart
commit-transparent others acts o new =
    ap (λ w. received (commit 0 w)) (act_all-timed acts (keeping [] 0 []) (holding others))
    ∙ transparent others acts [] o new tt tt
    ∙ ap (λ x. received (act_all acts (holding x))) (append-nil others)
