-- ===== src/App/Table/Registered.antt =====
-- app.go, handleWithOptions: the table of routes agrees with the router, and names are unique.
use bebo.Prelude.{
  ℕ, zero, suc, ◌<◌, ◌==◌, ◌≡◌, ◌≢◌, refl, sym, ap, ◌∙◌, subst, true, false, some, List, [], ◌∷◌,
  ◌++◌, if◌then◌else◌, is_empty, arith, length, length-append, get_elem?, Bool-cases, ◌⊎◌, inl, inr,
}
use bebo.Prelude.Text.{Bytes, text_eq, text_eq_iff}
use bebo.Prelude.Result.{ok}
use bebo.Prelude.Dict.{Dict, lookup, insert, nat_eq, bytes_eq, lookup-insert, lookup-insert_self}
use bebo.Router.{Route, Router, new, normalize_host, parse_pattern}
use bebo.Router.Ids.{IsNumbered, new-IsNumbered, add_with_host-IsNumbered, add_with_host_cases}
use bebo.App.Errors.{Error}
use bebo.App.Table.{
  Entry, App, Registration, new_app, is_taken, entry_of, handle_with_options, register_all,
}

get_elem?-length :
    {A : Type 0} (xs : List A) (i : ℕ) (y : A) → get_elem? xs i ≡ some y → i < length xs
get_elem?-length [] i y h = cc
get_elem?-length (x ∷ xs) zero y h = omega arith
get_elem?-length (x ∷ xs) (suc i) y h = omega (arith, get_elem?-length xs i y h)

get_elem?-append_one :
    {A : Type 0} (xs : List A) (x : A) (i : ℕ) (y : A)
    → get_elem? (xs ++ (x ∷ [])) i ≡ some y
    → (get_elem? xs i ≡ some y) ⊎ ((i ≡ length xs) × (x ≡ y))
get_elem?-append_one [] x zero y h = inr (refl, cc)
get_elem?-append_one [] x (suc i) y h = cc
get_elem?-append_one (z ∷ xs) x zero y h = inl h
get_elem?-append_one (z ∷ xs) x (suc i) y h = elim (get_elem?-append_one xs x i y h) [
  | inl k ↦ inl k
  | inr (e, k) ↦ inr (omega arith, k)
]

module _ {C : Type 0} where
  -- What the entry of a route keeps of the registration, as the router has it.
  abbrev pub Describes : Entry C → Route → Type 0
  Describes e rt =
      (e.method ≡ rt.method)
      × (normalize_host e.host ≡ rt.host)
      × (parse_pattern e.pattern ≡ ok rt.segments)

  pub record IsTable (a : App C) : Type 0 where
    pub ids : IsNumbered a.router
    pub described :
        (i : ℕ) (rt : Route)
        → get_elem? a.router.routes i ≡ some rt
        → (e : Entry C) × (lookup i a.routes ≡ some e) × Describes e rt
    pub bounded : (i : ℕ) (e : Entry C) → lookup i a.routes ≡ some e → i < length a.router.routes
    pub named :
        (name : Bytes) (i : ℕ)
        → lookup name a.routes_by_name ≡ some i
        → (name ≢ []) × (e : Entry C) × (lookup i a.routes ≡ some e) × (e.name ≡ name)
    pub indexed :
        (i : ℕ) (e : Entry C)
        → lookup i a.routes ≡ some e
        → e.name ≢ []
        → lookup e.name a.routes_by_name ≡ some i

  pub new_app-IsTable : (handler : C → Error → C) → IsTable (new_app handler)
  unfolding new_app new
  new_app-IsTable handler = record {
    ids = unfold new in new-IsNumbered;
    described = λ i rt h. absurd (cc);
    bounded = λ i e h. absurd (unfold lookup in cc);
    named = λ name i h. absurd (unfold lookup in cc);
    indexed = λ i e h. absurd (unfold lookup in cc);
  }

  lookup_new :
      (i : ℕ) (entry e : Entry C) (id : ℕ) (routes : Dict ℕ (Entry C))
      → lookup i (insert id entry routes) ≡ some e
      → ((id ≡ i) × (entry ≡ e)) ⊎ ((id ≢ i) × (lookup i routes ≡ some e))
  lookup_new i entry e id routes h = ground (arith, lookup-insert id i entry routes)

abbrev pub names_with : Bytes → ℕ → Dict Bytes ℕ → Dict Bytes ℕ
names_with name id names = if is_empty name then names else insert name id names

is_empty-ne : (name : Bytes) → name ≢ [] → is_empty name ≡ false
is_empty-ne [] h = absurd (h refl)
is_empty-ne (c ∷ s) h = refl

lookup-names_with :
    (k name : Bytes) (i id : ℕ) (names : Dict Bytes ℕ)
    → lookup k (names_with name id names) ≡ some i
    → ((name ≡ k) × (k ≢ []) × (id ≡ i)) ⊎ (lookup k names ≡ some i)
lookup-names_with k [] i id names h = inr h
lookup-names_with k (c ∷ s) i id names h = elim (Bool-cases (text_eq (c ∷ s) k)) [
  | inl e ↦
      let same = (text_eq_iff (c ∷ s) k).0 e in
      let h' = rw (lookup-insert (c ∷ s) k id names, e) at h in inl (same, (λ n. cc), (cc))
  | inr e ↦ inr (rw (lookup-insert (c ∷ s) k id names, e) at h)
]

names_with_self :
    (name : Bytes) (id : ℕ) (names : Dict Bytes ℕ)
    → name ≢ []
    → lookup name (names_with name id names) ≡ some id
names_with_self [] id names h = absurd (h refl)
names_with_self (c ∷ s) id names h = lookup-insert_self (c ∷ s) id names

names_with_other :
    (k name : Bytes) (i id : ℕ) (names : Dict Bytes ℕ)
    → is_taken name names ≡ false
    → lookup k names ≡ some i
    → lookup k (names_with name id names) ≡ some i
unfolding is_taken
names_with_other k [] i id names free h = h
names_with_other k (c ∷ s) i id names free h = elim (Bool-cases (text_eq (c ∷ s) k)) [
  | inl e ↦
      let same = (text_eq_iff (c ∷ s) k).0 e in
      let free' = rw (ap (λ n. lookup n names) same ∙ h) at free in absurd (cc)
  | inr e ↦ rw (lookup-insert (c ∷ s) k id names, e) h
]

module _ {C : Type 0} (a : App C) (g : Registration C) (rt : Route) (router : Router) where
  abbrev grown : ℕ → App C
  grown id = record a {
    router = router;
    routes = insert id (entry_of g) a.routes;
    routes_by_name = names_with (entry_of g).name id a.routes_by_name;
  }

  grown-IsTable :
      (id : ℕ)
      → IsTable a
      → IsNumbered router
      → router.routes ≡ a.router.routes ++ (rt ∷ [])
      → id ≡ length a.router.routes
      → Describes (entry_of g) rt
      → is_taken (entry_of g).name a.routes_by_name ≡ false
      → IsTable (grown id)
  grown-IsTable id t numbered grow at d free = record {
    ids = numbered;
    described = λ i r h. elim (get_elem?-append_one a.router.routes rt i r (rw grow at h)) [
      | inl old ↦
          let (e, found, same) = t.described i r old in
          let less = get_elem?-length a.router.routes i r old in
          let other : (id == i) ≡ false = ground arith in
          (e, (lookup-insert id i (entry_of g) a.routes ∙ rw other found), same)
      | inr (e, same) ↦
          let here : (id == i) ≡ true = ground arith in
          (entry_of g, (lookup-insert id i (entry_of g) a.routes ∙ rw here refl), rw (← same) d)
    ];
    bounded = λ i e h. elim (lookup_new i (entry_of g) e id a.routes h) [
      | inl (same, _) ↦ rw grow (omega (arith, length-append {0} a.router.routes (rt ∷ [])))
      | inr (_, old) ↦
          let less = t.bounded i e old in
          rw grow (omega (arith, length-append {0} a.router.routes (rt ∷ [])))
    ];
    named = λ name i h. elim (lookup-names_with name (entry_of g).name i id a.routes_by_name h) [
      | inl (same, some_name, here) ↦
          (some_name, entry_of g, (rw (← here) (lookup-insert_self id (entry_of g) a.routes)), same)
      | inr old ↦
          let (some_name, e, found, same) = t.named name i old in
          let less = t.bounded i e found in
          let other : (id == i) ≡ false = ground arith in
          (some_name, e, (lookup-insert id i (entry_of g) a.routes ∙ rw other found), same)
    ];
    indexed = λ i e h some_name. elim (lookup_new i (entry_of g) e id a.routes h) [
      | inl (here, same) ↦
          subst (λ x. lookup x.name (names_with (entry_of g).name id a.routes_by_name) ≡ some i)
            same
            (rw (← here) (
              names_with_self (entry_of g).name id a.routes_by_name
                (subst (λ x. x.name ≢ []) (sym same) some_name)))
      | inr (_, old) ↦
          names_with_other e.name (entry_of g).name i id a.routes_by_name free
            (t.indexed i e old some_name)
    ];
  }

module _ {C : Type 0} where
  -- A registration, accepted or not, keeps the table right.
  pub handle_with_options-IsTable :
      (g : Registration C) (a : App C) → IsTable a → IsTable (handle_with_options g a).0
  unfolding handle_with_options
  handle_with_options-IsTable g a t =
      let e = entry_of g in
      elim (Bool-cases (is_taken e.name a.routes_by_name)) [
        | inl taken ↦ rw taken t
        | inr free ↦ elim (add_with_host_cases a.router g.method e.host g.path) [
          | inl (failure, eq) ↦ rw (free, eq) t
          | inr (segs, parsed, eq) ↦
              let numbered = add_with_host-IsNumbered a.router g.method e.host g.path t.ids in
              rw (free, eq)
                (grown-IsTable a g
                  (record {
                    id = a.router.next_id;
                    method = g.method;
                    host = normalize_host e.host;
                    pattern = g.path;
                    segments = segs;
                  })
                  _ a.router.next_id t (rw eq at numbered) refl t.ids.1 (refl, refl, parsed) free)
        ]
      ]

  register_more-IsTable :
      (gs : List (Registration C)) (a : App C) → IsTable a → IsTable (register_all gs a)
  unfolding register_all
  register_more-IsTable [] a t = t
  register_more-IsTable (g ∷ gs) a t =
      register_more-IsTable gs (handle_with_options g a).0 (handle_with_options-IsTable g a t)

  -- After any registrations on a new application, each route of the router has an entry with its
  -- method, host and pattern, there is no other entry, a name leads to the entry of that name, and
  -- an entry that has a name is the one the name leads to.
  pub register_all-IsTable :
      (gs : List (Registration C)) (handler : C → Error → C)
      → IsTable (register_all gs (new_app handler))
  register_all-IsTable gs handler =
      register_more-IsTable gs (new_app handler) (new_app-IsTable handler)
