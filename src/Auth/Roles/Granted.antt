-- ===== src/Auth/Roles/Granted.antt =====
-- auth/roles.go: when an authorizer lets a principal pass.
use bebo.Prelude.{
  ◌≡◌, ◌≢◌, ◌↔◌, ◌⊎◌, inl, inr, refl, sym, subst, Bool, true, false, not, ◌&&◌, Option, none, some,
  List, [], ◌∷◌, is_empty, All, Memᴰ, Bool-cases, if◌then◌else◌,
}
use bebo.Prelude.Text.{Bytes, text_eq, text_eq_iff}
use bebo.Auth.{Principal}
use bebo.Auth.Roles.{
  AuthorizeError, missing_role, missing_permission, is_listed, has_role, any_of, all_of,
  has_any_role, has_all_roles, permissions_from_claims, has_permission, has_any_permission,
  has_all_permissions, Authorizer, authorize_roles, authorize_permissions,
}

is_listed_sound : (xs : List Bytes) (name : Bytes) → is_listed xs name ≡ true → Memᴰ name xs
unfolding is_listed
is_listed_sound [] name h = cc
is_listed_sound (x ∷ xs) name h = elim (Bool-cases (text_eq x name)) [
  | inl e ↦ Memᴰ.head (sym ((text_eq_iff x name).0 e))
  | inr e ↦ Memᴰ.tail (is_listed_sound xs name (rw e at h))
]

is_listed_complete : (xs : List Bytes) (name : Bytes) → Memᴰ name xs → is_listed xs name ≡ true
unfolding is_listed
is_listed_complete [] name m = elim m [ ]
is_listed_complete (x ∷ xs) name (Memᴰ.head e) = rw ((text_eq_iff x name).1 (sym e)) refl
is_listed_complete (x ∷ xs) name (Memᴰ.tail m) = elim (Bool-cases (text_eq x name)) [
  | inl e ↦ rw e refl
  | inr e ↦ rw e (is_listed_complete xs name m)
]

pub is_listed_iff : (xs : List Bytes) (name : Bytes) → (is_listed xs name ≡ true) ↔ Memᴰ name xs
is_listed_iff xs name = (is_listed_sound xs name, is_listed_complete xs name)

-- The name is not empty and stands in the list.
abbrev pub IsHeld : List Bytes → Bytes → Type 0
IsHeld held name = (name ≢ []) × Memᴰ name held

-- All of the one list are held, and one of the other list is, unless it is empty.
abbrev pub IsGranted : List Bytes → Authorizer → Type 0
IsGranted held r =
    All (IsHeld held) r.all × ((r.any ≡ []) ⊎ ((name : Bytes) × Memᴰ name r.any × IsHeld held name))

module _ (has : Bytes → Bool) (held : List Bytes)
    (has_iff : (name : Bytes) → (has name ≡ true) ↔ IsHeld held name) where
  all_of_sound : (xs : List Bytes) → all_of has xs ≡ true → All (IsHeld held) xs
  unfolding all_of
  all_of_sound [] h = tt
  all_of_sound (x ∷ xs) h = elim (Bool-cases (has x)) [
    | inl e ↦ ((has_iff x).0 e, all_of_sound xs (rw e at h))
    | inr e ↦ absurd (let h' = rw e at h in cc)
  ]

  all_of_complete : (xs : List Bytes) → All (IsHeld held) xs → all_of has xs ≡ true
  unfolding all_of
  all_of_complete [] h = refl
  all_of_complete (x ∷ xs) (p, h) = rw ((has_iff x).1 p) (all_of_complete xs h)

  any_of_sound :
      (xs : List Bytes) → any_of has xs ≡ true → (name : Bytes) × Memᴰ name xs × IsHeld held name
  unfolding any_of
  any_of_sound [] h = cc
  any_of_sound (x ∷ xs) h = elim (Bool-cases (has x)) [
    | inl e ↦ (x, Memᴰ.head refl, (has_iff x).0 e)
    | inr e ↦ let (name, m, p) = any_of_sound xs (rw e at h) in (name, Memᴰ.tail m, p)
  ]

  any_of_complete :
      (xs : List Bytes) (name : Bytes) → Memᴰ name xs → IsHeld held name → any_of has xs ≡ true
  unfolding any_of
  any_of_complete [] name m p = elim m [ ]
  any_of_complete (x ∷ xs) name (Memᴰ.head e) p = rw ((has_iff x).1 (subst (IsHeld held) e p)) refl
  any_of_complete (x ∷ xs) name (Memᴰ.tail m) p = elim (Bool-cases (has x)) [
    | inl e ↦ rw e refl
    | inr e ↦ rw e (any_of_complete xs name m p)
  ]

  -- Both authorizers, with what a principal has and the error to report.
  abbrev outcome : List Bytes → List Bytes → AuthorizeError → Option AuthorizeError
  outcome alls anys e =
      if is_empty alls && is_empty anys
      then none
      else if not (is_empty alls) && not (if is_empty alls then false else all_of has alls)
      then some e
      else if not (is_empty anys) && not (if is_empty anys then false else any_of has anys)
      then some e
      else none

  outcome_sound :
      (alls anys : List Bytes) (e : AuthorizeError)
      → outcome alls anys e ≡ none
      → IsGranted held (record { any = anys; all = alls })
  outcome_sound [] [] e h = (tt, inl refl)
  outcome_sound [] (y ∷ ys) e h = elim (Bool-cases (any_of has (y ∷ ys))) [
    | inl k ↦ (tt, inr (any_of_sound (y ∷ ys) k))
    | inr k ↦ absurd (let h' = rw k at h in cc)
  ]
  outcome_sound (x ∷ xs) anys e h = elim (Bool-cases (all_of has (x ∷ xs))) [
    | inr k ↦ absurd (let h' = rw k at h in cc)
    | inl k ↦ (all_of_sound (x ∷ xs) k, some_held anys (rw k at h))
  ]
    where
      some_held :
          (anys : List Bytes)
          → (if not (is_empty anys) && not (if is_empty anys then false else any_of has anys)
              then some e
              else none)
            ≡ none
          → (anys ≡ []) ⊎ ((name : Bytes) × Memᴰ name anys × IsHeld held name)
      some_held [] h' = inl refl
      some_held (y ∷ ys) h' = elim (Bool-cases (any_of has (y ∷ ys))) [
        | inl k ↦ inr (any_of_sound (y ∷ ys) k)
        | inr k ↦ absurd (let h'' = rw k at h' in cc)
      ]

  outcome_complete :
      (alls anys : List Bytes) (e : AuthorizeError)
      → IsGranted held (record { any = anys; all = alls })
      → outcome alls anys e ≡ none
  outcome_complete [] [] e g = refl
  outcome_complete [] (y ∷ ys) e (_, inl k) = cc
  outcome_complete [] (y ∷ ys) e (_, inr (name, m, p)) = rw (any_of_complete (y ∷ ys) name m p) refl
  outcome_complete (x ∷ xs) [] e (h, _) = rw (all_of_complete (x ∷ xs) h) refl
  outcome_complete (x ∷ xs) (y ∷ ys) e (_, inl k) = cc
  outcome_complete (x ∷ xs) (y ∷ ys) e (h, inr (name, m, p)) =
      rw (all_of_complete (x ∷ xs) h, any_of_complete (y ∷ ys) name m p) refl

has_role_iff :
    (q : Principal) (name : Bytes) → (has_role (some q) name ≡ true) ↔ IsHeld q.roles name
unfolding has_role
has_role_iff q [] = ((λ h. cc), (λ (n, _). absurd (n refl)))
has_role_iff q (c ∷ name) = (
  (λ h. ((λ e. cc), (is_listed_iff q.roles (c ∷ name)).0 h)),
  (λ (_, m). (is_listed_iff q.roles (c ∷ name)).1 m),
)

has_permission_iff :
    (q : Principal) (name : Bytes)
    → (has_permission (some q) name ≡ true) ↔ IsHeld (permissions_from_claims q) name
unfolding has_permission
has_permission_iff q [] = ((λ h. cc), (λ (n, _). absurd (n refl)))
has_permission_iff q (c ∷ name) = (
  (λ h. ((λ e. cc), (is_listed_iff (permissions_from_claims q) (c ∷ name)).0 h)),
  (λ (_, m). (is_listed_iff (permissions_from_claims q) (c ∷ name)).1 m),
)

-- A principal passes the role authorizer exactly when it has all the roles of All, and one of Any
-- unless Any is empty; nobody has the empty role.
pub authorize_roles-eq-none_iff :
    (r : Authorizer) (q : Principal) → (authorize_roles r (some q) ≡ none) ↔ IsGranted q.roles r
unfolding authorize_roles has_all_roles has_any_role
authorize_roles-eq-none_iff r q = (
  outcome_sound (has_role (some q)) q.roles (has_role_iff q) r.all r.any missing_role,
  outcome_complete (has_role (some q)) q.roles (has_role_iff q) r.all r.any missing_role,
)

-- A principal passes the permission authorizer exactly when its permissions claim lists all of All,
-- and one of Any unless Any is empty; nobody has the empty permission.
pub authorize_permissions-eq-none_iff :
    (r : Authorizer) (q : Principal)
    → (authorize_permissions r (some q) ≡ none) ↔ IsGranted (permissions_from_claims q) r
unfolding authorize_permissions has_all_permissions has_any_permission
authorize_permissions-eq-none_iff r q = (
  outcome_sound (has_permission (some q)) (permissions_from_claims q) (has_permission_iff q) r.all
      r.any missing_permission,
  outcome_complete (has_permission (some q)) (permissions_from_claims q) (has_permission_iff q)
      r.all r.any missing_permission,
)
