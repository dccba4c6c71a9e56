-- ===== src/App/Groups/Prefixes.antt =====
-- group.go: the patterns that groups register, on prefixes and paths without empty parts.
use bebo.Prelude.{
  ◌≡◌, ◌≢◌, refl, sym, ap, ◌∙◌, false, List, [], ◌∷◌, ◌++◌, All, append_assoc, append-nil,
}
use bebo.Prelude.Text.{
  Bytes, bytes, has_prefix, text_eq, trim_right, trim_right-join, join, join-ne-nil, IsPart,
}
use bebo.Router.Pattern.{is_empty-false}
use bebo.App.Table.{Middleware, Registration}
use bebo.App.Groups.{clean_prefix, join_paths, app_group, sub_group, group_registration}

-- The path of these parts.
abbrev pub path_of : List Bytes → Bytes
path_of ws = b'/' ∷ join b'/' ws

abbrev pub AreParts : List Bytes → Type 0
AreParts ws = All (IsPart b'/') ws

AreParts-append : (xs ys : List Bytes) → AreParts xs → AreParts ys → AreParts (xs ++ ys)
AreParts-append [] ys h k = k
AreParts-append (x ∷ xs) ys (p, h) k = (p, AreParts-append xs ys h k)

trim_right-path_of :
    (w : Bytes) (ws : List Bytes)
    → AreParts (w ∷ ws)
    → trim_right b'/' (path_of (w ∷ ws)) ≡ path_of (w ∷ ws)
unfolding trim_right
trim_right-path_of w ws h =
    rw
      (
        trim_right-join b'/' w ws h,
        is_empty-false (join b'/' (w ∷ ws)) (join-ne-nil b'/' w ws h.0.0),
      )
      refl

clean_prefix-path_of : (ws : List Bytes) → AreParts ws → clean_prefix (path_of ws) ≡ path_of ws
unfolding clean_prefix has_prefix
clean_prefix-path_of [] h = unfold join in refl
clean_prefix-path_of (w ∷ ws) h =
    rw (is_empty-false (join b'/' (w ∷ ws)) (join-ne-nil b'/' w ws h.0.0))
      (trim_right-path_of w ws h)

pub path_of-ne-root :
    (w : Bytes) (ws : List Bytes)
    → AreParts (w ∷ ws)
    → text_eq (path_of (w ∷ ws)) (bytes "/") ≡ false
unfolding text_eq
path_of-ne-root w ws h = longer (join b'/' (w ∷ ws)) (join-ne-nil b'/' w ws h.0.0)
  where
    longer : (s : Bytes) → s ≢ [] → text_eq (b'/' ∷ s) (bytes "/") ≡ false
    longer [] n = absurd (n refl)
    longer (c ∷ s) n = refl

join-append :
    (w v : Bytes) (ws vs : List Bytes)
    → join b'/' ((w ∷ ws) ++ (v ∷ vs)) ≡ join b'/' (w ∷ ws) ++ (b'/' ∷ join b'/' (v ∷ vs))
unfolding join
join-append w v [] vs = refl
join-append w v (u ∷ ws) vs =
    ap (λ t. w ++ (b'/' ∷ t)) (join-append u v ws vs)
    ∙ sym (append_assoc w (b'/' ∷ join b'/' (u ∷ ws)) (b'/' ∷ join b'/' (v ∷ vs)))

pub join_paths-path_of :
    (xs ys : List Bytes)
    → AreParts xs
    → AreParts ys
    → join_paths (path_of xs) (path_of ys) ≡ path_of (xs ++ ys)
unfolding join_paths
join_paths-path_of xs [] h k =
    rw (append-nil xs) (unfold join in (unfold text_eq in clean_prefix-path_of xs h))
join_paths-path_of [] (y ∷ ys) h k =
    rw (path_of-ne-root y ys k, clean_prefix-path_of (y ∷ ys) k)
      (unfold join in (unfold text_eq in refl))
join_paths-path_of (x ∷ xs) (y ∷ ys) h k =
    rw
      (
        path_of-ne-root y ys k,
        clean_prefix-path_of (x ∷ xs) h,
        path_of-ne-root x xs h,
        clean_prefix-path_of (y ∷ ys) k,
        trim_right-path_of x xs h,
      )
      (ap (λ t. b'/' ∷ t) (sym (join-append x y xs ys)))

-- A route registered in a group within a group gets the parts of both prefixes in front of its own,
-- and the middleware of the outer group, that of the inner one, and its own, in this order.
pub group_registration-nested :
    {C : Type 0} (xs ys zs : List Bytes) (ms ns : List (Middleware C)) (r : Registration C)
    → AreParts xs
    → AreParts ys
    → AreParts zs
    → r.path ≡ path_of zs
    → group_registration (sub_group (app_group (path_of xs) ms) (path_of ys) ns) r
      ≡ record r { path = path_of (xs ++ (ys ++ zs)); middleware = ms ++ (ns ++ r.middleware) }
unfolding group_registration sub_group app_group
group_registration-nested xs ys zs ms ns r h k l at =
    rw
      (
        clean_prefix-path_of xs h,
        join_paths-path_of xs ys h k,
        at,
        join_paths-path_of (xs ++ ys) zs (AreParts-append xs ys h k) l,
        append_assoc xs ys zs,
        append_assoc ms ns r.middleware,
      )
      refl
