-- ===== src/App/Paths/Built.antt =====
-- path.go and router/router.go: the path that is built from the bindings of a match.
use bebo.Prelude.{ℕ, ◌≡◌, ◌≢◌, refl, ap, ◌∙◌, some, List, [], ◌∷◌, ◌++◌, map, is_empty, arith, All}
use bebo.Prelude.Text.{
  Bytes, bytes, has_prefix, trim_prefix, drop_prefix, text_eq, trim-join, split-join, join, IsPart,
  Lacks,
}
use bebo.Prelude.Dict.{lookup, bytes_eq}
use bebo.Router.{Segment, Params, split_path}
use bebo.Router.Fits.{Fits}
use bebo.Router.Pattern.{
  IsWellFormed, HasNoSlash, part_of, print, parts_of, Lacks-of, split_path-join,
}
use bebo.App.Groups.Prefixes.{path_of, path_of-ne-root}
use bebo.App.Paths.{build_part, build_parts, build_path, slashed}

module _ (escape : Bytes → Bytes) (params : Params) where
  -- The parameter has the value of the binding, which is not empty and is not changed by escaping.
  abbrev pub IsGiven : Bytes × Bytes → Type 0
  IsGiven (name, value) = (lookup name params ≡ some value) × (value ≢ []) × (escape value ≡ value)

  trim_prefix_part : (c : ℕ) (s : Bytes) → trim_prefix (c ∷ s) (c ∷ []) ≡ s
  unfolding trim_prefix has_prefix drop_prefix
  trim_prefix_part c s = ground arith

  trim_prefix_none : (w : Bytes) → Lacks b'/' w → trim_prefix w (bytes "/") ≡ w
  unfolding trim_prefix has_prefix
  trim_prefix_none [] h = refl
  trim_prefix_none (c ∷ w) (n, h) = ground arith

  trim_prefix-join :
      (w : Bytes) (ws : List Bytes)
      → IsPart b'/' w
      → trim_prefix (join b'/' (w ∷ ws)) (bytes "/") ≡ join b'/' (w ∷ ws)
  unfolding trim_prefix has_prefix join
  trim_prefix-join [] ws (n, h) = absurd (n refl)
  trim_prefix-join (c ∷ w) [] (n, (k, h)) = ground arith
  trim_prefix-join (c ∷ w) (v ∷ ws) (n, (k, h)) = ground arith

  join-cons :
      (w : Bytes) (us vs : List Bytes)
      → join b'/' us ≡ join b'/' vs
      → is_empty us ≡ is_empty vs
      → join b'/' (w ∷ us) ≡ join b'/' (w ∷ vs)
  unfolding join
  join-cons w [] [] e k = refl
  join-cons w [] (v ∷ vs) e k = cc
  join-cons w (u ∷ us) [] e k = cc
  join-cons w (u ∷ us) (v ∷ vs) e k = ap (λ t. w ++ (b'/' ∷ t)) e

  build_parts-Fits :
      {segs : List Segment} {parts : List Bytes} {bs : List (Bytes × Bytes)}
      → Fits segs parts bs
      → IsWellFormed segs
      → All (IsPart b'/') parts
      → All IsGiven bs
      → (out : List Bytes) × (build_parts escape params (map part_of segs) ≡ some out)
        × (join b'/' out ≡ join b'/' parts)
        × (is_empty out ≡ is_empty parts)
  unfolding build_parts build_part
  build_parts-Fits Fits.end w h g = ([], refl, refl, refl)
  build_parts-Fits (Fits.literal {v} {more} {parts} f) (_, no_colon, no_star, w) (_, h) g =
      let (out, built, same, empty) = build_parts-Fits f w h g in
      (v ∷ out, rw (no_colon, no_star, built) refl, join-cons v out parts same empty, refl)
  build_parts-Fits (Fits.binds {v} {part} {more} {parts} f) (_, w) (_, h) ((given, _, kept), g) =
      let (out, built, same, empty) = build_parts-Fits f w h g in
      (
        part ∷ out,
        rw (trim_prefix_part b':' v, given, built) (ap (λ x. some (x ∷ out)) kept),
        join-cons part out parts same empty,
        refl,
      )
  build_parts-Fits (Fits.takes_rest {v} {more} {parts = []}) (_, ends) h
        ((given, some_value, _), _) =
      absurd (some_value (unfold join in refl))
  build_parts-Fits (Fits.takes_rest {v} {more} {parts = p ∷ parts}) (_, ends) (k, h)
        ((given, _, _), _) =
      (
        join b'/' (p ∷ parts) ∷ [],
        rw (ends, trim_prefix_part b'*' v, given, trim_prefix-join p parts k)
            (unfold build_parts in refl),
        (unfold join in refl),
        refl,
      )

  build_path-print :
      (segs : List Segment) (out : List Bytes)
      → IsWellFormed segs
      → All HasNoSlash segs
      → build_parts escape params (map part_of segs) ≡ some out
      → build_path escape (print segs) params ≡ some (b'/' ∷ join b'/' out)
  unfolding build_path print
  build_path-print [] out w k e =
      unfold build_parts in (unfold join in (unfold text_eq in ap (slashed escape) e))
  build_path-print (seg ∷ segs) out w k e =
      let good = parts_of (seg ∷ segs) w k in
      rw
        (
          path_of-ne-root (part_of seg) (map part_of segs) good,
          trim-join b'/' (part_of seg) (map part_of segs) good,
          split-join b'/' (part_of seg) (map part_of segs)
              (Lacks-of (map part_of (seg ∷ segs)) good),
          e,
        )
        refl

  -- A path that fits a well-formed pattern is built again by buildPath from the bindings of the fit:
  -- the parts of the path that is built are those of the given path. The parts are not empty and
  -- without slashes, and escaping leaves the bound values alone, which are not empty.
  pub build_path-Fits :
      {segs : List Segment} {parts : List Bytes} {bs : List (Bytes × Bytes)}
      → Fits segs parts bs
      → IsWellFormed segs
      → All HasNoSlash segs
      → All (IsPart b'/') parts
      → All IsGiven bs
      → (build_path escape (print segs) params ≡ some (path_of parts))
        × (split_path (path_of parts) ≡ parts)
  build_path-Fits {segs} {parts} f w k h g =
      let (out, built, same, _) = build_parts-Fits f w h g in
      (
        build_path-print segs out w k built ∙ ap (λ t. some (b'/' ∷ t)) same,
        split_path-join parts h,
      )
