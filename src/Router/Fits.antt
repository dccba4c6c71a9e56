-- ===== src/Router/Fits.antt =====
-- router/router.go, matchSegments against an inductive description of when a path fits a pattern.
use bebo.Prelude.{
  ◌≡◌, refl, sym, ap, ◌∙◌, true, Option, none, some, List, [], ◌∷◌, arith, Bool-cases, inl, inr,
  ◌↔◌,
}
use bebo.Prelude.Text.{Bytes, join, text_eq, text_eq_iff, text_eq_self}
use bebo.Prelude.Dict.{insert, bytes_eq}
use bebo.Router.{Segment, static, param, wildcard, Params, store, match_segments}

-- The parts fit the pattern, binding these names to these values from left to right: a literal
-- fits itself, a parameter any one part, and a wildcard all that is left, even nothing.
pub data Fits : List Segment → List Bytes → List (Bytes × Bytes) → Type 0 where
  end : Fits [] [] []
  literal :
      {v : Bytes} {more : List Segment} {parts : List Bytes} {bs : List (Bytes × Bytes)}
      → Fits more parts bs
      → Fits (static v ∷ more) (v ∷ parts) bs
  binds :
      {v part : Bytes} {more : List Segment} {parts : List Bytes} {bs : List (Bytes × Bytes)}
      → Fits more parts bs
      → Fits (param v ∷ more) (part ∷ parts) ((v, part) ∷ bs)
  takes_rest :
      {v : Bytes} {more : List Segment} {parts : List Bytes}
      → Fits (wildcard v ∷ more) parts ((v, join b'/' parts) ∷ [])

-- The map after the writes, in order.
pub store_all : List (Bytes × Bytes) → Option Params → Option Params
store_all [] m = m
store_all ((k, v) ∷ bs) m = store_all bs (store k v m)

literal_of :
    {v part : Bytes} {more : List Segment} {parts : List Bytes} {bs : List (Bytes × Bytes)}
    → part ≡ v
    → Fits more parts bs
    → Fits (static v ∷ more) (part ∷ parts) bs
literal_of e f = rw e (literal f)

pub match_segments_sound :
    (segs : List Segment) (parts : List Bytes) (m : Option Params)
    → (match_segments segs parts m).0 ≡ true
    → (bs : List (Bytes × Bytes)) × Fits segs parts bs
      × (match_segments segs parts m ≡ (true, store_all bs m))
unfolding match_segments store_all
match_segments_sound [] [] m h = ([], end, refl)
match_segments_sound [] (part ∷ parts) m h = cc
match_segments_sound (static v ∷ more) [] m h = cc
match_segments_sound (static v ∷ more) (part ∷ parts) m h = elim (Bool-cases (text_eq part v)) [
  | inl e ↦
      let (bs, fits, eq) = match_segments_sound more parts m (ground arith) in
      (bs, literal_of ((text_eq_iff part v).0 e) fits, rw e eq)
  | inr e ↦ absurd (ground arith)
]
match_segments_sound (param v ∷ more) [] m h = cc
match_segments_sound (param v ∷ more) (part ∷ parts) m h =
    let (bs, fits, eq) = match_segments_sound more parts (store v part m) h in
    ((v, part) ∷ bs, binds fits, eq)
match_segments_sound (wildcard v ∷ more) parts m h = (_, takes_rest, refl)

pub match_segments_complete :
    {segs : List Segment} {parts : List Bytes} {bs : List (Bytes × Bytes)} (m : Option Params)
    → Fits segs parts bs
    → match_segments segs parts m ≡ (true, store_all bs m)
unfolding match_segments store_all
match_segments_complete m end = refl
match_segments_complete m (literal {v} f) = rw (text_eq_self v) (match_segments_complete m f)
match_segments_complete m (binds {v} {part} f) = match_segments_complete (store v part m) f
match_segments_complete m takes_rest = refl

-- matchSegments succeeds exactly on the paths that fit the pattern, whatever map it is given, and
-- it leaves in the map the bindings of the fit, a later write of a name replacing an earlier one.
pub match_segments_iff :
    (segs : List Segment) (parts : List Bytes) (m r : Option Params)
    → (match_segments segs parts m ≡ (true, r))
      ↔ ((bs : List (Bytes × Bytes)) × Fits segs parts bs × (r ≡ store_all bs m))
match_segments_iff segs parts m r = (forth, back)
  where
    forth :
        match_segments segs parts m ≡ (true, r)
        → (bs : List (Bytes × Bytes)) × Fits segs parts bs × (r ≡ store_all bs m)
    forth h =
        let (bs, fits, eq) = match_segments_sound segs parts m (ap (λ t. t.0) h) in
        (bs, fits, ap (λ t. t.1) (sym h ∙ eq))

    back :
        (bs : List (Bytes × Bytes)) × Fits segs parts bs × (r ≡ store_all bs m)
        → match_segments segs parts m ≡ (true, r)
    back (bs, fits, eq) = rw eq (match_segments_complete m fits)

-- A nil map changes no verdict.
pub match_segments-nil_map :
    (segs : List Segment) (parts : List Bytes) (m : Option Params)
    → (match_segments segs parts none).0 ≡ (match_segments segs parts m).0
unfolding match_segments
match_segments-nil_map [] parts m = refl
match_segments-nil_map (static v ∷ more) [] m = refl
match_segments-nil_map (static v ∷ more) (part ∷ parts) m =
    ground (arith, match_segments-nil_map more parts m)
match_segments-nil_map (param v ∷ more) [] m = refl
match_segments-nil_map (param v ∷ more) (part ∷ parts) m =
    match_segments-nil_map more parts (store v part m)
match_segments-nil_map (wildcard v ∷ more) parts m = refl

-- What a fresh map holds after the writes.
pub insert_all : List (Bytes × Bytes) → Params → Params
insert_all [] m = m
insert_all ((k, v) ∷ bs) m = insert_all bs (insert k v m)

pub store_all-some :
    (bs : List (Bytes × Bytes)) (m : Params) → store_all bs (some m) ≡ some (insert_all bs m)
unfolding store_all insert_all
store_all-some [] m = refl
store_all-some ((k, v) ∷ bs) m = store_all-some bs (insert k v m)
