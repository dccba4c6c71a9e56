-- ===== src/Router/Pattern.antt =====
-- router/router.go, parsePattern and splitPath: what a parsed pattern looks like, and parsing a
-- printed pattern.
use bebo.Prelude.{
  ◌≡◌, refl, sym, Bool, true, false, List, [], ◌∷◌, arith, is_empty, Bool-cases, inl, inr, ◌↔◌, ◌≢◌,
  All, map,
}
use bebo.Prelude.Text.{
  Bytes, bytes, has_prefix, IsPart, Lacks, join, split-join, trim-join, join-ne-nil, text_eq,
  text_eq_iff,
}
use bebo.Prelude.Result.{Result, ok, >>=-eq-ok}
use bebo.Router.{
  Segment, static, param, wildcard, RouteError, parse_part, parse_parts, parse_pattern, split_path,
}

-- A segment has a text, a literal one does not look like a parameter or a wildcard, and a wildcard
-- is the last segment.
abbrev pub IsWellFormed : List Segment → Type 0
IsWellFormed [] = Unit
IsWellFormed (static v ∷ more) =
    (v ≢ [])
    × (has_prefix v (bytes ":") ≡ false)
    × (has_prefix v (bytes "*") ≡ false)
    × IsWellFormed more
IsWellFormed (param v ∷ more) = (v ≢ []) × IsWellFormed more
IsWellFormed (wildcard v ∷ more) = (v ≢ []) × (more ≡ [])

-- The text of a segment.
abbrev pub part_of : Segment → Bytes
part_of (static v) = v
part_of (param v) = b':' ∷ v
part_of (wildcard v) = b'*' ∷ v

-- What parsing the first part says, given what the others parse to.
parse_part_sound :
    (part : Bytes) (more : List Segment) (last : Bool) (seg : Segment)
    → parse_part part last ≡ ok seg
    → (last ≡ true → more ≡ [])
    → IsWellFormed more
    → (part_of seg ≡ part) × IsWellFormed (seg ∷ more)
unfolding parse_part
parse_part_sound [] more last seg h e w = cc
parse_part_sound (a ∷ []) more last seg h e w = ground arith
parse_part_sound (a ∷ b ∷ part) more last seg h e w = ground arith

parse_part_complete :
    (seg : Segment) (more : List Segment)
    → IsWellFormed (seg ∷ more)
    → parse_part (part_of seg) (is_empty (map part_of more)) ≡ ok seg
unfolding parse_part
parse_part_complete (static []) more (n, _, _, w) = absurd (n refl)
parse_part_complete (static (a ∷ v)) more (n, p, q, w) = ground arith
parse_part_complete (param []) more (n, w) = absurd (n refl)
parse_part_complete (param (a ∷ v)) more (n, w) = ground arith
parse_part_complete (wildcard []) more (n, w) = absurd (n refl)
parse_part_complete (wildcard (a ∷ v)) more (n, w) = rw w (ground arith)

part_of-ne-nil :
    (seg : Segment) (more : List Segment) → IsWellFormed (seg ∷ more) → part_of seg ≢ []
part_of-ne-nil (static v) more w = w.0
part_of-ne-nil (param v) more w = λ e. cc
part_of-ne-nil (wildcard v) more w = λ e. cc

IsWellFormed-tail :
    (seg : Segment) (more : List Segment) → IsWellFormed (seg ∷ more) → IsWellFormed more
IsWellFormed-tail (static v) more w = w.3
IsWellFormed-tail (param v) more w = w.1
IsWellFormed-tail (wildcard v) more w = rw w.1 tt

ok_of : {a b : List Segment} → a ≡ b → ◌≡◌ {A = Result RouteError (List Segment)} (ok a) (ok b)
ok_of e = rw e refl

of_ok : {a b : List Segment} → ◌≡◌ {A = Result RouteError (List Segment)} (ok a) (ok b) → a ≡ b
of_ok e = cc

parse_parts_sound :
    (parts : List Bytes) (segs : List Segment)
    → parse_parts parts ≡ ok segs
    → (map part_of segs ≡ parts) × IsWellFormed segs
unfolding parse_parts
parse_parts_sound [] segs h = rw (← of_ok h) (refl, tt)
parse_parts_sound (part ∷ parts) segs h =
    let (seg, first, h') = >>=-eq-ok (parse_part part (is_empty parts)) _ h in
    let (more, others, last) = >>=-eq-ok (parse_parts parts) _ h' in
    let (texts, w) = parse_parts_sound parts more others in
    let (text, w') =
      parse_part_sound part more (is_empty parts) seg first (ends parts more texts) w in
    rw (← of_ok last) (cc (text, texts), w')
  where
    ends :
        (parts : List Bytes) (more : List Segment)
        → map part_of more ≡ parts
        → is_empty parts ≡ true
        → more ≡ []
    ends parts [] e h = refl
    ends [] (seg ∷ more) e h = cc
    ends (p ∷ parts) (seg ∷ more) e h = cc

parse_parts_complete :
    (segs : List Segment) → IsWellFormed segs → parse_parts (map part_of segs) ≡ ok segs
unfolding parse_parts
parse_parts_complete [] w = refl
parse_parts_complete (seg ∷ more) w =
    rw (parse_part_complete seg more w, parse_parts_complete more (IsWellFormed-tail seg more w))
      refl

parse_pattern-split_path :
    (pattern : Bytes) → parse_pattern pattern ≡ parse_parts (split_path pattern)
unfolding parse_pattern
parse_pattern-split_path pattern = elim (Bool-cases (text_eq pattern (bytes "/"))) [
  | inl e ↦ rw (e, (text_eq_iff pattern (bytes "/")).0 e) (unfold parse_parts split_path in refl)
  | inr e ↦ rw e refl
]

-- parsePattern accepts a pattern with these segments exactly when the parts of the pattern are the
-- segments' texts, and the segments are well formed: none is empty, a literal does not begin with
-- ":" or "*", and a wildcard stands last.
pub parse_pattern_iff :
    (pattern : Bytes) (segs : List Segment)
    → (parse_pattern pattern ≡ ok segs)
      ↔ ((map part_of segs ≡ split_path pattern) × IsWellFormed segs)
parse_pattern_iff pattern segs =
    rw (parse_pattern-split_path pattern)
      (parse_parts_sound (split_path pattern) segs, λ w. rw (← w.0) (parse_parts_complete segs w.1))

-- The text of a pattern.
unfoldable pub print : List Segment → Bytes
print segs = b'/' ∷ join b'/' (map part_of segs)

abbrev pub HasNoSlash : Segment → Type 0
HasNoSlash seg = Lacks b'/' (part_of seg)

pub parts_of :
    (segs : List Segment)
    → IsWellFormed segs
    → All HasNoSlash segs
    → All (IsPart b'/') (map part_of segs)
parts_of [] w h = tt
parts_of (seg ∷ segs) w (h, hs) =
    ((part_of-ne-nil seg segs w, h), parts_of segs (IsWellFormed-tail seg segs w) hs)

pub Lacks-of : (ws : List Bytes) → All (IsPart b'/') ws → All (Lacks b'/') ws
Lacks-of [] h = tt
Lacks-of (w ∷ ws) ((_, h), k) = (h, Lacks-of ws k)

pub is_empty-false : (s : Bytes) → s ≢ [] → is_empty s ≡ false
is_empty-false [] h = absurd (h refl)
is_empty-false (a ∷ s) h = refl

-- The parts of a path are the parts that were joined.
pub split_path-join :
    (ws : List Bytes) → All (IsPart b'/') ws → split_path (b'/' ∷ join b'/' ws) ≡ ws
unfolding split_path
split_path-join [] h = unfold join in refl
split_path-join (w ∷ ws) (p, k) =
    rw (trim-join b'/' w ws (p, k), is_empty-false _ (join-ne-nil b'/' w ws p.0))
      (split-join b'/' w ws (Lacks-of (w ∷ ws) (p, k)))

-- Parsing the text of well-formed segments without slashes gives the segments back.
pub parse_pattern-print :
    (segs : List Segment)
    → IsWellFormed segs
    → All HasNoSlash segs
    → parse_pattern (print segs) ≡ ok segs
unfolding print
parse_pattern-print segs w h =
    (parse_pattern_iff (print segs) segs).1
      (sym (split_path-join (map part_of segs) (parts_of segs w h)), w)
