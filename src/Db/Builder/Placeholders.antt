-- ===== src/Db/Builder/Placeholders.antt =====
-- db/builder.go: the placeholders of a text, and normalizePlaceholders.
use bebo.Prelude.{
  ℕ, suc, ◌+◌, ◌≡◌, refl, ◌∙◌, List, [], ◌∷◌, ◌++◌, ◌==◌, if◌then◌else◌, arith, Bool-cases, inl,
  inr,
}
use bebo.Prelude.Text.{Bytes, bytes, split}
use bebo.Db.Builder.{question, dollar, join_with, numbered, normalize_placeholders, where_text}

-- The placeholders of a text, and of several.
unfoldable pub marks : Bytes → ℕ
marks [] = 0
marks (a ∷ s) = let rest = marks s in if a == b'?' then suc rest else rest

unfoldable pub total_marks : List Bytes → ℕ
unfolding marks
total_marks [] = 0
total_marks (w ∷ ws) = marks w + total_marks ws

pub marks-append : (s t : Bytes) → marks (s ++ t) ≡ marks s + marks t
unfolding marks
marks-append [] t = omega arith
marks-append (a ∷ s) t = ground (arith, marks-append s t)

pub marks-join_with :
    (sep : Bytes) (ws : List Bytes) → marks sep ≡ 0 → marks (join_with sep ws) ≡ total_marks ws
unfolding total_marks join_with
marks-join_with sep [] h = unfold marks in refl
marks-join_with sep (w ∷ []) h = omega arith
marks-join_with sep (w ∷ v ∷ ws) h = omega (
  arith,
  marks-append w (sep ++ join_with sep (v ∷ ws)),
  marks-append sep (join_with sep (v ∷ ws)),
  marks-join_with sep (v ∷ ws) h,
)

pub marks-where_text : (ws : List Bytes) → marks (where_text ws) ≡ total_marks ws
unfolding where_text
marks-where_text [] = unfold marks total_marks in refl
marks-where_text (w ∷ ws) =
    marks-append (bytes " WHERE ") (join_with (bytes " AND ") (w ∷ ws))
    ∙ (unfold marks in (omega (arith, marks-join_with (bytes " AND ") (w ∷ ws) refl)))

-- The pieces between the placeholders with $1, $2, ... where these stood.
unfoldable pub with_numbers : (ℕ → Bytes) → ℕ → List Bytes → Bytes
with_numbers itoa idx [] = []
with_numbers itoa idx (w ∷ ws) = bytes "$" ++ (itoa idx ++ (w ++ with_numbers itoa (suc idx) ws))

numbered-split :
    (itoa : ℕ → Bytes) (idx : ℕ) (query : Bytes)
    → (w : Bytes) × (ws : List Bytes) × (split b'?' query ≡ w ∷ ws)
      × (numbered itoa idx query ≡ w ++ with_numbers itoa idx ws)
unfolding split numbered with_numbers
numbered-split itoa idx [] = ([], [], refl, refl)
numbered-split itoa idx (a ∷ query) = elim (Bool-cases (a == b'?')) [
  | inl e ↦
      let (w, ws, s, n) = numbered-split itoa (suc idx) query in
      ([], w ∷ ws, rw (e, s) refl, rw (e, n) refl)
  | inr e ↦
      let (w, ws, s, n) = numbered-split itoa idx query in
      (a ∷ w, ws, rw (e, s) refl, rw (e, n) refl)
]

-- For the dollar dialect the first placeholder of a query becomes $1, the next one $2, and so on in
-- order, and what stands between them is kept; for the other dialect the query is kept.
pub normalize_placeholders_lem :
    (itoa : ℕ → Bytes) (query : Bytes)
    → ((w : Bytes) × (ws : List Bytes) × (split b'?' query ≡ w ∷ ws)
        × (normalize_placeholders itoa query dollar ≡ w ++ with_numbers itoa 1 ws))
      × (normalize_placeholders itoa query question ≡ query)
unfolding normalize_placeholders
normalize_placeholders_lem itoa query = (numbered-split itoa 1 query, refl)
