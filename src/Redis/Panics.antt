-- ===== src/Redis/Panics.antt =====
-- redis/redis.go, readResponse: that it ends, and which input makes it panic.
use bebo.Prelude.{
  ℕ, zero, suc, ◌+◌, ◌*◌, ◌<◌, ◌≡◌, ◌≢◌, ◌⊎◌, inl, inr, refl, sym, ap, ◌∙◌, subst, some, [], ◌∷◌,
  ◌++◌, ◌==◌, ltb, arith, length, append_assoc, Bool-cases, Option-cases,
}
use bebo.Prelude.Int.{ℤ, pos, negsuc}
use bebo.Prelude.Text.{Bytes, EndsIn, EndsIn-trans}
use bebo.Prelude.Result.{err, ◌>>=◌, Each, Each-bind, Each-if, Each-map}
use bebo.Redis.{
  RedisError, Reply, Read, no_fuel, panics, Platform, read_string, trim_line, read_bulk, read_items,
  number_in, bulk_of, array_of, read_after, read_response,
}
use bebo.Redis.Fuel.{read_response_fueled}

abbrev Ordinary : RedisError → Type 0
Ordinary e = e ≢ panics

abbrev Leaves : {A : Type 0} → Bytes → A × Bytes → Type 0
Leaves input (x, rest) = EndsIn input rest

abbrev Split : Bytes → Bytes × Bytes → Type 0
Split input (line, rest) = input ≡ line ++ rest

read_string-Each : (input : Bytes) → Each Ordinary (Split input) (read_string input)
unfolding read_string
read_string-Each [] = λ e. cc
read_string-Each (b ∷ input) =
    Each-if Ordinary (Split (b ∷ input)) (b == 10) _ _
      (λ h. let same : b ≡ 10 = ground arith in ap (λ x. x ∷ input) same)
      (λ _.
        Each-bind Ordinary (Split input) (Split (b ∷ input)) (read_string input) _
          (read_string-Each input) (λ p e. ap (λ t. b ∷ t) e))

trim_line-front : (line : Bytes) → (end : Bytes) × (line ≡ trim_line line ++ end)
unfolding trim_line
trim_line-front [] = ([], refl)
trim_line-front (a ∷ []) = ([], refl)
trim_line-front (a ∷ b ∷ []) = elim (Bool-cases (a == 13)) [
  | inr e ↦ ([], rw e refl)
  | inl e ↦ elim (Bool-cases (b == 10)) [
    | inr f ↦ ([], rw (e, f) refl)
    | inl f ↦ (a ∷ b ∷ [], rw (e, f) refl)
  ]
]
trim_line-front (a ∷ b ∷ c ∷ s) =
    let (end, e) = trim_line-front (b ∷ c ∷ s) in (end, ap (λ t. a ∷ t) e)

read_bulk-Each : (n : ℕ) (input : Bytes) → Each Ordinary (Leaves input) (read_bulk n input)
unfolding read_bulk
read_bulk-Each zero [] = λ e. cc
read_bulk-Each zero (a ∷ []) = λ e. cc
read_bulk-Each zero (a ∷ b ∷ input) = (a ∷ b ∷ [], refl)
read_bulk-Each (suc n) [] = λ e. cc
read_bulk-Each (suc n) (b ∷ input) =
    Each-bind Ordinary (Leaves input) (Leaves (b ∷ input)) (read_bulk n input) _
      (read_bulk-Each n input) (λ p (x, e). (b ∷ x, ap (λ t. b ∷ t) e))

module _ (d : Platform) where
  -- The sizes for which a bulk string, and an array, cannot be made.
  abbrev pub BadBulk : ℤ → Type 0
  BadBulk (pos n) = d.max_alloc < n + 2
  BadBulk (negsuc zero) = ⊥
  BadBulk (negsuc (suc n)) = Unit

  abbrev pub BadArray : ℤ → Type 0
  BadArray (pos n) = d.max_alloc < n * 16
  BadArray (negsuc n) = Unit

  -- The input holds, somewhere, a $ or a * with such a size behind it.
  pub data Oversized (input : Bytes) : Type 0 where
    bulk_size :
        (front digits rest : Bytes) (k : ℤ)
        → input ≡ front ++ (b'$' ∷ (digits ++ rest))
        → d.parse digits ≡ some k
        → BadBulk k
        → Oversized input
    array_size :
        (front digits rest : Bytes) (k : ℤ)
        → input ≡ front ++ (b'*' ∷ (digits ++ rest))
        → d.parse digits ≡ some k
        → BadArray k
        → Oversized input

  Oversized-later : (input rest : Bytes) → EndsIn input rest → Oversized rest → Oversized input
  Oversized-later input rest (x, e) (bulk_size front digits more k f p bad) =
      bulk_size (x ++ front) digits more k
        (e ∙ ap (λ t. x ++ t) f ∙ sym (append_assoc x front (b'$' ∷ (digits ++ more)))) p bad
  Oversized-later input rest (x, e) (array_size front digits more k f p bad) =
      array_size (x ++ front) digits more k
        (e ∙ ap (λ t. x ++ t) f ∙ sym (append_assoc x front (b'*' ∷ (digits ++ more)))) p bad

  abbrev Blames : Bytes → RedisError → Type 0
  Blames input e = e ≡ panics → Oversized input

  abbrev Reads : (Bytes → Read Reply) → Type 0
  Reads read = (input : Bytes) → Each (Blames input) (Leaves input) (read input)

  read_items-Each :
      (read : Bytes → Read Reply)
      → Reads read
      → (n : ℕ) (input : Bytes) → Each (Blames input) (Leaves input) (read_items read n input)
  unfolding read_items
  read_items-Each read reads zero input = ([], refl)
  read_items-Each read reads (suc n) input =
      Each-bind (Blames input) (Leaves input) (Leaves input) (read input) _ (reads input) (λ p ends.
        Each-bind (Blames input) (Leaves input) (Leaves input) (read_items read n p.1) _
          (Each-map (Blames p.1) (Blames input) (Leaves p.1) (Leaves input) (read_items read n p.1)
            (λ e blames same. Oversized-later input p.1 ends (blames same))
            (λ q more. EndsIn-trans input p.1 q.1 ends more) (read_items-Each read reads n p.1))
          (λ q more. more))

  bulk_of-Each :
      (k : ℤ) (input : Bytes)
      → Each (λ e. e ≡ panics → BadBulk k) (Leaves input) (bulk_of d k input)
  bulk_of-Each (pos n) input =
      let P : RedisError → Type 0 = λ e. e ≡ panics → BadBulk (pos n) in
      Each-if P (Leaves input) (ltb d.max_alloc (n + 2)) _ _ (λ h e. ground arith)
        (λ _.
          Each-bind P (Leaves input) (Leaves input) (read_bulk n input) _
            (Each-map Ordinary P (Leaves input) (Leaves input) (read_bulk n input)
              (λ e fine same. absurd (fine same)) (λ p h. h) (read_bulk-Each n input))
            (λ p h. h))
  bulk_of-Each (negsuc zero) input = ([], refl)
  bulk_of-Each (negsuc (suc n)) input = λ e. tt

  array_of-Each :
      (read : Bytes → Read Reply)
      → Reads read
      → (k : ℤ) (input : Bytes)
      → Each
          (λ e. e ≡ panics → BadArray k ⊎ Oversized input)
          (Leaves input)
          (array_of d read k input)
  array_of-Each read reads (pos n) input =
      let P : RedisError → Type 0 = λ e. e ≡ panics → BadArray (pos n) ⊎ Oversized input in
      Each-if P (Leaves input) (ltb d.max_alloc (n * 16)) _ _ (λ h e. inl (ground arith))
        (λ _.
          Each-bind P (Leaves input) (Leaves input) (read_items read n input) _
            (Each-map (Blames input) P (Leaves input) (Leaves input) (read_items read n input)
              (λ e blames same. inr (blames same)) (λ p h. h) (read_items-Each read reads n input))
            (λ p h. h))
  array_of-Each read reads (negsuc n) input = λ e. inl tt

  -- Of a number in the line, what follows may use that it has been read.
  number_in-Each :
      (P : RedisError → Type 0) (Q : Reply × Bytes → Type 0) (line : Bytes) (next : ℤ → Read Reply)
      → ((e : RedisError) → Ordinary e → P e)
      → ((k : ℤ) → d.parse line ≡ some k → Each P Q (next k))
      → Each P Q (number_in d line >>= next)
  number_in-Each P Q line next ordinary h = elim (Option-cases (d.parse line)) [
    | inl e ↦ rw (e, number_in) (ordinary _ (λ e'. cc))
    | inr (k, e) ↦ rw (e, number_in) (h k e)
  ]

  module _ (read : Bytes → Read Reply) (reads : Reads read) where
    -- The line, with what stood behind it, is the front of the input.
    read_after-Each :
        (input line end rest : Bytes)
        → input ≡ (line ++ end) ++ rest
        → Each (Blames input) (Leaves input) (read_after d read line rest)
    unfolding read_after
    read_after-Each input [] end rest whole = λ e. absurd (cc)
    read_after-Each input (kind ∷ line) end rest whole =
        let P : RedisError → Type 0 = Blames input in
        let Q : Reply × Bytes → Type 0 = Leaves input in
        let ends : EndsIn input rest = ((kind ∷ line) ++ end, whole) in
        let ordinary : (e : RedisError) → Ordinary e → P e = (λ e fine same. absurd (fine same)) in
        let parts : input ≡ kind ∷ (line ++ (end ++ rest)) =
          whole ∙ ap (λ t. kind ∷ t) (append_assoc line end rest) in
        Each-if P Q (kind == b'+') _ _ (λ _. ends)
          (λ _.
            Each-if P Q (kind == b'-') _ _ (λ _ e. absurd (cc))
              (λ _.
                Each-if P Q (kind == b':') _ _
                  (λ _. number_in-Each P Q line _ ordinary (λ k _. ends))
                  (λ _.
                    Each-if P Q (kind == b'$') _ _
                      (λ h. number_in-Each P Q line _ ordinary (λ k found.
                        Each-map (λ e. e ≡ panics → BadBulk k) P (Leaves rest) Q (bulk_of d k rest)
                          (λ e blames same.
                            let dollar : kind ≡ b'$' = ground arith in
                            bulk_size [] line (end ++ rest) k (rw dollar at parts) found
                              (blames same))
                          (λ q more. EndsIn-trans input rest q.1 ends more) (bulk_of-Each k rest)))
                      (λ _.
                        Each-if P Q (kind == b'*') _ _
                          (λ h. number_in-Each P Q line _ ordinary (λ k found.
                            Each-map (λ e. e ≡ panics → BadArray k ⊎ Oversized rest) P (Leaves rest)
                              Q (array_of d read k rest)
                              (λ e blames same. elim (blames same) [
                                | inl bad ↦
                                    let star : kind ≡ b'*' = ground arith in
                                    array_size [] line (end ++ rest) k (rw star at parts) found bad
                                | inr inside ↦ Oversized-later input rest ends inside
                              ])
                              (λ q more. EndsIn-trans input rest q.1 ends more)
                              (array_of-Each read reads k rest)))
                          (λ _ e. absurd (cc))))))

  read_response-Each : (fuel : ℕ) → Reads (read_response d fuel)
  unfolding read_response
  read_response-Each zero input = λ e. absurd (cc)
  read_response-Each (suc fuel) input =
      Each-bind (Blames input) (Split input) (Leaves input) (read_string input) _
        (Each-map Ordinary (Blames input) (Split input) (Split input) (read_string input)
          (λ e fine same. absurd (fine same)) (λ p h. h) (read_string-Each input))
        (λ p whole.
          let (end, front) = trim_line-front p.0 in
          read_after-Each (read_response d fuel) (read_response-Each fuel) input (trim_line p.0) end
            p.1 (whole ∙ ap (λ t. t ++ p.1) front))

  -- readResponse ends on every input, when the bound on the nesting of arrays is above the number of
  -- bytes: with a response, an error that it returns, or a panic. It panics only if the input holds a $
  -- or a * with a decimal behind it for which it cannot allocate: below -1 for a bulk string, below
  -- 0 for an array, or too large for make.
  pub read_response_total :
      (input : Bytes)
      → (read_response d (suc (length input)) input ≢ err no_fuel)
        × (read_response d (suc (length input)) input ≡ err panics → Oversized input)
  read_response_total input = (
    read_response_fueled d input,
    (λ e.
        subst (Each (Blames input) (Leaves input)) e (read_response-Each (suc (length input)) input)
          refl),
  )
