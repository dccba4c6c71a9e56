-- ===== src/Redis/Fuel.antt =====
-- redis/redis.go: readResponse ends, since nested arrays take bytes of the input.
use bebo.Prelude.{
  ltb, ◌+◌, ◌*◌, ℕ, zero, suc, ◌≤◌, ◌<◌, ◌≢◌, refl, subst, Bool, true, false, [], ◌∷◌, ◌==◌, arith,
  length, Bool-cases, Option-cases, inl, inr, if◌then◌else◌,
}
use bebo.Prelude.Int.{ℤ, pos, negsuc}
use bebo.Prelude.Text.{Bytes}
use bebo.Prelude.Result.{ok, err, ◌>>=◌}
use bebo.Redis.{
  Reply, bulk, integer, array, Read, no_fuel, Platform, read_string, trim_line, read_bulk,
  read_items, number_in, bulk_of, array_of, read_after, read_response,
}

-- Not the bound on nesting is what made it fail, and at most n bytes are left.
abbrev pub Settles : {A : Type 0} → ℕ → Read A → Type 0
Settles n (err e) = e ≢ no_fuel
Settles n (ok (x, rest)) = length rest ≤ n

Settles-le : {A : Type 0} (m n : ℕ) (r : Read A) → m ≤ n → Settles m r → Settles n r
Settles-le m n (err e) h s = s
Settles-le m n (ok (x, rest)) h s = omega arith

Settles-bind :
    {A B : Type 0} (n : ℕ) (r : Read A) (next : A × Bytes → Read B)
    → Settles n r
    → ((x : A) (rest : Bytes) → length rest ≤ n → Settles n (next (x, rest)))
    → Settles n (r >>= next)
Settles-bind n (err e) next s h = s
Settles-bind n (ok (x, rest)) next s h = h x rest s

Settles-if :
    {A : Type 0} (n : ℕ) (test : Bool) (r s : Read A)
    → Settles n r
    → Settles n s
    → Settles n (if test then r else s)
Settles-if n true r s h k = h
Settles-if n false r s h k = k

read_string-Settles : (input : Bytes) {n : ℕ} → length input ≤ suc n → Settles n (read_string input)
unfolding read_string
read_string-Settles [] h = λ e. cc
read_string-Settles (b ∷ input) {n} h = elim (Bool-cases (b == 10)) [
  | inl e ↦ rw e (omega arith)
  | inr e ↦ rw e (
      Settles-bind n (read_string input) (λ p. ok (b ∷ p.0, p.1))
        (read_string-Settles input (omega arith)) (λ x rest k. k))
]

read_bulk-Settles :
    (k : ℕ) (input : Bytes) (n : ℕ) → length input ≤ n → Settles n (read_bulk k input)
unfolding read_bulk
read_bulk-Settles zero [] n h = λ e. cc
read_bulk-Settles zero (a ∷ []) n h = λ e. cc
read_bulk-Settles zero (a ∷ b ∷ input) n h = omega arith
read_bulk-Settles (suc k) [] n h = λ e. cc
read_bulk-Settles (suc k) (b ∷ input) n h =
    Settles-bind n (read_bulk k input) (λ p. ok (b ∷ p.0, p.1))
      (read_bulk-Settles k input n (omega arith)) (λ x rest l. l)

-- What reads one response settles on every input that is short enough.
abbrev SettlesAll : ℕ → (Bytes → Read Reply) → Type 0
SettlesAll n read = (input : Bytes) → length input ≤ n → Settles n (read input)

read_items-Settles :
    (read : Bytes → Read Reply) (n : ℕ)
    → ((m : ℕ) → m ≤ n → SettlesAll m read)
    → (count : ℕ) (input : Bytes) → length input ≤ n
    → Settles n (read_items read count input)
unfolding read_items
read_items-Settles read n all zero input h = h
read_items-Settles read n all (suc count) input h =
    Settles-bind n (read input) _ (all n (omega arith) input h) (λ first rest k.
      Settles-bind n (read_items read count rest) _ (read_items-Settles read n all count rest k)
        (λ more rest' l. l))

module _ (d : Platform) where
  number_in-Settles :
      (n : ℕ) (line : Bytes) (next : ℤ → Read Reply)
      → ((k : ℤ) → Settles n (next k))
      → Settles n (number_in d line >>= next)
  number_in-Settles n line next h = elim (Option-cases (d.parse line)) [
    | inl e ↦ rw (e, number_in) (λ e'. cc)
    | inr (k, e) ↦ rw (e, number_in) (h k)
  ]

  bulk_of-Settles :
      (k : ℤ) (input : Bytes) (n : ℕ) → length input ≤ n → Settles n (bulk_of d k input)
  bulk_of-Settles (pos k) input n h =
      Settles-if n (ltb d.max_alloc (k + 2)) _ _ (λ e. cc)
        (Settles-bind n (read_bulk k input) (λ p. ok (bulk p.0, p.1))
          (read_bulk-Settles k input n h) (λ x rest l. l))
  bulk_of-Settles (negsuc zero) input n h = h
  bulk_of-Settles (negsuc (suc k)) input n h = λ e. cc

  array_of-Settles :
      (read : Bytes → Read Reply) (k : ℤ) (input : Bytes) (n : ℕ)
      → ((m : ℕ) → m ≤ n → SettlesAll m read)
      → length input ≤ n
      → Settles n (array_of d read k input)
  array_of-Settles read (pos k) input n all h =
      Settles-if n (ltb d.max_alloc (k * 16)) _ _ (λ e. cc)
        (Settles-bind n (read_items read k input) (λ p. ok (array p.0, p.1))
          (read_items-Settles read n all k input h) (λ x rest l. l))
  array_of-Settles read (negsuc k) input n all h = λ e. cc

  read_after-Settles :
      (read : Bytes → Read Reply) (n : ℕ)
      → ((m : ℕ) → m ≤ n → SettlesAll m read)
      → (line input : Bytes) → length input ≤ n
      → Settles n (read_after d read line input)
  unfolding read_after
  read_after-Settles read n all [] input h = λ e. cc
  read_after-Settles read n all (kind ∷ line) input h = Settles-if n (kind == b'+') _ _ h (
      Settles-if n (kind == b'-') _ _ (λ e. cc)
        (Settles-if n (kind == b':') _ _
          (number_in-Settles n line (λ k. ok (integer k, input)) (λ k. h))
          (Settles-if n (kind == b'$') _ _
            (number_in-Settles n line (λ k. bulk_of d k input) (λ k. bulk_of-Settles k input n h))
            (Settles-if n (kind == b'*') _ _
              (number_in-Settles n line (λ k. array_of d read k input)
                (λ k. array_of-Settles read k input n all h))
              (λ e. cc)))))

  read_response-Settles :
      (fuel n : ℕ) (input : Bytes)
      → n < fuel
      → length input ≤ n
      → Settles n (read_response d fuel input)
  unfolding read_response
  read_response-Settles zero n input less h = absurd (omega arith)
  read_response-Settles (suc fuel) zero [] less h = unfold read_string in (λ e. cc)
  read_response-Settles (suc fuel) zero (b ∷ input) less h = absurd (omega arith)
  read_response-Settles (suc fuel) (suc n) input less h = Settles-le n (suc n) _ (omega arith) (
      Settles-bind n (read_string input) _ (read_string-Settles input h) (λ line rest k.
        read_after-Settles (read_response d fuel) n
          (λ m l input' h'. read_response-Settles fuel m input' (omega arith) h') (trim_line line)
          rest k))

  pub read_response_fueled :
      (input : Bytes) → read_response d (suc (length input)) input ≢ err no_fuel
  read_response_fueled input = λ e.
      subst (Settles (length input)) e
        (read_response-Settles (suc (length input)) (length input) input (omega arith)
          (omega arith))
        refl
