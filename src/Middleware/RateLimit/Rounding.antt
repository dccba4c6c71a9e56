-- ===== src/Middleware/RateLimit/Rounding.antt =====
-- middleware/ratelimit.go, Limiter.Allow: what one call does to a bucket, up to the rounding of float64.
use bebo.Prelude.{
  ℕ, ◌+◌, ◌-◌, ◌*◌, ◌≤◌, ◌≡◌, refl, ap, Bool, true, false, ◌⊎◌, arith, inl, inr, Bool-cases,
}
use bebo.Prelude.Int.{pos, sub_nat}
use bebo.Prelude.Dict.{string_eq}
use bebo.Middleware.RateLimit.{FloatOps, Bucket, take_token, capped, refilled}

-- What is relied on of float64, for a rate and a burst. Floats that are numbers from 0 on have a value
-- in units so small that it is whole. Comparisons are exact. A refill is exact up to `slack` units,
-- unless the exact sum reaches the burst (the error of a sum grows with the sum), and so is taking one
-- token from at least one and at most the burst; a burst that is not too large is exact.
pub record IsRounding {F : Type 0} (f : FloatOps F) (rate : F) (burst : ℕ) : Type 1 where
  pub IsNumber : F → Type 0
  pub value : F → ℕ
  pub token : ℕ
  pub per_nanosecond : ℕ
  pub slack : ℕ
  pub burst-IsNumber : IsNumber (f.of_int (pos burst))
  pub burst_value : value (f.of_int (pos burst)) ≡ burst * token
  pub less_value : (x y : F) → IsNumber x → IsNumber y → f.less x y ≡ true → value x ≤ value y
  pub not_less_value : (x y : F) → IsNumber x → IsNumber y → f.less x y ≡ false → value y ≤ value x
  pub sum-IsNumber :
      (x : F) (n : ℕ) → IsNumber x → IsNumber (f.plus x (f.times (f.seconds (pos n)) rate))
  pub sum_value :
      (x : F) (n : ℕ)
      → IsNumber x
      → (value (f.plus x (f.times (f.seconds (pos n)) rate)) ≤ value x + n * per_nanosecond + slack)
        ⊎ (burst * token ≤ value x + n * per_nanosecond)
  pub less_one-IsNumber : (x : F) → IsNumber x → f.less x f.one ≡ false → IsNumber (f.minus x f.one)
  pub less_one_value :
      (x : F)
      → IsNumber x
      → value x ≤ burst * token
      → f.less x f.one ≡ false
      → value (f.minus x f.one) + token ≤ value x + slack

abbrev pub granted : Bool → ℕ
granted true = 1
granted false = 0

sub_nat-pos : (n m : ℕ) → m ≤ n → sub_nat (pos n) m ≡ pos (n - m)
sub_nat-pos n m h = ground arith

module _ {F : Type 0} (f : FloatOps F) (rate : F) (burst : ℕ) (r : IsRounding f rate burst) where
  abbrev top : F
  top = f.of_int (pos burst)

  -- The tokens after the refill: no more than the burst, and than what was there and was gained.
  Filled : Bucket F → ℕ → F → Type 0
  Filled b gap x =
      r.IsNumber x
      × (r.value x ≤ burst * r.token)
      × (r.value x ≤ r.value b.tokens + gap * r.per_nanosecond + r.slack)

  refilled-sum :
      (b : Bucket F) (now : ℕ)
      → b.last ≤ now
      → refilled f rate b now ≡ f.plus b.tokens (f.times (f.seconds (pos (now - b.last))) rate)
  unfolding refilled
  refilled-sum b now l =
      ap (λ n. f.plus b.tokens (f.times (f.seconds n) rate)) (sub_nat-pos now b.last l)

  refill-Filled :
      (b : Bucket F) (now : ℕ)
      → r.IsNumber b.tokens
      → b.last ≤ now
      → Filled b (now - b.last) (capped f top (refilled f rate b now))
  unfolding Filled capped
  refill-Filled b now number l =
      let gap = now - b.last in
      let x = f.plus b.tokens (f.times (f.seconds (pos gap)) rate) in
      let x-IsNumber = r.sum-IsNumber b.tokens gap number in
      rw (refilled-sum b now l) (elim (Bool-cases (f.less top x)) [
        | inl e ↦
            let over = r.less_value top x r.burst-IsNumber x-IsNumber e in
            rw e (
              r.burst-IsNumber,
              omega (arith, r.burst_value),
              elim (r.sum_value b.tokens gap number) [
                | inl near ↦ omega (arith, r.burst_value, over, near)
                | inr reached ↦ omega (arith, r.burst_value, reached)
              ],
            )
        | inr e ↦
            let under = r.not_less_value top x r.burst-IsNumber x-IsNumber e in
            rw e (
              x-IsNumber,
              omega (arith, r.burst_value, under),
              elim (r.sum_value b.tokens gap number) [
                | inl near ↦ near
                | inr reached ↦ omega (arith, r.burst_value, under, reached)
              ],
            )
      ])

  abbrev pub Pays : Bucket F → ℕ → Bucket F × Bool → Type 0
  Pays b now (b', ok) =
      r.IsNumber b'.tokens
      × (r.value b'.tokens + granted ok * r.token ≤ burst * r.token + r.slack)
      × (r.value b'.tokens + granted ok * r.token
          ≤ r.value b.tokens + (now - b.last) * r.per_nanosecond + (r.slack + r.slack))
      × (b'.last ≡ now)

  -- One call pays for what it grants, from what was there and was gained, and from the burst.
  pub take_token-Pays :
      (b : Bucket F) (now : ℕ)
      → r.IsNumber b.tokens
      → b.last ≤ now
      → Pays b now (take_token f rate top b now)
  unfolding take_token Filled
  take_token-Pays b now number l =
      let x = capped f top (refilled f rate b now) in
      let (x-IsNumber, at_most, gained) = refill-Filled b now number l in
      elim (Bool-cases (f.less x f.one)) [
        | inl e ↦ rw e (x-IsNumber, omega (arith, at_most), omega (arith, gained), refl)
        | inr e ↦
            let taken = r.less_one_value x x-IsNumber at_most e in
            rw e (
              r.less_one-IsNumber x x-IsNumber e,
              omega (arith, at_most, taken),
              omega (arith, gained, taken),
              refl,
            )
      ]
