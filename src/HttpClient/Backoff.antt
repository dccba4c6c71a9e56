-- ===== src/HttpClient/Backoff.antt =====
-- httpclient/httpclient.go, ExponentialBackoff: durations are int64 nanoseconds.
use native.Mathlib.Nat.{pow-suc, zero-add, suc-add}
use bebo.Prelude.{
  ap, subst, ◌⊎◌, inl, inr, ℕ, zero, suc, ◌+◌, ◌-◌, ◌*◌, ◌%◌, ◌^◌, ◌≤◌, ◌<◌, ◌≡◌, true, arith,
  if◌then◌else◌, min,
}
use bebo.Prelude.Int.{ℤ, pos, negsuc, is_nonpos, leb_ℤ, ltb_ℤ, shl64, two_63, two_64}

-- 100 * time.Millisecond and 2 * time.Second
abbrev pub default_base : ℤ
default_base = pos 100000000

abbrev pub default_max : ℤ
default_max = pos 2000000000

-- The delay by the attempt's number, for base and max that are positive.
unfoldable pub delay_for : ℤ → ℤ → ℤ → ℤ
unfolding shl64
delay_for base max (negsuc n) = base
delay_for base max (pos zero) = base
delay_for base max (pos (suc k)) =
    let delay = shl64 base k in if ltb_ℤ max delay then max else delay

unfoldable pub exponential_backoff : ℤ → ℤ → ℤ → ℤ
unfolding delay_for
exponential_backoff base max attempt =
    delay_for (if is_nonpos base then default_base else base)
      (if is_nonpos max then default_max else max) attempt

-- While base * 2^k stays below 2^63, the delay before retry k + 1 is base * 2^k, cut off at max.
pub exponential_backoff-exact :
    (base max k : ℕ)
    → 0 < base
    → 0 < max
    → base * 2 ^ k < two_63
    → exponential_backoff (pos base) (pos max) (pos (suc k)) ≡ pos (min (base * 2 ^ k) max)
unfolding exponential_backoff
exponential_backoff-exact base max k hb hm h = ground arith

pow_add : (n j : ℕ) → 2 ^ (n + j) ≡ 2 ^ n * 2 ^ j
pow_add zero j = simp (zero-add) (omega arith)
pow_add (suc n) j =
    rw (suc-add, pow-suc, pow-suc) (omega (arith, ap (λ (t : ℕ). t * 2) (pow_add n j)))

lost_bits : (base j : ℕ) → (base * 2 ^ (64 + j)) % two_64 ≡ 0
lost_bits base j = rw (pow_add 64 j) (omega arith)

-- Past the range of int64 the delay is not capped: where base * 2^k is at least 2^63 and below
-- 2^64 it is negative, and from k = 64 on it is 0, so the caller does not wait at all.
pub exponential_backoff-overflow :
    (base max k : ℕ)
    → 0 < base
    → 0 < max
    → (two_63 ≤ base * 2 ^ k) × (base * 2 ^ k < two_64) ⊎ (64 ≤ k)
    → leb_ℤ (exponential_backoff (pos base) (pos max) (pos (suc k))) (pos 0) ≡ true
unfolding exponential_backoff
exponential_backoff-overflow base max k hb hm (inl h) = ground arith
exponential_backoff-overflow base max k hb hm (inr h) =
    let e : 64 + (k - 64) ≡ k = omega arith in
    let lost = subst (λ t. (base * 2 ^ t) % two_64 ≡ 0) e (lost_bits base (k - 64)) in
    ground (arith, lost)
