-- ===== src/Middleware/RateLimit.antt =====
-- middleware/ratelimit.go: the token-bucket limiter. Times are nanoseconds; the zero time is none. The
-- arithmetic of float64, with its rounding, is a parameter.
pub mod Rounding
pub mod Bound
pub mod Apply
use Prim.Native.String.{String}
use bebo.Prelude.{
  ℕ, ◌+◌, ◌-◌, ◌*◌, Bool, true, false, ◌||◌, ◌&&◌, Option, none, some, List, [], ◌∷◌, ltb, leb,
  if◌then◌else◌,
}
use bebo.Prelude.Int.{ℤ, pos, ltb_ℤ, add_nat, sub_nat}
use bebo.Prelude.Dict.{Dict, lookup, insert, string_eq}

-- float64: the conversion of an int, Duration.Seconds, 1, +, -, * and <.
pub record FloatOps (F : Type 0) : Type 0 where
  pub of_int : ℤ → F
  pub seconds : ℤ → F
  pub one : F
  pub plus : F → F → F
  pub minus : F → F → F
  pub times : F → F → F
  pub less : F → F → Bool

pub record Bucket (F : Type 0) : Type 0 where
  pub tokens : F
  pub last : ℕ

pub record Limiter (F : Type 0) : Type 0 where
  pub rate : F
  pub burst : F
  pub buckets : Dict String (Bucket F)
  pub ttl : ℕ
  pub last_cleanup : Option ℕ

-- now.Sub(last) >= ttl
abbrev pub is_idle : ℕ → ℕ → ℕ → Bool
is_idle ttl now last = leb (last + ttl) now

unfoldable pub drop_idle : {F : Type 0} → ℕ → ℕ → Dict String (Bucket F) → Dict String (Bucket F)
drop_idle ttl now [] = []
drop_idle ttl now ((key, b) ∷ m) =
    let rest = drop_idle ttl now m in if is_idle ttl now b.last then rest else (key, b) ∷ rest

unfoldable pub cleanup : {F : Type 0} → Limiter F → ℕ → Limiter F
unfolding drop_idle
cleanup l now = if leb l.ttl 0 then l else record l { buckets = drop_idle l.ttl now l.buckets }

-- l.lastCleanup.IsZero() || now.Sub(l.lastCleanup) >= l.ttl
abbrev pub cleanup_due : Option ℕ → ℕ → ℕ → Bool
cleanup_due none ttl now = true
cleanup_due (some t) ttl now = is_idle ttl now t

unfoldable pub maybe_cleanup : {F : Type 0} → Limiter F → ℕ → Limiter F
unfolding cleanup
maybe_cleanup l now =
    if ltb 0 l.ttl && cleanup_due l.last_cleanup l.ttl now
    then record (cleanup l now) { last_cleanup = some now }
    else l

abbrev pub full : {F : Type 0} → Limiter F → ℕ → Bucket F
full l now = record { tokens = l.burst; last = now }

abbrev found_or : {F : Type 0} → Bucket F → Option (Bucket F) → Bucket F
found_or fresh none = fresh
found_or fresh (some b) = b

-- The key's bucket, a full one for a key that is new or idle.
unfoldable pub bucket_for : {F : Type 0} → Limiter F → String → ℕ → Bucket F
unfolding lookup
bucket_for l key now =
    let b = found_or (full l now) (lookup key l.buckets) in
    if ltb 0 l.ttl && is_idle l.ttl now b.last then full l now else b

module _ {F : Type 0} (f : FloatOps F) where
  -- NewLimiter with the option LimiterTTL(ttl); 0 is no option.
  unfoldable pub new_limiter : F → ℤ → ℕ → Limiter F
  new_limiter rate burst ttl = record {
    rate = rate;
    burst = f.of_int burst;
    buckets = [];
    ttl = ttl;
    last_cleanup = none;
  }

  -- b.tokens += elapsed * rate, where the elapsed time is negative if now is before last
  unfoldable pub refilled : F → Bucket F → ℕ → F
  refilled rate b now = f.plus b.tokens (f.times (f.seconds (sub_nat (pos now) b.last)) rate)

  unfoldable pub capped : F → F → F
  capped burst tokens = if f.less burst tokens then burst else tokens

  -- Refills the bucket up to the burst and takes one token, if there is one.
  unfoldable pub take_token : F → F → Bucket F → ℕ → Bucket F × Bool
  unfolding refilled capped
  take_token rate burst b now =
      let tokens = capped burst (refilled rate b now) in
      if f.less tokens f.one
      then (record { tokens = tokens; last = now }, false)
      else (record { tokens = f.minus tokens f.one; last = now }, true)

  -- The part of Allow on the cleaned limiter: the bucket is used and kept.
  unfoldable pub use_bucket : Limiter F → String → ℕ → Limiter F × Bool
  unfolding bucket_for take_token insert
  use_bucket l key now =
      let (b, allowed) = take_token l.rate l.burst (bucket_for l key now) now in
      (record l { buckets = insert key b l.buckets }, allowed)

  unfoldable pub allow : Limiter F → String → ℕ → Limiter F × Bool
  unfolding maybe_cleanup use_bucket
  allow l key now = use_bucket (maybe_cleanup l now) key now
