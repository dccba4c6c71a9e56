-- ===== src/Middleware/RateLimit/Apply.antt =====
-- middleware/ratelimit.go, applyRateLimit and clientIPKey: what the middleware does with a request.
use bebo.Prelude.{
  ℕ, ◌≡◌, refl, ◌/◌, Bool, true, false, Option, none, some, List, [], ◌∷◌, ltb, if◌then◌else◌,
  arith, is_empty, ◌⊎◌, inl, inr, ◌↔◌,
}
use bebo.Prelude.Text.{Bytes, split}
use bebo.Prelude.Ascii.{trim_space, split_host_port}

-- Errors by their apperr code; `internal` wraps an error that is none of apperr's.
pub data AppError : Type 0 where
  not_configured limiter_error rate_limited : AppError
  app_error : ℕ → AppError

-- An error of the allow function: one of apperr's, or any other.
pub data AllowError : Type 0 where
  app : ℕ → AllowError
  foreign : AllowError

-- What the allow function returns.
pub data Verdict : Type 0 where
  allowed denied : Verdict
  failed : AllowError → Verdict

-- Who answers the request: the next handler, the limit handler, the error handler, or the
-- middleware by an error. The Retry-After header is set to a number of seconds, if at all.
pub data Answer : Type 0 where
  next on_limit : Answer
  on_error : AllowError → Answer
  returns : AppError → Answer

pub record Config : Type 0 where
  pub has_on_limit : Bool
  pub has_on_error : Bool
  -- nanoseconds
  pub retry_after : ℕ
  pub fail_open : Bool

pub record Handled : Type 0 where
  pub answer : Answer
  pub retry_header : Option ℕ

-- formatRetryAfter: whole seconds, at least one.
unfoldable pub retry_seconds : ℕ → ℕ
retry_seconds duration = let s = duration / 1000000000 in if ltb s 1 then 1 else s

abbrev retry_header_for : ℕ → Option ℕ
retry_header_for after = if ltb 0 after then some (retry_seconds after) else none

abbrev wrapped : AllowError → AppError
wrapped (app code) = app_error code
wrapped foreign = limiter_error

abbrev on_failure : Config → AllowError → Answer
on_failure cfg e =
    if cfg.has_on_error then on_error e else if cfg.fail_open then next else returns (wrapped e)

abbrev on_verdict : Config → Verdict → Handled
on_verdict cfg allowed = record { answer = next; retry_header = none }
on_verdict cfg (failed e) = record { answer = on_failure cfg e; retry_header = none }
on_verdict cfg denied = record {
  answer = if cfg.has_on_limit then on_limit else returns rate_limited;
  retry_header = retry_header_for cfg.retry_after;
}

-- none is a nil allow function; the verdict is only asked for where there is a key.
unfoldable pub apply_rate_limit : Config → Bytes → Option (Bytes → Verdict) → Handled
apply_rate_limit cfg key none = record { answer = returns not_configured; retry_header = none }
apply_rate_limit cfg key (some allow) =
    if is_empty key
    then record { answer = next; retry_header = none }
    else on_verdict cfg (allow key)

abbrev first_or_nil : List Bytes → Bytes
first_or_nil [] = []
first_or_nil (w ∷ _) = w

abbrev host_or_addr : Option (Bytes × Bytes) → Bytes → Bytes
host_or_addr none addr = addr
host_or_addr (some (host, _)) addr = host

-- clientIPKey, by the X-Forwarded-For header and the remote address.
unfoldable pub client_ip_key : Bytes → Bytes → Bytes
unfolding split trim_space split_host_port
client_ip_key forwarded addr =
    if is_empty forwarded
    then host_or_addr (split_host_port addr) addr
    else trim_space (first_or_nil (split b',' forwarded))

abbrev LetsThrough : Config → Verdict → Type 0
LetsThrough cfg v =
    (v ≡ allowed)
    ⊎ ((e : AllowError) × (v ≡ failed e) × (cfg.has_on_error ≡ false) × (cfg.fail_open ≡ true))

on_verdict-next :
    (cfg : Config) (v : Verdict) → (on_verdict cfg v).answer ≡ next → LetsThrough cfg v
on_verdict-next cfg allowed h = inl refl
on_verdict-next cfg denied h = absurd (ground arith)
on_verdict-next cfg (failed e) h = inr (e, refl, ground arith, ground arith)

LetsThrough-on_verdict :
    (cfg : Config) (v : Verdict) → LetsThrough cfg v → (on_verdict cfg v).answer ≡ next
LetsThrough-on_verdict cfg v (inl e) = rw e refl
LetsThrough-on_verdict cfg v (inr (e, f, a, b)) = rw f (rw (a, b) refl)

-- The next handler runs exactly for a request that has no key, that is allowed, or whose check
-- failed with no error handler while failing open is on.
pub apply_rate_limit-next_iff :
    (cfg : Config) (key : Bytes) (allow : Bytes → Verdict)
    → ((apply_rate_limit cfg key (some allow)).answer ≡ next) ↔ (
        (key ≡ [])
        ⊎ (allow key ≡ allowed)
        ⊎ ((e : AllowError) × (allow key ≡ failed e)
            × (cfg.has_on_error ≡ false)
            × (cfg.fail_open ≡ true)))
unfolding apply_rate_limit
apply_rate_limit-next_iff cfg [] allow = (λ _. inl refl, λ _. refl)
apply_rate_limit-next_iff cfg (c ∷ key) allow =
    (λ h. inr (on_verdict-next cfg (allow (c ∷ key)) h), back)
  where
    back :
        (c ∷ key ≡ []) ⊎ LetsThrough cfg (allow (c ∷ key))
        → (on_verdict cfg (allow (c ∷ key))).answer ≡ next
    back (inl e) = cc
    back (inr h) = LetsThrough-on_verdict cfg (allow (c ∷ key)) h
