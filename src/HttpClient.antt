-- ===== src/HttpClient.antt =====
-- httpclient/httpclient.go: requests, responses and errors as the retry and breaker transports see
-- them, and the default deciders.
pub mod Backoff
pub mod Breaker
pub mod Retry
mod Tests
use Prim.Native.String.{String}
use text.Mathlib.Text.{◌==◌ as str_eq}
use bebo.Prelude.{ℕ, Bool, true, false, ◌||◌, Option, none, some, leb, ◌==◌, if◌then◌else◌}

-- What errors.Is tells apart of an error. `other` is any other error of the transport.
pub data HttpError : Type 0 where
  canceled deadline_exceeded circuit_open body_not_replayable : HttpError
  other : ℕ → HttpError

-- A response, and whether its body can still be read.
pub record Response : Type 0 where
  pub status_code : ℕ
  pub body_open : Bool

-- What a RoundTripper returns: either part may be nil.
pub record Reply : Type 0 where
  pub response : Option Response
  pub error : Option HttpError

-- errors.Is(err, context.Canceled) || errors.Is(err, context.DeadlineExceeded)
abbrev pub is_context_error : HttpError → Bool
is_context_error canceled = true
is_context_error deadline_exceeded = true
is_context_error _ = false

unfoldable pub is_idempotent : String → Bool
is_idempotent method =
    str_eq method "GET"
    || str_eq method "HEAD"
    || str_eq method "PUT"
    || str_eq method "DELETE"
    || str_eq method "OPTIONS"
    || str_eq method "TRACE"

-- DefaultRetryDecider at the parts of a reply; the request is not nil.
abbrev retry_parts : Bool → Option Response → Option HttpError → Bool
retry_parts idempotent response (some e) = if is_context_error e then false else idempotent
retry_parts idempotent none none = false
retry_parts idempotent (some r) none =
    if r.status_code == 429 || leb 500 r.status_code then idempotent else false

unfoldable pub default_retry_decider : String → Reply → Bool
unfolding is_idempotent
default_retry_decider method reply = retry_parts (is_idempotent method) reply.response reply.error

abbrev breaker_parts : Option Response → Option HttpError → Bool
breaker_parts response (some e) = if is_context_error e then false else true
breaker_parts none none = false
breaker_parts (some r) none = leb 500 r.status_code

unfoldable pub default_breaker_decider : Reply → Bool
default_breaker_decider reply = breaker_parts reply.response reply.error
