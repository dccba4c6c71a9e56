-- ===== src/Middleware/Tests.antt =====
-- middleware/ratelimit.go and cache.go: the theorems at a small limiter and a short handler.
use bebo.Prelude.{
  ℕ, ltb, length, inl, refl, none, some, ◌≡◌, true, List, ◌+◌, ◌-◌, ◌*◌, ◌≤◌, [], ◌∷◌, arith,
}
use bebo.Prelude.Int.{ℤ, pos, negsuc}
use bebo.Prelude.Text.{Bytes, bytes}
use bebo.App.Errors.{Error, plain}
use bebo.App.Response.{Client, write, set_header}
use bebo.Middleware.Etag.{Call, acts, etag_serve}
use bebo.Middleware.Etag.Served.{Served, Discarded, etag_serve-Served}
use bebo.Middleware.RateLimit.{FloatOps, new_limiter}
use bebo.Middleware.RateLimit.Rounding.{IsRounding}
use bebo.Middleware.RateLimit.Bound.{Calls, grants, after, grants-le_burst_and_rate}

-- Numbers of billionths of a token, with sums that are one unit too large.
abbrev rounding : FloatOps ℕ
rounding = record {
  of_int = whole;
  seconds = length_of;
  one = 1000000000;
  plus = λ a b. a + b + 1;
  minus = λ a b. a - b;
  times = λ a b. a * b;
  less = ltb;
}
  where
    whole : ℤ → ℕ
    whole (pos n) = n * 1000000000
    whole (negsuc n) = 0

    length_of : ℤ → ℕ
    length_of (pos n) = n
    length_of (negsuc n) = 0

-- One token a second, and a burst of one.
abbrev one_a_second : IsRounding rounding 1 1
one_a_second = record {
  IsNumber = λ x. Unit;
  value = λ x. x;
  token = 1000000000;
  per_nanosecond = 1;
  slack = 1;
  burst-IsNumber = tt;
  burst_value = refl;
  less_value = λ x y h k e. ground arith;
  not_less_value = λ x y h k e. ground arith;
  sum-IsNumber = λ x n h. tt;
  sum_value = λ x n h. inl (omega arith);
  less_one-IsNumber = λ x h e. tt;
  less_one_value = λ x h small e. ground arith;
}

abbrev earlier_calls : Calls
earlier_calls = ("a", 1) ∷ ("b", 3) ∷ []

abbrev calls : Calls
calls = ("a", 5) ∷ ("b", 5) ∷ ("a", 6) ∷ ("a", 2000000006) ∷ []

grants-le_burst_and_rate_example :
    grants rounding "a" (after rounding (new_limiter rounding 1 (pos 1) 0) earlier_calls) calls
      * one_a_second.token
    ≤ 1 * one_a_second.token
      + (2000000010 - 5) * one_a_second.per_nanosecond
      + length calls * (2 * one_a_second.slack)
grants-le_burst_and_rate_example =
    grants-le_burst_and_rate rounding 1 1 one_a_second "a" earlier_calls calls 0 5 2000000010
      (omega arith, (omega arith, omega arith))
      (omega arith, (omega arith, (omega arith, (omega arith, omega arith))))

-- In place of a hash: the first byte, in quotes.
abbrev quoted_first : Bytes → Bytes
quoted_first [] = bytes "\"\""
quoted_first (b ∷ bs) = b'"' ∷ b ∷ b'"' ∷ []

abbrev untouched : Client
untouched = record { header = []; sent = none; body = [] }

abbrev handler_calls : List Call
handler_calls =
    acts (set_header (bytes "Content-Type") (bytes "text/plain"))
    ∷ acts (write (bytes "hello, "))
    ∷ acts (write (bytes "world"))
    ∷ []

abbrev broken : Error
broken = plain (bytes "broken")

etag_serve-Served_example :
    ((etag_serve quoted_first true
        (bytes "GET")
        (bytes "x, W/\"h\"")
        (pos 100)
        handler_calls
        none
        untouched).1
      ≡ none)
    × Served quoted_first true
        (bytes "GET")
        (bytes "x, W/\"h\"")
        (bytes "hello, world")
        (etag_serve quoted_first true
          (bytes "GET")
          (bytes "x, W/\"h\"")
          (pos 100)
          handler_calls
          none
          untouched).0
    × ((etag_serve quoted_first true
          (bytes "GET")
          (bytes "x, W/\"h\"")
          (pos 100)
          handler_calls
          (some broken)
          untouched).1
        ≡ some broken)
    × Discarded quoted_first true
        (bytes "GET")
        (bytes "x, W/\"h\"")
        (bytes "hello, world")
        (etag_serve quoted_first true
          (bytes "GET")
          (bytes "x, W/\"h\"")
          (pos 100)
          handler_calls
          (some broken)
          untouched).0
etag_serve-Served_example =
    etag_serve-Served quoted_first true (bytes "GET") (bytes "x, W/\"h\"") (pos 100) handler_calls
      untouched broken refl refl
