-- ===== src/Redis/Tests.antt =====
-- redis/redis.go: the theorems with decimals of the numbers below ten.
use bebo.Prelude.{suc, ◌+◌, ◌-◌, ◌≡◌, ◌≢◌, length, Option, none, some, [], ◌∷◌, ◌++◌, arith}
use bebo.Prelude.Int.{ℤ, pos, negsuc}
use bebo.Prelude.Text.{Bytes, bytes, Lacks}
use bebo.Prelude.Result.{ok, err}
use bebo.Redis.{
  Reply, nil, bulk, array, none_left, item, panics, no_fuel, Platform, read_response, crlf,
  write_command,
}
use bebo.Redis.Replies.{IsPlatform, encode, read_response-encode}
use bebo.Redis.Panics.{Oversized, read_response_total}
use bebo.Redis.Commands.{bulks, read_response-write_command, read_response_negative}

-- A small limit, and decimals of one digit: a byte, after a sign if the number is negative.
abbrev one_digit : Platform
one_digit = record { parse = parsed; show = shown; max_alloc = 1000 }
  where
    parsed : Bytes → Option ℤ
    parsed [] = none
    parsed (d ∷ []) = some (pos (d - 48))
    parsed (s ∷ d ∷ more) = some (negsuc (d - 49))

    shown : ℤ → Bytes
    shown (pos n) = (n + 48) ∷ []
    shown (negsuc n) = b'-' ∷ (n + 49) ∷ []

one_digit-IsPlatform : IsPlatform one_digit
one_digit-IsPlatform = record {
  reads = λ n small. reads n;
  no_newline = no_newline;
  limited = omega arith;
}
  where
    reads : (n : ℤ) → one_digit.parse (one_digit.show n) ≡ some n
    reads (pos n) = let back : n + 48 - 48 ≡ n = omega arith in cc
    reads (negsuc n) = let back : n + 49 - 49 ≡ n = omega arith in cc

    no_newline : (n : ℤ) → Lacks 10 (one_digit.show n)
    no_newline (pos n) = ((λ e. omega (arith, e)), tt)
    no_newline (negsuc n) = ((λ e. omega (arith, e)), ((λ e. omega (arith, e)), tt))

abbrev pair : Reply
pair = array (item (bulk (bytes "hi")) (item nil none_left))

read_response-encode_example :
    read_response one_digit 2 (encode one_digit pair ++ bytes "more") ≡ ok (pair, bytes "more")
read_response-encode_example =
    read_response-encode one_digit one_digit-IsPlatform pair 1 (bytes "more")
      (omega arith, (omega arith, (tt, tt)))

read_response-write_command_example :
    read_response one_digit 2 (write_command one_digit (bytes "GET" ∷ (13 ∷ 10 ∷ []) ∷ []) ++ [])
    ≡ ok (array (bulks (bytes "GET" ∷ (13 ∷ 10 ∷ []) ∷ [])), [])
read_response-write_command_example =
    read_response-write_command one_digit one_digit-IsPlatform (bytes "GET" ∷ (13 ∷ 10 ∷ []) ∷ [])
      [] (omega arith) (omega arith, (omega arith, tt))

read_response_negative_example :
    (read_response one_digit 1 (b'*' ∷ (bytes "-1" ++ (crlf one_digit ++ []))) ≡ err panics)
    × (read_response one_digit 1 (b'$' ∷ (bytes "-2" ++ (crlf one_digit ++ []))) ≡ err panics)
read_response_negative_example =
    read_response_negative one_digit one_digit-IsPlatform 0 0 [] (omega arith)

abbrev null_array : Bytes
null_array = bytes "*-1" ++ (13 ∷ 10 ∷ [])

read_response_total_example :
    (read_response one_digit (suc (length null_array)) null_array ≢ err no_fuel)
    × (read_response one_digit (suc (length null_array)) null_array ≡ err panics
        → Oversized one_digit null_array)
read_response_total_example = read_response_total one_digit null_array
