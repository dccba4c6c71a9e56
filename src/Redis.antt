-- ===== src/Redis.antt =====
-- redis/redis.go: the protocol of a connection. What can be read is a byte list; the deadlines do not
-- pass and writes succeed. strconv.Atoi and strconv.ParseInt, the decimal of fmt, and the limit of make
-- are parameters.
pub mod Replies
pub mod Commands
pub mod Fuel
pub mod Panics
mod Tests
use bebo.Prelude.{
  ℕ, zero, suc, ◌+◌, ◌*◌, ltb, Bool, true, false, Option, none, some, List, [], ◌∷◌, ◌++◌, ◌==◌,
  if◌then◌else◌, length,
}
use bebo.Prelude.Int.{ℤ, pos, negsuc}
use bebo.Prelude.Text.{Bytes, bytes}
use bebo.Prelude.Result.{Result, ok, err, ◌>>=◌}

-- The errors of a connection; `panics` stands for make with a negative or too large size and for a
-- slice with a negative bound, `no_fuel` for a bound on nested arrays that is too low.
pub data RedisError : Type 0 where
  end_of_input empty_response unknown_response not_a_number redis_nil panics no_fuel : RedisError
  server : Bytes → RedisError

-- A response, and the items of an array.
mutual
  pub data Reply : Type 0 where
    nil : Reply
    simple bulk : Bytes → Reply
    integer : ℤ → Reply
    array : Items → Reply

  pub data Items : Type 0 where
    none_left : Items
    item : Reply → Items → Items

-- What is read of the input, and the rest of it.
abbrev pub Read : Type 0 → Type 0
Read A = Result RedisError (A × Bytes)

-- strconv and fmt on numbers, and how many bytes make can allocate at most, a limit far below 2^63
-- beyond which it panics. That there is memory up to this limit is not modelled.
pub record Platform : Type 0 where
  pub parse : Bytes → Option ℤ
  pub show : ℤ → Bytes
  pub max_alloc : ℕ

-- bufio.ReadString('\n')
unfoldable pub read_string : Bytes → Read Bytes
read_string [] = err end_of_input
read_string (b ∷ input) =
    let rest = read_string input in
    if b == 10 then ok (10 ∷ [], input) else (do (line, left) ← rest; ok (b ∷ line, left))

-- strings.TrimSuffix(line, "\r\n")
unfoldable pub trim_line : Bytes → Bytes
trim_line [] = []
trim_line (a ∷ []) = a ∷ []
trim_line (a ∷ b ∷ []) = if a == 13 then (if b == 10 then [] else a ∷ b ∷ []) else a ∷ b ∷ []
trim_line (a ∷ b ∷ c ∷ s) = a ∷ trim_line (b ∷ c ∷ s)

-- io.ReadFull of n + 2 bytes, without the last two
unfoldable pub read_bulk : ℕ → Bytes → Read Bytes
read_bulk zero (a ∷ b ∷ input) = ok ([], input)
read_bulk zero (a ∷ []) = err end_of_input
read_bulk zero [] = err end_of_input
read_bulk (suc n) [] = err end_of_input
read_bulk (suc n) (b ∷ input) = do (bs, rest) ← read_bulk n input; ok (b ∷ bs, rest)

-- The loop over the items of an array, with what reads one of them.
unfoldable pub read_items : (Bytes → Read Reply) → ℕ → Bytes → Read Items
read_items read zero input = ok (none_left, input)
read_items read (suc count) input = do
  (first, input') ← read input
  (more, rest) ← read_items read count input'
  ok (item first more, rest)

module _ (d : Platform) where
  abbrev pub number_in : Bytes → Result RedisError ℤ
  number_in line = elim (d.parse line) [ none ↦ err not_a_number | some n ↦ ok n ]

  -- A length of -1 is the nil response; other negative ones panic, and so do those that are too large,
  -- among them those where length+2 wraps around.
  abbrev pub bulk_of : ℤ → Bytes → Read Reply
  bulk_of (pos n) input =
      if ltb d.max_alloc (n + 2)
      then err panics
      else (do (bs, rest) ← read_bulk n input; ok (bulk bs, rest))
  bulk_of (negsuc zero) input = ok (nil, input)
  bulk_of (negsuc (suc n)) input = err panics

  -- An element of a []any takes 16 bytes.
  abbrev pub array_of : (Bytes → Read Reply) → ℤ → Bytes → Read Reply
  array_of read (pos n) input =
      if ltb d.max_alloc (n * 16)
      then err panics
      else (do (more, rest) ← read_items read n input; ok (array more, rest))
  array_of read (negsuc n) input = err panics

  -- readResponse after the line, by its first byte.
  unfoldable pub read_after : (Bytes → Read Reply) → Bytes → Bytes → Read Reply
  unfolding read_bulk read_items
  read_after read [] input = err empty_response
  read_after read (kind ∷ line) input =
      if kind == b'+'
      then ok (simple line, input)
      else if kind == b'-'
      then err (server line)
      else if kind == b':'
      then (do n ← number_in line; ok (integer n, input))
      else if kind == b'$'
      then (do n ← number_in line; bulk_of n input)
      else if kind == b'*'
      then (do n ← number_in line; array_of read n input)
      else err unknown_response

  -- readResponse, with a bound on how deep arrays are nested.
  unfoldable pub read_response : ℕ → Bytes → Read Reply
  unfolding read_string trim_line read_after
  read_response zero input = err no_fuel
  read_response (suc fuel) input = do
    (line, rest) ← read_string input
    read_after (read_response fuel) (trim_line line) rest

  abbrev pub crlf : Bytes
  crlf = 13 ∷ 10 ∷ []

  unfoldable pub write_args : List Bytes → Bytes
  write_args [] = []
  write_args (arg ∷ args) =
      (b'$' ∷ (d.show (pos (length arg)) ++ crlf)) ++ ((arg ++ crlf) ++ write_args args)

  -- writeCommand: what it flushes.
  unfoldable pub write_command : List Bytes → Bytes
  unfolding write_args
  write_command args = (b'*' ∷ (d.show (pos (length args)) ++ crlf)) ++ write_args args

  -- DoContext on the response of the server: nil is an error.
  unfoldable pub response_of : Read Reply → Result RedisError Reply
  response_of (err e) = err e
  response_of (ok (nil, rest)) = err redis_nil
  response_of (ok (simple s, rest)) = ok (simple s)
  response_of (ok (bulk s, rest)) = ok (bulk s)
  response_of (ok (integer n, rest)) = ok (integer n)
  response_of (ok (array more, rest)) = ok (array more)
