-- ===== src/Redis/Commands.antt =====
-- redis/redis.go: commands as a server reads them, and the sizes that make readResponse panic.
use bebo.Prelude.{
  ◌≤◌, ◌+◌, ◌*◌, ℕ, suc, ◌≡◌, refl, sym, ap, ◌∙◌, List, [], ◌∷◌, ◌++◌, arith, length, append_assoc,
  All, subst, ◌<◌,
}
use bebo.Prelude.Int.{pos, negsuc, two_63}
use bebo.Prelude.Text.{Bytes}
use bebo.Prelude.Result.{ok, err}
use bebo.Redis.{
  Items, bulk, array, none_left, item, panics, Platform, read_response, crlf, write_args,
  write_command,
}
use bebo.Redis.Replies.{
  IsPlatform, count, encode, encode_all, AreWithin, read_response-encode, read_response-line,
  read_after-array, read_after-bulk,
}

-- The bulk strings of a command's arguments.
abbrev pub bulks : List Bytes → Items
bulks [] = none_left
bulks (arg ∷ args) = item (bulk arg) (bulks args)

module _ (d : Platform) (platform : IsPlatform d) where
  count-bulks : (args : List Bytes) → count (bulks args) ≡ length args
  count-bulks [] = refl
  count-bulks (arg ∷ args) = ap (λ n. suc n) (count-bulks args)

  write_args-encode : (args : List Bytes) → write_args d args ≡ encode_all d (bulks args)
  unfolding write_args
  write_args-encode [] = refl
  write_args-encode (arg ∷ args) =
      let size = b'$' ∷ (d.show (pos (length arg)) ++ crlf d) in
      ap (λ t. size ++ ((arg ++ crlf d) ++ t)) (write_args-encode args)
      ∙ sym (append_assoc size (arg ++ crlf d) (encode_all d (bulks args)))

  write_command-encode : (args : List Bytes) → write_command d args ≡ encode d (array (bulks args))
  unfolding write_command
  write_command-encode args =
      ap (λ n. (b'*' ∷ (d.show (pos n) ++ crlf d)) ++ write_args d args) (sym (count-bulks args))
      ∙ ap (λ t. (b'*' ∷ (d.show (pos (count (bulks args))) ++ crlf d)) ++ t)
          (write_args-encode args)

  bulks-AreWithin :
      (args : List Bytes)
      → All (λ arg. length arg + 2 ≤ d.max_alloc) args
      → AreWithin d 0 (bulks args)
  bulks-AreWithin [] h = tt
  bulks-AreWithin (arg ∷ args) (small, h) = (small, bulks-AreWithin args h)

  -- What writeCommand sends is read, by a reader of the protocol, as the array of the arguments, with
  -- whatever bytes they hold, and what follows is left: no argument can end a command early. The reader
  -- can allocate the arguments and their array.
  pub read_response-write_command :
      (args : List Bytes) (rest : Bytes)
      → length args * 16 ≤ d.max_alloc
      → All (λ arg. length arg + 2 ≤ d.max_alloc) args
      → read_response d 2 (write_command d args ++ rest) ≡ ok (array (bulks args), rest)
  read_response-write_command args rest few small =
      ap (λ t. read_response d 2 (t ++ rest)) (write_command-encode args)
      ∙ read_response-encode d platform (array (bulks args)) 1 rest (
        subst (λ n. n * 16 ≤ d.max_alloc) (sym (count-bulks args)) few,
        bulks-AreWithin args small,
      )

  -- An array of a negative size, such as the null array "*-1" of the protocol, makes readResponse
  -- panic, and so does a bulk string of a size below -1; the sizes are those of int64.
  pub read_response_negative :
      (n fuel : ℕ) (rest : Bytes)
      → suc n < two_63
      → (read_response d (suc fuel) (b'*' ∷ (d.show (negsuc n) ++ (crlf d ++ rest))) ≡ err panics)
        × (read_response d (suc fuel) (b'$' ∷ (d.show (negsuc (suc n)) ++ (crlf d ++ rest)))
            ≡ err panics)
  read_response_negative n fuel rest small = (
    read_response-line d platform fuel b'*' (d.show (negsuc n)) rest (λ e. omega (arith, e))
          (platform.no_newline (negsuc n))
        ∙ read_after-array d platform (read_response d fuel) (negsuc n) rest (omega arith),
    read_response-line d platform fuel b'$' (d.show (negsuc (suc n))) rest (λ e. omega (arith, e))
          (platform.no_newline (negsuc (suc n)))
        ∙ read_after-bulk d platform (read_response d fuel) (negsuc (suc n)) rest small,
  )
