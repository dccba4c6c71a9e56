-- ===== src/Redis/Replies.antt =====
-- redis/redis.go: responses as the protocol has them, read by readResponse, and commands.
use bebo.Prelude.{
  ltb, ◌+◌, ◌*◌, ◌≤◌, ℕ, zero, suc, ◌<◌, ◌≡◌, ◌≢◌, refl, ap, ◌∙◌, false, some, [], ◌∷◌, ◌++◌, ◌==◌,
  arith, length, append_assoc,
}
use bebo.Prelude.Int.{ℤ, pos, negsuc, two_63}
use bebo.Prelude.Text.{Bytes, Lacks}
use bebo.Prelude.Result.{ok, ◌>>=◌}
use bebo.Redis.{
  Reply, Items, nil, simple, bulk, integer, array, none_left, item, Read, Platform, read_string,
  trim_line, read_bulk, read_items, read_after, read_response, crlf, number_in, bulk_of, array_of,
}

abbrev pub IsInt64 : ℤ → Type 0
IsInt64 (pos n) = n < two_63
IsInt64 (negsuc n) = n < two_63

-- What is relied on: decimals of int64 are read back and hold no line feed, and the limit of make is
-- below 2^63.
pub record IsPlatform (d : Platform) : Type 0 where
  pub reads : (n : ℤ) → IsInt64 n → d.parse (d.show n) ≡ some n
  pub no_newline : (n : ℤ) → Lacks 10 (d.show n)
  pub limited : d.max_alloc + 2 ≤ two_63

abbrev pub count : Items → ℕ
count none_left = 0
count (item r more) = suc (count more)

module _ (d : Platform) where
  -- A server's text of a response.
  abbrev mutual
    pub encode : Reply → Bytes
    encode nil = b'$' ∷ (d.show (negsuc 0) ++ crlf d)
    encode (simple s) = b'+' ∷ (s ++ crlf d)
    encode (bulk s) = (b'$' ∷ (d.show (pos (length s)) ++ crlf d)) ++ (s ++ crlf d)
    encode (integer n) = b':' ∷ (d.show n ++ crlf d)
    encode (array more) = (b'*' ∷ (d.show (pos (count more)) ++ crlf d)) ++ encode_all more

    pub encode_all : Items → Bytes
    encode_all none_left = []
    encode_all (item r more) = encode r ++ encode_all more

read_string-line :
    (line rest : Bytes)
    → Lacks 10 line
    → read_string (line ++ (13 ∷ 10 ∷ rest)) ≡ ok (line ++ (13 ∷ 10 ∷ []), rest)
unfolding read_string
read_string-line [] rest h = refl
read_string-line (b ∷ line) rest (n, h) =
    let other : (b == 10) ≡ false = ground arith in rw (other, read_string-line line rest h) refl

trim_line-line : (line : Bytes) → trim_line (line ++ (13 ∷ 10 ∷ [])) ≡ line
unfolding trim_line
trim_line-line [] = refl
trim_line-line (a ∷ []) = refl
trim_line-line (a ∷ b ∷ []) = refl
trim_line-line (a ∷ b ∷ c ∷ line) = ap (λ t. a ∷ t) (trim_line-line (b ∷ c ∷ line))

read_bulk-text :
    (s : Bytes) (a b : ℕ) (rest : Bytes) → read_bulk (length s) (s ++ (a ∷ b ∷ rest)) ≡ ok (s, rest)
unfolding read_bulk
read_bulk-text [] a b rest = refl
read_bulk-text (c ∷ s) a b rest = rw (read_bulk-text s a b rest) refl

-- The response is one that the protocol can carry: a simple string holds no line feed, integers are
-- those of int64, make can allocate the bytes of a bulk string and the elements of an array, and arrays
-- are nested no deeper than n.
abbrev mutual
  pub IsWithin : Platform → ℕ → Reply → Type 0
  IsWithin d n nil = Unit
  IsWithin d n (simple s) = Lacks 10 s
  IsWithin d n (bulk s) = length s + 2 ≤ d.max_alloc
  IsWithin d n (integer k) = IsInt64 k
  IsWithin d zero (array more) = ⊥
  IsWithin d (suc n) (array more) = (count more * 16 ≤ d.max_alloc) × AreWithin d n more

  pub AreWithin : Platform → ℕ → Items → Type 0
  AreWithin d n none_left = Unit
  AreWithin d n (item r more) = IsWithin d n r × AreWithin d n more

module _ (d : Platform) (platform : IsPlatform d) where
  pub read_response-line :
      (fuel kind : ℕ) (line rest : Bytes)
      → kind ≢ 10
      → Lacks 10 line
      → read_response d (suc fuel) (kind ∷ (line ++ (13 ∷ 10 ∷ rest)))
        ≡ read_after d (read_response d fuel) (kind ∷ line) rest
  unfolding read_response
  read_response-line fuel kind line rest n h =
      rw (read_string-line (kind ∷ line) rest (n, h), trim_line-line (kind ∷ line)) refl

  after_number : (s rest : Bytes) → (s ++ (13 ∷ 10 ∷ [])) ++ rest ≡ s ++ (13 ∷ 10 ∷ rest)
  after_number s rest = append_assoc s (13 ∷ 10 ∷ []) rest

  number_in-show : (n : ℤ) → IsInt64 n → number_in d (d.show n) ≡ ok n
  number_in-show n small = rw (platform.reads n small, number_in) refl

  read_after-simple :
      (read : Bytes → Read Reply) (s input : Bytes)
      → read_after d read (b'+' ∷ s) input ≡ ok (simple s, input)
  unfolding read_after
  read_after-simple read s input = refl

  read_items-none :
      (read : Bytes → Read Reply) (input : Bytes) → read_items read 0 input ≡ ok (none_left, input)
  unfolding read_items
  read_items-none read input = refl

  read_items-step :
      (read : Bytes → Read Reply) (n : ℕ) (input input' rest : Bytes) (r : Reply) (more : Items)
      → read input ≡ ok (r, input')
      → read_items read n input' ≡ ok (more, rest)
      → read_items read (suc n) input ≡ ok (item r more, rest)
  unfolding read_items
  read_items-step read n input input' rest r more h k = rw (h, k) refl

  module _ (read : Bytes → Read Reply) (n : ℤ) (input : Bytes) (small : IsInt64 n) where
    read_after-integer : read_after d read (b':' ∷ d.show n) input ≡ ok (integer n, input)
    unfolding read_after
    read_after-integer = ap (λ r. r >>= (λ k. ok (integer k, input))) (number_in-show n small)

    pub read_after-bulk : read_after d read (b'$' ∷ d.show n) input ≡ bulk_of d n input
    unfolding read_after
    read_after-bulk = ap (λ r. r >>= (λ k. bulk_of d k input)) (number_in-show n small)

    pub read_after-array : read_after d read (b'*' ∷ d.show n) input ≡ array_of d read n input
    unfolding read_after
    read_after-array = ap (λ r. r >>= (λ k. array_of d read k input)) (number_in-show n small)

  bulk_of-fits :
      (s input : Bytes)
      → length s + 2 ≤ d.max_alloc
      → bulk_of d (pos (length s)) input
        ≡ (read_bulk (length s) input >>= (λ p. ok (bulk p.0, p.1)))
  bulk_of-fits s input small =
      let e : ltb d.max_alloc (length s + 2) ≡ false = ground arith in rw e refl

  array_of-fits :
      (read : Bytes → Read Reply) (n : ℕ) (input : Bytes)
      → n * 16 ≤ d.max_alloc
      → array_of d read (pos n) input ≡ (read_items read n input >>= (λ p. ok (array p.0, p.1)))
  array_of-fits read n input small =
      let e : ltb d.max_alloc (n * 16) ≡ false = ground arith in rw e refl

  read_response-bulk :
      (fuel : ℕ) (s rest : Bytes)
      → length s + 2 ≤ d.max_alloc
      → read_response d (suc fuel) (encode d (bulk s) ++ rest) ≡ ok (bulk s, rest)
  read_response-bulk fuel s rest small =
      let size = d.show (pos (length s)) in
      ap (λ t. read_response d (suc fuel) (b'$' ∷ t))
        (append_assoc (size ++ (13 ∷ 10 ∷ [])) (s ++ (13 ∷ 10 ∷ [])) rest
          ∙ append_assoc size (13 ∷ 10 ∷ []) ((s ++ (13 ∷ 10 ∷ [])) ++ rest)
          ∙ ap (λ t. size ++ (13 ∷ 10 ∷ t)) (after_number s rest))
      ∙ read_response-line fuel b'$' size (s ++ (13 ∷ 10 ∷ rest)) (λ e. omega (arith, e))
          (platform.no_newline (pos (length s)))
      ∙ read_after-bulk (read_response d fuel) (pos (length s)) (s ++ (13 ∷ 10 ∷ rest))
          (omega (arith, platform.limited))
      ∙ bulk_of-fits s (s ++ (13 ∷ 10 ∷ rest)) small
      ∙ ap (λ r. r >>= (λ p. ok (bulk p.0, p.1))) (read_bulk-text s 13 10 rest)

  mutual
    read_response-encode_fuel :
        (r : Reply) (fuel : ℕ) (rest : Bytes)
        → IsWithin d fuel r
        → read_response d (suc fuel) (encode d r ++ rest) ≡ ok (r, rest)
    read_response-encode_fuel nil fuel rest h =
        ap (λ t. read_response d (suc fuel) (b'$' ∷ t)) (after_number (d.show (negsuc 0)) rest)
        ∙ read_response-line fuel b'$' (d.show (negsuc 0)) rest (λ e. omega (arith, e))
            (platform.no_newline (negsuc 0))
        ∙ read_after-bulk (read_response d fuel) (negsuc 0) rest (omega arith)
    read_response-encode_fuel (simple s) fuel rest h =
        ap (λ t. read_response d (suc fuel) (b'+' ∷ t)) (after_number s rest)
        ∙ read_response-line fuel b'+' s rest (λ e. omega (arith, e)) h
        ∙ read_after-simple (read_response d fuel) s rest
    read_response-encode_fuel (bulk s) fuel rest h = read_response-bulk fuel s rest h
    read_response-encode_fuel (integer n) fuel rest h =
        ap (λ t. read_response d (suc fuel) (b':' ∷ t)) (after_number (d.show n) rest)
        ∙ read_response-line fuel b':' (d.show n) rest (λ e. omega (arith, e))
            (platform.no_newline n)
        ∙ read_after-integer (read_response d fuel) n rest h
    read_response-encode_fuel (array more) zero rest h = absurd h
    read_response-encode_fuel (array more) (suc fuel) rest (small, h) =
        let size = d.show (pos (count more)) in
        ap (λ t. read_response d (suc (suc fuel)) (b'*' ∷ t))
          (append_assoc (size ++ (13 ∷ 10 ∷ [])) (encode_all d more) rest
            ∙ append_assoc size (13 ∷ 10 ∷ []) (encode_all d more ++ rest))
        ∙ read_response-line (suc fuel) b'*' size (encode_all d more ++ rest)
            (λ e. omega (arith, e)) (platform.no_newline (pos (count more)))
        ∙ read_after-array (read_response d (suc fuel)) (pos (count more))
            (encode_all d more ++ rest) (omega (arith, platform.limited))
        ∙ array_of-fits (read_response d (suc fuel)) (count more) (encode_all d more ++ rest) small
        ∙ ap (λ r. r >>= (λ p. ok (array p.0, p.1))) (read_items-encode_all more fuel rest h)

    read_items-encode_all :
        (more : Items) (fuel : ℕ) (rest : Bytes)
        → AreWithin d fuel more
        → read_items (read_response d (suc fuel)) (count more) (encode_all d more ++ rest)
          ≡ ok (more, rest)
    read_items-encode_all none_left fuel rest h = read_items-none (read_response d (suc fuel)) rest
    read_items-encode_all (item r more) fuel rest (h, hs) =
        ap (read_items (read_response d (suc fuel)) (suc (count more)))
          (append_assoc (encode d r) (encode_all d more) rest)
        ∙ read_items-step (read_response d (suc fuel)) (count more)
            (encode d r ++ (encode_all d more ++ rest)) (encode_all d more ++ rest) rest r more
            (read_response-encode_fuel r fuel (encode_all d more ++ rest) h)
            (read_items-encode_all more fuel rest hs)

  -- A response that a server writes after the protocol is read back as it is, and what follows it is
  -- left: simple strings without a line feed, bulk strings of any bytes, integers of int64, nil, and arrays
  -- of such, nested no deeper than the bound, with sizes that make can allocate.
  pub read_response-encode :
      (r : Reply) (fuel : ℕ) (rest : Bytes)
      → IsWithin d fuel r
      → read_response d (suc fuel) (encode d r ++ rest) ≡ ok (r, rest)
  read_response-encode r fuel rest h = read_response-encode_fuel r fuel rest h
