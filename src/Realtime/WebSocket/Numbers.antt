-- ===== src/Realtime/WebSocket/Numbers.antt =====
-- realtime/websocket.go: numbers as bytes, and masks.
use Prim.Native.Nat.{bit_xor}
use bebo.Prelude.{
  ℕ, zero, suc, ◌+◌, ◌*◌, ◌/◌, ◌%◌, ◌^◌, ◌<◌, ◌≡◌, refl, ◌∙◌, Bool, true, ◌&&◌, [], ◌∷◌, ◌++◌, ◌==◌,
  arith, All, length, length-append,
}
use native.Mathlib.Nat.{pow-suc}
use bebo.Prelude.Int.{two_64}
use bebo.Prelude.Text.{Bytes}
use bebo.Prelude.Result.{ok}
use bebo.Realtime.WebSocket.{mask_byte, unmask, read_full, big_endian, put_uint, read_uint}

abbrev pub IsByte : ℕ → Type 0
IsByte b = b < 256

-- Is masking by m undone by m, for each of the k first bytes, and for each of the k first masks?
undone_row : ℕ → ℕ → Bool
undone_row m zero = true
undone_row m (suc b) = bit_xor (bit_xor b m) m == b && undone_row m b

undone_table : ℕ → ℕ → Bool
unfolding undone_row
undone_table k zero = true
undone_table k (suc m) = undone_row m k && undone_table k m

undone_row_lem : (m k b : ℕ) → b < k → undone_row m k ≡ true → bit_xor (bit_xor b m) m ≡ b
unfolding undone_row
undone_row_lem m zero b less all_undone = absurd (omega arith)
undone_row_lem m (suc k) b less all_undone = ground (arith, undone_row_lem m k b)

undone_table_lem : (w k m : ℕ) → m < k → undone_table w k ≡ true → undone_row m w ≡ true
unfolding undone_table
undone_table_lem w zero m less all_undone = absurd (omega arith)
undone_table_lem w (suc k) m less all_undone = ground (arith, undone_table_lem w k m)

whole_table : undone_table 256 256 ≡ true
unfolding undone_table
whole_table = refl

pub xor_twice : (b m : ℕ) → b < 256 → m < 256 → bit_xor (bit_xor b m) m ≡ b
xor_twice b m hb hm = undone_row_lem m 256 b hb (undone_table_lem 256 256 m hm whole_table)

mask_byte-IsByte : (key : Bytes) (i : ℕ) → All IsByte key → mask_byte key i < 256
mask_byte-IsByte [] i h = omega arith
mask_byte-IsByte (k ∷ key) zero (h, _) = h
mask_byte-IsByte (k ∷ key) (suc i) (_, h) = mask_byte-IsByte key i h

-- Masking is its own inverse.
pub unmask-unmask :
    (key : Bytes) (i : ℕ) (payload : Bytes)
    → All IsByte key
    → All IsByte payload
    → unmask key i (unmask key i payload) ≡ payload
unfolding unmask
unmask-unmask key i [] hk hp = refl
unmask-unmask key i (b ∷ payload) hk (hb, hp) = cc (
  xor_twice b (mask_byte key (i % 4)) hb (mask_byte-IsByte key (i % 4) hk),
  unmask-unmask key (suc i) payload hk hp,
)

pub length-unmask :
    (key : Bytes) (i : ℕ) (payload : Bytes) → length (unmask key i payload) ≡ length payload
unfolding unmask
length-unmask key i [] = refl
length-unmask key i (b ∷ payload) = omega (arith, length-unmask key (suc i) payload)

pub read_full-append : (bs rest : Bytes) → read_full (length bs) (bs ++ rest) ≡ ok (bs, rest)
unfolding read_full
read_full-append [] rest = refl
read_full-append (b ∷ bs) rest = rw (read_full-append bs rest) refl

pub read_full-length :
    (n : ℕ) (bs rest : Bytes) → length bs ≡ n → read_full n (bs ++ rest) ≡ ok (bs, rest)
read_full-length n bs rest h = rw (← h) (read_full-append bs rest)

big_endian-append :
    (v : ℕ) (bs : Bytes) (b : ℕ)
    → big_endian v (bs ++ (b ∷ [])) ≡ (big_endian v bs * 256) % two_64 + b
unfolding big_endian
big_endian-append v [] b = refl
big_endian-append v (a ∷ bs) b = big_endian-append ((v * 256) % two_64 + a) bs b

pub length-put_uint : (k n : ℕ) → length (put_uint k n) ≡ k
unfolding put_uint
length-put_uint zero n = refl
length-put_uint (suc k) n =
    omega (
      arith,
      length-append {0} (put_uint k (n / 256)) ((n % 256) ∷ []),
      length-put_uint k (n / 256),
    )

-- The bytes of a number are read as the number.
pub big_endian-put_uint : (k n : ℕ) → n < 256 ^ k → n < two_64 → big_endian 0 (put_uint k n) ≡ n
unfolding put_uint
big_endian-put_uint zero n h l = unfold big_endian in (omega arith)
big_endian-put_uint (suc k) n h l =
    big_endian-append 0 (put_uint k (n / 256)) (n % 256)
    ∙ omega (arith, big_endian-put_uint k (n / 256) (omega (arith, pow-suc 256 k)) (omega arith))

pub read_uint-put_uint :
    (k n : ℕ) (rest : Bytes)
    → n < 256 ^ k
    → n < two_64
    → read_uint k (put_uint k n ++ rest) ≡ ok (n, rest)
unfolding read_uint
read_uint-put_uint k n rest h l =
    rw (read_full-length k (put_uint k n) rest (length-put_uint k n), big_endian-put_uint k n h l)
      refl
