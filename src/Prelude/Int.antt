-- ===== src/Prelude/Int.antt =====
-- Signed integers over the native numbers, under the library's names, and Go's int64 as the
-- integers between -2^63 and 2^63 - 1.
use Prim.Native.Nat.{ℕ, suc, ◌+◌, ◌-◌, ◌*◌, ◌%◌, ◌^◌}
use mathlib.Core.Path.{◌≡◌, refl}
use mathlib.Core.Logic.{◌↔◌, ◌≢◌}
use mathlib.Core.Bool.{Bool, true, false}
use native.Mathlib.Omega.{arith}
use bebo.Prelude.Tests.{ltb, leb, ◌==◌, if◌then◌else◌}

-- `negsuc n` is -(n + 1).
pub data ℤ : Type 0 where
  pos : ℕ → ℤ
  negsuc : ℕ → ℤ

-- n <= 0
abbrev pub is_nonpos : ℤ → Bool
is_nonpos (pos n) = n == 0
is_nonpos (negsuc n) = true

-- a <= b and a < b
abbrev pub leb_ℤ : ℤ → ℤ → Bool
leb_ℤ (pos a) (pos b) = leb a b
leb_ℤ (pos a) (negsuc b) = false
leb_ℤ (negsuc a) (pos b) = true
leb_ℤ (negsuc a) (negsuc b) = leb b a

abbrev pub ltb_ℤ : ℤ → ℤ → Bool
ltb_ℤ (pos a) (pos b) = ltb a b
ltb_ℤ (pos a) (negsuc b) = false
ltb_ℤ (negsuc a) (pos b) = true
ltb_ℤ (negsuc a) (negsuc b) = ltb b a

abbrev pub two_63 : ℕ
two_63 = 9223372036854775808

abbrev pub two_64 : ℕ
two_64 = 18446744073709551616

-- The int64 whose bits are those of n.
abbrev pub to_int64 : ℕ → ℤ
to_int64 n = let low = n % two_64 in if ltb low two_63 then pos low else negsuc (two_64 - low - 1)

-- a << k at int64, for a that is not negative (bits above the 64th are lost), and for a negative a.
unfoldable pub shl64 : ℤ → ℕ → ℤ
shl64 (pos a) k = to_int64 (a * 2 ^ k)
shl64 (negsuc a) k = to_int64 ((two_64 - (suc a % two_64)) * 2 ^ k)

-- a + n and a - n, for a number n.
abbrev pub add_nat : ℤ → ℕ → ℤ
add_nat (pos a) n = pos (a + n)
add_nat (negsuc a) n = if leb (suc a) n then pos (n - suc a) else negsuc (a - n)

abbrev pub sub_nat : ℤ → ℕ → ℤ
sub_nat (pos a) n = if leb n a then pos (a - n) else negsuc (n - a - 1)
sub_nat (negsuc a) n = negsuc (a + n)

abbrev pub eq_ℤ : ℤ → ℤ → Bool
eq_ℤ (pos a) (pos b) = a == b
eq_ℤ (negsuc a) (negsuc b) = a == b
eq_ℤ _ _ = false

pub eq_ℤ_iff : (a b : ℤ) → (eq_ℤ a b ≡ true) ↔ (a ≡ b)
eq_ℤ_iff (pos a) (pos b) = ground arith
eq_ℤ_iff (pos a) (negsuc b) = ground arith
eq_ℤ_iff (negsuc a) (pos b) = ground arith
eq_ℤ_iff (negsuc a) (negsuc b) = ground arith

-- With neither a < b nor a = b, b < a.
pub ltb_ℤ_total : (a b : ℤ) → ltb_ℤ a b ≡ false → a ≢ b → ltb_ℤ b a ≡ true
ltb_ℤ_total (pos a) (pos b) h n = ground arith
ltb_ℤ_total (pos a) (negsuc b) h n = refl
ltb_ℤ_total (negsuc a) (pos b) h n = cc
ltb_ℤ_total (negsuc a) (negsuc b) h n = ground arith

pub ltb_ℤ_trans : (a b c : ℤ) → ltb_ℤ a b ≡ true → ltb_ℤ b c ≡ true → ltb_ℤ a c ≡ true
ltb_ℤ_trans a b c h k = ground arith

pub ltb_ℤ_ne : (a b : ℤ) → ltb_ℤ a b ≡ true → a ≢ b
ltb_ℤ_ne a b h = λ e. ground arith
