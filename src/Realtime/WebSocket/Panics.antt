-- ===== src/Realtime/WebSocket/Panics.antt =====
-- realtime/websocket.go, ReadMessage: that it ends, and which input makes it panic.
use bebo.Prelude.{ℕ, ◌%◌, ◌≤◌, ◌≡◌, ◌≢◌, ◌∷◌, ◌++◌, length}
use bebo.Prelude.Int.{ℤ, negsuc, two_63}
use bebo.Prelude.Text.{Bytes, EndsIn}
use bebo.Prelude.Result.{Result}
use bebo.Realtime.WebSocket.{ReadError, negative_length, big_endian}

abbrev Ordinary : ReadError → Type 0
Ordinary e = e ≢ negative_length

abbrev Full : ℕ → Bytes → Bytes × Bytes → Type 0
Full n input (bs, rest) = (input ≡ bs ++ rest) × (length bs ≡ n)

abbrev ReadAs : ℕ → Bytes → ℕ × Bytes → Type 0
ReadAs n input (value, rest) =
    (bs : Bytes) × (input ≡ bs ++ rest) × (length bs ≡ n) × (value ≡ big_endian 0 bs)

-- The eight bytes of a length that is negative as an int64.
abbrev IsNegative : ℕ → Bytes → Type 0
IsNegative short bs = (short ≡ 127) × (length bs ≡ 8) × (two_63 ≤ big_endian 0 bs)

abbrev Sized : ℕ → Bytes → ℤ × Bytes → Type 0
Sized short input (len, rest) =
    (bs : Bytes) × (input ≡ bs ++ rest) × ((m : ℕ) → len ≡ negsuc m → IsNegative short bs)

-- A panic comes from a negative length.
abbrev Blames : ℤ → ReadError → Type 0
Blames len e = e ≡ negative_length → (m : ℕ) × (len ≡ negsuc m)

abbrev Leaves : {A : Type 0} → Bytes → A × Bytes → Type 0
Leaves input (x, rest) = EndsIn input rest

-- The input has, after some bytes, a frame whose length stands in eight bytes, as a number of 2^63 or
-- more.
pub data Overlong (input : Bytes) : Type 0 where
  overlong :
      (front : Bytes) (b₁ b₂ : ℕ) (bs rest : Bytes)
      → input ≡ front ++ (b₁ ∷ b₂ ∷ (bs ++ rest))
      → b₂ % 128 ≡ 127
      → length bs ≡ 8
      → two_63 ≤ big_endian 0 bs
      → Overlong input

abbrev BlamesInput : Bytes → ReadError → Type 0
BlamesInput input e = e ≡ negative_length → Overlong input
