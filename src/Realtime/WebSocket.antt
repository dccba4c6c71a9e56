-- ===== src/Realtime/WebSocket.antt =====
-- realtime/websocket.go: frames on a WebSocket connection. What can be read is a byte list, and what
-- has been written is another one, with the part that bufio still holds back; writes succeed, and
-- the deadlines do not pass; make succeeds for the limit of a connection. `b & 0x80 != 0`, `b & 0x0F` and `b & 0x7F` of a byte are written by
-- `/` and `%`.
pub mod Numbers
pub mod Frames
pub mod Written
pub mod Messages
pub mod Panics
use Prim.Native.Nat.{bit_xor}
use bebo.Prelude.{
  ℕ, zero, suc, ◌+◌, ◌-◌, ◌*◌, ◌/◌, ◌%◌, Bool, true, false, not, ◌&&◌, ◌||◌, Option, none, some,
  List, [], ◌∷◌, ◌++◌, ltb, leb, ◌==◌, if◌then◌else◌, length,
}
use bebo.Prelude.Int.{ℤ, pos, negsuc, ltb_ℤ, to_int64, two_64}
use bebo.Prelude.Text.{Bytes, bytes}
use bebo.Prelude.Result.{Result, ok, err, ◌>>=◌}

-- The errors of the reader. `negative_length` is the panic of make([]byte, n) for a negative n.
pub data ReadError : Type 0 where
  end_of_input fragmented unmasked too_large control_too_large negative_length closed : ReadError

abbrev pub op_continuation : ℕ
op_continuation = 0

abbrev pub op_text : ℕ
op_text = 1

abbrev pub op_close : ℕ
op_close = 8

abbrev pub op_ping : ℕ
op_ping = 9

abbrev pub op_pong : ℕ
op_pong = 10

-- What is read of the input, and the rest of it.
abbrev pub Read : Type 0 → Type 0
Read A = Result ReadError (A × Bytes)

unfoldable pub read_byte : Bytes → Read ℕ
read_byte [] = err end_of_input
read_byte (b ∷ input) = ok (b, input)

-- io.ReadFull of n bytes
unfoldable pub read_full : ℕ → Bytes → Read Bytes
read_full zero input = ok ([], input)
read_full (suc n) [] = err end_of_input
read_full (suc n) (b ∷ input) = do (bs, rest) ← read_full n input; ok (b ∷ bs, rest)

-- value << 8 | b over the bytes of a uint64
unfoldable pub big_endian : ℕ → Bytes → ℕ
big_endian value [] = value
big_endian value (b ∷ bs) = big_endian ((value * 256) % two_64 + b) bs

unfoldable pub read_uint : ℕ → Bytes → Read ℕ
unfolding read_full big_endian
read_uint n input = do (bs, rest) ← read_full n input; ok (big_endian 0 bs, rest)

-- The length after the second byte, and what is left.
unfoldable pub read_length : ℕ → Bytes → Read ℤ
unfolding read_uint
read_length short input =
    if short == 126
    then (do (n, rest) ← read_uint 2 input; ok (pos n, rest))
    else if short == 127
    then (do (n, rest) ← read_uint 8 input; ok (to_int64 n, rest))
    else ok (pos short, input)

abbrev pub mask_byte : Bytes → ℕ → ℕ
mask_byte [] i = 0
mask_byte (k ∷ key) zero = k
mask_byte (k ∷ key) (suc i) = mask_byte key i

-- payload[i] ^= maskKey[i%4], from i on
unfoldable pub unmask : Bytes → ℕ → Bytes → Bytes
unmask key i [] = []
unmask key i (b ∷ payload) = bit_xor b (mask_byte key (i % 4)) ∷ unmask key (suc i) payload

-- make([]byte, payloadLen) with io.ReadFull
abbrev pub read_payload : ℤ → Bytes → Read Bytes
read_payload (pos n) input = read_full n input
read_payload (negsuc n) input = err negative_length

-- readFrame after the length is known.
unfoldable pub read_body : ℕ → ℕ → ℤ → Bytes → Read (ℕ × Bytes)
unfolding read_full unmask
read_body max_size opcode len input =
    if ltb_ℤ (pos max_size) len
    then err too_large
    else if leb op_close opcode && ltb_ℤ (pos 125) len
    then err control_too_large
    else (do
      (key, input) ← read_full 4 input
      (payload, rest) ← read_payload len input
      ok ((opcode, unmask key 0 payload), rest))

-- readFrame after its first two bytes.
unfoldable pub read_header : ℕ → ℕ → ℕ → Bytes → Read (ℕ × Bytes)
unfolding read_length read_body
read_header max_size b₁ b₂ input =
    if not (leb 128 b₁) && not (b₁ % 16 == op_continuation)
    then err fragmented
    else if not (leb 128 b₂)
    then err unmasked
    else (do (len, rest) ← read_length (b₂ % 128) input; read_body max_size (b₁ % 16) len rest)

unfoldable pub read_frame : ℕ → Bytes → Read (ℕ × Bytes)
unfolding read_byte read_header
read_frame max_size input = do
  (b₁, input₁) ← read_byte input
  (b₂, input₂) ← read_byte input₁
  read_header max_size b₁ b₂ input₂

-- The output: what has been flushed, and what bufio holds.
pub record Output : Type 0 where
  pub flushed : Bytes
  pub pending : Bytes

abbrev pub write : Bytes → Output → Output
write bs out = record out { pending = out.pending ++ bs }

abbrev pub flush : Output → Output
flush out = record { flushed = out.flushed ++ out.pending; pending = [] }

-- writeUint16 and writeUint64: n bytes, the most significant first.
unfoldable pub put_uint : ℕ → ℕ → Bytes
put_uint zero value = []
put_uint (suc n) value = put_uint n (value / 256) ++ ((value % 256) ∷ [])

unfoldable pub length_bytes : ℕ → Bytes
unfolding put_uint
length_bytes n =
    if leb n 125
    then n ∷ []
    else if leb n 65535
    then 126 ∷ put_uint 2 n
    else 127 ∷ put_uint 8 (n % two_64)

-- WriteMessage; the Boolean is whether it returned no error. The opcode is below 128.
unfoldable pub write_message : ℕ → Bytes → Output → Output × Bool
unfolding length_bytes
write_message opcode payload out =
    let started = write ((128 + opcode) ∷ []) out in
    if leb op_close opcode && ltb 125 (length payload)
    then (started, false)
    else (flush (write payload (write (length_bytes (length payload)) started)), true)

-- The loop of ReadMessage, with a bound on its rounds; `none` is a bound that is too low. The error
-- of the answer to a ping or a close is dropped.
unfoldable pub read_message :
    ℕ → ℕ → Bytes → Output → Option (Result ReadError ((ℕ × Bytes) × Bytes) × Output)
unfolding read_frame write_message
read_message zero max_size input out = none
read_message (suc fuel) max_size input out = elim (read_frame max_size input) [
  | err e ↦ some (err e, out)
  | ok ((opcode, payload), rest) ↦ elim (opcode == op_ping) [
    | true ↦ read_message fuel max_size rest (write_message op_pong payload out).0
    | false ↦ elim (opcode == op_pong) [
      | true ↦ read_message fuel max_size rest out
      | false ↦
          if opcode == op_close
          then some (err closed, (write_message op_close [] out).0)
          else some (ok ((opcode, payload), rest), out)
    ]
  ]
]

-- newConn: the limit of a connection.
unfoldable pub message_limit : ℤ → ℕ
message_limit (pos n) = if n == 0 then 1048576 else n
message_limit (negsuc n) = 1048576
