-- ===== src/Realtime/WebSocket/Frames.antt =====
-- realtime/websocket.go: frames as RFC 6455 has them, read by readFrame and written by WriteMessage.
use bebo.Prelude.{
  ℕ, ◌+◌, ◌%◌, ◌≤◌, ◌<◌, ◌≡◌, refl, true, false, ◌&&◌, [], ◌∷◌, ◌++◌, ltb, leb, if◌then◌else◌,
  arith, All, length, append_assoc, Bool-cases, inl, inr,
}
use bebo.Prelude.Int.{pos, to_int64, two_63}
use bebo.Prelude.Text.{Bytes}
use bebo.Prelude.Result.{ok}
use bebo.Realtime.WebSocket.{
  op_close, read_byte, read_length, read_header, read_body, read_frame, unmask, put_uint,
}
use bebo.Realtime.WebSocket.Numbers.{
  IsByte, unmask-unmask, length-unmask, read_full-length, read_uint-put_uint,
}

-- The length field of a frame: the seven bits of the second byte, and the bytes after it.
abbrev pub length_field : ℕ → ℕ × Bytes
length_field n =
    if leb n 125 then (n, []) else if leb n 65535 then (126, put_uint 2 n) else (127, put_uint 8 n)

-- The final frame that a client sends: a masked one.
abbrev pub client_frame : ℕ → Bytes → Bytes → Bytes
client_frame opcode key payload =
    (128 + opcode)
    ∷ (128 + (length_field (length payload)).0)
    ∷ ((length_field (length payload)).1 ++ (key ++ unmask key 0 payload))

to_int64_small : (n : ℕ) → n < two_63 → to_int64 n ≡ pos n
to_int64_small n h = ground arith

pub read_length-field :
    (n : ℕ) (rest : Bytes)
    → n < two_63
    → read_length (length_field n).0 ((length_field n).1 ++ rest) ≡ ok (pos n, rest)
unfolding read_length
read_length-field n rest h = elim (Bool-cases (leb n 125)) [
  | inl e ↦ rw e (ground arith)
  | inr e ↦ elim (Bool-cases (leb n 65535)) [
    | inl e' ↦ rw (e, e', read_uint-put_uint 2 n rest (ground arith) (ground arith)) refl
    | inr e' ↦
        rw (e, e', read_uint-put_uint 8 n rest (omega arith) (omega arith))
          (rw (to_int64_small n h) refl)
  ]
]

read_body_masked :
    (max_size opcode : ℕ) (key payload rest : Bytes)
    → length key ≡ 4
    → All IsByte key
    → All IsByte payload
    → length payload ≤ max_size
    → (op_close ≤ opcode → length payload ≤ 125)
    → read_body max_size opcode (pos (length payload)) (key ++ (unmask key 0 payload ++ rest))
      ≡ ok ((opcode, payload), rest)
unfolding read_body
read_body_masked max_size opcode key payload rest four hk hp fits control =
    rw
      (
        small,
        checked,
        read_full-length 4 key (unmask key 0 payload ++ rest) four,
        read_full-length (length payload) (unmask key 0 payload) rest (length-unmask key 0 payload),
        unmask-unmask key 0 payload hk hp,
      )
      refl
  where
    small : ltb max_size (length payload) ≡ false
    small = ground arith

    checked : (leb op_close opcode && ltb 125 (length payload)) ≡ false
    checked = elim (Bool-cases (leb op_close opcode)) [
      | inr e ↦ rw e refl
      | inl e ↦ let c : length payload ≤ 125 = control (ground arith) in ground arith
    ]

second_byte : (n : ℕ) → (length_field n).0 < 128
second_byte n = ground arith

pub read_frame-client_frame :
    (max_size opcode : ℕ) (key payload rest : Bytes)
    → opcode < 16
    → length key ≡ 4
    → All IsByte key
    → All IsByte payload
    → length payload ≤ max_size
    → length payload < two_63
    → (op_close ≤ opcode → length payload ≤ 125)
    → read_frame max_size (client_frame opcode key payload ++ rest) ≡ ok ((opcode, payload), rest)
unfolding read_frame read_byte read_header
read_frame-client_frame max_size opcode key payload rest op four hk hp fits small control =
    let n = length payload in
    let short = (length_field n).0 in
    let fin : leb 128 (128 + opcode) ≡ true = ground arith in
    let masked : leb 128 (128 + short) ≡ true = ground arith in
    let low : (128 + short) % 128 ≡ short = omega (arith, second_byte n) in
    let kept : (128 + opcode) % 16 ≡ opcode = omega arith in
    rw
      (
        fin,
        masked,
        low,
        kept,
        append_assoc (length_field n).1 (key ++ unmask key 0 payload) rest,
        append_assoc key (unmask key 0 payload) rest,
        read_length-field n (key ++ (unmask key 0 payload ++ rest)) small,
      )
      (read_body_masked max_size opcode key payload rest four hk hp fits control)
