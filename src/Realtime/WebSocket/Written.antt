-- ===== src/Realtime/WebSocket/Written.antt =====
-- realtime/websocket.go, WriteMessage: what a client reads of the frames that the server writes.
use bebo.Prelude.{
  ℕ, ◌+◌, ◌%◌, ◌≤◌, ◌<◌, ◌≡◌, refl, ap, ◌∙◌, true, false, not, ◌&&◌, [], ◌∷◌, ◌++◌, ltb, leb,
  if◌then◌else◌, arith, length, append_assoc, Bool-cases, inl, inr,
}
use bebo.Prelude.Int.{two_63, two_64}
use bebo.Prelude.Text.{Bytes}
use bebo.Prelude.Result.{ok, err, ◌>>=◌}
use bebo.Realtime.WebSocket.{
  fragmented, unmasked, Read, op_close, read_byte, read_length, read_payload, read_full,
  length_bytes, Output, write_message,
}
use bebo.Realtime.WebSocket.Numbers.{read_full-append}
use bebo.Realtime.WebSocket.Frames.{length_field, read_length-field}

-- The final frame that a server sends: one without a mask.
abbrev pub server_frame : ℕ → Bytes → Bytes
server_frame opcode payload =
    (128 + opcode)
    ∷ (length_field (length payload)).0
    ∷ ((length_field (length payload)).1 ++ payload)

unfoldable client_body : ℕ → ℕ → Bytes → Read (ℕ × Bytes)
unfolding read_length read_full
client_body b₁ b₂ input =
    if not (leb 128 b₁) then err fragmented else if leb 128 b₂ then err unmasked else (do
      (len, input') ← read_length b₂ input
      (payload, rest) ← read_payload len input'
      ok ((b₁ % 16, payload), rest))

-- A client's reader of final frames without a mask, after RFC 6455.
unfoldable pub client_read : Bytes → Read (ℕ × Bytes)
unfolding read_byte client_body
client_read input = do
  (b₁, input₁) ← read_byte input
  (b₂, input₂) ← read_byte input₁
  client_body b₁ b₂ input₂

length_bytes-field : (n : ℕ) → n < two_64 → length_bytes n ≡ (length_field n).0 ∷ (length_field n).1
unfolding length_bytes
length_bytes-field n h =
    let low : n % two_64 ≡ n = omega arith in
    elim (Bool-cases (leb n 125)) [
      | inl e ↦ rw e refl
      | inr e ↦ elim (Bool-cases (leb n 65535)) [
        | inl e' ↦ rw (e, e') refl
        | inr e' ↦ rw (e, e', low) refl
      ]
    ]

pub write_message-server_frame :
    (opcode : ℕ) (payload : Bytes) (out : Output)
    → length payload < two_64
    → (op_close ≤ opcode → length payload ≤ 125)
    → write_message opcode payload out ≡ (
      record {
        flushed = out.flushed ++ (out.pending ++ server_frame opcode payload);
        pending = [];
      },
      true,
    )
unfolding write_message
write_message-server_frame opcode payload out small control =
    let held = out.pending in
    let first = (128 + opcode) ∷ [] in
    rw
      (
        checked,
        length_bytes-field (length payload) small,
        append_assoc held first
            ((length_field (length payload)).0 ∷ (length_field (length payload)).1),
        append_assoc held
            (first ++ ((length_field (length payload)).0 ∷ (length_field (length payload)).1))
            payload,
      )
      refl
  where
    checked : (leb op_close opcode && ltb 125 (length payload)) ≡ false
    checked = elim (Bool-cases (leb op_close opcode)) [
      | inr e ↦ rw e refl
      | inl e ↦ let c : length payload ≤ 125 = control (ground arith) in ground arith
    ]

client_read-server_frame :
    (opcode : ℕ) (payload rest : Bytes)
    → opcode < 16
    → length payload < two_63
    → client_read (server_frame opcode payload ++ rest) ≡ ok ((opcode, payload), rest)
unfolding client_read read_byte client_body
client_read-server_frame opcode payload rest op small =
    let n = length payload in
    let fin : leb 128 (128 + opcode) ≡ true = ground arith in
    let plain : leb 128 (length_field n).0 ≡ false = ground arith in
    let kept : (128 + opcode) % 16 ≡ opcode = omega arith in
    rw
      (
        fin,
        plain,
        kept,
        append_assoc (length_field n).1 payload rest,
        read_length-field n (payload ++ rest) small,
        read_full-append payload rest,
      )
      refl

-- A message with an opcode of four bits, of fewer than 2^63 bytes, and of at most 125 bytes for a
-- control frame, is written without an error and flushed: what has been flushed grows by what bufio
-- held and by a frame that a client's reader reads back as the opcode and the payload, leaving what
-- follows the frame.
pub write_message-client_read :
    (opcode : ℕ) (payload : Bytes) (out : Output) (rest : Bytes)
    → opcode < 16
    → length payload < two_63
    → (op_close ≤ opcode → length payload ≤ 125)
    → (frame : Bytes) × (write_message opcode payload out
        ≡ (record { flushed = out.flushed ++ (out.pending ++ frame); pending = [] }, true))
      × (client_read (frame ++ rest) ≡ ok ((opcode, payload), rest))
write_message-client_read opcode payload out rest op small control = (
  server_frame opcode payload,
  write_message-server_frame opcode payload out (omega arith) control,
  client_read-server_frame opcode payload rest op small,
)

-- A control message of more than 125 bytes is refused, but the first byte of its frame stays in the
-- buffer: a message that is written next (of an opcode of data and of fewer than 2^64 bytes) is
-- flushed behind that byte.
pub write_message_oversized :
    (opcode next : ℕ) (big payload : Bytes) (out : Output)
    → op_close ≤ opcode
    → 125 < length big
    → next < op_close
    → length payload < two_64
    → ((write_message opcode big out).1 ≡ false)
      × ((write_message next payload (write_message opcode big out).0).0.flushed
          ≡ out.flushed ++ ((out.pending ++ ((128 + opcode) ∷ [])) ++ server_frame next payload))
write_message_oversized opcode next big payload out control large plain small = (
  ap (λ r. r.1) refused,
  ap (λ r. (write_message next payload r.0).0.flushed) refused
      ∙ ap (λ r. r.0.flushed)
          (write_message-server_frame next payload kept small (λ c. absurd (omega arith))),
)
  where
    kept : Output
    kept = record out { pending = out.pending ++ ((128 + opcode) ∷ []) }

    refused : write_message opcode big out ≡ (kept, false)
    refused =
        unfold write_message in
        (let c : leb op_close opcode ≡ true = ground arith in
          let l : ltb 125 (length big) ≡ true = ground arith in rw (c, l) refl)
