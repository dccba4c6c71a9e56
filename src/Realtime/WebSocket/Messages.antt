-- ===== src/Realtime/WebSocket/Messages.antt =====
-- realtime/websocket.go, ReadMessage and readFrame: bounds, termination, and control frames.
use bebo.Prelude.{
  ℕ, zero, suc, ◌+◌, ◌-◌, ◌%◌, ◌≤◌, ◌<◌, ◌≡◌, refl, sym, ap, ◌∙◌, true, not, ◌&&◌, some, List, [],
  ◌∷◌, ◌++◌, ◌==◌, leb, arith, All, length, append_assoc, append-nil, Bool-cases, inl, inr,
}
use bebo.Prelude.Int.{ℤ, pos, negsuc, ltb_ℤ, to_int64, two_63, two_64}
use bebo.Prelude.Text.{Bytes}
use bebo.Prelude.Result.{Result, ok, err, >>=-eq-ok, Result-cases}
use bebo.Realtime.WebSocket.{
  ReadError, negative_length, closed, op_close, op_ping, op_pong, read_byte, read_length,
  read_payload, read_full, read_uint, read_header, read_body, read_frame, read_message, unmask,
  Output, write_message, put_uint,
}
use bebo.Realtime.WebSocket.Numbers.{IsByte, length-unmask, read_full-length, read_uint-put_uint}
use bebo.Realtime.WebSocket.Frames.{client_frame, read_frame-client_frame}
use bebo.Realtime.WebSocket.Written.{server_frame, write_message-server_frame}

read_full-eq-ok :
    (n : ℕ) (input : Bytes) {bs rest : Bytes}
    → read_full n input ≡ ok (bs, rest)
    → (length bs ≡ n) × (length rest ≤ length input)
unfolding read_full
read_full-eq-ok zero input h = ground arith
read_full-eq-ok (suc n) [] h = cc
read_full-eq-ok (suc n) (b ∷ input) h =
    let ((bs', rest'), e, e') = >>=-eq-ok (read_full n input) _ h in
    let (l, k) = read_full-eq-ok n input e in ground (arith, l, k, e')

read_uint-eq-ok :
    (n : ℕ) (input : Bytes) {value : ℕ} {rest : Bytes}
    → read_uint n input ≡ ok (value, rest)
    → length rest ≤ length input
unfolding read_uint
read_uint-eq-ok n input h =
    let ((bs', rest'), e, e') = >>=-eq-ok (read_full n input) _ h in
    let (l, k) = read_full-eq-ok n input e in ground (arith, k, e')

read_length-eq-ok :
    (short : ℕ) (input : Bytes) {len : ℤ} {rest : Bytes}
    → read_length short input ≡ ok (len, rest)
    → length rest ≤ length input
unfolding read_length
read_length-eq-ok short input h = elim (Bool-cases (short == 126)) [
  | inl e ↦
      let ((n, r), e₁, e₂) = >>=-eq-ok (read_uint 2 input) _ (rw e at h) in
      let k = read_uint-eq-ok 2 input e₁ in ground (arith, k, e₂)
  | inr e ↦ elim (Bool-cases (short == 127)) [
    | inl e' ↦
        let ((n, r), e₁, e₂) = >>=-eq-ok (read_uint 8 input) _ (rw (e, e') at h) in
        let k = read_uint-eq-ok 8 input e₁ in ground (arith, k, e₂)
    | inr e' ↦ let same = rw (e, e') at h in ground (arith, same)
  ]
]

read_payload-eq-ok :
    (len : ℤ) (input : Bytes) {bs rest : Bytes}
    → read_payload len input ≡ ok (bs, rest)
    → (pos (length bs) ≡ len) × (length rest ≤ length input)
read_payload-eq-ok (pos n) input h = let (l, k) = read_full-eq-ok n input h in (ap pos l, k)
read_payload-eq-ok (negsuc n) input h = cc

-- What a successful read_body says.
read_body-eq-ok :
    (max_size opcode : ℕ) (len : ℤ) (input : Bytes) {op : ℕ} {payload rest : Bytes}
    → read_body max_size opcode len input ≡ ok ((op, payload), rest)
    → (length payload ≤ max_size)
      × (op_close ≤ op → length payload ≤ 125)
      × (length rest ≤ length input)
unfolding read_body
read_body-eq-ok max_size opcode len input {op} {payload} {rest} h =
    elim (Bool-cases (ltb_ℤ (pos max_size) len)) [
      | inl e ↦ absurd (let h' = rw e at h in cc)
      | inr e ↦ elim (Bool-cases (leb op_close opcode && ltb_ℤ (pos 125) len)) [
        | inl e' ↦ absurd (let h' = rw (e, e') at h in cc)
        | inr e' ↦
            let ((key, input₁), e₁, h₁) = >>=-eq-ok (read_full 4 input) _ (rw (e, e') at h) in
            let ((masked, r), e₂, h₂) = >>=-eq-ok (read_payload len input₁) _ h₁ in
            let (_, k₁) = read_full-eq-ok 4 input e₁ in
            let (l, k₂) = read_payload-eq-ok len input₁ e₂ in
            let m = length-unmask key 0 masked in
            let o : opcode ≡ op = cc in
            let p : unmask key 0 masked ≡ payload = cc in
            let q : r ≡ rest = cc in
            let at_most : length masked ≤ max_size = (let f = rw (← l) at e in ground arith) in
            let control : op_close ≤ op → length masked ≤ 125 =
              (λ c. let f = rw (← l) at e' in ground arith) in
            (rw (← p, m) at_most, (λ c. rw (← p, m) (control c)), (rw (← q) (omega arith)))
      ]
    ]

read_byte-eq-ok :
    (input : Bytes) {b : ℕ} {rest : Bytes}
    → read_byte input ≡ ok (b, rest)
    → length rest < length input
unfolding read_byte
read_byte-eq-ok [] h = cc
read_byte-eq-ok (b ∷ input) h = ground arith

read_header-eq-ok :
    (max_size b₁ b₂ : ℕ) (input : Bytes) {op : ℕ} {payload rest : Bytes}
    → read_header max_size b₁ b₂ input ≡ ok ((op, payload), rest)
    → (length payload ≤ max_size)
      × (op_close ≤ op → length payload ≤ 125)
      × (length rest ≤ length input)
unfolding read_header
read_header-eq-ok max_size b₁ b₂ input h =
    elim (Bool-cases (not (leb 128 b₁) && not (b₁ % 16 == 0))) [
      | inl e ↦ absurd (let h' = rw e at h in cc)
      | inr e ↦ elim (Bool-cases (not (leb 128 b₂))) [
        | inl e' ↦ absurd (let h' = rw (e, e') at h in cc)
        | inr e' ↦
            let ((len, input₁), e₁, h₁) =
              >>=-eq-ok (read_length (b₂ % 128) input) _ (rw (e, e') at h) in
            let (fits, control, k) = read_body-eq-ok max_size (b₁ % 16) len input₁ h₁ in
            let k' = read_length-eq-ok (b₂ % 128) input e₁ in (fits, control, omega arith)
      ]
    ]

-- A frame that is read has a payload within the limit of the connection, and one of at most 125
-- bytes if it is a control frame, and it takes at least one byte of the input.
pub read_frame-eq-ok :
    (max_size : ℕ) (input : Bytes) {op : ℕ} {payload rest : Bytes}
    → read_frame max_size input ≡ ok ((op, payload), rest)
    → (length payload ≤ max_size)
      × (op_close ≤ op → length payload ≤ 125)
      × (length rest < length input)
unfolding read_frame
read_frame-eq-ok max_size input h =
    let ((b₁, input₁), e₁, h₁) = >>=-eq-ok (read_byte input) _ h in
    let ((b₂, input₂), e₂, h₂) = >>=-eq-ok (read_byte input₁) _ h₁ in
    let (fits, control, k) = read_header-eq-ok max_size b₁ b₂ input₂ h₂ in
    let k₁ = read_byte-eq-ok input e₁ in
    let k₂ = read_byte-eq-ok input₁ e₂ in (fits, control, omega arith)

pub read_message_steps :
    (fuel max_size : ℕ) (input : Bytes) (out : Output)
    → length input < fuel
    → (r : Result ReadError ((ℕ × Bytes) × Bytes) × Output) × (read_message fuel max_size input out
        ≡ some r)
unfolding read_message
read_message_steps zero max_size input out h = absurd (omega arith)
read_message_steps (suc fuel) max_size input out h =
    elim (Result-cases (read_frame max_size input)) [
      | inl (e, p) ↦ ((err e, out), rw (p, read_message) refl)
      | inr (((opcode, payload), rest), p) ↦
          let (_, _, less) = read_frame-eq-ok max_size input p in
          elim (Bool-cases (opcode == op_ping)) [
            | inl i ↦
                let (r, q) =
                  read_message_steps fuel max_size rest (write_message op_pong payload out).0
                    (omega arith) in
                (r, rw (p, i, read_message) q)
            | inr i ↦ elim (Bool-cases (opcode == op_pong)) [
              | inl o ↦
                  let (r, q) = read_message_steps fuel max_size rest out (omega arith) in
                  (r, rw (p, i, o, read_message) q)
              | inr o ↦ elim (Bool-cases (opcode == op_close)) [
                | inl c ↦
                    ((err closed, (write_message 8 [] out).0), rw (p, i, o, c, read_message) refl)
                | inr c ↦ ((ok ((opcode, payload), rest), out), rw (p, i, o, c, read_message) refl)
              ]
            ]
          ]
    ]

-- A ping or a pong that a client sends, with its mask and its payload.
pub data Control : Type 0 where
  ping pong : Bytes → Bytes → Control

abbrev IsMasked : Bytes → Bytes → Type 0
IsMasked key payload =
    (length key ≡ 4) × All IsByte key × All IsByte payload × (length payload ≤ 125)

abbrev pub IsControl : Control → Type 0
IsControl (ping key payload) = IsMasked key payload
IsControl (pong key payload) = IsMasked key payload

abbrev pub control_frame : Control → Bytes
control_frame (ping key payload) = client_frame op_ping key payload
control_frame (pong key payload) = client_frame op_pong key payload

-- The frames one after the other, in front of what follows them.
abbrev pub controls : List Control → Bytes → Bytes
controls [] rest = rest
controls (c ∷ cs) rest = control_frame c ++ controls cs rest

-- The pongs that answer the pings, in their order.
abbrev pub pongs : List Control → Bytes
pongs [] = []
pongs (ping key payload ∷ cs) = server_frame op_pong payload ++ pongs cs
pongs (pong key payload ∷ cs) = pongs cs

ping_step :
    (fuel max_size : ℕ) (input payload rest : Bytes) (out : Output)
    → read_frame max_size input ≡ ok ((op_ping, payload), rest)
    → read_message (suc fuel) max_size input out
      ≡ read_message fuel max_size rest (write_message op_pong payload out).0
unfolding read_message
ping_step fuel max_size input payload rest out h = rw (h, read_message) refl

pong_step :
    (fuel max_size : ℕ) (input payload rest : Bytes) (out : Output)
    → read_frame max_size input ≡ ok ((op_pong, payload), rest)
    → read_message (suc fuel) max_size input out ≡ read_message fuel max_size rest out
unfolding read_message
pong_step fuel max_size input payload rest out h = rw (h, read_message) refl

read_control :
    (max_size opcode : ℕ) (key payload rest : Bytes)
    → opcode < 16
    → IsMasked key payload
    → 125 ≤ max_size
    → read_frame max_size (client_frame opcode key payload ++ rest) ≡ ok ((opcode, payload), rest)
read_control max_size opcode key payload rest op (four, hk, hp, short) fits =
    read_frame-client_frame max_size opcode key payload rest op four hk hp (omega arith)
      (omega arith) (λ _. short)

rounds : List Control → ℕ → ℕ
rounds [] fuel = fuel
rounds (c ∷ cs) fuel = suc (rounds cs fuel)

rounds_lem : (cs : List Control) (fuel : ℕ) → rounds cs fuel ≡ length cs + fuel
unfolding rounds
rounds_lem [] fuel = omega arith
rounds_lem (c ∷ cs) fuel = omega (arith, rounds_lem cs fuel)

module _ (fuel max_size : ℕ) (rest : Bytes) (fits : 125 ≤ max_size) where
  read_message-rounds :
      (cs : List Control) (flushed : Bytes)
      → All IsControl cs
      → read_message
          (rounds cs fuel)
          max_size
          (controls cs rest)
          (record { flushed = flushed; pending = [] })
        ≡ read_message fuel max_size rest (record { flushed = flushed ++ pongs cs; pending = [] })
  unfolding rounds
  read_message-rounds [] flushed h =
      ap (λ f. read_message fuel max_size rest (record { flushed = f; pending = [] }))
        (sym (append-nil flushed))
  read_message-rounds (ping key payload ∷ cs) flushed (h, hs) =
      let out : Output = record { flushed = flushed; pending = [] } in
      let (_, _, _, short) = h in
      ping_step (rounds cs fuel) max_size (client_frame op_ping key payload ++ controls cs rest)
        payload (controls cs rest) out
        (read_control max_size op_ping key payload (controls cs rest) (omega arith) h fits)
      ∙ ap (λ w. read_message (rounds cs fuel) max_size (controls cs rest) w.0)
          (write_message-server_frame op_pong payload out (omega arith) (λ _. short))
      ∙ read_message-rounds cs (flushed ++ server_frame op_pong payload) hs
      ∙ ap (λ f. read_message fuel max_size rest (record { flushed = f; pending = [] }))
          (append_assoc flushed (server_frame op_pong payload) (pongs cs))
  read_message-rounds (pong key payload ∷ cs) flushed (h, hs) =
      let out : Output = record { flushed = flushed; pending = [] } in
      pong_step (rounds cs fuel) max_size (client_frame op_pong key payload ++ controls cs rest)
        payload (controls cs rest) out
        (read_control max_size op_pong key payload (controls cs rest) (omega arith) h fits)
      ∙ read_message-rounds cs flushed hs

-- Pings and pongs, masked by keys of four bytes and with payloads of at most 125 bytes, in front of
-- other input are all consumed, for a limit of at least 125 bytes and nothing held by bufio, and what
-- has been flushed grows by the pongs of the pings, in their order and with their payloads; the loop
-- then continues with that input.
pub read_message-controls :
    (cs : List Control) (fuel max_size : ℕ) (rest flushed : Bytes)
    → All IsControl cs
    → 125 ≤ max_size
    → read_message
        (length cs + fuel)
        max_size
        (controls cs rest)
        (record { flushed = flushed; pending = [] })
      ≡ read_message fuel max_size rest (record { flushed = flushed ++ pongs cs; pending = [] })
read_message-controls cs fuel max_size rest flushed h fits =
    ap
      (λ n. read_message n max_size (controls cs rest) (record { flushed = flushed; pending = [] }))
      (sym (rounds_lem cs fuel))
    ∙ read_message-rounds fuel max_size rest fits cs flushed h

read_body-negsuc :
    (max_size opcode n : ℕ) (key rest : Bytes)
    → length key ≡ 4
    → read_body max_size opcode (negsuc n) (key ++ rest) ≡ err negative_length
unfolding read_body
read_body-negsuc max_size opcode n key rest four = elim (Bool-cases (leb op_close opcode)) [
  | inl e ↦ rw (e, read_full-length 4 key rest four) refl
  | inr e ↦ rw (e, read_full-length 4 key rest four) refl
]

-- A masked final frame that announces 2^63 bytes or more passes the check of the limit, whatever
-- the limit is, and panics once its mask key has been read: the length is negative as an int64.
pub read_frame_negative_length :
    (max_size opcode n : ℕ) (key rest : Bytes)
    → opcode < 16
    → two_63 ≤ n
    → n < two_64
    → length key ≡ 4
    → read_frame max_size ((128 + opcode) ∷ 255 ∷ (put_uint 8 n ++ (key ++ rest)))
      ≡ err negative_length
unfolding read_frame read_byte read_header read_length
read_frame_negative_length max_size opcode n key rest op large small four =
    let fin : leb 128 (128 + opcode) ≡ true = ground arith in
    let kept : (128 + opcode) % 16 ≡ opcode = omega arith in
    let negative : to_int64 n ≡ negsuc (two_64 - n - 1) = ground arith in
    rw (fin, kept, read_uint-put_uint 8 n (key ++ rest) (omega arith) small)
      (ap (λ len. read_body max_size opcode len (key ++ rest)) negative
        ∙ read_body-negsuc max_size opcode (two_64 - n - 1) key rest four)
