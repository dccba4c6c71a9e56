-- ===== src/Realtime/Tests.antt =====
-- realtime/websocket.go: the theorems at short frames.
use bebo.Prelude.{ℕ, ◌+◌, ◌≤◌, ◌<◌, ◌≡◌, refl, true, some, List, [], ◌∷◌, ◌++◌, arith, All, length}
use bebo.Prelude.Int.{two_63}
use bebo.Prelude.Text.{Bytes}
use bebo.Prelude.Result.{Result, ok, err}
use bebo.Realtime.WebSocket.{
  closed, negative_length, op_close, op_text, Output, write_message, read_frame, read_message,
  put_uint,
}
use bebo.Realtime.WebSocket.Numbers.{IsByte}
use bebo.Realtime.WebSocket.Frames.{client_frame}
use bebo.Realtime.WebSocket.Written.{server_frame, client_read, write_message-client_read}
use bebo.Realtime.WebSocket.Messages.{
  Control, ping, pong, controls, pongs, read_frame-eq-ok, read_message-controls,
  read_frame_negative_length,
}

abbrev mask_key : Bytes
mask_key = 55 ∷ 250 ∷ 33 ∷ 61 ∷ []

abbrev hello : Bytes
hello = 104 ∷ 105 ∷ []

abbrev silent : Output
silent = record { flushed = []; pending = [] }

mask_key-All-IsByte : All IsByte mask_key
mask_key-All-IsByte = (omega arith, (omega arith, (omega arith, (omega arith, tt))))

hello-All-IsByte : All IsByte hello
hello-All-IsByte = (omega arith, (omega arith, tt))

write_message-client_read_example :
    (frame : Bytes) × (write_message op_text hello silent
      ≡ (record { flushed = frame; pending = [] }, true))
    × (client_read (frame ++ (9 ∷ [])) ≡ ok ((op_text, hello), 9 ∷ []))
write_message-client_read_example =
    write_message-client_read op_text hello silent (9 ∷ []) (omega arith) (omega arith)
      (λ c. omega arith)

text_frame_read : read_frame 1024 (client_frame op_text mask_key hello) ≡ ok ((op_text, hello), [])
unfolding read_frame
text_frame_read = refl

read_frame-eq-ok_example :
    (length hello ≤ 1024)
    × (op_close ≤ op_text → length hello ≤ 125)
    × (length {A = ℕ} [] < length (client_frame op_text mask_key hello))
read_frame-eq-ok_example =
    read_frame-eq-ok 1024 (client_frame op_text mask_key hello) text_frame_read

abbrev ping_then_pong : List Control
ping_then_pong = ping mask_key hello ∷ pong mask_key [] ∷ []

read_message-controls_example :
    read_message (2 + 5) 1024 (controls ping_then_pong (client_frame op_close mask_key [])) silent
    ≡ read_message 5 1024
        (client_frame op_close mask_key [])
        (record { flushed = pongs ping_then_pong; pending = [] })
read_message-controls_example =
    read_message-controls ping_then_pong 5 1024 (client_frame op_close mask_key []) []
      (
        (refl, mask_key-All-IsByte, hello-All-IsByte, omega arith),
        ((refl, mask_key-All-IsByte, tt, omega arith), tt),
      )
      (omega arith)

closing_read :
    read_message 5 1024 (client_frame op_close mask_key []) silent
    ≡ some (err closed, record { flushed = server_frame op_close []; pending = [] })
unfolding read_message
closing_read = refl

read_frame_negative_length_example :
    read_frame 1024 (129 ∷ 255 ∷ (put_uint 8 two_63 ++ (mask_key ++ hello))) ≡ err negative_length
read_frame_negative_length_example =
    read_frame_negative_length 1024 op_text two_63 mask_key hello (omega arith) (omega arith)
      (omega arith) refl
