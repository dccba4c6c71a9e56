-- ===== src/App/Response.antt =====
-- timeout.go: the writer that TimeoutHandler puts in front of the response, and net/http's response
-- under it.
pub mod Buffered
pub mod Transparent
use bebo.Prelude.{
  ℕ, suc, Bool, true, false, Option, none, some, List, [], ◌∷◌, ◌++◌, ◌==◌, if◌then◌else◌,
}
use bebo.Prelude.Text.{Bytes}
use bebo.Prelude.Dict.{Dict, lookup, insert, bytes_eq}

abbrev pub Headers : Type 0
Headers = Dict Bytes (List Bytes)

-- http.Header.Set and http.Header.Add
unfoldable pub set : Bytes → Bytes → Headers → Headers
unfolding insert
set key value h = insert key (value ∷ []) h

abbrev values : Option (List Bytes) → List Bytes
values none = []
values (some vs) = vs

unfoldable pub add : Bytes → Bytes → Headers → Headers
unfolding insert lookup
add key value h = insert key (values (lookup key h) ++ (value ∷ [])) h

-- The response of net/http: its header map, the status with the headers that were sent with it, and
-- the body.
pub record Client : Type 0 where
  pub header : Headers
  pub sent : Option (ℕ × Headers)
  pub body : Bytes

-- timeoutWriter, without the writer under it.
pub record Buffer : Type 0 where
  pub header : Headers
  pub buffer : Bytes
  pub code : ℕ
  pub timed_out : Bool

-- What ctx.ResponseWriter is: the response, or a timeoutWriter over another writer.
pub data Writer : Type 0 where
  direct : Client → Writer
  timed : Buffer → Writer → Writer

-- What a handler does to its writer.
pub data Action : Type 0 where
  set_header add_header : Bytes → Bytes → Action
  write_header : ℕ → Action
  write : Bytes → Action

abbrev pub send_status : ℕ → Client → Client
send_status status c = elim c.sent [
  | none ↦ record c { sent = some (status, c.header) }
  | some _ ↦ c
]

-- http.ResponseWriter: the first status counts, and a write sends 200 if none was sent.
abbrev pub client_action : Action → Client → Client
client_action (set_header key value) c = record c { header = set key value c.header }
client_action (add_header key value) c = record c { header = add key value c.header }
client_action (write_header status) c = send_status status c
client_action (write bs) c = let c' = send_status 200 c in record c' { body = c'.body ++ bs }

-- timeoutWriter.Header, WriteHeader and Write.
abbrev pub buffer_action : Action → Buffer → Buffer
buffer_action (set_header key value) tw = record tw { header = set key value tw.header }
buffer_action (add_header key value) tw = record tw { header = add key value tw.header }
buffer_action (write_header status) tw = if tw.code == 0 then record tw { code = status } else tw
buffer_action (write bs) tw = if tw.timed_out then tw else record tw { buffer = tw.buffer ++ bs }

abbrev pub act : Action → Writer → Writer
act a (direct c) = direct (client_action a c)
act a (timed tw w) = timed (buffer_action a tw) w

unfoldable pub act_all : List Action → Writer → Writer
act_all [] w = w
act_all (a ∷ more) w = act_all more (act a w)

unfoldable pub new_timeout_writer : Writer → Writer
new_timeout_writer w = timed (record { header = []; buffer = []; code = 0; timed_out = false }) w

-- The loops of commit over the values of a key, and over the keys.
unfoldable pub add_values : Bytes → List Bytes → Writer → Writer
add_values key [] w = w
add_values key (v ∷ vs) w = add_values key vs (act (add_header key v) w)

unfoldable pub add_headers : Headers → Writer → Writer
unfolding add_values
add_headers [] w = w
add_headers ((key, vs) ∷ h) w = add_headers h (add_values key vs w)

abbrev committed : Buffer → Writer → Writer
committed tw w =
    let w₁ = add_headers tw.header w in
    let w₂ = if tw.code == 0 then w₁ else act (write_header tw.code) w₁ in act (write tw.buffer) w₂

-- How many timeoutWriters stand over the response.
abbrev pub depth : Writer → ℕ
depth (direct c) = 0
depth (timed tw w) = suc (depth w)

-- commit and timeout of the timeoutWriter that has n others under it.
unfoldable pub commit : ℕ → Writer → Writer
unfolding add_headers
commit n (direct c) = direct c
commit n (timed tw w) =
    let below = commit n w in
    if depth w == n
    then (if tw.timed_out then timed tw w else timed tw (committed tw w))
    else timed tw below

unfoldable pub expire : ℕ → Writer → Writer
expire n (direct c) = direct c
expire n (timed tw w) =
    let below = expire n w in
    if depth w == n then timed (record tw { timed_out = true }) w else timed tw below

-- The response under all the writers.
abbrev pub client : Writer → Client
client (direct c) = c
client (timed tw w) = client w

-- What net/http has sent when the server's handler returns: 200 if nothing else was.
unfoldable pub received : Writer → Option (ℕ × Headers) × Bytes
received w = let c = send_status 200 (client w) in (c.sent, c.body)

abbrev pub on_client : (Client → Client) → Writer → Writer
on_client f (direct c) = direct (f c)
on_client f (timed tw w) = timed tw (on_client f w)
