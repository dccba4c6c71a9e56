-- ===== src/Middleware/Etag.antt =====
-- middleware/cache.go: the writer of the ETag middleware over the response of net/http. The hash with
-- its quotes is a parameter, and the keys of headers are the canonical ones of net/http (Etag for ETag).
-- Hijack and Push are left out.
pub mod Complete
pub mod Served
use bebo.Prelude.{
  ℕ, ◌+◌, Bool, true, false, not, ◌&&◌, ◌||◌, Option, none, some, List, [], ◌∷◌, ◌++◌, ◌==◌, ltb,
  if◌then◌else◌, is_empty, length,
}
use bebo.Prelude.Int.{ℤ, pos, ltb_ℤ}
use bebo.Prelude.Text.{Bytes, bytes, split, text_eq}
use bebo.Prelude.Ascii.{trim_space}
use bebo.Prelude.Dict.{lookup, bytes_eq}
use bebo.App.Errors.{Error}
use bebo.App.Response.{
  Headers, set, add, Client, send_status, client_action, Action, set_header, add_header,
  write_header, write,
}

-- etagWriter with the writer under it.
pub record EtagWriter : Type 0 where
  pub client : Client
  pub header : Headers
  pub status : ℕ
  pub buffer : Bytes
  pub max_size : ℤ
  pub overflow : Bool
  pub wrote : Bool

-- What a handler does to the writer: an action, or a flush.
pub data Call : Type 0 where
  acts : Action → Call
  flushes : Call

unfoldable pub new_etag_writer : Client → ℤ → EtagWriter
new_etag_writer c max_size = record {
  client = c;
  header = [];
  status = 0;
  buffer = [];
  max_size = max_size;
  overflow = false;
  wrote = false;
}

-- The loops of copyHeaders.
unfoldable pub copy_values : Bytes → List Bytes → Client → Client
copy_values key [] c = c
copy_values key (v ∷ vs) c = copy_values key vs (client_action (add_header key v) c)

unfoldable pub copy_headers : Headers → Client → Client
unfolding copy_values
copy_headers [] c = c
copy_headers ((key, vs) ∷ h) c = copy_headers h (copy_values key vs c)

abbrev pub status_or_ok : ℕ → ℕ
status_or_ok status = if status == 0 then 200 else status

abbrev pub write_some : Bytes → Client → Client
write_some bs c = if is_empty bs then c else client_action (write bs) c

unfoldable pub flush_to_underlying : EtagWriter → EtagWriter
unfolding copy_headers
flush_to_underlying e = if e.wrote then e else record e {
  client =
      write_some e.buffer (send_status (status_or_ok e.status) (copy_headers e.header e.client));
  wrote = true;
}

-- Write
unfoldable pub etag_write : Bytes → EtagWriter → EtagWriter
unfolding flush_to_underlying
etag_write bs e =
    if e.overflow
    then record e { client = client_action (write bs) e.client }
    else if ltb_ℤ (pos 0) e.max_size && ltb_ℤ e.max_size (pos (length e.buffer + length bs))
    then (let e' = flush_to_underlying (record e { overflow = true }) in
        record e' { client = client_action (write bs) e'.client })
    else record e { buffer = e.buffer ++ bs }

-- Flush, without the Flush of the writer under it.
unfoldable pub etag_flush : EtagWriter → EtagWriter
unfolding flush_to_underlying
etag_flush e = if e.overflow then e else flush_to_underlying (record e { overflow = true })

unfoldable pub call : Call → EtagWriter → EtagWriter
unfolding etag_write etag_flush set add
call (acts (set_header key value)) e = record e { header = set key value e.header }
call (acts (add_header key value)) e = record e { header = add key value e.header }
call (acts (write_header status)) e = if e.status == 0 then record e { status = status } else e
call (acts (write bs)) e = etag_write bs e
call flushes e = etag_flush e

unfoldable pub call_all : List Call → EtagWriter → EtagWriter
unfolding call
call_all [] e = e
call_all (c ∷ cs) e = call_all cs (call c e)

-- header.Get(key) != ""
abbrev has_value : Option (List Bytes) → Bool
has_value none = false
has_value (some []) = false
has_value (some (v ∷ vs)) = not (is_empty v)

-- The loop of matchETag.
unfoldable pub any_part : List Bytes → Bytes → Bool
unfolding trim_space text_eq
any_part [] etag = false
any_part (part ∷ parts) etag = text_eq (trim_space part) etag || any_part parts etag

unfoldable pub match_etag : Bytes → Bytes → Bool
unfolding split any_part
match_etag header etag = if is_empty header then false else any_part (split b',' header) etag

abbrev pub is_get : Bytes → Bool
is_get method = text_eq method (bytes "GET") || text_eq method (bytes "HEAD")

module _ (hash : Bytes → Bytes) where
  abbrev pub etag_of : Bool → Bytes → Bytes
  etag_of weak body = if weak then bytes "W/" ++ hash body else hash body

  -- finalize after its guards.
  unfoldable pub tagged : Bool → Bytes → EtagWriter → EtagWriter
  unfolding match_etag flush_to_underlying copy_headers set
  tagged weak if_none_match e =
      let etag = etag_of weak e.buffer in
      let e' = record e { header = set (bytes "Etag") etag e.header } in
      if match_etag if_none_match etag
      then record e' { client = send_status 304 (copy_headers e'.header e'.client); wrote = true }
      else flush_to_underlying e'

  -- finalize, given the method and the If-None-Match header of the request.
  unfoldable pub finalize : Bool → Bytes → Bytes → EtagWriter → EtagWriter
  unfolding tagged flush_to_underlying lookup text_eq
  finalize weak method if_none_match e =
      if e.overflow || e.wrote
      then e
      else if ltb (status_or_ok e.status) 200 || not (ltb (status_or_ok e.status) 300)
      then flush_to_underlying e
      else if not (is_get method)
      then flush_to_underlying e
      else if has_value (lookup (bytes "Etag") e.header)
          || has_value (lookup (bytes "Content-Encoding") e.header)
      then flush_to_underlying e
      else tagged weak if_none_match e

  -- ETag, given what the handler under it does and returns.
  unfoldable pub etag_serve :
      Bool → Bytes → Bytes → ℤ → List Call → Option Error → Client → Client × Option Error
  unfolding finalize call_all new_etag_writer
  etag_serve weak method if_none_match max_size cs failure c =
      let e = call_all cs (new_etag_writer c max_size) in
      elim failure [
        | some problem ↦ (e.client, some problem)
        | none ↦ ((finalize weak method if_none_match e).client, none)
      ]
