-- ===== src/Session/Tests.antt =====
-- session/memory.go and session/session.go: the theorems at small stores.
use text.Mathlib.Text.{◌==◌ as str_eq}
use bebo.Prelude.{
  true, false, ◌+◌, ◌-◌, ◌++◌, ◌↔◌, ap, Memᴰ, ◌≡◌, refl, false, none, some, List, [], ◌∷◌, arith,
  if◌then◌else◌,
}
use bebo.Prelude.Text.{Bytes, bytes, split, text_eq, Lacks}
use bebo.Prelude.Result.{ok}
use bebo.Session.CookieStore.{
  Codec, IsBase64, CookieSession, decode, get as get_cookie, save as save_cookie,
}
use bebo.Session.CookieStore.Signed.{Holds, decode-eq-ok_iff, get-save}
use bebo.Session.Memory.{Values, MemoryStore, Session, new_memory_store, get, save_id, save}
use bebo.Session.Memory.Live.{live, saved_live, save-live}
use bebo.Session.Memory.Invariant.{IsFresh}
use bebo.Session.Memory.Runs.{Op, gets, saves, run, get-no_expired_left}

-- A store with a TTL of 10 ns that holds a session saved at 5, with its expiration at 15.
abbrev store : MemoryStore
store = record {
  ttl = 10;
  sessions = ("s1", record { values = ("user", "ann") ∷ []; expires_at = some 15 }) ∷ [];
  expirations = record { id = "s1"; expires_at = 15 } ∷ [];
}

abbrev session : Session
session = record { id = "s1"; values = ("user", "bob") ∷ []; is_new = false }

has_id : save_id session (some "s2") ≡ some "s1"
unfolding save_id
has_id = refl

save-live_example :
    live (save store session 12 (some "s2")).0 20 "s1"
    ≡ (if str_eq "s1" "s1" then saved_live 10 12 20 (("user", "bob") ∷ []) else live store 20 "s1")
save-live_example = save-live store session 12 20 (some "s2") "s1" "s1" has_id (omega arith)

abbrev ops : List Op
ops = saves session 5 none ∷ gets "s1" 9 (some "s2") ∷ []

get-no_expired_left_example : IsFresh 40 (get (run (new_memory_store 10) ops) "s1" 40 (some "s3")).0
get-no_expired_left_example = get-no_expired_left 10 40 ops "s1" (some "s3") (omega arith)

-- A codec: base64 as a shift of the bytes, HMAC as the key in front of the payload, and JSON for
-- one set of values.
abbrev shifted : Bytes → Bytes
shifted [] = []
shifted (a ∷ s) = (a + 47) ∷ shifted s

abbrev unshifted : Bytes → Bytes
unshifted [] = []
unshifted (a ∷ s) = (a - 47) ∷ unshifted s

abbrev user_values : Values
user_values = ("user", "ann") ∷ []

abbrev codec : Codec
codec = record {
  hmac = λ payload key. key ++ payload;
  encode64 = shifted;
  decode64 = λ s. some (unshifted s);
  marshal = λ values. some (bytes "ann");
  unmarshal = λ payload. if text_eq payload (bytes "ann") then some user_values else none;
}

unshifted-shifted : (b : Bytes) → unshifted (shifted b) ≡ b
unshifted-shifted [] = refl
unshifted-shifted (a ∷ b) = let same : a + 47 - 47 ≡ a = omega arith in cc (unshifted-shifted b)

shifted-Lacks : (b : Bytes) → Lacks b'.' (shifted b)
shifted-Lacks [] = tt
shifted-Lacks (a ∷ b) = ((λ e. omega (arith, e)), shifted-Lacks b)

codec-IsBase64 : IsBase64 codec
codec-IsBase64 = record {
  decodes = λ b. ap (λ x. some x) (unshifted-shifted b);
  no_dot = shifted-Lacks;
}

abbrev old_key : Bytes
old_key = bytes "k1"

abbrev rotated_keys : List Bytes
rotated_keys = bytes "k2" ∷ bytes "k1" ∷ []

abbrev cookie_session : CookieSession
cookie_session = record { values = user_values; is_new = true }

read_back : codec.unmarshal (bytes "ann") ≡ some user_values
unfolding text_eq
read_back = refl

get-save_example :
    (value : Bytes) × (save_cookie codec (old_key ∷ []) (some cookie_session)
      ≡ ok (record { values = user_values; is_new = false }, value))
    × (get_cookie codec rotated_keys (some value)
        ≡ (record { values = user_values; is_new = false }, none))
get-save_example =
    get-save codec codec-IsBase64 old_key [] rotated_keys cookie_session (bytes "ann") (λ e. cc)
      (Memᴰ.tail (Memᴰ.head refl)) refl read_back

decode-eq-ok_iff_example :
    (decode codec (bytes "a.b") rotated_keys ≡ ok user_values)
    ↔ Holds codec (split b'.' (bytes "a.b")) rotated_keys user_values
decode-eq-ok_iff_example = decode-eq-ok_iff codec (bytes "a.b") rotated_keys user_values
