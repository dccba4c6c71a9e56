-- ===== src/Prelude/Ascii.antt =====
-- Letter case, white space and host:port splitting on ASCII texts: strings.ToLower,
-- strings.TrimSpace, strings.EqualFold and net.SplitHostPort.
use Prim.Native.Nat.{ℕ, ◌+◌}
use mathlib.Core.Path.{◌≡◌, refl}
use mathlib.Core.Bool.{Bool, false, ◌&&◌, ◌||◌}
use mathlib.Core.Option.{Option, none, some}
use mathlib.Core.List.{[], ◌∷◌, map}
use bebo.Prelude.Tests.{leb, ◌==◌, if◌then◌else◌}
use bebo.Prelude.Lists.{is_empty}
use bebo.Prelude.Text.{Bytes, bytes, text_eq}

unfoldable pub lower : ℕ → ℕ
lower c = if leb b'A' c && leb c b'Z' then c + 32 else c

unfoldable pub to_lower : Bytes → Bytes
unfolding lower
to_lower s = map lower s

unfoldable pub equal_fold : Bytes → Bytes → Bool
unfolding to_lower text_eq
equal_fold s t = text_eq (to_lower s) (to_lower t)

-- "\t\n\v\f\r "
unfoldable pub is_space : ℕ → Bool
is_space c = (leb 9 c && leb c 13) || c == 32

unfoldable pub trim_space_left : Bytes → Bytes
unfolding is_space
trim_space_left [] = []
trim_space_left (a ∷ s) = if is_space a then trim_space_left s else a ∷ s

unfoldable pub trim_space_right : Bytes → Bytes
unfolding is_space
trim_space_right [] = []
trim_space_right (a ∷ s) =
    let rest = trim_space_right s in if is_empty rest && is_space a then [] else a ∷ rest

unfoldable pub trim_space : Bytes → Bytes
unfolding trim_space_left trim_space_right
trim_space s = trim_space_right (trim_space_left s)

unfoldable pub contains : ℕ → Bytes → Bool
contains c [] = false
contains c (a ∷ s) = a == c || contains c s

-- The text before and after the first c.
unfoldable pub cut : ℕ → Bytes → Option (Bytes × Bytes)
cut c [] = none
cut c (a ∷ s) =
    let rest = cut c s in
    if a == c
    then some ([], s)
    else elim rest [ none ↦ none | some (before, after) ↦ some (a ∷ before, after) ]

-- The text before and after the last c.
unfoldable pub cut_last : ℕ → Bytes → Option (Bytes × Bytes)
cut_last c [] = none
cut_last c (a ∷ s) = elim (cut_last c s) [
  | some (before, after) ↦ some (a ∷ before, after)
  | none ↦ if a == c then some ([], s) else none
]

abbrev host_of : Bytes → Bytes → Option (Bytes × Bytes)
host_of host port =
    if contains b'[' host || contains b']' host || contains b'[' port || contains b']' port
    then none
    else some (host, port)

abbrev bracketed_host : Option (Bytes × Bytes) → Bytes → Option (Bytes × Bytes)
bracketed_host none port = none
bracketed_host (some (host, after)) port = if is_empty after then host_of host port else none

host_before : Bytes → Bytes → Option (Bytes × Bytes)
host_before [] port = host_of [] port
host_before (first ∷ inner) port =
    if first == b'['
    then bracketed_host (cut b']' inner) port
    else if contains b':' (first ∷ inner)
    then none
    else host_of (first ∷ inner) port

-- net.SplitHostPort; none stands for its errors. The port starts after the last colon; a host in
-- brackets, "[host]:port", may hold colons.
unfoldable pub split_host_port : Bytes → Option (Bytes × Bytes)
unfolding contains cut cut_last host_before
split_host_port s = elim (cut_last b':' s) [
  | none ↦ none
  | some (before, port) ↦ host_before before port
]

split_tests :
    (split_host_port (bytes "a.b:80") ≡ some (bytes "a.b", bytes "80"))
    × (split_host_port (bytes "[::1]:80") ≡ some (bytes "::1", bytes "80"))
    × (split_host_port (bytes "::1") ≡ none)
    × (split_host_port (bytes "[::1]") ≡ none)
    × (split_host_port (bytes "a.b") ≡ none)
unfolding split_host_port
split_tests = (refl, refl, refl, refl, refl)
