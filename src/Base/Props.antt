-- ===== src/Base/Props.antt =====
-- Go's `map[string]string`, as an association list with each key once.
use mathlib.Core.List.{List, [], ◌∷◌}
use mathlib.Core.Option.{Option, none, some}
use mathlib.Core.Path.{◌≡◌, refl}
use native.Mathlib.Omega.{arith}
use os_serverlist_sync.Base.Tests.{if◌then◌else◌}
use os_serverlist_sync.Base.Bytes.{Bytes, bytes_eq, bytes_eq_iff}

abbrev pub Props : Type 0
Props = List (Bytes × Bytes)

-- m[k]
unfoldable pub lookup : Bytes → Props → Option Bytes
lookup k [] = none
lookup k ((j, v) ∷ m) = if bytes_eq j k then some v else lookup k m

-- m[k] = v
unfoldable pub insert : Bytes → Bytes → Props → Props
insert k v [] = (k, v) ∷ []
insert k v ((j, w) ∷ m) = if bytes_eq j k then (k, v) ∷ m else (j, w) ∷ insert k v m

pub lookup-insert :
    (k j v : Bytes) (m : Props)
    → lookup j (insert k v m) ≡ (if bytes_eq k j then some v else lookup j m)
unfolding lookup insert
lookup-insert k j v [] = refl
lookup-insert k j v ((i, w) ∷ m) =
    ground (arith, bytes_eq_iff k j, bytes_eq_iff i k, bytes_eq_iff i j, lookup-insert k j v m)
