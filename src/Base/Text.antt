-- ===== src/Base/Text.antt =====
-- strings.Split, strings.Index and strings.HasPrefix.
pub mod Split
use Prim.Native.Nat.{ℕ, zero, suc, ◌+◌, ◌-◌}
use mathlib.Core.Bool.{Bool, true, false}
use mathlib.Core.List.{List, [], ◌∷◌, ◌++◌}
use mathlib.Core.Option.{Option, none, some}
use mathlib.Core.Option
use os_serverlist_sync.Base.Tests.{◌==◌, if◌then◌else◌}
use os_serverlist_sync.Base.Lists.{length}
use os_serverlist_sync.Base.Bytes.{Bytes}

-- Whether `s` starts with `sep`.
unfoldable pub starts_with : Bytes → Bytes → Bool
starts_with [] s = true
starts_with (a ∷ sep) [] = false
starts_with (a ∷ sep) (c ∷ s) = if a == c then starts_with sep s else false

-- The scan of `strings.Split`, for a separator that is not empty: `piece` is what has been read of
-- the current piece, `k` how many bytes of a separator are still to be passed over.
unfoldable pub split_loop : Bytes → ℕ → Bytes → Bytes → List Bytes
split_loop sep k piece [] = piece ∷ []
split_loop sep (suc k) piece (c ∷ s) = split_loop sep k piece s
split_loop sep zero piece (c ∷ s) =
    let cut = piece ∷ split_loop sep (length sep - 1) [] s in
    let more = split_loop sep zero (piece ++ c ∷ []) s in
    if starts_with sep (c ∷ s) then cut else more

unfoldable pub split : Bytes → Bytes → List Bytes
split s sep = split_loop sep zero [] s

-- strings.Index; `none` for -1.
unfoldable pub index_of : Bytes → Bytes → Option ℕ
index_of [] sub = if starts_with sub [] then some 0 else none
index_of (c ∷ s) sub = if starts_with sub (c ∷ s) then some 0 else Option.map suc (index_of s sub)
