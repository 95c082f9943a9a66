-- ===== src/Tests/Answers.antt =====
-- An answer with a length that is too large: an example of its theorem.
use os_serverlist_sync.Base.{ℕ, zero, suc, [], ◌∷◌, ◌++◌, ◌≡◌, refl, arith, panic, slice_range}
use os_serverlist_sync.Base.Bytes.{Bytes, codes}
use os_serverlist_sync.Base.Int.{pos}
use os_serverlist_sync.Base.Net.{v4, UdpAddr}
use os_serverlist_sync.Samp.Query as Samp
use os_serverlist_sync.Samp.Query.Answers.{magic, counts_bytes, listen_step-overlong}

abbrev source : UdpAddr
source = record { ip = v4 0x7f000001; port = pos 7778 }

-- A cleared receive buffer.
abbrev cleared : ℕ → Bytes
cleared zero = []
cleared (suc n) = 0 ∷ cleared n

abbrev echo : Bytes
echo = 127 ∷ 0 ∷ 0 ∷ 1 ∷ 97 ∷ 30 ∷ b'i' ∷ []

listen_step-overlong_example :
    Samp.listen_step (cleared 64) (magic (echo ++ (counts_bytes 0 3 50 1000 ++ codes "x"))) source
    ≡ panic slice_range
listen_step-overlong_example =
    listen_step-overlong (cleared 64) echo 0 3 50 1000 (codes "x") source refl (omega arith)
      (omega arith) (omega arith) (omega arith) (omega arith)
