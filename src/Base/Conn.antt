-- ===== src/Base/Conn.antt =====
-- A TCP connection as the list of what its next calls of `Read` return. A call beyond the list
-- returns end of file.
use mathlib.Core.Bool.{Bool, false}
use mathlib.Core.List.{List, [], ◌∷◌, ◌++◌}
use mathlib.Core.Path.{◌≡◌}
use os_serverlist_sync.Base.Tests.{◌==◌}
use os_serverlist_sync.Base.Lists.{length}
use os_serverlist_sync.Base.Bytes.{Bytes}

-- What `Read` returns: some bytes, no bytes with `io.EOF`, or another error.
pub data Read : Type 0 where
  got : Bytes → Read
  eof : Read
  failed : Read

abbrev pub is_empty : Bytes → Bool
is_empty s = length s == 0

abbrev pub NotEmpty : Bytes → Type 0
NotEmpty c = is_empty c ≡ false

abbrev pub concat : List Bytes → Bytes
concat [] = []
concat (s ∷ ss) = s ++ concat ss

-- No more bytes come.
abbrev pub IsEnd : List Read → Type 0
IsEnd [] = Unit
IsEnd (eof ∷ _) = Unit
IsEnd (failed ∷ _) = Unit
IsEnd (got _ ∷ _) = ⊥

-- The reads that bring these chunks.
abbrev pub arrive : List Bytes → List Read → List Read
arrive [] end = end
arrive (c ∷ cs) end = got c ∷ arrive cs end
