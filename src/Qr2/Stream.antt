-- ===== src/Qr2/Stream.antt =====
-- src/Engines/QR2/SBV2ServerListEngine.go, the reading from the connection: plain bytes first, and
-- behind the cryptographic header bytes that go through a stream cipher. The cipher is the C code of
-- enctypex_decoder.c, a parameter.
pub mod Rules
pub mod Reads
pub mod Broken
use os_serverlist_sync.Base.{
  ℕ, zero, suc, ◌+◌, ◌-◌, Bool, true, false, ◌||◌, List, [], ◌∷◌, ◌++◌, Option, none, some, ltb,
  length, take, drop, replicate, if◌then◌else◌, Result, ok, ◌>>=◌ as bind,
}
use os_serverlist_sync.Base.Bytes.{Bytes}
use os_serverlist_sync.Base.Conn.{Read, got, eof, failed}
use os_serverlist_sync.Base.Net.{AddrPort}
use os_serverlist_sync.Reader.{index}

-- `enctypex_funcx` makes the 261 bytes of state from the secret key, the challenge and the key of
-- the header; `enctypex_func6` decodes bytes and moves the state.
pub record Cipher : Type 1 where
  pub Key : Type 0
  pub funcx : Bytes → Bytes → Bytes → Key
  pub func6 : Key → Bytes → Bytes × Key

pub record ServerListEngineParams : Type 0 where
  pub gamename : Bytes
  pub secretkey : Bytes
  pub query_gamename : Bytes
  pub fields : Bytes

-- The engine's fields: `enctypeXData` with `enctypeXReady`, the rest of the connection, the messages
-- written, and the addresses that went to `BeginQuery`, in order.
pub record ServerListEngine (Key : Type 0) : Type 0 where
  pub connection : List Read
  pub enctype_x : Option Key
  pub got_fatal_error : Bool
  pub challenge : Bytes
  pub sent : List Bytes
  pub queried : List AddrPort

-- What the loop of `waitForDataOfLen` reads, whether it ends by an error, and the rest of the
-- connection.
pub record Received : Type 0 where
  pub bytes : Bytes
  pub is_error : Bool
  pub rest : List Read

unfoldable pub read_remaining : ℕ → List Read → Received
read_remaining zero conn = record { bytes = []; is_error = false; rest = conn }
read_remaining (suc n) [] = record { bytes = []; is_error = true; rest = [] }
read_remaining (suc n) (eof ∷ rest) = record { bytes = []; is_error = true; rest = rest }
read_remaining (suc n) (failed ∷ rest) = record { bytes = []; is_error = true; rest = rest }
read_remaining (suc n) (got c ∷ rest) =
    let more = read_remaining (suc n - length c) rest in
    if ltb (suc n) (length c)
    then record { bytes = take (suc n) c; is_error = false; rest = got (drop (suc n) c) ∷ rest }
    else record more { bytes = c ++ more.bytes }

-- A method of the engine: it may panic, and changes the engine.
abbrev pub Step {ℓ} : Type 0 → Type ℓ → Type ℓ
Step K A = ServerListEngine K → Result (A × ServerListEngine K)

module _ {ℓ} {K : Type 0} {A : Type ℓ} where
  abbrev pub pure : A → Step K A
  pure a se = ok (a, se)

  -- A computation that may panic and does not look at the engine.
  abbrev pub lift : Result A → Step K A
  lift r se = bind r (λ a. ok (a, se))

module _ {ℓ κ} {K : Type 0} {A : Type ℓ} {B : Type κ} where
  infixl 5 ◌>>=◌
  unfoldable pub ◌>>=◌ : Step K A → (A → Step K B) → Step K B
  ◌>>=◌ p f se = bind (p se) (λ r. f r.0 r.1)

infixl 5 ◌>>◌
abbrev pub ◌>>◌ {ℓ κ} : {K : Type 0} {A : Type ℓ} {B : Type κ} → Step K A → Step K B → Step K B
p >> q = p >>= λ _. q

abbrev pub return_here : {K : Type 0} → Step K (Unit {0})
return_here se = ok (tt, se)

-- `if se.gotFatalError { return }`, with the statements behind it.
unfoldable pub unless_failed : {K : Type 0} → Step K (Unit {0}) → Step K (Unit {0})
unless_failed next se = if se.got_fatal_error then ok (tt, se) else next se

module _ (C : Cipher) where
  -- `waitForDataOfLen`. Bytes that are missing behind an error are zeros in plain data; encoded
  -- data ends where the error came.
  unfoldable pub wait_for_data_of_len : ℕ → Step C.Key Bytes
  wait_for_data_of_len n se =
      let r = read_remaining n se.connection in
      let se1 : ServerListEngine C.Key = record se {
        connection = r.rest;
        got_fatal_error = se.got_fatal_error || r.is_error;
      } in
      elim se.enctype_x [
        | none ↦ ok (r.bytes ++ replicate (n - length r.bytes) 0, se1)
        | some key ↦
            let decoded = C.func6 key r.bytes in
            ok (decoded.0, record se1 { enctype_x = some decoded.1 })
      ]

  -- `b := se.waitForDataOfLen(n); if se.gotFatalError { return }`, with the statements behind it.
  unfoldable pub fetch : ℕ → (Bytes → Step C.Key (Unit {0})) → Step C.Key (Unit {0})
  fetch n next = wait_for_data_of_len n >>= λ b. unless_failed (next b)

  -- `se.waitForDataOfLen(1)[0]`, with no look at the error.
  unfoldable pub read_one : Step C.Key ℕ
  read_one = wait_for_data_of_len 1 >>= λ b. lift (index b 0)

-- How many bytes the connection still brings.
abbrev pub size : List Read → ℕ
size [] = 0
size (got c ∷ rest) = length c + size rest
size (_ ∷ rest) = size rest
