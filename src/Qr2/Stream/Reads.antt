-- ===== src/Qr2/Stream/Reads.antt =====
-- A method that reads exactly some bytes, whatever comes behind them, and how such methods compose.
use os_serverlist_sync.Base.{
  go_on, ℕ, suc, ◌≤◌, ◌<◌, List, [], ◌∷◌, ◌++◌, ◌≡◌, refl, ap, subst, arith, length, length-append,
  append_assoc, Result, ok,
}
use os_serverlist_sync.Base.Bytes.{Bytes}
use os_serverlist_sync.Base.Conn.{Read, concat, arrive}
use os_serverlist_sync.Base.Net.{AddrPort}
use os_serverlist_sync.Reader.{index}
use os_serverlist_sync.Qr2.Stream.{
  Cipher, ServerListEngine, Step, pure, lift, ◌>>=◌, unless_failed, wait_for_data_of_len, fetch,
  read_one, size,
}
use os_serverlist_sync.Qr2.Stream.Rules.{
  IsStream, Sees, Leaves, Leaves-nothing, Leaves-append, length-plain, wait_for_data_of_len-Sees,
}

-- Where the connection brings `bs`, the method returns `a`, gives `found` to `BeginQuery`, and what
-- comes behind `bs` comes next.
pub record Reads {ℓ} (C : Cipher) {A : Type ℓ} (p : Step C.Key A) (bs : Bytes) (a : A)
    (found : List AddrPort) : Type ℓ where
  pub run :
      (end : List Read) (se : ServerListEngine C.Key) (rest : Bytes)
      → Sees C end se (bs ++ rest)
      → (se' : ServerListEngine C.Key) × (p se ≡ ok (a, se'))
        × Sees C end se' rest
        × Leaves se se' found

module _ {ℓ} (C : Cipher) {A : Type ℓ} where
  pub Reads-pure : (a : A) → Reads C (pure a) [] a []
  Reads-pure a = record { run = λ end se rest h. (se, refl, h, Leaves-nothing se) }

  pub Reads-lift : (r : Result A) (a : A) → r ≡ ok a → Reads C (lift r) [] a []
  Reads-lift r a e = record { run = λ end se rest h. (se, rw e refl, h, Leaves-nothing se) }

module _ {ℓ κ} (C : Cipher) {A : Type ℓ} {B : Type κ} where
  pub Reads-bind :
      (p : Step C.Key A) (f : A → Step C.Key B) (bs cs : Bytes) (a : A) (b : B)
      (found more : List AddrPort)
      → Reads C p bs a found
      → Reads C (f a) cs b more
      → Reads C (p >>= f) (bs ++ cs) b (found ++ more)
  unfolding ◌>>=◌
  Reads-bind p f bs cs a b found more r t = record {
    run = λ end se rest h.
        let (se1, e1, h1, l1) =
          r.run end se (cs ++ rest) (subst (Sees C end se) (append_assoc bs cs rest) h) in
        let (se2, e2, h2, l2) = t.run end se1 rest h1 in (se2, rw e1 e2, h2, Leaves-append l1 l2);
  }

  pub Reads-map :
      (p : Step C.Key A) (g : A → B) (bs : Bytes) (a : A) (found : List AddrPort)
      → Reads C p bs a found
      → Reads C (p >>= λ x. pure (g x)) bs (g a) found
  unfolding ◌>>=◌
  Reads-map p g bs a found r = record {
    run = λ end se rest h. let (se', e, h', l) = r.run end se rest h in (se', rw e refl, h', l);
  }

module _ (C : Cipher) where
  pub Reads-unless :
      (p : Step C.Key (Unit {0})) (bs : Bytes) (found : List AddrPort)
      → Reads C p bs tt found
      → Reads C (unless_failed p) bs tt found
  unfolding unless_failed
  Reads-unless p bs found r = record {
    run = λ end se rest h.
        let (se', e, h', l) = r.run end se rest h in (se', go_on _ h.no_error e, h', l);
  }

module _ (C : Cipher) (law : IsStream C) where
  pub Reads-wait :
      (bs : Bytes) (n : ℕ) → length bs ≡ n → Reads C (wait_for_data_of_len C n) bs bs []
  Reads-wait bs n e = record {
    run = λ end se rest h. rw (← e) (wait_for_data_of_len-Sees C law end se bs rest h);
  }

  pub Reads-one : (b : ℕ) → Reads C (read_one C) (b ∷ []) b []
  unfolding read_one index
  Reads-one b =
      Reads-bind C _ _ (b ∷ []) [] (b ∷ []) b [] [] (Reads-wait (b ∷ []) 1 refl)
        (Reads-lift C _ b refl)

  pub Reads-fetch :
      (n : ℕ) (next : Bytes → Step C.Key (Unit {0})) (a bs : Bytes) (found : List AddrPort)
      → length a ≡ n
      → Reads C (next a) bs tt found
      → Reads C (fetch C n next) (a ++ bs) tt found
  unfolding fetch
  Reads-fetch n next a bs found e r =
      Reads-bind C _ _ a bs a tt [] found (Reads-wait a n e) (Reads-unless C (next a) bs found r)

  size-arrive : (cs : List Bytes) (end : List Read) → length (concat cs) ≤ size (arrive cs end)
  size-arrive [] end = omega arith
  size-arrive (c ∷ cs) end = omega (arith, size-arrive cs end, length-append c (concat cs))

  pub size-Sees :
      (end : List Read) (se : ServerListEngine C.Key) (text : Bytes)
      → Sees C end se text
      → length text ≤ size se.connection
  size-Sees end se text h =
      let all = length-plain C law se.enctype_x (concat h.chunks) in
      rw h.brings (omega (arith, size-arrive h.chunks end, all, ap length h.meaning))

  -- A loop whose fuel is the number of bytes that are left, and one, has more fuel than it reads bytes.
  pub Reads-fuel :
      {A : Type 0} (p : ℕ → Step C.Key A) (bs : Bytes) (a : A) (found : List AddrPort)
      → ((fuel : ℕ) → length bs < fuel → Reads C (p fuel) bs a found)
      → Reads C (λ se. p (suc (size se.connection)) se) bs a found
  Reads-fuel p bs a found r = record {
    run = λ end se rest h.
        let enough : length bs < suc (size se.connection) =
          omega (arith, size-Sees end se (bs ++ rest) h, length-append bs rest) in
        (r (suc (size se.connection)) enough).run end se rest h;
  }

  -- A fetch, with the statements behind it left to run.
  pub fetch-Sees :
      (n : ℕ) (next : Bytes → Step C.Key (Unit {0})) (end : List Read) (se : ServerListEngine C.Key)
      (a rest : Bytes)
      → length a ≡ n
      → Sees C end se (a ++ rest)
      → (se' : ServerListEngine C.Key) × (fetch C n next se ≡ next a se')
        × Sees C end se' rest
        × Leaves se se' []
  unfolding fetch ◌>>=◌ unless_failed
  fetch-Sees n next end se a rest size h =
      let (se', e, h', l) = wait_for_data_of_len-Sees C law end se a rest h in
      (se', rw (← size, e) (go_on _ h'.no_error refl), h', l)
