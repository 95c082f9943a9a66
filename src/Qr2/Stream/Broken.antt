-- ===== src/Qr2/Stream/Broken.antt =====
-- A method that panics where the connection, with the cipher set up, brings some bytes and then ends.
use os_serverlist_sync.Base.{
  ℕ, suc, ◌<◌, true, List, [], ◌∷◌, ◌++◌, Option, none, some, ◌≡◌, refl, ap, ◌∙◌, arith, length,
  All, panic, index_range,
}
use os_serverlist_sync.Base.Bytes.{Bytes}
use os_serverlist_sync.Base.Conn.{Read, got, eof, failed, NotEmpty, concat, IsEnd, arrive}
use os_serverlist_sync.Base.Net.{AddrPort}
use os_serverlist_sync.Reader.{index}
use os_serverlist_sync.Qr2.Stream.{
  Cipher, ServerListEngine, Step, ◌>>=◌, read_remaining, wait_for_data_of_len, fetch, read_one,
  size,
}
use os_serverlist_sync.Qr2.Stream.Reads.{Reads, fetch-Sees, size-Sees}
use os_serverlist_sync.Qr2.Stream.Rules.{IsStream, Sees, is_encoded, length-plain}

encoded-key : {A : Type 0} (o : Option A) → is_encoded o ≡ true → (key : A) × (o ≡ some key)
encoded-key none h = absurd (ground arith)
encoded-key (some key) h = (key, refl)

index-empty : (b : Bytes) → length b ≡ 0 → index b 0 ≡ panic index_range
unfolding index
index-empty [] h = refl
index-empty (x ∷ b) h = absurd (omega (arith, h))

read_remaining-ended :
    (cs : List Bytes) (end : List Read)
    → All NotEmpty cs
    → length (concat cs) ≡ 0
    → IsEnd end
    → (rest : List Read) × (read_remaining 1 (arrive cs end)
        ≡ record { bytes = []; is_error = true; rest = rest })
unfolding read_remaining
read_remaining-ended [] [] h n e = ([], refl)
read_remaining-ended [] (eof ∷ rest) h n e = (rest, refl)
read_remaining-ended [] (failed ∷ rest) h n e = (rest, refl)
read_remaining-ended [] (got c ∷ rest) h n e = absurd e
read_remaining-ended ([] ∷ cs) end h n e = absurd (ground (arith, h.0))
read_remaining-ended ((b ∷ c) ∷ cs) end h n e = absurd (omega (arith, n))

pub record Panics {ℓ} (C : Cipher) {A : Type ℓ} (p : Step C.Key A) (bs : Bytes) : Type ℓ where
  pub run :
      (end : List Read) (se : ServerListEngine C.Key)
      → IsEnd end
      → is_encoded se.enctype_x ≡ true
      → Sees C end se bs
      → p se ≡ panic index_range

module _ {ℓ κ} (C : Cipher) {A : Type ℓ} {B : Type κ} where
  pub Panics-first :
      (p : Step C.Key A) (f : A → Step C.Key B) (bs : Bytes) → Panics C p bs → Panics C (p >>= f) bs
  unfolding ◌>>=◌
  Panics-first p f bs h = record { run = λ end se e k s. let r = h.run end se e k s in rw r refl }

  pub Panics-then :
      (p : Step C.Key A) (f : A → Step C.Key B) (bs cs : Bytes) (a : A) (found : List AddrPort)
      → Reads C p bs a found
      → Panics C (f a) cs
      → Panics C (p >>= f) (bs ++ cs)
  unfolding ◌>>=◌
  Panics-then p f bs cs a found r h = record {
    run = λ end se e k s.
        let (se', first, s', l) = r.run end se cs s in
        rw first (h.run end se' e (l.still_encoded k) s');
  }

module _ (C : Cipher) (law : IsStream C) where
  pub Panics-fetch :
      (n : ℕ) (next : Bytes → Step C.Key (Unit {0})) (a bs : Bytes)
      → length a ≡ n
      → Panics C (next a) bs
      → Panics C (fetch C n next) (a ++ bs)
  Panics-fetch n next a bs e h = record {
    run = λ end se end_ok k s.
        let (se', first, s', l) = fetch-Sees C law n next end se a bs e s in
        first ∙ h.run end se' end_ok (l.still_encoded k) s';
  }

  -- A `Read` at the end of the connection.
  pub Panics-one : Panics C (read_one C) []
  unfolding read_one ◌>>=◌ wait_for_data_of_len
  Panics-one = record {
    run = λ end se e k s.
        let (key, is_key) = encoded-key se.enctype_x k in
        let none_left : length (concat s.chunks) ≡ 0 =
          omega (arith, length-plain C law se.enctype_x (concat s.chunks), ap length s.meaning) in
        let (rest, ended) = read_remaining-ended s.chunks end s.not_empty none_left e in
        let nothing = index-empty (C.func6 key []).0 (law.length-func6 key []) in
        rw (is_key, s.brings, ended, nothing) refl;
  }

  pub Panics-fuel :
      {A : Type 0} (p : ℕ → Step C.Key A) (bs : Bytes)
      → ((fuel : ℕ) → length bs < fuel → Panics C (p fuel) bs)
      → Panics C (λ se. p (suc (size se.connection)) se) bs
  Panics-fuel p bs h = record {
    run = λ end se e k s.
        let enough : length bs < suc (size se.connection) =
          omega (arith, size-Sees C law end se bs s) in
        (h (suc (size se.connection)) enough).run end se e k s;
  }
