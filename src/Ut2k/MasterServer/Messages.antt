-- ===== src/Ut2k/MasterServer/Messages.antt =====
-- Messages of the master server: the length, which must come in one `Read`, and the bytes, however TCP
-- cuts them.
use os_serverlist_sync.Base.{
  ℕ, zero, suc, take, drop, ◌≤◌, ◌+◌, ◌-◌, ◌<◌, ◌^◌, true, false, List, [], ◌∷◌, ◌++◌, some, ◌≡◌,
  refl, ap, ◌∙◌, arith, leb, ltb, ◌&&◌, ◌%◌, All, length, length-append, append_assoc,
  take-length_append, ok,
}
use os_serverlist_sync.Base.Bytes.{Bytes, put_uint32_le}
use os_serverlist_sync.Base.Conn.{Read, got, NotEmpty, concat, arrive}
use os_serverlist_sync.Reader.{index, slice, uint32_le}
use os_serverlist_sync.Reader.Rules.{from_le}
use os_serverlist_sync.Ut2k.MasterServer.{
  UtmsServerListEngine, read_length, read_expected, receive, wait_for_data, read_compact_string,
  get_compact_string_buffer,
}

-- The reads that bring a message: its length in one, its bytes in these chunks.
abbrev pub message : List Bytes → List Read → List Read
message cs rest = got (put_uint32_le (length (concat cs))) ∷ arrive cs rest

-- The connection brings these messages, the length of each in one `Read` and its bytes in chunks of any
-- size but none, and then `end`.
pub data Delivers (end : List Read) : List Bytes → List Read → Type 0 where
  none_left : Delivers end [] end
  next :
      {m : Bytes} {ms : List Bytes} {conn : List Read}
      → (cs : List Bytes) → concat cs ≡ m
      → All NotEmpty cs
      → length (concat cs) < 2 ^ 32
      → Delivers end ms conn
      → Delivers end (m ∷ ms) (message cs conn)

read_expected-arrive :
    (cs : List Bytes) (end : List Read)
    → All NotEmpty cs
    → read_expected (length (concat cs)) (arrive cs end) ≡ (some (concat cs), end)
unfolding read_expected
read_expected-arrive [] end h = refl
read_expected-arrive ([] ∷ cs) end h = absurd (ground (arith, h.0))
read_expected-arrive ((b ∷ c) ∷ cs) end h =
    let ih = read_expected-arrive cs end h.1 in
    let size : length (c ++ concat cs) ≡ length c + length (concat cs) =
      length-append c (concat cs) in
    let rest : suc (length (c ++ concat cs)) - suc (length c) ≡ length (concat cs) =
      omega (arith, size) in
    let fits : ltb (suc (length (c ++ concat cs))) (suc (length c)) ≡ false =
      ground (arith, size) in
    rw (fits, rest, ih) refl

-- `waitForData` takes one whole message.
pub wait_for_data-message :
    (se : UtmsServerListEngine) (cs : List Bytes) (rest : List Read)
    → All NotEmpty cs
    → length (concat cs) < 2 ^ 32
    → wait_for_data (record se { connection = message cs rest })
      ≡ ok (record se { buffer = concat cs; current_offset = 0; connection = rest })
unfolding wait_for_data read_length
wait_for_data-message se cs rest h b =
    rw (from_le (length (concat cs)) [] b)
      (ap (λ m. ok (receive se m)) (read_expected-arrive cs rest h))

-- A master server's message is read whole: if the connection brings a message, its length of four
-- bytes in one read and its bytes in chunks of any size but none, then `waitForData` returns with the
-- message in the buffer and the offset at its start, and the connection brings the messages behind it.
pub wait_for_data-Delivers :
    (se : UtmsServerListEngine) (m : Bytes) (ms : List Bytes) (conn end : List Read)
    → Delivers end (m ∷ ms) conn
    → (rest : List Read) × (wait_for_data (record se { connection = conn })
        ≡ ok (record se { buffer = m; current_offset = 0; connection = rest }))
      × Delivers end ms rest
wait_for_data-Delivers se m ms _ end (next {conn = rest} cs e n b d) = (
  rest,
  wait_for_data-message se cs rest n b
      ∙ ap (λ x. ok (record se { buffer = x; current_offset = 0; connection = rest })) e,
  d,
)

read_expected-cut :
    (n : ℕ) (m : Bytes) (rest : List Read)
    → 0 < n
    → n < length m
    → read_expected n (got m ∷ rest) ≡ (some (take n m), got (drop n m) ∷ rest)
unfolding read_expected
read_expected-cut zero m rest some_n less = absurd (omega (arith, some_n))
read_expected-cut (suc n) m rest some_n less =
    let over : ltb (suc n) (length m) ≡ true = ground (arith, less) in rw over refl

read_expected-two :
    (n : ℕ) (b m : Bytes) (rest : List Read)
    → 0 < length b
    → length b < n
    → n ≡ length m
    → read_expected n (got b ∷ got m ∷ rest)
      ≡ (some (b ++ take (n - length b) m), got (drop (n - length b) m) ∷ rest)
unfolding read_expected
read_expected-two zero b m rest some_b more e = absurd (omega (arith, more))
read_expected-two (suc n) b m rest some_b more e =
    let under : ltb (suc n) (length b) ≡ false = ground (arith, more) in
    let cut =
      read_expected-cut (suc n - length b) m rest (omega (arith, more))
        (omega (arith, more, some_b, e)) in
    rw (under, cut) refl

-- A length that comes in two pieces: if the four bytes of the length of a message of 4 to 255 bytes are
-- read in a piece of one, two or three bytes and another of the rest, and then the message comes in one
-- read, `waitForData` returns with no error, but the rest of the length stands in the buffer in front of
-- the message, and as many bytes of the message's end are left to be read as the next length.
pub wait_for_data-split_length :
    (se : UtmsServerListEngine) (k : ℕ) (m : Bytes) (rest : List Read)
    → 0 < k
    → k < 4
    → 4 ≤ length m
    → length m < 256
    → wait_for_data (record se {
      connection =
          got (take k (put_uint32_le (length m)))
          ∷ got (drop k (put_uint32_le (length m)))
          ∷ got m
          ∷ rest;
    })
      ≡ ok (record se {
        buffer = drop k (put_uint32_le (length m)) ++ take (length m - (4 - k)) m;
        current_offset = 0;
        connection = got (drop (length m - (4 - k)) m) ∷ rest;
      })
unfolding wait_for_data read_length
wait_for_data-split_length se zero m rest some_k less long short = absurd (omega (arith, some_k))
wait_for_data-split_length se (suc zero) m rest some_k less long short =
    let value : uint32_le (take 4 (take 1 (put_uint32_le (length m)) ++ (0 ∷ 0 ∷ 0 ∷ 0 ∷ [])))
        ≡ ok (length m) =
      unfold uint32_le in ap ok (omega (arith, short)) in
    let read =
      read_expected-two (length m) (drop 1 (put_uint32_le (length m))) m rest (omega arith)
        (omega (arith, long)) refl in
    rw (value, read) refl
wait_for_data-split_length se (suc (suc zero)) m rest some_k less long short =
    let value : uint32_le (take 4 (take 2 (put_uint32_le (length m)) ++ (0 ∷ 0 ∷ 0 ∷ 0 ∷ [])))
        ≡ ok (length m) =
      unfold uint32_le in ap ok (omega (arith, short)) in
    let read =
      read_expected-two (length m) (drop 2 (put_uint32_le (length m))) m rest (omega arith)
        (omega (arith, long)) refl in
    rw (value, read) refl
wait_for_data-split_length se (suc (suc (suc zero))) m rest some_k less long short =
    let value : uint32_le (take 4 (take 3 (put_uint32_le (length m)) ++ (0 ∷ 0 ∷ 0 ∷ 0 ∷ [])))
        ≡ ok (length m) =
      unfold uint32_le in ap ok (omega (arith, short)) in
    let read =
      read_expected-two (length m) (drop 3 (put_uint32_le (length m))) m rest (omega arith)
        (omega (arith, long)) refl in
    rw (value, read) refl
wait_for_data-split_length se (suc (suc (suc (suc k)))) m rest some_k less long short =
    absurd (omega (arith, less))

-- A string is read as it was written.
pub read_compact_string-compact :
    (se : UtmsServerListEngine) (s more : Bytes)
    → length s < 255
    → read_compact_string
        (record se { buffer = get_compact_string_buffer s ++ more; current_offset = 0 })
      ≡ ok (s, record se { buffer = get_compact_string_buffer s ++ more; current_offset = 1 })
unfolding read_compact_string get_compact_string_buffer index slice
read_compact_string-compact se s more h =
    let wrap : (length s + 1) % 256 ≡ length s + 1 = omega (arith, h) in
    let size = length-append s (0 ∷ more) in
    let fits : (leb 1 (length s + 1) && leb (length s + 1) (suc (length (s ++ (0 ∷ more)))))
        ≡ true =
      ground (arith, size) in
    let back : length s + 1 - 1 ≡ length s = omega arith in
    rw (append_assoc s (0 ∷ []) more, wrap, fits, back, take-length_append s (0 ∷ more)) refl
