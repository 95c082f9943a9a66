-- ===== src/Qr2/ServerList/Parts.antt =====
-- The parts of a server in the list: strings, values of its keys, rules, and parts of fixed size.
use os_serverlist_sync.Base.{
  ℕ, zero, suc, ◌≤◌, ◌<◌, ◌≢◌, true, false, List, [], ◌∷◌, ◌++◌, map, ◌≡◌, refl, subst, arith, ◌==◌,
  All, length, length-append, append_assoc, append-nil, if◌then◌else◌, Bool-cases, inl, inr,
}
use os_serverlist_sync.Base.Bits.{has_bit}
use os_serverlist_sync.Base.Bytes.{Bytes, string_of_byte, to_utf8}
use os_serverlist_sync.Base.Net.{AddrPort}
use os_serverlist_sync.Qr2.Query.Pairs.{to_utf8-pos}
use os_serverlist_sync.Qr2.Stream.{Cipher, Step, ◌>>=◌}
use os_serverlist_sync.Qr2.Stream.Rules.{IsStream}
use os_serverlist_sync.Qr2.Stream.Reads.{
  Reads, Reads-pure, Reads-bind, Reads-map, Reads-unless, Reads-wait, Reads-one, Reads-fetch,
  Reads-fuel,
}
use os_serverlist_sync.Qr2.ServerList.{
  FieldKeyInfo, keytype_string, keytype_byte, keytype_short, has_keys_flag, has_full_rules_flag,
  nts_loop, read_nts, fields_loop, skip_values, rules_loop, skip_part, skip_keys, skip_rules,
}

abbrev pub HasNoNul : Bytes → Type 0
HasNoNul s = All (λ b. b ≢ 0) s

-- A string as it is sent.
abbrev pub nts : Bytes → Bytes
nts s = s ++ (0 ∷ [])

-- The value of a key: a string with its mark, a byte, a short, or nothing for a type that the
-- program does not know.
pub data Value : Type 0 where
  text : Bytes → Value
  byte : ℕ → Value
  short : ℕ → ℕ → Value
  unknown : Value

abbrev pub value_bytes : Value → Bytes
value_bytes (text s) = 0xff ∷ nts s
value_bytes (byte b) = b ∷ []
value_bytes (short a b) = a ∷ b ∷ []
value_bytes unknown = []

abbrev pub IsValue : FieldKeyInfo → Value → Type 0
IsValue f (text s) = (f.type ≡ 0) × HasNoNul s
IsValue f (byte b) = f.type ≡ 1
IsValue f (short a b) = f.type ≡ 2
IsValue f unknown = 3 ≤ f.type

-- One value for each field, of its type.
abbrev pub AreValues : List FieldKeyInfo → List Value → Type 0
AreValues [] [] = Unit
AreValues (f ∷ fs) (v ∷ vs) = IsValue f v × AreValues fs vs
AreValues _ _ = ⊥

abbrev pub values_bytes : List Value → Bytes
values_bytes [] = []
values_bytes (v ∷ vs) = value_bytes v ++ values_bytes vs

abbrev pub IsRule : Bytes × Bytes → Type 0
IsRule (k, v) = (k ≢ []) × HasNoNul k × HasNoNul v

abbrev pub rules_bytes : List (Bytes × Bytes) → Bytes
rules_bytes [] = 0 ∷ []
rules_bytes ((k, v) ∷ rs) = nts k ++ (nts v ++ rules_bytes rs)

-- The fields as they are sent, name and type, and as they are read.
abbrev pub fields_bytes : List (Bytes × ℕ) → Bytes
fields_bytes [] = []
fields_bytes ((name, type) ∷ fs) = type ∷ (nts name ++ fields_bytes fs)

abbrev pub fields_of : List (Bytes × ℕ) → List FieldKeyInfo
fields_of = map (λ f. record { name = to_utf8 f.0; type = f.1 })

-- A part that stands there if the flag is set.
abbrev pub part : ℕ → ℕ → Bytes → Bytes
part flags flag bs = if has_bit flags flag then bs else []

module _ (C : Cipher) (law : IsStream C) where
  nts_loop-Reads :
      (s : Bytes) (fuel : ℕ) (value : Bytes)
      → HasNoNul s
      → length (nts s) < fuel
      → Reads C (nts_loop C fuel value) (nts s) (value ++ to_utf8 s) []
  unfolding nts_loop to_utf8
  nts_loop-Reads s zero value h enough = absurd (omega (arith, enough))
  nts_loop-Reads [] (suc fuel) value h enough =
      Reads-bind C _ _ (0 ∷ []) [] 0 _ [] [] (Reads-one C law 0)
        (rw append-nil (Reads-pure C value))
  nts_loop-Reads (b ∷ s) (suc fuel) value h enough =
      let char : (b == 0) ≡ false = ground (arith, h.0) in
      let ih = nts_loop-Reads s fuel (value ++ string_of_byte b) h.1 (omega (arith, enough)) in
      Reads-bind C _ _ (b ∷ []) (nts s) b _ [] [] (Reads-one C law b) (
        rw char (
          subst (λ r. Reads C (nts_loop C fuel (value ++ string_of_byte b)) (nts s) r [])
            (append_assoc value (string_of_byte b) (to_utf8 s)) ih))

  -- `ReadNTS` returns a string without NUL, its bytes as UTF-8, and reads the NUL behind it.
  pub read_nts-Reads : (s : Bytes) → HasNoNul s → Reads C (read_nts C) (nts s) (to_utf8 s) []
  unfolding read_nts
  read_nts-Reads s h =
      Reads-fuel C law (λ fuel. nts_loop C fuel []) (nts s) (to_utf8 s) []
        (λ fuel enough. nts_loop-Reads s fuel [] h enough)

  pub fields_loop-Reads :
      (names : List (Bytes × ℕ))
      → All (λ f. HasNoNul f.0) names
      → Reads C (fields_loop C (length names)) (fields_bytes names) (fields_of names) []
  unfolding fields_loop
  fields_loop-Reads [] h = Reads-pure C []
  fields_loop-Reads ((name, type) ∷ fs) h =
      Reads-bind C _ _ (type ∷ []) (nts name ++ fields_bytes fs) type _ [] [] (Reads-one C law type)
        (Reads-bind C _ _ (nts name) (fields_bytes fs) (to_utf8 name) _ [] []
          (read_nts-Reads name h.0)
          (Reads-map C (fields_loop C (length fs))
            (λ rest. record { name = to_utf8 name; type = type } ∷ rest) (fields_bytes fs)
            (fields_of fs) [] (fields_loop-Reads fs h.1)))

  pub skip_values-Reads :
      (fields : List FieldKeyInfo) (vs : List Value)
      → AreValues fields vs
      → Reads C (skip_values C fields) (values_bytes vs) false []
  unfolding skip_values
  skip_values-Reads [] [] h = Reads-pure C false
  skip_values-Reads [] (v ∷ vs) h = absurd h
  skip_values-Reads (f ∷ fs) [] h = absurd h
  skip_values-Reads (f ∷ fs) (text s ∷ vs) h =
      let rest = skip_values-Reads fs vs h.1 in
      let kind : (f.type == keytype_string) ≡ true = ground (arith, h.0.0) in
      rw kind (
        Reads-bind C _ _ (0xff ∷ []) (nts s ++ values_bytes vs) 0xff false [] []
          (Reads-one C law 0xff)
          (Reads-bind C _ _ (nts s) (values_bytes vs) (to_utf8 s) false [] []
            (read_nts-Reads s h.0.1) rest))
  skip_values-Reads (f ∷ fs) (byte b ∷ vs) h =
      let rest = skip_values-Reads fs vs h.1 in
      let kind : (f.type == keytype_string) ≡ false = ground (arith, h.0) in
      let kind' : (f.type == keytype_byte) ≡ true = ground (arith, h.0) in
      rw (kind, kind')
        (Reads-bind C _ _ (b ∷ []) (values_bytes vs) (b ∷ []) false [] []
          (Reads-wait C law (b ∷ []) 1 refl) rest)
  skip_values-Reads (f ∷ fs) (short a b ∷ vs) h =
      let rest = skip_values-Reads fs vs h.1 in
      let kind : (f.type == keytype_string) ≡ false = ground (arith, h.0) in
      let kind' : (f.type == keytype_byte) ≡ false = ground (arith, h.0) in
      let kind'' : (f.type == keytype_short) ≡ true = ground (arith, h.0) in
      rw (kind, kind', kind'')
        (Reads-bind C _ _ (a ∷ b ∷ []) (values_bytes vs) (a ∷ b ∷ []) false [] []
          (Reads-wait C law (a ∷ b ∷ []) 2 refl) rest)
  skip_values-Reads (f ∷ fs) (unknown ∷ vs) h =
      let kind : (f.type == keytype_string) ≡ false = ground (arith, h.0) in
      let kind' : (f.type == keytype_byte) ≡ false = ground (arith, h.0) in
      let kind'' : (f.type == keytype_short) ≡ false = ground (arith, h.0) in
      rw (kind, kind', kind'') (skip_values-Reads fs vs h.1)

  rules_loop-Reads :
      (rs : List (Bytes × Bytes)) (fuel : ℕ)
      → All IsRule rs
      → length (rules_bytes rs) < fuel
      → Reads C (rules_loop C fuel) (rules_bytes rs) tt []
  unfolding rules_loop
  rules_loop-Reads rs zero h enough = absurd (omega (arith, enough))
  rules_loop-Reads [] (suc fuel) h enough =
      Reads-bind C _ _ (0 ∷ []) [] [] tt [] [] (unfold to_utf8 in read_nts-Reads [] tt)
        (Reads-pure C tt)
  rules_loop-Reads ((k, v) ∷ rs) (suc fuel) h enough =
      let more : (length (to_utf8 k) == 0) ≡ false = to_utf8-pos k h.0.0 in
      let fits : length (rules_bytes rs) < fuel = omega (
        arith,
        enough,
        length-append (nts k) (nts v ++ rules_bytes rs),
        length-append (nts v) (rules_bytes rs),
        length-append k (0 ∷ []),
      ) in
      Reads-bind C _ _ (nts k) (nts v ++ rules_bytes rs) (to_utf8 k) tt [] []
        (read_nts-Reads k h.0.1)
        (rw more (
          Reads-bind C _ _ (nts v) (rules_bytes rs) (to_utf8 v) tt [] [] (read_nts-Reads v h.0.2)
            (rules_loop-Reads rs fuel h.1 fits)))

  -- The statements behind a part, with what they read and find.
  module _ (next : Step C.Key (Unit {0})) (bs : Bytes) (found : List AddrPort)
      (r : Reads C next bs tt found) where
    pub skip_part-Reads :
        (flags flag n : ℕ) (a : Bytes)
        → length a ≡ n
        → Reads C (skip_part C flags flag n next) (part flags flag a ++ bs) tt found
    unfolding skip_part
    skip_part-Reads flags flag n a e = elim (Bool-cases (has_bit flags flag)) [
      | inl set ↦ rw set (Reads-fetch C law n (λ _. next) a bs found e r)
      | inr clear ↦ rw clear r
    ]

    pub skip_keys-Reads :
        (flags : ℕ) (fields : List FieldKeyInfo) (vs : List Value)
        → AreValues fields vs
        → Reads C
            (skip_keys C flags fields next)
            (part flags has_keys_flag (values_bytes vs) ++ bs)
            tt
            found
    unfolding skip_keys
    skip_keys-Reads flags fields vs h = elim (Bool-cases (has_bit flags has_keys_flag)) [
      | inl set ↦ rw set (
          Reads-bind C _ _ (values_bytes vs) bs false tt [] found (skip_values-Reads fields vs h)
            (Reads-unless C next bs found r))
      | inr clear ↦ rw clear r
    ]

    pub skip_rules-Reads :
        (flags : ℕ) (rs : List (Bytes × Bytes))
        → All IsRule rs
        → Reads C
            (skip_rules C flags next)
            (part flags has_full_rules_flag (rules_bytes rs) ++ bs)
            tt
            found
    unfolding skip_rules ◌>>=◌
    skip_rules-Reads flags rs h = elim (Bool-cases (has_bit flags has_full_rules_flag)) [
      | inl set ↦ rw set (
          Reads-bind C _ _ (rules_bytes rs) bs tt tt [] found
            (Reads-fuel C law (rules_loop C) (rules_bytes rs) tt []
              (λ fuel enough. rules_loop-Reads rs fuel h enough))
            (Reads-unless C next bs found r))
      | inr clear ↦ rw clear r
    ]
