-- ===== src/Qr2/Stream/Rules.antt =====
-- Reading some bytes of a connection that brings them, whatever comes behind, plain or through a
-- stream cipher; and how such readings compose.
use os_serverlist_sync.Base.{
  ℕ, zero, suc, ◌+◌, ◌-◌, ◌≤◌, Bool, true, false, List, [], ◌∷◌, ◌++◌, Option, none, some, ◌≡◌,
  refl, sym, ap, subst, ◌∙◌, arith, ltb, All, length, length-append, length-drop, length-take,
  take-all, take, drop, append_assoc, append-nil, take-length_append, drop-length_append,
  Bool-cases, inl, inr, ok,
}
use os_serverlist_sync.Base.Bytes.{Bytes}
use os_serverlist_sync.Base.Conn.{Read, NotEmpty, concat, arrive}
use os_serverlist_sync.Base.Net.{AddrPort}
use os_serverlist_sync.Qr2.Stream.{
  Cipher, ServerListEngine, read_remaining, wait_for_data_of_len, size,
}

-- What the program relies on: `enctypex_func6` decodes in place, and decodes a stream piece by piece.
pub record IsStream (C : Cipher) : Type 0 where
  pub length-func6 : (key : C.Key) (b : Bytes) → length (C.func6 key b).0 ≡ length b
  pub func6-append :
      (key : C.Key) (a b : Bytes)
      → C.func6 key (a ++ b)
        ≡ ((C.func6 key a).0 ++ (C.func6 (C.func6 key a).1 b).0, (C.func6 (C.func6 key a).1 b).1)

take-append :
    {A : Type 0} (n : ℕ) (xs ys : List A) → take n (xs ++ ys) ≡ take n xs ++ take (n - length xs) ys
take-append zero xs ys = let e : 0 - length xs ≡ 0 = omega arith in rw e refl
take-append (suc n) [] ys = let e : suc n - 0 ≡ suc n = omega arith in rw e refl
take-append (suc n) (x ∷ xs) ys =
    let e : suc n - suc (length xs) ≡ n - length xs = omega arith in
    rw e (ap (◌∷◌ x) (take-append n xs ys))

drop-append :
    {A : Type 0} (n : ℕ) (xs ys : List A) → drop n (xs ++ ys) ≡ drop n xs ++ drop (n - length xs) ys
drop-append zero xs ys = let e : 0 - length xs ≡ 0 = omega arith in rw e refl
drop-append (suc n) [] ys = let e : suc n - 0 ≡ suc n = omega arith in rw e refl
drop-append (suc n) (x ∷ xs) ys =
    let e : suc n - suc (length xs) ≡ n - length xs = omega arith in rw e (drop-append n xs ys)

drop-all : {A : Type 0} (n : ℕ) (xs : List A) → length xs ≤ n → drop n xs ≡ []
drop-all zero [] h = refl
drop-all zero (x ∷ xs) h = absurd (omega arith)
drop-all (suc n) [] h = refl
drop-all (suc n) (x ∷ xs) h = drop-all n xs (omega arith)

read_remaining-arrive :
    (n : ℕ) (cs : List Bytes) (end : List Read)
    → All NotEmpty cs
    → n ≤ length (concat cs)
    → (cs' : List Bytes) × (read_remaining n (arrive cs end)
        ≡ record { bytes = take n (concat cs); is_error = false; rest = arrive cs' end })
      × All NotEmpty cs'
      × (concat cs' ≡ drop n (concat cs))
unfolding read_remaining
read_remaining-arrive zero cs end h fits = (cs, refl, h, refl)
read_remaining-arrive (suc n) [] end h fits = absurd (omega (arith, fits))
read_remaining-arrive (suc n) (c ∷ cs) end h fits =
    let (cs', e, h', left) =
      read_remaining-arrive (suc n - length c) cs end h.1
        (omega (arith, fits, length-append c (concat cs))) in
    let cut = take-append (suc n) c (concat cs) in
    let behind = drop-append (suc n) c (concat cs) in
    elim (Bool-cases (ltb (suc n) (length c))) [
      | inl less ↦
          let none_more : suc n - length c ≡ 0 = ground (arith, less) in
          (
            drop (suc n) c ∷ cs,
            rw (less, cut, none_more) (rw append-nil refl),
            (ground (arith, less, length-drop (suc n) c), h.1),
            rw (behind, none_more) refl,
          )
      | inr more ↦
          let whole : length c ≤ suc n = ground (arith, more) in
          (
            cs',
            rw (more, e, cut, take-all (suc n) c whole) refl,
            h',
            rw (behind, drop-all (suc n) c whole) left,
          )
    ]

take-drop : {A : Type 0} (n : ℕ) (xs : List A) → take n xs ++ drop n xs ≡ xs
take-drop zero xs = refl
take-drop (suc n) [] = refl
take-drop (suc n) (x ∷ xs) = ap (◌∷◌ x) (take-drop n xs)

append-cut :
    {A : Type 0} (xs ys us vs : List A)
    → length xs ≡ length ys
    → xs ++ us ≡ ys ++ vs
    → (xs ≡ ys) × (us ≡ vs)
append-cut xs ys us vs size e = (
  sym (take-length_append xs us) ∙ ap (take (length xs)) e ∙ (rw size (take-length_append ys vs)),
  sym (drop-length_append xs us) ∙ ap (drop (length xs)) e ∙ (rw size (drop-length_append ys vs)),
)

-- Whether the cipher has been set up.
abbrev pub is_encoded : {A : Type 0} → Option A → Bool
is_encoded none = false
is_encoded (some _) = true

-- What the bytes of the connection mean to the engine.
abbrev pub plain : (C : Cipher) → Option C.Key → Bytes → Bytes
plain C none b = b
plain C (some key) b = (C.func6 key b).0

-- The connection brings bytes, in chunks of any size but none, that mean `text`, and then `end`; no
-- error has come.
pub record Sees (C : Cipher) (end : List Read) (se : ServerListEngine C.Key) (text : Bytes)
    : Type 0 where
  pub chunks : List Bytes
  pub not_empty : All NotEmpty chunks
  pub brings : se.connection ≡ arrive chunks end
  pub meaning : plain C se.enctype_x (concat chunks) ≡ text
  pub no_error : se.got_fatal_error ≡ false

-- What a reading leaves as it was, and what it adds to the addresses.
pub record Leaves {K : Type 0} (se se' : ServerListEngine K) (found : List AddrPort) : Type 0 where
  pub queried : se'.queried ≡ se.queried ++ found
  pub sent : se'.sent ≡ se.sent
  pub challenge : se'.challenge ≡ se.challenge
  pub still_plain : se.enctype_x ≡ none → se'.enctype_x ≡ none
  pub still_encoded : is_encoded se.enctype_x ≡ true → is_encoded se'.enctype_x ≡ true

pub Leaves-nothing : {K : Type 0} (se : ServerListEngine K) → Leaves se se []
Leaves-nothing se = record {
  queried = sym (append-nil se.queried);
  sent = refl;
  challenge = refl;
  still_plain = λ e. e;
  still_encoded = λ e. e;
}

pub Leaves-append :
    {K : Type 0} {se se1 se2 : ServerListEngine K} {found more : List AddrPort}
    → Leaves se se1 found
    → Leaves se1 se2 more
    → Leaves se se2 (found ++ more)
Leaves-append {se = se} {found = found} {more = more} a b = record {
  queried = b.queried ∙ ap (λ q. q ++ more) a.queried ∙ append_assoc se.queried found more;
  sent = b.sent ∙ a.sent;
  challenge = b.challenge ∙ a.challenge;
  still_plain = λ e. b.still_plain (a.still_plain e);
  still_encoded = λ e. b.still_encoded (a.still_encoded e);
}

module _ (C : Cipher) (law : IsStream C) where
  pub length-plain : (key : Option C.Key) (b : Bytes) → length (plain C key b) ≡ length b
  length-plain none b = refl
  length-plain (some key) b = law.length-func6 key b

  -- The two parts of what a connection means, cut at a number of bytes.
  plain-cut :
      (key : C.Key) (b a rest : Bytes)
      → (C.func6 key b).0 ≡ a ++ rest
      → ((C.func6 key (take (length a) b)).0 ≡ a)
        × ((C.func6 (C.func6 key (take (length a) b)).1 (drop (length a) b)).0 ≡ rest)
  plain-cut key b a rest e =
      let front = take (length a) b in
      let size : length b ≡ length a + length rest =
        omega (arith, law.length-func6 key b, ap length e, length-append a rest) in
      let size' : length (C.func6 key front).0 ≡ length a =
        omega (arith, law.length-func6 key front, length-take (length a) b, size) in
      let whole =
        sym (ap (λ x. x.0) (law.func6-append key front (drop (length a) b)))
        ∙ ap (λ x. (C.func6 key x).0) (take-drop (length a) b)
        ∙ e in
      append-cut _ a _ rest size' whole

  wait-known :
      (end : List Read) (se : ServerListEngine C.Key) (key : Option C.Key) (cs : List Bytes)
      (a rest : Bytes)
      → All NotEmpty cs
      → plain C key (concat cs) ≡ a ++ rest
      → let se0 : ServerListEngine C.Key = record se {
        connection = arrive cs end;
        enctype_x = key;
        got_fatal_error = false;
      } in
        (se' : ServerListEngine C.Key) × (wait_for_data_of_len C (length a) se0 ≡ ok (a, se'))
        × Sees C end se' rest
        × Leaves se0 se' []
  unfolding wait_for_data_of_len
  wait-known end se none cs a rest h e =
      let fits : length a ≤ length (concat cs) = omega (arith, ap length e, length-append a rest) in
      let (cs', r, h', left) = read_remaining-arrive (length a) cs end h fits in
      let front : take (length a) (concat cs) ≡ a =
        ap (take (length a)) e ∙ take-length_append a rest in
      let behind : concat cs' ≡ rest = left ∙ ap (drop (length a)) e ∙ drop-length_append a rest in
      let full : length a - length a ≡ 0 = omega arith in
      let se' : ServerListEngine C.Key = record se {
        connection = arrive cs' end;
        enctype_x = none;
        got_fatal_error = false;
      } in
      (
        se',
        rw (r, front, full, append-nil) refl,
        record { chunks = cs'; not_empty = h'; brings = refl; meaning = behind; no_error = refl },
        record {
          queried = sym (append-nil se.queried);
          sent = refl;
          challenge = refl;
          still_plain = λ x. x;
          still_encoded = λ x. x;
        },
      )
  wait-known end se (some key) cs a rest h e =
      let fits : length a ≤ length (concat cs) =
        omega (arith, law.length-func6 key (concat cs), ap length e, length-append a rest) in
      let (cs', r, h', left) = read_remaining-arrive (length a) cs end h fits in
      let (front, behind) = plain-cut key (concat cs) a rest e in
      let decoded = C.func6 key (take (length a) (concat cs)) in
      let se' : ServerListEngine C.Key = record se {
        connection = arrive cs' end;
        enctype_x = some decoded.1;
        got_fatal_error = false;
      } in
      (
        se',
        rw (r, front) refl,
        record {
          chunks = cs';
          not_empty = h';
          brings = refl;
          meaning = rw left behind;
          no_error = refl;
        },
        record {
          queried = sym (append-nil se.queried);
          sent = refl;
          challenge = refl;
          still_plain = λ x. cc;
          still_encoded = λ x. refl;
        },
      )

  -- `waitForDataOfLen` on a connection that brings the bytes.
  pub wait_for_data_of_len-Sees :
      (end : List Read) (se : ServerListEngine C.Key) (a rest : Bytes)
      → Sees C end se (a ++ rest)
      → (se' : ServerListEngine C.Key) × (wait_for_data_of_len C (length a) se ≡ ok (a, se'))
        × Sees C end se' rest
        × Leaves se se' []
  wait_for_data_of_len-Sees end se a rest h =
      let known : se ≡ record se { connection = arrive h.chunks end; got_fatal_error = false } =
        λ i. record se { connection = h.brings i; got_fatal_error = h.no_error i } in
      subst
        (λ (x : ServerListEngine C.Key).
          (se' : ServerListEngine C.Key) × (wait_for_data_of_len C (length a) x ≡ ok (a, se'))
          × Sees C end se' rest
          × Leaves x se' [])
        (sym known) (wait-known end se se.enctype_x h.chunks a rest h.not_empty h.meaning)
