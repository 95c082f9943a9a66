-- ===== src/Goa/ServerList/Addresses.antt =====
-- The uncompressed list of a master server: `\ip\` before each address, `\final\` behind the last.
use os_serverlist_sync.Base.{
  Bool, true, false, List, [], ◌∷◌, ◌++◌, some, ◌≡◌, ◌≢◌, refl, ap, ◌∙◌, arith, ◌==◌, if◌then◌else◌,
  All, length, append_assoc, take-length_append,
}
use os_serverlist_sync.Base.Bytes.{Bytes, codes}
use os_serverlist_sync.Base.Conn.{Read, is_empty, NotEmpty, concat, IsEnd, arrive}
use os_serverlist_sync.Base.Text.{split, split_loop, starts_with, index_of}
use os_serverlist_sync.Base.Text.Split.{but_last, last_piece, split-ne_nil, split-cut, split_rest}
use os_serverlist_sync.Goa.ServerList.{ip_marker, tail_string, read_uncompressed_list}
use os_serverlist_sync.Goa.ServerList.Chunks.{
  not_empty, server_strings, read_uncompressed_list-arrive,
}

-- The answer that lists these addresses.
abbrev pub list_bytes : List Bytes → Bytes
list_bytes [] = codes "\\final\\"
list_bytes (a ∷ rest) = ip_marker ++ (a ++ list_bytes rest)

-- The text of an address: some bytes, and no backslash.
abbrev pub IsAddress : Bytes → Type 0
IsAddress a = (is_empty a ≡ false) × All (λ c. c ≢ b'\\') a

index_of-plain :
    (x s : Bytes)
    → All (λ c. c ≢ b'\\') x
    → index_of (x ++ (b'\\' ∷ s)) (codes "\\") ≡ some (length x)
unfolding index_of starts_with
index_of-plain [] s h = refl
index_of-plain (c ∷ x) s h =
    let other : (b'\\' == c) ≡ false = ground (arith, h.0) in
    rw (other, index_of-plain x s h.1) refl

tail_string-final :
    (x : Bytes)
    → All (λ c. c ≢ b'\\') x
    → tail_string (ip_marker ++ (x ++ codes "\\final\\")) ≡ (if is_empty x then [] else x ∷ [])
unfolding tail_string
tail_string-final x h =
    rw (index_of-plain x (codes "final\\") h, take-length_append x (codes "\\final\\"))
      (ground arith)

unless-append :
    (b : Bool) (x : Bytes) (xs ys zs : List Bytes)
    → xs ++ ys ≡ zs
    → (if b then xs else x ∷ xs) ++ ys ≡ (if b then zs else x ∷ zs)
unless-append true x xs ys zs e = e
unless-append false x xs ys zs e = ap (◌∷◌ x) e

strings-list_bytes :
    (x : Bytes) (rest : List Bytes)
    → All (λ c. c ≢ b'\\') x
    → All IsAddress rest
    → not_empty (but_last (split (x ++ list_bytes rest) ip_marker))
        ++ tail_string (ip_marker ++ last_piece (split (x ++ list_bytes rest) ip_marker))
      ≡ (if is_empty x then rest else x ∷ rest)
strings-list_bytes x [] h t =
    let cut =
      split_rest b'\\' (codes "ip\\") x (codes "\\final\\") h
        (unfold split split_loop starts_with in simp (append_assoc)) in
    rw cut (tail_string-final x h)
strings-list_bytes x (a ∷ rest) h t =
    let ih = strings-list_bytes a rest t.0.1 t.1 in
    let cut = split-cut b'\\' (codes "ip\\") x (a ++ list_bytes rest) h in
    let (q, qs, e) = split-ne_nil (a ++ list_bytes rest) ip_marker in
    let ih' : not_empty (but_last (q ∷ qs)) ++ tail_string (ip_marker ++ last_piece (q ∷ qs))
        ≡ a ∷ rest =
      rw (← e) (ih ∙ rw (t.0.0) refl) in
    rw (cut, e) (unless-append (is_empty x) x (not_empty (but_last (q ∷ qs))) _ (a ∷ rest) ih')

-- A master server's list arrives whole: when addresses are listed with `\ip\` before each and
-- `\final\` at the end, and none is empty or holds a backslash, then those addresses, in order, go to
-- `handleIPString`, whatever the sizes of the chunks in which the answer is read, if no chunk is
-- empty and the connection ends behind them.
pub read_uncompressed_list-list_bytes :
    (rest : List Bytes) (cs : List Bytes) (end : List Read)
    → All IsAddress rest
    → concat cs ≡ list_bytes rest
    → All NotEmpty cs
    → IsEnd end
    → read_uncompressed_list (arrive cs end) ≡ rest
unfolding server_strings
read_uncompressed_list-list_bytes rest cs end h e n d =
    read_uncompressed_list-arrive cs end n d ∙ ap server_strings e ∙ strings-list_bytes [] rest tt h
