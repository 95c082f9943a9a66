-- ===== src/Goa/ServerList/Chunks.antt =====
-- The uncompressed list does not depend on how TCP cuts it: the pieces that are read from the
-- chunks are those of the whole text.
use mathlib.Core.List.{append_cancel_left}
use os_serverlist_sync.Base.{
  List, [], ◌∷◌, ◌++◌, ◌≡◌, refl, sym, ap, ◌∙◌, arith, if◌then◌else◌, All, append_assoc, append-nil,
}
use os_serverlist_sync.Base.Bytes.{Bytes}
use os_serverlist_sync.Base.Conn.{Read, got, eof, failed, is_empty, NotEmpty, concat, IsEnd, arrive}
use os_serverlist_sync.Base.Text.{split, split_loop, index_of, starts_with}
use os_serverlist_sync.Base.Text.Split.{
  but_last, last_piece, split-append, split-ne_nil, but_last-append, last_piece-append,
}
use os_serverlist_sync.Goa.ServerList.{
  ip_marker, pieces_loop, read_loop, tail_string, read_uncompressed_list,
}

abbrev pub not_empty : List Bytes → List Bytes
not_empty [] = []
not_empty (s ∷ ss) = if is_empty s then not_empty ss else s ∷ not_empty ss

-- The strings that a whole answer holds: its pieces between the markers, without the empty ones,
-- and its last piece up to the next backslash.
unfoldable pub server_strings : Bytes → List Bytes
server_strings answer =
    let pieces = split answer ip_marker in
    not_empty (but_last pieces) ++ tail_string (ip_marker ++ last_piece pieces)

not_empty-append : (xs ys : List Bytes) → not_empty (xs ++ ys) ≡ not_empty xs ++ not_empty ys
not_empty-append [] ys = refl
not_empty-append (x ∷ xs) ys = ground (arith, not_empty-append xs ys)

pieces_loop_lem :
    (q : Bytes) (qs : List Bytes) (accum : Bytes)
    → pieces_loop (q ∷ qs) accum ≡ (not_empty (but_last (q ∷ qs)), ip_marker ++ last_piece (q ∷ qs))
unfolding pieces_loop
pieces_loop_lem q [] accum = refl
pieces_loop_lem q (r ∷ qs) accum = rw (pieces_loop_lem r qs accum) refl

pieces_loop-split :
    (s accum : Bytes)
    → pieces_loop (split s ip_marker) accum
      ≡ (not_empty (but_last (split s ip_marker)), ip_marker ++ last_piece (split s ip_marker))
pieces_loop-split s accum =
    let (q, qs, e) = split-ne_nil s ip_marker in rw e (pieces_loop_lem q qs accum)

split-marker : (s : Bytes) → split (ip_marker ++ s) ip_marker ≡ [] ∷ split s ip_marker
unfolding split split_loop starts_with
split-marker s = refl

pieces_loop-marker :
    (s accum : Bytes)
    → pieces_loop (split (ip_marker ++ s) ip_marker) accum
      ≡ (not_empty (but_last (split s ip_marker)), ip_marker ++ last_piece (split s ip_marker))
pieces_loop-marker s accum =
    let (q, qs, e) = split-ne_nil s ip_marker in
    rw (split-marker, e) (pieces_loop_lem [] (q ∷ qs) accum)

-- A text with no marker in it.
abbrev IsOpen : Bytes → Type 0
IsOpen l = split l ip_marker ≡ l ∷ []

pieces-parts :
    (q : Bytes) (qs : List Bytes) → q ∷ qs ≡ but_last (q ∷ qs) ++ (last_piece (q ∷ qs) ∷ [])
pieces-parts q [] = refl
pieces-parts q (r ∷ qs) = ap (◌∷◌ q) (pieces-parts r qs)

last_piece-IsOpen : (s : Bytes) → IsOpen (last_piece (split s ip_marker))
last_piece-IsOpen s =
    let pieces = split s ip_marker in
    let l = last_piece pieces in
    let (q, qs, e) = split-ne_nil s ip_marker in
    let parts : pieces ≡ but_last pieces ++ (l ∷ []) = rw e (pieces-parts q qs) in
    let again : pieces ≡ but_last pieces ++ split l ip_marker =
      ap (λ x. split x ip_marker) (sym (append-nil s))
      ∙ split-append s [] ip_marker
      ∙ ap (λ x. but_last pieces ++ split x ip_marker) (append-nil l) in
    append_cancel_left (but_last pieces) (split l ip_marker) (l ∷ []) (sym again ∙ parts)

read_loop-IsEnd : (accum : Bytes) (end : List Read) → IsEnd end → read_loop accum end ≡ ([], accum)
unfolding read_loop
read_loop-IsEnd accum [] h = refl
read_loop-IsEnd accum (eof ∷ rest) h = refl
read_loop-IsEnd accum (failed ∷ rest) h = refl
read_loop-IsEnd accum (got c ∷ rest) h = absurd h

-- What the loop has handled and kept when it has read `text`.
abbrev outcome : Bytes → List Bytes × Bytes
outcome text =
    (not_empty (but_last (split text ip_marker)), ip_marker ++ last_piece (split text ip_marker))

-- The pieces of a text whose first part has been handled already.
outcome-append :
    (s t : Bytes)
    → (not_empty (but_last (split s ip_marker)) ++ (outcome (last_piece (split s ip_marker) ++ t)).0
        ≡ (outcome (s ++ t)).0)
      × ((outcome (last_piece (split s ip_marker) ++ t)).1 ≡ (outcome (s ++ t)).1)
outcome-append s t =
    let front = but_last (split s ip_marker) in
    let rest = last_piece (split s ip_marker) ++ t in
    let (q, qs, e) = split-ne_nil rest ip_marker in
    let whole : split (s ++ t) ip_marker ≡ front ++ (q ∷ qs) =
      split-append s t ip_marker ∙ ap (◌++◌ front) e in
    (
      rw (whole, e, but_last-append) (sym (not_empty-append front (but_last (q ∷ qs)))),
      rw (whole, e, last_piece-append) refl,
    )

read_loop-arrive :
    (cs : List Bytes) (l : Bytes) (end : List Read)
    → All NotEmpty cs
    → IsEnd end
    → IsOpen l
    → read_loop (ip_marker ++ l) (arrive cs end) ≡ outcome (l ++ concat cs)
unfolding read_loop
read_loop-arrive [] l end n h o = rw append-nil (read_loop-IsEnd _ end h ∙ (rw o refl))
read_loop-arrive (c ∷ cs) l end n h o =
    let next = last_piece (split (l ++ c) ip_marker) in
    let step = pieces_loop-marker (l ++ c) (ip_marker ++ (l ++ c)) in
    let later = read_loop-arrive cs next end n.1 h (last_piece-IsOpen (l ++ c)) in
    let (e0, e1) = outcome-append (l ++ c) (concat cs) in
    rw (n.0, step, later, ← append_assoc l c (concat cs)) (λ i. (e0 i, e1 i))

-- Whatever the sizes of the chunks in which a master server's answer arrives, the strings that go to
-- `handleIPString` are those of the whole answer.
pub read_uncompressed_list-arrive :
    (cs : List Bytes) (end : List Read)
    → All NotEmpty cs
    → IsEnd end
    → read_uncompressed_list (arrive cs end) ≡ server_strings (concat cs)
unfolding read_uncompressed_list server_strings read_loop
read_uncompressed_list-arrive [] end n h =
    rw (read_loop-IsEnd [] end h) (unfold split split_loop tail_string index_of starts_with in refl)
read_uncompressed_list-arrive (c ∷ cs) end n h =
    let step = pieces_loop-split c c in
    let later =
      read_loop-arrive cs (last_piece (split c ip_marker)) end n.1 h (last_piece-IsOpen c) in
    let (e0, e1) = outcome-append c (concat cs) in
    rw (n.0, step, later) (λ i. e0 i ++ tail_string (e1 i))
