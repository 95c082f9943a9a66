-- ===== src/Goa/Query/Pairs.antt =====
-- The answer of a game server: `\key\value` for each property, and `\final\`.
use os_serverlist_sync.Base.{
  ℕ, ◌+◌, ◌%◌, ◌≤◌, ◌≢◌, true, false, ◌||◌, List, [], ◌∷◌, ◌++◌, ◌≡◌, refl, ap, ◌∙◌, arith, ◌==◌,
  All, length, length-append, take-all, append_assoc, ok,
}
use os_serverlist_sync.Base.Bytes.{Bytes, codes, bytes_eq}
use os_serverlist_sync.Base.Net.{UdpAddr, addr_port}
use os_serverlist_sync.Base.Props.{Props, insert}
use os_serverlist_sync.Base.Text.{split, split_loop, starts_with}
use os_serverlist_sync.Base.Text.Split.{split-cut}
use os_serverlist_sync.Goa.Query.{backslash, part, props_loop, listen_step}

-- What stands behind the first backslash.
abbrev pub rest_bytes : List (Bytes × Bytes) → Bytes
rest_bytes [] = codes "final\\"
rest_bytes ((k, v) ∷ ps) = k ++ (backslash ++ (v ++ (backslash ++ rest_bytes ps)))

-- The datagram.
abbrev pub pairs_bytes : List (Bytes × Bytes) → Bytes
pairs_bytes ps = backslash ++ rest_bytes ps

-- The map that holds the pairs; of two with one key the later wins.
abbrev pub insert_all : List (Bytes × Bytes) → Props → Props
insert_all [] m = m
insert_all ((k, v) ∷ ps) m = insert_all ps (insert k v m)

-- No backslash, and the key is not one of those that are left out.
abbrev pub IsPair : Bytes × Bytes → Type 0
IsPair (k, v) =
    All (λ c. c ≢ b'\\') k
    × All (λ c. c ≢ b'\\') v
    × ((bytes_eq k (codes "final") || bytes_eq k (codes "queryid")) ≡ false)

pieces : List (Bytes × Bytes) → List Bytes
pieces [] = codes "final" ∷ [] ∷ []
pieces ((k, v) ∷ ps) = k ∷ v ∷ pieces ps

split-rest_bytes :
    (ps : List (Bytes × Bytes)) → All IsPair ps → split (rest_bytes ps) backslash ≡ pieces ps
unfolding pieces
split-rest_bytes [] h = unfold split split_loop starts_with in refl
split-rest_bytes ((k, v) ∷ ps) h =
    let ((hk, hv, _), rest) = h in
    split-cut b'\\' [] k (v ++ (backslash ++ rest_bytes ps)) hk
    ∙ ap (◌∷◌ k) (split-cut b'\\' [] v (rest_bytes ps) hv ∙ ap (◌∷◌ v) (split-rest_bytes ps rest))

part-length :
    (front : List Bytes) (x : Bytes) (behind : List Bytes)
    → part (front ++ (x ∷ behind)) (length front) ≡ ok x
part-length [] x behind = refl
part-length (y ∷ front) x behind = part-length front x behind

props_loop-pieces :
    (front : List Bytes) (ps : List (Bytes × Bytes)) (last_key idx : ℕ) (m : Props)
    → length front ≡ idx + 1
    → idx % 2 ≡ 0
    → All IsPair ps
    → props_loop (front ++ pieces ps) last_key idx (pieces ps) m ≡ ok (insert_all ps m)
unfolding props_loop pieces
props_loop-pieces front [] last_key idx m size even h =
    let here : part (front ++ pieces []) (idx + 1) ≡ ok (codes "final") =
      rw (← size) (part-length front (codes "final") ([] ∷ [])) in
    let at_key : (idx % 2 == 0) ≡ true = ground (arith, even) in
    let at_value : ((idx + 1) % 2 == 0) ≡ false = ground (arith, even) in
    rw (at_key, at_value, here) (unfold bytes_eq in refl)
props_loop-pieces front ((k, v) ∷ ps) last_key idx m size even h =
    let ((_, _, kept), rest) = h in
    let here : part (front ++ (k ∷ v ∷ pieces ps)) (idx + 1) ≡ ok k =
      rw (← size) (part-length front k (v ∷ pieces ps)) in
    let at_key : (idx % 2 == 0) ≡ true = ground (arith, even) in
    let at_value : ((idx + 1) % 2 == 0) ≡ false = ground (arith, even) in
    let size' : length (front ++ (k ∷ v ∷ [])) ≡ idx + 1 + 1 + 1 =
      omega (arith, size, length-append front (k ∷ v ∷ [])) in
    let ih =
      props_loop-pieces (front ++ (k ∷ v ∷ [])) ps idx (idx + 1 + 1) (insert k v m) size'
        (omega (arith, even)) rest in
    let ih' : props_loop (front ++ (k ∷ v ∷ pieces ps)) idx (idx + 1 + 1) (pieces ps) (insert k v m)
        ≡ ok (insert_all ps (insert k v m)) =
      rw (← append_assoc front (k ∷ v ∷ []) (pieces ps)) ih in
    rw (at_key, at_value, here, kept) ih'

-- An answer that fits the receive buffer, of any keys and values that hold no backslash, no key
-- `final` or `queryid`, is reported with those keys and values, and completed under the address that
-- it came from.
pub listen_step-properties :
    (size : ℕ) (ps : List (Bytes × Bytes)) (addr : UdpAddr)
    → All IsPair ps
    → length (pairs_bytes ps) ≤ size
    → listen_step size (pairs_bytes ps) addr
      ≡ ok (record { source = addr; props = insert_all ps []; completed = addr_port addr })
unfolding listen_step
listen_step-properties size ps addr h fits =
    let cut = split-cut b'\\' [] [] (rest_bytes ps) tt ∙ ap (◌∷◌ []) (split-rest_bytes ps h) in
    let props = props_loop-pieces ([] ∷ []) ps 0 0 [] refl refl h in
    rw (take-all size (pairs_bytes ps) fits, cut, props) refl
