-- ===== src/Monitor/Matching.antt =====
-- When two pending queries are one: the same query engine, address and port.
use os_serverlist_sync.Base.{
  ℕ, ◌≤◌, Bool, true, false, ◌&&◌, List, [], ◌∷◌, ◌≡◌, refl, arith, ◌==◌, All, any, remove_first,
}
use os_serverlist_sync.Base.Net.{v4, addr_eq, addr_eq_iff}
use os_serverlist_sync.Monitor.{QueryItem, Monitor, is_same_query, complete_loop}

-- The key of `d` is that of `c`.
unfoldable pub clash : QueryItem → QueryItem → Bool
clash c d =
    d.engine == c.engine
    && addr_eq d.address.addr c.address.addr
    && d.address.port == c.address.port

abbrev pub HasIp : QueryItem → Type 0
HasIp c = (ip : ℕ) × (c.address.addr ≡ v4 ip)

abbrev pub Distinct : List QueryItem → Type 0
Distinct [] = Unit
Distinct (c ∷ cs) = All (λ d. clash c d ≡ false) cs × Distinct cs

abbrev pub AttemptsFit : QueryItem → Type 0
AttemptsFit c = (1 ≤ c.num_attempts) × (c.num_attempts ≤ 6)

-- Every pending query is for an IPv4 address, no two are for one server and engine, and each has
-- been sent one to six times.
pub record IsValid (m : Monitor) : Type 0 where
  pub has_ip : All HasIp m.query_list
  pub distinct : Distinct m.query_list
  pub attempts : All AttemptsFit m.query_list

pub clash_refl : (c : QueryItem) → clash c c ≡ true
unfolding clash
clash_refl c = ground (arith, addr_eq_iff c.address.addr c.address.addr)

pub clash_comm : (c d : QueryItem) → clash c d ≡ clash d c
unfolding clash
clash_comm c d =
    ground
      (arith, addr_eq_iff c.address.addr d.address.addr, addr_eq_iff d.address.addr c.address.addr)

-- For an item with an IPv4 address the test of the loops is `clash`.
pub is_same_query-clash :
    (c d : QueryItem) (ip : ℕ)
    → c.address.addr ≡ v4 ip
    → is_same_query c.engine ip c.address.port d ≡ clash c d
unfolding is_same_query clash
is_same_query-clash c d ip e = rw e refl

pub complete_loop-remove_first :
    (engine ip port : ℕ) (l : List QueryItem)
    → (complete_loop engine ip port l).1 ≡ remove_first (is_same_query engine ip port) l
unfolding complete_loop
complete_loop-remove_first engine ip port [] = refl
complete_loop-remove_first engine ip port (c ∷ cs) =
    ground (arith, complete_loop-remove_first engine ip port cs)

module _ {ℓ} {A : Type ℓ} (p : A → Bool) where
  pub any-All : (l : List A) → any p l ≡ false → All (λ d. p d ≡ false) l
  any-All [] h = tt
  any-All (x ∷ xs) h = (ground arith, any-All xs (ground arith))

  pub All-any : (l : List A) → All (λ d. p d ≡ false) l → any p l ≡ false
  All-any [] h = refl
  All-any (x ∷ xs) h = ground (arith, All-any xs)

module _ {ℓ κ} {A : Type ℓ} (P : A → Type κ) (p : A → Bool) where
  pub All-remove_first : (l : List A) → All P l → All P (remove_first p l)
  All-remove_first [] h = h
  All-remove_first (x ∷ xs) h = ground (arith, All-remove_first xs h.1)
