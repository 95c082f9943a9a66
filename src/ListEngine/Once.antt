-- ===== src/ListEngine/Once.antt =====
-- Calls of `Query`: for which keys they are, and that no two are alike.
use os_serverlist_sync.Base.{
  ℕ, Bool, true, ◌&&◌, List, [], ◌∷◌, ◌≡◌, ◌≢◌, refl, sym, ◌==◌, All, any,
}
use os_serverlist_sync.Base.Net.{v4, addr_eq}
use os_serverlist_sync.Monitor.{Send}
use os_serverlist_sync.Monitor.Queries.{same_key, same_key-eq}

-- Whether `Query` of `engine` is called with the address.
abbrev pub sent : ℕ → ℕ → ℕ → List Send → Bool
sent engine ip port =
    any (λ c. c.engine == engine && addr_eq c.address.addr (v4 ip) && c.address.port == port)

-- No two of the calls are alike.
abbrev pub Apart : List Send → Type 0
Apart [] = Unit
Apart (c ∷ cs) = All (λ d. d ≢ c) cs × Apart cs

module _ {ℓ κ} {A : Type 0} {P : A → Type ℓ} {Q : A → Type κ} (f : (a : A) → P a → Q a) where
  pub All-weaken : (l : List A) → All P l → All Q l
  All-weaken [] h = tt
  All-weaken (a ∷ l) h = (f a h.0, All-weaken l h.1)

pub known-same :
    (engine ip port engine' ip' port' : ℕ) (known : ℕ → ℕ → ℕ → Bool)
    → same_key engine ip port engine' ip' port' ≡ true
    → known engine' ip' port' ≡ known engine ip port
known-same engine ip port engine' ip' port' known h =
    let (e, i, p) = same_key-eq engine ip port engine' ip' port' h in
    λ k. known (sym e k) (sym i k) (sym p k)

pub sent-first :
    (engine ip port engine' ip' port' : ℕ)
    → (engine == engine' && addr_eq (v4 ip) (v4 ip') && port == port')
      ≡ same_key engine ip port engine' ip' port'
unfolding addr_eq
sent-first engine ip port engine' ip' port' = refl
