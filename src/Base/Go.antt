-- ===== src/Base/Go.antt =====
-- A Go function that may panic returns a `Result`. A panic that no `recover` stops ends the
-- process, and the program has no `recover`.
use mathlib.Core.Logic.{◌↔◌, ◌⊎◌, inl, inr}
use mathlib.Core.Path.{◌≡◌, refl}

-- Why a Go program panics: an index or a slice out of range, `As4` of an address that is not IPv4,
-- a call through a nil interface, a failed type assertion.
pub data Fault : Type 0 where
  index_range slice_range not_ipv4 nil_call bad_assertion : Fault

pub data Result {ℓ} (A : Type ℓ) : Type ℓ where
  panic : Fault → Result A
  ok : A → Result A

infixl 5 ◌>>=◌
abbrev pub ◌>>=◌ {ℓ κ} : {A : Type ℓ} {B : Type κ} → Result A → (A → Result B) → Result B
panic fault >>= next = panic fault
ok value >>= next = next value

-- Inversion of a bind that returns.
pub >>=-eq-ok {ℓ κ} :
    {A : Type ℓ} {B : Type κ} (first : Result A) (next : A → Result B) {last : B}
    → (first >>= next) ≡ ok last
    → (value : A) × (first ≡ ok value) × (next value ≡ ok last)
>>=-eq-ok (panic fault) next h = cc
>>=-eq-ok (ok value) next h = (value, refl, h)

-- Where a bind panics.
pub >>=-eq-panic {ℓ κ} :
    {A : Type ℓ} {B : Type κ} (first : Result A) (next : A → Result B) {f : Fault}
    → (first >>= next) ≡ panic f
    → (first ≡ panic f) ⊎ ((value : A) × (first ≡ ok value) × (next value ≡ panic f))
>>=-eq-panic (panic fault) next h = inl cc
>>=-eq-panic (ok value) next h = inr (value, refl, h)

pub ok-injective {ℓ} : {A : Type ℓ} {a b : A} → ok a ≡ ok b → a ≡ b
ok-injective h = cc

-- A step that cannot panic panics in a chain only by what stands before it.
pub >>=-panic_iff {ℓ κ} :
    {A : Type ℓ} {B : Type κ} (m : Result A) (g : A → B) (f : Fault)
    → ((m >>= λ a. ok (g a)) ≡ panic f) ↔ (m ≡ panic f)
>>=-panic_iff (ok a) g f = (λ h. cc, λ h. cc)
>>=-panic_iff (panic e) g f = (λ h. cc, λ h. cc)
