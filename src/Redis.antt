-- ===== src/Redis.antt =====
-- The Redis commands that src/Engines/OpenSpy/OpenSpyRedisOutputHandler.go and
-- OpenSpyRedisInputHandler.go send, as an interface: the server and its client are not part of the
-- program. A reading command gives `none` for an error, and for a key that is not there where the
-- client makes that an error. The laws are the commands' documentation.
pub mod Output
pub mod Input
pub mod Setup
use os_serverlist_sync.Base.{
  ℕ, ◌+◌, Bool, true, false, List, [], ◌∷◌, Option, none, some, ◌≡◌, if◌then◌else◌,
}
use os_serverlist_sync.Base.Bytes.{Bytes, bytes_eq}
use os_serverlist_sync.Base.Props.{Props, lookup, insert}

-- What a key holds: a string, a hash, or a sorted set with its scores.
pub data Value : Type 0 where
  text : Bytes → Value
  hash : Props → Value
  scores : (Bytes → Option ℕ) → Value

abbrev pub insert_all : Props → Props → Props
insert_all [] m = m
insert_all ((k, v) ∷ fields) m = insert_all fields (insert k v m)

-- What a command makes of the value of its key. On a value of another type it is an error, and so
-- is HSET with no fields.
abbrev pub after_h_set : Props → Option Value → Option Value
after_h_set [] old = old
after_h_set (f ∷ fields) none = some (hash (insert_all (f ∷ fields) []))
after_h_set (f ∷ fields) (some (hash m)) = some (hash (insert_all (f ∷ fields) m))
after_h_set (f ∷ fields) (some v) = some v

abbrev pub bump : Bytes → (Bytes → Option ℕ) → Bytes → Option ℕ
bump member f j =
    if bytes_eq member j then some (elim (f member) [ none ↦ 1 | some n ↦ n + 1 ]) else f j

abbrev pub after_z_incr_by : Bytes → Option Value → Option Value
after_z_incr_by member none = some (scores (bump member (λ _. none)))
after_z_incr_by member (some (scores f)) = some (scores (bump member f))
after_z_incr_by member (some v) = some v

abbrev pub after_expire : ℕ → Option Value → Option ℕ → Option ℕ
after_expire t none old = old
after_expire t (some v) old = some t

abbrev pub is_some {ℓ} : {A : Type ℓ} → Option A → Bool
is_some none = false
is_some (some _) = true

-- What a reading command answers.
abbrev pub answer_get : Option Value → Option Bytes
answer_get (some (text v)) = some v
answer_get _ = none

abbrev pub answer_h_exists : Bytes → Option Value → Option Bool
answer_h_exists field none = some false
answer_h_exists field (some (hash m)) = some (is_some (lookup field m))
answer_h_exists field (some v) = none

pub record Redis : Type 1 where
  pub Db : Type 0
  pub exists : Bytes → Db → Option ℕ
  pub get : Bytes → Db → Option Bytes
  pub h_exists : Bytes → Bytes → Db → Option Bool
  pub incr : Bytes → Db → Option ℕ × Db
  pub h_set : Bytes → Props → Db → Db
  pub expire : Bytes → ℕ → Db → Db
  pub set : Bytes → Bytes → ℕ → Db → Db
  -- By 1.0.
  pub z_incr_by : Bytes → Bytes → Db → Db

-- The commands on a connection that does not fail, with no time going by and no other client between
-- them.
pub record IsRedis (R : Redis) : Type 0 where
  pub value : Bytes → R.Db → Option Value
  pub ttl : Bytes → R.Db → Option ℕ
  pub exists-value :
      (k : Bytes) (d : R.Db) → R.exists k d ≡ some (if is_some (value k d) then 1 else 0)
  pub get-value : (k : Bytes) (d : R.Db) → R.get k d ≡ answer_get (value k d)
  pub h_exists-value : (k f : Bytes) (d : R.Db) → R.h_exists k f d ≡ answer_h_exists f (value k d)
  pub value-h_set :
      (j k : Bytes) (fields : Props) (d : R.Db)
      → value j (R.h_set k fields d)
        ≡ (if bytes_eq k j then after_h_set fields (value j d) else value j d)
  pub value-expire : (j k : Bytes) (t : ℕ) (d : R.Db) → value j (R.expire k t d) ≡ value j d
  pub value-set :
      (j k v : Bytes) (t : ℕ) (d : R.Db)
      → value j (R.set k v t d) ≡ (if bytes_eq k j then some (text v) else value j d)
  pub value-z_incr_by :
      (j k member : Bytes) (d : R.Db)
      → value j (R.z_incr_by k member d)
        ≡ (if bytes_eq k j then after_z_incr_by member (value j d) else value j d)
  pub ttl-h_set : (j k : Bytes) (fields : Props) (d : R.Db) → ttl j (R.h_set k fields d) ≡ ttl j d
  pub ttl-expire :
      (j k : Bytes) (t : ℕ) (d : R.Db)
      → ttl j (R.expire k t d)
        ≡ (if bytes_eq k j then after_expire t (value j d) (ttl j d) else ttl j d)
  pub ttl-set :
      (j k v : Bytes) (t : ℕ) (d : R.Db)
      → ttl j (R.set k v t d) ≡ (if bytes_eq k j then some t else ttl j d)
  pub ttl-z_incr_by : (j k member : Bytes) (d : R.Db) → ttl j (R.z_incr_by k member d) ≡ ttl j d
