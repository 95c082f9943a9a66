-- ===== src/Redis/Setup.antt =====
-- `SetParams` of src/Engines/OpenSpy/OpenSpyRedisOutputHandler.go and `SetupRedis` of
-- OpenSpyRedisInputHandler.go: the options of the Redis client from the environment, and the id of the
-- game. `env` is `os.Getenv`; `get` and `h_get` are GET and HGET on the database of the games.
use os_serverlist_sync.Base.{
  ℕ, ◌<◌, Bool, false, ◌&&◌, [], Option, none, some, ◌≡◌, ltb, ◌==◌, ap, length, if◌then◌else◌,
}
use os_serverlist_sync.Base.Atoi.{atoi, atoi-itoa}
use os_serverlist_sync.Base.Bytes.{Bytes, codes, itoa}
use os_serverlist_sync.Base.Int.{ℤ, pos, negsuc, itoa_int}
use os_serverlist_sync.Redis.Output.{OpenSpyRedisOutputHandler, InjectKeys, or_zero}

-- `redis.Options`; `tls` is `TLSConfig` if there is one, as its `InsecureSkipVerify`.
pub record Options : Type 0 where
  pub addr : Bytes
  pub username : Bytes
  pub password : Bytes
  pub tls : Option Bool
  pub db : ℕ

abbrev is_one : ℤ → Bool
is_one (pos n) = n == 1
is_one (negsuc n) = false

-- A variable that is not empty and reads as 1.
abbrev is_set : (Bytes → Bytes) → Bytes → Bool
is_set env name = ltb 0 (length (env name)) && is_one (atoi (env name)).0

abbrev pub redis_options : (Bytes → Bytes) → Options
redis_options env =
    let username = env (codes "REDIS_USERNAME") in
    let password = env (codes "REDIS_PASSWORD") in
    record {
      addr = env (codes "REDIS_SERVER");
      username = if ltb 0 (length username) then username else [];
      password = if ltb 0 (length password) then password else [];
      tls =
          if is_set env (codes "REDIS_USE_TLS")
          then some (is_set env (codes "REDIS_INSECURE_TLS"))
          else none;
      db = 0;
    }

-- Errors of the lookup and of `Atoi` are not looked at.
unfoldable pub game_id : (Bytes → Option Bytes) → (Bytes → Bytes → Option Bytes) → Bytes → ℤ
game_id get h_get gamename =
    (atoi (or_zero [] (h_get (or_zero [] (get gamename)) (codes "gameid")))).0

-- `SetParams` of the output handler.
abbrev pub set_params :
    (Bytes → Bytes)
    → (Bytes → Option Bytes)
    → (Bytes → Bytes → Option Bytes)
    → Bytes
    → InjectKeys
    → Options × OpenSpyRedisOutputHandler
set_params env get h_get gamename inject_keys = (
  redis_options env,
  record { gamename = gamename; inject_keys = inject_keys; game_id = game_id get h_get gamename },
)

-- `SetupRedis` of the input handler.
abbrev pub setup_redis :
    (Bytes → Bytes) → (Bytes → Option Bytes) → (Bytes → Bytes → Option Bytes) → Bytes → Options × ℤ
setup_redis env get h_get gamename = (redis_options env, game_id get h_get gamename)

-- A game whose id is a number in the database: servers get it as it stands there.
pub game_id-printed :
    (get : Bytes → Option Bytes) (h_get : Bytes → Bytes → Option Bytes) (gamename game : Bytes)
    (id : ℕ)
    → get gamename ≡ some game
    → h_get game (codes "gameid") ≡ some (itoa id)
    → id < 9223372036854775808
    → itoa_int (game_id get h_get gamename) ≡ itoa id
unfolding game_id itoa_int
game_id-printed get h_get gamename game id found stored fits =
    let read : (atoi (or_zero [] (h_get (or_zero [] (get gamename)) (codes "gameid")))).0 ≡ pos id =
      rw (found, stored) (ap (λ x. x.0) (atoi-itoa id fits)) in
    ap itoa_int read
