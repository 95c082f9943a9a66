-- ===== src/Config.antt =====
-- src/Config/EngineConfiguration.go: the engines that a configuration names. The blocks come from
-- `json.Unmarshal`; each has a name and says whether its `params` are `null`.
pub mod Names
use os_serverlist_sync.Base.{
  Bool, true, false, List, [], ◌∷◌, ◌++◌, Option, none, some, map, if◌then◌else◌, Result, ok, panic,
  nil_call, bad_assertion, ◌>>=◌,
}
use os_serverlist_sync.Base.Bytes.{Bytes, codes, bytes_eq}

pub data ServerListEngine : Type 0 where
  goa_list sbv2_list utms_list text_file_list game_server_lister open_mp redis_input :
      ServerListEngine

pub data QueryEngine : Type 0 where
  goa_query qr2_query ut2k_query samp_query : QueryEngine

-- The only implementation of `IQueryOutputHandler`.
pub data QueryOutputHandler : Type 0 where
  redis_output : QueryOutputHandler

-- What `Params` points to: the parameters of one kind of engine, something that no engine takes, or
-- nothing.
pub data Params : Type 0 where
  list_params : ServerListEngine → Params
  query_params : QueryEngine → Params
  output_params : QueryOutputHandler → Params
  other nil : Params

pub record Block : Type 0 where
  pub name : Bytes
  pub is_null : Bool

pub record EngineConfigurationPlain : Type 0 where
  pub ms_engine : Block
  pub query_engine : Block
  pub output_engine : Block

pub record EngineConfiguration : Type 0 where
  pub query_engine : QueryEngine
  pub server_list_engine : ServerListEngine
  pub query_output_handler : Option QueryOutputHandler

-- The cases of a switch over names.
abbrev pub switch {ℓ} : {A : Type ℓ} → Bytes → List (Bytes × A) → Option A
switch name [] = none
switch name ((case_name, a) ∷ rest) = if bytes_eq name case_name then some a else switch name rest

-- The cases of `UnmarshalJSON` of `EngineConfiguration`, and of each block.
abbrev pub ms_cases : List (Bytes × ServerListEngine)
ms_cases =
    (codes "goa0", goa_list)
    ∷ (codes "sbv2", sbv2_list)
    ∷ (codes "ut2k", utms_list)
    ∷ (codes "file", text_file_list)
    ∷ (codes "gameserverlister_api", game_server_lister)
    ∷ (codes "openmp_api", open_mp)
    ∷ []

abbrev pub ms_params_cases : List (Bytes × Params)
ms_params_cases =
    (codes "goa0", list_params goa_list)
    ∷ (codes "sbv2", list_params sbv2_list)
    ∷ (codes "ut2k", list_params utms_list)
    ∷ (codes "file", list_params text_file_list)
    ∷ (codes "gameserverlister_api", list_params game_server_lister)
    ∷ (codes "openmp_api", list_params open_mp)
    ∷ []

abbrev pub query_cases : List (Bytes × QueryEngine)
query_cases =
    (codes "goa0", goa_query)
    ∷ (codes "qr2", qr2_query)
    ∷ (codes "ut2k", ut2k_query)
    ∷ (codes "samp", samp_query)
    ∷ []

abbrev pub query_params_cases : List (Bytes × Params)
query_params_cases =
    (codes "goa0", query_params goa_query)
    ∷ (codes "qr2", query_params qr2_query)
    ∷ (codes "ut2k", query_params ut2k_query)
    ∷ (codes "samp", query_params samp_query)
    ∷ []

abbrev pub output_cases : List (Bytes × QueryOutputHandler)
output_cases = (codes "OSRedisOutput", redis_output) ∷ []

abbrev pub output_params_cases : List (Bytes × Params)
output_params_cases = (codes "OSRedisOutput", output_params redis_output) ∷ []

-- `UnmarshalJSON` of a block: `null` makes the interface nil, and other values go where it points to.
abbrev pub or_other : Option Params → Params
or_other none = other
or_other (some p) = p

unfoldable pub block_params : List (Bytes × Params) → Block → Params
block_params cases block = if block.is_null then nil else or_other (switch block.name cases)

abbrev pub is_list_engine : ServerListEngine → ServerListEngine → Bool
is_list_engine goa_list goa_list = true
is_list_engine sbv2_list sbv2_list = true
is_list_engine utms_list utms_list = true
is_list_engine text_file_list text_file_list = true
is_list_engine game_server_lister game_server_lister = true
is_list_engine open_mp open_mp = true
is_list_engine redis_input redis_input = true
is_list_engine _ _ = false

abbrev pub is_query_engine : QueryEngine → QueryEngine → Bool
is_query_engine goa_query goa_query = true
is_query_engine qr2_query qr2_query = true
is_query_engine ut2k_query ut2k_query = true
is_query_engine samp_query samp_query = true
is_query_engine _ _ = false

-- The assertion of each `SetParams`, `params.(*T)`, with T the engine's own parameters.
abbrev pub set_list_params : Option ServerListEngine → Params → Result ServerListEngine
set_list_params none params = panic nil_call
set_list_params (some e) (list_params p) = if is_list_engine e p then ok e else panic bad_assertion
set_list_params (some e) _ = panic bad_assertion

abbrev pub set_query_params : Option QueryEngine → Params → Result QueryEngine
set_query_params none params = panic nil_call
set_query_params (some e) (query_params p) =
    if is_query_engine e p then ok e else panic bad_assertion
set_query_params (some e) _ = panic bad_assertion

abbrev pub set_output_params :
    Option QueryOutputHandler → Params → Result (Option QueryOutputHandler)
set_output_params none params = ok none
set_output_params (some redis_output) (output_params redis_output) = ok (some redis_output)
set_output_params (some redis_output) _ = panic bad_assertion

-- `UnmarshalJSON` of `EngineConfiguration`.
unfoldable pub unmarshal : EngineConfigurationPlain → Result EngineConfiguration
unmarshal typ = do
  list ←
      set_list_params (switch typ.ms_engine.name ms_cases)
        (block_params ms_params_cases typ.ms_engine)
  query ←
      set_query_params (switch typ.query_engine.name query_cases)
        (block_params query_params_cases typ.query_engine)
  output ←
      set_output_params (switch typ.output_engine.name output_cases)
        (block_params output_params_cases typ.output_engine)
  ok (record { query_engine = query; server_list_engine = list; query_output_handler = output })

-- `applyRefreshModeInputEngine` of src/main.go.
unfoldable pub apply_refresh_mode : List EngineConfiguration → Result (List EngineConfiguration)
apply_refresh_mode [] = ok []
apply_refresh_mode (c ∷ rest) = elim c.query_output_handler [
  | none ↦ panic bad_assertion
  | some redis_output ↦ do
    rest' ← apply_refresh_mode rest
    ok (record c { server_list_engine = redis_input } ∷ rest')
]
