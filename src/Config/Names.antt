-- ===== src/Config/Names.antt =====
-- Which configurations are taken, and with which engines.
use mathlib.Core.Option
use os_serverlist_sync.Base.{
  Bool, true, false, List, [], ◌∷◌, Option, none, some, inl, inr, ◌≡◌, refl, arith, map, Bool-cases,
  Option-cases, if◌then◌else◌, Result, ok, panic, nil_call, bad_assertion, ◌>>=◌, any,
}
use os_serverlist_sync.Base.Bytes.{Bytes, bytes_eq}
use os_serverlist_sync.Config.{
  ServerListEngine, QueryEngine, QueryOutputHandler, redis_output, redis_input, list_params,
  query_params, output_params, nil, EngineConfigurationPlain, EngineConfiguration, switch, ms_cases,
  query_cases, output_cases, or_other, block_params, is_list_engine, is_query_engine,
  set_list_params, set_query_params, set_output_params, unmarshal, apply_refresh_mode,
}

switch-map :
    {A B : Type 0} (f : A → B) (name : Bytes) (cases : List (Bytes × A))
    → switch name (map (λ c. (c.0, f c.1)) cases) ≡ Option.map f (switch name cases)
switch-map f name [] = refl
switch-map f name ((case_name, a) ∷ rest) = elim (Bool-cases (bytes_eq name case_name)) [
  | inl e ↦ rw e refl
  | inr e ↦ rw e (switch-map f name rest)
]

-- An engine that is known is taken unless its parameters are `null`.
abbrev pub taken : {A : Type 0} → Option A → Bool → Result A
taken none is_null = panic nil_call
taken (some a) is_null = if is_null then panic bad_assertion else ok a

-- An output handler may be missing.
abbrev pub taken_or_none : {A : Type 0} → Option A → Bool → Result (Option A)
taken_or_none none is_null = ok none
taken_or_none (some a) is_null = if is_null then panic bad_assertion else ok (some a)

is_list_engine_refl : (e : ServerListEngine) → is_list_engine e e ≡ true
is_list_engine_refl e = ground arith

is_query_engine_refl : (e : QueryEngine) → is_query_engine e e ≡ true
is_query_engine_refl e = ground arith

set_list_params-given :
    (e : Option ServerListEngine) (b : Bool)
    → set_list_params e (if b then nil else or_other (Option.map list_params e)) ≡ taken e b
set_list_params-given none b = refl
set_list_params-given (some e) true = refl
set_list_params-given (some e) false = rw (is_list_engine_refl e) refl

set_query_params-given :
    (e : Option QueryEngine) (b : Bool)
    → set_query_params e (if b then nil else or_other (Option.map query_params e)) ≡ taken e b
set_query_params-given none b = refl
set_query_params-given (some e) true = refl
set_query_params-given (some e) false = rw (is_query_engine_refl e) refl

set_output_params-given :
    (e : Option QueryOutputHandler) (b : Bool)
    → set_output_params e (if b then nil else or_other (Option.map output_params e))
      ≡ taken_or_none e b
set_output_params-given none b = refl
set_output_params-given (some redis_output) true = refl
set_output_params-given (some redis_output) false = refl

-- A configuration is taken with the engines that its names stand for: the switch over the parameters
-- of each block fits the switch over the engines, so that no engine is given the parameters of
-- another. An unknown name of a server-list or query engine is a call through a nil interface, an
-- unknown output handler is none at all, and `null` as parameters of a known engine or handler fails
-- its assertion.
pub unmarshal_lem :
    (typ : EngineConfigurationPlain)
    → unmarshal typ ≡ (
        taken (switch typ.ms_engine.name ms_cases) typ.ms_engine.is_null >>= λ list.
        taken (switch typ.query_engine.name query_cases) typ.query_engine.is_null >>= λ query.
        taken_or_none (switch typ.output_engine.name output_cases) typ.output_engine.is_null
        >>= λ output. ok (record {
          query_engine = query;
          server_list_engine = list;
          query_output_handler = output;
        }))
unfolding unmarshal block_params
unmarshal_lem typ =
    rw
      (
        switch-map list_params typ.ms_engine.name ms_cases,
        switch-map query_params typ.query_engine.name query_cases,
        switch-map output_params typ.output_engine.name output_cases,
        set_list_params-given,
        set_query_params-given,
        set_output_params-given,
      )
      refl

abbrev pub has_no_handler : EngineConfiguration → Bool
has_no_handler c = elim c.query_output_handler [ none ↦ true | some _ ↦ false ]

abbrev pub with_redis_input : EngineConfiguration → EngineConfiguration
with_redis_input c = record c { server_list_engine = redis_input }

-- With `-refresh-only` the process panics if some configuration has no output handler; otherwise each
-- has the Redis input as its server-list engine and keeps its other engines.
pub apply_refresh_mode_lem :
    (cs : List EngineConfiguration)
    → apply_refresh_mode cs
      ≡ (if any has_no_handler cs then panic bad_assertion else ok (map with_redis_input cs))
unfolding apply_refresh_mode
apply_refresh_mode_lem [] = refl
apply_refresh_mode_lem (c ∷ cs) = elim (Option-cases c.query_output_handler) [
  | inl e ↦ rw e refl
  | inr (redis_output, e) ↦ elim (Bool-cases (any has_no_handler cs)) [
    | inl f ↦ rw (e, apply_refresh_mode_lem cs, f) refl
    | inr f ↦
        rw (e, apply_refresh_mode_lem cs, f)
          (λ i.
            ok (
              record (with_redis_input c) { query_output_handler = e i } ∷ map with_redis_input cs))
  ]
]
