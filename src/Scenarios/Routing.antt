-- ===== src/Scenarios/Routing.antt =====
-- A registry with two providers, and a route that fails over between them.
use agent_routebench.Prelude.{
  zero, suc, ◌≡◌, refl, true, inl, String, List, [], ◌∷◌, Option, none, some, ok, arith,
}
use agent_routebench.Contracts.Value.{
  natural, Value, boolean, number, string, array, plain, nil, item, end, field,
}
use agent_routebench.Contracts.Events.{ModelStreamEvent, values}
use agent_routebench.Generator.{pure, finish, emit, observe, ◌>>=◌, ◌>>◌}
use agent_routebench.Generator.Rules.{collect}
use agent_routebench.Contracts.Validation.{has_forbidden_key}
use agent_routebench.Registry.Types.{RouteDefinition, ResolvedRoute, openai_compatible}
use agent_routebench.Registry.Names.{
  is_space, is_id_code, is_id, is_display_name, is_secret_like, is_model_name,
}
use agent_routebench.Registry.Validation.{
  ParsedUrl, assert_id, assert_display_name, assert_model_name, assert_credential_ref,
  assert_protocol, assert_enabled, assert_base_url, read_credential_ref, check_models,
  validate_provider_definition, check_fallbacks, assert_fallback_provider_ids, read_fallbacks,
  validate_route_definition,
}
use agent_routebench.Prelude.Maps.{lookup, insert, delete}
use agent_routebench.Registry.Store.{
  Registry, empty, register_provider, register_route, remove_provider, check_route,
  check_unreferenced, assert_fallback_providers, resolve_route, resolve_route_candidates,
}
use agent_routebench.Registry.Store.Consistency.{
  IsConsistent, Command, register_provider_with, register_route_with, remove_provider_of, execute,
  execute_all, execute_all-IsConsistent,
}
use agent_routebench.Registry.Store.Resolution.{IsPrimary, resolve_route-first}
use agent_routebench.Resilience.Policy.{
  default_retry_policy, normalize_retry_policy, compute_backoff_delay_ms, is_retryable_stream_error,
}
use agent_routebench.Resilience.Policy.Backoff.{
  IsNormal, normalize_retry_policy-IsNormal, compute_backoff_delay_ms-doubles, Delays,
}
use agent_routebench.Resilience.Gateway.{
  Attempt, relay, back_off, try_candidate, try_candidates, stream,
}
use agent_routebench.Resilience.Gateway.Schedule.{AreAllowed, attempt_of, stream-attempts}
use agent_routebench.Resilience.Gateway
use agent_routebench.Resilience.Gateway.Schedule.{schedule}
use agent_routebench.Resilience.Gateway.Answer.{first_answer, stream-answer}
use agent_routebench.Resilience.Gateway.Courses.{visible_of}
use agent_routebench.Registry.Store.Fallbacks.{
  HasCandidateIds, validate_route_definition-HasCandidateIds,
}
use agent_routebench.Scenarios.{quiet}

-- The policy of `initialBackoffMs: 250`, with the defaults.
abbrev policy_input : Value
policy_input = plain (field "initialBackoffMs" (number (natural 250)) end)

normalize_policy_input : normalize_retry_policy policy_input ≡ ok default_retry_policy
unfolding normalize_retry_policy
normalize_policy_input = refl

policy_example : IsNormal default_retry_policy
policy_example =
    normalize_retry_policy-IsNormal policy_input default_retry_policy normalize_policy_input

default-IsNormal : IsNormal default_retry_policy
default-IsNormal =
    ((omega arith, omega arith), (omega arith, omega arith), omega arith, omega arith)

backoff_example :
    Delays default_retry_policy 2 (compute_backoff_delay_ms default_retry_policy (natural 2))
backoff_example =
    compute_backoff_delay_ms-doubles default_retry_policy (natural 2) 2 default-IsNormal
      (inl (ground arith, refl))

-- A provider and a second one that serve one model, and the route that fails over between them.
abbrev provider_value : String → Value
provider_value id = plain (
    field "id" (string id) (
      field "name" (string "Provider") (
        field "protocol" (string "openai_compatible") (
          field "baseUrl" (string "https://a.test") (
            field "models" (array (item (string "m") nil)) (field "enabled" (boolean true) end))))))

abbrev route_value : Value
route_value = plain (
    field "id" (string "main") (
      field "name" (string "Main") (
        field "providerId" (string "p1") (
          field "model" (string "m") (
            field "enabled" (boolean true)
              (field "fallbackProviderIds" (array (item (string "p2") nil)) end))))))

-- A parser that takes every text for a URL of this scheme.
abbrev parse_https : String → Option ParsedUrl
parse_https s = some (record { protocol = "https:"; username = ""; password = "" })

abbrev commands : List Command
commands =
    register_provider_with (provider_value "p1")
    ∷ register_provider_with (provider_value "p2")
    ∷ register_route_with route_value
    ∷ remove_provider_of "p2"
    ∷ []

abbrev candidate : String → ResolvedRoute
candidate id = record {
  route_id = "main";
  provider_id = id;
  protocol = openai_compatible;
  base_url = "https://a.test";
  model = "m";
  credential_ref = none;
}

abbrev stocked : Registry
stocked = execute_all parse_https empty commands

references_example : IsConsistent stocked
references_example = execute_all-IsConsistent parse_https commands

resolve_stocked : resolve_route stocked "main" ≡ ok (candidate "p1")
unfolding execute_all execute empty register_provider register_route remove_provider check_route
    check_unreferenced assert_fallback_providers resolve_route is_space is_id_code is_id
    is_display_name is_secret_like is_model_name assert_id assert_display_name assert_model_name
    assert_credential_ref assert_protocol assert_enabled assert_base_url read_credential_ref
    check_models validate_provider_definition check_fallbacks assert_fallback_provider_ids
    read_fallbacks validate_route_definition lookup insert delete has_forbidden_key
resolve_stocked = refl

first_example :
    IsPrimary stocked "main" (candidate "p1")
    × ((rest : List ResolvedRoute) × (resolve_route_candidates stocked "main"
          ≡ ok (candidate "p1" ∷ rest)))
first_example =
    resolve_route-first stocked "main" (candidate "p1")
      (execute_all-IsConsistent parse_https commands) resolve_stocked

-- The first candidate is limited twice, and the second answers.
abbrev attempts : Attempt
attempts used c = elim used [
  | zero ↦ values (ModelStreamEvent.error (string "rate_limited") (string "x") (boolean true) ∷ [])
  | suc zero ↦
      values (ModelStreamEvent.error (string "rate_limited") (string "x") (boolean true) ∷ [])
  | suc (suc _) ↦ values (ModelStreamEvent.text_delta "Noon." ∷ ModelStreamEvent.completed ∷ [])
]

attempts_example : AreAllowed default_retry_policy (ok (candidate "p1" ∷ candidate "p2" ∷ [])) (
    collect attempt_of
      (stream quiet default_retry_policy attempts
        (ok (candidate "p1" ∷ candidate "p2" ∷ []))
        0).trace)
attempts_example =
    stream-attempts quiet default_retry_policy attempts (ok (candidate "p1" ∷ candidate "p2" ∷ []))
      0

failover :
    collect attempt_of
      (stream quiet default_retry_policy attempts
        (ok (candidate "p1" ∷ candidate "p2" ∷ []))
        0).trace
    ≡ candidate "p1" ∷ candidate "p1" ∷ candidate "p2" ∷ []
unfolding stream try_candidates try_candidate back_off relay pure finish emit observe ◌>>=◌ ◌>>◌
    is_retryable_stream_error
failover = refl

answer_example :
    collect visible_of
      (stream quiet default_retry_policy attempts
        (ok (candidate "p1" ∷ candidate "p2" ∷ []))
        0).trace
    ≡ first_answer attempts (schedule 2 (candidate "p1" ∷ candidate "p2" ∷ [])) 8 0 none
answer_example =
    stream-answer quiet default_retry_policy attempts (candidate "p1" ∷ candidate "p2" ∷ []) 0
      (λ k. refl)

answered :
    first_answer attempts (schedule 2 (candidate "p1" ∷ candidate "p2" ∷ [])) 8 0 none
    ≡ Gateway.yielded (ModelStreamEvent.text_delta "Noon.")
      ∷ Gateway.yielded ModelStreamEvent.completed
      ∷ []
unfolding is_retryable_stream_error
answered = refl

abbrev main_route : RouteDefinition
main_route = record {
  id = "main";
  name = "Main";
  provider_id = "p1";
  model = "m";
  enabled = true;
  fallback_provider_ids = some ("p2" ∷ []);
}

validate_main : validate_route_definition route_value ≡ ok main_route
unfolding execute_all execute empty register_provider register_route remove_provider check_route
    check_unreferenced assert_fallback_providers resolve_route is_space is_id_code is_id
    is_display_name is_secret_like is_model_name assert_id assert_display_name assert_model_name
    assert_credential_ref assert_protocol assert_enabled assert_base_url read_credential_ref
    check_models validate_provider_definition check_fallbacks assert_fallback_provider_ids
    read_fallbacks validate_route_definition lookup insert delete has_forbidden_key
validate_main = refl

fallbacks_example : HasCandidateIds main_route
fallbacks_example = validate_route_definition-HasCandidateIds route_value main_route validate_main
