-- ===== src/Registry/Types.antt =====
-- The records of packages/provider-registry/src/types.ts and the error keys of errors.ts.
use agent_routebench.Prelude.{Bool, String, List, Option}

pub data ProviderProtocol : Type 0 where
  anthropic_messages openai_compatible : ProviderProtocol

pub record ProviderDefinition : Type 0 where
  pub id : String
  pub name : String
  pub protocol : ProviderProtocol
  pub base_url : String
  pub credential_ref : Option String
  pub models : List String
  pub enabled : Bool

-- `fallback_provider_ids` is `none` where the property is absent.
pub record RouteDefinition : Type 0 where
  pub id : String
  pub name : String
  pub provider_id : String
  pub model : String
  pub enabled : Bool
  pub fallback_provider_ids : Option (List String)

pub record ResolvedRoute : Type 0 where
  pub route_id : String
  pub provider_id : String
  pub protocol : ProviderProtocol
  pub base_url : String
  pub model : String
  pub credential_ref : Option String

-- The keys of PROVIDER_REGISTRY_ERROR_CODES that the registry and its validators throw.
pub data RegistryError : Type 0 where
  invalid_provider_id duplicate_provider_id provider_not_found provider_disabled : RegistryError
  invalid_provider_name invalid_provider_protocol invalid_provider_url : RegistryError
  invalid_provider_models invalid_provider_enabled forbidden_provider_field : RegistryError
  invalid_credential_ref invalid_route_id duplicate_route_id route_not_found : RegistryError
  route_disabled invalid_route_name invalid_route_model invalid_route_enabled : RegistryError
  forbidden_route_field invalid_fallback_provider_ids duplicate_fallback_provider_id : RegistryError
  fallback_provider_not_found fallback_model_not_available : RegistryError
  too_many_fallback_providers provider_has_routes model_not_available : RegistryError
  invalid_registry_snapshot : RegistryError
