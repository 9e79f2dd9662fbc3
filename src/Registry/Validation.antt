-- ===== src/Registry/Validation.antt =====
-- The validators of packages/provider-registry/src/types.ts. `new URL` is the platform's: the
-- argument `parse_url`.
use agent_routebench.Prelude.{
  ℕ, Bool, not, ◌&&◌, ◌||◌, String, codes, includes, List, [], ◌∷◌, length, Option, none, some, ltb,
  ◌==◌, if◌then◌else◌, Outcome, ok, err, ◌>>=◌, ◌>>◌, ensure,
}
use agent_routebench.Contracts.Value.{
  Value, undefined, null, boolean, string, property, as_array, is_plain_object,
}
use agent_routebench.Contracts.Validation.{has_forbidden_key}
use agent_routebench.Registry.Types.{
  ProviderProtocol, anthropic_messages, openai_compatible, ProviderDefinition, RouteDefinition,
  RegistryError, invalid_provider_id, invalid_provider_name, invalid_provider_protocol,
  invalid_provider_url, invalid_provider_models, invalid_provider_enabled, forbidden_provider_field,
  invalid_credential_ref, invalid_route_id, invalid_route_name, invalid_route_model,
  invalid_route_enabled, forbidden_route_field, invalid_fallback_provider_ids,
  duplicate_fallback_provider_id, too_many_fallback_providers, provider_not_found,
}
use agent_routebench.Registry.Names.{
  is_provider_id, is_credential_ref, is_display_name, is_model_name, is_secret_like, contains_space,
  contains_text,
}

abbrev pub Validated : Type 0 → Type 0
Validated A = Outcome RegistryError A

-- FORBIDDEN_PROVIDER_FIELDS
abbrev pub forbidden_provider_fields : List String
forbidden_provider_fields =
    "apikey" ∷ "api_key" ∷ "api-key" ∷ "token" ∷ "authorization" ∷ "headers" ∷ "secret" ∷ "password"
    ∷ "credential" ∷ "access_token" ∷ "accesstoken" ∷ "refresh_token" ∷ "refreshtoken"
    ∷ "client_secret" ∷ "clientsecret" ∷ "provider_secret" ∷ "providersecret" ∷ "bearer" ∷ "oauth"
    ∷ []

-- FORBIDDEN_ROUTE_FIELDS
abbrev pub forbidden_route_fields : List String
forbidden_route_fields =
    "apikey" ∷ "api_key" ∷ "api-key" ∷ "token" ∷ "authorization" ∷ "headers" ∷ "secret" ∷ "password"
    ∷ "credential" ∷ "baseurl" ∷ "base_url" ∷ "endpoint" ∷ "access_token" ∷ "accesstoken"
    ∷ "refresh_token" ∷ "refreshtoken" ∷ "client_secret" ∷ "clientsecret" ∷ "bearer" ∷ "oauth" ∷ []

-- What `new URL` gives, as far as the validator reads it.
pub record ParsedUrl : Type 0 where
  pub protocol : String
  pub username : String
  pub password : String

-- The value, or the error that the code throws without it.
abbrev pub required {ℓ} : {A : Type ℓ} → Option A → RegistryError → Outcome RegistryError A
required none e = err e
required (some a) e = ok a

-- A text that passes a test.
abbrev pub text_where : (String → Bool) → Value → Option String
text_where test (string s) = if test s then some s else none
text_where test _ = none

-- assertId, assertDisplayName, assertModelName, assertCredentialRef: each leaves its text.
unfoldable pub assert_id : Value → RegistryError → Validated String
assert_id value e = required (text_where is_provider_id value) e

unfoldable pub assert_display_name : Value → RegistryError → Validated String
assert_display_name value e = required (text_where (λ s. is_display_name (codes s)) value) e

unfoldable pub assert_model_name : Value → RegistryError → Validated String
assert_model_name value e = required (text_where is_model_name value) e

unfoldable pub assert_credential_ref : Value → Validated String
assert_credential_ref value = required (text_where is_credential_ref value) invalid_credential_ref

abbrev pub protocol_of : Value → Option ProviderProtocol
protocol_of (string s) =
    if s == "anthropic_messages"
    then some anthropic_messages
    else if s == "openai_compatible"
    then some openai_compatible
    else none
protocol_of _ = none

unfoldable pub assert_protocol : Value → Validated ProviderProtocol
assert_protocol value = required (protocol_of value) invalid_provider_protocol

abbrev pub as_boolean : Value → Option Bool
as_boolean (boolean b) = some b
as_boolean _ = none

unfoldable pub assert_enabled : Value → RegistryError → Validated Bool
assert_enabled value e = required (as_boolean value) e

abbrev is_web_url : ParsedUrl → Bool
is_web_url url =
    (url.protocol == "http:" || url.protocol == "https:")
    && url.username == ""
    && url.password == ""

abbrev is_url_text : String → Bool
is_url_text s =
    not (s == "")
    && not (contains_space (codes s))
    && not (contains_text (codes "?") (codes s))
    && not (contains_text (codes "#") (codes s))

-- assertBaseUrl, with parseBaseUrl
unfoldable pub assert_base_url : (String → Option ParsedUrl) → Value → Validated String
assert_base_url parse_url value = do
  url ← required (text_where is_url_text value) invalid_provider_url
  parsed ← required (parse_url url) invalid_provider_url
  ensure (is_web_url parsed) invalid_provider_url
  ok url

-- `input.credentialRef ?? null`, validated.
unfoldable pub read_credential_ref : Value → Validated (Option String)
unfolding assert_credential_ref
read_credential_ref undefined = ok none
read_credential_ref null = ok none
read_credential_ref value = do ref ← assert_credential_ref value; ok (some ref)

-- The loop over `models`, with the names so far in reverse.
unfoldable pub check_models : List String → List Value → Validated (List String)
unfolding assert_model_name
check_models seen [] = ok []
check_models seen (model ∷ models) = do
  name ← assert_model_name model invalid_provider_models
  ensure (not (includes name seen)) invalid_provider_models
  names ← check_models (name ∷ seen) models
  ok (name ∷ names)

abbrev non_empty : Option (List Value) → Option (List Value)
non_empty (some (v ∷ vs)) = some (v ∷ vs)
non_empty _ = none

unfoldable pub validate_provider_definition :
    (String → Option ParsedUrl) → Value → Validated ProviderDefinition
unfolding assert_id assert_display_name assert_protocol assert_base_url read_credential_ref
    assert_enabled
validate_provider_definition parse_url input = do
  ensure (is_plain_object input) invalid_provider_id
  ensure (not (has_forbidden_key forbidden_provider_fields input)) forbidden_provider_field
  id ← assert_id (property "id" input) invalid_provider_id
  name ← assert_display_name (property "name" input) invalid_provider_name
  protocol ← assert_protocol (property "protocol" input)
  base_url ← assert_base_url parse_url (property "baseUrl" input)
  credential_ref ← read_credential_ref (property "credentialRef" input)
  list ← required (non_empty (as_array (property "models" input))) invalid_provider_models
  models ← check_models [] list
  enabled ← assert_enabled (property "enabled" input) invalid_provider_enabled
  ok (record {
    id = id;
    name = name;
    protocol = protocol;
    base_url = base_url;
    credential_ref = credential_ref;
    models = models;
    enabled = enabled;
  })

-- MAX_ROUTE_FALLBACKS
abbrev pub max_route_fallbacks : ℕ
max_route_fallbacks = 4

-- The loop of assertFallbackProviderIds; `seen` begins with the primary provider.
unfoldable pub check_fallbacks : List String → List Value → Validated (List String)
check_fallbacks seen [] = ok []
check_fallbacks seen (entry ∷ entries) = do
  id ← required (text_where is_provider_id entry) invalid_fallback_provider_ids
  ensure (not (is_secret_like id)) invalid_fallback_provider_ids
  ensure (not (includes id seen)) duplicate_fallback_provider_id
  ids ← check_fallbacks (id ∷ seen) entries
  ok (id ∷ ids)

unfoldable pub assert_fallback_provider_ids : Value → String → Validated (List String)
assert_fallback_provider_ids value primary = do
  list ← required (as_array value) invalid_fallback_provider_ids
  ensure (not (ltb max_route_fallbacks (length list))) too_many_fallback_providers
  check_fallbacks (primary ∷ []) list

abbrev pub non_empty_text : String → Bool
non_empty_text s = not (s == "")

unfoldable pub read_fallbacks : Value → String → Validated (Option (List String))
unfolding assert_fallback_provider_ids
read_fallbacks undefined primary = ok none
read_fallbacks value primary = do ids ← assert_fallback_provider_ids value primary; ok (some ids)

unfoldable pub validate_route_definition : Value → Validated RouteDefinition
unfolding assert_id assert_display_name assert_model_name assert_enabled read_fallbacks
validate_route_definition input = do
  ensure (is_plain_object input) invalid_route_id
  ensure (not (has_forbidden_key forbidden_route_fields input)) forbidden_route_field
  id ← assert_id (property "id" input) invalid_route_id
  name ← assert_display_name (property "name" input) invalid_route_name
  provider_id ←
      required (text_where non_empty_text (property "providerId" input)) provider_not_found
  model ← assert_model_name (property "model" input) invalid_route_model
  enabled ← assert_enabled (property "enabled" input) invalid_route_enabled
  fallbacks ← read_fallbacks (property "fallbackProviderIds" input) provider_id
  ok (record {
    id = id;
    name = name;
    provider_id = provider_id;
    model = model;
    enabled = enabled;
    fallback_provider_ids = fallbacks;
  })
