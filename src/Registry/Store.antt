-- ===== src/Registry/Store.antt =====
-- packages/provider-registry/src/registry.ts: InMemoryProviderRegistry. A method gives the new state
-- or throws. The copies that it makes of definitions are the definitions.
pub mod Served
pub mod Consistency
pub mod Resolution
pub mod Fallbacks
use agent_routebench.Prelude.{
  ◌≡◌, refl, AfterOk, Bool, true, false, not, ◌&&◌, ◌||◌, String, includes, List, [], ◌∷◌, ◌++◌,
  map, Option, none, some, ◌==◌, if◌then◌else◌, Outcome, ok, err, ◌>>=◌, ◌>>◌, ensure,
}
use agent_routebench.Prelude.Maps.{lookup, insert, delete}
use agent_routebench.Contracts.Value.{Value}
use agent_routebench.Registry.Types.{
  ProviderDefinition, RouteDefinition, ResolvedRoute, RegistryError, duplicate_provider_id,
  provider_not_found, provider_disabled, duplicate_route_id, route_not_found, route_disabled,
  fallback_provider_not_found, fallback_model_not_available, provider_has_routes,
  model_not_available, invalid_registry_snapshot,
}
use agent_routebench.Registry.Validation.{
  ParsedUrl, required, validate_provider_definition, validate_route_definition,
}

pub record Registry : Type 0 where
  pub providers : List (String × ProviderDefinition)
  pub routes : List (String × RouteDefinition)

abbrev pub Result : Type 0 → Type 0
Result A = Outcome RegistryError A

unfoldable pub empty : Registry
empty = record { providers = []; routes = [] }

abbrev pub fallbacks : RouteDefinition → List String
fallbacks route = elim route.fallback_provider_ids [ none ↦ [] | some ids ↦ ids ]

-- routeProviderIds
abbrev pub route_provider_ids : RouteDefinition → List String
route_provider_ids route = route.provider_id ∷ fallbacks route

-- routeReferencesProvider
abbrev pub route_references_provider : RouteDefinition → String → Bool
route_references_provider route id = route.provider_id == id || includes id (fallbacks route)

abbrev is_present {ℓ} : {A : Type ℓ} → Option A → Bool
is_present none = false
is_present (some _) = true

pub required-AfterOk {ℓ κ μ} :
    {A : Type ℓ} {B : Type κ} {P : B → Type μ} (o : Option A) (e : RegistryError)
    (f : A → Outcome RegistryError B)
    → ((a : A) → o ≡ some a → AfterOk P (f a))
    → AfterOk P (required o e >>= f)
required-AfterOk none e f h = record { holds = tt }
required-AfterOk (some a) e f h = record { holds = (h a refl).holds }

-- A provider definition as `set` stores it.
abbrev store_provider : ProviderDefinition → Registry → Registry
store_provider p r = record r { providers = insert p.id p r.providers }

abbrev store_route : RouteDefinition → Registry → Registry
store_route route r = record r { routes = insert route.id route r.routes }

module _ (parse_url : String → Option ParsedUrl) where
  unfoldable pub register_provider : Registry → Value → Result Registry
  register_provider r provider = do
    validated ← validate_provider_definition parse_url provider
    ensure (not (is_present (lookup validated.id r.providers))) duplicate_provider_id
    ok (store_provider validated r)

-- The loop of updateProvider over the routes.
unfoldable pub check_routes_of :
    ProviderDefinition → List (String × RouteDefinition) → Result (Unit {0})
check_routes_of p [] = ok tt
check_routes_of p ((_, route) ∷ routes) = do
  ensure (not (route_references_provider route p.id) || includes route.model p.models)
      model_not_available
  check_routes_of p routes

module _ (parse_url : String → Option ParsedUrl) where
  unfoldable pub update_provider : Registry → Value → Result Registry
  update_provider r provider = do
    validated ← validate_provider_definition parse_url provider
    ensure (is_present (lookup validated.id r.providers)) provider_not_found
    check_routes_of validated r.routes
    ok (store_provider validated r)

-- The loop of removeProvider.
unfoldable pub check_unreferenced : String → List (String × RouteDefinition) → Result (Unit {0})
check_unreferenced id [] = ok tt
check_unreferenced id ((_, route) ∷ routes) = do
  ensure (not (route_references_provider route id)) provider_has_routes
  check_unreferenced id routes

unfoldable pub remove_provider : Registry → String → Result Registry
remove_provider r id = do
  ensure (is_present (lookup id r.providers)) provider_not_found
  check_unreferenced id r.routes
  ok (record r { providers = delete id r.providers })

unfoldable pub get_provider : Registry → String → Option ProviderDefinition
get_provider r id = lookup id r.providers

unfoldable pub list_providers : Registry → List ProviderDefinition
list_providers r = map (λ e. e.1) r.providers

-- #assertFallbackProviders
unfoldable pub assert_fallback_providers :
    List (String × ProviderDefinition) → String → List String → Result (Unit {0})
assert_fallback_providers providers model [] = ok tt
assert_fallback_providers providers model (id ∷ ids) = do
  fallback ← required (lookup id providers) fallback_provider_not_found
  ensure (includes model fallback.models) fallback_model_not_available
  assert_fallback_providers providers model ids

-- The checks that registerRoute and updateRoute share.
unfoldable pub check_route : Registry → RouteDefinition → Result (Unit {0})
check_route r route = do
  provider ← required (lookup route.provider_id r.providers) provider_not_found
  ensure (includes route.model provider.models) model_not_available
  ensure (provider.enabled || not route.enabled) provider_disabled
  assert_fallback_providers r.providers route.model (fallbacks route)

unfoldable pub register_route : Registry → Value → Result Registry
register_route r route = do
  validated ← validate_route_definition route
  ensure (not (is_present (lookup validated.id r.routes))) duplicate_route_id
  check_route r validated
  ok (store_route validated r)

unfoldable pub update_route : Registry → Value → Result Registry
update_route r route = do
  validated ← validate_route_definition route
  ensure (is_present (lookup validated.id r.routes)) route_not_found
  check_route r validated
  ok (store_route validated r)

unfoldable pub remove_route : Registry → String → Result Registry
remove_route r id = do
  ensure (is_present (lookup id r.routes)) route_not_found
  ok (record r { routes = delete id r.routes })

unfoldable pub get_route : Registry → String → Option RouteDefinition
get_route r id = lookup id r.routes

unfoldable pub list_routes : Registry → List RouteDefinition
list_routes r = map (λ e. e.1) r.routes

abbrev pub resolved_route : RouteDefinition → ProviderDefinition → ResolvedRoute
resolved_route route provider = record {
  route_id = route.id;
  provider_id = provider.id;
  protocol = provider.protocol;
  base_url = provider.base_url;
  model = route.model;
  credential_ref = provider.credential_ref;
}

-- The route, if it is there and enabled.
abbrev enabled_route : Registry → String → Result RouteDefinition
enabled_route r id = do
  route ← required (lookup id r.routes) route_not_found
  ensure route.enabled route_disabled
  ok route

unfoldable pub resolve_route : Registry → String → Result ResolvedRoute
resolve_route r id = do
  route ← enabled_route r id
  provider ← required (lookup route.provider_id r.providers) provider_not_found
  ensure provider.enabled provider_disabled
  ensure (includes route.model provider.models) invalid_registry_snapshot
  ok (resolved_route route provider)

-- The loop of resolveRouteCandidates over the provider ids.
unfoldable pub collect_candidates :
    List (String × ProviderDefinition) → RouteDefinition → List String → Result (List ResolvedRoute)
collect_candidates providers route [] = ok []
collect_candidates providers route (id ∷ ids) = do
  provider ←
      required (lookup id providers)
        (if id == route.provider_id then provider_not_found else fallback_provider_not_found)
  ensure (includes route.model provider.models)
      (if id == route.provider_id then invalid_registry_snapshot else fallback_model_not_available)
  rest ← collect_candidates providers route ids
  ok (if provider.enabled then resolved_route route provider ∷ rest else rest)

abbrev some_candidate : List ResolvedRoute → Result (List ResolvedRoute)
some_candidate [] = err provider_disabled
some_candidate (c ∷ cs) = ok (c ∷ cs)

unfoldable pub resolve_route_candidates : Registry → String → Result (List ResolvedRoute)
unfolding collect_candidates
resolve_route_candidates r id = do
  route ← enabled_route r id
  candidates ← collect_candidates r.providers route (route_provider_ids route)
  some_candidate candidates
