-- ===== src/Registry/Store/Resolution.antt =====
-- What resolving a route gives: packages/provider-registry/src/registry.ts.
use agent_routebench.Prelude.{
  ◌≡◌, refl, true, inl, inr, String, List, [], ◌∷◌, Option, none, some, All, if◌then◌else◌, ok, err,
  arith, Option-cases,
}
use agent_routebench.Prelude.Maps.{lookup, Entries-lookup}
use agent_routebench.Registry.Types.{
  ProviderDefinition, RouteDefinition, ResolvedRoute, provider_disabled, route_not_found,
  route_disabled,
}
use agent_routebench.Registry.Store.Consistency.{IsConsistent}
use agent_routebench.Registry.Store.Served.{IsServed, Serves}
use agent_routebench.Registry.Store.{
  Registry, Result, route_provider_ids, fallbacks, resolved_route, collect_candidates,
  resolve_route, resolve_route_candidates,
}

abbrev Providers : Type 0
Providers = List (String × ProviderDefinition)

-- The resolved route of one provider id, if the provider is there and enabled.
abbrev candidate_of : Providers → RouteDefinition → String → Option ResolvedRoute
candidate_of providers route id = elim (lookup id providers) [
  | none ↦ none
  | some provider ↦ if provider.enabled then some (resolved_route route provider) else none
]

-- The candidates, in the order of the route's provider ids.
abbrev pub candidates : Providers → RouteDefinition → List String → List ResolvedRoute
candidates providers route [] = []
candidates providers route (id ∷ ids) =
    let rest = candidates providers route ids in
    elim (candidate_of providers route id) [ none ↦ rest | some c ↦ c ∷ rest ]

-- What a consistent registry gives for a route id.
abbrev pub answer : Registry → String → Result (List ResolvedRoute)
answer r id = elim (lookup id r.routes) [
  | none ↦ err route_not_found
  | some route ↦
      if route.enabled
      then elim (candidates r.providers route (route_provider_ids route)) [
        | [] ↦ err provider_disabled
        | c ∷ cs ↦ ok (c ∷ cs)
      ]
      else err route_disabled
]

collect_candidates-eq :
    (providers : Providers) (route : RouteDefinition) (ids : List String)
    → All (Serves providers route.model) ids
    → collect_candidates providers route ids ≡ ok (candidates providers route ids)
unfolding collect_candidates
collect_candidates-eq providers route [] h = refl
collect_candidates-eq providers route (id ∷ ids) ((p, found, offers), h) =
    ground (arith, collect_candidates-eq providers route ids h)

served :
    (r : Registry) (id : String) (route : RouteDefinition)
    → IsConsistent r
    → lookup id r.routes ≡ some route
    → All (Serves r.providers route.model) (route_provider_ids route)
served r id route h found =
    let s = Entries-lookup (λ _ x. IsServed r.providers x) id r.routes h.served found in
    (s.primary, s.others)

-- The route as the primary provider serves it.
pub record IsPrimary (r : Registry) (id : String) (resolved : ResolvedRoute) : Type 0 where
  pub route : RouteDefinition
  pub registered : lookup id r.routes ≡ some route
  pub route_enabled : route.enabled ≡ true
  pub provider : ProviderDefinition
  pub primary : lookup route.provider_id r.providers ≡ some provider
  pub provider_enabled : provider.enabled ≡ true
  pub route_id : resolved.route_id ≡ id
  pub provider_id : resolved.provider_id ≡ route.provider_id
  pub model : resolved.model ≡ route.model
  pub protocol : resolved.protocol ≡ provider.protocol
  pub base_url : resolved.base_url ≡ provider.base_url
  pub credential_ref : resolved.credential_ref ≡ provider.credential_ref

resolve_route-IsPrimary :
    (r : Registry) (id : String) (resolved : ResolvedRoute)
    → IsConsistent r
    → resolve_route r id ≡ ok resolved
    → IsPrimary r id resolved
unfolding resolve_route
resolve_route-IsPrimary r id resolved h e = elim (Option-cases (lookup id r.routes)) [
  | inl missing ↦ absurd (ground arith)
  | inr (route, found) ↦
      let (p, serving, offers) = (served r id route h found).0 in
      let keyed = Entries-lookup (λ k x. x.id ≡ k) id r.routes h.route_keys found in
      let provider_keyed =
        Entries-lookup (λ k x. x.id ≡ k) route.provider_id r.providers h.provider_keys serving in
      let same : resolved ≡ resolved_route route p = ground arith in
      record {
        route = route;
        registered = found;
        route_enabled = ground arith;
        provider = p;
        primary = serving;
        provider_enabled = ground arith;
        route_id = rw same keyed;
        provider_id = rw same provider_keyed;
        model = rw same;
        protocol = rw same;
        base_url = rw same;
        credential_ref = rw same;
      }
]

resolve_route-head :
    (r : Registry) (id : String) (first : ResolvedRoute)
    → IsConsistent r
    → resolve_route r id ≡ ok first
    → (rest : List ResolvedRoute) × (resolve_route_candidates r id ≡ ok (first ∷ rest))
unfolding resolve_route resolve_route_candidates collect_candidates
resolve_route-head r id first h e = elim (Option-cases (lookup id r.routes)) [
  | inl missing ↦ absurd (ground arith)
  | inr (route, found) ↦
      let (p, serving, offers) = (served r id route h found).0 in
      (
        candidates r.providers route (fallbacks route),
        ground (
          arith,
          collect_candidates-eq r.providers route (fallbacks route) (served r id route h found).1,
        ),
      )
]

-- In a consistent registry `resolveRoute` gives the first candidate of `resolveRouteCandidates`,
-- wherever it gives a route at all. It is the enabled route of that id with its model, under the id,
-- protocol, address and credential of the route's primary provider, which is enabled.
pub resolve_route-first :
    (r : Registry) (id : String) (first : ResolvedRoute)
    → IsConsistent r
    → resolve_route r id ≡ ok first
    → IsPrimary r id first
      × ((rest : List ResolvedRoute) × (resolve_route_candidates r id ≡ ok (first ∷ rest)))
resolve_route-first r id first h e =
    (resolve_route-IsPrimary r id first h e, resolve_route-head r id first h e)
