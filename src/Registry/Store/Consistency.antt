-- ===== src/Registry/Store/Consistency.antt =====
-- The references inside a registry: every operation keeps each route served.
use agent_routebench.Prelude.{
  ◌≡◌, refl, true, not, String, List, [], ◌∷◌, Option, none, some, Outcome, ok, err, AfterOk,
  AfterOk-ok, bind-AfterOk, ok-AfterOk, ensure-AfterOk,
}
use agent_routebench.Prelude.Maps.{Entries, Entries-insert, Entries-delete, Entries-map}
use agent_routebench.Contracts.Value.{Value}
use agent_routebench.Registry.Types.{RouteDefinition, RegistryError}
use agent_routebench.Registry.Validation.{
  ParsedUrl, validate_provider_definition, validate_route_definition,
}
use agent_routebench.Registry.Store.{
  Registry, empty, is_present, store_route, register_provider, check_routes_of, update_provider,
  check_unreferenced, remove_provider, check_route, register_route, update_route, remove_route,
}
use agent_routebench.Registry.Store.Served.{
  IsServed, IsServed-insert_new, check_routes_of-IsServed, check_unreferenced-IsServed,
  check_route-IsServed,
}

-- Keys are the ids of what they lead to, and every route is served.
pub record IsConsistent (r : Registry) : Type 0 where
  pub provider_keys : Entries (λ k p. p.id ≡ k) r.providers
  pub route_keys : Entries (λ k route. route.id ≡ k) r.routes
  pub served : Entries (λ _ route. IsServed r.providers route) r.routes

empty-IsConsistent : IsConsistent empty
unfolding empty
empty-IsConsistent = record { provider_keys = tt; route_keys = tt; served = tt }

absent : {A : Type 0} (o : Option A) → not (is_present o) ≡ true → o ≡ none
absent none h = refl
absent (some a) h = cc

module _ (r : Registry) (h : IsConsistent r) where
  store_route-IsConsistent :
      (route : RouteDefinition) → IsServed r.providers route → IsConsistent (store_route route r)
  store_route-IsConsistent route served = record {
    provider_keys = h.provider_keys;
    route_keys = Entries-insert _ route.id route r.routes refl h.route_keys;
    served = Entries-insert _ route.id route r.routes served h.served;
  }

  -- Every operation that succeeds on a consistent registry gives a consistent one.
  register_provider-after :
      (parse_url : String → Option ParsedUrl) (provider : Value)
      → AfterOk IsConsistent (register_provider parse_url r provider)
  unfolding register_provider
  register_provider-after parse_url provider =
      bind-AfterOk (validate_provider_definition parse_url provider) _ (λ p _.
        ensure-AfterOk _ _ _ (λ fresh. ok-AfterOk _ (record {
          provider_keys = Entries-insert _ p.id p r.providers refl h.provider_keys;
          route_keys = h.route_keys;
          served =
              Entries-map _ _ r.routes
                (λ _ route. IsServed-insert_new r.providers p route (absent _ fresh)) h.served;
        })))

  update_provider-after :
      (parse_url : String → Option ParsedUrl) (provider : Value)
      → AfterOk IsConsistent (update_provider parse_url r provider)
  unfolding update_provider
  update_provider-after parse_url provider =
      bind-AfterOk (validate_provider_definition parse_url provider) _ (λ p _.
        ensure-AfterOk _ _ _ (λ _. bind-AfterOk (check_routes_of p r.routes) _ (λ u checked.
          ok-AfterOk _ (record {
            provider_keys = Entries-insert _ p.id p r.providers refl h.provider_keys;
            route_keys = h.route_keys;
            served = AfterOk-ok (check_routes_of-IsServed r.providers p r.routes h.served) checked;
          }))))

  remove_provider-after : (id : String) → AfterOk IsConsistent (remove_provider r id)
  unfolding remove_provider
  remove_provider-after id = ensure-AfterOk _ _ _ (λ _.
      bind-AfterOk (check_unreferenced id r.routes) _ (λ u checked. ok-AfterOk _ (record {
        provider_keys = Entries-delete _ id r.providers h.provider_keys;
        route_keys = h.route_keys;
        served = AfterOk-ok (check_unreferenced-IsServed r.providers id r.routes h.served) checked;
      })))

  register_route-after : (route : Value) → AfterOk IsConsistent (register_route r route)
  unfolding register_route
  register_route-after route = bind-AfterOk (validate_route_definition route) _ (λ v _.
      ensure-AfterOk _ _ _ (λ _. bind-AfterOk (check_route r v) _ (λ u checked.
        ok-AfterOk _ (store_route-IsConsistent v (AfterOk-ok (check_route-IsServed r v) checked)))))

  update_route-after : (route : Value) → AfterOk IsConsistent (update_route r route)
  unfolding update_route
  update_route-after route = bind-AfterOk (validate_route_definition route) _ (λ v _.
      ensure-AfterOk _ _ _ (λ _. bind-AfterOk (check_route r v) _ (λ u checked.
        ok-AfterOk _ (store_route-IsConsistent v (AfterOk-ok (check_route-IsServed r v) checked)))))

  remove_route-after : (id : String) → AfterOk IsConsistent (remove_route r id)
  unfolding remove_route
  remove_route-after id = ensure-AfterOk _ _ _ (λ _. ok-AfterOk _ (record {
    provider_keys = h.provider_keys;
    route_keys = Entries-delete _ id r.routes h.route_keys;
    served = Entries-delete _ id r.routes h.served;
  }))

-- A call of a method that changes the registry.
pub data Command : Type 0 where
  register_provider_with update_provider_with register_route_with update_route_with :
      Value → Command
  remove_provider_of remove_route_of : String → Command

-- A call that throws leaves the registry as it was.
abbrev after_call : Registry → Outcome RegistryError Registry → Registry
after_call r (ok r') = r'
after_call r (err e) = r

unfoldable pub execute : (String → Option ParsedUrl) → Registry → Command → Registry
execute parse_url r (register_provider_with v) = after_call r (register_provider parse_url r v)
execute parse_url r (update_provider_with v) = after_call r (update_provider parse_url r v)
execute parse_url r (register_route_with v) = after_call r (register_route r v)
execute parse_url r (update_route_with v) = after_call r (update_route r v)
execute parse_url r (remove_provider_of id) = after_call r (remove_provider r id)
execute parse_url r (remove_route_of id) = after_call r (remove_route r id)

unfoldable pub execute_all : (String → Option ParsedUrl) → Registry → List Command → Registry
execute_all parse_url r [] = r
execute_all parse_url r (c ∷ cs) = execute_all parse_url (execute parse_url r c) cs

after_call-IsConsistent :
    (r : Registry) (o : Outcome RegistryError Registry)
    → IsConsistent r
    → AfterOk IsConsistent o
    → IsConsistent (after_call r o)
after_call-IsConsistent r (ok r') h k = k.holds
after_call-IsConsistent r (err e) h k = h

pub execute-IsConsistent :
    (parse_url : String → Option ParsedUrl) (r : Registry) (c : Command)
    → IsConsistent r
    → IsConsistent (execute parse_url r c)
unfolding execute
execute-IsConsistent parse_url r (register_provider_with v) h =
    after_call-IsConsistent r _ h (register_provider-after r h parse_url v)
execute-IsConsistent parse_url r (update_provider_with v) h =
    after_call-IsConsistent r _ h (update_provider-after r h parse_url v)
execute-IsConsistent parse_url r (register_route_with v) h =
    after_call-IsConsistent r _ h (register_route-after r h v)
execute-IsConsistent parse_url r (update_route_with v) h =
    after_call-IsConsistent r _ h (update_route-after r h v)
execute-IsConsistent parse_url r (remove_provider_of id) h =
    after_call-IsConsistent r _ h (remove_provider-after r h id)
execute-IsConsistent parse_url r (remove_route_of id) h =
    after_call-IsConsistent r _ h (remove_route-after r h id)

execute_all-from :
    (parse_url : String → Option ParsedUrl) (r : Registry) (cs : List Command)
    → IsConsistent r
    → IsConsistent (execute_all parse_url r cs)
unfolding execute_all
execute_all-from parse_url r [] h = h
execute_all-from parse_url r (c ∷ cs) h =
    execute_all-from parse_url (execute parse_url r c) cs (execute-IsConsistent parse_url r c h)

-- After any calls on a new registry, whatever their arguments and whether they throw, the primary
-- provider and each fallback of every route are registered and offer the route's model, and every
-- key is the id of what it leads to.
pub execute_all-IsConsistent :
    (parse_url : String → Option ParsedUrl) (cs : List Command)
    → IsConsistent (execute_all parse_url empty cs)
execute_all-IsConsistent parse_url cs = execute_all-from parse_url empty cs empty-IsConsistent
