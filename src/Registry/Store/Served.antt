-- ===== src/Registry/Store/Served.antt =====
-- A route whose provider ids all lead to providers that offer its model, as the checks of
-- packages/provider-registry/src/registry.ts establish it and changes of the providers keep it.
use agent_routebench.Prelude.{
  ◌≡◌, refl, sym, subst, inl, inr, true, false, not, ◌||◌, String, includes, List, [], ◌∷◌, All,
  none, some, ◌==◌, eq_iff, arith, Bool-cases, AfterOk, AfterOk-mono, ensure-AfterOk, All-map,
}
use agent_routebench.Prelude.Maps.{lookup, insert, delete, lookup-insert, lookup-delete, Entries}
use agent_routebench.Registry.Types.{ProviderDefinition, RouteDefinition}
use agent_routebench.Registry.Store.{
  Registry, fallbacks, route_references_provider, check_routes_of, check_unreferenced,
  assert_fallback_providers, required-AfterOk, check_route,
}

abbrev pub Providers : Type 0
Providers = List (String × ProviderDefinition)

-- The provider is registered, and offers the model.
abbrev pub Serves : Providers → String → String → Type 0
Serves providers model id =
    (p : ProviderDefinition) × (lookup id providers ≡ some p) × (includes model p.models ≡ true)

-- The primary provider of the route and each of its fallbacks serve the route's model.
pub record IsServed (providers : Providers) (route : RouteDefinition) : Type 0 where
  pub primary : Serves providers route.model route.provider_id
  pub others : All (Serves providers route.model) (fallbacks route)

module _ (providers : Providers) (p : ProviderDefinition) (model id : String) where
  -- A new provider takes nothing away.
  Serves-insert_new :
      lookup p.id providers ≡ none
      → Serves providers model id
      → Serves (insert p.id p providers) model id
  Serves-insert_new fresh (q, found, offers) =
      (q, ground (arith, lookup-insert p.id id p providers, eq_iff p.id id), offers)

  -- A changed provider serves what it is asked for; the others serve as before.
  Serves-insert_same :
      ((p.id == id) ≡ true → includes model p.models ≡ true)
      → Serves providers model id
      → Serves (insert p.id p providers) model id
  Serves-insert_same still (q, found, offers) = elim (Bool-cases (p.id == id)) [
    | inl same ↦ (p, ground (arith, lookup-insert p.id id p providers), still same)
    | inr other ↦ (q, ground (arith, lookup-insert p.id id p providers), offers)
  ]

Serves-delete :
    (providers : Providers) (gone model id : String)
    → (gone == id) ≡ false
    → Serves providers model id
    → Serves (delete gone providers) model id
Serves-delete providers gone model id h (q, found, offers) =
    (q, ground (arith, lookup-delete gone id providers), offers)

pub IsServed-insert_new :
    (providers : Providers) (p : ProviderDefinition) (route : RouteDefinition)
    → lookup p.id providers ≡ none
    → IsServed providers route
    → IsServed (insert p.id p providers) route
IsServed-insert_new providers p route fresh h = record {
  primary = Serves-insert_new providers p _ _ fresh h.primary;
  others = All-map _ _ (fallbacks route) (λ id. Serves-insert_new providers p _ id fresh) h.others;
}

-- A member of the list, told by `includes`, may use that it is one.
All-map_included {κ κ'} :
    (P : String → Type κ) (Q : String → Type κ') (xs : List String)
    → ((x : String) → includes x xs ≡ true → P x → Q x)
    → All P xs
    → All Q xs
All-map_included P Q [] f h = tt
All-map_included P Q (x ∷ xs) f (p, h) =
    (f x (ground (arith, eq_iff x x)) p, All-map_included P Q xs (λ y m q. f y (ground arith) q) h)

references_primary :
    (route : RouteDefinition) (id : String)
    → (id == route.provider_id) ≡ true
    → route_references_provider route id ≡ true
references_primary route id h =
    ground (arith, eq_iff id route.provider_id, eq_iff route.provider_id id)

references_fallback :
    (route : RouteDefinition) (id j : String)
    → (id == j) ≡ true
    → includes j (fallbacks route) ≡ true
    → route_references_provider route id ≡ true
references_fallback route id j h m =
    let same : j ≡ id = sym ((eq_iff id j).0 h) in
    let held : includes id (fallbacks route) ≡ true =
      subst (λ i. includes i (fallbacks route) ≡ true) same m in
    elim (Bool-cases (route.provider_id == id)) [ inl e ↦ rw e refl | inr e ↦ rw e held ]

pub IsServed-insert_same :
    (providers : Providers) (p : ProviderDefinition) (route : RouteDefinition)
    → (not (route_references_provider route p.id) || includes route.model p.models) ≡ true
    → IsServed providers route
    → IsServed (insert p.id p providers) route
IsServed-insert_same providers p route checked h = record {
  primary =
      Serves-insert_same providers p _ _
        (λ same. ground (arith, references_primary route p.id same)) h.primary;
  others =
      All-map_included _ _ (fallbacks route)
        (λ id m.
          Serves-insert_same providers p _ id
            (λ same. ground (arith, references_fallback route p.id id same m)))
        h.others;
}

pub IsServed-delete :
    (providers : Providers) (gone : String) (route : RouteDefinition)
    → not (route_references_provider route gone) ≡ true
    → IsServed providers route
    → IsServed (delete gone providers) route
IsServed-delete providers gone route checked h = record {
  primary =
      Serves-delete providers gone _ _
        (elim (Bool-cases (gone == route.provider_id)) [
          | inl e ↦ ground (arith, references_primary route gone e)
          | inr e ↦ e
        ])
        h.primary;
  others =
      All-map_included _ _ (fallbacks route)
        (λ id m. Serves-delete providers gone _ id (elim (Bool-cases (gone == id)) [
          | inl e ↦ ground (arith, references_fallback route gone id e m)
          | inr e ↦ e
        ]))
        h.others;
}

-- What the loops over the routes have checked.
module _ (providers : Providers) (p : ProviderDefinition) where
  pub check_routes_of-IsServed :
      (routes : List (String × RouteDefinition))
      → Entries (λ _ route. IsServed providers route) routes
      → AfterOk
          (λ _. Entries (λ _ route. IsServed (insert p.id p providers) route) routes)
          (check_routes_of p routes)
  unfolding check_routes_of
  check_routes_of-IsServed [] h = record { holds = tt }
  check_routes_of-IsServed ((k, route) ∷ routes) h = ensure-AfterOk _ _ _ (λ checked.
      AfterOk-mono (check_routes_of p routes) (check_routes_of-IsServed routes h.1)
        (λ _ rest. (IsServed-insert_same providers p route checked h.0, rest)))

pub check_unreferenced-IsServed :
    (providers : Providers) (gone : String) (routes : List (String × RouteDefinition))
    → Entries (λ _ route. IsServed providers route) routes
    → AfterOk
        (λ _. Entries (λ _ route. IsServed (delete gone providers) route) routes)
        (check_unreferenced gone routes)
unfolding check_unreferenced
check_unreferenced-IsServed providers gone [] h = record { holds = tt }
check_unreferenced-IsServed providers gone ((k, route) ∷ routes) h =
    ensure-AfterOk _ _ _ (λ checked.
      AfterOk-mono (check_unreferenced gone routes)
        (check_unreferenced-IsServed providers gone routes h.1)
        (λ _ rest. (IsServed-delete providers gone route checked h.0, rest)))

assert_fallback_providers-Serves :
    (providers : Providers) (model : String) (ids : List String)
    → AfterOk
        (λ _. All (Serves providers model) ids)
        (assert_fallback_providers providers model ids)
unfolding assert_fallback_providers
assert_fallback_providers-Serves providers model [] = record { holds = tt }
assert_fallback_providers-Serves providers model (id ∷ ids) =
    required-AfterOk (lookup id providers) _ _ (λ p found. ensure-AfterOk _ _ _ (λ offers.
      AfterOk-mono (assert_fallback_providers providers model ids)
        (assert_fallback_providers-Serves providers model ids)
        (λ _ rest. ((p, found, offers), rest))))

pub check_route-IsServed :
    (r : Registry) (route : RouteDefinition)
    → AfterOk (λ _. IsServed r.providers route) (check_route r route)
unfolding check_route
check_route-IsServed r route =
    required-AfterOk (lookup route.provider_id r.providers) _ _ (λ p found.
      ensure-AfterOk _ _ _ (λ offers. ensure-AfterOk _ _ _ (λ _.
        AfterOk-mono (assert_fallback_providers r.providers route.model (fallbacks route))
          (assert_fallback_providers-Serves r.providers route.model (fallbacks route))
          (λ _ others. record { primary = (p, found, offers); others = others }))))
