-- ===== src/Registry/Store/Fallbacks.antt =====
-- The provider ids of a route that packages/provider-registry/src/types.ts accepts.
use agent_routebench.Prelude.{
  ℕ, suc, ◌≤◌, ◌≡◌, refl, true, false, not, String, includes, IsDistinct, length, List, [], ◌∷◌,
  Option, none, some, eq_iff, eq_refl, ltb, arith, ok, AfterOk, AfterOk-ok, AfterOk-mono, ap,
  bind-AfterOk, chain-AfterOk, ensure-AfterOk, ok-AfterOk,
}
use agent_routebench.Contracts.Value.{Value, undefined, as_array, property, is_plain_object}
use agent_routebench.Contracts.Validation.{has_forbidden_key}
use agent_routebench.Registry.Names.{is_provider_id, is_secret_like}
use agent_routebench.Registry.Types.{
  RouteDefinition, invalid_route_id, invalid_route_name, invalid_route_model, invalid_route_enabled,
}
use agent_routebench.Registry.Validation.{
  non_empty_text, forbidden_route_fields, assert_id, assert_display_name, assert_model_name,
  assert_enabled, text_where, max_route_fallbacks, check_fallbacks, assert_fallback_provider_ids,
  read_fallbacks, validate_route_definition,
}
use agent_routebench.Registry.Store.{required-AfterOk, route_provider_ids}

-- Each id is none of those before it, nor of `seen`.
abbrev AreNew : List String → List String → Type 0
AreNew seen [] = Unit
AreNew seen (id ∷ ids) = (includes id seen ≡ false) × AreNew (id ∷ seen) ids

AreNew-excludes :
    (seen ids : List String) (id : String)
    → AreNew seen ids
    → includes id seen ≡ true
    → includes id ids ≡ false
AreNew-excludes seen [] id h k = refl
AreNew-excludes seen (x ∷ xs) id (new, h) k =
    ground (arith, eq_iff x id, AreNew-excludes (x ∷ seen) xs id h)

AreNew-IsDistinct : (seen ids : List String) → AreNew seen ids → IsDistinct ids
AreNew-IsDistinct seen [] h = tt
AreNew-IsDistinct seen (id ∷ ids) (new, h) = (
  AreNew-excludes (id ∷ seen) ids id h (rw (eq_refl id) refl),
  AreNew-IsDistinct (id ∷ seen) ids h,
)

abbrev AreNewOf : List String → ℕ → List String → Type 0
AreNewOf seen n ids = AreNew seen ids × (length ids ≡ n)

check_fallbacks-AreNewOf :
    (seen : List String) (entries : List Value)
    → AfterOk (AreNewOf seen (length entries)) (check_fallbacks seen entries)
unfolding check_fallbacks
check_fallbacks-AreNewOf seen [] = ok-AfterOk _ (tt, refl)
check_fallbacks-AreNewOf seen (entry ∷ entries) =
    required-AfterOk (text_where is_provider_id entry) _ _ (λ id _.
      ensure-AfterOk (not (is_secret_like id)) _ _ (λ _.
        ensure-AfterOk (not (includes id seen)) _ _ (λ new.
          let fresh : includes id seen ≡ false = ground arith in
          chain-AfterOk (check_fallbacks-AreNewOf (id ∷ seen) entries)
            (λ ids h. ok-AfterOk _ ((fresh, h.0), ap suc h.1)))))

-- Distinct from the primary provider and from each other, and at most four.
abbrev AreFallbacksOf : String → List String → Type 0
AreFallbacksOf primary ids = AreNew (primary ∷ []) ids × (length ids ≤ 4)

assert_fallback_provider_ids-AreFallbacksOf :
    (value : Value) (primary : String)
    → AfterOk (AreFallbacksOf primary) (assert_fallback_provider_ids value primary)
unfolding assert_fallback_provider_ids
assert_fallback_provider_ids-AreFallbacksOf value primary =
    required-AfterOk (as_array value) _ _ (λ list _.
      ensure-AfterOk (not (ltb max_route_fallbacks (length list))) _ _ (λ few.
        let short : length list ≤ 4 = ground arith in
        AfterOk-mono _ (check_fallbacks-AreNewOf (primary ∷ []) list)
          (λ ids h. (h.0, omega (arith, h.1)))))

OfFallbacks : String → Option (List String) → Type 0
OfFallbacks primary none = Unit
OfFallbacks primary (some ids) = AreFallbacksOf primary ids

read_fallbacks-OfFallbacks :
    (value : Value) (primary : String)
    → AfterOk (OfFallbacks primary) (read_fallbacks value primary)
unfolding read_fallbacks OfFallbacks
read_fallbacks-OfFallbacks undefined primary = ok-AfterOk _ tt
read_fallbacks-OfFallbacks value primary =
    chain-AfterOk (assert_fallback_provider_ids-AreFallbacksOf value primary)
      (λ ids h. ok-AfterOk (some ids) h)

abbrev pub HasCandidateIds : RouteDefinition → Type 0
HasCandidateIds route =
    IsDistinct (route_provider_ids route) × (length (route_provider_ids route) ≤ 5)

from_fallbacks :
    (primary : String) (o : Option (List String))
    → OfFallbacks primary o
    → IsDistinct (primary ∷ elim o [ none ↦ [] | some ids ↦ ids ])
      × (length (primary ∷ elim o [ none ↦ [] | some ids ↦ ids ]) ≤ 5)
unfolding OfFallbacks
from_fallbacks primary none h = ((refl, tt), omega arith)
from_fallbacks primary (some ids) h = (
  (
    AreNew-excludes (primary ∷ []) ids primary h.0 (rw (eq_refl primary) refl),
    AreNew-IsDistinct (primary ∷ []) ids h.0,
  ),
  omega (arith, h.1),
)

validate-HasCandidateIds :
    (input : Value) → AfterOk HasCandidateIds (validate_route_definition input)
unfolding validate_route_definition
validate-HasCandidateIds input = ensure-AfterOk (is_plain_object input) _ _ (λ _.
    ensure-AfterOk (not (has_forbidden_key forbidden_route_fields input)) _ _ (λ _.
      bind-AfterOk (assert_id (property "id" input) invalid_route_id) _ (λ id _.
        bind-AfterOk (assert_display_name (property "name" input) invalid_route_name) _ (λ name _.
          required-AfterOk (text_where non_empty_text (property "providerId" input)) _ _
            (λ primary _.
              bind-AfterOk (assert_model_name (property "model" input) invalid_route_model) _
                (λ model _.
                  bind-AfterOk (assert_enabled (property "enabled" input) invalid_route_enabled) _
                    (λ enabled _.
                      chain-AfterOk
                        (read_fallbacks-OfFallbacks (property "fallbackProviderIds" input) primary)
                        (λ o h. ok-AfterOk _ (from_fallbacks primary o h)))))))))

-- A route that is accepted, from any input, has at most five provider ids, the primary one and the
-- fallbacks, and no id twice, so that no provider is a candidate twice.
pub validate_route_definition-HasCandidateIds :
    (input : Value) (route : RouteDefinition)
    → validate_route_definition input ≡ ok route
    → HasCandidateIds route
validate_route_definition-HasCandidateIds input route h =
    AfterOk-ok (validate-HasCandidateIds input) h
