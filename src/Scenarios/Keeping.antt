-- ===== src/Scenarios/Keeping.antt =====
-- The credential store over a backend that keeps a map.
use agent_routebench.Prelude.{
  ◌≡◌, refl, arith, inl, true, String, List, [], ◌∷◌, Option, none, some, eq_refl, ok,
}
use agent_routebench.Prelude.Maps
use agent_routebench.Prelude.Maps.{Entries, Entries-insert, Entries-delete, lookup-insert, lookup}
use agent_routebench.Contracts.Value.{Value, undefined, boolean, string}
use agent_routebench.Registry.Names.{is_credential_ref, is_id, is_space}
use agent_routebench.Registry.Credentials.{Backend, Secrets, set, get, keep}
use agent_routebench.Registry.Credentials.Guard.{
  IsSecret, Preserves, Request, setting, getting, having, removing, after_all, after_all-Preserves,
}
use agent_routebench.Registry.Credentials.Reading.{Remembers, Gets, get-Gets, get-set}
use agent_routebench.Registry.Credentials.InMemory.{IsAcceptable, IsKept, keep-IsKept}

abbrev value_of : Option String → Value
value_of none = undefined
value_of (some secret) = string secret

abbrev map_backend : Backend Secrets
map_backend = record {
  get = λ ref s. (ok (value_of (lookup ref s)), s);
  set = λ ref secret s. (ok tt, Maps.insert ref secret s);
  has = λ ref s. (ok (boolean true), s);
  delete = λ ref s. (ok tt, Maps.delete ref s);
}

abbrev IsStored : Secrets → Type 0
IsStored = Entries (λ ref secret. (is_credential_ref ref ≡ true) × IsSecret secret)

map-Preserves : Preserves map_backend IsStored
map-Preserves = record {
  get_keeps = λ ref s h p. p;
  has_keeps = λ ref s h p. p;
  delete_keeps = λ ref s h p. Entries-delete _ ref s p;
  set_keeps = λ ref secret s h k p. Entries-insert _ ref secret s (h, k) p;
}

map-Remembers : Remembers map_backend
map-Remembers ref secret s = (refl, rw (lookup-insert ref ref secret s, eq_refl ref) refl)

abbrev main_ref : Value
main_ref = string "credential:main"

abbrev requests : List Request
requests =
    setting main_ref (string "key")
    ∷ setting (string "main") (string "key")
    ∷ setting main_ref (string " ")
    ∷ getting main_ref
    ∷ having main_ref
    ∷ removing main_ref
    ∷ []

requests_example : IsStored (after_all map_backend requests [])
requests_example = after_all-Preserves map_backend IsStored map-Preserves requests [] tt

reading_key_example : Gets map_backend main_ref [] (get map_backend main_ref [])
reading_key_example = get-Gets map_backend main_ref []

main-valid : is_credential_ref "credential:main" ≡ true
unfolding is_id
main-valid = refl

key-IsSecret : IsSecret "key"
unfolding is_space
key-IsSecret = record {
  small = omega arith;
  visible = refl;
  printable = (inl (omega arith), (inl (omega arith), (inl (omega arith), tt)));
}

key_example :
    ((set map_backend main_ref (string "key") []).0 ≡ ok tt)
    × ((get map_backend main_ref (set map_backend main_ref (string "key") []).1).0
        ≡ ok (some "key"))
key_example = get-set map_backend "credential:main" "key" [] map-Remembers main-valid key-IsSecret

stored_key_example :
    (IsAcceptable main_ref (string "key") → (keep main_ref (string "key") []).0 ≡ ok tt)
    × ((keep main_ref (string "key") []).0 ≡ ok tt
        → IsKept main_ref (string "key") [] (keep main_ref (string "key") []).1)
stored_key_example = keep-IsKept main_ref (string "key") []
