-- ===== src/Adapters/Indexed.antt =====
-- A `Map` with numbers as keys, in insertion order, and the sort by those numbers.
use agent_routebench.Prelude.{ℕ, List, [], ◌∷◌, Option, none, some, leb, nat_eq, if◌then◌else◌}

module _ {ℓ} {V : Type ℓ} where
  -- `get`
  abbrev pub get : ℕ → List (ℕ × V) → Option V
  get wanted [] = none
  get wanted ((key, value) ∷ rest) =
      let later = get wanted rest in if nat_eq key wanted then some value else later

  -- `set`
  abbrev pub set : ℕ → V → List (ℕ × V) → List (ℕ × V)
  set new value [] = (new, value) ∷ []
  set new value ((key, old) ∷ rest) =
      let later = set new value rest in
      if nat_eq key new then (new, value) ∷ rest else (key, old) ∷ later

  -- `delete`
  abbrev pub remove : ℕ → List (ℕ × V) → List (ℕ × V)
  remove gone [] = []
  remove gone ((key, value) ∷ rest) =
      let later = remove gone rest in if nat_eq key gone then rest else (key, value) ∷ later

  abbrev pub place : ℕ × V → List (ℕ × V) → List (ℕ × V)
  place entry [] = entry ∷ []
  place entry (next ∷ rest) =
      let later = place entry rest in
      if leb entry.0 next.0 then entry ∷ next ∷ rest else next ∷ later

  -- `[...entries].sort((a, b) => a.index - b.index)`, which is stable.
  abbrev pub sort_by_index : List (ℕ × V) → List (ℕ × V)
  sort_by_index [] = []
  sort_by_index (entry ∷ rest) = place entry (sort_by_index rest)
