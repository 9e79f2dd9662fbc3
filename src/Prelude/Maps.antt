-- ===== src/Prelude/Maps.antt =====
-- A `Map` with text keys, as the list of its entries in insertion order.
use mathlib.Core.Path.{◌≡◌, refl, subst}
use mathlib.Core.Logic.{inl, inr}
use mathlib.Core.Option.{Option, none, some}
use mathlib.Core.List.{List, [], ◌∷◌}
use Prim.Native.String.{String}
use native.Mathlib.Omega.{arith}
use text.Mathlib.Text.{◌==◌}
use text.Mathlib.TextEquality.{eq_iff}
use agent_routebench.Prelude.Tests.{Bool-cases, if◌then◌else◌}

module _ {ℓ} {V : Type ℓ} where
  unfoldable pub lookup : String → List (String × V) → Option V
  lookup wanted [] = none
  lookup wanted ((key, value) ∷ rest) = if key == wanted then some value else lookup wanted rest

  unfoldable pub delete : String → List (String × V) → List (String × V)
  delete gone [] = []
  delete gone ((key, value) ∷ rest) =
      if key == gone then delete gone rest else (key, value) ∷ delete gone rest

  pub lookup-delete :
      (gone wanted : String) (entries : List (String × V))
      → lookup wanted (delete gone entries)
        ≡ (if gone == wanted then none else lookup wanted entries)
  unfolding lookup delete
  lookup-delete gone wanted [] = ground arith
  lookup-delete gone wanted ((key, value) ∷ rest) = ground (
    arith,
    eq_iff gone wanted,
    eq_iff key gone,
    eq_iff key wanted,
    lookup-delete gone wanted rest,
  )

  -- `Map.prototype.set` keeps the place of a key that is there.
  unfoldable pub insert : String → V → List (String × V) → List (String × V)
  insert new x [] = (new, x) ∷ []
  insert new x ((key, value) ∷ rest) =
      if key == new then (new, x) ∷ rest else (key, value) ∷ insert new x rest

  pub lookup-insert :
      (new wanted : String) (x : V) (entries : List (String × V))
      → lookup wanted (insert new x entries)
        ≡ (if new == wanted then some x else lookup wanted entries)
  unfolding lookup insert
  lookup-insert new wanted x [] = refl
  lookup-insert new wanted x ((key, value) ∷ rest) =
      ground (
        lookup-insert new wanted x rest,
        eq_iff key new,
        eq_iff key wanted,
        eq_iff new wanted,
        arith,
      )

-- What holds of every entry.
module _ {ℓ κ} {V : Type ℓ} (P : String → V → Type κ) where
  abbrev pub Entries : List (String × V) → Type κ
  Entries [] = Unit
  Entries ((k, v) ∷ m) = P k v × Entries m

  pub Entries-insert :
      (k : String) (v : V) (m : List (String × V)) → P k v → Entries m → Entries (insert k v m)
  unfolding insert
  Entries-insert k v [] p h = (p, tt)
  Entries-insert k v ((j, w) ∷ m) p h = ground (arith, Entries-insert k v m p h.1)

  pub Entries-delete : (k : String) (m : List (String × V)) → Entries m → Entries (delete k m)
  unfolding delete
  Entries-delete k [] h = tt
  Entries-delete k ((j, w) ∷ m) h = ground (arith, Entries-delete k m h.1)

  pub Entries-lookup :
      (k : String) {v : V} (m : List (String × V)) → Entries m → lookup k m ≡ some v → P k v
  unfolding lookup
  Entries-lookup k [] h e = absurd (cc)
  Entries-lookup k {v} ((j, w) ∷ m) h e = elim (Bool-cases (j == k)) [
    | inl same ↦
        let found : w ≡ v = ground arith in
        subst (P k) found (subst (λ i. P i w) ((eq_iff j k).0 same) h.0)
    | inr other ↦ Entries-lookup k m h.1 (ground arith)
  ]

pub Entries-map {ℓ κ κ'} :
    {V : Type ℓ} (P : String → V → Type κ) (Q : String → V → Type κ') (m : List (String × V))
    → ((k : String) (v : V) → P k v → Q k v)
    → Entries P m
    → Entries Q m
Entries-map P Q [] f h = tt
Entries-map P Q ((k, v) ∷ m) f h = (f k v h.0, Entries-map P Q m f h.1)
