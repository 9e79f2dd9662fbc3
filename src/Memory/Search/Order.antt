-- ===== src/Memory/Search/Order.antt =====
-- The order of the answers of search and list: packages/agent-memory/src/memory-store.ts.
use mathlib.Core.List.{Perm}
use mathlib.Core.List.Perm
use agent_routebench.Prelude.{
  ℕ, ◌<◌, ◌≡◌, ◌⊎◌, refl, true, false, List, [], ◌∷◌, ltb, codes, arith, Bool-cases, inl, inr,
}
use agent_routebench.Memory.Search.{is_before, Scored, precedes, place, sort}

-- The first text ends where the second goes on, or has the smaller letter where they first differ.
abbrev pub IsBelow : List ℕ → List ℕ → Type 0
IsBelow [] [] = ⊥
IsBelow [] (d ∷ ds) = Unit
IsBelow (c ∷ cs) [] = ⊥
IsBelow (c ∷ cs) (d ∷ ds) = (c < d) ⊎ ((c ≡ d) × IsBelow cs ds)

-- More matches first, then the later update, then the smaller id.
abbrev pub NotAfter : Scored → Scored → Type 0
NotAfter a b =
    (b.0 < a.0)
    ⊎ ((a.0 ≡ b.0)
        × ((b.1.updated_at < a.1.updated_at)
            ⊎ ((a.1.updated_at ≡ b.1.updated_at)
                × ((codes a.1.id ≡ codes b.1.id) ⊎ IsBelow (codes a.1.id) (codes b.1.id)))))

is_before-IsBelow : (xs ys : List ℕ) → is_before xs ys ≡ true → IsBelow xs ys
is_before-IsBelow [] [] h = absurd (ground arith)
is_before-IsBelow [] (y ∷ ys) h = tt
is_before-IsBelow (x ∷ xs) [] h = absurd (ground arith)
is_before-IsBelow (x ∷ xs) (y ∷ ys) h = elim (Bool-cases (ltb x y)) [
  | inl less ↦ inl (ground arith)
  | inr other ↦ inr (ground arith, is_before-IsBelow xs ys (ground arith))
]

not_before-IsBelow : (xs ys : List ℕ) → is_before ys xs ≡ false → (xs ≡ ys) ⊎ IsBelow xs ys
not_before-IsBelow [] [] h = inl refl
not_before-IsBelow [] (y ∷ ys) h = inr tt
not_before-IsBelow (x ∷ xs) [] h = absurd (ground arith)
not_before-IsBelow (x ∷ xs) (y ∷ ys) h = elim (Bool-cases (ltb x y)) [
  | inl less ↦ inr (inl (ground arith))
  | inr other ↦
      let same : x ≡ y = ground arith in
      elim (not_before-IsBelow xs ys (ground arith)) [
        | inl rest ↦ inl (cc)
        | inr below ↦ inr (inr (same, below))
      ]
]

precedes-NotAfter : (a b : Scored) → precedes a b ≡ true → NotAfter a b
unfolding precedes
precedes-NotAfter a b h = elim (Bool-cases (ltb b.0 a.0)) [
  | inl more ↦ inl (ground arith)
  | inr as_many ↦ elim (Bool-cases (ltb b.1.updated_at a.1.updated_at)) [
    | inl later ↦ inr (ground arith, inl (ground arith))
    | inr same ↦ inr (
      ground arith,
      inr (ground arith, inr (is_before-IsBelow (codes a.1.id) (codes b.1.id) (ground arith))),
    )
  ]
]

not_preceded-NotAfter : (a b : Scored) → precedes b a ≡ false → NotAfter a b
unfolding precedes
not_preceded-NotAfter a b h = elim (Bool-cases (ltb b.0 a.0)) [
  | inl more ↦ inl (ground arith)
  | inr as_many ↦ elim (Bool-cases (ltb b.1.updated_at a.1.updated_at)) [
    | inl later ↦ inr (ground arith, inl (ground arith))
    | inr same ↦ inr (
      ground arith,
      inr (ground arith, not_before-IsBelow (codes a.1.id) (codes b.1.id) (ground arith)),
    )
  ]
]

abbrev pub Heads : Scored → List Scored → Type 0
Heads entry [] = Unit
Heads entry (next ∷ rest) = NotAfter entry next

-- No entry comes after its successor.
abbrev pub IsOrdered : List Scored → Type 0
IsOrdered [] = Unit
IsOrdered (entry ∷ rest) = Heads entry rest × IsOrdered rest

place-Heads :
    (first entry : Scored) (rest : List Scored)
    → NotAfter first entry
    → Heads first rest
    → Heads first (place entry rest)
unfolding place
place-Heads first entry [] h k = h
place-Heads first entry (next ∷ rest) h k = elim (Bool-cases (precedes next entry)) [
  | inl earlier ↦ rw earlier k
  | inr later ↦ rw later h
]

place-IsOrdered :
    (entry : Scored) (entries : List Scored) → IsOrdered entries → IsOrdered (place entry entries)
unfolding place
place-IsOrdered entry [] h = (tt, tt)
place-IsOrdered entry (next ∷ rest) h = elim (Bool-cases (precedes next entry)) [
  | inl earlier ↦ rw earlier (
    place-Heads next entry rest (precedes-NotAfter next entry earlier) h.0,
    place-IsOrdered entry rest h.1,
  )
  | inr later ↦ rw later (not_preceded-NotAfter entry next later, h)
]

pub sort-IsOrdered : (entries : List Scored) → IsOrdered (sort entries)
unfolding sort
sort-IsOrdered [] = tt
sort-IsOrdered (entry ∷ entries) = place-IsOrdered entry (sort entries) (sort-IsOrdered entries)

place-perm : (entry : Scored) (rest : List Scored) → Perm (place entry rest) (entry ∷ rest)
unfolding place
place-perm entry [] = Perm.rfl
place-perm entry (next ∷ rest) = elim (Bool-cases (precedes next entry)) [
  | inl earlier ↦
      rw earlier (Perm.trans (Perm.cons next (place-perm entry rest)) (Perm.swap entry next rest))
  | inr later ↦ rw later Perm.rfl
]

pub sort-perm : (entries : List Scored) → Perm (sort entries) entries
unfolding sort
sort-perm [] = Perm.rfl
sort-perm (entry ∷ entries) =
    Perm.trans (place-perm entry (sort entries)) (Perm.cons entry (sort-perm entries))
