-- ===== src/Adapters/Requests/Tally.antt =====
-- How often an id stands in the sets that `assertToolCorrelation` of
-- packages/model-gateway/src/adapters/request-validation.ts keeps.
use agent_routebench.Prelude.{
  ℕ, suc, ◌+◌, ◌≤◌, ◌≡◌, refl, sym, subst, true, false, ◌||◌, String, List, [], ◌∷◌, ◌++◌, ◌==◌,
  eq_iff, if◌then◌else◌, includes, Bool-cases, inl, inr, arith,
}
use agent_routebench.Adapters.Requests.{Calls, without}

-- How often an id stands in a list.
abbrev pub tally : String → List String → ℕ
tally id [] = 0
tally id (x ∷ xs) = let rest = tally id xs in if x == id then suc rest else rest

tally-append : (id : String) (xs ys : List String) → tally id (xs ++ ys) ≡ tally id xs + tally id ys
tally-append id [] ys = ground arith
tally-append id (x ∷ xs) ys = ground (arith, tally-append id xs ys)

tally-absent : (id : String) (xs : List String) → includes id xs ≡ false → tally id xs ≡ 0
tally-absent id [] h = refl
tally-absent id (x ∷ xs) h = ground (arith, tally-absent id xs)

tally-present : (id : String) (xs : List String) → includes id xs ≡ true → 1 ≤ tally id xs
tally-present id [] h = ground arith
tally-present id (x ∷ xs) h = ground (arith, tally-present id xs)

tally-without : (id : String) (xs : List String) → tally id (without id xs) ≡ 0
tally-without id [] = refl
tally-without id (x ∷ xs) = ground (arith, tally-without id xs)

tally-without_other :
    (id other : String) (xs : List String)
    → (other == id) ≡ false
    → tally id (without other xs) ≡ tally id xs
tally-without_other id other [] h = refl
tally-without_other id other (x ∷ xs) h = elim (Bool-cases (x == other)) [
  | inl same ↦
      let apart : (x == id) ≡ false =
        subst (λ y. (y == id) ≡ false) (sym ((eq_iff x other).0 same)) h in
      rw (same, apart) (tally-without_other id other xs h)
  | inr differs ↦ ground (arith, tally-without_other id other xs h)
]

module _ (id : String) where
  -- What a step does to an id that stands in one of the two sets at most.
  pub record IsStep (calls : Calls) (opened closed : ℕ) (later : Calls) : Type 0 where
    pub kept :
        tally id later.pending + tally id later.settled
        ≡ tally id calls.pending + tally id calls.settled + opened
    pub closing : tally id later.settled ≡ tally id calls.settled + closed
    pub single : tally id later.pending + tally id later.settled ≤ 1

  abbrev pub IsSingle : Calls → Type 0
  IsSingle calls = tally id calls.pending + tally id calls.settled ≤ 1

  abbrev once : String → ℕ
  once new = if new == id then 1 else 0

  tally-once :
      (xs : List String) (new : String) → tally id (xs ++ (new ∷ [])) ≡ tally id xs + once new
  tally-once xs new = ground (arith, tally-append id xs (new ∷ []))

  pub idle-IsStep : (calls : Calls) → IsSingle calls → IsStep calls 0 0 calls
  idle-IsStep calls h = record { kept = omega arith; closing = omega arith; single = h }

  pub join-IsStep :
      {a b c : Calls} {o o' p p' : ℕ}
      → IsStep a o p b
      → IsStep b o' p' c
      → IsStep a (o + o') (p + p') c
  join-IsStep s t = record {
    kept = omega (arith, s.kept, t.kept, s.closing, t.closing);
    closing = omega (arith, s.closing, t.closing);
    single = t.single;
  }

  pub open-IsStep :
      (pending settled : List String) (new : String)
      → tally id pending + tally id settled ≤ 1
      → (includes new pending || includes new settled) ≡ false
      → IsStep
          (record { pending = pending; settled = settled })
          (once new)
          0
          (record { pending = pending ++ (new ∷ []); settled = settled })
  open-IsStep pending settled new h fresh = record {
    kept = omega (arith, tally-once pending new);
    closing = omega arith;
    single = elim (Bool-cases (new == id)) [
      | inl same ↦
          let at_id : (includes id pending || includes id settled) ≡ false =
            subst (λ i. (includes i pending || includes i settled) ≡ false) ((eq_iff new id).0 same)
              fresh in
          ground (arith, tally-once pending new, tally-absent id pending, tally-absent id settled)
      | inr differs ↦ ground (arith, tally-once pending new)
    ];
  }

  pub settle-IsStep :
      (pending settled : List String) (old : String)
      → tally id pending + tally id settled ≤ 1
      → includes old pending ≡ true
      → IsStep
          (record { pending = pending; settled = settled })
          0
          (once old)
          (record { pending = without old pending; settled = settled ++ (old ∷ []) })
  settle-IsStep pending settled old h known = elim (Bool-cases (old == id)) [
    | inl same ↦
        let one : once old ≡ 1 = ground arith in
        let same_id : old ≡ id = (eq_iff old id).0 same in
        let gone : tally id (without old pending) ≡ 0 =
          subst (λ i. tally id (without i pending) ≡ 0) (sym same_id) (tally-without id pending) in
        let had : 1 ≤ tally id pending =
          tally-present id pending (subst (λ i. includes i pending ≡ true) same_id known) in
        record {
          kept = omega (arith, tally-once settled old, gone, had, h, one);
          closing = tally-once settled old;
          single = omega (arith, tally-once settled old, gone, had, h, one);
        }
    | inr differs ↦
        let none : once old ≡ 0 = ground arith in
        let same : tally id (without old pending) ≡ tally id pending =
          tally-without_other id old pending differs in
        record {
          kept = omega (arith, tally-once settled old, same, none);
          closing = tally-once settled old;
          single = omega (arith, tally-once settled old, same, none, h);
        }
  ]

  pub recount :
      {calls later : Calls} {o o' p p' : ℕ}
      → o ≡ o'
      → p ≡ p'
      → IsStep calls o p later
      → IsStep calls o' p' later
  recount e f s = record {
    kept = omega (arith, s.kept, e);
    closing = omega (arith, s.closing, f);
    single = s.single;
  }
