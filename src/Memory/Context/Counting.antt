-- ===== src/Memory/Context/Counting.antt =====
-- How many messages a shortened context leaves out.
use agent_routebench.Prelude.{
  ℕ, zero, suc, ◌+◌, ◌≤◌, ◌<◌, ◌≡◌, refl, subst, ap, ◌⊎◌, Bool, true, false, ◌&&◌, List, [], ◌∷◌,
  ◌++◌, Option, length, length-append, All, leb, nat_eq, arith, Bool-cases, inl, inr,
}
use agent_routebench.Contracts.Value.{Value}
use agent_routebench.Memory.Context.Options.{Clone}
use agent_routebench.Memory.Context.Units.{flatten-build_units}
use agent_routebench.Memory.Context.{
  build_units, last_user_index, HistoryUnit, has_block, is_role, tools_of, after_tools, units_from,
  flatten, filter, is_kept, is_compressible, backwards, select_units, Reply,
}

-- The indices grow along the units.
abbrev pub Above : ℕ → List HistoryUnit → Type 0
Above i [] = Unit
Above i (unit ∷ units) = (i ≤ unit.index) × Above (suc unit.index) units

Above-mono : (i j : ℕ) (units : List HistoryUnit) → i ≤ j → Above j units → Above i units
Above-mono i j [] h a = tt
Above-mono i j (unit ∷ units) h a = (omega (arith, h, a.0), a.1)

-- The messages of a list of units.
abbrev pub size : List HistoryUnit → ℕ
size units = length (flatten units)

abbrev pub Among : HistoryUnit → List HistoryUnit → Type 0
Among unit [] = ⊥
Among unit (next ∷ units) = (next ≡ unit) ⊎ Among unit units

index_bound :
    (i : ℕ) (unit : HistoryUnit) (units : List HistoryUnit)
    → Above i units
    → Among unit units
    → i ≤ unit.index
index_bound i unit [] a m = absurd m
index_bound i unit (next ∷ units) a (inl e) = subst (λ u. i ≤ u.index) e a.0
index_bound i unit (next ∷ units) a (inr m) =
    omega (arith, a.0, index_bound (suc next.index) unit units a.1 m)

-- Where an index stands that no unit has, keeping it changes nothing.
filter-foreign :
    (i j : ℕ) (kept : List ℕ) (units : List HistoryUnit)
    → i < j
    → Above j units
    → filter (is_kept (i ∷ kept)) units ≡ filter (is_kept kept) units
filter-foreign i j kept [] h a = refl
filter-foreign i j kept (unit ∷ units) h a =
    let other : nat_eq unit.index i ≡ false = ground (arith, a.0, h) in
    let later : i < suc unit.index = omega (arith, a.0, h) in
    rw (other, filter-foreign i (suc unit.index) kept units later a.1)

is_kept_self : (kept : List ℕ) (unit : HistoryUnit) → is_kept (unit.index ∷ kept) unit ≡ true
is_kept_self kept unit = ground arith

size-keep_first :
    (unit : HistoryUnit) (kept : List ℕ) (units : List HistoryUnit)
    → Above (suc unit.index) units
    → is_kept kept unit ≡ false
    → size (filter (is_kept (unit.index ∷ kept)) (unit ∷ units))
      ≡ size (filter (is_kept kept) (unit ∷ units)) + length unit.messages
size-keep_first unit kept units a new =
    rw
      (
        is_kept_self kept unit,
        new,
        filter-foreign unit.index (suc unit.index) kept units (omega arith) a,
      )
      (omega (arith, length-append unit.messages (flatten (filter (is_kept kept) units))))

-- Keeping one more unit adds its messages.
size-keep :
    (i : ℕ) (unit : HistoryUnit) (kept : List ℕ) (units : List HistoryUnit)
    → Above i units
    → Among unit units
    → is_kept kept unit ≡ false
    → size (filter (is_kept (unit.index ∷ kept)) units)
      ≡ size (filter (is_kept kept) units) + length unit.messages
size-keep i unit kept [] a m new = absurd m
size-keep i unit kept (next ∷ units) a (inl e) new =
    subst
      (λ u.
        is_kept kept u ≡ false
        → size (filter (is_kept (u.index ∷ kept)) (next ∷ units))
          ≡ size (filter (is_kept kept) (next ∷ units)) + length u.messages)
      e (λ k. size-keep_first next kept units a.1 k) new
size-keep i unit kept (next ∷ units) a (inr m) new =
    let apart : nat_eq next.index unit.index ≡ false =
      ground (arith, index_bound (suc next.index) unit units a.1 m) in
    let later = size-keep (suc next.index) unit kept units a.1 m new in
    let same : is_kept (unit.index ∷ kept) next ≡ is_kept kept next = rw apart in
    elim (Bool-cases (is_kept kept next)) [
      | inl held ↦
          rw (same, held)
            (omega (
              arith,
              length-append next.messages (flatten (filter (is_kept (unit.index ∷ kept)) units)),
              length-append next.messages (flatten (filter (is_kept kept) units)),
              later,
            ))
      | inr free ↦ rw (same, free) later
    ]

-- What the loop has before it: compressible units, none kept yet, from the last to the first.
abbrev Ready : List HistoryUnit → List ℕ → List HistoryUnit → Type 0
Ready units kept [] = Unit
Ready units kept (unit ∷ rest) =
    Among unit units
    × (is_kept kept unit ≡ false)
    × All (λ next. next.index < unit.index) rest
    × Ready units kept rest

one_kept :
    (i : ℕ) (units : List HistoryUnit) (kept : List ℕ) (rest : List HistoryUnit)
    → All (λ next. next.index < i) rest
    → Ready units kept rest
    → Ready units (i ∷ kept) rest
one_kept i units kept [] b r = tt
one_kept i units kept (unit ∷ rest) b r =
    let apart : nat_eq unit.index i ≡ false = ground (arith, b.0) in
    (r.0, rw apart r.1, r.2, one_kept i units kept rest b.1 r.3)

size-cons :
    (unit : HistoryUnit) (units : List HistoryUnit)
    → size (unit ∷ units) ≡ length unit.messages + size units
size-cons unit units = length-append unit.messages (flatten units)

units_from-Above :
    (fuel : ℕ) (last : Option ℕ) (i : ℕ) (messages : List Value)
    → Above i (units_from fuel last i messages)
unfolding units_from
units_from-Above zero last i messages = tt
units_from-Above (suc fuel) last i [] = tt
units_from-Above (suc fuel) last i (message ∷ messages) =
    elim (Bool-cases (has_block "tool_call" message && is_role "assistant" message)) [
      | inl grouped ↦ rw grouped (
        omega arith,
        Above-mono (suc i) (suc i + length (tools_of messages))
            (units_from fuel last (suc i + length (tools_of messages)) (after_tools messages))
            (omega arith)
            (units_from-Above fuel last (suc i + length (tools_of messages))
              (after_tools messages)),
      )
      | inr alone ↦ rw alone (omega arith, units_from-Above fuel last (suc i) messages)
    ]

filter-Above :
    (i : ℕ) (test : HistoryUnit → Bool) (units : List HistoryUnit)
    → Above i units
    → Above i (filter test units)
filter-Above i test [] a = tt
filter-Above i test (unit ∷ units) a =
    let later = filter-Above (suc unit.index) test units a.1 in
    elim (Bool-cases (test unit)) [
      | inl h ↦ rw h (a.0, later)
      | inr h ↦ rw h (Above-mono i (suc unit.index) (filter test units) (omega (arith, a.0)) later)
    ]

-- A compressible unit of the history.
abbrev Loose : List HistoryUnit → HistoryUnit → Type 0
Loose units unit = Among unit units × (is_kept [] unit ≡ false)

from_history :
    (units more : List HistoryUnit)
    → ((unit : HistoryUnit) → Among unit more → Among unit units)
    → All (Loose units) (filter is_compressible more)
from_history units [] h = tt
from_history units (unit ∷ more) h =
    let later = from_history units more (λ u m. h u (inr m)) in
    elim (Bool-cases (is_compressible unit)) [
      | inl free ↦ rw free ((h unit (inl refl), ground arith), later)
      | inr held ↦ rw held later
    ]

raise_bound :
    (i j : ℕ) (units : List HistoryUnit)
    → i ≤ j
    → All (λ unit. unit.index < i) units
    → All (λ unit. unit.index < j) units
raise_bound i j [] h a = tt
raise_bound i j (unit ∷ units) h a = (omega (arith, h, a.0), raise_bound i j units h a.1)

backwards-Ready :
    (i : ℕ) (units loose done : List HistoryUnit)
    → Above i loose
    → All (Loose units) loose
    → All (λ unit. unit.index < i) done
    → Ready units [] done
    → Ready units [] (backwards loose done)
backwards-Ready i units [] done a l b r = r
backwards-Ready i units (unit ∷ loose) done a l b r =
    backwards-Ready (suc unit.index) units loose (unit ∷ done) a.1 l.1
      (omega arith, raise_bound i (suc unit.index) done (omega (arith, a.0)) b)
      (l.0.0, l.0.1, raise_bound i unit.index done a.0 b, r)

size-backwards :
    (units done : List HistoryUnit) → size (backwards units done) ≡ size units + size done
size-backwards [] done = omega arith
size-backwards (unit ∷ units) done =
    omega (arith, size-backwards units (unit ∷ done), size-cons unit units, size-cons unit done)

size-split :
    (units : List HistoryUnit)
    → size (filter (is_kept []) units) + size (filter is_compressible units) ≡ size units
size-split [] = refl
size-split (unit ∷ units) = elim (Bool-cases unit.is_protected) [
  | inl held ↦ rw held (
      omega
        (arith, size-split units, size-cons unit units, size-cons unit (filter (is_kept []) units)))
  | inr free ↦ rw free (
      omega (
        arith,
        size-split units,
        size-cons unit units,
        size-cons unit (filter is_compressible units),
      ))
]

module _ (bytes : List Value → ℕ) (clone : Clone)
    (summarize : Option (List Value → ℕ → Reply)) where
  -- Every message is kept, left out, or still to come.
  select_units-size :
      (budget i : ℕ) (memory : List Value) (units rest : List HistoryUnit) (kept : List ℕ)
      (omitted : List HistoryUnit)
      → Above i units
      → Ready units kept rest
      → (let selected = select_units bytes clone summarize budget memory units rest kept omitted in
          size (filter (is_kept selected.0) units) + size selected.1
          ≡ size (filter (is_kept kept) units) + (size rest + size omitted))
  unfolding select_units
  select_units-size budget i memory units [] kept omitted a r = omega arith
  select_units-size budget i memory units (unit ∷ rest) kept omitted a r =
      elim (Bool-cases
        (leb (bytes (memory ++ flatten (filter (is_kept (unit.index ∷ kept)) units))) budget)) [
          | inl fits ↦ rw fits (
              omega (
                arith,
                select_units-size budget i memory units rest (unit.index ∷ kept) omitted a
                    (one_kept unit.index units kept rest r.2 r.3),
                size-keep i unit kept units a r.0 r.1,
                size-cons unit rest,
              ))
          | inr over ↦ rw over (
              omega (
                arith,
                select_units-size budget i memory units rest kept (unit ∷ omitted) a r.3,
                size-cons unit rest,
                size-cons unit omitted,
              ))
        ]

  -- The messages kept and those left out are together as many as the history has.
  pub select_units-all :
      (budget : ℕ) (memory : List Value) (messages : List Value)
      → (let units = build_units messages in
          let selected =
            select_units bytes clone summarize budget memory units
              (backwards (filter is_compressible units) [])
              []
              [] in
          size (filter (is_kept selected.0) units) + size selected.1 ≡ length messages)
  unfolding build_units
  select_units-all budget memory messages =
      let units = build_units messages in
      let loose = filter is_compressible units in
      let above : Above 0 units =
        units_from-Above (length messages) (last_user_index 0 messages) 0 messages in
      let whole : size units ≡ length messages = ap length (flatten-build_units messages) in
      omega (
        arith,
        select_units-size budget 0 memory units (backwards loose []) [] [] above (
            backwards-Ready 0 units loose [] (filter-Above 0 is_compressible units above)
              (from_history units units (λ u m. m)) tt tt),
        size-backwards loose [],
        size-split units,
        whole,
      )
