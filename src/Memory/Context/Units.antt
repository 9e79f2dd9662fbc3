-- ===== src/Memory/Context/Units.antt =====
-- The units of a history: they are the history again, and what must stay is protected.
use agent_routebench.Prelude.{
  ℕ, zero, suc, ◌+◌, ◌≤◌, ◌≡◌, refl, true, false, ◌&&◌, List, [], ◌∷◌, ◌++◌, Option, length, All,
  arith, ap, sym, subst, String, ◌==◌, eq_iff, Bool-cases, inl, inr,
}
use agent_routebench.Contracts.Value.{Value, is_text, property}
use agent_routebench.Memory.Context.{
  HistoryUnit, has_block, is_role, is_from, last_user_index, tools_of, after_tools, units_from,
  build_units, flatten,
}

tools-append : (messages : List Value) → tools_of messages ++ after_tools messages ≡ messages
tools-append [] = refl
tools-append (message ∷ messages) = elim (Bool-cases (is_role "tool" message)) [
  | inl h ↦ rw h (ap (λ ms. message ∷ ms) (tools-append messages))
  | inr h ↦ rw h
]

length-after_tools : (messages : List Value) → length (after_tools messages) ≤ length messages
length-after_tools [] = omega arith
length-after_tools (message ∷ messages) = ground (arith, length-after_tools messages)

flatten-units_from :
    (fuel : ℕ) (last : Option ℕ) (i : ℕ) (messages : List Value)
    → length messages ≤ fuel
    → flatten (units_from fuel last i messages) ≡ messages
unfolding units_from
flatten-units_from zero last i [] h = refl
flatten-units_from zero last i (message ∷ messages) h = absurd (omega (arith, h))
flatten-units_from (suc fuel) last i [] h = refl
flatten-units_from (suc fuel) last i (message ∷ messages) h =
    elim (Bool-cases (has_block "tool_call" message && is_role "assistant" message)) [
      | inl grouped ↦
          rw
            (
              grouped,
              flatten-units_from fuel last (suc i + length (tools_of messages))
                  (after_tools messages) (omega (arith, h, length-after_tools messages)),
            )
            (ap (λ ms. message ∷ ms) (tools-append messages))
      | inr alone ↦ rw (alone, flatten-units_from fuel last (suc i) messages (omega (arith, h)))
    ]

-- The units of a history, in their order, are its messages.
pub flatten-build_units : (messages : List Value) → flatten (build_units messages) ≡ messages
unfolding build_units
flatten-build_units messages =
    flatten-units_from (length messages) (last_user_index 0 messages) 0 messages (omega arith)

-- A unit that may be left out: it holds no system message, and it begins before the last user
-- message.
pub record IsLoose (last : Option ℕ) (unit : HistoryUnit) : Type 0 where
  pub no_system : All (λ message. is_role "system" message ≡ false) unit.messages
  pub earlier : is_from last unit.index ≡ false

abbrev pub Guards : Option ℕ → HistoryUnit → Type 0
Guards last unit = unit.is_protected ≡ false → IsLoose last unit

other_text :
    (given : Value) (a b : String)
    → is_text given a ≡ true
    → (a == b) ≡ false
    → is_text given b ≡ false
other_text (Value.string s) a b h k = subst (λ t. (t == b) ≡ false) (sym ((eq_iff s a).0 h)) k
other_text _ a b h k = refl

tools-no_system :
    (messages : List Value) → All (λ message. is_role "system" message ≡ false) (tools_of messages)
tools-no_system [] = tt
tools-no_system (message ∷ messages) = elim (Bool-cases (is_role "tool" message)) [
  | inl h ↦
      rw h (other_text (property "role" message) "tool" "system" h refl, tools-no_system messages)
  | inr h ↦ rw h tt
]

units_from-Guards :
    (fuel : ℕ) (last : Option ℕ) (i : ℕ) (messages : List Value)
    → All (Guards last) (units_from fuel last i messages)
unfolding units_from
units_from-Guards zero last i messages = tt
units_from-Guards (suc fuel) last i [] = tt
units_from-Guards (suc fuel) last i (message ∷ messages) =
    elim (Bool-cases (has_block "tool_call" message && is_role "assistant" message)) [
      | inl grouped ↦ rw grouped (
        λ free. record {
          no_system = (ground arith, tools-no_system messages);
          earlier = ground arith;
        },
        units_from-Guards fuel last (suc i + length (tools_of messages)) (after_tools messages),
      )
      | inr alone ↦ rw alone (
        λ free. record { no_system = (ground arith, tt); earlier = ground arith },
        units_from-Guards fuel last (suc i) messages,
      )
    ]

pub build_units-Guards :
    (messages : List Value) → All (Guards (last_user_index 0 messages)) (build_units messages)
unfolding build_units
build_units-Guards messages =
    units_from-Guards (length messages) (last_user_index 0 messages) 0 messages
