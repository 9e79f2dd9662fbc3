-- ===== src/Generator.antt =====
-- Async generators, as the source writes them: a run yields events, may read the abort signal
-- between two of them, and ends with a value for the code that follows, or by `return`.
pub mod Rules
use agent_routebench.Prelude.{ℕ, ◌+◌, Bool, Option, none, some, List, [], ◌∷◌, ◌++◌}

-- The trace of a run, the number of readings of the signal so far, and the value; `none` is `return`.
pub record Output {ℓ κ} (E : Type ℓ) (A : Type κ) : Type (ℓ ⊔ κ) where
  pub trace : List E
  pub clock : ℕ
  pub result : Option A

-- What an abort signal says at each reading. No signal at all is the constant `false`.
abbrev pub Signal : Type 0
Signal = ℕ → Bool

abbrev pub Gen {ℓ κ} : Type ℓ → Type κ → Type (ℓ ⊔ κ)
Gen E A = ℕ → Output E A

module _ {ℓ κ} {E : Type ℓ} {A : Type κ} where
  unfoldable pub pure : A → Gen E A
  pure a t = record { trace = []; clock = t; result = some a }

  -- `return` inside the generator.
  unfoldable pub finish : Gen E A
  finish t = record { trace = []; clock = t; result = none }

module _ {ℓ} {E : Type ℓ} where
  unfoldable pub emit : E → Gen E (Unit {0})
  emit e t = record { trace = e ∷ []; clock = t; result = some tt }

  -- One reading of `signal.aborted`.
  unfoldable pub observe : Signal → Gen E Bool
  observe signal t = record { trace = []; clock = t + 1; result = some (signal t) }

  unfoldable pub now : Gen E ℕ
  now t = record { trace = []; clock = t; result = some t }

module _ {ℓ κ κ'} {E : Type ℓ} {A : Type κ} {B : Type κ'} where
  abbrev pub resume : List E → ℕ → Option A → (A → Gen E B) → Output E B
  resume trace clock none f = record { trace = trace; clock = clock; result = none }
  resume trace clock (some a) f =
      let o = f a clock in record { trace = trace ++ o.trace; clock = o.clock; result = o.result }

infixl 5 ◌>>=◌ ◌>>◌
unfoldable pub ◌>>=◌ {ℓ κ κ'} :
    {E : Type ℓ} {A : Type κ} {B : Type κ'} → Gen E A → (A → Gen E B) → Gen E B
◌>>=◌ m f t = resume (m t).trace (m t).clock (m t).result f

unfoldable pub ◌>>◌ {ℓ κ} : {E : Type ℓ} {B : Type κ} → Gen E (Unit {0}) → Gen E B → Gen E B
unfolding ◌>>=◌
m >> k = m >>= λ _. k
