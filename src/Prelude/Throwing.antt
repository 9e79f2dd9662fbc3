-- ===== src/Prelude/Throwing.antt =====
-- A call that returns a value or throws an error.
use mathlib.Core.Path.{◌≡◌, refl, subst}
use mathlib.Core.Bool.{Bool, true, false}

pub data Outcome {ℓ κ} (E : Type ℓ) (A : Type κ) : Type (ℓ ⊔ κ) where
  ok : A → Outcome E A
  err : E → Outcome E A

abbrev pub ensure {ℓ} : {E : Type ℓ} → Bool → E → Outcome E (Unit {0})
ensure false thrown = err thrown
ensure true thrown = ok tt

infixl 5 ◌>>=◌ ◌>>◌
abbrev pub ◌>>=◌ {ℓ κ κ'} :
    {E : Type ℓ} {A : Type κ} {B : Type κ'} → Outcome E A → (A → Outcome E B) → Outcome E B
err thrown >>= next = err thrown
ok result >>= next = next result

abbrev pub ◌>>◌ {ℓ κ} : {E : Type ℓ} {B : Type κ} → Outcome E (Unit {0}) → Outcome E B → Outcome E B
check >> next = check >>= λ _. next

abbrev pub OfOk {ℓ κ μ} : {E : Type ℓ} {A : Type κ} → (A → Type μ) → Outcome E A → Type μ
OfOk P (ok a) = P a
OfOk P (err e) = Unit

-- What holds of the value, if the call returns one.
pub record AfterOk {ℓ κ μ} {E : Type ℓ} {A : Type κ} (P : A → Type μ) (m : Outcome E A)
    : Type μ where
  pub holds : OfOk P m

pub AfterOk-ok {ℓ κ μ} :
    {E : Type ℓ} {A : Type κ} {P : A → Type μ} {m : Outcome E A} {a : A}
    → AfterOk P m
    → m ≡ ok a
    → P a
AfterOk-ok {P} h e = subst (OfOk P) e h.holds

pub AfterOk-mono {ℓ κ μ ν} :
    {E : Type ℓ} {A : Type κ} {P : A → Type μ} {Q : A → Type ν} (m : Outcome E A)
    → AfterOk P m
    → ((a : A) → P a → Q a)
    → AfterOk Q m
AfterOk-mono (ok a) h f = record { holds = f a h.holds }
AfterOk-mono (err e) h f = record { holds = tt }

module _ {ℓ κ μ} {E : Type ℓ} {B : Type κ} {P : B → Type μ} where
  pub bind-AfterOk {κ'} :
      {A : Type κ'} (m : Outcome E A) (f : A → Outcome E B)
      → ((a : A) → m ≡ ok a → AfterOk P (f a))
      → AfterOk P (m >>= f)
  bind-AfterOk (ok a) f h = record { holds = (h a refl).holds }
  bind-AfterOk (err e) f h = record { holds = tt }

  pub ensure-AfterOk :
      (b : Bool) (e : E) (k : Outcome E B) → (b ≡ true → AfterOk P k) → AfterOk P (ensure b e >> k)
  ensure-AfterOk true e k h = record { holds = (h refl).holds }
  ensure-AfterOk false e k h = record { holds = tt }

  pub ok-AfterOk : (b : B) → P b → AfterOk {E = E} P (ok b)
  ok-AfterOk b p = record { holds = p }

  pub chain-AfterOk {κ' μ'} :
      {A : Type κ'} {Q : A → Type μ'} {m : Outcome E A} {f : A → Outcome E B}
      → AfterOk Q m
      → ((a : A) → Q a → AfterOk P (f a))
      → AfterOk P (m >>= f)
  chain-AfterOk {m} {f} h k = bind-AfterOk m f (λ a e. k a (AfterOk-ok h e))
