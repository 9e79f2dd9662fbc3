-- ===== src/Adapters/Steps.antt =====
-- Calls of a decoder one after another, each of which may throw, and what holds after all of them.
use agent_routebench.Prelude
use agent_routebench.Prelude.{
  ◌≡◌, refl, ensure, Bool, true, false, Option, none, some, Outcome, ok, err, AfterOk, bind-AfterOk,
  ok-AfterOk, AfterOk-mono, if◌then◌else◌,
}
use agent_routebench.Adapters.Decoding.{Thrown}

infixl 5 ◌>>=◌ ◌>>◌
unfoldable pub ◌>>=◌ {κ κ'} :
    {A : Type κ} {B : Type κ'} → Outcome Thrown A → (A → Outcome Thrown B) → Outcome Thrown B
m >>= f = Prelude.◌>>=◌ m f

unfoldable pub ◌>>◌ {κ κ'} :
    {A : Type κ} {B : Type κ'} → Outcome Thrown A → Outcome Thrown B → Outcome Thrown B
m >> next = m >>= λ _. next

module _ {κ κ' μ} {A : Type κ} {B : Type κ'} {P : B → Type μ} where
  -- Whatever the first call gives.
  pub after-any :
      (m : Outcome Thrown A) {f : A → Outcome Thrown B}
      → ((a : A) → AfterOk P (f a))
      → AfterOk P (m >>= f)
  unfolding ◌>>=◌
  after-any m {f} h = bind-AfterOk m f (λ a e. h a)

  pub after-check :
      (m : Outcome Thrown A) {next : Outcome Thrown B} → AfterOk P next → AfterOk P (m >> next)
  unfolding ◌>>◌
  after-check m h = after-any m (λ a. h)

  -- What holds of the first call's value.
  pub after-known {μ'} :
      {Q : A → Type μ'} {m : Outcome Thrown A} {f : A → Outcome Thrown B}
      → AfterOk Q m
      → ((a : A) → Q a → AfterOk P (f a))
      → AfterOk P (m >>= f)
  unfolding ◌>>=◌
  after-known {m} {f} h k = bind-AfterOk m f (λ a e. k a (Prelude.AfterOk-ok h e))

module _ {κ μ} {B : Type κ} {P : B → Type μ} where
  pub either :
      (b : Bool) {x y : Outcome Thrown B}
      → AfterOk P x
      → AfterOk P y
      → AfterOk P (if b then x else y)
  either true h k = h
  either false h k = k

  pub refused : (thrown : Thrown) → AfterOk P (err thrown)
  refused thrown = record { holds = tt }

-- A test that a call has passed.
pub after-test {κ} :
    {A : Type κ} (b : Bool) (thrown : Thrown) (m : Outcome Thrown A)
    → AfterOk (λ a. b ≡ true) (ensure b thrown >> m)
unfolding ◌>>◌ ◌>>=◌
after-test {A = A} true thrown m = always m
  where
    always : (m : Outcome Thrown A) → AfterOk {E = Thrown} (λ a. true ≡ true) m
    always (ok a) = record { holds = refl }
    always (err e) = record { holds = tt }
after-test false thrown m = record { holds = tt }
