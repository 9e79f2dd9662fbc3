-- ===== src/Generator/Rules/EachEntry.antt =====
-- What holds of every entry of a trace and of the value.
use agent_routebench.Prelude.{
  ◌≡◌, refl, ◌+◌, ℕ, Bool, true, false, Option, none, some, List, All, All-append, if◌then◌else◌,
}
use agent_routebench.Generator.{
  Gen, Signal, Output, pure, finish, emit, observe, now, resume, ◌>>=◌, ◌>>◌,
}

-- A property of the value, if the run goes on.
abbrev pub OfResult {ℓ κ} : {A : Type ℓ} → (A → Type κ) → Option A → Type κ
OfResult R none = Unit
OfResult R (some a) = R a

module _ {ℓ κ μ ν} {E : Type ℓ} {A : Type κ} where
  pub record Keeps (P : E → Type μ) (R : A → Type ν) (o : Output E A) : Type (μ ⊔ ν) where
    pub trace : All P o.trace
    pub result : OfResult R o.result

  -- Every entry of the trace has `P` and the value has `R`, wherever the run starts.
  pub record Always (P : E → Type μ) (R : A → Type ν) (m : Gen E A) : Type (μ ⊔ ν) where
    pub holds : (t : ℕ) → Keeps P R (m t)

module _ {ℓ κ κ' μ ν ν'} {E : Type ℓ} {A : Type κ} {B : Type κ'} {P : E → Type μ} {R : A → Type ν}
    {S : B → Type ν'} where
  resume-Keeps :
      (es : List E) (t : ℕ) (r : Option A) (f : A → Gen E B)
      → All P es
      → OfResult R r
      → ((a : A) → R a → Always P S (f a))
      → Keeps P S (resume es t r f)
  resume-Keeps es t none f h k next = record { trace = h; result = tt }
  resume-Keeps es t (some a) f h k next =
      let rest = (next a k).holds t in
      record { trace = All-append P es (f a t).trace h rest.trace; result = rest.result }

  pub bind-Always :
      {m : Gen E A} {f : A → Gen E B}
      → Always P R m
      → ((a : A) → R a → Always P S (f a))
      → Always P S (m >>= f)
  unfolding ◌>>=◌
  bind-Always {m} {f} h next = record {
    holds = λ t.
        resume-Keeps (m t).trace (m t).clock (m t).result f (h.holds t).trace (h.holds t).result
          next;
  }

module _ {ℓ κ μ ν} {E : Type ℓ} {B : Type κ} {P : E → Type μ} {S : B → Type ν} where
  pub then-Always :
      {m : Gen E (Unit {0})} {k : Gen E B}
      → Always P (λ _. Unit {0}) m
      → Always P S k
      → Always P S (m >> k)
  unfolding ◌>>◌
  then-Always h k = bind-Always h (λ _ _. k)

  pub pure-Always : (b : B) → S b → Always P S (pure b)
  unfolding pure
  pure-Always b s = record { holds = λ t. record { trace = tt; result = s } }

  pub finish-Always : Always P S finish
  unfolding finish
  finish-Always = record { holds = λ t. record { trace = tt; result = tt } }

module _ {ℓ μ} {E : Type ℓ} {P : E → Type μ} where
  pub emit-Always : (e : E) → P e → Always P (λ _. Unit {0}) (emit e)
  unfolding emit
  emit-Always e p = record { holds = λ t. record { trace = (p, tt); result = tt } }

  pub observe-Always : (signal : Signal) → Always P (λ _. Unit {0}) (observe signal)
  unfolding observe
  observe-Always signal = record { holds = λ t. record { trace = tt; result = tt } }

  -- The two ways a reading of the signal can come out.
  pub observe-bind-Always {κ ν} :
      {B : Type κ} {S : B → Type ν} (signal : Signal) (f : Bool → Gen E B)
      → Always P S (f true)
      → Always P S (f false)
      → Always P S (observe signal >>= f)
  observe-bind-Always signal f h k =
      bind-Always (observe-Always signal) (elim [ true ↦ λ _. h | false ↦ λ _. k ])

-- A test of the program: each branch may use how it came out.
pub if-Always {ℓ κ μ ν} :
    {E : Type ℓ} {A : Type κ} {P : E → Type μ} {R : A → Type ν} (b : Bool) {x y : Gen E A}
    → (b ≡ true → Always P R x)
    → (b ≡ false → Always P R y)
    → Always P R (if b then x else y)
if-Always true h k = h refl
if-Always false h k = k refl

module _ {ℓ κ μ ν} {E : Type ℓ} {B : Type κ} {P : E → Type μ} {S : B → Type ν} where
  -- The rest of a run may use what the reading was, and when.
  pub observe-bind-reads :
      (signal : Signal) (f : Bool → Gen E B)
      → ((k : ℕ) → signal k ≡ true → Keeps P S (f true (k + 1)))
      → ((k : ℕ) → signal k ≡ false → Keeps P S (f false (k + 1)))
      → Always P S (observe signal >>= f)
  unfolding ◌>>=◌ observe
  observe-bind-reads signal f h k = record { holds = λ t. go t (signal t) refl }
    where
      go : (t : ℕ) (b : Bool) → signal t ≡ b → Keeps P S (f b (t + 1))
      go t true e = h t e
      go t false e = k t e

  pub now-bind-Keeps : (f : ℕ → Gen E B) (t : ℕ) → Keeps P S (f t t) → Keeps P S ((now >>= f) t)
  unfolding ◌>>=◌ now
  now-bind-Keeps f t h = h
