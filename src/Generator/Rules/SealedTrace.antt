-- ===== src/Generator/Rules/SealedTrace.antt =====
-- Traces with one terminal entry, at their end.
use agent_routebench.Prelude.{
  ℕ, ◌≡◌, refl, Bool, true, false, Option, none, some, List, [], ◌∷◌, ◌++◌, arith, if◌then◌else◌,
}
use agent_routebench.Generator.{Gen, Signal, pure, finish, emit, observe, now, resume, ◌>>=◌, ◌>>◌}

-- The trace holds no terminal entry.
abbrev pub is_open {ℓ} : {E : Type ℓ} → (E → Bool) → List E → Bool
is_open terminal [] = true
is_open terminal (e ∷ es) = if terminal e then false else is_open terminal es

abbrev pub is_nil {ℓ} : {E : Type ℓ} → List E → Bool
is_nil [] = true
is_nil (_ ∷ _) = false

-- The trace holds one terminal entry, and that is its last.
abbrev pub is_sealed {ℓ} : {E : Type ℓ} → (E → Bool) → List E → Bool
is_sealed terminal [] = false
is_sealed terminal (e ∷ es) = if terminal e then is_nil es else is_sealed terminal es

abbrev pub HasShape {ℓ κ} : {E : Type ℓ} {A : Type κ} → (E → Bool) → List E → Option A → Type 0
HasShape terminal es none = is_sealed terminal es ≡ true
HasShape terminal es (some a) = is_open terminal es ≡ true

-- A run that goes on has shown no terminal entry; a run that has returned has shown one, at last.
pub record Closes {ℓ κ} {E : Type ℓ} {A : Type κ} (terminal : E → Bool) (m : Gen E A) : Type 0 where
  pub shape : (t : ℕ) → HasShape terminal (m t).trace (m t).result

module _ {ℓ} {E : Type ℓ} (terminal : E → Bool) where
  open-append :
      (xs ys : List E)
      → is_open terminal xs ≡ true
      → is_open terminal ys ≡ true
      → is_open terminal (xs ++ ys) ≡ true
  open-append [] ys h k = k
  open-append (x ∷ xs) ys h k = ground (arith, open-append xs ys)

  sealed-append :
      (xs ys : List E)
      → is_open terminal xs ≡ true
      → is_sealed terminal ys ≡ true
      → is_sealed terminal (xs ++ ys) ≡ true
  sealed-append [] ys h k = k
  sealed-append (x ∷ xs) ys h k = ground (arith, sealed-append xs ys)

  append-shape {κ} :
      {B : Type κ} (xs ys : List E) (r : Option B)
      → is_open terminal xs ≡ true
      → HasShape terminal ys r
      → HasShape terminal (xs ++ ys) r
  append-shape xs ys none h k = sealed-append xs ys h k
  append-shape xs ys (some b) h k = open-append xs ys h k

module _ {ℓ κ κ'} {E : Type ℓ} {A : Type κ} {B : Type κ'} {terminal : E → Bool} where
  resume-shape :
      (es : List E) (t : ℕ) (r : Option A) (f : A → Gen E B)
      → HasShape terminal es r
      → ((a : A) → Closes terminal (f a))
      → HasShape terminal (resume es t r f).trace (resume es t r f).result
  resume-shape es t none f h next = h
  resume-shape es t (some a) f h next =
      append-shape terminal es (f a t).trace (f a t).result h ((next a).shape t)

  pub bind-Closes :
      {m : Gen E A} {f : A → Gen E B}
      → Closes terminal m
      → ((a : A) → Closes terminal (f a))
      → Closes terminal (m >>= f)
  unfolding ◌>>=◌
  bind-Closes {m} {f} h next = record {
    shape = λ t. resume-shape (m t).trace (m t).clock (m t).result f (h.shape t) next;
  }

module _ {ℓ κ} {E : Type ℓ} {B : Type κ} {terminal : E → Bool} where
  pub pure-Closes : (b : B) → Closes terminal (pure b)
  unfolding pure
  pure-Closes b = record { shape = λ t. refl }

  pub then-Closes :
      {m : Gen E (Unit {0})} {k : Gen E B}
      → Closes terminal m
      → Closes terminal k
      → Closes terminal (m >> k)
  unfolding ◌>>◌
  then-Closes h k = bind-Closes h (λ _. k)

  pub observe-bind-Closes :
      (signal : Signal) (f : Bool → Gen E B)
      → Closes terminal (f true)
      → Closes terminal (f false)
      → Closes terminal (observe signal >>= f)
  unfolding observe
  observe-bind-Closes signal f h k = bind-Closes seen (elim [ true ↦ h | false ↦ k ])
    where
      seen : Closes terminal (observe signal)
      seen = record { shape = λ t. refl }

  -- The last yield before a `return`.
  pub last-Closes : (e : E) → terminal e ≡ true → Closes terminal (emit e >> finish {A = B})
  unfolding ◌>>◌ ◌>>=◌ emit finish
  last-Closes e h = record { shape = λ t. ground arith }

module _ {ℓ} {E : Type ℓ} {terminal : E → Bool} where
  pub observe-Closes : (signal : Signal) → Closes terminal (observe signal)
  unfolding observe
  observe-Closes signal = record { shape = λ t. refl }

  pub now-Closes : Closes terminal (now {E = E})
  unfolding now
  now-Closes = record { shape = λ t. refl }

  pub emit-Closes : (e : E) → terminal e ≡ false → Closes terminal (emit e)
  unfolding emit
  emit-Closes e h = record { shape = λ t. ground arith }

pub if-Closes {ℓ κ} :
    {E : Type ℓ} {A : Type κ} {terminal : E → Bool} (b : Bool) {x y : Gen E A}
    → Closes terminal x
    → Closes terminal y
    → Closes terminal (if b then x else y)
if-Closes true h k = h
if-Closes false h k = k

-- The run returns, and its trace ends with its only terminal entry.
pub record Seals {ℓ κ} {E : Type ℓ} {A : Type κ} (terminal : E → Bool) (m : Gen E A) : Type κ where
  pub sealed : (t : ℕ) → is_sealed terminal (m t).trace ≡ true
  pub returned : (t : ℕ) → (m t).result ≡ none

module _ {ℓ κ κ'} {E : Type ℓ} {A : Type κ} {B : Type κ'} {terminal : E → Bool} where
  resume-sealed :
      (es : List E) (t : ℕ) (r : Option A) (f : A → Gen E B)
      → HasShape terminal es r
      → ((a : A) → Seals terminal (f a))
      → (is_sealed terminal (resume es t r f).trace ≡ true) × ((resume es t r f).result ≡ none)
  resume-sealed es t none f h next = (h, refl)
  resume-sealed es t (some a) f h next =
      (sealed-append terminal es (f a t).trace h ((next a).sealed t), (next a).returned t)

  pub bind-Seals :
      {m : Gen E A} {f : A → Gen E B}
      → Closes terminal m
      → ((a : A) → Seals terminal (f a))
      → Seals terminal (m >>= f)
  unfolding ◌>>=◌
  bind-Seals {m} {f} h next = record {
    sealed = λ t. (resume-sealed (m t).trace (m t).clock (m t).result f (h.shape t) next).0;
    returned = λ t. (resume-sealed (m t).trace (m t).clock (m t).result f (h.shape t) next).1;
  }

module _ {ℓ κ} {E : Type ℓ} {B : Type κ} {terminal : E → Bool} where
  pub last-Seals : (e : E) → terminal e ≡ true → Seals terminal (emit e >> finish {A = B})
  unfolding ◌>>◌ ◌>>=◌ emit finish
  last-Seals e h = record { sealed = λ t. ground arith; returned = λ t. refl }

  pub observe-bind-Seals :
      (signal : Signal) (f : Bool → Gen E B)
      → Seals terminal (f true)
      → Seals terminal (f false)
      → Seals terminal (observe signal >>= f)
  unfolding observe
  observe-bind-Seals signal f h k = bind-Seals seen (elim [ true ↦ h | false ↦ k ])
    where
      seen : Closes terminal (observe signal)
      seen = record { shape = λ t. refl }

pub if-Seals {ℓ κ} :
    {E : Type ℓ} {A : Type κ} {terminal : E → Bool} (b : Bool) {x y : Gen E A}
    → Seals terminal x
    → Seals terminal y
    → Seals terminal (if b then x else y)
if-Seals true h k = h
if-Seals false h k = k
