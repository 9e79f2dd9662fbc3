-- ===== src/Generator/Rules/Counting.antt =====
-- How many entries of a trace pass a test.
use agent_routebench.Prelude.{
  refl, All, ℕ, ◌+◌, ◌≤◌, ◌≡◌, Bool, true, false, Option, none, some, List, [], ◌∷◌, ◌++◌, arith,
  if◌then◌else◌,
}
use agent_routebench.Generator.{Gen, Signal, pure, finish, emit, observe, now, resume, ◌>>=◌, ◌>>◌}
use agent_routebench.Generator.Rules.EachEntry.{OfResult, Always}

abbrev pub count {ℓ} : {E : Type ℓ} → (E → Bool) → List E → ℕ
count p [] = 0
count p (e ∷ es) = (if p e then 1 else 0) + count p es

pub count-append {ℓ} :
    {E : Type ℓ} (p : E → Bool) (xs ys : List E) → count p (xs ++ ys) ≡ count p xs + count p ys
count-append p [] ys = omega arith
count-append p (x ∷ xs) ys = omega (arith, count-append p xs ys)

-- At most `n` entries of the trace pass the test, and the value has `R`.
pub record AtMost {ℓ κ ν} {E : Type ℓ} {A : Type κ} (p : E → Bool) (R : A → Type ν) (n : ℕ)
    (m : Gen E A) : Type ν where
  pub few : (t : ℕ) → count p (m t).trace ≤ n
  pub result : (t : ℕ) → OfResult R (m t).result

module _ {ℓ κ κ' ν ν'} {E : Type ℓ} {A : Type κ} {B : Type κ'} {p : E → Bool} {R : A → Type ν}
    {S : B → Type ν'} where
  resume-few :
      (n k : ℕ) (es : List E) (t : ℕ) (r : Option A) (f : A → Gen E B)
      → count p es ≤ n
      → OfResult R r
      → ((a : A) → R a → AtMost p S k (f a))
      → count p (resume es t r f).trace ≤ n + k
  resume-few n k es t none f h v next = omega arith
  resume-few n k es t (some a) f h v next =
      omega (arith, count-append p es (f a t).trace, (next a v).few t)

  resume-result :
      (k : ℕ) (es : List E) (t : ℕ) (r : Option A) (f : A → Gen E B)
      → OfResult R r
      → ((a : A) → R a → AtMost p S k (f a))
      → OfResult S (resume es t r f).result
  resume-result k es t none f v next = tt
  resume-result k es t (some a) f v next = (next a v).result t

  pub bind-AtMost :
      (n k : ℕ) {total : ℕ} {m : Gen E A} {f : A → Gen E B}
      → AtMost p R n m
      → ((a : A) → R a → AtMost p S k (f a))
      → n + k ≤ total
      → AtMost p S total (m >>= f)
  unfolding ◌>>=◌
  bind-AtMost n k {total} {m} {f} h next le = record {
    few = λ t.
        omega (
          arith,
          resume-few n k (m t).trace (m t).clock (m t).result f (h.few t) (h.result t) next,
        );
    result = λ t. resume-result k (m t).trace (m t).clock (m t).result f (h.result t) next;
  }

module _ {ℓ κ ν} {E : Type ℓ} {B : Type κ} {p : E → Bool} {S : B → Type ν} where
  pub AtMost-mono : {n k : ℕ} {m : Gen E B} → AtMost p S n m → n ≤ k → AtMost p S k m
  AtMost-mono {n} {k} {m} h le = record { few = λ t. omega (arith, h.few t); result = h.result }

  pub then-AtMost :
      (n k : ℕ) {total : ℕ} {m : Gen E (Unit {0})} {next : Gen E B}
      → AtMost p (λ _. Unit {0}) n m
      → AtMost p S k next
      → n + k ≤ total
      → AtMost p S total (m >> next)
  unfolding ◌>>◌
  then-AtMost n k h next le = bind-AtMost n k h (λ _ _. next) le

  pub pure-AtMost : {n : ℕ} (b : B) → S b → AtMost p S n (pure b)
  unfolding pure
  pure-AtMost b s = record { few = λ t. omega arith; result = λ t. s }

  pub finish-AtMost : AtMost p S 0 finish
  unfolding finish
  finish-AtMost = record { few = λ t. omega arith; result = λ t. tt }

module _ {ℓ} {E : Type ℓ} {p : E → Bool} where
  pub emit-AtMost : (e : E) → AtMost p (λ _. Unit {0}) (if p e then 1 else 0) (emit e)
  unfolding emit
  emit-AtMost e = record { few = λ t. omega arith; result = λ t. tt }

  pub observe-AtMost : (signal : Signal) → AtMost p (λ _. Unit {0}) 0 (observe signal)
  unfolding observe
  observe-AtMost signal = record { few = λ t. omega arith; result = λ t. tt }

  pub observe-bind-AtMost {κ ν} :
      {B : Type κ} {S : B → Type ν} (n : ℕ) (signal : Signal) (f : Bool → Gen E B)
      → AtMost p S n (f true)
      → AtMost p S n (f false)
      → AtMost p S n (observe signal >>= f)
  observe-bind-AtMost n signal f h k =
      bind-AtMost 0 n (observe-AtMost signal) (elim [ true ↦ λ _. h | false ↦ λ _. k ])
        (omega arith)

  pub now-AtMost : AtMost p (λ _. Unit {0}) 0 now
  unfolding now
  now-AtMost = record { few = λ t. omega arith; result = λ t. tt }

pub if-AtMost {ℓ κ ν} :
    {E : Type ℓ} {A : Type κ} {p : E → Bool} {R : A → Type ν} (n : ℕ) (b : Bool) {x y : Gen E A}
    → (b ≡ true → AtMost p R n x)
    → (b ≡ false → AtMost p R n y)
    → AtMost p R n (if b then x else y)
if-AtMost n true h k = h refl
if-AtMost n false h k = k refl

count-none {ℓ} :
    {E : Type ℓ} (p : E → Bool) (es : List E) → All (λ e. p e ≡ false) es → count p es ≤ 0
count-none p [] h = omega arith
count-none p (e ∷ es) h = ground (arith, count-none p es h.1)

-- A run whose entries all fail the test.
pub quiet-AtMost {ℓ κ ν} :
    {E : Type ℓ} {A : Type κ} {R : A → Type ν} {p : E → Bool} {m : Gen E A}
    → Always (λ e. p e ≡ false) R m
    → AtMost p R 0 m
quiet-AtMost {p} {m} h = record {
  few = λ t. count-none p (m t).trace (h.holds t).trace;
  result = λ t. (h.holds t).result;
}
