-- ===== src/Resilience/Gateway/Courses.antt =====
-- How a part of the resilient gateway goes, as its consumer sees it: packages/model-gateway/src/
-- resilient-routed-gateway.ts.
use agent_routebench.Prelude.{ℕ, ◌≡◌, refl, sym, subst, false, List, [], ◌∷◌, none, some}
use agent_routebench.Generator.{
  Gen, Signal, Output, pure, finish, emit, observe, resume, ◌>>=◌, ◌>>◌,
}
use agent_routebench.Generator.Rules.{collect, collect-append}
use agent_routebench.Resilience.Errors.{StreamErrorCode, stream_error_event}
use agent_routebench.Resilience.Gateway.{Effect, yielded, waited, attempted, threw, end_with}

-- What the consumer sees: events and an exception.
abbrev pub visible_of : Effect → List Effect
visible_of (yielded e) = yielded e ∷ []
visible_of threw = threw ∷ []
visible_of (waited n) = []
visible_of (attempted c) = []

-- How a part of the code goes: it has ended the run after showing `es`, or it has shown nothing and
-- goes on with a value.
pub data Course {ℓ} (A : Type ℓ) : Type ℓ where
  ended : List Effect → Course A
  going : A → Course A

abbrev pub HasCourse {ℓ} : {A : Type ℓ} → Output Effect A → Course A → Type ℓ
HasCourse o (ended es) = (collect visible_of o.trace ≡ es) × (o.result ≡ none)
HasCourse o (going a) = (collect visible_of o.trace ≡ []) × (o.result ≡ some a)

pub record Takes {ℓ} {A : Type ℓ} (m : Gen Effect A) (course : Course A) : Type ℓ where
  pub taken : (t : ℕ) → HasCourse (m t) course

module _ {ℓ κ} {A : Type ℓ} {B : Type κ} where
  resume-going :
      (es : List Effect) (t : ℕ) (a : A) (f : A → Gen Effect B) (course : Course B)
      → collect visible_of es ≡ []
      → HasCourse (f a t) course
      → HasCourse (resume es t (some a) f) course
  resume-going es t a f (ended xs) h k =
      (rw (collect-append visible_of es (f a t).trace, h) k.0, k.1)
  resume-going es t a f (going b) h k =
      (rw (collect-append visible_of es (f a t).trace, h) k.0, k.1)

  pub then-Takes :
      {m : Gen Effect A} (f : A → Gen Effect B) {a : A} {course : Course B}
      → Takes m (going a)
      → Takes (f a) course
      → Takes (m >>= f) course
  unfolding ◌>>=◌
  then-Takes {m} f {a} {course} h k = record {
    taken = λ t.
        subst (λ r. HasCourse (resume (m t).trace (m t).clock r f) course) (sym (h.taken t).1)
          (resume-going (m t).trace (m t).clock a f course (h.taken t).0 (k.taken (m t).clock));
  }

  pub end-Takes :
      {m : Gen Effect A} (f : A → Gen Effect B) {es : List Effect}
      → Takes m (ended es)
      → Takes (m >>= f) (ended es)
  unfolding ◌>>=◌
  end-Takes {m} f {es} h = record {
    taken = λ t.
        subst (λ r. HasCourse (resume (m t).trace (m t).clock r f) (ended es)) (sym (h.taken t).1)
          ((h.taken t).0, refl);
  }

pub pure-Takes {ℓ} : {A : Type ℓ} (a : A) → Takes (pure a) (going a)
unfolding pure
pure-Takes a = record { taken = λ t. (refl, refl) }

pub hidden-Takes : (e : Effect) → visible_of e ≡ [] → Takes (emit e) (going tt)
unfolding emit
hidden-Takes e h = record { taken = λ t. (rw h refl, refl) }

-- A visible entry, and then a part that ends the run.
pub shown-Takes {ℓ} :
    {A : Type ℓ} (e : Effect) {k : Gen Effect A} {es : List Effect}
    → visible_of e ≡ e ∷ []
    → Takes k (ended es)
    → Takes (emit e >> k) (ended (e ∷ es))
unfolding emit ◌>>=◌ ◌>>◌
shown-Takes e h k = record { taken = λ t. (rw (h, (k.taken t).0) refl, (k.taken t).1) }

pub finish-Takes {ℓ} : {A : Type ℓ} → Takes {A = A} finish (ended [])
unfolding finish
finish-Takes = record { taken = λ t. (refl, refl) }

pub end_with-Takes {ℓ} :
    {A : Type ℓ} (code : StreamErrorCode)
    → Takes {A = A} (end_with code) (ended (yielded (stream_error_event code) ∷ []))
end_with-Takes code = shown-Takes _ refl finish-Takes

pub observe-Takes :
    (signal : Signal) → ((t : ℕ) → signal t ≡ false) → Takes (observe signal) (going false)
unfolding observe
observe-Takes signal quiet = record { taken = λ t. (refl, rw (quiet t) refl) }
