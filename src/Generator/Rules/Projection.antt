-- ===== src/Generator/Rules/Projection.antt =====
-- What a run shows through a view of its entries: a statement about the list of all that the view
-- gives, and how the run ends.
use agent_routebench.Prelude.{
  ℕ, ◌+◌, ◌≡◌, refl, sym, Bool, true, false, Option, none, some, List, [], ◌∷◌, ◌++◌, All,
  append_assoc, append-nil, if◌then◌else◌,
}
use agent_routebench.Generator.{Gen, Signal, pure, finish, emit, observe, resume, ◌>>=◌, ◌>>◌}
use agent_routebench.Generator.Rules.EachEntry.{Always, OfResult}

module _ {ℓ κ} {E : Type ℓ} {X : Type κ} (view : E → List X) where
  abbrev pub collect : List E → List X
  collect [] = []
  collect (e ∷ es) = view e ++ collect es

  pub collect-append : (xs ys : List E) → collect (xs ++ ys) ≡ collect xs ++ collect ys
  collect-append [] ys = refl
  collect-append (x ∷ xs) ys =
      rw (collect-append xs ys) (sym (append_assoc (view x) (collect xs) (collect ys)))

  collect-IsQuiet : (es : List E) → All (λ e. view e ≡ []) es → collect es ≡ []
  collect-IsQuiet [] h = refl
  collect-IsQuiet (e ∷ es) (p, h) = rw (p, collect-IsQuiet es h)

pub record Shows {ℓ κ μ ν} {E : Type ℓ} {X : Type κ} {A : Type μ} (view : E → List X)
    (T : List X → Option A → Type ν) (m : Gen E A) : Type ν where
  pub shown : (t : ℕ) → T (collect view (m t).trace) (m t).result

module _ {ℓ κ} {E : Type ℓ} {X : Type κ} {view : E → List X} where
  pub Shows-mono {μ ν ν'} :
      {A : Type μ} {T : List X → Option A → Type ν} {U : List X → Option A → Type ν'} {m : Gen E A}
      → Shows view T m
      → ((xs : List X) (r : Option A) → T xs r → U xs r)
      → Shows view U m
  Shows-mono h f = record { shown = λ t. f _ _ (h.shown t) }

  module _ {μ μ' ν ν'} {A : Type μ} {B : Type μ'} (T : List X → Option A → Type ν)
      (U : List X → Option B → Type ν') where
    resume-shown :
        (es : List E) (t : ℕ) (r : Option A) (f : A → Gen E B)
        → T (collect view es) r
        → ((xs : List X) → T xs none → U xs none)
        → ((xs : List X) (a : A) → T xs (some a) → Shows view (λ ys s. U (xs ++ ys) s) (f a))
        → U (collect view (resume es t r f).trace) (resume es t r f).result
    resume-shown es t none f h stop next = stop _ h
    resume-shown es t (some a) f h stop next =
        rw (collect-append view es (f a t).trace) ((next _ a h).shown t)

    pub bind-Shows :
        {m : Gen E A} {f : A → Gen E B}
        → Shows view T m
        → ((xs : List X) → T xs none → U xs none)
        → ((xs : List X) (a : A) → T xs (some a) → Shows view (λ ys s. U (xs ++ ys) s) (f a))
        → Shows view U (m >>= f)
    unfolding ◌>>=◌
    bind-Shows {m} {f} h stop next = record {
      shown = λ t. resume-shown (m t).trace (m t).clock (m t).result f (h.shown t) stop next;
    }

  module _ {μ' ν'} {B : Type μ'} (U : List X → Option B → Type ν') where
    pub pure-Shows : (b : B) → U [] (some b) → Shows view U (pure b)
    unfolding pure
    pure-Shows b u = record { shown = λ t. u }

    pub emit-then-Shows :
        (e : E) {k : Gen E B}
        → Shows view (λ ys s. U (view e ++ ys) s) k
        → Shows view U (emit e >> k)
    unfolding ◌>>◌ ◌>>=◌ emit
    emit-then-Shows e h = record { shown = λ t. h.shown t }

    pub emit-finish-Shows : (e : E) → U (view e) none → Shows view U (emit e >> finish)
    unfolding ◌>>◌ ◌>>=◌ emit finish
    emit-finish-Shows e u = record { shown = λ t. rw append-nil u }

    pub observe-bind-Shows :
        (signal : Signal) (f : Bool → Gen E B)
        → Shows view U (f true)
        → Shows view U (f false)
        → Shows view U (observe signal >>= f)
    unfolding ◌>>=◌ observe
    observe-bind-Shows signal f h k = record { shown = λ t. go (t + 1) (signal t) }
      where
        go : (t : ℕ) (b : Bool) → U (collect view (f b t).trace) (f b t).result
        go t true = h.shown t
        go t false = k.shown t

    -- A part that the view does not show.
    pub quiet-bind-Shows {μ ν} :
        {A : Type μ} {R : A → Type ν} {m : Gen E A} {f : A → Gen E B}
        → Always (λ e. view e ≡ []) R m
        → U [] none
        → ((a : A) → R a → Shows view U (f a))
        → Shows view U (m >>= f)
    quiet-bind-Shows {R} {m} {f} h stop next =
        bind-Shows (λ xs r. (xs ≡ []) × OfResult R r) U
          (record {
            shown = λ t. (collect-IsQuiet view (m t).trace (h.holds t).trace, (h.holds t).result);
          })
          (λ xs p. rw p.0 stop) (λ xs a p. rw p.0 (next a p.1))

    pub quiet-then-Shows {ν} :
        {R : Unit {0} → Type ν} {m : Gen E (Unit {0})} {k : Gen E B}
        → Always (λ e. view e ≡ []) R m
        → U [] none
        → Shows view U k
        → Shows view U (m >> k)
    unfolding ◌>>◌
    quiet-then-Shows h stop next = quiet-bind-Shows h stop (λ _ _. next)

    pub if-Shows :
        (b : Bool) {x y : Gen E B}
        → (b ≡ true → Shows view U x)
        → (b ≡ false → Shows view U y)
        → Shows view U (if b then x else y)
    if-Shows true h k = h refl
    if-Shows false h k = k refl
