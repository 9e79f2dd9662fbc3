-- ===== src/Resilience/Gateway/Schedule.antt =====
-- Which attempts a call of the resilient gateway makes, and in which order.
use agent_routebench.Prelude.{
  ℕ, zero, suc, ◌+◌, ◌≤◌, ◌≡◌, refl, sym, ap, Bool, true, false, List, [], ◌∷◌, ◌++◌, append_assoc,
  append-nil, length, length-append, Option, none, some, leb, leb→lt, arith, Outcome, ok, err, not,
  ◌||◌,
}
use agent_routebench.Contracts.Events.{ModelStreamEvent, Stream, value, done, failed}
use agent_routebench.Generator.{Gen, Signal}
use agent_routebench.Generator.Rules.{
  Always, then-Always, pure-Always, finish-Always, emit-Always, observe-bind-Always, if-Always,
  collect, Shows, Shows-mono, bind-Shows, pure-Shows, emit-then-Shows, emit-finish-Shows,
  observe-bind-Shows, quiet-bind-Shows, quiet-then-Shows, if-Shows,
}
use agent_routebench.Registry.Types.{ResolvedRoute, RegistryError}
use agent_routebench.Resilience.Errors.{StreamErrorCode, aborted, gateway_error}
use agent_routebench.Resilience.Policy.{
  RetryPolicy, is_visible_stream_event, is_retryable_stream_error,
}
use agent_routebench.Resilience.Gateway.{
  Effect, attempted, Attempt, end_with, relay, CandidateExit, exhausted, budget_spent, back_off,
  try_candidate, try_candidates, after_candidate, stream,
}

-- The candidate of an entry that starts an attempt.
abbrev pub attempt_of : Effect → List ResolvedRoute
attempt_of (attempted c) = c ∷ []
attempt_of _ = []

abbrev pub repeat : ℕ → ResolvedRoute → List ResolvedRoute
repeat zero c = []
repeat (suc n) c = c ∷ repeat n c

-- Every candidate in its order, `n` times each.
abbrev pub schedule : ℕ → List ResolvedRoute → List ResolvedRoute
schedule n [] = []
schedule n (c ∷ cs) = repeat n c ++ schedule n cs

abbrev pub IsPrefix : List ResolvedRoute → List ResolvedRoute → Type 0
IsPrefix xs ys = (rest : List ResolvedRoute) × (ys ≡ xs ++ rest)

IsPrefix-append : (xs ys zs : List ResolvedRoute) → IsPrefix ys zs → IsPrefix (xs ++ ys) (xs ++ zs)
IsPrefix-append xs ys zs (rest, e) = (rest, rw e (sym (append_assoc xs ys rest)))

IsPrefix-extend : (xs ys zs : List ResolvedRoute) → IsPrefix xs ys → IsPrefix xs (ys ++ zs)
IsPrefix-extend xs ys zs (rest, e) = (rest ++ zs, rw e (append_assoc xs rest zs))

length-repeat : (n : ℕ) (c : ResolvedRoute) → length (repeat n c) ≡ n
length-repeat zero c = refl
length-repeat (suc n) c = ap suc (length-repeat n c)

-- An entry that starts no attempt.
abbrev IsQuiet : Effect → Type 0
IsQuiet e = attempt_of e ≡ []

end_with-IsQuiet {κ} :
    {A : Type κ} {R : A → Type 0} (code : StreamErrorCode) → Always IsQuiet R (end_with code)
end_with-IsQuiet code = then-Always (emit-Always _ refl) finish-Always

relay-IsQuiet :
    (s : Stream ModelStreamEvent) (visible : Bool)
    → Always IsQuiet (λ _. Unit {0}) (relay s visible)
unfolding relay
relay-IsQuiet done visible =
    if-Always visible (λ _. finish-Always) (λ _. end_with-IsQuiet gateway_error)
relay-IsQuiet failed visible = then-Always (emit-Always _ refl) finish-Always
relay-IsQuiet (value e rest) visible =
    if-Always (is_visible_stream_event e)
      (λ _. then-Always (emit-Always _ refl) (relay-IsQuiet rest true))
      (λ _.
        if-Always (visible || not (is_retryable_stream_error e))
          (λ _. then-Always (emit-Always _ refl) finish-Always) (λ _. pure-Always _ tt))

module _ (signal : Signal) (policy : RetryPolicy) (attempt : Attempt) where
  back_off-IsQuiet :
      (round : ℕ) → Always IsQuiet (λ _. Unit {0}) (back_off signal policy attempt round)
  unfolding back_off
  back_off-IsQuiet zero = pure-Always _ tt
  back_off-IsQuiet (suc retry) =
      then-Always (emit-Always _ refl)
        (observe-bind-Always _ _ (end_with-IsQuiet aborted) (pure-Always _ tt))

  -- The attempts against one candidate, from `used` attempts on.
  abbrev ByCandidate : ResolvedRoute → ℕ → ℕ → List ResolvedRoute → Option CandidateExit → Type 0
  ByCandidate c left used xs (some (exhausted u last)) =
      (xs ≡ repeat left c) × (u ≡ used + left) × (u ≤ policy.max_total_attempts)
  ByCandidate c left used xs _ =
      IsPrefix xs (repeat left c) × (used + length xs ≤ policy.max_total_attempts)

  ByCandidate-suc :
      (c : ResolvedRoute) (left used : ℕ) (xs : List ResolvedRoute) (r : Option CandidateExit)
      → ByCandidate c left (used + 1) xs r
      → ByCandidate c (suc left) used (c ∷ xs) r
  ByCandidate-suc c left used xs none h = (IsPrefix-append (c ∷ []) xs _ h.0, omega arith)
  ByCandidate-suc c left used xs (some (exhausted u last)) h = (ap (◌∷◌ c) h.0, omega arith, h.2)
  ByCandidate-suc c left used xs (some (budget_spent last)) h =
      (IsPrefix-append (c ∷ []) xs _ h.0, omega arith)

  try_candidate-attempts :
      (c : ResolvedRoute) (left round used : ℕ) (last : Option StreamErrorCode)
      → used ≤ policy.max_total_attempts
      → Shows attempt_of
          (ByCandidate c left used)
          (try_candidate signal policy attempt c left round used last)
  unfolding try_candidate
  try_candidate-attempts c zero round used last h = pure-Shows _ _ (refl, omega arith, h)
  try_candidate-attempts c (suc left) round used last h =
      observe-bind-Shows _ _ _ (emit-finish-Shows _ _ ((repeat (suc left) c, refl), omega arith)) (
        if-Shows _ (leb policy.max_total_attempts used)
          (λ _. pure-Shows _ _ ((repeat (suc left) c, refl), omega arith))
          (λ more.
            quiet-then-Shows _ (back_off-IsQuiet round) ((repeat (suc left) c, refl), omega arith)
              (emit-then-Shows _ _ (
                quiet-bind-Shows _ (relay-IsQuiet (attempt used c) false)
                  ((repeat left c, refl), omega (arith, leb→lt _ _ more))
                  (λ code _.
                    Shows-mono
                      (try_candidate-attempts c left (round + 1) (used + 1) (some code)
                        (omega (arith, leb→lt _ _ more)))
                      (ByCandidate-suc c left used))))))

  -- The attempts against all candidates, from `used` attempts on.
  abbrev ByAll : List ResolvedRoute → ℕ → List ResolvedRoute → Option (Unit {0}) → Type 0
  ByAll cs used xs r =
      IsPrefix xs (schedule policy.max_attempts_per_provider cs)
      × (used + length xs ≤ policy.max_total_attempts)

  ByAll-cons :
      (c : ResolvedRoute) (cs : List ResolvedRoute) (used : ℕ) (xs ys : List ResolvedRoute)
      (r : Option (Unit {0}))
      → xs ≡ repeat policy.max_attempts_per_provider c
      → ByAll cs (used + policy.max_attempts_per_provider) ys r
      → ByAll (c ∷ cs) used (xs ++ ys) r
  ByAll-cons c cs used xs ys r e h = (
    rw e (IsPrefix-append _ ys _ h.0),
    omega
        (arith, length-append xs ys, ap length e, length-repeat policy.max_attempts_per_provider c),
  )

  after_candidate-attempts :
      (c : ResolvedRoute) (cs : List ResolvedRoute) (used : ℕ)
      (next : ℕ → Option StreamErrorCode → Gen Effect (Unit {0}))
      → ((u : ℕ) (last : Option StreamErrorCode)
          → u ≤ policy.max_total_attempts
          → Shows attempt_of (ByAll cs u) (next u last))
      → (xs : List ResolvedRoute) (exit : CandidateExit)
      → ByCandidate c policy.max_attempts_per_provider used xs (some exit)
      → Shows attempt_of
          (λ ys s. ByAll (c ∷ cs) used (xs ++ ys) s)
          (after_candidate signal policy attempt next exit)
  after_candidate-attempts c cs used next rest xs (budget_spent last) p =
      emit-finish-Shows _ _ (rw append-nil (IsPrefix-extend xs _ _ p.0, p.1))
  after_candidate-attempts c cs used next rest xs (exhausted u last) p =
      Shows-mono (rest u last p.2) (λ ys r q. ByAll-cons c cs used xs ys r p.0 (rw (← p.1) q))

  pub try_candidates-attempts :
      (cs : List ResolvedRoute) (used : ℕ) (last : Option StreamErrorCode)
      → used ≤ policy.max_total_attempts
      → Shows attempt_of (ByAll cs used) (try_candidates signal policy attempt cs used last)
  unfolding try_candidates
  try_candidates-attempts [] used last h = emit-finish-Shows _ _ (([], refl), omega arith)
  try_candidates-attempts (c ∷ cs) used last h =
      bind-Shows _ _ (try_candidate-attempts c policy.max_attempts_per_provider 0 used last h)
        (λ xs p. (IsPrefix-extend xs _ _ p.0, p.1))
        (after_candidate-attempts c cs used _ (try_candidates-attempts cs))

-- The attempts that a resolved route allows: a first part of the schedule in which each candidate is
-- tried `maxAttemptsPerProvider` times before the next, and at most `maxTotalAttempts`. Without
-- candidates there are none.
abbrev pub AreAllowed :
    RetryPolicy → Outcome RegistryError (List ResolvedRoute) → List ResolvedRoute → Type 0
AreAllowed policy (ok candidates) made =
    IsPrefix made (schedule policy.max_attempts_per_provider candidates)
    × (length made ≤ policy.max_total_attempts)
AreAllowed policy (err e) made = made ≡ []

AreAllowed-nil :
    (policy : RetryPolicy) (resolution : Outcome RegistryError (List ResolvedRoute))
    → AreAllowed policy resolution []
AreAllowed-nil policy (ok candidates) = ((schedule _ candidates, refl), omega arith)
AreAllowed-nil policy (err e) = refl

-- The attempts of a call, in their order, are a first part of the schedule in which each candidate is
-- tried `maxAttemptsPerProvider` times before the next one, and they are at most
-- `maxTotalAttempts`, whatever the attempts give and whenever the signal aborts. A call whose route
-- does not resolve makes none.
pub stream-attempts :
    (signal : Signal) (policy : RetryPolicy) (attempt : Attempt)
    (resolution : Outcome RegistryError (List ResolvedRoute)) (t : ℕ)
    → AreAllowed policy resolution
        (collect attempt_of (stream signal policy attempt resolution t).trace)
unfolding stream
stream-attempts signal policy attempt (ok candidates) t = shows.shown t
  where
    shows :
        Shows attempt_of
          (λ made _. AreAllowed policy (ok candidates) made)
          (stream signal policy attempt (ok candidates))
    shows =
        observe-bind-Shows _ _ _ (emit-finish-Shows _ _ (AreAllowed-nil policy (ok candidates))) (
          Shows-mono (try_candidates-attempts signal policy attempt candidates 0 none (omega arith))
            (λ xs r h. (h.0, omega arith)))
stream-attempts signal policy attempt (err e) t = shows.shown t
  where
    shows :
        Shows attempt_of
          (λ made _. AreAllowed policy (err e) made)
          (stream signal policy attempt (err e))
    shows = observe-bind-Shows _ _ _ (emit-finish-Shows _ _ refl) (emit-finish-Shows _ _ refl)
