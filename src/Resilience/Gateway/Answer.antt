-- ===== src/Resilience/Gateway/Answer.antt =====
-- What the consumer of the resilient gateway gets: the answer of the first attempt that is no
-- retryable failure, over one flat schedule of attempts.
use agent_routebench.Prelude.{
  ℕ, zero, suc, ◌+◌, ◌≡◌, refl, true, false, List, [], ◌∷◌, ◌++◌, Option, none, some, leb, arith,
  if◌then◌else◌, Outcome, ok, err, Bool-cases, inl, inr,
}
use agent_routebench.Contracts.Events.{ModelStreamEvent, Stream, value, done, failed}
use agent_routebench.Generator.{Gen, Signal, ◌>>=◌, ◌>>◌}
use agent_routebench.Generator.Rules.{collect}
use agent_routebench.Registry.Types.{ResolvedRoute}
use agent_routebench.Resilience.Errors.{StreamErrorCode, gateway_error, stream_error_event}
use agent_routebench.Resilience.Policy.{
  RetryPolicy, is_visible_stream_event, is_retryable_stream_error,
}
use agent_routebench.Resilience.Gateway.{
  Effect, yielded, threw, Attempt, retryable_code, relay, CandidateExit, exhausted, budget_spent,
  or_gateway_error, back_off, try_candidate, try_candidates, after_candidate, stream,
}
use agent_routebench.Resilience.Gateway.Schedule.{repeat, schedule}
use agent_routebench.Resilience.Gateway.Courses.{
  visible_of, Course, ended, going, Takes, then-Takes, end-Takes, pure-Takes, hidden-Takes,
  shown-Takes, finish-Takes, end_with-Takes, observe-Takes,
}

-- The events of an attempt up to its first error event, and the exception that it ends with.
abbrev pub transcript : Stream ModelStreamEvent → List Effect
transcript done = []
transcript failed = threw ∷ []
transcript (value e rest) =
    let others = transcript rest in yielded e ∷ (if is_visible_stream_event e then others else [])

-- An attempt that begins with a retryable error fails with its code; any other attempt is the
-- answer, and one without any event is a gateway error.
abbrev pub reply : Stream ModelStreamEvent → Outcome StreamErrorCode (List Effect)
reply done = ok (yielded (stream_error_event gateway_error) ∷ [])
reply failed = ok (threw ∷ [])
reply (value e rest) =
    if is_retryable_stream_error e then err (retryable_code e) else ok (transcript (value e rest))

-- The first answer among the attempts of the list, of which at most `room` are made, or the error
-- of the last one.
abbrev pub first_answer :
    Attempt → List ResolvedRoute → ℕ → ℕ → Option StreamErrorCode → List Effect
first_answer attempt [] room used last = yielded (stream_error_event (or_gateway_error last)) ∷ []
first_answer attempt (c ∷ cs) zero used last =
    yielded (stream_error_event (or_gateway_error last)) ∷ []
first_answer attempt (c ∷ cs) (suc room) used last = elim (reply (attempt used c)) [
  | ok es ↦ es
  | err code ↦ first_answer attempt cs room (used + 1) (some code)
]

abbrev course_of : Outcome StreamErrorCode (List Effect) → Course StreamErrorCode
course_of (ok es) = ended es
course_of (err code) = going code

-- The rest of an attempt behind a visible event.
visible_relay-Takes : (s : Stream ModelStreamEvent) → Takes (relay s true) (ended (transcript s))
unfolding relay
visible_relay-Takes done = finish-Takes
visible_relay-Takes failed = shown-Takes _ refl finish-Takes
visible_relay-Takes (value e rest) = elim (Bool-cases (is_visible_stream_event e)) [
  | inl seen ↦ rw seen (shown-Takes _ refl (visible_relay-Takes rest))
  | inr unseen ↦ rw unseen (shown-Takes _ refl finish-Takes)
]

visible-final :
    (e : ModelStreamEvent) → is_visible_stream_event e ≡ true → is_retryable_stream_error e ≡ false
unfolding is_retryable_stream_error
visible-final e h = ground arith

relay-Takes : (s : Stream ModelStreamEvent) → Takes (relay s false) (course_of (reply s))
unfolding relay
relay-Takes done = end_with-Takes gateway_error
relay-Takes failed = shown-Takes _ refl finish-Takes
relay-Takes (value e rest) = elim (Bool-cases (is_visible_stream_event e)) [
  | inl seen ↦ rw (seen, visible-final e seen) (shown-Takes _ refl (visible_relay-Takes rest))
  | inr unseen ↦ elim (Bool-cases (is_retryable_stream_error e)) [
    | inl again ↦ rw (unseen, again) (pure-Takes _)
    | inr last ↦ rw (unseen, last) (shown-Takes _ refl finish-Takes)
  ]
]

module _ (signal : Signal) (policy : RetryPolicy) (attempt : Attempt)
    (quiet : (t : ℕ) → signal t ≡ false) where
  -- The course of the attempts at one candidate.
  abbrev walk : ResolvedRoute → ℕ → ℕ → ℕ → Option StreamErrorCode → Course CandidateExit
  walk c zero room used last = going (exhausted used last)
  walk c (suc left) zero used last = going (budget_spent last)
  walk c (suc left) (suc room) used last = elim (reply (attempt used c)) [
    | ok es ↦ ended es
    | err code ↦ walk c left room (used + 1) (some code)
  ]

  back_off-Takes : (round : ℕ) → Takes (back_off signal policy attempt round) (going tt)
  unfolding back_off ◌>>◌
  back_off-Takes zero = pure-Takes tt
  back_off-Takes (suc round) =
      then-Takes _ (hidden-Takes _ refl) (then-Takes _ (observe-Takes signal quiet) (pure-Takes tt))

  after_relay-Takes :
      (s : Stream ModelStreamEvent) (next : StreamErrorCode → Gen Effect CandidateExit)
      (following : StreamErrorCode → Course CandidateExit)
      → ((code : StreamErrorCode) → Takes (next code) (following code))
      → Takes
          (relay s false >>= next)
          (elim (reply s) [ ok es ↦ ended es | err code ↦ following code ])
  after_relay-Takes s next following h = go (reply s) (relay-Takes s)
    where
      go :
          (r : Outcome StreamErrorCode (List Effect))
          → Takes (relay s false) (course_of r)
          → Takes (relay s false >>= next) (elim r [ ok es ↦ ended es | err code ↦ following code ])
      go (ok es) k = end-Takes next k
      go (err code) k = then-Takes next k (h code)

  try_candidate-Takes :
      (c : ResolvedRoute) (left round room used : ℕ) (last : Option StreamErrorCode)
      → used + room ≡ policy.max_total_attempts
      → Takes
          (try_candidate signal policy attempt c left round used last)
          (walk c left room used last)
  unfolding try_candidate ◌>>◌
  try_candidate-Takes c zero round room used last e = pure-Takes _
  try_candidate-Takes c (suc left) round zero used last e =
      let spent : leb policy.max_total_attempts used ≡ true = ground arith in
      then-Takes _ (observe-Takes signal quiet) (rw spent (pure-Takes _))
  try_candidate-Takes c (suc left) round (suc room) used last e =
      let more : leb policy.max_total_attempts used ≡ false = ground arith in
      then-Takes _ (observe-Takes signal quiet) (
        rw more (
          then-Takes _ (back_off-Takes round) (
            then-Takes _ (hidden-Takes _ refl) (
              after_relay-Takes (attempt used c) _ _ (λ code.
                try_candidate-Takes c left (round + 1) room (used + 1) (some code)
                  (omega arith))))))

  -- What follows a candidate.
  module _ (next : ℕ → Option StreamErrorCode → Gen Effect (Unit {0})) (cs : List ResolvedRoute)
      (rest : (room used : ℕ) (last : Option StreamErrorCode)
        → used + room ≡ policy.max_total_attempts
        → Takes (next used last) (ended (first_answer attempt cs room used last))) where
    after_walk-Takes :
        (c : ResolvedRoute) (left room used : ℕ) (last : Option StreamErrorCode)
        {m : Gen Effect CandidateExit}
        → used + room ≡ policy.max_total_attempts
        → Takes m (walk c left room used last)
        → Takes
            (m >>= after_candidate signal policy attempt next)
            (ended (first_answer attempt (repeat left c ++ cs) room used last))
    after_walk-Takes c zero room used last e h = then-Takes _ h (rest room used last e)
    after_walk-Takes c (suc left) zero used last e h = then-Takes _ h (end_with-Takes _)
    after_walk-Takes c (suc left) (suc room) used last {m} e h =
        go (reply (attempt used c)) h
          (λ code k. after_walk-Takes c left room (used + 1) (some code) (omega arith) k)
      where
        go :
            (r : Outcome StreamErrorCode (List Effect))
            → Takes m
                (elim r [ ok es ↦ ended es | err code ↦ walk c left room (used + 1) (some code) ])
            → ((code : StreamErrorCode)
                → Takes m (walk c left room (used + 1) (some code))
                → Takes (m >>= after_candidate signal policy attempt next) (
                    ended (first_answer attempt (repeat left c ++ cs) room (used + 1) (some code))))
            → Takes (m >>= after_candidate signal policy attempt next) (
                ended (elim r [
                  | ok es ↦ es
                  | err code ↦
                      first_answer attempt (repeat left c ++ cs) room (used + 1) (some code)
                ]))
        go (ok es) k more = end-Takes _ k
        go (err code) k more = more code k

  try_candidates-Takes :
      (cs : List ResolvedRoute) (room used : ℕ) (last : Option StreamErrorCode)
      → used + room ≡ policy.max_total_attempts
      → Takes (try_candidates signal policy attempt cs used last) (
          ended
            (first_answer attempt (schedule policy.max_attempts_per_provider cs) room used last))
  unfolding try_candidates
  try_candidates-Takes [] room used last e = end_with-Takes _
  try_candidates-Takes (c ∷ cs) room used last e =
      after_walk-Takes (try_candidates signal policy attempt cs)
        (schedule policy.max_attempts_per_provider cs)
        (λ room' used' last' e'. try_candidates-Takes cs room' used' last' e') c
        policy.max_attempts_per_provider room used last e
        (try_candidate-Takes c policy.max_attempts_per_provider 0 room used last e)

-- What the consumer gets, if the signal stays quiet: the answer of the first of the scheduled
-- attempts, at most `maxTotalAttempts` of them, that does not begin with a retryable error, or
-- else the error of the last one.
pub stream-answer :
    (signal : Signal) (policy : RetryPolicy) (attempt : Attempt) (candidates : List ResolvedRoute)
    (t : ℕ)
    → ((k : ℕ) → signal k ≡ false)
    → collect visible_of (stream signal policy attempt (ok candidates) t).trace
      ≡ first_answer attempt
          (schedule policy.max_attempts_per_provider candidates)
          policy.max_total_attempts
          0
          none
unfolding stream
stream-answer signal policy attempt candidates t quiet = (all.taken t).0
  where
    all : Takes (stream signal policy attempt (ok candidates)) (
        ended (
          first_answer attempt
            (schedule policy.max_attempts_per_provider candidates)
            policy.max_total_attempts
            0
            none))
    all = then-Takes _ (observe-Takes signal quiet) (
        try_candidates-Takes signal policy attempt quiet candidates policy.max_total_attempts 0 none
          (omega arith))
