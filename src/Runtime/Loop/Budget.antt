-- ===== src/Runtime/Loop/Budget.antt =====
-- How much a run may cost: its requests to the gateway and its tool executions are bounded by the
-- limits of the options, whatever the model answers.
use agent_routebench.Prelude.{
  ℕ, zero, suc, ◌+◌, ◌*◌, ◌≤◌, ◌<◌, ◌≡◌, refl, Bool, true, false, String, List, [], ◌∷◌, Option,
  none, some, length, if◌then◌else◌, arith,
}
use agent_routebench.Contracts.Value.{Value, is_nullish}
use agent_routebench.Generator.{Signal, finish, emit, ◌>>◌}
use agent_routebench.Generator.Rules.{
  count, AtMost, AtMost-mono, bind-AtMost, then-AtMost, pure-AtMost, finish-AtMost, emit-AtMost,
  observe-bind-AtMost, now-AtMost, if-AtMost, quiet-AtMost,
}
use agent_routebench.Runtime.Events.{
  AgentLoopEvent, ToolExecutionRequest, Effect, yielded, requested, executed, threw,
}
use agent_routebench.Runtime.Options.{Executor, ResolvedAgentLoopOptions}
use agent_routebench.Runtime.Turn.Sent.{build_turn_request-any, without_messages}
use agent_routebench.Runtime.Turn.Proper.{run-core, consume-IsProper}
use agent_routebench.Runtime.Loop.Stages.{settle_turn-IsProper, check_batch-IsProper}
use agent_routebench.Runtime.Loop.{
  execute_tool, finish_tool, run_tool, run_tools, run_turn, turns, conduct, run,
}

abbrev pub is_request : Effect → Bool
is_request (requested _) = true
is_request _ = false

abbrev pub is_execution : Effect → Bool
is_execution (executed _ _) = true
is_execution _ = false

-- The turns before the last one, which may run tools.
abbrev pub batches : ℕ → ℕ
batches zero = 0
batches (suc n) = n

-- What is counted is never a yield.
abbrev IsQuiet : (Effect → Bool) → Type 0
IsQuiet p = (e : AgentLoopEvent) → p (yielded e) ≡ false

module _ (signal : Signal) (options : ResolvedAgentLoopOptions) (id : String) (p : Effect → Bool)
    (quiet : IsQuiet p) (cost : ℕ)
    (price : (t : ℕ) (call : ToolExecutionRequest)
      → (if p (executed t call) then 1 else 0) ≤ cost) where
  yield-free : (e : AgentLoopEvent) → AtMost p (λ _. Unit {0}) 0 (emit (yielded e))
  yield-free e = AtMost-mono (emit-AtMost (yielded e)) (rw (quiet e) (omega arith))

  fail-free {κ} :
      {A : Type κ} {R : A → Type 0} {n : ℕ} (e : AgentLoopEvent)
      → AtMost p R n (emit (yielded e) >> finish)
  fail-free e = then-AtMost 0 0 (yield-free e) finish-AtMost (omega arith)

  execute_tool-cost :
      (execute : Executor) (call : ToolExecutionRequest)
      → AtMost p (λ _. Unit {0}) cost (execute_tool signal execute call)
  unfolding execute_tool
  execute_tool-cost execute call = observe-bind-AtMost cost _ _ (pure-AtMost _ tt) (
      bind-AtMost 0 cost now-AtMost
        (λ t _.
          then-AtMost cost 0 (AtMost-mono (emit-AtMost _) (price t call))
            (observe-bind-AtMost 0 _ _ (pure-AtMost _ tt) (pure-AtMost _ tt)) (omega arith))
        (omega arith))

  finish_tool-free :
      (i : ℕ) (call : ToolExecutionRequest) (outcome : Option Value)
      → AtMost p (λ _. Unit {0}) 0 (finish_tool signal options id i call outcome)
  finish_tool-free i call none = fail-free _
  finish_tool-free i call (some v) = then-AtMost 0 0 (yield-free _) (pure-AtMost _ tt) (omega arith)

  run_tool-cost :
      (i : ℕ) (execute : Executor) (call : ToolExecutionRequest)
      → AtMost p (λ _. Unit {0}) cost (run_tool signal options id i execute call)
  unfolding run_tool
  run_tool-cost i execute call = observe-bind-AtMost cost _ _ (fail-free _) (
      then-AtMost 0 cost (yield-free _)
        (bind-AtMost cost 0 (execute_tool-cost execute _) (λ o _. finish_tool-free i call o)
          (omega arith))
        (omega arith))

  run_tools-cost :
      (i : ℕ) (execute : Executor) (calls : List ToolExecutionRequest)
      → AtMost p (λ _. Unit {0}) (length calls * cost) (run_tools signal options id i execute calls)
  unfolding run_tools
  run_tools-cost i execute [] = pure-AtMost _ tt
  run_tools-cost i execute (call ∷ calls) =
      bind-AtMost cost (length calls * cost) (run_tool-cost i execute call)
        (λ _ _.
          bind-AtMost (length calls * cost) 0 (run_tools-cost i execute calls)
            (λ _ _. pure-AtMost _ tt) (omega arith))
        (omega arith)

  module _ (request : Value) (available : List String) (fee : ℕ)
      (charge : (r : Value) → (if p (requested r) then 1 else 0) ≤ fee) where
    -- A turn that is not the last may run a whole batch; the last runs none.
    run_turn-cost :
        (i most : ℕ) (seen : List String) (messages : List Value)
        → i < options.max_turns
        → (i + 1 < options.max_turns → options.max_tool_calls_per_turn * cost ≤ most)
        → AtMost p
            (λ _. i + 1 < options.max_turns)
            (fee + most)
            (run_turn signal options id request available i seen messages)
    unfolding run_turn
    run_turn-cost i most seen messages bound batch =
        let bare = without_messages request in
        then-AtMost 0 (fee + most) (yield-free _)
          (then-AtMost fee most (AtMost-mono (emit-AtMost _) (charge _))
            (bind-AtMost 0 most
              (quiet-AtMost (
                consume-IsProper _ bare _ _ i bound (λ e _. quiet e) signal _ _
                  (run-core bare (options.gateway i) _ (build_turn_request-any request messages))))
              (λ exit ok.
                bind-AtMost 0 most
                  (quiet-AtMost (
                    settle_turn-IsProper signal options id available bare _ i bound (λ e _. quiet e)
                      exit ok))
                  (λ turn _.
                    bind-AtMost 0 most
                      (quiet-AtMost (
                        check_batch-IsProper signal options id available bare _ i bound
                          (λ e _. quiet e) turn))
                      (λ execute c.
                        bind-AtMost most 0
                          (AtMost-mono (run_tools-cost i execute turn.tool_calls)
                            (grind (arith, c.3, batch c.1)))
                          (λ _ _. pure-AtMost _ c.1) (omega arith))
                      (omega arith))
                  (omega arith))
              (omega arith))
            (omega arith))
          (omega arith)

    turns-cost :
        (left i : ℕ) (seen : List String) (messages : List Value)
        → i + left ≡ options.max_turns
        → AtMost p
            (λ _. Unit {0})
            (left * fee + batches left * (options.max_tool_calls_per_turn * cost))
            (turns signal options id request available left i seen messages)
    unfolding turns
    turns-cost zero i seen messages e = fail-free _
    turns-cost (suc zero) i seen messages e = observe-bind-AtMost _ _ _ (fail-free _) (
        bind-AtMost fee 0
          (AtMost-mono (run_turn-cost i 0 seen messages (omega arith) (λ h. absurd (omega arith)))
            (omega arith))
          (λ next h. absurd (omega arith)) (omega arith))
    turns-cost (suc (suc left)) i seen messages e = observe-bind-AtMost _ _ _ (fail-free _) (
        bind-AtMost (fee + options.max_tool_calls_per_turn * cost)
          (suc left * fee + left * (options.max_tool_calls_per_turn * cost))
          (run_turn-cost i _ seen messages (omega arith) (λ _. omega arith))
          (λ next h.
            AtMost-mono (turns-cost (suc left) (i + 1) next.seen next.messages (omega arith))
              (omega arith))
          (omega arith))

module _ (signal : Signal) (options : ResolvedAgentLoopOptions) (request : Value) where
  abbrev price_of : ℕ → ℕ → ℕ
  price_of fee cost =
      options.max_turns * fee + batches options.max_turns * (options.max_tool_calls_per_turn * cost)

  module _ (p : Effect → Bool) (cost fee : ℕ) (quiet : IsQuiet p) (calm : p threw ≡ false)
      (price : (t : ℕ) (call : ToolExecutionRequest)
        → (if p (executed t call) then 1 else 0) ≤ cost)
      (charge : (r : Value) → (if p (requested r) then 1 else 0) ≤ fee) where
    conduct-cost : AtMost p (λ _. Unit {0}) (price_of fee cost) (conduct signal options request)
    unfolding conduct
    conduct-cost =
        turns-cost signal options _ p quiet cost price request _ fee charge options.max_turns 0 _ _
          (omega arith)

    run-cost : AtMost p (λ _. Unit {0}) (price_of fee cost) (run signal options request)
    unfolding run
    run-cost = observe-bind-AtMost _ _ _ (fail-free signal options "" p quiet cost price _) (
        if-AtMost _ (is_nullish request)
          (λ _.
            then-AtMost 0 0 (AtMost-mono (emit-AtMost threw) (rw calm (omega arith))) finish-AtMost
              (omega arith))
          (λ _. conduct-cost))

  -- A run sends the gateway at most `maxTurns` requests, and calls the executor in all at most
  -- `maxToolCallsPerTurn` times the number of turns before the last one allowed.
  pub run-budget :
      (t : ℕ)
      → (count is_request (run signal options request t).trace ≤ options.max_turns)
        × (count is_execution (run signal options request t).trace
            ≤ batches options.max_turns * options.max_tool_calls_per_turn)
  run-budget t = (omega (arith, requests.few t), omega (arith, executions.few t))
    where
      requests : AtMost is_request (λ _. Unit {0}) (price_of 1 0) (run signal options request)
      requests = run-cost is_request 0 1 (λ _. refl) refl (λ t call. omega arith) (λ r. omega arith)

      executions : AtMost is_execution (λ _. Unit {0}) (price_of 0 1) (run signal options request)
      executions =
          run-cost is_execution 1 0 (λ _. refl) refl (λ t call. omega arith) (λ r. omega arith)
