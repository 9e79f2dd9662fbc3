-- ===== src/Runtime/Loop/Proper.antt =====
-- What each effect of a run is: a proper event, a request built from the caller's, or a call of an
-- available tool while the signal is quiet.
use agent_routebench.Prelude.{
  ℕ, zero, suc, ◌+◌, ◌-◌, ◌<◌, ◌≡◌, refl, true, false, String, List, [], ◌∷◌, some, includes, arith,
}
use agent_routebench.Contracts.Value.{Value}
use agent_routebench.Generator.{Signal}
use agent_routebench.Generator.Rules.{
  Always, bind-Always, then-Always, pure-Always, emit-Always, observe-bind-Always,
  observe-bind-reads, now-bind-Keeps,
}
use agent_routebench.Runtime.Events.{
  aborted, max_turns_exceeded, ToolExecutionRequest, Effect, yielded, requested, executed, threw,
}
use agent_routebench.Runtime.Options.{Executor, ResolvedAgentLoopOptions}
use agent_routebench.Runtime.Turn.Copies.{BeginsWith, BeginsWith-append}
use agent_routebench.Runtime.Turn.Sent.{
  messages_of, IsTurnRequest, build_turn_request-IsTurnRequest,
}
use agent_routebench.Runtime.Turn.Proper.{
  IsProperEvent, yield-Always, fail-IsProper, consume-IsProper, run-core,
}
use agent_routebench.Runtime.Loop.Stages.{
  settle_turn-IsProper, check_batch-IsProper, finish_tool-IsProper,
}
use agent_routebench.Runtime.Loop.{
  execute_tool, all_available, run_tool, run_tools, run_turn, turns,
}

module _ (signal : Signal) (options : ResolvedAgentLoopOptions) (id : String) (request : Value)
    (available : List String) where
  -- An executed call names an available tool; an executor is there; and the latest reading of the
  -- signal, the one before reading number `t`, said that it had not aborted.
  abbrev pub IsProper : Effect → Type 0
  IsProper (yielded e) = IsProperEvent request id options.max_turns e
  IsProper (requested r) = IsTurnRequest request r
  IsProper (executed t call) =
      (includes call.name available ≡ true)
      × ((k : ℕ) × (t ≡ k + 1) × (signal k ≡ false))
      × ((execute : Executor) × (options.tool_executor ≡ some execute))
  IsProper threw = ⊥

  module _ (i : ℕ) (bound : i < options.max_turns) where
    module _ (execute : Executor) (installed : options.tool_executor ≡ some execute) where
      execute_tool-IsProper :
          (call : ToolExecutionRequest)
          → includes call.name available ≡ true
          → Always IsProper (λ _. Unit {0}) (execute_tool signal execute call)
      unfolding execute_tool
      execute_tool-IsProper call known =
          observe-bind-reads _ _ (λ k e. (pure-Always _ tt).holds (k + 1))
            (λ k e. now-bind-Keeps _ (k + 1) (
              (then-Always (emit-Always _ (known, (k, refl, e), (execute, installed)))
                  (observe-bind-Always _ _ (pure-Always _ tt) (pure-Always _ tt))).holds
                (k + 1)))

      run_tool-IsProper :
          (call : ToolExecutionRequest)
          → includes call.name available ≡ true
          → Always IsProper (λ _. Unit {0}) (run_tool signal options id i execute call)
      unfolding run_tool
      run_tool-IsProper call known =
          observe-bind-Always _ _ (fail-IsProper IsProper request _ _ i bound (λ e p. p) aborted) (
            then-Always (yield-Always _ (refl, bound)) (
              bind-Always (execute_tool-IsProper _ known) (λ o _.
                finish_tool-IsProper signal options id available request _ i bound (λ e p. p) call
                  o)))

      run_tools-IsProper :
          (calls : List ToolExecutionRequest)
          → all_available signal options id available calls ≡ true
          → Always IsProper (λ _. Unit {0}) (run_tools signal options id i execute calls)
      unfolding run_tools
      run_tools-IsProper [] h = pure-Always _ tt
      run_tools-IsProper (call ∷ calls) h =
          bind-Always (run_tool-IsProper call (ground arith))
            (λ _ _. bind-Always (run_tools-IsProper calls (ground arith)) (λ _ _. pure-Always _ tt))

    run_turn-IsProper :
        (seen : List String) (messages : List Value)
        → BeginsWith (messages_of request) messages
        → Always IsProper
            (λ next. (i + 1 < options.max_turns) × BeginsWith (messages_of request) next.messages)
            (run_turn signal options id request available i seen messages)
    unfolding run_turn
    run_turn-IsProper seen messages copied = then-Always (yield-Always _ (refl, bound)) (
        then-Always (emit-Always _ (build_turn_request-IsTurnRequest request messages copied)) (
          bind-Always
            (consume-IsProper _ request _ _ i bound (λ e p. p) signal _ _
              (run-core request (options.gateway i) _
                (build_turn_request-IsTurnRequest request messages copied)))
            (λ exit p.
              bind-Always
                (settle_turn-IsProper signal options id available request _ i bound (λ e p. p) exit
                  p)
                (λ turn _.
                  bind-Always
                    (check_batch-IsProper signal options id available request _ i bound (λ e p. p)
                      turn)
                    (λ execute c.
                      bind-Always (run_tools-IsProper execute c.2 turn.tool_calls c.0) (λ _ _.
                        pure-Always _
                          (c.1, BeginsWith-append (messages_of request) messages _ copied)))))))

  pub turns-IsProper :
      (left i : ℕ) (seen : List String) (messages : List Value)
      → 0 < options.max_turns
      → i + left ≡ options.max_turns
      → BeginsWith (messages_of request) messages
      → Always IsProper
          (λ _. Unit {0})
          (turns signal options id request available left i seen messages)
  unfolding turns
  turns-IsProper zero i seen messages some_turn e copied =
      fail-IsProper _ request _ _ (options.max_turns - 1) (omega arith) (λ e p. p)
        max_turns_exceeded
  turns-IsProper (suc left) i seen messages some_turn e copied =
      observe-bind-Always _ _ (fail-IsProper _ request _ _ i (omega arith) (λ e p. p) aborted) (
        bind-Always (run_turn-IsProper i (omega arith) seen messages copied) (λ next more.
          turns-IsProper left (i + 1) next.seen next.messages some_turn (omega arith) more.1))
