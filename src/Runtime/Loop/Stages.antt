-- ===== src/Runtime/Loop/Stages.antt =====
-- The parts of a turn around the model's stream, as far as they yield events.
use agent_routebench.Prelude.{
  ℕ, ◌+◌, ◌≤◌, ◌<◌, ◌≡◌, refl, true, String, List, [], ◌∷◌, Option, none, some, length, ltb, leb→lt,
  ltb→le, arith,
}
use agent_routebench.Contracts.Value.{Value}
use agent_routebench.Generator.{Signal}
use agent_routebench.Generator.Rules.{
  Always, then-Always, pure-Always, observe-bind-Always, if-Always,
}
use agent_routebench.Runtime.Events.{
  AgentLoopEvent, aborted, tool_execution_unavailable, unknown_tool, too_many_tool_calls,
  max_turns_exceeded, incomplete_model_response, ToolExecutionRequest, Effect, yielded,
}
use agent_routebench.Runtime.Options.{Executor, ResolvedAgentLoopOptions}
use agent_routebench.Runtime.Turn.{Turn, Exit, drained, gateway_failed, rejected_call}
use agent_routebench.Runtime.Turn.Proper.{
  IsProperEvent, IsProperExit, fail_with-Always, yield-Always, fail-IsProper,
}
use agent_routebench.Runtime.Loop.{
  settle_turn, all_available, with_executor, check_calls, check_batch, finish_tool,
}

-- What the checks of a batch have settled: its calls are few and all available, another turn is left,
-- and there is an executor.
abbrev pub IsChecked :
    Signal → ResolvedAgentLoopOptions → String → List String → ℕ → Turn → Executor → Type 0
IsChecked signal options id available i turn execute =
    (all_available signal options id available turn.tool_calls ≡ true)
    × (i + 1 < options.max_turns)
    × (options.tool_executor ≡ some execute)
    × (length turn.tool_calls ≤ options.max_tool_calls_per_turn)

-- The parts of a turn that only yield events, for any statement `P` that proper events satisfy.
module _ (signal : Signal) (options : ResolvedAgentLoopOptions) (id : String)
    (available : List String) (request : Value) (P : Effect → Type 0) (i : ℕ)
    (bound : i < options.max_turns)
    (yields : (e : AgentLoopEvent)
      → IsProperEvent request id options.max_turns e
      → P (yielded e)) where
  pub settle_turn-IsProper :
      (exit : Exit)
      → IsProperExit P request id options.max_turns i bound yields exit
      → Always P (λ _. Unit {0}) (settle_turn signal options id i exit)
  unfolding settle_turn
  settle_turn-IsProper (gateway_failed _ _ _) p = fail_with-Always _ (yields _ p)
  settle_turn-IsProper (rejected_call key) p = fail-IsProper _ request _ _ i bound yields key
  settle_turn-IsProper (drained turn) p =
      observe-bind-Always _ _ (fail-IsProper _ request _ _ i bound yields aborted) (
        if-Always turn.completed (λ _. pure-Always _ tt)
          (λ _. fail-IsProper _ request _ _ i bound yields incomplete_model_response))

  with_executor-IsProper :
      (turn : Turn) (o : Option Executor)
      → options.tool_executor ≡ o
      → length turn.tool_calls ≤ options.max_tool_calls_per_turn
      → Always P
          (IsChecked signal options id available i turn)
          (with_executor signal options id i available turn o)
  with_executor-IsProper turn none e few =
      fail-IsProper _ request _ _ i bound yields tool_execution_unavailable
  with_executor-IsProper turn (some execute) e few =
      if-Always _
        (λ all.
          if-Always _ (λ _. fail-IsProper _ request _ _ i bound yields max_turns_exceeded)
            (λ left. pure-Always _ (all, leb→lt _ _ left, e, few)))
        (λ _. fail-IsProper _ request _ _ i bound yields unknown_tool)

  check_calls-IsProper :
      (turn : Turn) (calls : List ToolExecutionRequest)
      → turn.tool_calls ≡ calls
      → Always P
          (IsChecked signal options id available i turn)
          (check_calls signal options id i available turn calls)
  check_calls-IsProper turn [] e = fail_with-Always _ (yields _ (refl, omega arith))
  check_calls-IsProper turn (call ∷ calls) e =
      if-Always (ltb options.max_tool_calls_per_turn (length (call ∷ calls)))
        (λ _. fail-IsProper _ request _ _ i bound yields too_many_tool_calls)
        (λ few. with_executor-IsProper turn options.tool_executor refl (rw e (ltb→le _ _ few)))

  pub check_batch-IsProper :
      (turn : Turn)
      → Always P
          (IsChecked signal options id available i turn)
          (check_batch signal options id i available turn)
  unfolding check_batch
  check_batch-IsProper turn = check_calls-IsProper turn turn.tool_calls refl

  pub finish_tool-IsProper :
      (call : ToolExecutionRequest) (outcome : Option Value)
      → Always P (λ _. Unit {0}) (finish_tool signal options id i call outcome)
  finish_tool-IsProper call none = fail-IsProper _ request _ _ i bound yields aborted
  finish_tool-IsProper call (some v) =
      then-Always (yield-Always _ (yields _ (refl, bound))) (pure-Always _ tt)
