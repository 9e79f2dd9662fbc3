-- ===== src/Runtime/Loop.antt =====
-- `run` of the loop that createAgentLoop returns, in packages/agent-runtime/src/agent-loop.ts.
pub mod Stages
pub mod Proper
pub mod Safety
pub mod Ending
pub mod Budget
use agent_routebench.Prelude.{
  ℕ, zero, suc, ◌+◌, ◌-◌, Bool, true, false, String, List, [], ◌∷◌, ◌++◌, map, length, includes,
  Option, none, some, leb, ltb, ◌==◌, if◌then◌else◌,
}
use agent_routebench.Contracts.Value.{
  Value, string, boolean, array, plain, end, field, from_list, property, as_array, is_nullish,
  undefined,
}
use agent_routebench.Contracts.Json.{clone_json_value}
use agent_routebench.Core
use agent_routebench.Core.{request_id_of}
use agent_routebench.Generator.{Gen, Signal, pure, finish, emit, observe, now, ◌>>=◌, ◌>>◌}
use agent_routebench.Runtime.Events.{
  aborted, tool_execution_unavailable, unknown_tool, too_many_tool_calls, max_turns_exceeded,
  incomplete_model_response, turn_started, loop_completed, error, tool_execution_started,
  tool_execution_completed, ToolExecutionRequest, Settled, resolved, rejected, Effect, requested,
  executed, threw,
}
use agent_routebench.Runtime.History.{
  collect_tool_names, collect_tool_call_ids, clone_messages, build_turn_request, list_or_empty,
}
use agent_routebench.Runtime.Calls.{ClassifiedToolResult, classify_tool_result}
use agent_routebench.Runtime.Options.{Executor, ResolvedAgentLoopOptions}
use agent_routebench.Runtime.Turn.{
  Turn, Exit, drained, gateway_failed, rejected_call, yield, fail_with, fail, consume,
}

abbrev settled_value : Settled → Value
settled_value (resolved v) = v
settled_value rejected = undefined

-- executeTool; `none` is its outcome "aborted".
unfoldable pub execute_tool : Signal → Executor → ToolExecutionRequest → Gen Effect (Option Value)
execute_tool signal execute call = do
  before ← observe signal
  elim before [
    | true ↦ pure none
    | false ↦ do
      t ← now
      emit (executed t call)
      during ← observe signal
      elim during [ true ↦ pure none | false ↦ pure (some (settled_value (execute t call))) ]
  ]

abbrev pub result_block : String → ClassifiedToolResult → Value
result_block id result =
    if result.is_error
    then plain (
        field "type" (string "tool_result") (
          field "toolCallId" (string id)
            (field "content" (string result.content) (field "isError" (boolean true) end))))
    else plain (
        field "type" (string "tool_result")
          (field "toolCallId" (string id) (field "content" (string result.content) end)))

abbrev pub call_block : ToolExecutionRequest → Value
call_block call = plain (
    field "type" (string "tool_call") (
      field "id" (string call.id)
        (field "name" (string call.name) (field "input" (clone_json_value call.input) end))))

-- `texts.join("")`
abbrev pub join : List String → String
join [] = ""
join (s ∷ ss) = Prim.Native.String.◌++◌ s (join ss)

-- The assistant message's blocks.
unfoldable pub assistant_blocks : Turn → List Value
assistant_blocks turn =
    (if join turn.texts == ""
      then []
      else plain (field "type" (string "text") (field "text" (string (join turn.texts)) end)) ∷ [])
    ++ map call_block turn.tool_calls

abbrev role_message : String → List Value → Value
role_message role blocks =
    plain (field "role" (string role) (field "content" (array (from_list blocks)) end))

module _ (signal : Signal) (options : ResolvedAgentLoopOptions) (id : String) where
  -- After the inner loop: what must hold before the turn's calls are looked at.
  unfoldable pub settle_turn : ℕ → Exit → Gen Effect Turn
  settle_turn i (gateway_failed code message retryable) =
      fail_with (error id i code message retryable)
  settle_turn i (rejected_call key) = fail id i key
  settle_turn i (drained turn) = do
    stop ← observe signal
    elim stop [
      | true ↦ fail id i aborted
      | false ↦ if turn.completed then pure turn else fail id i incomplete_model_response
    ]

  abbrev all_available : List String → List ToolExecutionRequest → Bool
  all_available available [] = true
  all_available available (call ∷ calls) =
      if includes call.name available then all_available available calls else false

  abbrev with_executor : ℕ → List String → Turn → Option Executor → Gen Effect Executor
  with_executor i available turn none = fail id i tool_execution_unavailable
  with_executor i available turn (some execute) =
      if all_available available turn.tool_calls
      then if leb options.max_turns (i + 1) then fail id i max_turns_exceeded else pure execute
      else fail id i unknown_tool

  -- The checks of the whole batch, before a single tool runs.
  abbrev check_calls : ℕ → List String → Turn → List ToolExecutionRequest → Gen Effect Executor
  check_calls i available turn [] = do yield (loop_completed id (i + 1)); finish
  check_calls i available turn (call ∷ calls) =
      if ltb options.max_tool_calls_per_turn (length (call ∷ calls))
      then fail id i too_many_tool_calls
      else with_executor i available turn options.tool_executor

  unfoldable pub check_batch : ℕ → List String → Turn → Gen Effect Executor
  check_batch i available turn = check_calls i available turn turn.tool_calls

  -- The rest of a round of the tool loop, from executeTool's outcome on.
  abbrev finish_tool : ℕ → ToolExecutionRequest → Option Value → Gen Effect Value
  finish_tool i call none = fail id i aborted
  finish_tool i call (some v) =
      let result = classify_tool_result v options.max_tool_result_bytes in
      do
        yield (tool_execution_completed id i call.id result.is_error)
        pure (result_block call.id result)

  unfoldable pub run_tool : ℕ → Executor → ToolExecutionRequest → Gen Effect Value
  unfolding execute_tool
  run_tool i execute call = do
    stop ← observe signal
    elim stop [
      | true ↦ fail id i aborted
      | false ↦ do
        yield (tool_execution_started id i call.id call.name)
        outcome ← execute_tool signal execute (record call { input = clone_json_value call.input })
        finish_tool i call outcome
    ]

  -- The tool loop: one call after the other.
  unfoldable pub run_tools : ℕ → Executor → List ToolExecutionRequest → Gen Effect (List Value)
  run_tools i execute [] = pure []
  run_tools i execute (call ∷ calls) = do
    block ← run_tool i execute call
    blocks ← run_tools i execute calls
    pure (block ∷ blocks)

  -- The body of the `for` loop after its own check of the signal, with the history and the ids for
  -- the next turn.
  unfoldable pub run_turn :
      Value
      → List String
      → ℕ
      → List String
      → List Value
      → Gen Effect (record { messages : List Value; seen : List String })
  unfolding settle_turn check_batch run_tools
  run_turn request available i seen messages = do
    yield (turn_started id i)
    emit (requested (build_turn_request request messages))
    exit ←
        consume signal id i (Core.run (options.gateway i) (build_turn_request request messages))
          (record { texts = []; tool_calls = []; seen = seen; completed = false })
    turn ← settle_turn i exit
    execute ← check_batch i available turn
    blocks ← run_tools i execute turn.tool_calls
    pure (record {
      messages =
          messages
          ++ role_message "assistant" (assistant_blocks turn) ∷ role_message "tool" blocks ∷ [];
      seen = turn.seen;
    })

  -- The `for` loop, with the number of rounds left. `max_turns` is at least 1.
  unfoldable pub turns :
      Value → List String → ℕ → ℕ → List String → List Value → Gen Effect (Unit {0})
  turns request available zero i seen messages = fail id (options.max_turns - 1) max_turns_exceeded
  turns request available (suc left) i seen messages = do
    stop ← observe signal
    elim stop [
      | true ↦ fail id i aborted
      | false ↦ do
        next ← run_turn request available i seen messages
        turns request available left (i + 1) next.seen next.messages
    ]

-- `run` from the second statement on, for a request whose properties can be read.
unfoldable pub conduct : Signal → ResolvedAgentLoopOptions → Value → Gen Effect (Unit {0})
conduct signal options request =
    turns signal options (request_id_of request) request
      (collect_tool_names (property "tools" request)) options.max_turns 0
      (collect_tool_call_ids (property "messages" request))
      (clone_messages (list_or_empty (as_array (property "messages" request))))

-- `run`. Reading `tools` of a request that is null or undefined throws.
unfoldable pub run : Signal → ResolvedAgentLoopOptions → Value → Gen Effect (Unit {0})
unfolding conduct
run signal options request = do
  stop ← observe signal
  elim stop [
    | true ↦ fail (request_id_of request) 0 aborted
    | false ↦ if is_nullish request then emit threw >> finish else conduct signal options request
  ]
