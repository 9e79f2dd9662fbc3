-- ===== src/Scenarios/Conversation.antt =====
-- A conversation of two turns with one tool, a deep copy, and a gated tool call.
use agent_routebench.Prelude.{
  zero, ◌≤◌, ◌≡◌, refl, ◌⊎◌, false, String, List, [], ◌∷◌, some, ◌*◌, ok,
}
use agent_routebench.Contracts.Value.{
  natural, Value, null, callable, boolean, number, string, array, plain, nil, item, end, field,
  property,
}
use agent_routebench.Contracts.Json.{clone_json_value, is_json_value}
use agent_routebench.Contracts.Json.Cloning.{clone_json_value-eq, clone_json_value_proto}
use agent_routebench.Contracts.Events.{ModelStreamEvent, values}
use agent_routebench.Generator.{pure, finish, emit, observe, now, ◌>>=◌, ◌>>◌}
use agent_routebench.Generator.Rules.{Always, Seals, count, collect}
use agent_routebench.Core
use agent_routebench.Core.{request_id_of, map_gateway_stream}
use agent_routebench.Core.Safety.{IsRefused, Ends, IsSafeEvent, run-safe}
use agent_routebench.Runtime.Events.{
  ToolExecutionRequest, AgentLoopEvent, turn_started, text_delta, tool_call, completed,
  tool_execution_started, tool_execution_completed, loop_completed, route_selected, resolved,
  Effect, yielded,
}
use agent_routebench.Runtime.Options.{
  Gateway, Executor, ResolvedAgentLoopOptions, resolve_agent_loop_options,
}
use agent_routebench.Runtime.History.{
  collect_tool_names, collect_tool_call_ids, build_turn_request, clone_messages,
  clone_tool_definitions,
}
use agent_routebench.Runtime.Calls.{read_tool_call, classify_tool_result}
use agent_routebench.Runtime.Turn.{consume, on_event, interrupted}
use agent_routebench.Contracts.Validation.{
  validate_agent_messages, check_messages, check_message, check_blocks, check_block,
  validate_agent_tool_definitions, check_tools, check_tool, has_forbidden_key,
  validate_model_request,
}
use agent_routebench.Runtime.Loop
use agent_routebench.Runtime.Loop.Proper.{IsProper}
use agent_routebench.Runtime.Loop.Ending.{is_final, run-Seals}
use agent_routebench.Runtime.Loop.Budget.{is_request, is_execution, batches, run-budget}
use agent_routebench.Runtime.Loop.Safety.{
  IsWithin, resolve_agent_loop_options-IsWithin, run-IsProper,
}
use agent_routebench.Runtime.Governed
use agent_routebench.Runtime.Governed.{GovernedToolExecutor}
use agent_routebench.Runtime.Governed.Gate.{IsGoverned, execute-IsGoverned}
use agent_routebench.Scenarios.{quiet}

abbrev text_block : String → Value
text_block s = plain (field "type" (string "text") (field "text" (string s) end))

abbrev clock_tool : Value
clock_tool = plain (
    field "name" (string "clock")
      (field "description" (string "Tells the time.") (field "inputSchema" (plain end) end)))

abbrev question : Value
question = plain (
    field "requestId" (string "r1") (
      field "maxTokens" (number (natural 64)) (
        field "routeId" (string "main") (
          field "model" (string "m") (
            field "messages"
              (array (
                item
                  (plain (
                    field "role" (string "user")
                      (field "content" (array (item (text_block "What time is it?") nil)) end)))
                  nil))
              (field "tools" (array (item clock_tool nil)) end))))))

-- The model calls the tool in its first turn, and answers in its second.
abbrev model : Gateway
model zero request = values (
    ModelStreamEvent.tool_call (string "c1") (string "clock") (plain end)
    ∷ ModelStreamEvent.completed
    ∷ [])
model _ request = values (ModelStreamEvent.text_delta "Noon." ∷ ModelStreamEvent.completed ∷ [])

abbrev clock : Executor
clock t call =
    resolved (plain (field "content" (string "12:00") (field "isError" (boolean false) end)))

abbrev loop_input : Value
loop_input = plain (
    field "gateway" (plain (field "stream" callable end)) (
      field "toolExecutor" (plain (field "execute" callable end))
        (field "maxTurns" (number (natural 3)) end)))

abbrev loop_options : ResolvedAgentLoopOptions
loop_options = record {
  gateway = model;
  tool_executor = some clock;
  max_turns = 3;
  max_tool_calls_per_turn = 16;
  max_tool_result_bytes = 65536;
}

resolve_loop_input : resolve_agent_loop_options loop_input model clock ≡ ok loop_options
unfolding resolve_agent_loop_options
resolve_loop_input = refl

-- The whole conversation, effect by effect.
abbrev events_of : Effect → List AgentLoopEvent
events_of (yielded e) = e ∷ []
events_of _ = []

conversation :
    collect events_of (Loop.run quiet loop_options question 0).trace
    ≡ turn_started "r1" 0
      ∷ route_selected "r1" 0 "main" "m"
      ∷ tool_call "r1" 0 "c1" "clock" (plain end)
      ∷ completed "r1" 0
      ∷ tool_execution_started "r1" 0 "c1" "clock"
      ∷ tool_execution_completed "r1" 0 "c1" false
      ∷ turn_started "r1" 1
      ∷ route_selected "r1" 1 "main" "m"
      ∷ text_delta "r1" 1 "Noon."
      ∷ completed "r1" 1
      ∷ loop_completed "r1" 2
      ∷ []
unfolding validate_agent_messages check_messages check_message check_blocks check_block
    validate_agent_tool_definitions check_tools check_tool Loop.run Loop.conduct Loop.turns
    Loop.run_turn Loop.run_tools Loop.run_tool Loop.check_batch Loop.settle_turn
    Loop.assistant_blocks consume on_event interrupted Core.run build_turn_request clone_messages
    clone_tool_definitions collect_tool_names collect_tool_call_ids read_tool_call
    classify_tool_result clone_json_value is_json_value has_forbidden_key validate_model_request
    map_gateway_stream pure finish emit observe now ◌>>=◌ ◌>>◌
conversation = refl

options_example : IsWithin loop_options
options_example =
    resolve_agent_loop_options-IsWithin loop_input model clock loop_options resolve_loop_input

effects_example :
    Always
      (IsProper quiet loop_options
        (request_id_of question)
        question
        (collect_tool_names (property "tools" question)))
      (λ _. Unit {0})
      (Loop.run quiet loop_options question)
effects_example =
    run-IsProper quiet loop_input model clock loop_options question resolve_loop_input refl

outcome_example : Seals is_final (Loop.run quiet loop_options question)
outcome_example = run-Seals quiet loop_options question

budget_example :
    (count is_request (Loop.run quiet loop_options question 0).trace ≤ 3)
    × (count is_execution (Loop.run quiet loop_options question 0).trace ≤ batches 3 * 16)
budget_example = run-budget quiet loop_options question 0

core_example :
    IsRefused question (Core.run (model 0) question)
    ⊎ Ends (IsSafeEvent "r1") (Core.run (model 0) question)
core_example = run-safe (model 0) question

clone_example : clone_json_value clock_tool ≡ clock_tool
clone_example = clone_json_value-eq clock_tool (refl, tt, (refl, tt, (refl, tt, tt)))

proto_example :
    is_json_value (clone_json_value (plain (field "__proto__" (plain (field "a" null end)) end)))
    ≡ false
unfolding is_json_value
proto_example =
    clone_json_value_proto (field "__proto__" (plain (field "a" null end)) end) refl refl

-- A policy that asks, and a handler that approves.
abbrev gated : GovernedToolExecutor
gated = record {
  run = clock 0;
  policy = some (λ call. resolved (string "ask"));
  approval = some (λ call. resolved (string "approved"));
}

abbrev clock_call : ToolExecutionRequest
clock_call = record { id = "c1"; name = "clock"; input = plain end }

gate_example : IsGoverned quiet gated clock_call 0 (Governed.execute quiet gated clock_call 0)
gate_example = execute-IsGoverned quiet gated clock_call 0
