-- ===== src/Runtime/Loop/Ending.antt =====
-- How a run ends: with one outcome, after everything else.
use agent_routebench.Prelude.{
  ℕ, zero, suc, ◌+◌, refl, Bool, true, false, String, List, [], ◌∷◌, Option, none, some,
}
use agent_routebench.Contracts.Value.{Value}
use agent_routebench.Contracts.Events.{Stream, value, done, failed}
use agent_routebench.Core.{AgentEvent}
use agent_routebench.Generator.{Gen, Signal}
use agent_routebench.Generator.Rules.{
  Closes, bind-Closes, then-Closes, pure-Closes, emit-Closes, observe-Closes, now-Closes,
  last-Closes, observe-bind-Closes, if-Closes, Seals, bind-Seals, last-Seals, observe-bind-Seals,
  if-Seals,
}
use agent_routebench.Runtime.Events.{
  AgentLoopEvent, loop_completed, error, ToolExecutionRequest, Effect, yielded, threw,
}
use agent_routebench.Runtime.Options.{Executor, ResolvedAgentLoopOptions}
use agent_routebench.Runtime.Calls.{ToolCallCheck, accepted, refused}
use agent_routebench.Runtime.Turn.{
  Turn, Exit, drained, gateway_failed, rejected_call, interrupted, on_tool_call, on_event, consume,
  unless_interrupted,
}
use agent_routebench.Runtime.Loop.{
  execute_tool, settle_turn, with_executor, check_calls, finish_tool, run_tool, run_tools, run_turn,
  turns, conduct, run,
}

abbrev is_outcome : AgentLoopEvent → Bool
is_outcome (loop_completed _ _) = true
is_outcome (error _ _ _ _ _) = true
is_outcome _ = false

-- The outcomes of a run: the event `loop_completed`, an error event, or a TypeError.
abbrev pub is_final : Effect → Bool
is_final (yielded e) = is_outcome e
is_final threw = true
is_final _ = false

abbrev Ok {κ} : {A : Type κ} → Gen Effect A → Type 0
Ok m = Closes is_final m

interrupted-Closes : (signal : Signal) → Ok (interrupted signal)
unfolding interrupted
interrupted-Closes signal = observe-bind-Closes _ _ (pure-Closes _) (observe-Closes signal)

unless_interrupted-Closes {κ} :
    {A : Type κ} (signal : Signal) (id : String) (i : ℕ) {next : Gen Effect A}
    → Ok next
    → Ok (unless_interrupted signal id i next)
unless_interrupted-Closes signal id i h =
    bind-Closes (interrupted-Closes signal) (elim [ true ↦ last-Closes _ refl | false ↦ h ])

on_tool_call-Closes :
    (id : String) (i : ℕ) (turn : Turn) (next : Turn → Gen Effect Exit) (check : ToolCallCheck)
    → ((t : Turn) → Ok (next t))
    → Ok (on_tool_call id i turn next check)
on_tool_call-Closes id i turn next (refused key) h = pure-Closes _
on_tool_call-Closes id i turn next (accepted call) h = then-Closes (emit-Closes _ refl) (h _)

on_event-Closes :
    (id : String) (i : ℕ) (e : AgentEvent) (turn : Turn) (next : Turn → Gen Effect Exit)
    → ((t : Turn) → Ok (next t))
    → Ok (on_event id i e turn next)
unfolding on_event
on_event-Closes id i (AgentEvent.route_selected _ _ _) turn next h =
    then-Closes (emit-Closes _ refl) (h _)
on_event-Closes id i (AgentEvent.text_delta _ _) turn next h =
    then-Closes (emit-Closes _ refl) (h _)
on_event-Closes id i (AgentEvent.usage _ _ _) turn next h = then-Closes (emit-Closes _ refl) (h _)
on_event-Closes id i (AgentEvent.completed _) turn next h = then-Closes (emit-Closes _ refl) (h _)
on_event-Closes id i (AgentEvent.error _ _ _ _) turn next h = pure-Closes _
on_event-Closes id i (AgentEvent.tool_call _ _ _ _) turn next h =
    on_tool_call-Closes id i turn next _ h

consume-Closes :
    (signal : Signal) (id : String) (i : ℕ) (s : Stream AgentEvent) (turn : Turn)
    → Ok (consume signal id i s turn)
unfolding consume
consume-Closes signal id i done turn = unless_interrupted-Closes signal id i (pure-Closes _)
consume-Closes signal id i failed turn = unless_interrupted-Closes signal id i (last-Closes _ refl)
consume-Closes signal id i (value e rest) turn =
    unless_interrupted-Closes signal id i
      (on_event-Closes id i e turn _ (λ t. consume-Closes signal id i rest t))

execute_tool-Closes :
    (signal : Signal) (execute : Executor) (call : ToolExecutionRequest)
    → Ok (execute_tool signal execute call)
unfolding execute_tool
execute_tool-Closes signal execute call = observe-bind-Closes _ _ (pure-Closes _) (
    bind-Closes now-Closes (λ t.
      then-Closes (emit-Closes _ refl) (observe-bind-Closes _ _ (pure-Closes _) (pure-Closes _))))

module _ (signal : Signal) (options : ResolvedAgentLoopOptions) (id : String) where
  settle_turn-Closes : (i : ℕ) (exit : Exit) → Ok (settle_turn signal options id i exit)
  unfolding settle_turn
  settle_turn-Closes i (gateway_failed _ _ _) = last-Closes _ refl
  settle_turn-Closes i (rejected_call key) = last-Closes _ refl
  settle_turn-Closes i (drained turn) =
      observe-bind-Closes _ _ (last-Closes _ refl)
        (if-Closes turn.completed (pure-Closes _) (last-Closes _ refl))

  with_executor-Closes :
      (i : ℕ) (available : List String) (turn : Turn) (o : Option Executor)
      → Ok (with_executor signal options id i available turn o)
  with_executor-Closes i available turn none = last-Closes _ refl
  with_executor-Closes i available turn (some execute) =
      if-Closes _ (if-Closes _ (last-Closes _ refl) (pure-Closes _)) (last-Closes _ refl)

  check_calls-Closes :
      (i : ℕ) (available : List String) (turn : Turn) (calls : List ToolExecutionRequest)
      → Ok (check_calls signal options id i available turn calls)
  check_calls-Closes i available turn [] = last-Closes _ refl
  check_calls-Closes i available turn (call ∷ calls) =
      if-Closes _ (last-Closes _ refl) (with_executor-Closes i available turn options.tool_executor)

  finish_tool-Closes :
      (i : ℕ) (call : ToolExecutionRequest) (outcome : Option Value)
      → Ok (finish_tool signal options id i call outcome)
  finish_tool-Closes i call none = last-Closes _ refl
  finish_tool-Closes i call (some v) = then-Closes (emit-Closes _ refl) (pure-Closes _)

  run_tool-Closes :
      (i : ℕ) (execute : Executor) (call : ToolExecutionRequest)
      → Ok (run_tool signal options id i execute call)
  unfolding run_tool
  run_tool-Closes i execute call = observe-bind-Closes _ _ (last-Closes _ refl) (
      then-Closes (emit-Closes _ refl)
        (bind-Closes (execute_tool-Closes signal execute _) (finish_tool-Closes i call)))

  run_tools-Closes :
      (i : ℕ) (execute : Executor) (calls : List ToolExecutionRequest)
      → Ok (run_tools signal options id i execute calls)
  unfolding run_tools
  run_tools-Closes i execute [] = pure-Closes _
  run_tools-Closes i execute (call ∷ calls) =
      bind-Closes (run_tool-Closes i execute call)
        (λ _. bind-Closes (run_tools-Closes i execute calls) (λ _. pure-Closes _))

  module _ (request : Value) (available : List String) where
    run_turn-Closes :
        (i : ℕ) (seen : List String) (messages : List Value)
        → Ok (run_turn signal options id request available i seen messages)
    unfolding run_turn
    run_turn-Closes i seen messages = then-Closes (emit-Closes _ refl) (
        then-Closes (emit-Closes _ refl) (
          bind-Closes (consume-Closes signal id i _ _) λ exit.
            bind-Closes (settle_turn-Closes i exit) λ turn.
              bind-Closes (check_calls-Closes i available turn turn.tool_calls) λ execute.
                bind-Closes (run_tools-Closes i execute turn.tool_calls) λ _. pure-Closes _))

    turns-Seals :
        (left i : ℕ) (seen : List String) (messages : List Value)
        → Seals is_final (turns signal options id request available left i seen messages)
    unfolding turns
    turns-Seals zero i seen messages = last-Seals _ refl
    turns-Seals (suc left) i seen messages = observe-bind-Seals _ _ (last-Seals _ refl) (
        bind-Seals (run_turn-Closes i seen messages)
          (λ next. turns-Seals left (i + 1) next.seen next.messages))

conduct-Seals :
    (signal : Signal) (options : ResolvedAgentLoopOptions) (request : Value)
    → Seals is_final (conduct signal options request)
unfolding conduct
conduct-Seals signal options request = turns-Seals signal options _ request _ _ 0 _ _

-- Every run returns, for every signal, every finite stream of the gateway and every executor whose
-- calls settle unless an abort overtakes them, and its trace holds exactly one outcome (`loop_completed`, an error event or a TypeError), as its last entry.
pub run-Seals :
    (signal : Signal) (options : ResolvedAgentLoopOptions) (request : Value)
    → Seals is_final (run signal options request)
unfolding run
run-Seals signal options request =
    observe-bind-Seals _ _ (last-Seals _ refl)
      (if-Seals _ (last-Seals _ refl) (conduct-Seals signal options request))
