-- ===== src/Runtime/Loop/Safety.antt =====
-- The effects of a whole run of packages/agent-runtime/src/agent-loop.ts under resolved options.
use agent_routebench.Prelude.{
  ℕ, ◌≤◌, ◌<◌, ◌≡◌, ◌||◌, false, ok, arith, AfterOk, AfterOk-ok, ensure-AfterOk, ok-AfterOk,
  chain-AfterOk,
}
use agent_routebench.Contracts.Value.{
  Value, undefined, number, natural, property, is_nullish, is_plain_object, is_undefined,
  has_callable_method, max_safe_integer,
}
use agent_routebench.Core.{request_id_of}
use agent_routebench.Generator.{Signal}
use agent_routebench.Generator.Rules.{Always, observe-bind-Always}
use agent_routebench.Runtime.Events.{aborted, Effect}
use agent_routebench.Runtime.Options.{
  Gateway, Executor, ResolvedAgentLoopOptions, resolve_limit, resolve_agent_loop_options,
  default_max_turns, default_max_tool_calls_per_turn, default_max_tool_result_bytes,
}
use agent_routebench.Runtime.History.{collect_tool_names}
use agent_routebench.Runtime.Turn.Copies.{clone-BeginsWith}
use agent_routebench.Runtime.Turn.Sent.{messages_of}
use agent_routebench.Runtime.Turn.Proper.{fail-IsProper}
use agent_routebench.Runtime.Loop.Proper.{IsProper, turns-IsProper}
use agent_routebench.Runtime.Loop.{conduct, run}

abbrev pub IsLimit : ℕ → Type 0
IsLimit n = (1 ≤ n) × (n ≤ max_safe_integer)

resolve_limit-IsLimit :
    (v : Value) (fallback : ℕ) → IsLimit fallback → AfterOk IsLimit (resolve_limit v fallback)
unfolding resolve_limit
resolve_limit-IsLimit undefined fallback h = ok-AfterOk _ h
resolve_limit-IsLimit (number (natural n)) fallback h = record { holds = ground arith }
resolve_limit-IsLimit _ fallback h = record { holds = tt }

abbrev pub IsWithin : ResolvedAgentLoopOptions → Type 0
IsWithin o =
    IsLimit o.max_turns × IsLimit o.max_tool_calls_per_turn × IsLimit o.max_tool_result_bytes

resolve-IsWithin :
    (v : Value) (gateway : Gateway) (execute : Executor)
    → AfterOk IsWithin (resolve_agent_loop_options v gateway execute)
unfolding resolve_agent_loop_options
resolve-IsWithin v gateway execute = ensure-AfterOk (is_plain_object v) _ _ (λ _.
    ensure-AfterOk (has_callable_method (property "gateway" v) "stream") _ _ (λ _.
      ensure-AfterOk
        (is_undefined (property "toolExecutor" v)
          || has_callable_method (property "toolExecutor" v) "execute")
        _ _
        (λ _.
          chain-AfterOk
            (resolve_limit-IsLimit (property "maxTurns" v) default_max_turns
              (omega arith, omega arith))
            (λ a ha.
              chain-AfterOk
                (resolve_limit-IsLimit (property "maxToolCallsPerTurn" v)
                  default_max_tool_calls_per_turn (omega arith, omega arith))
                (λ b hb.
                  chain-AfterOk
                    (resolve_limit-IsLimit (property "maxToolResultBytes" v)
                      default_max_tool_result_bytes (omega arith, omega arith))
                    (λ c hc. ok-AfterOk _ (ha, hb, hc)))))))

-- Options that resolve have all three limits between 1 and the largest safe integer.
pub resolve_agent_loop_options-IsWithin :
    (v : Value) (gateway : Gateway) (execute : Executor) (options : ResolvedAgentLoopOptions)
    → resolve_agent_loop_options v gateway execute ≡ ok options
    → IsWithin options
resolve_agent_loop_options-IsWithin v gateway execute options h =
    AfterOk-ok (resolve-IsWithin v gateway execute) h

module _ (signal : Signal) (options : ResolvedAgentLoopOptions) (request : Value)
    (some_turn : 0 < options.max_turns) (readable : is_nullish request ≡ false) where
  abbrev IsProperHere : Effect → Type 0
  IsProperHere =
      IsProper signal options (request_id_of request) request
        (collect_tool_names (property "tools" request))

  conduct-IsProper : Always IsProperHere (λ _. Unit {0}) (conduct signal options request)
  unfolding conduct
  conduct-IsProper =
      turns-IsProper signal options _ request _ options.max_turns 0 _ _ some_turn (omega arith)
        (clone-BeginsWith (messages_of request))

  run-Always : Always IsProperHere (λ _. Unit {0}) (run signal options request)
  unfolding run
  run-Always =
      observe-bind-Always _ _
        (fail-IsProper IsProperHere request _ _ 0 some_turn (λ e p. p) aborted)
        (rw readable conduct-IsProper)

-- A run under resolved options, for a request that is no null and not undefined, never throws. Every
-- event that it yields is proper: it has the request's id, a turn below `maxTurns`, and if it is an
-- error a fixed text of the loop or of agent-core, or the one with which the validator refuses a
-- request of the shape that follows. Every request that it sends has the caller's id, route, model
-- and limit on tokens, a copy of each of the caller's tools, in their order, and messages that
-- begin with a copy of each of the caller's: with the same role, and blocks of the same types with
-- the same texts, names, ids and results. Every executed call names a tool of the
-- request, at a time when the latest reading of the signal was quiet, and only where an executor is
-- given.
pub run-IsProper :
    (signal : Signal) (v : Value) (gateway : Gateway) (execute : Executor)
    (options : ResolvedAgentLoopOptions) (request : Value)
    → resolve_agent_loop_options v gateway execute ≡ ok options
    → is_nullish request ≡ false
    → Always
        (IsProper signal options
          (request_id_of request)
          request
          (collect_tool_names (property "tools" request)))
        (λ _. Unit {0})
        (run signal options request)
run-IsProper signal v gateway execute options request h readable =
    let within = resolve_agent_loop_options-IsWithin v gateway execute options h in
    run-Always signal options request (omega arith) readable
