-- ===== src/Runtime/Governed.antt =====
-- packages/agent-runtime/src/tool-policy.ts: a tool executor behind a policy and an approval gate.
pub mod Options
pub mod Gate
use agent_routebench.Prelude.{Bool, true, false, ◌||◌, String, Option, none, some, if◌then◌else◌}
use agent_routebench.Contracts.Value.{
  Value, undefined, boolean, string, array, plain, instance_of, end, field, property, is_text,
  is_undefined, has_callable_method,
}
use agent_routebench.Generator.{Gen, Signal, pure, emit, observe, ◌>>=◌, ◌>>◌}
use agent_routebench.Runtime.Events.{
  ToolExecutionRequest, Settled, resolved, rejected, tool_failure_content,
}

abbrev pub tool_policy_denied_content : String
tool_policy_denied_content = "Tool execution was denied."

abbrev pub tool_approval_unavailable_content : String
tool_approval_unavailable_content = "Tool approval is unavailable."

abbrev pub tool_approval_denied_content : String
tool_approval_denied_content = "Tool execution was denied."

abbrev pub tool_approval_failed_content : String
tool_approval_failed_content = "Tool approval failed."

abbrev pub tool_policy_failed_content : String
tool_policy_failed_content = "Tool policy evaluation failed."

-- A method of an injected object: `decide`, `requestApproval` or `execute`, for the one call of it
-- that an execution makes.
abbrev pub Method : Type 0
Method = ToolExecutionRequest → Settled

pub record GovernedToolExecutor : Type 0 where
  pub run : Method
  pub policy : Option Method
  pub approval : Option Method

-- What an execution calls: the policy, the approval handler, the executor.
pub data Call : Type 0 where
  decided asked executed : ToolExecutionRequest → Call

-- failed
abbrev pub failed : String → Value
failed content = plain (field "content" (string content) (field "isError" (boolean true) end))

module _ (signal : Signal) (g : GovernedToolExecutor) (request : ToolExecutionRequest) where
  abbrev pub or_failed : Settled → Value
  or_failed (resolved value) = value
  or_failed rejected = failed tool_failure_content

  -- The call of the executor.
  unfoldable pub run_tool : Gen Call Value
  run_tool = do emit (executed request); pure (or_failed (g.run request))

  abbrev pub on_verdict : Value → Gen Call Value
  on_verdict verdict =
      if is_text verdict "denied"
      then pure (failed tool_approval_denied_content)
      else if is_text verdict "approved"
      then run_tool
      else pure (failed tool_approval_failed_content)

  abbrev pub after_asking : Settled → Gen Call Value
  after_asking rejected = pure (failed tool_approval_failed_content)
  after_asking (resolved verdict) = do
    stop ← observe signal
    if stop then pure (failed tool_failure_content) else on_verdict verdict

  abbrev pub ask_handler : Option Method → Gen Call Value
  ask_handler none = pure (failed tool_approval_unavailable_content)
  ask_handler (some ask) = do emit (asked request); after_asking (ask request)

  -- The branch of the decision "ask".
  unfoldable pub request_approval : Gen Call Value
  unfolding run_tool
  request_approval = ask_handler g.approval

  abbrev pub on_decision : Value → Gen Call Value
  on_decision decision =
      if is_text decision "deny"
      then pure (failed tool_policy_denied_content)
      else if is_text decision "ask"
      then request_approval
      else if is_text decision "allow"
      then run_tool
      else pure (failed tool_policy_failed_content)

  -- From the second reading of the signal on.
  unfoldable pub apply_decision : Settled → Gen Call Value
  unfolding run_tool request_approval
  apply_decision rejected = pure (failed tool_policy_failed_content)
  apply_decision (resolved decision) = do
    stop ← observe signal
    if stop then pure (failed tool_failure_content) else on_decision decision

  -- Without a policy the decision is "deny".
  abbrev pub decide : Option Method → Gen Call Settled
  decide none = pure (resolved (string "deny"))
  decide (some method) = do emit (decided request); pure (method request)

  -- `execute`. It returns a value; a promise that rejects is none of its results.
  unfoldable pub execute : Gen Call Value
  unfolding apply_decision
  execute = do
    stop ← observe signal
    if stop then pure (failed tool_failure_content) else decide g.policy >>= apply_decision
