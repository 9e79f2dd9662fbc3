-- ===== src/Runtime/Governed/Options.antt =====
-- createGovernedToolExecutor of packages/agent-runtime/src/tool-policy.ts: the check of its options.
use agent_routebench.Prelude.{
  String, Bool, true, false, ◌||◌, Option, none, some, Outcome, ok, ◌>>◌, ensure,
}
use agent_routebench.Contracts.Value.{
  Value, undefined, plain, instance_of, property, is_undefined, has_callable_method,
}
use agent_routebench.Runtime.Governed.{Method, GovernedToolExecutor}

-- ToolPolicyError
pub data ToolPolicyError : Type 0 where
  invalid_tool_policy_options : ToolPolicyError

-- `typeof options === "object"`, and neither null nor an array.
abbrev is_object : Value → Bool
is_object (plain fs) = true
is_object (instance_of fs) = true
is_object _ = false

abbrev is_absent_or_method : Value → String → Bool
is_absent_or_method value method = is_undefined value || has_callable_method value method

abbrev unless_absent : Value → Method → Option Method
unless_absent undefined method = none
unless_absent value method = some method

-- createGovernedToolExecutor, from the options as a value and what the methods in it do.
unfoldable pub create_governed_tool_executor :
    Value → Method → Method → Method → Outcome ToolPolicyError GovernedToolExecutor
create_governed_tool_executor options run decide ask = do
  ensure (is_object options) invalid_tool_policy_options
  ensure (has_callable_method (property "executor" options) "execute") invalid_tool_policy_options
  ensure (is_absent_or_method (property "policy" options) "decide") invalid_tool_policy_options
  ensure (is_absent_or_method (property "approvalHandler" options) "requestApproval")
      invalid_tool_policy_options
  ok (record {
    run = run;
    policy = unless_absent (property "policy" options) decide;
    approval = unless_absent (property "approvalHandler" options) ask;
  })
