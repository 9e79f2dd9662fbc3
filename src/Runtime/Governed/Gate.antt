-- ===== src/Runtime/Governed/Gate.antt =====
-- What the gate of packages/agent-runtime/src/tool-policy.ts lets through.
use agent_routebench.Prelude.{
  ℕ, ◌+◌, ◌-◌, ◌≡◌, refl, ◌⊎◌, inl, inr, Bool, true, false, String, ◌∷◌, Option, none, some, arith,
  Bool-cases,
}
use agent_routebench.Contracts.Value.{Value, is_text}
use agent_routebench.Generator.{Signal, Output, pure, emit, observe, ◌>>=◌, ◌>>◌}
use agent_routebench.Generator.Rules.{count}
use agent_routebench.Runtime.Events.{
  ToolExecutionRequest, Settled, resolved, rejected, tool_failure_content,
}
use agent_routebench.Runtime.Governed.{
  Method, GovernedToolExecutor, Call, decided, asked, executed, failed, tool_policy_denied_content,
  tool_approval_unavailable_content, tool_approval_failed_content, tool_policy_failed_content,
  on_verdict, after_asking, on_decision, run_tool, ask_handler, request_approval, apply_decision,
  decide, execute,
}

abbrev pub is_executed : Call → Bool
is_executed (executed _) = true
is_executed _ = false

-- The method is there, and its answer is the text.
abbrev pub Answers : Option Method → ToolExecutionRequest → String → Type 0
Answers o request text =
    (method : Method) × (v : Value) × (o ≡ some method)
    × (method request ≡ resolved v)
    × (is_text v text ≡ true)

-- The policy allows the call, or it asks, and the approval handler approves.
abbrev pub IsPermitted : GovernedToolExecutor → ToolExecutionRequest → Type 0
IsPermitted g request =
    Answers g.policy request "allow"
    ⊎ (Answers g.policy request "ask" × Answers g.approval request "approved")

abbrev pub IsRefusal : Value → Type 0
IsRefusal v =
    (v ≡ failed tool_failure_content)
    ⊎ (v ≡ failed tool_policy_denied_content)
    ⊎ (v ≡ failed tool_approval_unavailable_content)
    ⊎ (v ≡ failed tool_approval_failed_content)
    ⊎ (v ≡ failed tool_policy_failed_content)

-- A permission, and the readings of the signal that it takes: one before the policy is asked, one
-- after it has answered, and, where the handler is asked, one after that.
abbrev pub IsPermittedBy : GovernedToolExecutor → ToolExecutionRequest → ℕ → ℕ → Type 0
IsPermittedBy g request start clock =
    (Answers g.policy request "allow" × (clock ≡ start + 2))
    ⊎ ((Answers g.policy request "ask" × Answers g.approval request "approved")
        × (clock ≡ start + 3))

-- The executor has run once, under a permission and at a quiet last reading, or not at all, and then
-- the value is a refusal.
abbrev pub IsGoverned :
    Signal → GovernedToolExecutor → ToolExecutionRequest → ℕ → Output Call Value → Type 0
IsGoverned signal g request start o =
    (v : Value) × (o.result ≡ some v)
    × (((count is_executed o.trace ≡ 0) × IsRefusal v)
        ⊎ ((count is_executed o.trace ≡ 1)
            × IsPermittedBy g request start o.clock
            × (signal (o.clock - 1) ≡ false)))

module _ (signal : Signal) (g : GovernedToolExecutor) (request : ToolExecutionRequest)
    (start : ℕ) where
  -- From the executor on.
  run_tool-IsGoverned :
      (t : ℕ)
      → IsPermittedBy g request start (t + 1)
      → signal t ≡ false
      → IsGoverned signal g request start (run_tool signal g request (t + 1))
  unfolding run_tool emit pure ◌>>=◌ ◌>>◌
  run_tool-IsGoverned t permitted quiet = (_, refl, inr (refl, permitted, ground arith))

  refused : (t : ℕ) (v : Value) → IsRefusal v → IsGoverned signal g request start (pure v t)
  unfolding pure
  refused t v h = (v, refl, inl (refl, h))

  -- A call of the policy or the approval handler first.
  after_question :
      (o : Output Call Value) (c : Call)
      → is_executed c ≡ false
      → IsGoverned signal g request start o
      → IsGoverned signal g request start
          (record { trace = c ∷ o.trace; clock = o.clock; result = o.result })
  after_question o c calm (v, e, inl (none_run, h)) = (v, e, inl (ground arith, h))
  after_question o c calm (v, e, inr (one_run, permitted, quiet)) =
      (v, e, inr (ground arith, permitted, quiet))

  on_verdict-IsGoverned :
      (t : ℕ) (verdict : Value)
      → Answers g.policy request "ask"
      → (method : Method) → g.approval ≡ some method
      → method request ≡ resolved verdict
      → t ≡ start + 2
      → signal t ≡ false
      → IsGoverned signal g request start (on_verdict signal g request verdict (t + 1))
  on_verdict-IsGoverned t verdict asks method there answer at quiet =
      elim (Bool-cases (is_text verdict "denied")) [
        | inl e ↦ rw e (refused _ _ (inr (inl refl)))
        | inr e ↦ elim (Bool-cases (is_text verdict "approved")) [
          | inl approved ↦
              rw (e, approved)
                (run_tool-IsGoverned t
                  (inr ((asks, (method, verdict, there, answer, approved)), omega arith)) quiet)
          | inr other ↦ rw (e, other) (refused _ _ (inr (inr (inr (inl refl)))))
        ]
      ]

  after_asking-IsGoverned :
      (t : ℕ) (answer : Settled)
      → Answers g.policy request "ask"
      → (method : Method) → g.approval ≡ some method
      → method request ≡ answer
      → t ≡ start + 2
      → IsGoverned signal g request start (after_asking signal g request answer t)
  unfolding observe ◌>>=◌
  after_asking-IsGoverned t rejected asks method there e at =
      refused _ _ (inr (inr (inr (inl refl))))
  after_asking-IsGoverned t (resolved verdict) asks method there e at =
      elim (Bool-cases (signal t)) [
        | inl stop ↦ rw stop (refused (t + 1) _ (inl refl))
        | inr quiet ↦ rw quiet (on_verdict-IsGoverned t verdict asks method there e at quiet)
      ]

  ask_handler-IsGoverned :
      (t : ℕ) (handler : Option Method)
      → Answers g.policy request "ask"
      → g.approval ≡ handler
      → t ≡ start + 2
      → IsGoverned signal g request start (ask_handler signal g request handler t)
  unfolding emit ◌>>=◌ ◌>>◌
  ask_handler-IsGoverned t none asks e at = refused _ _ (inr (inr (inl refl)))
  ask_handler-IsGoverned t (some method) asks e at =
      after_question _ (asked request) refl
        (after_asking-IsGoverned t (method request) asks method e refl at)

  on_decision-IsGoverned :
      (t : ℕ) (decision : Value) (method : Method)
      → g.policy ≡ some method
      → method request ≡ resolved decision
      → t ≡ start + 1
      → signal t ≡ false
      → IsGoverned signal g request start (on_decision signal g request decision (t + 1))
  unfolding request_approval
  on_decision-IsGoverned t decision method there e at quiet =
      elim (Bool-cases (is_text decision "deny")) [
        | inl denied ↦ rw denied (refused _ _ (inr (inl refl)))
        | inr open_case ↦ elim (Bool-cases (is_text decision "ask")) [
          | inl asks ↦
              rw (open_case, asks)
                (ask_handler-IsGoverned (t + 1) g.approval (method, decision, there, e, asks) refl
                  (omega arith))
          | inr settled ↦ elim (Bool-cases (is_text decision "allow")) [
            | inl allows ↦
                rw (open_case, settled, allows)
                  (run_tool-IsGoverned t (inl ((method, decision, there, e, allows), omega arith))
                    quiet)
            | inr other ↦ rw (open_case, settled, other) (refused _ _ (inr (inr (inr (inr refl)))))
          ]
        ]
      ]

  apply_decision-IsGoverned :
      (t : ℕ) (decision : Settled) (method : Method)
      → g.policy ≡ some method
      → method request ≡ decision
      → t ≡ start + 1
      → IsGoverned signal g request start (apply_decision signal g request decision t)
  unfolding apply_decision observe ◌>>=◌
  apply_decision-IsGoverned t rejected method there e at = refused _ _ (inr (inr (inr (inr refl))))
  apply_decision-IsGoverned t (resolved decision) method there e at = elim (Bool-cases (signal t)) [
    | inl stop ↦ rw stop (refused (t + 1) _ (inl refl))
    | inr quiet ↦ rw quiet (on_decision-IsGoverned t decision method there e at quiet)
  ]

  from_policy-IsGoverned :
      (t : ℕ) (policy : Option Method)
      → g.policy ≡ policy
      → t ≡ start + 1
      → IsGoverned signal g request start
          ((decide signal g request policy >>= apply_decision signal g request) t)
  unfolding apply_decision observe emit pure ◌>>=◌ ◌>>◌
  from_policy-IsGoverned t none e at = elim (Bool-cases (signal t)) [
    | inl stop ↦ rw stop (refused (t + 1) _ (inl refl))
    | inr quiet ↦ rw quiet (refused (t + 1) _ (inr (inl refl)))
  ]
  from_policy-IsGoverned t (some method) e at =
      after_question _ (decided request) refl
        (apply_decision-IsGoverned t (method request) method e refl at)

-- An execution always gives a value. The wrapped executor has run once, and then the policy allowed
-- the call, or it asked and the approval handler approved, and the signal, read again after the last
-- of these answers, was quiet; or it has not run, and the value is one of the five fixed refusals.
pub execute-IsGoverned :
    (signal : Signal) (g : GovernedToolExecutor) (request : ToolExecutionRequest) (t : ℕ)
    → IsGoverned signal g request t (execute signal g request t)
unfolding execute observe ◌>>=◌
execute-IsGoverned signal g request t = elim (Bool-cases (signal t)) [
  | inl stop ↦ rw stop (refused signal g request t (t + 1) _ (inl refl))
  | inr quiet ↦ rw quiet (from_policy-IsGoverned signal g request t (t + 1) g.policy refl refl)
]
