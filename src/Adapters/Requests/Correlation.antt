-- ===== src/Adapters/Requests/Correlation.antt =====
-- Tool calls and their results in the requests that the adapters accept.
use agent_routebench.Prelude.{
  ℕ, suc, ◌+◌, ◌≤◌, ◌≡◌, refl, sym, subst, true, false, not, ◌||◌, ◌&&◌, String, List, [], ◌∷◌,
  ◌==◌, eq_iff, if◌then◌else◌, includes, AfterOk, ok-AfterOk, ensure-AfterOk, chain-AfterOk,
  AfterOk-mono, Bool-cases, inl, inr, arith, ensure,
}
use agent_routebench.Contracts.Value.{Value, string, property, is_text}
use agent_routebench.Adapters.Requests.Tally.{
  tally, IsStep, IsSingle, idle-IsStep, join-IsStep, open-IsStep, settle-IsStep, recount,
}
use agent_routebench.Adapters.Requests.{
  Calls, is_type, text_of, blocks_of, messages_of, is_none, open_calls, settle_calls,
  correlate_message, correlate, assert_adapter_request, invalid_adapter_request,
  unsupported_adapter_input, is_valid, check_shapes, have_object_arguments, have_object_schemas,
  tools_of,
}

-- How often an id is called in the blocks of a message, and how often it is answered.
abbrev pub called_in : String → List Value → ℕ
called_in id [] = 0
called_in id (block ∷ blocks) =
    let rest = called_in id blocks in
    if not (is_type "tool_call" block)
    then rest
    else if text_of (property "id" block) == id
    then suc rest
    else rest

abbrev pub answered_in : String → List Value → ℕ
answered_in id [] = 0
answered_in id (block ∷ blocks) =
    let rest = answered_in id blocks in
    if not (is_type "tool_result" block)
    then rest
    else if text_of (property "toolCallId" block) == id
    then suc rest
    else rest

abbrev called_by : String → Value → ℕ
called_by id message =
    if is_text (property "role" message) "assistant" then called_in id (blocks_of message) else 0

abbrev answered_by : String → Value → ℕ
answered_by id message =
    if is_text (property "role" message) "tool" then answered_in id (blocks_of message) else 0

-- How often the assistant's messages call an id, and how often the tools' messages answer it.
abbrev pub called : String → List Value → ℕ
called id [] = 0
called id (message ∷ messages) = called_by id message + called id messages

abbrev pub answered : String → List Value → ℕ
answered id [] = 0
answered id (message ∷ messages) = answered_by id message + answered id messages

pub assistant-not_tool :
    (role : Value) → is_text role "assistant" ≡ true → is_text role "tool" ≡ false
assistant-not_tool (string text) h =
    subst (λ t. (t == "tool") ≡ false) (sym ((eq_iff text "assistant").0 h)) refl
assistant-not_tool _ h = ground arith

module _ (id : String) where
  open_calls-IsStep :
      (blocks : List Value) (calls : Calls)
      → IsSingle id calls
      → AfterOk (IsStep id calls (called_in id blocks) 0) (open_calls calls blocks)
  unfolding open_calls
  open_calls-IsStep [] calls h = ok-AfterOk calls (idle-IsStep id calls h)
  open_calls-IsStep (block ∷ blocks) calls h = elim (Bool-cases (is_type "tool_call" block)) [
    | inl is_call ↦
        let new = text_of (property "id" block) in
        elim (Bool-cases (includes new calls.pending || includes new calls.settled)) [
          | inl known ↦ rw (is_call, known) (record { holds = tt })
          | inr fresh ↦
              let first = open-IsStep id calls.pending calls.settled new h fresh in
              rw (is_call, fresh)
                (AfterOk-mono _ (open_calls-IsStep blocks _ first.single)
                  (λ later s. recount id (ground arith) (ground arith) (join-IsStep id first s)))
        ]
    | inr other ↦ rw other (open_calls-IsStep blocks calls h)
  ]

  settle_calls-IsStep :
      (blocks : List Value) (calls : Calls)
      → IsSingle id calls
      → AfterOk (IsStep id calls 0 (answered_in id blocks)) (settle_calls calls blocks)
  unfolding settle_calls
  settle_calls-IsStep [] calls h = ok-AfterOk calls (idle-IsStep id calls h)
  settle_calls-IsStep (block ∷ blocks) calls h = elim (Bool-cases (is_type "tool_result" block)) [
    | inl is_result ↦
        let old = text_of (property "toolCallId" block) in
        elim (Bool-cases (includes old calls.pending)) [
          | inl known ↦
              let first = settle-IsStep id calls.pending calls.settled old h known in
              rw (is_result, known)
                (AfterOk-mono _ (settle_calls-IsStep blocks _ first.single)
                  (λ later s. recount id (ground arith) (ground arith) (join-IsStep id first s)))
          | inr unknown ↦ rw (is_result, unknown) (record { holds = tt })
        ]
    | inr other ↦ rw other (settle_calls-IsStep blocks calls h)
  ]

  correlate_message-IsStep :
      (calls : Calls) (message : Value)
      → IsSingle id calls
      → AfterOk
          (IsStep id calls (called_by id message) (answered_by id message))
          (correlate_message calls message)
  unfolding correlate_message
  correlate_message-IsStep calls message h =
      let role = property "role" message in
      elim (Bool-cases
        ((is_text role "user" || is_text role "assistant") && not (is_none calls.pending))) [
          | inl waiting ↦ rw waiting (record { holds = tt })
          | inr free ↦ elim (Bool-cases (is_text role "assistant")) [
            | inl assistant ↦
                rw (free, assistant, assistant-not_tool role assistant)
                  (open_calls-IsStep (blocks_of message) calls h)
            | inr other ↦ elim (Bool-cases (is_text role "tool")) [
              | inl tool ↦ rw (free, other, tool) (settle_calls-IsStep (blocks_of message) calls h)
              | inr neither ↦ rw (free, other, neither) (ok-AfterOk calls (idle-IsStep id calls h))
            ]
          ]
        ]

  -- What remains to be answered, and how often, for the messages that are left.
  record IsSettled (calls : Calls) (messages : List Value) : Type 0 where
    balance : tally id calls.pending + called id messages ≡ answered id messages
    bound : tally id calls.pending + tally id calls.settled + called id messages ≤ 1

  nothing_left :
      (pending settled : List String)
      → tally id pending + tally id settled ≤ 1
      → AfterOk
          (λ u. IsSettled (record { pending = pending; settled = settled }) [])
          (ensure (is_none pending) invalid_adapter_request)
  nothing_left [] settled h = record {
    holds = record { balance = ground arith; bound = omega (arith, h) };
  }
  nothing_left (waiting ∷ pending) settled h = record { holds = tt }

  correlate-IsSettled :
      (messages : List Value) (calls : Calls)
      → IsSingle id calls
      → AfterOk (λ u. IsSettled calls messages) (correlate calls messages)
  unfolding correlate
  correlate-IsSettled [] calls h = nothing_left calls.pending calls.settled h
  correlate-IsSettled (message ∷ messages) calls h =
      chain-AfterOk (correlate_message-IsStep calls message h) (λ later s.
        AfterOk-mono _ (correlate-IsSettled messages later s.single) (λ u t. record {
          balance = omega (arith, s.kept, s.closing, t.balance);
          bound = omega (arith, s.kept, s.closing, t.bound);
        }))

-- A request that the adapters accept answers each tool call once: an id that the assistant's
-- messages call is called once in all of them, and the tools' messages answer it once; an id that
-- they do not call is not answered.
pub assert_adapter_request-calls :
    (request : Value) (id : String)
    → AfterOk
        (λ u.
          (called id (messages_of request) ≡ answered id (messages_of request))
          × (called id (messages_of request) ≤ 1))
        (assert_adapter_request request)
unfolding assert_adapter_request
assert_adapter_request-calls request id =
    let balanced =
      correlate-IsSettled id (messages_of request) (record { pending = []; settled = [] })
        (omega arith) in
    ensure-AfterOk (is_valid request) invalid_adapter_request _ (λ v.
      ensure-AfterOk (check_shapes 0 (messages_of request)) invalid_adapter_request _ (λ s.
        ensure-AfterOk (have_object_arguments (messages_of request)) unsupported_adapter_input _
          (λ a.
            ensure-AfterOk (have_object_schemas (tools_of request)) unsupported_adapter_input _
              (λ t.
                AfterOk-mono _ balanced
                  (λ u k. (omega (arith, k.balance), omega (arith, k.bound)))))))
