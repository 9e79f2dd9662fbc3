-- ===== src/Contracts/Events.antt =====
-- ModelStreamEvent of packages/agent-contracts/src/gateway-contracts.ts. The fields that a consumer
-- tests at run time are values of any kind; `unknown` is an event of no type of the contract.
use agent_routebench.Prelude.{String, List}
use agent_routebench.Contracts.Value.{Value, Number}

pub data ModelStreamEvent : Type 0 where
  text_delta : (text : String) → ModelStreamEvent
  tool_call : (id name input : Value) → ModelStreamEvent
  usage : (input_tokens output_tokens : Number) → ModelStreamEvent
  completed : ModelStreamEvent
  error : (code message retryable : Value) → ModelStreamEvent
  unknown : ModelStreamEvent

-- What a consumer gets of an async iterable: values, and then its end or an exception.
pub data Stream {ℓ} (A : Type ℓ) : Type ℓ where
  value : A → Stream A → Stream A
  done : Stream A
  failed : Stream A

abbrev pub values {ℓ} : {A : Type ℓ} → List A → Stream A
values List.[] = done
values (List.◌∷◌ a as') = value a (values as')
