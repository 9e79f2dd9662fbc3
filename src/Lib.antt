-- ===== src/Lib.antt =====
-- The agent runtime of this repository: how a model request is validated, how a provider route is
-- resolved and tried, and how the loop of turns and tool calls runs.
--
-- The parts and how they interact. An agent loop (packages/agent-runtime) sends each turn's request
-- to Agent Core (packages/agent-core), which validates it (packages/agent-contracts) and maps the
-- events of a model gateway. A gateway (packages/model-gateway) asks the provider registry
-- (packages/provider-registry) for the candidates of the request's route, and tries them under a
-- retry policy.
--
-- - Contracts: values as JavaScript code hands them over (Contracts/Value), isJsonValue and the deep
--   copy (Contracts/Json), the validators of packages/agent-contracts/src/contracts.ts
--   (Contracts/Validation), and gateway streams (Contracts/Events).
-- - Generator: async generators as functions of the number of readings of the abort signal, which
--   give a trace of effects and a value or a return. Generator/Rules has the reasoning rules.
-- - Core: createAgentCore of packages/agent-core/src/agent-core.ts.
-- - Runtime: packages/agent-runtime/src/agent-loop.ts. Runtime/Options is resolveAgentLoopOptions,
--   Runtime/History the copies of messages and tools, Runtime/Calls readToolCall and
--   classifyToolResult, Runtime/Turn the inner loop over one turn's events, Runtime/Loop executeTool,
--   the tool loop and the `for` loop over the turns; its children prove what a run does.
--   Runtime/Governed is the executor of tool-policy.ts behind a policy and an approval gate.
-- - Registry: packages/provider-registry/src/types.ts (Registry/Types, Registry/Names,
--   Registry/Validation), the class InMemoryProviderRegistry of registry.ts (Registry/Store) and the
--   credential stores of credential-store.ts (Registry/Credentials), over any backend.
-- - Resilience: resilience.ts (Resilience/Policy), adapters/errors.ts (Resilience/Errors) and the
--   method `stream` of resilient-routed-gateway.ts (Resilience/Gateway) of packages/model-gateway/src.
-- - Adapters: packages/model-gateway/src/adapters. Adapters/Sse is the class SseFrameParser of sse.ts:
--   a chunk and the cursor in it are a suffix of the chunk, the loops of framesFrom and finish run on
--   the number of bytes left, and its children compare it with a reading byte by byte. Adapters/
--   Decoding is decodeFrameStream of stream-runtime.ts over any FrameDecoder; Adapters/Decoding/Ending
--   says what the loop relies on in a decoder. Adapters/DecodeUtils is decode-utils.ts, Adapters/
--   Anthropic and Adapters/OpenAi the decoders of anthropic-stream.ts and openai-chat-stream.ts, and
--   Adapters/Steps and Adapters/Indexed what they share. Adapters/Requests is request-validation.ts and
--   anthropic-request.ts, Adapters/Requests/OpenAi openai-chat-request.ts.
-- - Memory: the class InMemoryMemoryStore of packages/agent-memory/src/memory-store.ts: saving and
--   forgetting (Memory/Store), listing and searching (Memory/Search). Memory/Context is buildContext of
--   context-builder.ts, Memory/Context/Options parseBuildOptions of context-validation.ts.
-- - Client: packages/local-agent-client/src/ndjson.ts, the reader of the local API's answers
--   (Client/Ndjson).
-- - Scenarios: concrete runs.
--
-- Loops are structural: over a stream, a list, or a count (maxTurns, maxAttemptsPerProvider) that
-- the source compares with, so that no fuel is chosen; the loops of the frame parser have the number
-- of bytes left as fuel, and each round takes at least one. A stream is a finite list of events that
-- ends or fails; a gateway that never ends is not modelled. An abort may come at any reading of the
-- signal, which the model counts; a promise that races with an abort is a reading after it.
-- Numbers are integers, other finite doubles by their bit pattern, infinities and NaN.
--
-- Not modelled: HTTP, timers, files, cryptography and the user interface, sessions and
-- persistence. The gateway, the executor, the attempt
-- against one candidate, `new URL`, `TextDecoder` and `JSON` are arguments, and so are the clock, the
-- id factory and `toLowerCase` of the memory store, and `structuredClone` and the summarizer of the
-- context builder.
pub mod Prelude
pub mod Generator
pub mod Contracts
pub mod Core
pub mod Runtime
pub mod Registry
pub mod Resilience
pub mod Adapters
pub mod Client
pub mod Memory
pub mod Scenarios
