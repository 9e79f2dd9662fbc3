-- ===== src/Adapters/OpenAi/ToolCalls.antt =====
-- The tool calls of a finished OpenAI choice.
use mathlib.Core.List.{Perm}
use mathlib.Core.List.Perm
use agent_routebench.Prelude.{
  ℕ, ◌≤◌, ◌≡◌, ◌⊎◌, refl, ap, Bool, true, false, not, leb, String, List, [], ◌∷◌, Option, none,
  some, ◌==◌, AfterOk, ok-AfterOk, includes, IsDistinct, arith, eq_iff, eq_refl, map, Bool-cases,
  inl, inr, Outcome, ok, err, ensure,
}
use agent_routebench.Contracts.Value.{Fields, string, plain}
use agent_routebench.Contracts.Events.{ModelStreamEvent, tool_call}
use agent_routebench.Adapters.Sse.{is_empty}
use agent_routebench.Adapters.Decoding.{Thrown}
use agent_routebench.Adapters.Indexed.{place, sort_by_index}
use agent_routebench.Adapters.Steps.{◌>>◌, ◌>>=◌, after-known}
use agent_routebench.Adapters.DecodeUtils.{
  Json, require, protocol_error, parse_tool_input_object, trim,
}
use agent_routebench.Adapters.OpenAi.{
  ToolCallState, OpenAiState, Call, build_batch, batch_events, input_of, emit_tool_calls,
}

abbrev pub ids : List Call → List String
ids [] = []
ids (call ∷ calls) = call.id ∷ ids calls

-- No id of the batch is among the seen ones.
abbrev pub IsFresh : List String → List Call → Type 0
IsFresh seen batch = (s : String) → includes s seen ≡ true → includes s (ids batch) ≡ false

-- The call that an accumulated entry makes: its id and name, and the object that its arguments are.
-- Blank arguments are the empty object.
abbrev pub IsCallOf : Json → ToolCallState → Call → Type 0
IsCallOf json entry call =
    (entry.id ≡ some call.id)
    × (entry.name ≡ some call.name)
    × (((is_empty (trim entry.args) ≡ true) × (call.input ≡ Fields.end))
        ⊎ ((is_empty (trim entry.args) ≡ false)
            × (parse_tool_input_object json (trim entry.args) ≡ ok call.input)))

-- The calls of the entries, one each, in their order.
abbrev pub AreCallsOf : Json → List (ℕ × ToolCallState) → List Call → Type 0
AreCallsOf json [] [] = Unit
AreCallsOf json (entry ∷ entries) (call ∷ calls) =
    IsCallOf json entry.1 call × AreCallsOf json entries calls
AreCallsOf json _ _ = ⊥

abbrev pub Heads : ℕ → List (ℕ × ToolCallState) → Type 0
Heads index [] = Unit
Heads index (next ∷ rest) = index ≤ next.0

-- The indices do not fall.
abbrev pub IsAscending : List (ℕ × ToolCallState) → Type 0
IsAscending [] = Unit
IsAscending (entry ∷ rest) = Heads entry.0 rest × IsAscending rest

record IsBatch (json : Json) (entries : List (ℕ × ToolCallState)) (seen : List String)
    (batch : List Call) : Type 0 where
  distinct : IsDistinct (ids batch)
  fresh : IsFresh seen batch
  complete : AreCallsOf json entries batch

require-known : (o : Option String) → AfterOk (λ id. o ≡ some id) (require o)
require-known none = record { holds = tt }
require-known (some id) = record { holds = refl }

tested :
    (b : Bool) (thrown : Thrown) (m : Outcome Thrown Fields)
    → AfterOk (λ a. (b ≡ true) × (m ≡ ok a)) (ensure b thrown >> m)
unfolding ◌>>◌ ◌>>=◌
tested true thrown (ok a) = record { holds = (refl, refl) }
tested true thrown (err e) = record { holds = tt }
tested false thrown m = record { holds = tt }

not-true : (b : Bool) → not b ≡ true → b ≡ false
not-true b h = ground arith

-- What the input of a call is.
abbrev IsInputOf : Json → String → Fields → Type 0
IsInputOf json args input =
    ((is_empty (trim args) ≡ true) × (input ≡ Fields.end))
    ⊎ ((is_empty (trim args) ≡ false) × (parse_tool_input_object json (trim args) ≡ ok input))

input_of-IsInputOf :
    (json : Json) (args : String) (input : Fields)
    → input_of json args ≡ ok input
    → IsInputOf json args input
unfolding input_of
input_of-IsInputOf json args input h = elim (Bool-cases (is_empty (trim args))) [
  | inl blank ↦ inl (blank, ground arith)
  | inr more ↦ inr (more, ground arith)
]

unseen :
    (id : String) (seen : List String) (batch : List Call)
    → IsFresh (id ∷ seen) batch
    → includes id (ids batch) ≡ false
unseen id seen batch fresh = fresh id (ground (arith, eq_refl id))

cons_unseen :
    (id : String) (seen : List String) (call : Call) (batch : List Call)
    → call.id ≡ id
    → includes id seen ≡ false
    → IsFresh (id ∷ seen) batch
    → IsFresh seen (call ∷ batch)
cons_unseen id seen call batch same new fresh s h = elim (Bool-cases (call.id == s)) [
  | inl e ↦ absurd (ground (arith, (eq_iff call.id s).0 e, same, new, h))
  | inr e ↦ rw e (fresh s (ground (arith, h)))
]

module _ (json : Json) where
  build_batch-IsBatch :
      (entries : List (ℕ × ToolCallState)) (seen : List String)
      → AfterOk (IsBatch json entries seen) (build_batch json entries seen)
  unfolding build_batch
  build_batch-IsBatch [] seen =
      ok-AfterOk [] (record { distinct = tt; fresh = λ s h. refl; complete = tt })
  build_batch-IsBatch (entry ∷ entries) seen = after-known (require-known entry.1.id) (λ id known.
      after-known (require-known entry.1.name) (λ name named.
        after-known (tested (not (includes id seen)) protocol_error (input_of json entry.1.args))
          (λ input t. after-known (build_batch-IsBatch entries (id ∷ seen)) (λ batch later.
            ok-AfterOk _ (record {
              distinct = (unseen id seen batch later.fresh, later.distinct);
              fresh =
                  cons_unseen id seen (record { id = id; name = name; input = input }) batch refl
                    (not-true _ t.0) later.fresh;
              complete =
                  ((known, named, input_of-IsInputOf json entry.1.args input t.1), later.complete);
            })))))

abbrev pub event_of : Call → ModelStreamEvent
event_of call = tool_call (string call.id) (string call.name) (plain call.input)

batch_events-map : (batch : List Call) → batch_events batch ≡ map event_of batch
batch_events-map [] = refl
batch_events-map (call ∷ calls) = ap (◌∷◌ (event_of call)) (batch_events-map calls)

place-Heads :
    (index : ℕ) (entry : ℕ × ToolCallState) (rest : List (ℕ × ToolCallState))
    → index ≤ entry.0
    → Heads index rest
    → Heads index (place entry rest)
place-Heads index entry [] h k = h
place-Heads index entry (next ∷ rest) h k = elim (Bool-cases (leb entry.0 next.0)) [
  | inl before ↦ rw before h
  | inr behind ↦ rw behind k
]

place-IsAscending :
    (entry : ℕ × ToolCallState) (rest : List (ℕ × ToolCallState))
    → IsAscending rest
    → IsAscending (place entry rest)
place-IsAscending entry [] h = (tt, tt)
place-IsAscending entry (next ∷ rest) h = elim (Bool-cases (leb entry.0 next.0)) [
  | inl before ↦ rw before (ground arith, h)
  | inr behind ↦
      rw behind (place-Heads next.0 entry rest (ground arith) h.0, place-IsAscending entry rest h.1)
]

sort_by_index-IsAscending :
    (entries : List (ℕ × ToolCallState)) → IsAscending (sort_by_index entries)
sort_by_index-IsAscending [] = tt
sort_by_index-IsAscending (entry ∷ entries) =
    place-IsAscending entry (sort_by_index entries) (sort_by_index-IsAscending entries)

place-perm :
    (entry : ℕ × ToolCallState) (rest : List (ℕ × ToolCallState))
    → Perm (place entry rest) (entry ∷ rest)
place-perm entry [] = Perm.rfl
place-perm entry (next ∷ rest) = elim (Bool-cases (leb entry.0 next.0)) [
  | inl before ↦ rw before Perm.rfl
  | inr behind ↦
      rw behind (Perm.trans (Perm.cons next (place-perm entry rest)) (Perm.swap entry next rest))
]

sort_by_index-perm : (entries : List (ℕ × ToolCallState)) → Perm (sort_by_index entries) entries
sort_by_index-perm [] = Perm.rfl
sort_by_index-perm (entry ∷ entries) =
    Perm.trans (place-perm entry (sort_by_index entries))
      (Perm.cons entry (sort_by_index-perm entries))

-- The tool calls that a finished choice yields: their ids are pairwise distinct, and they are those
-- of the accumulated entries, each once, by ascending indices.
pub record IsToolBatch (json : Json) (state : OpenAiState)
    (answer : List ModelStreamEvent × OpenAiState) : Type 0 where
  pub batch : List Call
  pub yields : answer.0 ≡ map event_of batch
  pub distinct : IsDistinct (ids batch)
  pub entries : List (ℕ × ToolCallState)
  pub accumulated : Perm entries state.tool_calls
  pub ascending : IsAscending entries
  pub complete : AreCallsOf json entries batch

-- A choice that finishes with `tool_calls` is refused as a whole, or it yields one `tool_call` event
-- for each accumulated entry, by ascending indices and with pairwise distinct ids: each has the
-- entry's id and name, and as its input the object that the entry's arguments parse to, or the empty
-- object where they are blank.
pub emit_tool_calls-IsToolBatch :
    (json : Json) (state : OpenAiState)
    → AfterOk (IsToolBatch json state) (emit_tool_calls json state)
unfolding emit_tool_calls
emit_tool_calls-IsToolBatch json state =
    after-known (build_batch-IsBatch json (sort_by_index state.tool_calls) []) (λ batch b.
      ok-AfterOk _ (record {
        batch = batch;
        yields = batch_events-map batch;
        distinct = b.distinct;
        entries = sort_by_index state.tool_calls;
        accumulated = sort_by_index-perm state.tool_calls;
        ascending = sort_by_index-IsAscending state.tool_calls;
        complete = b.complete;
      }))
