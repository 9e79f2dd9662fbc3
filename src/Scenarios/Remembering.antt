-- ===== src/Scenarios/Remembering.antt =====
-- A store with two notes, and a history that is shortened.
use agent_routebench.Prelude.{
  ℕ, ◌+◌, String, List, [], ◌∷◌, AfterOk, ◌≡◌, refl, false, Option, some, none, ok, err,
}
use agent_routebench.Contracts.Value.{
  Value, string, array, plain, undefined, number, natural, field, end, item, nil,
}
use agent_routebench.Memory.Store.{Limits, save}
use agent_routebench.Memory.Store.Saving.{IsSaved, save-IsSaved}
use agent_routebench.Memory.Store.Invariant.{
  Command, save_at, delete_of, clear_of, IsStore, execute_all, execute_all-IsStore,
}
use agent_routebench.Contracts.Validation.{
  validate_agent_messages, check_messages, check_message, check_blocks, check_block,
  check_text_block, assert_agent_role,
}
use agent_routebench.Memory.Context.Options.{parse_build_options, read_entries}
use agent_routebench.Memory.Context.{
  Reply, answered, Result, build_context, assemble, shrink, compress, select_units, run_summarizer,
  build_units, units_from, last_user_index, validate_summary,
}
use agent_routebench.Memory.Context.Budget.{IsBuilt, build_context-IsBuilt}
use agent_routebench.Memory.Search.{search}
use agent_routebench.Memory.Search.Answer.{IsAnswer, search-IsAnswer}

abbrev limits : Limits
limits = record { max_entries = 2; max_content_bytes = 64; max_tags = 2; max_tag_bytes = 16 }

abbrev note : String → String → Value
note id content = plain (
    field "id" (string id) (
      field "scopeId" (string "work") (
        field "kind" (string "fact")
          (field "content" (string content) (field "tags" (array (item (string "x") nil)) end)))))

abbrev commands : List Command
commands =
    save_at 1 undefined (note "a" "tea at four")
    ∷ save_at 2 undefined (note "b" "tea and milk")
    ∷ save_at 3 undefined (note "c" "too many")
    ∷ delete_of "work" "a"
    ∷ clear_of "home"
    ∷ []

commands_example : IsStore limits (execute_all limits [] commands)
commands_example = execute_all-IsStore limits commands

note_example : AfterOk (IsSaved 1 []) (save limits 1 undefined [] (note "a" "tea at four"))
note_example = save-IsSaved limits 1 undefined [] (note "a" "tea at four")

found_example :
    AfterOk
      (IsAnswer (λ text. text) (execute_all limits [] commands) "work" (string "milk") undefined)
      (search (λ text. text) (execute_all limits [] commands) "work" (string "milk") undefined)
found_example =
    search-IsAnswer (λ text. text) (execute_all limits [] commands) "work" (string "milk") undefined

-- A history that must shrink: a question, its answer, and a second question.
abbrev message : String → String → Value
message role text = plain (
    field "role" (string role) (
      field "content"
        (array (item (plain (field "type" (string "text") (field "text" (string text) end))) nil))
        end))

abbrev options : Value
options = plain (
    field "messages"
      (array (
        item (message "user" "one")
          (item (message "assistant" "two") (item (message "user" "three") nil))))
      (field "maxContextBytes" (number (natural 29)) end))

-- Ten bytes for each message.
abbrev size_of : List Value → ℕ
size_of [] = 0
size_of (message ∷ messages) = 10 + size_of messages

abbrev short_summary : List Value → ℕ → Reply
short_summary messages count = answered (string "so far")

shortening_example :
    AfterOk
      (IsBuilt size_of some (some short_summary) options)
      (build_context size_of some (some short_summary) false options)
shortening_example = build_context-IsBuilt size_of some (some short_summary) false options

abbrev resolved : Result → Option (ℕ × ℕ)
resolved (ok result) = some (result.omitted_message_count, result.context_bytes)
resolved (err code) = none

shortened : resolved (build_context size_of some (some short_summary) false options) ≡ some (2, 20)
unfolding build_context parse_build_options assemble shrink compress select_units run_summarizer
    build_units units_from last_user_index validate_agent_messages check_messages check_message
    check_blocks check_block check_text_block assert_agent_role read_entries validate_summary
shortened = refl
