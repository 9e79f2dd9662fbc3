-- ===== src/Adapters/Requests/Content.antt =====
-- The content that packages/model-gateway/src/adapters/anthropic-request.ts gives a message.
use text.Mathlib.TextLemmas
use Prim.Native.String.{◌++◌ as append}
use agent_routebench.Prelude.{
  ◌≡◌, refl, sym, ap, Bool, false, String, List, [], ◌∷◌, ◌++◌, Option, none, some, if◌then◌else◌,
  Bool-cases, inl, inr,
}
use agent_routebench.Contracts.Value.{Value, Fields, undefined, string, plain, field, end, property}
use agent_routebench.Adapters.Requests.{
  is_type, text_of, content_blocks, tool_result_blocks, error_field, call_block,
}

abbrev pub text_item : String → Value
text_item text = plain (field "type" (string "text") (field "text" (string text) end))

abbrev pub starts_with_text : List Value → Bool
starts_with_text [] = false
starts_with_text (block ∷ blocks) = is_type "text" block

-- A text in front of the text that is the first of the blocks.
abbrev pub joined : String → List Value → List Value
joined text [] = text_item text ∷ []
joined text (block ∷ blocks) = text_item (append text (text_of (property "text" block))) ∷ blocks

module _ (clone : Value → Value) where
  abbrev pub use_item : Value → Value
  use_item block = plain (
      field "type" (string "tool_use") (
        field "id" (property "id" block) (
          field "name" (property "name" block)
            (field "input" (clone (property "input" block)) end))))

  -- The texts and tool calls of a message, where texts that follow one another are one text.
  abbrev pub content_for : List Value → List Value
  content_for [] = []
  content_for (block ∷ blocks) =
      let later = content_for blocks in
      if is_type "text" block
      then (if starts_with_text blocks
          then joined (text_of (property "text" block)) later
          else text_item (text_of (property "text" block)) ∷ later)
      else if is_type "tool_call" block
      then use_item block ∷ later
      else later

  abbrev pub mark_of : Value → Fields
  mark_of undefined = end
  mark_of given = field "is_error" given end

  abbrev pub result_item : Value → Value
  result_item block = plain (
      field "type" (string "tool_result") (
        field "tool_use_id" (property "toolCallId" block)
          (field "content" (property "content" block) (mark_of (property "isError" block)))))

  abbrev pub results_for : List Value → List Value
  results_for [] = []
  results_for (block ∷ blocks) =
      let later = results_for blocks in
      if is_type "tool_result" block then result_item block ∷ later else later

  -- What stands for a text that is pending, in front of the blocks that are left.
  abbrev behind : Option String → List Value → List Value
  behind none blocks = content_for blocks
  behind (some text) blocks =
      if starts_with_text blocks
      then joined text (content_for blocks)
      else text_item text ∷ content_for blocks

  joined-joined :
      (first second : String) (blocks : List Value)
      → joined first (joined second blocks) ≡ joined (append first second) blocks
  joined-joined first second [] = refl
  joined-joined first second (block ∷ blocks) =
      ap (λ t. text_item t ∷ blocks)
        (sym (TextLemmas.append_assoc first second (text_of (property "text" block))))

  behind_call :
      (block : Value) (blocks blocks' : List Value)
      → blocks ≡ blocks'
      → call_block clone block ++ blocks
        ≡ (if is_type "tool_call" block then use_item block ∷ blocks' else blocks')
  behind_call block blocks blocks' e = elim (Bool-cases (is_type "tool_call" block)) [
    | inl is_call ↦ rw (is_call, e) refl
    | inr other ↦ rw (other, e) refl
  ]

  content_blocks-behind :
      (pending : Option String) (blocks : List Value)
      → content_blocks clone pending blocks ≡ behind pending blocks
  unfolding content_blocks
  content_blocks-behind none [] = refl
  content_blocks-behind (some text) [] = refl
  content_blocks-behind none (block ∷ blocks) = elim (Bool-cases (is_type "text" block)) [
    | inl text ↦ rw text (content_blocks-behind (some (text_of (property "text" block))) blocks)
    | inr other ↦ rw other (behind_call block _ _ (content_blocks-behind none blocks))
  ]
  content_blocks-behind (some text) (block ∷ blocks) = elim (Bool-cases (is_type "text" block)) [
    | inl more ↦
        let second = text_of (property "text" block) in
        rw (more, content_blocks-behind (some (append text second)) blocks)
          (elim (Bool-cases (starts_with_text blocks)) [
            | inl texts ↦ rw texts (sym (joined-joined text second (content_for blocks)))
            | inr last ↦ rw last refl
          ])
    | inr other ↦
        rw other
          (ap (◌∷◌ (text_item text)) (behind_call block _ _ (content_blocks-behind none blocks)))
  ]

  mark_of-error_field : (given : Value) → error_field clone given ≡ mark_of given
  mark_of-error_field undefined = refl
  mark_of-error_field _ = refl

  pub tool_result_blocks-results_for :
      (blocks : List Value) → tool_result_blocks clone blocks ≡ results_for blocks
  unfolding tool_result_blocks
  tool_result_blocks-results_for [] = refl
  tool_result_blocks-results_for (block ∷ blocks) =
      rw (mark_of-error_field (property "isError" block), tool_result_blocks-results_for blocks)
        refl

  pub content_blocks-content_for :
      (blocks : List Value) → content_blocks clone none blocks ≡ content_for blocks
  content_blocks-content_for blocks = content_blocks-behind none blocks
