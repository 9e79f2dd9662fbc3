-- ===== src/Runtime/Turn/Copies.antt =====
-- The copies that packages/agent-runtime/src/agent-loop.ts makes of a conversation.
use agent_routebench.Prelude.{
  ◌≡◌, refl, sym, ap, ◌∙◌, subst, true, String, List, [], ◌∷◌, ◌++◌, some, false, map, ◌==◌, eq_iff,
  Bool-cases, inl, inr, arith,
}
use agent_routebench.Contracts.Value.{
  Value, string, plain, as_array, property, is_text, is_undefined, items-from_list,
}
use agent_routebench.Runtime.History.{
  clone_plain_block, clone_content_block, clone_message, clone_messages, list_or_empty,
  plain_or_empty,
}

-- A property is kept, where the block has the type.
abbrev pub Keeps : String → String → Value → Value → Type 0
Keeps type key block copy =
    is_text (property "type" block) type ≡ true → property key copy ≡ property key block

-- A block of the same type: a text with the same text, a call with the same id and name, a result with
-- the same call's id and content.
pub record IsBlockCopy (block copy : Value) : Type 0 where
  pub same_type : property "type" copy ≡ property "type" block
  pub text : Keeps "text" "text" block copy
  pub id : Keeps "tool_call" "id" block copy
  pub name : Keeps "tool_call" "name" block copy
  pub call_id : Keeps "tool_result" "toolCallId" block copy
  pub content : Keeps "tool_result" "content" block copy

abbrev pub AreBlockCopies : List Value → List Value → Type 0
AreBlockCopies [] [] = Unit
AreBlockCopies (block ∷ blocks) (copy ∷ copies) =
    IsBlockCopy block copy × AreBlockCopies blocks copies
AreBlockCopies _ _ = ⊥

-- A message with the same role, and a copy of each block.
pub record IsMessageCopy (message copy : Value) : Type 0 where
  pub whole : plain_or_empty copy ≡ copy
  pub same_role : property "role" copy ≡ property "role" (plain_or_empty message)
  pub blocks : List Value
  pub listed : as_array (property "content" copy) ≡ some blocks
  pub same_blocks :
      AreBlockCopies (list_or_empty (as_array (property "content" (plain_or_empty message)))) blocks

-- The messages, each copied, in their order, and others behind them.
abbrev pub BeginsWith : List Value → List Value → Type 0
BeginsWith [] copies = Unit
BeginsWith (message ∷ messages) [] = ⊥
BeginsWith (message ∷ messages) (copy ∷ copies) =
    IsMessageCopy message copy × BeginsWith messages copies

is_text-string : (v : Value) (text : String) → is_text v text ≡ true → v ≡ string text
is_text-string (string s) text h = ap string ((eq_iff s text).0 h)
is_text-string _ text h = absurd (ground arith)

apart :
    (v : Value) (first second : String)
    → (first == second) ≡ false
    → is_text v first ≡ true
    → is_text v second ≡ true
    → ⊥
apart v first second differ h k =
    let e : is_text (string first) second ≡ true =
      subst (λ u. is_text u second ≡ true) (is_text-string v first h) k in
    absurd (ground arith)

self-IsBlockCopy : (block : Value) → IsBlockCopy block block
self-IsBlockCopy block = record {
  same_type = refl;
  text = λ h. refl;
  id = λ h. refl;
  name = λ h. refl;
  call_id = λ h. refl;
  content = λ h. refl;
}

Keeps-trans :
    (type key : String) (a b c : Value)
    → property "type" b ≡ property "type" a
    → Keeps type key a b
    → Keeps type key b c
    → Keeps type key a c
Keeps-trans type key a b c same h k = λ e. k (subst (λ t. is_text t type ≡ true) (sym same) e) ∙ h e

IsBlockCopy-trans : (a b c : Value) → IsBlockCopy a b → IsBlockCopy b c → IsBlockCopy a c
IsBlockCopy-trans a b c h k = record {
  same_type = k.same_type ∙ h.same_type;
  text = Keeps-trans "text" "text" a b c h.same_type h.text k.text;
  id = Keeps-trans "tool_call" "id" a b c h.same_type h.id k.id;
  name = Keeps-trans "tool_call" "name" a b c h.same_type h.name k.name;
  call_id = Keeps-trans "tool_result" "toolCallId" a b c h.same_type h.call_id k.call_id;
  content = Keeps-trans "tool_result" "content" a b c h.same_type h.content k.content;
}

result-IsBlockCopy :
    (block copy : Value)
    → is_text (property "type" block) "tool_result" ≡ true
    → property "type" copy ≡ string "tool_result"
    → property "toolCallId" copy ≡ property "toolCallId" block
    → property "content" copy ≡ property "content" block
    → IsBlockCopy block copy
result-IsBlockCopy block copy result type call_id content =
    let given = property "type" block in
    record {
      same_type = type ∙ sym (is_text-string given "tool_result" result);
      text = λ h. absurd (apart given "tool_result" "text" refl result h);
      id = λ h. absurd (apart given "tool_result" "tool_call" refl result h);
      name = λ h. absurd (apart given "tool_result" "tool_call" refl result h);
      call_id = λ h. call_id;
      content = λ h. content;
    }

clone_plain_block-IsBlockCopy : (block : Value) → IsBlockCopy block (clone_plain_block block)
unfolding clone_plain_block
clone_plain_block-IsBlockCopy block =
    let type = property "type" block in
    elim (Bool-cases (is_text type "text")) [
      | inl text ↦ rw text (record {
        same_type = sym (is_text-string type "text" text);
        text = λ h. refl;
        id = λ h. absurd (apart type "text" "tool_call" refl text h);
        name = λ h. absurd (apart type "text" "tool_call" refl text h);
        call_id = λ h. absurd (apart type "text" "tool_result" refl text h);
        content = λ h. absurd (apart type "text" "tool_result" refl text h);
      })
      | inr not_text ↦ elim (Bool-cases (is_text type "tool_call")) [
        | inl call ↦
            rw (not_text, call)
              (record {
                same_type = sym (is_text-string type "tool_call" call);
                text = λ h. absurd (apart type "tool_call" "text" refl call h);
                id = λ h. refl;
                name = λ h. refl;
                call_id = λ h. absurd (apart type "tool_call" "tool_result" refl call h);
                content = λ h. absurd (apart type "tool_call" "tool_result" refl call h);
              })
        | inr not_call ↦ elim (Bool-cases (is_text type "tool_result")) [
          | inl result ↦ elim (Bool-cases (is_undefined (property "isError" block))) [
            | inl absent ↦
                rw (not_text, not_call, result, absent)
                  (result-IsBlockCopy block _ result refl refl refl)
            | inr present ↦
                rw (not_text, not_call, result, present)
                  (result-IsBlockCopy block _ result refl refl refl)
          ]
          | inr other ↦ rw (not_text, not_call, other) (self-IsBlockCopy block)
        ]
      ]
    ]

clone_content_block-IsBlockCopy : (block : Value) → IsBlockCopy block (clone_content_block block)
unfolding clone_content_block
clone_content_block-IsBlockCopy (plain fs) = clone_plain_block-IsBlockCopy (plain fs)
clone_content_block-IsBlockCopy _ = self-IsBlockCopy _

AreBlockCopies-clone :
    (blocks copies : List Value)
    → AreBlockCopies blocks copies
    → AreBlockCopies blocks (map clone_content_block copies)
AreBlockCopies-clone [] [] h = tt
AreBlockCopies-clone (block ∷ blocks) (copy ∷ copies) h = (
  IsBlockCopy-trans block copy (clone_content_block copy) h.0
      (clone_content_block-IsBlockCopy copy),
  AreBlockCopies-clone blocks copies h.1,
)
AreBlockCopies-clone [] (copy ∷ copies) h = absurd h
AreBlockCopies-clone (block ∷ blocks) [] h = absurd h

clone-AreBlockCopies :
    (blocks : List Value) → AreBlockCopies blocks (map clone_content_block blocks)
clone-AreBlockCopies [] = tt
clone-AreBlockCopies (block ∷ blocks) =
    (clone_content_block-IsBlockCopy block, clone-AreBlockCopies blocks)

clone-IsMessageCopy : (message : Value) → IsMessageCopy message (clone_message message)
unfolding clone_message
clone-IsMessageCopy message =
    let blocks = list_or_empty (as_array (property "content" (plain_or_empty message))) in
    record {
      whole = refl;
      same_role = refl;
      blocks = map clone_content_block blocks;
      listed = ap some (items-from_list (map clone_content_block blocks));
      same_blocks = clone-AreBlockCopies blocks;
    }

IsMessageCopy-clone :
    (message copy : Value) → IsMessageCopy message copy → IsMessageCopy message (clone_message copy)
unfolding clone_message
IsMessageCopy-clone message copy h = rw h.whole (record {
  whole = refl;
  same_role = h.same_role;
  blocks = map clone_content_block h.blocks;
  listed = rw h.listed (ap some (items-from_list (map clone_content_block h.blocks)));
  same_blocks =
      AreBlockCopies-clone (list_or_empty (as_array (property "content" (plain_or_empty message))))
        h.blocks h.same_blocks;
})

pub clone-BeginsWith : (messages : List Value) → BeginsWith messages (clone_messages messages)
unfolding clone_messages
clone-BeginsWith [] = tt
clone-BeginsWith (message ∷ messages) = (clone-IsMessageCopy message, clone-BeginsWith messages)

pub BeginsWith-clone :
    (messages copies : List Value)
    → BeginsWith messages copies
    → BeginsWith messages (clone_messages copies)
unfolding clone_messages
BeginsWith-clone [] copies h = tt
BeginsWith-clone (message ∷ messages) [] h = absurd h
BeginsWith-clone (message ∷ messages) (copy ∷ copies) h =
    (IsMessageCopy-clone message copy h.0, BeginsWith-clone messages copies h.1)

pub BeginsWith-append :
    (messages copies more : List Value)
    → BeginsWith messages copies
    → BeginsWith messages (copies ++ more)
BeginsWith-append [] copies more h = tt
BeginsWith-append (message ∷ messages) [] more h = absurd h
BeginsWith-append (message ∷ messages) (copy ∷ copies) more h =
    (h.0, BeginsWith-append messages copies more h.1)
