-- ===== src/Memory/Search/Tokens.antt =====
-- The tokens of a query, as search of packages/agent-memory/src/memory-store.ts splits it, and the
-- text that it looks for them in.
use agent_routebench.Prelude.{
  ◌≡◌, refl, ap, sym, append-nil, ℕ, true, false, List, [], ◌∷◌, ◌++◌, String, codes, All,
  Bool-cases, inl, inr,
}
use agent_routebench.Registry.Names.{is_space}
use agent_routebench.Memory.Store.{MemoryEntry}
use agent_routebench.Memory.Search.{add_letter, next_joins, tokens_of, tag_lines, haystack_of}

-- A text is nothing, or begins with white space.
abbrev pub IsBreak : List ℕ → Type 0
IsBreak [] = Unit
IsBreak (c ∷ cs) = is_space c ≡ true

abbrev pub IsWord : List ℕ → Type 0
IsWord [] = ⊥
IsWord (c ∷ cs) = All (λ d. is_space d ≡ false) (c ∷ cs)

-- The tokens of a text: its longest runs without white space, in their order.
pub data Splits : List ℕ → List (List ℕ) → Type 0 where
  finished : Splits [] []
  space :
      (c : ℕ) (cs : List ℕ) (tokens : List (List ℕ))
      → is_space c ≡ true
      → Splits cs tokens
      → Splits (c ∷ cs) tokens
  word :
      (token rest : List ℕ) (tokens : List (List ℕ))
      → IsWord token
      → IsBreak rest
      → Splits rest tokens
      → Splits (token ++ rest) (token ∷ tokens)

add_letter-alone : (c : ℕ) (tokens : List (List ℕ)) → add_letter c false tokens ≡ (c ∷ []) ∷ tokens
add_letter-alone c [] = refl
add_letter-alone c (token ∷ tokens) = refl

-- A letter joins a token that stands directly behind it.
letter-Splits :
    (c : ℕ) (cs : List ℕ) (tokens : List (List ℕ))
    → is_space c ≡ false
    → Splits cs tokens
    → Splits (c ∷ cs) (add_letter c (next_joins cs) tokens)
letter-Splits c [] [] h finished = word (c ∷ []) [] [] (h, tt) tt finished
letter-Splits c cs tokens h (space d ds _ blank s) =
    rw (blank, add_letter-alone c tokens)
      (word (c ∷ []) (d ∷ ds) tokens (h, tt) blank (space d ds tokens blank s))
letter-Splits c cs tokens h (word [] rest later is_word break s) = absurd is_word
letter-Splits c cs tokens h (word (e ∷ es) rest later is_word break s) =
    rw is_word.0 (word (c ∷ e ∷ es) rest later (h, is_word) break s)

pub tokens_of-Splits : (text : List ℕ) → Splits text (tokens_of text)
unfolding tokens_of
tokens_of-Splits [] = finished
tokens_of-Splits (c ∷ cs) = elim (Bool-cases (is_space c)) [
  | inl blank ↦ rw blank (space c cs (tokens_of cs) blank (tokens_of-Splits cs))
  | inr letter ↦ rw letter (letter-Splits c cs (tokens_of cs) letter (tokens_of-Splits cs))
]

abbrev pub lines : List String → List ℕ
lines [] = []
lines (tag ∷ tags) = 10 ∷ (codes tag ++ lines tags)

-- The content of an entry, a line end, and the tags with line ends between them.
abbrev pub searched : MemoryEntry → List ℕ
searched entry = elim entry.tags [
  | [] ↦ codes entry.content ++ (10 ∷ [])
  | tag ∷ tags ↦ codes entry.content ++ lines (tag ∷ tags)
]

tag_lines-lines :
    (tag : String) (tags : List String) → 10 ∷ tag_lines (tag ∷ tags) ≡ lines (tag ∷ tags)
tag_lines-lines tag [] = ap (◌∷◌ 10) (sym (append-nil (codes tag)))
tag_lines-lines tag (next ∷ tags) = ap (λ l. 10 ∷ (codes tag ++ l)) (tag_lines-lines next tags)

pub haystack_of-searched : (entry : MemoryEntry) → haystack_of entry ≡ searched entry
haystack_of-searched entry = by_tags entry.tags
  where
    by_tags :
        (tags : List String)
        → codes entry.content ++ (10 ∷ tag_lines tags) ≡ (elim tags [
          | [] ↦ codes entry.content ++ (10 ∷ [])
          | tag ∷ more ↦ codes entry.content ++ lines (tag ∷ more)
        ])
    by_tags [] = refl
    by_tags (tag ∷ more) = ap (◌++◌ (codes entry.content)) (tag_lines-lines tag more)
