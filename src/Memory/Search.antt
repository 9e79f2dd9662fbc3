-- ===== src/Memory/Search.antt =====
-- The readings of packages/agent-memory/src/memory-store.ts that order entries: list and search.
-- `toLowerCase` of a whole text belongs to the platform and is a parameter. The ids of stored entries
-- are ASCII, on which the program's order of texts is that of their code points.
pub mod Order
pub mod Tokens
pub mod Matches
pub mod Answer
use agent_routebench.Prelude.{
  ℕ, zero, suc, ◌+◌, Bool, true, false, not, ◌&&◌, ◌||◌, String, List, [], ◌∷◌, ◌++◌, Option, none,
  some, ltb, leb, nat_eq, codes, map, if◌then◌else◌, Outcome, ok, err, ensure, ◌>>=◌, ◌>>◌,
}
use agent_routebench.Contracts.Value.{Value, undefined, string, number, natural}
use agent_routebench.Registry.Names.{is_space}
use agent_routebench.Prelude.Maps.{lookup}
use agent_routebench.Memory.Store.{
  MemoryErrorCode, invalid_query, MemoryEntry, Scope, Store, entries_of,
}

-- `a < b` on texts.
abbrev pub is_before : List ℕ → List ℕ → Bool
is_before [] [] = false
is_before [] (d ∷ ds) = true
is_before (c ∷ cs) [] = false
is_before (c ∷ cs) (d ∷ ds) = ltb c d || (nat_eq c d && is_before cs ds)

-- A stored entry with its score; `list` scores every entry alike.
abbrev pub Scored : Type 0
Scored = ℕ × MemoryEntry

-- The comparison of search, and of list: the first entry is strictly before the second.
unfoldable pub precedes : Scored → Scored → Bool
precedes a b =
    ltb b.0 a.0
    || (nat_eq a.0 b.0
        && (ltb b.1.updated_at a.1.updated_at
            || (nat_eq a.1.updated_at b.1.updated_at && is_before (codes a.1.id) (codes b.1.id))))

-- `sort`, which is stable: an element moves ahead of those that it precedes.
unfoldable pub place : Scored → List Scored → List Scored
place entry [] = entry ∷ []
place entry (next ∷ rest) =
    let later = place entry rest in
    if precedes next entry then next ∷ later else entry ∷ next ∷ rest

unfoldable pub sort : List Scored → List Scored
sort [] = []
sort (entry ∷ entries) = place entry (sort entries)

abbrev pub values_of : Scope → List MemoryEntry
values_of [] = []
values_of ((id, entry) ∷ scope) = entry ∷ values_of scope

-- list
unfoldable pub list : Store → String → List MemoryEntry
list store scope_id =
    map (λ scored. scored.1)
      (sort (map (λ entry. (0, entry)) (values_of (entries_of (lookup scope_id store)))))

-- `haystack.includes(token)`, over code points.
abbrev pub starts_with : List ℕ → List ℕ → Bool
starts_with [] text = true
starts_with (c ∷ cs) [] = false
starts_with (c ∷ cs) (d ∷ ds) = nat_eq c d && starts_with cs ds

abbrev pub contains : List ℕ → List ℕ → Bool
contains token [] = starts_with token []
contains token (c ∷ cs) = starts_with token (c ∷ cs) || contains token cs

-- `split(/\s+/)` and the filter behind it: the longest runs of other characters.
abbrev pub add_letter : ℕ → Bool → List (List ℕ) → List (List ℕ)
add_letter c joins [] = (c ∷ []) ∷ []
add_letter c true (token ∷ tokens) = (c ∷ token) ∷ tokens
add_letter c false (token ∷ tokens) = (c ∷ []) ∷ token ∷ tokens

abbrev pub next_joins : List ℕ → Bool
next_joins [] = false
next_joins (c ∷ cs) = not (is_space c)

unfoldable pub tokens_of : List ℕ → List (List ℕ)
tokens_of [] = []
tokens_of (c ∷ cs) =
    let later = tokens_of cs in if is_space c then later else add_letter c (next_joins cs) later

abbrev pub score_of : List (List ℕ) → List ℕ → ℕ
score_of [] haystack = 0
score_of (token ∷ tokens) haystack =
    let later = score_of tokens haystack in if contains token haystack then later + 1 else later

-- The content, and each tag on a line behind it.
abbrev pub tag_lines : List String → List ℕ
tag_lines [] = []
tag_lines (tag ∷ []) = codes tag
tag_lines (tag ∷ next ∷ tags) = codes tag ++ (10 ∷ tag_lines (next ∷ tags))

abbrev pub haystack_of : MemoryEntry → List ℕ
haystack_of entry = codes entry.content ++ (10 ∷ tag_lines entry.tags)

module _ (to_lower : List ℕ → List ℕ) where
  -- The loop over the entries of the scope.
  unfoldable pub score_all : List (List ℕ) → List MemoryEntry → List Scored
  score_all tokens [] = []
  score_all tokens (entry ∷ entries) =
      let score = score_of tokens (to_lower (haystack_of entry)) in
      let later = score_all tokens entries in if ltb 0 score then (score, entry) ∷ later else later

  abbrev pub take : ℕ → List Scored → List Scored
  take zero scored = []
  take (suc n) [] = []
  take (suc n) (entry ∷ scored) = entry ∷ take n scored

  -- The option `limit`, with DEFAULT_SEARCH_LIMIT and MAX_SEARCH_LIMIT.
  abbrev pub read_limit : Value → Outcome MemoryErrorCode ℕ
  read_limit undefined = ok 20
  read_limit (number (natural n)) = if ltb 0 n && leb n 64 then ok n else err invalid_query
  read_limit _ = err invalid_query

  abbrev pub read_query : Value → Outcome MemoryErrorCode (List ℕ)
  read_query (string query) = elim (tokens_of (codes query)) [
    | [] ↦ err invalid_query
    | token ∷ tokens ↦ ok (codes query)
  ]
  read_query _ = err invalid_query

  -- search: the query is refused if `trim` leaves nothing of it, which is if it has no token.
  unfoldable pub search :
      Store → String → Value → Value → Outcome MemoryErrorCode (List MemoryEntry)
  search store scope_id query limit_given = read_query query >>= λ text.
      read_limit limit_given >>= λ limit. ok (
        map (λ scored. scored.1)
          (take limit (
            sort (
              score_all (tokens_of (to_lower text))
                (values_of (entries_of (lookup scope_id store)))))))
