-- ===== src/Memory/Search/Answer.antt =====
-- What a search of packages/agent-memory/src/memory-store.ts answers.
use mathlib.Core.List.{Perm}
use agent_routebench.Prelude.{
  ℕ, zero, suc, ◌≤◌, ◌≡◌, ◌⊎◌, refl, ap, subst, min, ltb, leb, String, codes, List, [], ◌∷◌, ◌++◌,
  map, length, ok, AfterOk, bind-AfterOk, ok-AfterOk, ◌&&◌, arith, Bool-cases, inl, inr,
}
use agent_routebench.Prelude.Maps.{lookup}
use agent_routebench.Contracts.Value.{Value, undefined, string, number, natural}
use agent_routebench.Memory.Store.{MemoryEntry, Store, entries_of}
use agent_routebench.Memory.Search.{
  Scored, sort, values_of, tokens_of, score_all, take, read_limit, read_query, search,
}
use agent_routebench.Memory.Search.Order.{IsOrdered, sort-IsOrdered, sort-perm}
use agent_routebench.Memory.Search.Tokens.{Splits, tokens_of-Splits}
use agent_routebench.Memory.Search.Matches.{AreMatches, score_all-AreMatches}

-- The limit that is given, or 20.
abbrev pub IsLimit : Value → ℕ → Type 0
IsLimit given n =
    ((given ≡ undefined) × (n ≡ 20)) ⊎ ((given ≡ number (natural n)) × (1 ≤ n) × (n ≤ 64))

List-cases : {A : Type 0} (l : List A) → (l ≡ []) ⊎ ((x : A) × (xs : List A) × (l ≡ x ∷ xs))
List-cases [] = inl refl
List-cases (x ∷ xs) = inr (x, xs, refl)

module _ (to_lower : List ℕ → List ℕ) where
  abbrev drop : ℕ → List Scored → List Scored
  drop zero scored = scored
  drop (suc n) [] = []
  drop (suc n) (entry ∷ scored) = drop n scored

  take-append-drop :
      (n : ℕ) (scored : List Scored) → scored ≡ take to_lower n scored ++ drop n scored
  take-append-drop zero scored = refl
  take-append-drop (suc n) [] = refl
  take-append-drop (suc n) (entry ∷ scored) = ap (◌∷◌ entry) (take-append-drop n scored)

  length-take :
      (n : ℕ) (scored : List Scored) → length (take to_lower n scored) ≡ min n (length scored)
  length-take zero scored = omega arith
  length-take (suc n) [] = omega arith
  length-take (suc n) (entry ∷ scored) = omega (arith, length-take n scored)

  read_limit-IsLimit : (given : Value) (n : ℕ) → read_limit to_lower given ≡ ok n → IsLimit given n
  read_limit-IsLimit undefined n h = inl (refl, ground arith)
  read_limit-IsLimit (number (natural m)) n h = elim (Bool-cases (ltb 0 m && leb m 64)) [
    | inl within ↦
        let same : m ≡ n = ground arith in
        inr (ap (λ k. number (natural k)) same, ground arith, ground arith)
    | inr beyond ↦ absurd (ground arith)
  ]
  read_limit-IsLimit _ n h = absurd (ground arith)

  read_query-string :
      (given : Value) (text : List ℕ)
      → read_query to_lower given ≡ ok text
      → (query : String) × (given ≡ string query) × (text ≡ codes query)
  read_query-string (string query) text h = elim (List-cases (tokens_of (codes query))) [
    | inl blank ↦ absurd (ground arith)
    | inr (token, tokens, e) ↦ (query, refl, ground arith)
  ]
  read_query-string _ text h = absurd (ground arith)

  -- The answer to a query: the best of all matches, as many as the limit admits.
  pub record IsAnswer (store : Store) (scope_id : String) (given : Value) (limit_given : Value)
      (answer : List MemoryEntry) : Type 0 where
    pub query : String
    pub asked : given ≡ string query
    pub limit : ℕ
    pub limited : IsLimit limit_given limit
    pub tokens : List (List ℕ)
    pub split : Splits (to_lower (codes query)) tokens
    pub matches : List Scored
    pub matching :
        AreMatches to_lower tokens (values_of (entries_of (lookup scope_id store))) matches
    pub best : List Scored
    pub others : List Scored
    pub complete : Perm (best ++ others) matches
    pub ordered : IsOrdered (best ++ others)
    pub many : length best ≡ min limit (length (best ++ others))
    pub answers : answer ≡ map (λ s. s.1) best

  -- A search that is not refused has a text as its query, and a limit from 1 to 64, 20 if none is
  -- given. Its tokens are the longest runs without white space of the query in small letters. Its
  -- matches are the entries of the scope whose content or tags, in small letters and on lines of their
  -- own, contain at least one token, each once, with the number of the query's tokens that they
  -- contain. It answers with the first ones of all the matches, as many as the limit admits, where
  -- more tokens come first, then the later update, then the smaller id.
  pub search-IsAnswer :
      (store : Store) (scope_id : String) (given limit_given : Value)
      → AfterOk
          (IsAnswer store scope_id given limit_given)
          (search to_lower store scope_id given limit_given)
  unfolding search
  search-IsAnswer store scope_id given limit_given =
      bind-AfterOk (read_query to_lower given) _ (λ text asked.
        bind-AfterOk (read_limit to_lower limit_given) _ (λ n limited.
          let (query, is_text, same) = read_query-string given text asked in
          let lowered = to_lower (codes query) in
          let entries = values_of (entries_of (lookup scope_id store)) in
          let all = score_all to_lower (tokens_of lowered) entries in
          let parts = take-append-drop n (sort all) in
          rw same (
            ok-AfterOk _ (record {
              query = query;
              asked = is_text;
              limit = n;
              limited = read_limit-IsLimit limit_given n limited;
              tokens = tokens_of lowered;
              split = tokens_of-Splits lowered;
              matches = all;
              matching = score_all-AreMatches to_lower (tokens_of lowered) entries;
              best = take to_lower n (sort all);
              others = drop n (sort all);
              complete = subst (λ l. Perm l all) parts (sort-perm all);
              ordered = subst IsOrdered parts (sort-IsOrdered all);
              many =
                  subst (λ l. length (take to_lower n (sort all)) ≡ min n (length l)) parts
                    (length-take n (sort all));
              answers = refl;
            }))))
