-- ===== src/Memory/Search/Matches.antt =====
-- Which entries a search of packages/agent-memory/src/memory-store.ts matches, and how well.
use agent_routebench.Prelude.{
  ℕ, suc, ◌<◌, ◌≡◌, ◌⊎◌, refl, ap, subst, true, List, [], ◌∷◌, ◌++◌, ltb, arith, Bool-cases, inl,
  inr,
}
use agent_routebench.Memory.Store.{MemoryEntry}
use agent_routebench.Memory.Search.Tokens.{searched, haystack_of-searched}
use agent_routebench.Memory.Search.{Scored, starts_with, contains, score_of, haystack_of, score_all}

-- The text has the token somewhere within it.
abbrev pub Contains : List ℕ → List ℕ → Type 0
Contains token text = (before : List ℕ) × (after : List ℕ) × (text ≡ before ++ (token ++ after))

-- How many of the tokens a text contains.
abbrev pub Counts : List (List ℕ) → List ℕ → ℕ → Type 0
Counts [] text n = n ≡ 0
Counts (token ∷ tokens) text n =
    (Contains token text × ((m : ℕ) × (n ≡ suc m) × Counts tokens text m))
    ⊎ ((Contains token text → ⊥) × Counts tokens text n)

starts_with-split :
    (token text : List ℕ)
    → starts_with token text ≡ true
    → (after : List ℕ) × (text ≡ token ++ after)
starts_with-split [] text h = (text, refl)
starts_with-split (c ∷ cs) [] h = absurd (ground arith)
starts_with-split (c ∷ cs) (d ∷ ds) h =
    let (after, e) = starts_with-split cs ds (ground arith) in
    let same : d ≡ c = ground arith in (after, cc)

starts_with-append : (token after : List ℕ) → starts_with token (token ++ after) ≡ true
starts_with-append [] after = refl
starts_with-append (c ∷ cs) after = ground (arith, starts_with-append cs after)

contains-Contains : (token text : List ℕ) → contains token text ≡ true → Contains token text
contains-Contains token [] h = let (after, e) = starts_with-split token [] h in ([], after, e)
contains-Contains token (c ∷ cs) h = elim (Bool-cases (starts_with token (c ∷ cs))) [
  | inl here ↦ let (after, e) = starts_with-split token (c ∷ cs) here in ([], after, e)
  | inr later ↦
      let (before, after, e) = contains-Contains token cs (ground arith) in
      (c ∷ before, after, ap (◌∷◌ c) e)
]

contains-within : (token before after : List ℕ) → contains token (before ++ (token ++ after)) ≡ true
contains-within token [] after = at_start token (token ++ after) (starts_with-append token after)
  where
    at_start : (token text : List ℕ) → starts_with token text ≡ true → contains token text ≡ true
    at_start token [] h = h
    at_start token (c ∷ cs) h = rw h
contains-within token (c ∷ cs) after = ground (arith, contains-within token cs after)

score_of-Counts :
    (tokens : List (List ℕ)) (text : List ℕ) → Counts tokens text (score_of tokens text)
score_of-Counts [] text = refl
score_of-Counts (token ∷ tokens) text = elim (Bool-cases (contains token text)) [
  | inl found ↦ rw found (
      inl (
        contains-Contains token text found,
        (score_of tokens text, ground arith, score_of-Counts tokens text),
      ))
  | inr missed ↦ rw missed (
      inr (
        (λ (within : Contains token text).
            let e : contains token text ≡ true =
              rw within.2 (contains-within token within.0 within.1) in
            absurd (ground arith)),
        score_of-Counts tokens text,
      ))
]

module _ (to_lower : List ℕ → List ℕ) where
  -- The matches among some entries, in the order of the entries: each entry that contains a token,
  -- with the number of tokens that it contains.
  abbrev pub AreMatches : List (List ℕ) → List MemoryEntry → List Scored → Type 0
  AreMatches tokens [] scored = scored ≡ []
  AreMatches tokens (entry ∷ entries) scored =
      (n : ℕ) × Counts tokens (to_lower (searched entry)) n
      × (((n ≡ 0) × AreMatches tokens entries scored)
          ⊎ ((0 < n)
              × ((rest : List Scored) × (scored ≡ (n, entry) ∷ rest)
                  × AreMatches tokens entries rest)))

  pub score_all-AreMatches :
      (tokens : List (List ℕ)) (entries : List MemoryEntry)
      → AreMatches tokens entries (score_all to_lower tokens entries)
  unfolding score_all
  score_all-AreMatches tokens [] = refl
  score_all-AreMatches tokens (entry ∷ entries) =
      let text = to_lower (haystack_of entry) in
      let score = score_of tokens text in
      let counted =
        subst (λ t. Counts tokens (to_lower t) score) (haystack_of-searched entry)
          (score_of-Counts tokens text) in
      let later = score_all-AreMatches tokens entries in
      elim (Bool-cases (ltb 0 score)) [
        | inl found ↦ rw found (score, counted, inr (ground arith, (_, refl, later)))
        | inr missed ↦ rw missed (score, counted, inl (ground arith, later))
      ]
