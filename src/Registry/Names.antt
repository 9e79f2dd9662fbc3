-- ===== src/Registry/Names.antt =====
-- The patterns of packages/provider-registry/src/types.ts, over code points.
use agent_routebench.Prelude.{
  ℕ, ◌+◌, Bool, true, false, not, ◌&&◌, ◌||◌, String, codes, codes_eq, includes_codes, List, [],
  ◌∷◌, Option, none, some, all, length, leb, nat_eq, map, if◌then◌else◌,
}

abbrev is_between : ℕ → ℕ → ℕ → Bool
is_between lo hi c = leb lo c && leb c hi

abbrev is_one_of : List ℕ → ℕ → Bool
is_one_of [] c = false
is_one_of (d ∷ ds) c = nat_eq d c || is_one_of ds c

abbrev pub is_lower : ℕ → Bool
is_lower c = is_between b'a' b'z' c

abbrev pub is_digit : ℕ → Bool
is_digit c = is_between b'0' b'9' c

-- `\s`, which are also the code points that `trim` removes.
unfoldable pub is_space : ℕ → Bool
is_space c =
    is_between 9 13 c
    || is_between 0x2000 0x200a c
    || is_one_of (32 ∷ 0xa0 ∷ 0x1680 ∷ 0x2028 ∷ 0x2029 ∷ 0x202f ∷ 0x205f ∷ 0x3000 ∷ 0xfeff ∷ []) c

-- [a-z0-9._-]
unfoldable pub is_id_code : ℕ → Bool
is_id_code c = is_lower c || is_digit c || is_one_of (codes "._-") c

-- [a-z][a-z0-9._-]{0,63}
unfoldable pub is_id : List ℕ → Bool
unfolding is_id_code
is_id [] = false
is_id (c ∷ cs) = is_lower c && all is_id_code cs && leb (length cs) 63

-- PROVIDER_ID_PATTERN
abbrev pub is_provider_id : String → Bool
is_provider_id s = is_id (codes s)

-- What follows a prefix.
abbrev pub after_prefix : List ℕ → List ℕ → Option (List ℕ)
after_prefix [] cs = some cs
after_prefix (p ∷ ps) [] = none
after_prefix (p ∷ ps) (c ∷ cs) = if nat_eq p c then after_prefix ps cs else none

abbrev holds_after : List ℕ → (List ℕ → Bool) → List ℕ → Bool
holds_after prefix test cs = elim (after_prefix prefix cs) [ none ↦ false | some rest ↦ test rest ]

-- CREDENTIAL_REF_PATTERN
abbrev pub is_credential_ref : String → Bool
is_credential_ref s = holds_after (codes "credential:") is_id (codes s)

abbrev ends_in_space : List ℕ → Bool
ends_in_space [] = false
ends_in_space (c ∷ []) = is_space c
ends_in_space (c ∷ d ∷ cs) = ends_in_space (d ∷ cs)

abbrev starts_with_space : List ℕ → Bool
starts_with_space [] = false
starts_with_space (c ∷ cs) = is_space c

-- `value.length > 0 && value.trim() === value`
unfoldable pub is_display_name : List ℕ → Bool
unfolding is_space
is_display_name [] = false
is_display_name (c ∷ cs) = not (starts_with_space (c ∷ cs)) && not (ends_in_space (c ∷ cs))

abbrev pub contains_space : List ℕ → Bool
contains_space [] = false
contains_space (c ∷ cs) = is_space c || contains_space cs

-- `value.includes(text)`
abbrev pub contains_text : List ℕ → List ℕ → Bool
contains_text text [] = holds_after text (λ _. true) []
contains_text text (c ∷ cs) = holds_after text (λ _. true) (c ∷ cs) || contains_text text cs

-- The letters of the patterns stand for both cases, by their flag `i`.
abbrev fold_case : List ℕ → List ℕ
fold_case [] = []
fold_case (c ∷ cs) = (if is_between b'A' b'Z' c then c + 32 else c) ∷ fold_case cs

abbrev is_alphanumeric : ℕ → Bool
is_alphanumeric c = is_lower c || is_digit c

abbrev one_then : List ℕ → (List ℕ → Bool) → List ℕ → Bool
one_then set test [] = false
one_then set test (c ∷ cs) = is_one_of set c && test cs

abbrev is_key_body : List ℕ → Bool
is_key_body cs = all (λ c. is_alphanumeric c || is_one_of (codes "_-") c) cs && leb 8 (length cs)

abbrev is_token_body : List ℕ → Bool
is_token_body [] = false
is_token_body (c ∷ cs) = all is_alphanumeric (c ∷ cs)

-- \S+$ behind the blanks of \s+
abbrev is_bearer_rest : List ℕ → Bool
is_bearer_rest [] = false
is_bearer_rest (c ∷ cs) = if is_space c then is_bearer_rest cs else not (contains_space (c ∷ cs))

abbrev is_bearer_tail : List ℕ → Bool
is_bearer_tail [] = false
is_bearer_tail (c ∷ cs) = is_space c && is_bearer_rest cs

-- Some pattern of SECRET_LIKE_MODEL_PATTERNS matches.
abbrev matches_secret : List ℕ → Bool
matches_secret cs =
    holds_after (codes "sk-") is_key_body cs
    || holds_after (codes "gh") (one_then (codes "pousr") (holds_after (codes "_") is_token_body))
        cs
    || holds_after (codes "xox") (one_then (codes "baprs") (holds_after (codes "-") (λ _. true))) cs
    || holds_after (codes "bearer") is_bearer_tail cs
    || includes_codes cs (
        map codes (
          "apikey" ∷ "api_key" ∷ "api-key" ∷ "authorization" ∷ "token" ∷ "secret" ∷ "password"
          ∷ []))

unfoldable pub is_secret_like : String → Bool
unfolding is_space
is_secret_like s = matches_secret (fold_case (codes s))

-- What assertModelName lets pass.
unfoldable pub is_model_name : String → Bool
unfolding is_secret_like
is_model_name s =
    not (codes_eq (codes s) [])
    && not (contains_space (codes s))
    && not (contains_text (codes "://") (codes s))
    && not (is_secret_like s)
