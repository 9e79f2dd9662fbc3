-- ===== src/Registry/Credentials/InMemory.antt =====
-- The credential store in memory.
use agent_routebench.Prelude.{
  ◌≡◌, refl, Bool, eq_iff, subst, true, false, String, none, some, ◌==◌, if◌then◌else◌, ok, arith,
  Bool-cases, Option-cases, inl, inr,
}
use agent_routebench.Prelude.Maps.{lookup, insert, lookup-insert}
use agent_routebench.Contracts.Value.{Value, string}
use agent_routebench.Registry.Names.{is_credential_ref}
use agent_routebench.Registry.Credentials.Reading.{known-ref}
use agent_routebench.Registry.Credentials.{Secrets, read_ref, keep, find}

-- A secret that is kept: the reference and the text that were given, and what the store then finds.
pub record IsKept (given secret : Value) (before after : Secrets) : Type 0 where
  pub ref : String
  pub text : String
  pub given_ref : given ≡ string ref
  pub valid : is_credential_ref ref ≡ true
  pub given_text : secret ≡ string text
  pub full : (text == "") ≡ false
  pub finds :
      (wanted : String)
      → find (string wanted) after
        ≡ (if ref == wanted then some text else find (string wanted) before)

clash : (b : Bool) → b ≡ true → b ≡ false → ⊥
clash b h k = absurd (ground arith)

find-valid :
    (wanted : String) (secrets : Secrets)
    → is_credential_ref wanted ≡ true
    → find (string wanted) secrets ≡ lookup wanted secrets
unfolding find read_ref
find-valid wanted secrets h = rw (find, read_ref, h) refl

find-invalid :
    (wanted : String) (secrets : Secrets)
    → is_credential_ref wanted ≡ false
    → find (string wanted) secrets ≡ none
unfolding find read_ref
find-invalid wanted secrets h = rw (find, read_ref, h) refl

inserted-finds :
    (ref text wanted : String) (secrets : Secrets)
    → is_credential_ref ref ≡ true
    → find (string wanted) (insert ref text secrets)
      ≡ (if ref == wanted then some text else find (string wanted) secrets)
inserted-finds ref text wanted secrets valid = elim (Bool-cases (is_credential_ref wanted)) [
  | inl e ↦
      rw (find-valid wanted (insert ref text secrets) e, find-valid wanted secrets e)
        (lookup-insert ref wanted text secrets)
  | inr e ↦ elim (Bool-cases (ref == wanted)) [
    | inl same ↦ absurd (apart ref wanted ((eq_iff ref wanted).0 same) valid e)
    | inr differs ↦
        rw (find-invalid wanted (insert ref text secrets) e, find-invalid wanted secrets e, differs)
          refl
  ]
]
  where
    apart : (a b : String) → a ≡ b → is_credential_ref a ≡ true → is_credential_ref b ≡ false → ⊥
    apart a b same h k =
        let e : is_credential_ref b ≡ true = subst (λ t. is_credential_ref t ≡ true) same h in
        clash (is_credential_ref b) e k

accepted-IsKept :
    (given secret : Value) (secrets : Secrets)
    → (keep given secret secrets).0 ≡ ok tt
    → IsKept given secret secrets (keep given secret secrets).1
unfolding keep
accepted-IsKept given (string text) secrets h = elim (Option-cases (read_ref given)) [
  | inl absent ↦ absurd (ground arith)
  | inr (ref, e) ↦ elim (Bool-cases (text == "")) [
    | inl blank ↦ absurd (ground arith)
    | inr full ↦
        let known = known-ref given ref e in
        rw (keep, e, full)
          (record {
            ref = ref;
            text = text;
            given_ref = known.0;
            valid = known.1;
            given_text = refl;
            full = full;
            finds = λ wanted. inserted-finds ref text wanted secrets known.1;
          })
  ]
]
accepted-IsKept given _ secrets h = elim (Option-cases (read_ref given)) [
  | inl absent ↦ absurd (ground arith)
  | inr (ref, e) ↦ absurd (ground arith)
]

-- The inputs that the store in memory accepts: a credential reference and a text that is not empty.
abbrev pub IsAcceptable : Value → Value → Type 0
IsAcceptable given secret =
    (ref : String) × (text : String) × (given ≡ string ref)
    × (secret ≡ string text)
    × (is_credential_ref ref ≡ true)
    × ((text == "") ≡ false)

acceptable-kept :
    (ref text : String) (secrets : Secrets)
    → is_credential_ref ref ≡ true
    → (text == "") ≡ false
    → (keep (string ref) (string text) secrets).0 ≡ ok tt
unfolding keep read_ref
acceptable-kept ref text secrets valid full = rw (keep, read_ref, valid, full) refl

-- The store in memory accepts every text that is not empty under every credential reference, and
-- nothing else; it then finds that text under the reference, and under every other one what it found
-- before.
pub keep-IsKept :
    (given secret : Value) (secrets : Secrets)
    → (IsAcceptable given secret → (keep given secret secrets).0 ≡ ok tt)
      × ((keep given secret secrets).0 ≡ ok tt
          → IsKept given secret secrets (keep given secret secrets).1)
keep-IsKept given secret secrets = (
  (λ h.
      let (ref, text, is_ref, is_text, valid, full) = h in
      rw (is_ref, is_text) (acceptable-kept ref text secrets valid full)),
  accepted-IsKept given secret secrets,
)
