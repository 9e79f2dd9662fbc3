-- ===== src/Registry/Credentials/Reading.antt =====
-- What reading a secret gives.
use agent_routebench.Prelude.{
  ◌≡◌, refl, ◌∙◌, ap, sym, codes, all, Bool, true, false, String, Option, none, some, ◌==◌, eq_iff,
  if◌then◌else◌, Outcome, ok, err, arith, Bool-cases, Option-cases, inl, inr, subst,
}
use agent_routebench.Contracts.Value.{Value, string, undefined}
use agent_routebench.Registry.Names.{is_credential_ref, is_space}
use agent_routebench.Registry.Credentials.{
  Backend, Thrown, named, unnamed, CredentialError, invalid_credential_ref,
  credential_backend_failed, passed_on, read_ref, collapsed, read_secret, read_value, set, get,
}
use agent_routebench.Registry.Credentials.Guard.{
  IsSecret, collapsed-state, IsSecret-is_secret, passes-test,
}

-- A reply that is no secret, neither undefined nor an error of the store's own name.
abbrev pub IsBad : Outcome Thrown Value → Type 0
IsBad (ok undefined) = ⊥
IsBad (ok (string secret)) = secret ≡ ""
IsBad (ok _) = Unit
IsBad (err (named name message)) = (name == "ProviderRegistryError") ≡ false
IsBad (err unnamed) = Unit

-- What a secret that is read, or an error, says about the backend's reply.
abbrev pub IsReading : Outcome Thrown Value → Outcome CredentialError (Option String) → Type 0
IsReading reply (ok none) = reply ≡ ok undefined
IsReading reply (ok (some secret)) = (reply ≡ ok (string secret)) × ((secret == "") ≡ false)
IsReading reply (err (passed_on thrown)) =
    (reply ≡ err thrown) × ((message : String) × (thrown ≡ named "ProviderRegistryError" message))
IsReading reply (err credential_backend_failed) = IsBad reply
IsReading reply (err _) = ⊥

read_value-IsReading : (reply : Outcome Thrown Value) → IsReading reply (read_value reply)
read_value-IsReading (ok undefined) = refl
read_value-IsReading (ok (string secret)) = elim (Bool-cases (secret == "")) [
  | inl blank ↦ rw blank ((eq_iff secret "").0 blank)
  | inr full ↦ rw full (refl, full)
]
read_value-IsReading (err (named name message)) =
    elim (Bool-cases (name == "ProviderRegistryError")) [
      | inl own ↦
          let same : name ≡ "ProviderRegistryError" = (eq_iff name "ProviderRegistryError").0 own in
          rw own (refl, (message, rw same))
      | inr other ↦ rw other other
    ]
read_value-IsReading (err unnamed) = tt
read_value-IsReading (ok _) = tt

same-text :
    (test : String → Bool) (given text : String)
    → (if test given then some given else none) ≡ some text
    → given ≡ text
same-text test given text h = elim (Bool-cases (test given)) [
  | inl e ↦ ground arith
  | inr e ↦ absurd (ground arith)
]

pub known-ref :
    (v : Value) (ref : String)
    → read_ref v ≡ some ref
    → (v ≡ string ref) × (is_credential_ref ref ≡ true)
unfolding read_ref
known-ref (string given) ref h =
    (ap string (same-text is_credential_ref given ref h), passes-test is_credential_ref given ref h)
known-ref _ ref h = absurd (ground arith)

not_empty : (text : String) → IsSecret text → (text == "") ≡ false
not_empty text h = elim (Bool-cases (text == "")) [
  | inl e ↦
      let same : text ≡ "" = (eq_iff text "").0 e in
      let blank : all is_space (codes text) ≡ true =
        subst (λ t. all is_space (codes t) ≡ true) (sym same) refl in
      let visible = h.visible in absurd (ground arith)
  | inr e ↦ e
]

module _ {S : Type 0} (backend : Backend S) where
  -- What `get` answers.
  pub data Gets (given : Value) (s : S) : Outcome CredentialError (Option String) × S → Type 0 where
    refuses : read_ref given ≡ none → Gets given s (err invalid_credential_ref, s)
    asks :
        (ref : String) (answer : Outcome CredentialError (Option String))
        → given ≡ string ref
        → is_credential_ref ref ≡ true
        → IsReading (backend.get ref s).0 answer
        → Gets given s (answer, (backend.get ref s).1)

  -- Whatever the backend replies, `get` refuses what is no credential reference without asking it; for
  -- a reference it asks it once, and it answers with a secret only if the backend replied with that
  -- text and the text is not empty, and with none only if the backend replied undefined. All else is
  -- the error credential_backend_failed, but for an error of the backend that is named
  -- "ProviderRegistryError": that one is thrown on as it is.
  pub get-Gets : (given : Value) (s : S) → Gets given s (get backend given s)
  unfolding get
  get-Gets given s = elim (Option-cases (read_ref given)) [
    | inl absent ↦ rw (get, absent) (refuses absent)
    | inr (ref, e) ↦
        let known = known-ref given ref e in
        rw (get, e) (asks ref _ known.0 known.1 (read_value-IsReading (backend.get ref s).0))
  ]

  -- A backend that keeps what it is given.
  abbrev pub Remembers : Type 0
  Remembers =
      (ref secret : String) (s : S)
      → ((backend.set ref secret s).0 ≡ ok tt)
        × ((backend.get ref (backend.set ref secret s).1).0 ≡ ok (string secret))

  set-eq :
      (given secret : Value) (s : S) (ref text : String)
      → read_ref given ≡ some ref
      → read_secret secret ≡ some text
      → set backend given secret s ≡ collapsed (backend.set ref text s)
  unfolding set
  set-eq given secret s ref text e f = rw (set, e, f) refl

  collapsed-ok :
      (reply : Outcome Thrown (Unit {0}) × S) → reply.0 ≡ ok tt → (collapsed reply).0 ≡ ok tt
  collapsed-ok (ok a, s) h = refl
  collapsed-ok (err thrown, s) h = absurd (ground arith)

  get-known :
      (given : Value) (s : S) (ref : String)
      → read_ref given ≡ some ref
      → (get backend given s).0 ≡ read_value (backend.get ref s).0
  unfolding get
  get-known given s ref e = rw (get, e) refl

  -- Over a backend that remembers, every storable secret is stored under every credential reference
  -- without an error, and the next `get` of the reference answers with it.
  pub get-set :
      (ref text : String) (s : S)
      → Remembers
      → is_credential_ref ref ≡ true
      → IsSecret text
      → ((set backend (string ref) (string text) s).0 ≡ ok tt)
        × ((get backend (string ref) (set backend (string ref) (string text) s).1).0
            ≡ ok (some text))
  unfolding read_ref read_secret
  get-set ref text s remembers valid storable =
      let e : read_ref (string ref) ≡ some ref = rw (read_ref, valid) refl in
      let f : read_secret (string text) ≡ some text =
        rw (read_secret, IsSecret-is_secret text storable) refl in
      let stored = set-eq (string ref) (string text) s ref text e f in
      let reply = backend.set ref text s in
      (
        ap (λ a. a.0) stored ∙ collapsed-ok reply (remembers ref text s).0,
        ap (λ a. (get backend (string ref) a.1).0) stored
            ∙ ap (λ t. (get backend (string ref) t).0) (collapsed-state backend reply)
            ∙ get-known (string ref) reply.1 ref e
            ∙ ap read_value (remembers ref text s).1
            ∙ rw (not_empty text storable) refl,
      )
