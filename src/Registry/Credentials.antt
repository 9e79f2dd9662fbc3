-- ===== src/Registry/Credentials.antt =====
-- packages/provider-registry/src/credential-store.ts: the credential store in front of a backend, and
-- the store in memory. The backend is not part of the program: it is any state with four operations,
-- each of which gives a value or throws. A promise that it returns settles.
pub mod Guard
pub mod Reading
pub mod InMemory
use Prim.Native.String.{len}
use agent_routebench.Prelude.{
  ℕ, Bool, true, false, not, ◌&&◌, ◌||◌, String, codes, List, [], ◌∷◌, Option, none, some, ◌==◌,
  all, ltb, leb, nat_eq, if◌then◌else◌, Outcome, ok, err,
}
use agent_routebench.Prelude.Maps.{lookup, insert, delete}
use agent_routebench.Contracts.Value.{Value, undefined, null, boolean, string, number, natural, nan}
use agent_routebench.Registry.Names.{is_credential_ref, is_space}

-- What a backend throws: an error with a name and a message, or anything else.
pub data Thrown : Type 0 where
  named : String → String → Thrown
  unnamed : Thrown

-- CredentialBackend
pub record Backend (S : Type 0) : Type 0 where
  pub get : String → S → Outcome Thrown Value × S
  pub set : String → String → S → Outcome Thrown (Unit {0}) × S
  pub has : String → S → Outcome Thrown Value × S
  pub delete : String → S → Outcome Thrown (Unit {0}) × S

-- The errors of the store; the last one is an error of the backend that `get` throws on.
pub data CredentialError : Type 0 where
  invalid_credential_ref invalid_credential_value credential_backend_failed : CredentialError
  passed_on : Thrown → CredentialError

-- hasRefShape, and assertCredentialRef.
unfoldable pub read_ref : Value → Option String
read_ref (string ref) = if is_credential_ref ref then some ref else none
read_ref _ = none

abbrev pub is_control : ℕ → Bool
is_control code = ltb code 32 && not (nat_eq code 10) && not (nat_eq code 13) && not (nat_eq code 9)

-- The conditions of assertCredentialValue on a text. An empty text is blank.
abbrev pub is_secret : String → Bool
is_secret secret =
    not (all is_space (codes secret))
    && leb (len secret) 16384
    && all (λ code. not (is_control code)) (codes secret)

-- assertCredentialValue
unfoldable pub read_secret : Value → Option String
read_secret (string secret) = if is_secret secret then some secret else none
read_secret _ = none

-- `Boolean(value)`
abbrev pub is_truthy : Value → Bool
is_truthy undefined = false
is_truthy null = false
is_truthy (boolean b) = b
is_truthy (string text) = not (text == "")
is_truthy (number nan) = false
is_truthy (number (natural n)) = not (nat_eq n 0)
is_truthy _ = true

-- The errors that `get` does not replace.
abbrev pub is_registry_error : Thrown → Bool
is_registry_error (named name message) = name == "ProviderRegistryError"
is_registry_error unnamed = false

-- A call of the backend, whose errors are all one.
abbrev pub collapsed :
    {A : Type 0} {S : Type 0} → Outcome Thrown A × S → Outcome CredentialError A × S
collapsed (ok a, s) = (ok a, s)
collapsed (err thrown, s) = (err credential_backend_failed, s)

abbrev pub read_value : Outcome Thrown Value → Outcome CredentialError (Option String)
read_value (ok undefined) = ok none
read_value (ok (string secret)) =
    if secret == "" then err credential_backend_failed else ok (some secret)
read_value (ok _) = err credential_backend_failed
read_value (err thrown) =
    if is_registry_error thrown then err (passed_on thrown) else err credential_backend_failed

abbrev pub read_presence : Outcome Thrown Value → Outcome CredentialError Bool
read_presence (ok value) = ok (is_truthy value)
read_presence (err thrown) = err credential_backend_failed

-- SecureCredentialStore
module _ {S : Type 0} (backend : Backend S) where
  unfoldable pub set : Value → Value → S → Outcome CredentialError (Unit {0}) × S
  set ref secret s = elim (read_ref ref) [
    | none ↦ (err invalid_credential_ref, s)
    | some known ↦ elim (read_secret secret) [
      | none ↦ (err invalid_credential_value, s)
      | some text ↦ collapsed (backend.set known text s)
    ]
  ]

  unfoldable pub get : Value → S → Outcome CredentialError (Option String) × S
  get ref s = elim (read_ref ref) [
    | none ↦ (err invalid_credential_ref, s)
    | some known ↦ let reply = backend.get known s in (read_value reply.0, reply.1)
  ]

  unfoldable pub has : Value → S → Outcome CredentialError Bool × S
  has ref s = elim (read_ref ref) [
    | none ↦ (err invalid_credential_ref, s)
    | some known ↦ let reply = backend.has known s in (read_presence reply.0, reply.1)
  ]

  unfoldable pub remove : Value → S → Outcome CredentialError (Unit {0}) × S
  remove ref s = elim (read_ref ref) [
    | none ↦ (err invalid_credential_ref, s)
    | some known ↦ collapsed (backend.delete known s)
  ]

-- InMemoryCredentialStore: the state is the map #secrets.
abbrev pub Secrets : Type 0
Secrets = List (String × String)

unfoldable pub keep : Value → Value → Secrets → Outcome CredentialError (Unit {0}) × Secrets
keep ref (string secret) secrets = elim (read_ref ref) [
  | none ↦ (err invalid_credential_ref, secrets)
  | some known ↦
      if secret == ""
      then (err invalid_credential_value, secrets)
      else (ok tt, insert known secret secrets)
]
keep ref _ secrets = elim (read_ref ref) [
  | none ↦ (err invalid_credential_ref, secrets)
  | some known ↦ (err invalid_credential_value, secrets)
]

unfoldable pub find : Value → Secrets → Option String
find ref secrets = elim (read_ref ref) [ none ↦ none | some known ↦ lookup known secrets ]

abbrev is_some : Option String → Bool
is_some none = false
is_some (some secret) = true

unfoldable pub is_kept : Value → Secrets → Bool
is_kept ref secrets = elim (read_ref ref) [
  | none ↦ false
  | some known ↦ is_some (lookup known secrets)
]

unfoldable pub forget : Value → Secrets → Secrets
forget ref secrets = elim (read_ref ref) [ none ↦ secrets | some known ↦ delete known secrets ]
