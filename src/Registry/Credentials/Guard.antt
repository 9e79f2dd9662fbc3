-- ===== src/Registry/Credentials/Guard.antt =====
-- What the credential store lets through to a backend, and what it lets back.
use Prim.Native.String.{len}
use agent_routebench.Prelude.{
  ℕ, ◌≤◌, ◌≡◌, ◌⊎◌, refl, Bool, true, false, not, String, codes, List, [], ◌∷◌, none, some, all,
  All, subst, if◌then◌else◌, Outcome, ok, err, arith, Bool-cases, Option-cases, inl, inr,
}
use agent_routebench.Contracts.Value.{Value, string}
use agent_routebench.Registry.Names.{is_credential_ref, is_space}
use agent_routebench.Registry.Credentials.{
  Backend, Thrown, read_ref, read_secret, is_secret, is_control, collapsed, set, get, has, remove,
}

-- A secret may be stored: it has at most 16384 bytes, some character that is no white space, and no
-- control character but tab, line feed and carriage return.
pub record IsSecret (secret : String) : Type 0 where
  pub small : len secret ≤ 16384
  pub visible : all is_space (codes secret) ≡ false
  pub printable :
      All (λ code. (32 ≤ code) ⊎ ((code ≡ 9) ⊎ ((code ≡ 10) ⊎ (code ≡ 13)))) (codes secret)

printable-All :
    (text : List ℕ)
    → all (λ code. not (is_control code)) text ≡ true
    → All (λ code. (32 ≤ code) ⊎ ((code ≡ 9) ⊎ ((code ≡ 10) ⊎ (code ≡ 13)))) text
printable-All [] h = tt
printable-All (code ∷ rest) h = (ground arith, printable-All rest (ground arith))

pub is_secret-IsSecret : (secret : String) → is_secret secret ≡ true → IsSecret secret
is_secret-IsSecret secret h = record {
  small = ground arith;
  visible = ground arith;
  printable = printable-All (codes secret) (ground arith);
}

All-printable :
    (text : List ℕ)
    → All (λ code. (32 ≤ code) ⊎ ((code ≡ 9) ⊎ ((code ≡ 10) ⊎ (code ≡ 13)))) text
    → all (λ code. not (is_control code)) text ≡ true
All-printable [] h = refl
All-printable (code ∷ rest) h = ground (arith, All-printable rest h.1, h.0)

pub IsSecret-is_secret : (secret : String) → IsSecret secret → is_secret secret ≡ true
IsSecret-is_secret secret h =
    ground (arith, h.small, h.visible, All-printable (codes secret) h.printable)

pub passes-test :
    (test : String → Bool) (given text : String)
    → (if test given then some given else none) ≡ some text
    → test text ≡ true
passes-test test given text h = elim (Bool-cases (test given)) [
  | inl e ↦ let same : given ≡ text = ground arith in subst (λ t. test t ≡ true) same e
  | inr e ↦ absurd (ground arith)
]

-- What a client asks of the store.
pub data Request : Type 0 where
  setting : Value → Value → Request
  getting having removing : Value → Request

module _ {S : Type 0} (backend : Backend S) where
  -- The backend's state after the requests.
  abbrev pub after : Request → S → S
  after (setting ref secret) s = (set backend ref secret s).1
  after (getting ref) s = (get backend ref s).1
  after (having ref) s = (has backend ref s).1
  after (removing ref) s = (remove backend ref s).1

  abbrev pub after_all : List Request → S → S
  after_all [] s = s
  after_all (request ∷ requests) s = after_all requests (after request s)

  -- What the four operations of the backend keep, where they are given a credential reference and, to
  -- be set, a secret.
  pub record Preserves (P : S → Type 0) : Type 0 where
    pub get_keeps :
        (ref : String) (s : S) → is_credential_ref ref ≡ true → P s → P (backend.get ref s).1
    pub has_keeps :
        (ref : String) (s : S) → is_credential_ref ref ≡ true → P s → P (backend.has ref s).1
    pub delete_keeps :
        (ref : String) (s : S) → is_credential_ref ref ≡ true → P s → P (backend.delete ref s).1
    pub set_keeps :
        (ref secret : String) (s : S)
        → is_credential_ref ref ≡ true
        → IsSecret secret
        → P s
        → P (backend.set ref secret s).1

  pub collapsed-state : {A : Type 0} (reply : Outcome Thrown A × S) → (collapsed reply).1 ≡ reply.1
  collapsed-state (ok a, s) = refl
  collapsed-state (err thrown, s) = refl

  read_ref-valid : (v : Value) (ref : String) → read_ref v ≡ some ref → is_credential_ref ref ≡ true
  unfolding read_ref
  read_ref-valid (string given) ref h = passes-test is_credential_ref given ref h
  read_ref-valid _ ref h = absurd (ground arith)

  pub read_secret-IsSecret :
      (v : Value) (secret : String) → read_secret v ≡ some secret → IsSecret secret
  unfolding read_secret
  read_secret-IsSecret (string given) secret h =
      is_secret-IsSecret secret (passes-test is_secret given secret h)
  read_secret-IsSecret _ secret h = absurd (ground arith)

  set-keeps :
      (P : S → Type 0)
      → Preserves P
      → (ref secret : Value) (s : S) → P s
      → P (set backend ref secret s).1
  unfolding set
  set-keeps P keeps ref secret s p = elim (Option-cases (read_ref ref)) [
    | inl absent ↦ rw (set, absent) p
    | inr (known, e) ↦ elim (Option-cases (read_secret secret)) [
      | inl absent ↦ rw (set, e, absent) p
      | inr (text, f) ↦
          rw (set, e, f, collapsed-state (backend.set known text s))
            (keeps.set_keeps known text s (read_ref-valid ref known e)
              (read_secret-IsSecret secret text f) p)
    ]
  ]

  get-keeps : (P : S → Type 0) → Preserves P → (ref : Value) (s : S) → P s → P (get backend ref s).1
  unfolding get
  get-keeps P keeps ref s p = elim (Option-cases (read_ref ref)) [
    | inl absent ↦ rw (get, absent) p
    | inr (known, e) ↦ rw (get, e) (keeps.get_keeps known s (read_ref-valid ref known e) p)
  ]

  has-keeps : (P : S → Type 0) → Preserves P → (ref : Value) (s : S) → P s → P (has backend ref s).1
  unfolding has
  has-keeps P keeps ref s p = elim (Option-cases (read_ref ref)) [
    | inl absent ↦ rw (has, absent) p
    | inr (known, e) ↦ rw (has, e) (keeps.has_keeps known s (read_ref-valid ref known e) p)
  ]

  remove-keeps :
      (P : S → Type 0) → Preserves P → (ref : Value) (s : S) → P s → P (remove backend ref s).1
  unfolding remove
  remove-keeps P keeps ref s p = elim (Option-cases (read_ref ref)) [
    | inl absent ↦ rw (remove, absent) p
    | inr (known, e) ↦
        rw (remove, e, collapsed-state (backend.delete known s))
          (keeps.delete_keeps known s (read_ref-valid ref known e) p)
  ]

  after-Preserves :
      (P : S → Type 0) → Preserves P → (request : Request) (s : S) → P s → P (after request s)
  after-Preserves P keeps (getting ref) s p = get-keeps P keeps ref s p
  after-Preserves P keeps (having ref) s p = has-keeps P keeps ref s p
  after-Preserves P keeps (removing ref) s p = remove-keeps P keeps ref s p
  after-Preserves P keeps (setting ref secret) s p = set-keeps P keeps ref secret s p

  -- Whatever clients ask of the store, its backend keeps what its operations keep for credential
  -- references and storable secrets: nothing else reaches it.
  pub after_all-Preserves :
      (P : S → Type 0)
      → Preserves P
      → (requests : List Request) (s : S) → P s
      → P (after_all requests s)
  after_all-Preserves P keeps [] s p = p
  after_all-Preserves P keeps (request ∷ requests) s p =
      after_all-Preserves P keeps requests (after request s) (after-Preserves P keeps request s p)
