-- ===== src/Memory/Store/Saving.antt =====
-- What a save writes, and what it leaves alone.
use agent_routebench.Prelude.{
  ℕ, ◌≡◌, refl, false, ◌&&◌, String, List, some, ◌==◌, leb, length, all, if◌then◌else◌, ok, AfterOk,
  bind-AfterOk, ensure-AfterOk, eq_iff, eq_refl, ap, ◌∙◌, Bool-cases, inl, inr,
}
use agent_routebench.Prelude.Maps.{lookup, insert, lookup-insert}
use agent_routebench.Contracts.Value.{Value, keys, read}
use agent_routebench.Memory.Store.{
  Limits, invalid_entry, invalid_memory_id, MemoryEntry, Store, as_object, or_refuse, is_field,
  assert_id, as_kind, as_content, tags_of, id_or_new, entries_of, is_absent, created_at_of, write,
  save, get,
}

-- The parts of an entry that a save is given, as its input holds them.
pub record Accepted (limits : Limits) (scope_id id kind content : String) (tags : List String)
    : Type 0 where
  pub scope_given : (given : Value) × (assert_id given invalid_entry ≡ ok scope_id)
  pub id_given : (given : Value) × (assert_id given invalid_memory_id ≡ ok id)
  pub kind_given : (given : Value) × (as_kind given ≡ ok kind)
  pub content_given : (given : Value) × (as_content limits.max_content_bytes given ≡ ok content)
  pub tags_given : (given : Value) × (tags_of limits given ≡ ok tags)

-- What holds after every write of accepted parts holds after a save.
pub save-AfterOk {κ} :
    (P : MemoryEntry × Store → Type κ) (limits : Limits) (now : ℕ) (new : Value) (store : Store)
    (input : Value)
    → ((scope_id id kind content : String) (tags : List String)
        → Accepted limits scope_id id kind content tags
        → AfterOk P (write limits now store scope_id id kind content tags))
    → AfterOk P (save limits now new store input)
unfolding save
save-AfterOk P limits now new store input h =
    bind-AfterOk (or_refuse (as_object input)) _ (λ raw e0.
      ensure-AfterOk (all is_field (keys raw)) invalid_entry _ (λ fields.
        bind-AfterOk (assert_id (read "scopeId" raw) invalid_entry) _ (λ scope_id e1.
          bind-AfterOk (as_kind (read "kind" raw)) _ (λ kind e2.
            bind-AfterOk (as_content limits.max_content_bytes (read "content" raw)) _ (λ content e3.
              bind-AfterOk (tags_of limits (read "tags" raw)) _ (λ tags e4.
                bind-AfterOk (assert_id (id_or_new (read "id" raw) new) invalid_memory_id) _
                  (λ id e5. h scope_id id kind content tags (record {
                    scope_given = (read "scopeId" raw, e1);
                    id_given = (id_or_new (read "id" raw) new, e5);
                    kind_given = (read "kind" raw, e2);
                    content_given = (read "content" raw, e3);
                    tags_given = (read "tags" raw, e4);
                  }))))))))

-- The entry is there, in its place; every other place is as it was; and an entry that is
-- overwritten keeps its time of creation.
pub record IsSaved (now : ℕ) (store : Store) (saved : MemoryEntry × Store) : Type 0 where
  pub found : get saved.1 saved.0.scope_id saved.0.id ≡ some saved.0
  pub others :
      (scope_id id : String)
      → (saved.0.scope_id == scope_id && saved.0.id == id) ≡ false
      → get saved.1 scope_id id ≡ get store scope_id id
  pub created : saved.0.created_at ≡ created_at_of (get store saved.0.scope_id saved.0.id) now
  pub updated : saved.0.updated_at ≡ now

get-insert :
    (scope_id id wanted_scope wanted : String) (entry : MemoryEntry) (store : Store)
    → get
        (insert scope_id (insert id entry (entries_of (lookup scope_id store))) store)
        wanted_scope
        wanted
      ≡ (if scope_id == wanted_scope && id == wanted
          then some entry
          else get store wanted_scope wanted)
unfolding get
get-insert scope_id id wanted_scope wanted entry store =
    rw
      (lookup-insert scope_id wanted_scope (insert id entry (entries_of (lookup scope_id store)))
        store)
      (elim (Bool-cases (scope_id == wanted_scope)) [
        | inl same ↦
            rw (same, lookup-insert id wanted entry (entries_of (lookup scope_id store)))
              (ap
                (λ s.
                  if id == wanted then some entry else lookup wanted (entries_of (lookup s store)))
                ((eq_iff scope_id wanted_scope).0 same))
        | inr other ↦ rw other
      ])

abbrev pub entry_of : ℕ → Store → String → String → String → String → List String → MemoryEntry
entry_of now store scope_id id kind content tags = record {
  id = id;
  scope_id = scope_id;
  kind = kind;
  content = content;
  tags = tags;
  created_at = created_at_of (get store scope_id id) now;
  updated_at = now;
}

-- A write that is not refused has room.
pub write-AfterOk {κ} :
    (P : MemoryEntry × Store → Type κ) (limits : Limits) (now : ℕ) (store : Store)
    (scope_id id kind content : String) (tags : List String)
    → ((is_absent (get store scope_id id)
            && leb limits.max_entries (length (entries_of (lookup scope_id store))))
          ≡ false
        → P (
          entry_of now store scope_id id kind content tags,
          insert scope_id
              (insert id
                (entry_of now store scope_id id kind content tags)
                (entries_of (lookup scope_id store)))
              store,
        ))
    → AfterOk P (write limits now store scope_id id kind content tags)
unfolding write get
write-AfterOk P limits now store scope_id id kind content tags h =
    elim (Bool-cases (
      is_absent (get store scope_id id)
      && leb limits.max_entries (length (entries_of (lookup scope_id store))))) [
        | inl full ↦ rw full (record { holds = tt })
        | inr room ↦ rw room (record { holds = h room })
      ]

-- A save that is accepted writes its entry: read by its scope and id it is the entry that was
-- returned, every other entry reads as before, its time of update is the clock's, and its time of
-- creation that of the entry it replaces, or the clock's if there is none.
pub save-IsSaved :
    (limits : Limits) (now : ℕ) (new : Value) (store : Store) (input : Value)
    → AfterOk (IsSaved now store) (save limits now new store input)
save-IsSaved limits now new store input =
    save-AfterOk (IsSaved now store) limits now new store input
      (λ scope_id id kind content tags accepted. written scope_id id kind content tags)
  where
    written :
        (scope_id id kind content : String) (tags : List String)
        → AfterOk (IsSaved now store) (write limits now store scope_id id kind content tags)
    written scope_id id kind content tags =
        let entry = entry_of now store scope_id id kind content tags in
        write-AfterOk (IsSaved now store) limits now store scope_id id kind content tags (λ room.
          record {
            found =
                get-insert scope_id id scope_id id entry store ∙ rw (eq_refl scope_id, eq_refl id);
            others = λ other_scope other apart.
                get-insert scope_id id other_scope other entry store ∙ rw apart;
            created = refl;
            updated = refl;
          })
