-- ===== src/Memory/Store/Invariant.antt =====
-- The invariant of a store, whatever is done to it.
use agent_routebench.Prelude.{
  ℕ, suc, ◌≤◌, ◌≡◌, refl, true, false, not, ◌&&◌, String, List, [], ◌∷◌, Option, none, some, ◌==◌,
  leb, length, includes, IsDistinct, All, Outcome, ok, err, AfterOk, bind-AfterOk, ensure-AfterOk,
  ok-AfterOk, AfterOk-ok, AfterOk-mono, arith, eq_iff, eq_refl, Bool-cases, Option-cases, inl, inr,
}
use agent_routebench.Prelude.Maps.{
  lookup, insert, delete, Entries, Entries-insert, Entries-delete, Entries-lookup,
}
use agent_routebench.Contracts.Value.{Value, is_undefined, as_array}
use agent_routebench.Memory.Store.{
  Limits, MemoryErrorCode, invalid_entry, MemoryEntry, Scope, Store, is_text_within, as_content,
  read_tags, tags_of, or_refuse, entries_of, is_absent, write, save, get, delete_in, delete_entry,
  clear_in, clear,
}
use agent_routebench.Memory.Store.Saving.{Accepted, save-AfterOk, entry_of, write-AfterOk}

-- The tags that an entry may have.
pub record IsTags (limits : Limits) (tags : List String) : Type 0 where
  pub few : length tags ≤ limits.max_tags
  pub distinct : IsDistinct tags
  pub within : All (λ tag. is_text_within limits.max_tag_bytes tag ≡ true) tags

-- An entry in its place.
pub record IsEntry (limits : Limits) (scope_id id : String) (entry : MemoryEntry) : Type 0 where
  pub in_scope : entry.scope_id ≡ scope_id
  pub by_id : entry.id ≡ id
  pub content_within : is_text_within limits.max_content_bytes entry.content ≡ true
  pub tags_are : IsTags limits entry.tags

pub record IsScope (limits : Limits) (scope_id : String) (scope : Scope) : Type 0 where
  pub bounded : length scope ≤ limits.max_entries
  pub placed : Entries (IsEntry limits scope_id) scope

-- Every scope holds at most maxEntriesPerScope entries, each filed under its own scope and id, with
-- a content and tags within the limits.
abbrev pub IsStore : Limits → Store → Type 0
IsStore limits store = Entries (IsScope limits) store

as_content-within :
    (bytes : ℕ) (given : Value)
    → AfterOk (λ text. is_text_within bytes text ≡ true) (as_content bytes given)
as_content-within bytes (Value.string text) = elim (Bool-cases (is_text_within bytes text)) [
  | inl h ↦ rw h (record { holds = h })
  | inr h ↦ rw h (record { holds = tt })
]
as_content-within bytes _ = record { holds = tt }

record IsRead (bytes count : ℕ) (seen : List String) (tags : List String) : Type 0 where
  counted : length tags ≡ count
  distinct : IsDistinct tags
  fresh : (s : String) → includes s seen ≡ true → includes s tags ≡ false
  within : All (λ tag. is_text_within bytes tag ≡ true) tags

one_more_tag :
    (bytes count : ℕ) (seen : List String) (tag : String) (tags : List String)
    → is_text_within bytes tag ≡ true
    → not (includes tag seen) ≡ true
    → IsRead bytes count (tag ∷ seen) tags
    → IsRead bytes (suc count) seen (tag ∷ tags)
one_more_tag bytes count seen tag tags h new r = record {
  counted = omega (arith, r.counted);
  distinct = (r.fresh tag (ground (arith, eq_refl tag)), r.distinct);
  fresh = λ s k. elim (Bool-cases (tag == s)) [
    | inl e ↦ absurd (ground (arith, (eq_iff tag s).0 e, new, k))
    | inr e ↦ rw e (r.fresh s (ground (arith, k)))
  ];
  within = (h, r.within);
}

read_tags-IsRead :
    (bytes : ℕ) (seen : List String) (values : List Value)
    → AfterOk (IsRead bytes (length values) seen) (read_tags bytes seen values)
unfolding read_tags
read_tags-IsRead bytes seen [] =
    ok-AfterOk [] (record { counted = refl; distinct = tt; fresh = λ s h. refl; within = tt })
read_tags-IsRead bytes seen (value ∷ values) = bind-AfterOk (as_content bytes value) _ (λ tag e.
    ensure-AfterOk (not (includes tag seen)) invalid_entry _ (λ new.
      bind-AfterOk (read_tags bytes (tag ∷ seen) values) _ (λ tags f. ok-AfterOk _ (
        one_more_tag bytes (length values) seen tag tags
          (AfterOk-ok (as_content-within bytes value) e) new
          (AfterOk-ok (read_tags-IsRead bytes (tag ∷ seen) values) f)))))

tags_of-IsTags : (limits : Limits) (given : Value) → AfterOk (IsTags limits) (tags_of limits given)
unfolding tags_of
tags_of-IsTags limits given = elim (Bool-cases (is_undefined given)) [
  | inl absent ↦
      rw absent (ok-AfterOk [] (record { few = omega arith; distinct = tt; within = tt }))
  | inr present ↦ rw present (
      bind-AfterOk (or_refuse (as_array given)) _ (λ values e.
        ensure-AfterOk (leb (length values) limits.max_tags) invalid_entry _ (λ few.
          AfterOk-mono _ (read_tags-IsRead limits.max_tag_bytes [] values) (λ tags r. record {
            few = ground (arith, r.counted, few);
            distinct = r.distinct;
            within = r.within;
          }))))
]

length-insert :
    {V : Type 0} (k : String) (v : V) (entries : List (String × V))
    → length (insert k v entries) ≤ suc (length entries)
unfolding insert
length-insert k v [] = omega arith
length-insert k v ((j, w) ∷ entries) = ground (arith, length-insert k v entries)

length-replace :
    {V : Type 0} (k : String) (v w : V) (entries : List (String × V))
    → lookup k entries ≡ some w
    → length (insert k v entries) ≡ length entries
unfolding insert lookup
length-replace k v w [] h = absurd (cc)
length-replace k v w ((j, x) ∷ entries) h = elim (Bool-cases (j == k)) [
  | inl same ↦ rw same (omega arith)
  | inr other ↦ rw other (omega (arith, length-replace k v w entries (ground (arith, h))))
]

length-delete :
    {V : Type 0} (k : String) (entries : List (String × V))
    → length (delete k entries) ≤ length entries
unfolding delete
length-delete k [] = omega arith
length-delete k ((j, w) ∷ entries) = ground (arith, length-delete k entries)

lookup-IsScope :
    (limits : Limits) (scope_id : String) (store : Store)
    → IsStore limits store
    → IsScope limits scope_id (entries_of (lookup scope_id store))
lookup-IsScope limits scope_id store h = elim (Option-cases (lookup scope_id store)) [
  | inl absent ↦ rw absent (record { bounded = omega arith; placed = tt })
  | inr (scope, e) ↦ rw e (Entries-lookup (IsScope limits) scope_id store h e)
]

insert-bounded :
    (limits : Limits) (id : String) (entry : MemoryEntry) (scope : Scope) (o : Option MemoryEntry)
    → lookup id scope ≡ o
    → (is_absent o && leb limits.max_entries (length scope)) ≡ false
    → length scope ≤ limits.max_entries
    → length (insert id entry scope) ≤ limits.max_entries
insert-bounded limits id entry scope none e room h = ground (arith, length-insert id entry scope)
insert-bounded limits id entry scope (some old) e room h =
    omega (arith, length-replace id entry old scope e, h)

write-IsStore :
    (limits : Limits) (now : ℕ) (store : Store) (scope_id id kind content : String)
    (tags : List String)
    → IsStore limits store
    → Accepted limits scope_id id kind content tags
    → AfterOk
        (λ saved. IsStore limits saved.1)
        (write limits now store scope_id id kind content tags)
unfolding get
write-IsStore limits now store scope_id id kind content tags h a =
    let scope = entries_of (lookup scope_id store) in
    let entry = entry_of now store scope_id id kind content tags in
    let kept = lookup-IsScope limits scope_id store h in
    write-AfterOk (λ saved. IsStore limits saved.1) limits now store scope_id id kind content tags
      (λ room.
        Entries-insert (IsScope limits) scope_id (insert id entry scope) store
          (record {
            bounded = insert-bounded limits id entry scope (lookup id scope) refl room kept.bounded;
            placed =
                Entries-insert (IsEntry limits scope_id) id entry scope
                  (record {
                    in_scope = refl;
                    by_id = refl;
                    content_within =
                        AfterOk-ok (as_content-within limits.max_content_bytes a.content_given.0)
                          a.content_given.1;
                    tags_are = AfterOk-ok (tags_of-IsTags limits a.tags_given.0) a.tags_given.1;
                  })
                  kept.placed;
          })
          h)

-- What a client can do to a store.
pub data Command : Type 0 where
  save_at : (now : ℕ) (new input : Value) → Command
  delete_of : (scope_id id : String) → Command
  clear_of : (scope_id : String) → Command

abbrev pub store_after : Store → Outcome MemoryErrorCode (MemoryEntry × Store) → Store
store_after store (ok (entry, later)) = later
store_after store (err code) = store

-- A save that throws leaves the store as it is.
abbrev pub execute : Limits → Store → Command → Store
execute limits store (save_at now new input) = store_after store (save limits now new store input)
execute limits store (delete_of scope_id id) = (delete_entry store scope_id id).1
execute limits store (clear_of scope_id) = (clear store scope_id).1

abbrev pub execute_all : Limits → Store → List Command → Store
execute_all limits store [] = store
execute_all limits store (command ∷ commands) =
    execute_all limits (execute limits store command) commands

store_after-IsStore :
    (limits : Limits) (store : Store) (result : Outcome MemoryErrorCode (MemoryEntry × Store))
    → IsStore limits store
    → AfterOk (λ saved. IsStore limits saved.1) result
    → IsStore limits (store_after store result)
store_after-IsStore limits store (ok saved) h k = k.holds
store_after-IsStore limits store (err code) h k = h

delete_in-IsStore :
    (limits : Limits) (store : Store) (scope_id id : String) (o : Option Scope)
    → IsStore limits store
    → ((scope : Scope) → o ≡ some scope → IsScope limits scope_id scope)
    → IsStore limits (delete_in o store scope_id id).1
delete_in-IsStore limits store scope_id id none h k = h
delete_in-IsStore limits store scope_id id (some scope) h k =
    Entries-insert (IsScope limits) scope_id (delete id scope) store
      (record {
        bounded = omega (arith, length-delete id scope, (k scope refl).bounded);
        placed = Entries-delete (IsEntry limits scope_id) id scope (k scope refl).placed;
      })
      h

clear_in-IsStore :
    (limits : Limits) (store : Store) (scope_id : String) (o : Option Scope)
    → IsStore limits store
    → IsStore limits (clear_in o store scope_id).1
clear_in-IsStore limits store scope_id none h = h
clear_in-IsStore limits store scope_id (some scope) h =
    Entries-insert (IsScope limits) scope_id [] store
      (record { bounded = omega arith; placed = tt }) h

execute-IsStore :
    (limits : Limits) (store : Store) (command : Command)
    → IsStore limits store
    → IsStore limits (execute limits store command)
unfolding delete_entry clear
execute-IsStore limits store (save_at now new input) h =
    store_after-IsStore limits store (save limits now new store input) h (
      save-AfterOk (λ saved. IsStore limits saved.1) limits now new store input
        (λ scope_id id kind content tags a.
          write-IsStore limits now store scope_id id kind content tags h a))
execute-IsStore limits store (delete_of scope_id id) h =
    delete_in-IsStore limits store scope_id id (lookup scope_id store) h
      (λ scope e. Entries-lookup (IsScope limits) scope_id store h e)
execute-IsStore limits store (clear_of scope_id) h =
    clear_in-IsStore limits store scope_id (lookup scope_id store) h

-- Whatever is saved, deleted and cleared, in whatever order, and with whatever inputs, a store that
-- begins empty holds at most maxEntriesPerScope entries in each scope, each filed under its own scope
-- and id, with a content of at most maxContentBytes bytes and at most maxTagsPerEntry distinct tags
-- of at most maxTagBytes bytes each.
pub execute_all-IsStore :
    (limits : Limits) (commands : List Command) → IsStore limits (execute_all limits [] commands)
execute_all-IsStore limits commands = onward [] commands tt
  where
    onward :
        (store : Store) (commands : List Command)
        → IsStore limits store
        → IsStore limits (execute_all limits store commands)
    onward store [] h = h
    onward store (command ∷ commands) h =
        onward (execute limits store command) commands (execute-IsStore limits store command h)
