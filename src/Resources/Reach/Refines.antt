-- ===== src/Resources/Reach/Refines.antt =====
-- `write_file` keeps what files promise.
use http_harness.Base.{
  ℕ, ◌≡◌, ◌⊎◌, refl, ◌∙◌, Bool, true, false, Option, none, some, Bool-cases, inl, inr, ltb,
}
use http_harness.Base.Texts.{Text, length}
use http_harness.Base.Table.{Table, lookup}
use http_harness.Base.Ensures.{ok, err, ◌>>=◌, guard}
use http_harness.Domain.Errors.{precondition_failed, data_error}
use http_harness.Store.Rows.{Context}
use http_harness.Resources
use http_harness.Resources.{
  ArtifactRow, EntityTag, EntryRow, FileSnapshot, FileContent, Store, Env, find_entry, is_entry,
  same_tag, read_file, normalize_file_path, owns_artifact, visible_artifact,
}
use http_harness.Resources.Writes.{add_artifact, find_answer}
use http_harness.Resources.Edits.{write_file, write_found, write_new, may_write, is_free, fits}
use http_harness.Resources.Reach.{Reaches, no_files, Reaches-IsSound, no_files-IsSound}
use http_harness.Resources.Reach.Backing.{Reaches-AreBacked}
use http_harness.Resources.Reach.Promise.{
  Condition, matches, absent, if_match, if_none_match, file_at, allows, overwritten, is_same_file,
  may_write-allows,
}
use http_harness.Resources.Reach.Overwriting.{write_file-Steps}

module _ (env : Env) (Sent : Text → Type 0)
    (collision_free : (a b : Text) → Sent a → Sent b → env.sha256 a ≡ env.sha256 b → a ≡ b) where
  module _ (c : Context) (workspace : ℕ) (path canonical content : Text) (key : ℕ)
      (condition : Condition) (action : Option ℕ) (id entry_id : ℕ) where
    is_free-unused :
        (found : Option (ℕ × EntryRow)) (t : Table EntryRow)
        → lookup entry_id t ≡ none
        → is_free found entry_id t ≡ true
    is_free-unused none t unused = rw unused refl
    is_free-unused (some found) t unused = refl

    write_new-returns :
        (fingerprint : Text) (found : Option (ℕ × EntryRow)) (s : Store)
        → lookup id s.artifacts ≡ none
        → lookup entry_id s.entries ≡ none
        → may_write found (if_match condition) (if_none_match condition) ≡ true
        → fits env workspace canonical ≡ true
        → (p : (FileSnapshot × Bool) × Store) × (write_new env c workspace canonical content key
              fingerprint
              (if_match condition)
              (if_none_match condition)
              action
              id
              entry_id
              found
              s
            ≡ ok p)
    unfolding write_new add_artifact ◌>>=◌ guard
    write_new-returns fingerprint found s free unused may room =
        rw (may, free, is_free-unused found s.entries unused, room) (_, refl)

    write_new-too_long :
        (fingerprint : Text) (found : Option (ℕ × EntryRow)) (s : Store)
        → lookup id s.artifacts ≡ none
        → lookup entry_id s.entries ≡ none
        → may_write found (if_match condition) (if_none_match condition) ≡ true
        → fits env workspace canonical ≡ false
        → write_new env c workspace canonical content key fingerprint
            (if_match condition)
            (if_none_match condition)
            action
            id
            entry_id
            found
            s
          ≡ err data_error
    unfolding write_new add_artifact ◌>>=◌ guard
    write_new-too_long fingerprint found s free unused may long =
        rw (may, free, is_free-unused found s.entries unused, long) refl

    write_new-rejects :
        (fingerprint : Text) (found : Option (ℕ × EntryRow)) (s : Store)
        → may_write found (if_match condition) (if_none_match condition) ≡ false
        → write_new env c workspace canonical content key fingerprint
            (if_match condition)
            (if_none_match condition)
            action
            id
            entry_id
            found
            s
          ≡ err precondition_failed
    unfolding write_new ◌>>=◌ guard
    write_new-rejects fingerprint found s may = rw may refl

    write_file-write_new :
        (required : Condition) (s : Store)
        → normalize_file_path env path ≡ ok canonical
        → ltb 1048576 (length content) ≡ false
        → find_answer c (Resources.put_file workspace canonical) key s.answers ≡ none
        → (fingerprint : Text) × (write_file env c workspace path content key
              (if_match required)
              (if_none_match required)
              action
              id
              entry_id
              s
            ≡ write_new env c workspace canonical content key fingerprint
                (if_match required)
                (if_none_match required)
                action
                id
                entry_id
                (find_entry c workspace canonical s.entries)
                s)
    unfolding write_file write_found ◌>>=◌ guard
    write_file-write_new (matches t) s normal small fresh = rw (normal, small, fresh) (_, refl)
    write_file-write_new absent s normal small fresh = rw (normal, small, fresh) (_, refl)

    -- In a store reached from the empty one, where no two contents that are sent have one digest, a
    -- write under a new key and new identifiers, of a normal path and an allowed size, is one step of
    -- the map. Where what is seen at the path satisfies the condition of the request, the write returns,
    -- the path has the next revision and the content that was sent, and any other path of anybody shows
    -- what it showed; but where the route of the file is longer than 256 characters or the name of its
    -- workspace longer than 128, the write ends in the error of the database. Where the condition does
    -- not hold, it is refused with `precondition_failed`.
    pub write_file-refines :
        (s : Store) (c' : Context) (workspace' : ℕ) (path' canonical' : Text)
        → Reaches env Sent no_files s
        → Sent content
        → normalize_file_path env path ≡ ok canonical
        → ltb 1048576 (length content) ≡ false
        → find_answer c (Resources.put_file workspace canonical) key s.answers ≡ none
        → lookup id s.artifacts ≡ none
        → lookup entry_id s.entries ≡ none
        → normalize_file_path env path' ≡ ok canonical'
        → is_same_file c workspace canonical c' workspace' canonical' ≡ false
        → ((allows env condition (file_at env c workspace path s) ≡ true)
            × (fits env workspace canonical ≡ true)
            × (p : (FileSnapshot × Bool) × Store) × (write_file env c workspace path content key
                  (if_match condition)
                  (if_none_match condition)
                  action
                  id
                  entry_id
                  s
                ≡ ok p)
            × (file_at env c workspace path p.1
                ≡ overwritten (file_at env c workspace path s) content)
            × (file_at env c' workspace' path' p.1 ≡ file_at env c' workspace' path' s))
          ⊎ ((allows env condition (file_at env c workspace path s) ≡ true)
              × (fits env workspace canonical ≡ false)
              × (write_file env c workspace path content key
                    (if_match condition)
                    (if_none_match condition)
                    action
                    id
                    entry_id
                    s
                  ≡ err data_error))
          ⊎ ((allows env condition (file_at env c workspace path s) ≡ false)
              × (write_file env c workspace path content key
                    (if_match condition)
                    (if_none_match condition)
                    action
                    id
                    entry_id
                    s
                  ≡ err precondition_failed))
    write_file-refines s c' workspace' path' canonical' before sent normal small fresh free unused
          normal' apart =
        let sound =
          Reaches-IsSound env Sent collision_free no_files s
            (no_files-IsSound env Sent collision_free) before in
        let all = Reaches-AreBacked env Sent collision_free s before in
        let same =
          may_write-allows env Sent collision_free c workspace path canonical s normal condition _
            sound.tagged all refl in
        let (fingerprint, is_new) = write_file-write_new condition s normal small fresh in
        elim (Bool-cases (allows env condition (file_at env c workspace path s))) [
          | inl may ↦ elim (Bool-cases (fits env workspace canonical)) [
            | inl room ↦
                let ((r, s'), new) =
                  write_new-returns fingerprint _ s free unused (same ∙ may) room in
                let done = is_new ∙ new in
                let steps =
                  write_file-Steps env Sent collision_free c workspace path canonical content key
                    condition action id entry_id r s s' before sent normal fresh done in
                inl (
                  may,
                  room,
                  (r, s'),
                  done,
                  steps.written,
                  steps.others c' workspace' path' canonical' normal' apart,
                )
            | inr long ↦ inr (
                inl (
                  may,
                  long,
                  is_new ∙ write_new-too_long fingerprint _ s free unused (same ∙ may) long,
                ))
          ]
          | inr no_match ↦
              inr (inr (no_match, is_new ∙ write_new-rejects fingerprint _ s (same ∙ no_match)))
        ]
