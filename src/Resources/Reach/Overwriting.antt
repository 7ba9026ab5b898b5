-- ===== src/Resources/Reach/Overwriting.antt =====
-- What a write leaves at every path (`write_file`).
use http_harness.Base.{
  ℕ, ◌≡◌, refl, sym, ap, ◌∙◌, subst, arith, Bool, true, false, Option, none, some, ==-refl,
}
use http_harness.Base.Texts.{Text, list_eq_refl}
use http_harness.Base.Table.{Table, insert}
use http_harness.Base.Ensures.{ok}
use http_harness.Store.Rows.{Context}
use http_harness.Resources
use http_harness.Resources.{
  ArtifactRow, EntityTag, EntryRow, FileSnapshot, FileContent, Store, Env, find_entry, is_entry,
  same_tag, read_file, normalize_file_path, owns_artifact, visible_artifact,
}
use http_harness.Resources.Writes.{find_answer}
use http_harness.Resources.Edits.{write_file, next_entry, next_revision, is_free}
use http_harness.Resources.Entries.{
  AreTagged, find_entry-lookup, find_entry-is_entry, find_entry-insert_other,
}
use http_harness.Resources.Steps.{write_file-Written}
use http_harness.Resources.Reach.{
  Move, Move-Keeps, Reaches, no_files, Reaches-IsSound, no_files-IsSound,
}
use http_harness.Resources.Reach.Contents.{ok-eq}
use http_harness.Resources.Reach.Rereads.{write_file-read_file}
use http_harness.Resources.Reach.Backing.{Reaches-AreBacked}
use http_harness.Resources.Reach.Promise.{
  Condition, if_match, if_none_match, shown, file_at, overwritten, is_same_file, other_entry,
  overwritten-next, file_at-unwritten,
}

some-eq {ℓ} : {A : Type ℓ} {a b : A} → some a ≡ some b → a ≡ b
some-eq h = cc

module _ (env : Env) (Sent : Text → Type 0)
    (collision_free : (a b : Text) → Sent a → Sent b → env.sha256 a ≡ env.sha256 b → a ≡ b) where
  module _ (c : Context) (workspace : ℕ) (canonical content : Text) (id entry_id : ℕ) where
    abbrev next : Option (ℕ × EntryRow) → ℕ × EntryRow
    next found =
        next_entry c workspace canonical (next_revision found)
          (Resources.tag (env.sha256 content) (next_revision found)) id entry_id found

    next-revision : (found : Option (ℕ × EntryRow)) → (next found).1.revision ≡ next_revision found
    next-revision none = refl
    next-revision (some (k, row)) = refl

    next-find_entry :
        (c' : Context) (workspace' : ℕ) (path' : Text) (found : Option (ℕ × EntryRow))
        (t : Table EntryRow)
        → is_same_file c workspace canonical c' workspace' path' ≡ false
        → AreTagged t
        → is_free found entry_id t ≡ true
        → find_entry c workspace canonical t ≡ found
        → find_entry c' workspace' path' (insert (next found).0 (next found).1 t)
          ≡ find_entry c' workspace' path' t
    next-find_entry c' workspace' path' none t apart tagged free is =
        find_entry-insert_other c' workspace' path' entry_id (next none).1 t
          (other_entry c workspace canonical c' workspace' path' (next none).1 apart (
            ground (
              arith,
              ==-refl c.tenant_id,
              ==-refl c.subject_id,
              ==-refl workspace,
              list_eq_refl canonical,
            )))
          (λ old at. ground arith)
    next-find_entry c' workspace' path' (some (k, row)) t apart tagged free is =
        let hit = find_entry-is_entry c workspace canonical k row t is in
        let there = find_entry-lookup c workspace canonical k row t tagged.keys is in
        let miss = other_entry c workspace canonical c' workspace' path' row apart hit in
        find_entry-insert_other c' workspace' path' k (next (some (k, row))).1 t miss (λ old at.
          let same : row ≡ old = some-eq (sym there ∙ at) in
          subst (λ (r : EntryRow). is_entry c' workspace' path' r ≡ false) same miss)

  -- The store after a write shows what the map has after the step.
  pub record Steps (c : Context) (workspace : ℕ) (path canonical content : Text) (s s' : Store)
      : Type 0 where
    pub written :
        file_at env c workspace path s' ≡ overwritten (file_at env c workspace path s) content
    pub others :
        (c' : Context) (workspace' : ℕ) (path' canonical' : Text)
        → normalize_file_path env path' ≡ ok canonical'
        → is_same_file c workspace canonical c' workspace' canonical' ≡ false
        → file_at env c' workspace' path' s' ≡ file_at env c' workspace' path' s

  module _ (c : Context) (workspace : ℕ) (path canonical content : Text) (key : ℕ)
      (condition : Condition) (action : Option ℕ) (id entry_id : ℕ) where
    pub write_file-Steps :
        (r : FileSnapshot × Bool) (s s' : Store)
        → Reaches env Sent no_files s
        → Sent content
        → normalize_file_path env path ≡ ok canonical
        → find_answer c (Resources.put_file workspace canonical) key s.answers ≡ none
        → write_file env c workspace path content key
            (if_match condition)
            (if_none_match condition)
            action
            id
            entry_id
            s
          ≡ ok (r, s')
        → Steps c workspace path canonical content s s'
    write_file-Steps r s s' before sent normal fresh done =
        let sound =
          Reaches-IsSound env Sent collision_free no_files s
            (no_files-IsSound env Sent collision_free) before in
        let all = Reaches-AreBacked env Sent collision_free s before in
        let keeps = Move-Keeps env Sent collision_free s s' sound (
          Move.written c workspace path content key (if_match condition) (if_none_match condition)
            action id entry_id r sent done) in
        let (fingerprint, w) =
          (write_file-Written env c content key action id workspace path (if_match condition)
              (if_none_match condition) entry_id s).at
            (r, s') done in
        let same : w.canonical ≡ canonical = ok-eq (sym w.normal ∙ normal) in
        let wrote = w.wrote (rw same fresh) in
        let revision : r.0.revision ≡ next_revision (find_entry c workspace w.canonical s.entries) =
          ap (λ (f : FileSnapshot). f.revision) wrote.snapshot
          ∙ ap (λ (e : ℕ × EntryRow). e.1.revision) wrote.is_entry
          ∙ next-revision c workspace w.canonical content id entry_id _ in
        record {
          written =
              ap shown (
                write_file-read_file env Sent collision_free c workspace path canonical content key
                  (if_match condition) (if_none_match condition) action id entry_id r s s' before
                  sent normal fresh done)
              ∙ ap (λ (n : ℕ). some (n, content)) revision
              ∙ sym (
                  overwritten-next env Sent collision_free c workspace path w.canonical s w.normal
                    content _ sound.tagged all refl);
          others = λ c' workspace' path' canonical' normal' apart.
              file_at-unwritten env Sent collision_free c' workspace' path' canonical' s s' normal'
                sound.tagged all keeps
                (ap (λ (t : Table EntryRow). find_entry c' workspace' canonical' t) wrote.entries
                  ∙ ap
                      (λ (e : ℕ × EntryRow).
                        find_entry c' workspace' canonical' (insert e.0 e.1 s.entries))
                      wrote.is_entry
                  ∙ next-find_entry c workspace w.canonical content id entry_id c' workspace'
                      canonical' _ s.entries (rw same apart) sound.tagged wrote.unused refl);
        }
