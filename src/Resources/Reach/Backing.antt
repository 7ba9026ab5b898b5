-- ===== src/Resources/Reach/Backing.antt =====
-- Every file has its bytes: its entry names an artifact of the same owner, whose digest is in the
-- entry's tag.
use http_harness.Base.{
  ℕ, ◌≡◌, refl, sym, ap, ◌∙◌, subst, arith, Bool, Option, none, some, Option-cases, inl, inr, ==→eq,
}
use http_harness.Base.Texts.{Text}
use http_harness.Base.Table.{Table, lookup, lookup-insert_cases}
use http_harness.Base.Ensures.{Ensures, Ensures-ok, Ensures-bind, Ensures-guard, Ensures-require}
use http_harness.Store.Rows.{Context}
use http_harness.Resources
use http_harness.Resources.{
  MediaType, ArtifactRow, EntityTag, EntryRow, FileSnapshot, AnswerRow, Store, Env, find_entry,
  is_entry,
}
use http_harness.Resources.Writes.{
  put_blob, new_artifact, record_answer, find_answer, create_found, create_artifact,
  garbage_collect_blobs,
}
use http_harness.Resources.Edits.{next_entry, next_revision}
use http_harness.Resources.Entries.{find_entry-is_entry}
use http_harness.Resources.Steps.{Wrote, write_file-Written}
use http_harness.Resources.Changes.{add_artifact-new}
use http_harness.Resources.Reach.{
  Move, Move-Keeps, Keeps, Reaches, no_files, IsSound, Holds, Reaches-IsSound, no_files-IsSound,
}
use http_harness.Resources.Reach.Rereads.{Wrote-Holds}

create_found-entries :
    (env : Env) (c : Context) (content : Text) (media : MediaType) (key : ℕ) (action : Option ℕ)
    (id : ℕ) (fingerprint : Text) (found : Option AnswerRow) (s : Store)
    → Ensures
        (λ (_, s'). s'.entries ≡ s.entries)
        (create_found env c content media key fingerprint action id found s)
unfolding create_found record_answer put_blob
create_found-entries env c content media key action id fingerprint (some answered) s =
    Ensures-guard _ _ _ _ λ _. Ensures-require _ _ _ _ λ row _. Ensures-ok _ _ refl
create_found-entries env c content media key action id fingerprint none s =
    Ensures-bind _ _ _ λ added a.
      let (free, is) =
        (add_artifact-new id (new_artifact env c content media action) (put_blob env content s)).at
          added a in
      Ensures-ok _ _ (ap (λ (t : Store). t.entries) is)

create_artifact-entries :
    (env : Env) (c : Context) (content : Text) (media : MediaType) (key : ℕ) (action : Option ℕ)
    (id : ℕ) (s : Store)
    → Ensures
        (λ (_, s'). s'.entries ≡ s.entries)
        (create_artifact env c content media key action id s)
unfolding create_artifact
create_artifact-entries env c content media key action id s =
    Ensures-guard _ _ _ _ λ _. create_found-entries env c content media key action id _ _ s

module _ (env : Env) (Sent : Text → Type 0)
    (collision_free : (a b : Text) → Sent a → Sent b → env.sha256 a ≡ env.sha256 b → a ≡ b) where
  pub record IsBacked (row : EntryRow) (content : Text) (s : Store) : Type 0 where
    pub artifact : ArtifactRow
    pub held : Holds env Sent collision_free row.artifact_id artifact content s
    pub tag : row.etag ≡ Resources.tag (env.sha256 content) row.revision
    pub tenant : artifact.tenant_id ≡ row.tenant_id
    pub subject : artifact.subject_id ≡ row.subject_id

  pub record AreBacked (s : Store) : Type 0 where
    pub at :
        (k : ℕ) (row : EntryRow)
        → lookup k s.entries ≡ some row
        → (content : Text) × IsBacked row content s

  pub Keeps-IsBacked :
      (row : EntryRow) (content : Text) (s s' : Store)
      → Keeps env Sent collision_free s s'
      → IsBacked row content s
      → IsBacked row content s'
  Keeps-IsBacked row content s s' keeps b = record {
    artifact = b.artifact;
    held = keeps.holds row.artifact_id b.artifact content b.held;
    tag = b.tag;
    tenant = b.tenant;
    subject = b.subject;
  }

  same_entries-AreBacked :
      (s s' : Store)
      → Keeps env Sent collision_free s s'
      → s'.entries ≡ s.entries
      → AreBacked s
      → AreBacked s'
  same_entries-AreBacked s s' keeps same all = record {
    at = λ k row e.
        let (content, b) = all.at k row (ap (λ (t : Table EntryRow). lookup k t) (sym same) ∙ e) in
        (content, Keeps-IsBacked row content s s' keeps b);
  }

  module _ (c : Context) (content : Text) (key : ℕ) (fingerprint : Text) (action : Option ℕ)
      (id : ℕ) (workspace : ℕ) (canonical : Text) (if_match if_none_match : Option EntityTag)
      (entry_id : ℕ) where
    next-IsBacked :
        (found : Option (ℕ × EntryRow)) (s s' : Store)
        → find_entry c workspace canonical s.entries ≡ found
        → Holds env Sent collision_free id
            (new_artifact env c content Resources.text_plain action)
            content
            s'
        → IsBacked
            (next_entry c workspace canonical
              (next_revision found)
              (Resources.tag (env.sha256 content) (next_revision found))
              id
              entry_id
              found).1
            content
            s'
    next-IsBacked none s s' is held = record {
      artifact = new_artifact env c content Resources.text_plain action;
      held = held;
      tag = refl;
      tenant = refl;
      subject = refl;
    }
    next-IsBacked (some (k, row)) s s' is held =
        let hit = find_entry-is_entry c workspace canonical k row s.entries is in
        record {
          artifact = new_artifact env c content Resources.text_plain action;
          held = held;
          tag = refl;
          tenant = ground (arith, ==→eq row.tenant_id c.tenant_id);
          subject = ground (arith, ==→eq row.subject_id c.subject_id);
        }

    Wrote-AreBacked :
        (s s' : Store) (r : FileSnapshot × Bool)
        → Sent content
        → IsSound env Sent collision_free s
        → Keeps env Sent collision_free s s'
        → Wrote env c content key fingerprint action id workspace canonical if_match if_none_match
            entry_id
            (find_entry c workspace canonical s.entries)
            s
            r
            s'
        → AreBacked s
        → AreBacked s'
    Wrote-AreBacked s s' r sent sound keeps w all =
        let held =
          Wrote-Holds env Sent collision_free c content key fingerprint action id workspace
            canonical if_match if_none_match entry_id _ s s' r sent sound w in
        let new = next-IsBacked _ s s' refl held in
        record {
          at = λ k row e.
              elim (lookup-insert_cases w.entry.0 k w.entry.1 row s.entries
                (ap (λ (t : Table EntryRow). lookup k t) (sym w.entries) ∙ e)) [
                  | inl (_, same) ↦ (
                    content,
                    subst (λ (r : EntryRow). IsBacked r content s')
                        (sym (same ∙ ap (λ (e : ℕ × EntryRow). e.1) w.is_entry)) new,
                  )
                  | inr (_, old) ↦
                      let (kept, b) = all.at k row old in
                      (kept, Keeps-IsBacked row kept s s' keeps b)
                ];
        }

  Move-AreBacked :
      (s s' : Store)
      → IsSound env Sent collision_free s
      → Keeps env Sent collision_free s s'
      → Move env Sent s s'
      → AreBacked s
      → AreBacked s'
  unfolding put_blob garbage_collect_blobs
  Move-AreBacked s s' sound keeps (Move.created c content media key action id r sent e) all =
      same_entries-AreBacked s s' keeps
        ((create_artifact-entries env c content media key action id s).at (r, s') e) all
  Move-AreBacked s s' sound keeps
        (Move.written c workspace path content key im inm action id entry_id r sent e) all =
      let (fingerprint, w) =
        (write_file-Written env c content key action id workspace path im inm entry_id s).at (r, s')
          e in
      elim (Option-cases (find_answer c (Resources.put_file workspace w.canonical) key s.answers)) [
        | inl fresh ↦
            Wrote-AreBacked c content key fingerprint action id workspace w.canonical im inm
              entry_id s s' r sent sound keeps (w.wrote fresh) all
        | inr (row, there) ↦ subst AreBacked (sym (w.kept row there)) all
      ]
  Move-AreBacked s s' sound keeps (Move.stopped content sent e) all =
      same_entries-AreBacked s s' keeps (ap (λ (t : Store). t.entries) e) all
  Move-AreBacked s s' sound keeps (Move.collected e) all =
      same_entries-AreBacked s s' keeps (ap (λ (t : Store). t.entries) e) all

  from-AreBacked :
      (s s' : Store)
      → IsSound env Sent collision_free s
      → AreBacked s
      → Reaches env Sent s s'
      → AreBacked s'
  from-AreBacked s s' sound all Reaches.here = all
  from-AreBacked s s' sound all (Reaches.after t t' path move) =
      let there = Reaches-IsSound env Sent collision_free s t sound path in
      Move-AreBacked t t' there (Move-Keeps env Sent collision_free t t' there move) move
        (from-AreBacked s t sound all path)

  no_files-AreBacked : AreBacked no_files
  unfolding lookup
  no_files-AreBacked = record { at = λ k row e. absurd (cc) }

  pub Reaches-AreBacked : (s : Store) → Reaches env Sent no_files s → AreBacked s
  Reaches-AreBacked s path =
      from-AreBacked no_files s (no_files-IsSound env Sent collision_free) no_files-AreBacked path
