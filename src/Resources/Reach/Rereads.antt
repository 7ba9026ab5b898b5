-- ===== src/Resources/Reach/Rereads.antt =====
-- Files are read as they were written (`write_file`, `read_file`).
use http_harness.Base.{
  ℕ, ◌≡◌, refl, sym, ap, ◌∙◌, subst, arith, Bool, true, Option, none, some, ==-refl, is_none→eq,
}
use http_harness.Base.Texts.{Text, list_eq_refl}
use http_harness.Base.Table.{Table, insert, lookup-insert}
use http_harness.Base.Ensures.{ok, ◌>>=◌, guard, require}
use http_harness.Store.Rows.{Context}
use http_harness.Resources
use http_harness.Resources.{
  MediaType, ArtifactRow, EntityTag, EntryRow, FileSnapshot, FileContent, Store, Env, AnswerRow,
  owns_artifact, visible_artifact, artifact_bytes, get_artifact_content, read_file, find_entry,
  file_snapshot, is_entry, normalize_file_path,
}
use http_harness.Resources.Writes.{new_artifact, find_answer}
use http_harness.Resources.Edits.{write_file, next_entry, next_revision, is_free}
use http_harness.Resources.Blobs.{Describes, Describes-artifact_bytes, new_artifact-Describes}
use http_harness.Resources.Entries.{
  AreTagged, find_entry-lookup, find_entry-insert, find_entry-insert_first,
}
use http_harness.Resources.Steps.{Wrote, write_file-Written}
use http_harness.Resources.Reach.{
  Reaches, no_files, IsSound, Holds, Reaches-IsSound, no_files-IsSound,
}
use http_harness.Resources.Reach.Contents.{ok-eq, owned_by_maker}

module _ (env : Env) (Sent : Text → Type 0)
    (collision_free : (a b : Text) → Sent a → Sent b → env.sha256 a ≡ env.sha256 b → a ≡ b) where
  module _ (c : Context) (content : Text) (key : ℕ) (fingerprint : Text) (action : Option ℕ)
      (id : ℕ) (workspace : ℕ) (canonical : Text) (if_match if_none_match : Option EntityTag)
      (entry_id : ℕ) where
    pub Wrote-Holds :
        (found : Option (ℕ × EntryRow)) (s s' : Store) (r : FileSnapshot × Bool)
        → Sent content
        → IsSound env Sent collision_free s
        → Wrote env c content key fingerprint action id workspace canonical if_match if_none_match
            entry_id found s r s'
        → Holds env Sent collision_free id
            (new_artifact env c content Resources.text_plain action)
            content
            s'
    Wrote-Holds found s s' r sent sound w = record {
      at = rw w.artifacts (
          ground (
            arith,
            lookup-insert id id (new_artifact env c content Resources.text_plain action)
                s.artifacts,
            ==-refl id,
          ));
      described =
          subst (Describes env (new_artifact env c content Resources.text_plain action) content)
            (sym w.blobs)
            (new_artifact-Describes env Sent collision_free c content Resources.text_plain action s
              sent sound.digests);
    }

    abbrev next : Option (ℕ × EntryRow) → ℕ × EntryRow
    next found =
        next_entry c workspace canonical (next_revision found)
          (Resources.tag (env.sha256 content) (next_revision found)) id entry_id found

    next-find_entry :
        (found : Option (ℕ × EntryRow)) (t : Table EntryRow)
        → AreTagged t
        → is_free found entry_id t ≡ true
        → find_entry c workspace canonical t ≡ found
        → find_entry c workspace canonical (insert (next found).0 (next found).1 t)
          ≡ some (next found)
    next-find_entry none t tagged free is =
        find_entry-insert_first c workspace canonical entry_id (next none).1 t (is_none→eq free)
          (ground (
            arith,
            ==-refl c.tenant_id,
            ==-refl c.subject_id,
            ==-refl workspace,
            list_eq_refl canonical,
          ))
          is
    next-find_entry (some (k, row)) t tagged free is =
        find_entry-insert c workspace canonical k row (next (some (k, row))).1 k row t tagged.keys
          (find_entry-lookup c workspace canonical k row t tagged.keys is) refl is
        ∙ ground (arith, ==-refl k)

    pub Wrote-find_entry :
        (s s' : Store) (r : FileSnapshot × Bool)
        → AreTagged s.entries
        → (w : Wrote env c content key fingerprint action id workspace canonical if_match
            if_none_match entry_id
            (find_entry c workspace canonical s.entries)
            s
            r
            s')
        → find_entry c workspace canonical s'.entries ≡ some w.entry
    Wrote-find_entry s s' r tagged w =
        rw (w.entries, w.is_entry)
          (next-find_entry (find_entry c workspace canonical s.entries) s.entries tagged w.unused
            refl)

    next-artifact_id : (found : Option (ℕ × EntryRow)) → (next found).1.artifact_id ≡ id
    next-artifact_id none = refl
    next-artifact_id (some (k, row)) = refl

    Wrote-read_file :
        (path : Text) (s s' : Store) (r : FileSnapshot × Bool)
        → Sent content
        → IsSound env Sent collision_free s
        → normalize_file_path env path ≡ ok canonical
        → Wrote env c content key fingerprint action id workspace canonical if_match if_none_match
            entry_id
            (find_entry c workspace canonical s.entries)
            s
            r
            s'
        → read_file env c workspace path s'
          ≡ ok (record { snapshot = r.0; content = content; media_type = Resources.text_plain })
    unfolding read_file visible_artifact ◌>>=◌ guard require
    Wrote-read_file path s s' r sent sound normal w =
        let held = Wrote-Holds (find_entry c workspace canonical s.entries) s s' r sent sound w in
        let row = new_artifact env c content Resources.text_plain action in
        let there = Wrote-find_entry s s' r sound.tagged w in
        let pointed : w.entry.1.artifact_id ≡ id =
          ap (λ (e : ℕ × EntryRow). e.1.artifact_id) w.is_entry ∙ next-artifact_id _ in
        rw (normal, there, pointed, held.at)
          (ground (
            arith,
            w.snapshot,
            owned_by_maker env c content Resources.text_plain action,
            Describes-artifact_bytes env row content s' held.described,
          ))

  -- A file that is written under a new key is read back with the snapshot that the write returned
  -- and the bytes that it sent.
  pub write_file-read_file :
      (c : Context) (workspace : ℕ) (path canonical content : Text) (key : ℕ)
      (if_match if_none_match : Option EntityTag) (action : Option ℕ) (id entry_id : ℕ)
      (r : FileSnapshot × Bool) (s s' : Store)
      → Reaches env Sent no_files s
      → Sent content
      → normalize_file_path env path ≡ ok canonical
      → find_answer c (Resources.put_file workspace canonical) key s.answers ≡ none
      → write_file env c workspace path content key if_match if_none_match action id entry_id s
        ≡ ok (r, s')
      → read_file env c workspace path s'
        ≡ ok (record { snapshot = r.0; content = content; media_type = Resources.text_plain })
  write_file-read_file c workspace path canonical content key im inm action id entry_id r s s'
        before sent normal fresh done =
      let sound =
        Reaches-IsSound env Sent collision_free no_files s
          (no_files-IsSound env Sent collision_free) before in
      let (fingerprint, w) =
        (write_file-Written env c content key action id workspace path im inm entry_id s).at (r, s')
          done in
      let same : w.canonical ≡ canonical = ok-eq (sym w.normal ∙ normal) in
      Wrote-read_file c content key fingerprint action id workspace w.canonical im inm entry_id path
        s s' r sent sound w.normal (w.wrote (rw same fresh))
