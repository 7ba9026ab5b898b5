-- ===== src/Resources/Steps.antt =====
-- What a write of a file changes (`write_file`).
use http_harness.Base.{
  subst, ℕ, ◌≡◌, refl, sym, ap, ◌∙◌, arith, true, Option, none, some, is_none→eq, is_none,
  Option-cases, inl, inr, not, Bool,
}
use http_harness.Base.Texts.{Text}
use http_harness.Base.Table.{lookup, insert}
use http_harness.Base.Ensures.{ok, Ensures, Ensures-ok, Ensures-err, Ensures-bind, Ensures-guard}
use http_harness.Store.Rows.{Context}
use http_harness.Resources
use http_harness.Resources.{
  MediaType, ArtifactRow, EntityTag, EntryRow, FileSnapshot, Answer, AnswerRow, Store, Env,
  find_entry, normalize_file_path, file_snapshot, visible_artifact, owns_artifact,
}
use http_harness.Resources.Writes.{put_blob, new_artifact, find_answer, record_answer}
use http_harness.Resources.Edits.{
  replay_file, may_write, next_revision, next_entry, is_free, write_new, write_found, write_file,
}
use http_harness.Resources.Entries.{EntryMove, AreTagged, find_entry-lookup}
use http_harness.Resources.Changes.{ArtifactMove, Change, add_artifact-new}

module _ (env : Env) (c : Context) (content : Text) (key : ℕ) (fingerprint : Text)
    (action : Option ℕ) (id : ℕ) where
  module _ (workspace : ℕ) (canonical : Text) (if_match if_none_match : Option EntityTag)
      (entry_id : ℕ) where
    -- A write that is committed under a new key.
    pub record Wrote (found : Option (ℕ × EntryRow)) (s : Store) (r : FileSnapshot × Bool)
        (s' : Store) : Type 0 where
      pub allowed : may_write found if_match if_none_match ≡ true
      pub free : lookup id s.artifacts ≡ none
      pub unused : is_free found entry_id s.entries ≡ true
      pub artifacts :
          s'.artifacts
          ≡ insert id (new_artifact env c content Resources.text_plain action) s.artifacts
      pub blobs : s'.blobs ≡ (put_blob env content s).blobs
      pub entry : ℕ × EntryRow
      pub is_entry :
          entry
          ≡ next_entry c workspace canonical
              (next_revision found)
              (Resources.tag (env.sha256 content) (next_revision found))
              id
              entry_id
              found
      pub entries : s'.entries ≡ insert entry.0 entry.1 s.entries
      pub snapshot : r.0 ≡ file_snapshot entry.1

    pub write_new-Wrote :
        (found : Option (ℕ × EntryRow)) (s : Store)
        → Ensures
            (λ (r, s'). Wrote found s r s')
            (write_new env c workspace canonical content key fingerprint if_match if_none_match
              action id entry_id found s)
    unfolding write_new record_answer put_blob
    write_new-Wrote found s = Ensures-guard _ _ _ _ λ may. Ensures-bind _ _ _ λ added a.
        Ensures-guard _ _ _ _ λ unused. Ensures-guard _ _ _ _ λ _.
          let (free, is) =
            (add_artifact-new id (new_artifact env c content Resources.text_plain action)
                (put_blob env content s)).at
              added a in
          let entry =
            next_entry c workspace canonical (next_revision found)
              (Resources.tag (env.sha256 content) (next_revision found)) id entry_id found in
          Ensures-ok _ _ (record {
            allowed = may;
            free = free;
            unused = unused;
            artifacts = ap (λ (t : Store). t.artifacts) is;
            blobs = ap (λ (t : Store). t.blobs) is;
            entry = entry;
            is_entry = refl;
            entries = ap (λ (t : Store). insert entry.0 entry.1 t.entries) is;
            snapshot = refl;
          })

    pub Wrote-Change :
        (found : Option (ℕ × EntryRow)) (s s' : Store) (r : FileSnapshot × Bool)
        → find_entry c workspace canonical s.entries ≡ found
        → AreTagged s.entries
        → Wrote found s r s'
        → Change env content s s'
    Wrote-Change none s s' r is tagged w = record {
      artifacts = ArtifactMove.added id _ w.free w.artifacts w.blobs;
      entries =
          EntryMove.added entry_id w.entry.1 (env.sha256 content) (is_none→eq w.unused)
            (cc (w.is_entry)) (w.entries ∙ cc (w.is_entry));
    }
    Wrote-Change (some (k, row)) s s' r is tagged w = record {
      artifacts = ArtifactMove.added id _ w.free w.artifacts w.blobs;
      entries =
          EntryMove.revised k row (env.sha256 content) id
            (find_entry-lookup c workspace canonical k row s.entries tagged.keys is)
            (w.entries ∙ cc (w.is_entry));
    }

  -- What a write that returns has done: it kept the store, or wrote under a new key.
  pub record Written (workspace : ℕ) (path : Text) (if_match if_none_match : Option EntityTag)
      (entry_id : ℕ) (s : Store) (r : FileSnapshot × Bool) (s' : Store) : Type 0 where
    pub canonical : Text
    pub exclusive : is_none if_match ≡ not (is_none if_none_match)
    pub normal : normalize_file_path env path ≡ ok canonical
    pub kept :
        (row : AnswerRow)
        → find_answer c (Resources.put_file workspace canonical) key s.answers ≡ some row
        → s' ≡ s
    pub wrote :
        find_answer c (Resources.put_file workspace canonical) key s.answers ≡ none
        → Wrote workspace canonical if_match if_none_match entry_id
            (find_entry c workspace canonical s.entries)
            s
            r
            s'

none_not_some {ℓ} : {A : Type ℓ} (a : A) → ◌≡◌ {A = Option A} none (some a) → ⊥
none_not_some a h = absurd (cc)

module _ (env : Env) (c : Context) (content : Text) (key : ℕ) (action : Option ℕ) (id : ℕ) where
  replay_file-kept :
      (answer : Answer) (s : Store) → Ensures (λ (_, s'). s' ≡ s) (replay_file answer s)
  replay_file-kept (Answer.file snapshot created) s = Ensures-ok _ _ refl
  replay_file-kept (Answer.artifact id) s = Ensures-err _ _

  module _ (fingerprint : Text) (workspace : ℕ) (path canonical : Text)
      (if_match if_none_match : Option EntityTag) (entry_id : ℕ) where
    write_found-Written :
        (found : Option AnswerRow) (s : Store)
        → is_none if_match ≡ not (is_none if_none_match)
        → normalize_file_path env path ≡ ok canonical
        → find_answer c (Resources.put_file workspace canonical) key s.answers ≡ found
        → Ensures
            (λ (r, s').
              Written env c content key fingerprint action id workspace path if_match if_none_match
                entry_id s r s')
            (write_found env c workspace canonical content key fingerprint if_match if_none_match
              action id entry_id found s)
    unfolding write_found
    write_found-Written (some row) s one normal is = Ensures-guard _ _ _ _ λ _. record {
      at = λ (r, s') e. record {
        canonical = canonical;
        exclusive = one;
        normal = normal;
        kept = λ _ _. (replay_file-kept row.answer s).at (r, s') e;
        wrote = λ fresh. absurd (none_not_some row (sym fresh ∙ is));
      };
    }
    write_found-Written none s one normal is = record {
      at = λ (r, s') e. record {
        canonical = canonical;
        exclusive = one;
        normal = normal;
        kept = λ row there. absurd (none_not_some row (sym is ∙ there));
        wrote = λ _.
            (write_new-Wrote env c content key fingerprint action id workspace canonical if_match
                if_none_match entry_id _ s).at
              (r, s') e;
      };
    }

  pub write_file-Written :
      (workspace : ℕ) (path : Text) (if_match if_none_match : Option EntityTag) (entry_id : ℕ)
      (s : Store)
      → Ensures
          (λ (r, s').
            (fingerprint : Text) × Written env c content key fingerprint action id workspace path
              if_match if_none_match entry_id s r s')
          (write_file env c workspace path content key if_match if_none_match action id entry_id s)
  unfolding write_file
  write_file-Written workspace path if_match if_none_match entry_id s =
      Ensures-bind _ _ _ λ canonical normal. Ensures-guard _ _ _ _ λ _. Ensures-guard _ _ _ _ λ one.
        Ensures-guard _ _ _ _ λ _. record {
          at = λ (r, s') e. (
            _,
            (write_found-Written _ workspace path canonical if_match if_none_match entry_id _ s
                  (ground arith) normal refl).at
                (r, s') e,
          );
        }

  Written-Change :
      (fingerprint : Text) (workspace : ℕ) (path : Text) (if_match if_none_match : Option EntityTag)
      (entry_id : ℕ) (s s' : Store) (r : FileSnapshot × Bool)
      → AreTagged s.entries
      → Written env c content key fingerprint action id workspace path if_match if_none_match
          entry_id s r s'
      → Change env content s s'
  Written-Change fingerprint workspace path if_match if_none_match entry_id s s' r tagged w =
      elim (Option-cases (find_answer c (Resources.put_file workspace w.canonical) key s.answers)) [
        | inl fresh ↦
            Wrote-Change env c content key fingerprint action id workspace w.canonical if_match
              if_none_match entry_id _ s s' r refl tagged (w.wrote fresh)
        | inr (row, there) ↦
            subst (Change env content s) (sym (w.kept row there))
              (record { artifacts = ArtifactMove.stays refl refl; entries = EntryMove.stays refl })
      ]

  pub write_file-Change :
      (workspace : ℕ) (path : Text) (if_match if_none_match : Option EntityTag) (entry_id : ℕ)
      (s : Store)
      → AreTagged s.entries
      → Ensures
          (λ (_, s'). Change env content s s')
          (write_file env c workspace path content key if_match if_none_match action id entry_id s)
  write_file-Change workspace path if_match if_none_match entry_id s tagged = record {
    at = λ (r, s') e.
        let (fingerprint, w) =
          (write_file-Written workspace path if_match if_none_match entry_id s).at (r, s') e in
        Written-Change fingerprint workspace path if_match if_none_match entry_id s s' r tagged w;
  }
