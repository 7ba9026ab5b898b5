-- ===== src/Resources/Reach/Promise.antt =====
-- What files promise: a workspace is a map from paths to revisions and contents, as `read_file` shows
-- them, and a write is one conditional step of that map.
use http_harness.Base.{
  ℕ, ◌+◌, ◌≡◌, refl, sym, ap, ◌∙◌, arith, Bool, true, false, ◌&&◌, Option, none, some, Option-cases,
  Bool-cases, inl, inr, ==→eq, ◌==◌, list_eq, ==-refl,
}
use http_harness.Base.Texts.{Text, list_eq→eq, list_eq_refl}
use http_harness.Base.Ensures.{Result, ok, err, ◌>>=◌, guard, require}
use http_harness.Store.Rows.{Context}
use http_harness.Resources
use http_harness.Resources.{
  ArtifactRow, EntityTag, EntryRow, FileSnapshot, FileContent, Store, Env, find_entry, is_entry,
  same_tag, read_file, normalize_file_path, owns_artifact, visible_artifact,
}
use http_harness.Resources.Edits.{may_write, next_revision}
use http_harness.Resources.Blobs.{Describes-artifact_bytes}
use http_harness.Resources.Entries.{AreTagged, find_entry-lookup, find_entry-is_entry}
use http_harness.Resources.Reach.{Keeps}
use http_harness.Resources.Reach.Backing.{IsBacked, AreBacked, Keeps-IsBacked}

-- The one condition that a request must carry.
pub data Condition : Type 0 where
  matches : EntityTag → Condition
  absent : Condition

abbrev pub if_match : Condition → Option EntityTag
if_match (matches t) = some t
if_match absent = none

abbrev pub if_none_match : Condition → Option EntityTag
if_none_match (matches t) = none
if_none_match absent = some Resources.any

-- What is at a path: a revision and its content.
abbrev pub shown : Result FileContent → Option (ℕ × Text)
shown (ok file) = some (file.snapshot.revision, file.content)
shown (err e) = none

abbrev pub file_at : Env → Context → ℕ → Text → Store → Option (ℕ × Text)
file_at env c workspace path s = shown (read_file env c workspace path s)

abbrev pub allows : Env → Condition → Option (ℕ × Text) → Bool
allows env absent none = true
allows env absent (some file) = false
allows env (matches t) none = false
allows env (matches t) (some (n, content)) = same_tag t (Resources.tag (env.sha256 content) n)

abbrev pub overwritten : Option (ℕ × Text) → Text → Option (ℕ × Text)
overwritten none content = some (1, content)
overwritten (some (n, old)) content = some (n + 1, content)

abbrev pub is_same_file : Context → ℕ → Text → Context → ℕ → Text → Bool
is_same_file c workspace path c' workspace' path' =
    c.tenant_id == c'.tenant_id
    && c.subject_id == c'.subject_id
    && workspace == workspace'
    && list_eq path path'

true_not_false : true ≡ false → ⊥
true_not_false h = absurd (cc)

same_file :
    (c : Context) (workspace : ℕ) (path : Text) (c' : Context) (workspace' : ℕ) (path' : Text)
    → c.tenant_id ≡ c'.tenant_id
    → c.subject_id ≡ c'.subject_id
    → workspace ≡ workspace'
    → path ≡ path'
    → is_same_file c workspace path c' workspace' path' ≡ true
same_file c workspace path c' workspace' path' tenant subject space name =
    rw (tenant, subject, space, name)
      (ground (
        arith,
        ==-refl c'.tenant_id,
        ==-refl c'.subject_id,
        ==-refl workspace',
        list_eq_refl path',
      ))

pub other_entry :
    (c : Context) (workspace : ℕ) (path : Text) (c' : Context) (workspace' : ℕ) (path' : Text)
    (row : EntryRow)
    → is_same_file c workspace path c' workspace' path' ≡ false
    → is_entry c workspace path row ≡ true
    → is_entry c' workspace' path' row ≡ false
other_entry c workspace path c' workspace' path' row apart hit =
    elim (Bool-cases (is_entry c' workspace' path' row)) [
      | inl other ↦
          let tenant : c.tenant_id ≡ c'.tenant_id =
            sym (==→eq row.tenant_id c.tenant_id (ground arith))
            ∙ ==→eq row.tenant_id c'.tenant_id (ground arith) in
          let subject : c.subject_id ≡ c'.subject_id =
            sym (==→eq row.subject_id c.subject_id (ground arith))
            ∙ ==→eq row.subject_id c'.subject_id (ground arith) in
          let space : workspace ≡ workspace' =
            sym (==→eq row.workspace_id workspace (ground arith))
            ∙ ==→eq row.workspace_id workspace' (ground arith) in
          let name : path ≡ path' =
            sym (list_eq→eq row.logical_path path (ground arith))
            ∙ list_eq→eq row.logical_path path' (ground arith) in
          absurd (
            true_not_false (
              sym (same_file c workspace path c' workspace' path' tenant subject space name)
              ∙ apart))
      | inr miss ↦ miss
    ]

module _ (env : Env) (Sent : Text → Type 0)
    (collision_free : (a b : Text) → Sent a → Sent b → env.sha256 a ≡ env.sha256 b → a ≡ b) where
  module _ (c : Context) (workspace : ℕ) (path canonical : Text) (s : Store)
      (normal : normalize_file_path env path ≡ ok canonical) where
    file_at-missing :
        find_entry c workspace canonical s.entries ≡ none → file_at env c workspace path s ≡ none
    unfolding read_file ◌>>=◌
    file_at-missing missing = rw (normal, missing) refl

    file_at-found :
        (k : ℕ) (row : EntryRow) (content : Text)
        → find_entry c workspace canonical s.entries ≡ some (k, row)
        → IsBacked env Sent collision_free row content s
        → file_at env c workspace path s ≡ some (row.revision, content)
    unfolding read_file visible_artifact ◌>>=◌ guard require
    file_at-found k row content found b =
        let hit = find_entry-is_entry c workspace canonical k row s.entries found in
        let owned : owns_artifact c b.artifact ≡ true = rw (b.tenant, b.subject) (ground arith) in
        rw (normal, found, b.held.at)
          (ground
            (arith, owned, Describes-artifact_bytes env b.artifact content s b.held.described))

    -- The condition of a request is that of the code, in what the requester sees.
    pub may_write-allows :
        (condition : Condition) (found : Option (ℕ × EntryRow))
        → AreTagged s.entries
        → AreBacked env Sent collision_free s
        → find_entry c workspace canonical s.entries ≡ found
        → may_write found (if_match condition) (if_none_match condition)
          ≡ allows env condition (file_at env c workspace path s)
    may_write-allows (matches t) none tagged all is = rw (file_at-missing is) refl
    may_write-allows absent none tagged all is = rw (file_at-missing is) refl
    may_write-allows (matches t) (some (k, row)) tagged all is =
        let (old, b) =
          all.at k row (find_entry-lookup c workspace canonical k row s.entries tagged.keys is) in
        rw (file_at-found k row old is b) (ap (same_tag t) b.tag)
    may_write-allows absent (some (k, row)) tagged all is =
        let (old, b) =
          all.at k row (find_entry-lookup c workspace canonical k row s.entries tagged.keys is) in
        rw (file_at-found k row old is b) refl

    pub overwritten-next :
        (content : Text) (found : Option (ℕ × EntryRow))
        → AreTagged s.entries
        → AreBacked env Sent collision_free s
        → find_entry c workspace canonical s.entries ≡ found
        → overwritten (file_at env c workspace path s) content ≡ some (next_revision found, content)
    overwritten-next content none tagged all is = rw (file_at-missing is) refl
    overwritten-next content (some (k, row)) tagged all is =
        let (old, b) =
          all.at k row (find_entry-lookup c workspace canonical k row s.entries tagged.keys is) in
        rw (file_at-found k row old is b) refl

  pub file_at-unwritten :
      (c : Context) (workspace : ℕ) (path canonical : Text) (s s' : Store)
      → normalize_file_path env path ≡ ok canonical
      → AreTagged s.entries
      → AreBacked env Sent collision_free s
      → Keeps env Sent collision_free s s'
      → find_entry c workspace canonical s'.entries ≡ find_entry c workspace canonical s.entries
      → file_at env c workspace path s' ≡ file_at env c workspace path s
  file_at-unwritten c workspace path canonical s s' normal tagged all keeps same =
      elim (Option-cases (find_entry c workspace canonical s.entries)) [
        | inl missing ↦
            file_at-missing c workspace path canonical s' normal (same ∙ missing)
            ∙ sym (file_at-missing c workspace path canonical s normal missing)
        | inr ((k, row), found) ↦
            let (old, b) =
              all.at k row
                (find_entry-lookup c workspace canonical k row s.entries tagged.keys found) in
            file_at-found c workspace path canonical s' normal k row old (same ∙ found)
              (Keeps-IsBacked env Sent collision_free row old s s' keeps b)
            ∙ sym (file_at-found c workspace path canonical s normal k row old found b)
      ]
