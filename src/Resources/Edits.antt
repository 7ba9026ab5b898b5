-- ===== src/Resources/Edits.antt =====
-- `ResourceStore.write_file`.
use http_harness.Base.{
  ℕ, ◌+◌, Bool, true, false, not, ◌&&◌, ◌||◌, Option, none, some, ltb, leb, is_none, list_eq,
}
use http_harness.Base.Texts.{Text, length}
use http_harness.Base.Table.{Table, lookup, insert}
use http_harness.Base.Ensures.{Result, ok, err, ◌>>=◌, ◌>>◌, guard}
use http_harness.Domain.Errors.{
  payload_too_large, precondition_required, precondition_failed, idempotency_conflict,
  integrity_error, data_error, runtime_error,
}
use http_harness.Store.Rows.{Context}
use http_harness.Resources
use http_harness.Resources.{
  MediaType, ArtifactRow, EntityTag, same_tag, EntryRow, FileSnapshot, ResourceRoute,
  same_resource_route, Payload, Answer, AnswerRow, Store, Env, normalize_file_path, find_entry,
  file_snapshot,
}
use http_harness.Resources.Writes.{put_blob, new_artifact, add_artifact, find_answer, record_answer}

-- The answer that is kept; no row of a file's route has another body.
abbrev pub replay_file : Answer → Store → Result ((FileSnapshot × Bool) × Store)
replay_file (Answer.file snapshot created) store = ok ((snapshot, created), store)
replay_file (Answer.artifact id) store = err runtime_error

-- Whether the preconditions of the request hold of the file that is there, if any.
abbrev pub may_write : Option (ℕ × EntryRow) → Option EntityTag → Option EntityTag → Bool
may_write none if_match none = false
may_write none if_match (some t) = same_tag t Resources.any
may_write (some (k, row)) none if_none_match = false
may_write (some (k, row)) (some t) if_none_match = same_tag t row.etag

abbrev pub next_revision : Option (ℕ × EntryRow) → ℕ
next_revision none = 1
next_revision (some (k, row)) = row.revision + 1

-- The row that is written, under the key of the file or under a new one.
abbrev pub next_entry :
    Context → ℕ → Text → ℕ → EntityTag → ℕ → ℕ → Option (ℕ × EntryRow) → ℕ × EntryRow
next_entry c workspace path revision etag artifact_id new_id none = (
  new_id,
  record {
    tenant_id = c.tenant_id;
    subject_id = c.subject_id;
    workspace_id = workspace;
    logical_path = path;
    revision = revision;
    etag = etag;
    artifact_id = artifact_id;
  },
)
next_entry c workspace path revision etag artifact_id new_id (some (k, row)) =
    (k, record row { revision = revision; etag = etag; artifact_id = artifact_id })

-- The insert of a new row under a used key is rejected.
abbrev pub is_free : Option (ℕ × EntryRow) → ℕ → Table EntryRow → Bool
is_free none new_id t = is_none (lookup new_id t)
is_free (some found) new_id t = true

-- The widths of the columns: 256 for the canonical route in the ledger, "/v1/workspaces/…/files/…", and
-- 128 for the identifier of a workspace, which one that is stored already fits.
abbrev pub fits : Env → ℕ → Text → Bool
fits env workspace path =
    leb (22 + length (env.workspace_name workspace) + length path) 256
    && leb (length (env.workspace_name workspace)) 128

-- A write under a key that has no answer, where `found` is the file that is there; `id` is for the
-- artifact, `entry_id` for a new file.
unfoldable pub write_new :
    Env
    → Context
    → ℕ
    → Text
    → Text
    → ℕ
    → Text
    → Option EntityTag
    → Option EntityTag
    → Option ℕ
    → ℕ
    → ℕ
    → Option (ℕ × EntryRow)
    → Store
    → Result ((FileSnapshot × Bool) × Store)
unfolding put_blob add_artifact record_answer
write_new env c workspace canonical content key fingerprint if_match if_none_match action id
      entry_id found store =
    do
      guard (may_write found if_match if_none_match) precondition_failed
      let row = new_artifact env c content Resources.text_plain action
      added ← add_artifact id row (put_blob env content store)
      let etag = Resources.tag row.sha256 (next_revision found)
      let entry = next_entry c workspace canonical (next_revision found) etag id entry_id found
      guard (is_free found entry_id store.entries) integrity_error
      guard (fits env workspace canonical) data_error
      let written = record added { entries = insert entry.0 entry.1 added.entries }
      let answer = Answer.file (file_snapshot entry.1) (is_none found)
      ok (
        (file_snapshot entry.1, is_none found),
        record_answer c (Resources.put_file workspace canonical) key fingerprint answer written,
      )

unfoldable pub write_found :
    Env
    → Context
    → ℕ
    → Text
    → Text
    → ℕ
    → Text
    → Option EntityTag
    → Option EntityTag
    → Option ℕ
    → ℕ
    → ℕ
    → Option AnswerRow
    → Store
    → Result ((FileSnapshot × Bool) × Store)
unfolding write_new find_entry
write_found env c workspace canonical content key fingerprint if_match if_none_match action id
      entry_id (some answered) store =
    do
      guard (list_eq answered.request_hash fingerprint) idempotency_conflict
      replay_file answered.answer store
write_found env c workspace canonical content key fingerprint if_match if_none_match action id
      entry_id none store =
    write_new env c workspace canonical content key fingerprint if_match if_none_match action id
      entry_id (find_entry c workspace canonical store.entries) store

abbrev pub is_star : Option EntityTag → Bool
is_star none = true
is_star (some t) = same_tag t Resources.any

unfoldable pub write_file :
    Env
    → Context
    → ℕ
    → Text
    → Text
    → ℕ
    → Option EntityTag
    → Option EntityTag
    → Option ℕ
    → ℕ
    → ℕ
    → Store
    → Result ((FileSnapshot × Bool) × Store)
unfolding normalize_file_path find_answer write_found
write_file env c workspace path content key if_match if_none_match action id entry_id store = do
  canonical ← normalize_file_path env path
  guard (not (ltb 1048576 (length content))) payload_too_large
  guard
      (not (is_none if_match && is_none if_none_match)
        && (is_none if_match || is_none if_none_match))
      precondition_required
  guard (is_star if_none_match) precondition_failed
  let route = Resources.put_file workspace canonical
  let payload = Payload.file (env.sha256 content) if_match if_none_match
  write_found env c workspace canonical content key (env.request_fingerprint route payload) if_match
      if_none_match action id entry_id (find_answer c route key store.answers) store
