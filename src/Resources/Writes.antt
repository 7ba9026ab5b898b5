-- ===== src/Resources/Writes.antt =====
-- The methods of `ResourceStore` that create artifacts and collect blobs, with `FileBlobStore.put` and
-- `delete`.
use http_harness.Base.{
  ℕ, Bool, false, not, ◌&&◌, ◌||◌, Option, none, some, List, [], ◌∷◌, ltb, ◌==◌, if◌then◌else◌,
  is_none, list_eq,
}
use http_harness.Base.Texts.{Text, Files, length, publish, remove, names}
use http_harness.Base.Table.{Table, lookup, insert}
use http_harness.Base.Ensures.{Result, ok, ◌>>=◌, ◌>>◌, guard, require}
use http_harness.Domain.Errors.{
  payload_too_large, idempotency_conflict, integrity_error, runtime_error,
}
use http_harness.Store.Rows.{Context}
use http_harness.Resources
use http_harness.Resources.{
  MediaType, ArtifactRow, EntityTag, same_tag, EntryRow, FileSnapshot, ResourceRoute,
  same_resource_route, Payload, Answer, AnswerRow, Store, Env, normalize_file_path, find_entry,
  file_snapshot,
}

-- `FileBlobStore.put`, where a blob store is configured.
unfoldable pub put_blob : Env → Text → Store → Store
put_blob env content store = record store {
  blobs =
      if env.has_blob_store then publish (env.sha256 content) content store.blobs else store.blobs;
}

-- `_new_artifact` after its blob is published.
abbrev pub new_artifact : Env → Context → Text → MediaType → Option ℕ → ArtifactRow
new_artifact env c content media action = record {
  tenant_id = c.tenant_id;
  subject_id = c.subject_id;
  media_type = media;
  size_bytes = length content;
  sha256 = env.sha256 content;
  content = if env.has_blob_store then none else some content;
  storage_key = if env.has_blob_store then some (env.sha256 content) else none;
  source_action_id = action;
}

unfoldable pub add_artifact : ℕ → ArtifactRow → Store → Result Store
add_artifact id row store = do
  guard (is_none (lookup id store.artifacts)) integrity_error
  ok (record store { artifacts = insert id row store.artifacts })

unfoldable pub find_answer : Context → ResourceRoute → ℕ → List AnswerRow → Option AnswerRow
find_answer c route key [] = none
find_answer c route key (r ∷ rows) =
    if r.tenant_id == c.tenant_id
      && r.subject_id == c.subject_id
      && same_resource_route r.route route
      && r.idempotency_key == key
    then some r
    else find_answer c route key rows

abbrev pub answer_row : Context → ResourceRoute → ℕ → Text → Answer → AnswerRow
answer_row c route key fingerprint answer = record {
  tenant_id = c.tenant_id;
  subject_id = c.subject_id;
  route = route;
  idempotency_key = key;
  request_hash = fingerprint;
  answer = answer;
}

-- `_record_idempotency`
unfoldable pub record_answer : Context → ResourceRoute → ℕ → Text → Answer → Store → Store
record_answer c route key fingerprint answer store = record store {
  answers = answer_row c route key fingerprint answer ∷ store.answers;
}

-- `resource_id`, which for a file is its artifact's.
abbrev pub resource_id : Answer → ℕ
resource_id (Answer.artifact id) = id
resource_id (Answer.file snapshot created) = snapshot.artifact_id

unfoldable pub create_found :
    Env
    → Context
    → Text
    → MediaType
    → ℕ
    → Text
    → Option ℕ
    → ℕ
    → Option AnswerRow
    → Store
    → Result ((ℕ × ArtifactRow) × Store)
unfolding put_blob add_artifact record_answer
create_found env c content media key fingerprint action id (some answered) store = do
  guard (list_eq answered.request_hash fingerprint) idempotency_conflict
  row ← require (lookup (resource_id answered.answer) store.artifacts) runtime_error
  ok ((resource_id answered.answer, row), store)
create_found env c content media key fingerprint action id none store = do
  let row = new_artifact env c content media action
  added ← add_artifact id row (put_blob env content store)
  ok (
    (id, row),
    record_answer c Resources.post_artifacts key fingerprint (Answer.artifact id) added,
  )

unfoldable pub create_artifact :
    Env → Context → Text → MediaType → ℕ → Option ℕ → ℕ → Store → Result ((ℕ × ArtifactRow) × Store)
unfolding find_answer create_found
create_artifact env c content media key action id store = do
  guard (not (ltb 1048576 (length content))) payload_too_large
  let payload = Payload.artifact media (env.sha256 content)
  create_found env c content media key (env.request_fingerprint Resources.post_artifacts payload)
      action id (find_answer c Resources.post_artifacts key store.answers) store

abbrev pub keyed_by : Text → Option Text → Bool
keyed_by name none = false
keyed_by name (some key) = list_eq key name

-- `{key for … in ArtifactRecord.storage_key}`
unfoldable pub is_registered : Text → Table ArtifactRow → Bool
is_registered name [] = false
is_registered name ((k, row) ∷ t) = keyed_by name row.storage_key || is_registered name t

-- `list_keys() - registered`
unfoldable pub orphaned : Table ArtifactRow → List Text → List Text
unfolding is_registered
orphaned rows [] = []
orphaned rows (name ∷ rest) =
    let others = orphaned rows rest in if is_registered name rows then others else name ∷ others

unfoldable pub delete_all : List Text → Files → Files
unfolding remove
delete_all [] files = files
delete_all (name ∷ rest) files = delete_all rest (remove name files)

-- The keys are listed, then deleted. They are returned, which decides nothing.
unfoldable pub garbage_collect_blobs : Env → Store → Store
unfolding orphaned names delete_all
garbage_collect_blobs env store = record store {
  blobs =
      if env.has_blob_store
      then delete_all (orphaned store.artifacts (names store.blobs)) store.blobs
      else store.blobs;
}
