-- ===== src/Resources.antt =====
-- Artifacts and workspace files: src/hnh/application/resources.py, over the blob directory of
-- src/hnh/adapters/blobs/filesystem.py. A method is one transaction: it returns its result with the
-- store, or an error. Blobs are published outside of transactions; `Reach` has the interleavings.
pub mod Writes
pub mod Edits
pub mod Blobs
pub mod Entries
pub mod Changes
pub mod Steps
pub mod Reach
use http_harness.Base.{
  ℕ, ◌+◌, Bool, true, false, not, ◌&&◌, ◌||◌, Option, none, some, List, [], ◌∷◌, ltb, ◌==◌,
  if◌then◌else◌, is_none, member, list_eq,
}
use http_harness.Base.Texts.{Text, Files, length, split, join, find_file, publish, remove, names}
use http_harness.Base.Table.{Table, lookup, insert}
use http_harness.Base.Ensures.{Result, ok, err, ◌>>=◌, ◌>>◌, guard, require}
use http_harness.Domain.Errors.{
  Error, not_found, invalid_operation, payload_too_large, precondition_required,
  precondition_failed, idempotency_conflict, dependency_unavailable, integrity_error, runtime_error,
}
use http_harness.Store.Rows.{Context}

pub data MediaType : Type 0 where
  text_plain : MediaType
  named : ℕ → MediaType

-- `ArtifactRecord`; the key of a blob is `sha256/` and its digest, here the digest.
pub record ArtifactRow : Type 0 where
  pub tenant_id : ℕ
  pub subject_id : ℕ
  pub media_type : MediaType
  pub size_bytes : ℕ
  pub sha256 : Text
  pub content : Option Text
  pub storage_key : Option Text
  pub source_action_id : Option ℕ

-- An entity tag of a request or of a file: `*`, `"sha256:{digest}:r{revision}"`, or any other text.
pub data EntityTag : Type 0 where
  any : EntityTag
  tag : Text → ℕ → EntityTag
  other : ℕ → EntityTag

abbrev pub same_tag : EntityTag → EntityTag → Bool
same_tag any any = true
same_tag (tag s m) (tag t n) = list_eq s t && m == n
same_tag (other m) (other n) = m == n
same_tag _ _ = false

-- `WorkspaceEntryRecord`
pub record EntryRow : Type 0 where
  pub tenant_id : ℕ
  pub subject_id : ℕ
  pub workspace_id : ℕ
  pub logical_path : Text
  pub revision : ℕ
  pub etag : EntityTag
  pub artifact_id : ℕ

pub record FileSnapshot : Type 0 where
  pub workspace_id : ℕ
  pub path : Text
  pub revision : ℕ
  pub etag : EntityTag
  pub artifact_id : ℕ

pub record FileContent : Type 0 where
  pub snapshot : FileSnapshot
  pub content : Text
  pub media_type : MediaType

-- The two methods and routes under which this part of the idempotency ledger is kept.
pub data ResourceRoute : Type 0 where
  post_artifacts : ResourceRoute
  put_file : ℕ → Text → ResourceRoute

abbrev pub same_resource_route : ResourceRoute → ResourceRoute → Bool
same_resource_route post_artifacts post_artifacts = true
same_resource_route (put_file v p) (put_file w q) = v == w && list_eq p q
same_resource_route _ _ = false

-- The payload whose canonical JSON `request_fingerprint` digests.
pub data Payload : Type 0 where
  artifact : MediaType → Text → Payload
  file : Text → Option EntityTag → Option EntityTag → Payload

-- The stored response, with `response_status == 201` for a file.
pub data Answer : Type 0 where
  artifact : ℕ → Answer
  file : FileSnapshot → Bool → Answer

pub record AnswerRow : Type 0 where
  pub tenant_id : ℕ
  pub subject_id : ℕ
  pub route : ResourceRoute
  pub idempotency_key : ℕ
  pub request_hash : Text
  pub answer : Answer

pub record Store : Type 0 where
  pub artifacts : Table ArtifactRow
  pub entries : Table EntryRow
  pub answers : List AnswerRow
  pub blobs : Files

-- What the code takes from elsewhere: `unicodedata.normalize("NFC", …)`, SHA-256, the digest of a
-- request, the text of a workspace's identifier, and whether a blob store is configured.
pub record Env : Type 0 where
  pub workspace_name : ℕ → Text
  pub nfc : Text → Text
  pub sha256 : Text → Text
  pub request_fingerprint : ResourceRoute → Payload → Text
  pub has_blob_store : Bool

abbrev pub starts_with : ℕ → Text → Bool
starts_with c [] = false
starts_with c (x ∷ t) = x == c

-- `{"", ".", ".."}`
abbrev pub is_forbidden : Text → Bool
is_forbidden [] = true
is_forbidden (x ∷ []) = x == b'.'
is_forbidden (x ∷ y ∷ []) = x == b'.' && y == b'.'
is_forbidden (x ∷ y ∷ z ∷ t) = false

abbrev pub any_forbidden : List Text → Bool
any_forbidden [] = false
any_forbidden (part ∷ parts) = is_forbidden part || any_forbidden parts

unfoldable pub normalize_file_path : Env → Text → Result Text
normalize_file_path env value = do
  guard (not (length value == 0 || ltb 1024 (length value))) invalid_operation
  guard (not (starts_with b'/' value || member 92 value || member 0 value || member b'%' value))
      invalid_operation
  let parts = split b'/' (env.nfc value)
  guard (not (any_forbidden parts)) invalid_operation
  ok (join b'/' parts)

abbrev pub owns_artifact : Context → ArtifactRow → Bool
owns_artifact c r = r.tenant_id == c.tenant_id && r.subject_id == c.subject_id

unfoldable pub visible_artifact : Context → ℕ → Store → Result ArtifactRow
visible_artifact c id store = do
  row ← require (lookup id store.artifacts) not_found
  guard (owns_artifact c row) not_found
  ok row

abbrev pub stored_bytes : Bool → Files → Option Text → Option Text → Result Text
stored_bytes has blobs (some content) key = ok content
stored_bytes true blobs none (some key) = require (find_file key blobs) dependency_unavailable
stored_bytes false blobs none (some key) = err dependency_unavailable
stored_bytes has blobs none none = err dependency_unavailable

unfoldable pub artifact_bytes : Env → ArtifactRow → Store → Result Text
artifact_bytes env row store = do
  content ← stored_bytes env.has_blob_store store.blobs row.content row.storage_key
  guard (length content == row.size_bytes && list_eq (env.sha256 content) row.sha256)
      dependency_unavailable
  ok content

-- The bytes, the media type, and the digest of the entity tag.
unfoldable pub get_artifact_content : Env → Context → ℕ → Store → Result (Text × MediaType × Text)
unfolding visible_artifact artifact_bytes
get_artifact_content env c id store = do
  row ← visible_artifact c id store
  content ← artifact_bytes env row store
  ok (content, row.media_type, row.sha256)

abbrev pub is_entry : Context → ℕ → Text → EntryRow → Bool
is_entry c workspace path r =
    r.tenant_id == c.tenant_id
    && r.subject_id == c.subject_id
    && r.workspace_id == workspace
    && list_eq r.logical_path path

unfoldable pub find_entry : Context → ℕ → Text → Table EntryRow → Option (ℕ × EntryRow)
find_entry c workspace path [] = none
find_entry c workspace path ((k, r) ∷ t) =
    if is_entry c workspace path r then some (k, r) else find_entry c workspace path t

abbrev pub file_snapshot : EntryRow → FileSnapshot
file_snapshot r = record {
  workspace_id = r.workspace_id;
  path = r.logical_path;
  revision = r.revision;
  etag = r.etag;
  artifact_id = r.artifact_id;
}

unfoldable pub read_file : Env → Context → ℕ → Text → Store → Result FileContent
unfolding normalize_file_path visible_artifact artifact_bytes
read_file env c workspace path store = do
  canonical ← normalize_file_path env path
  (k, row) ← require (find_entry c workspace canonical store.entries) not_found
  held ← visible_artifact c row.artifact_id store
  content ← artifact_bytes env held store
  ok (record { snapshot = file_snapshot row; content = content; media_type = held.media_type })
