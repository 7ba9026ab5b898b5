-- ===== src/Resources/Reach/Races.antt =====
-- A collection between the two halves of a write (`garbage_collect_blobs`, `_new_artifact`).
use http_harness.Base.{
  ℕ, ◌≡◌, arith, Bool, true, false, Option, none, some, List, [], ◌∷◌, ◌||◌, list_eq, Option-cases,
  Bool-cases, inl, inr, ==-refl,
}
use http_harness.Base.Texts.{
  Text, Files, find_file, remove, names, publish, list_eq→eq, find_file-remove,
}
use http_harness.Base.Table.{Table, lookup, insert, lookup-insert}
use http_harness.Base.Ensures.{ok, err, ◌>>=◌, guard, require}
use http_harness.Domain.Errors.{dependency_unavailable}
use http_harness.Store.Rows.{Context}
use http_harness.Resources.{
  MediaType, ArtifactRow, Store, Env, get_artifact_content, visible_artifact, artifact_bytes,
}
use http_harness.Resources.Writes.{
  put_blob, new_artifact, add_artifact, is_registered, orphaned, delete_all, garbage_collect_blobs,
}

abbrev is_named : Text → List Text → Bool
is_named name [] = false
is_named name (k ∷ keys) = list_eq k name || is_named name keys

find_file-is_named :
    (name c : Text) (files : Files)
    → find_file name files ≡ some c
    → is_named name (names files) ≡ true
unfolding find_file names
find_file-is_named name c [] h = absurd (cc)
find_file-is_named name c ((k, d) ∷ files) h = ground (arith, find_file-is_named name c files)

delete_all-none :
    (name : Text) (keys : List Text) (files : Files)
    → find_file name files ≡ none
    → find_file name (delete_all keys files) ≡ none
unfolding delete_all
delete_all-none name [] files h = h
delete_all-none name (k ∷ keys) files h =
    delete_all-none name keys (remove k files) (ground (arith, find_file-remove name k files))

delete_all-is_named :
    (name : Text) (rows : Table ArtifactRow) (keys : List Text) (files : Files)
    → is_registered name rows ≡ false
    → is_named name keys ≡ true
    → find_file name (delete_all (orphaned rows keys) files) ≡ none
unfolding delete_all orphaned
delete_all-is_named name rows [] files free h = absurd (cc)
delete_all-is_named name rows (k ∷ keys) files free h = elim (Bool-cases (list_eq k name)) [
  | inl same ↦
      let gone : find_file name (remove k files) ≡ none =
        ground (arith, find_file-remove name k files) in
      let orphan : is_registered k rows ≡ false = rw (list_eq→eq k name same) free in
      rw orphan (delete_all-none name (orphaned rows keys) (remove k files) gone)
  | inr other ↦ elim (Bool-cases (is_registered k rows)) [
    | inl e ↦ rw e (delete_all-is_named name rows keys files free (ground arith))
    | inr e ↦ rw e (delete_all-is_named name rows keys (remove k files) free (ground arith))
  ]
]

delete_all-orphan :
    (name : Text) (rows : Table ArtifactRow) (files : Files)
    → is_registered name rows ≡ false
    → find_file name (delete_all (orphaned rows (names files)) files) ≡ none
delete_all-orphan name rows files free = elim (Option-cases (find_file name files)) [
  | inl absent ↦ delete_all-none name (orphaned rows (names files)) files absent
  | inr (c, there) ↦
      delete_all-is_named name rows (names files) files free (find_file-is_named name c files there)
]

-- Where a collection runs after a writer has published a blob that no artifact refers to yet, and
-- before the writer registers its artifact, the artifact is registered all the same and its bytes
-- cannot be read.
pub garbage_collect_blobs-between :
    (env : Env) (c : Context) (content : Text) (media : MediaType) (action : Option ℕ) (id : ℕ)
    (s : Store)
    → env.has_blob_store ≡ true
    → is_registered (env.sha256 content) s.artifacts ≡ false
    → lookup id s.artifacts ≡ none
    → (s' : Store) × (add_artifact id
          (new_artifact env c content media action)
          (garbage_collect_blobs env (put_blob env content s))
        ≡ ok s')
      × (get_artifact_content env c id s' ≡ err dependency_unavailable)
unfolding put_blob garbage_collect_blobs add_artifact get_artifact_content visible_artifact
    artifact_bytes ◌>>=◌ guard require
garbage_collect_blobs-between env c content media action id s on free fresh =
    let row = new_artifact env c content media action in
    let collected = garbage_collect_blobs env (put_blob env content s) in
    (
      record collected { artifacts = insert id row s.artifacts },
      ground arith,
      ground (
        arith,
        lookup-insert id id row s.artifacts,
        ==-refl id,
        ==-refl c.tenant_id,
        ==-refl c.subject_id,
        delete_all-orphan (env.sha256 content) s.artifacts
            (publish (env.sha256 content) content s.blobs) free,
      ),
    )
