-- ===== src/Resources/Blobs.antt =====
-- Where the bytes of an artifact are, and that publications and collections keep them there.
use http_harness.Base.{
  ◌≡◌, refl, ap, subst, Bool, ◌∙◌, ◌⊎◌, inl, inr, arith, true, false, Option, none, some, List, [],
  ◌∷◌, Bool-cases, if◌then◌else◌, ==-refl, ℕ,
}
use http_harness.Base.Texts.{
  Text, Files, length, find_file, publish, remove, names, list_eq_refl, list_eq→eq,
  find_file-publish, find_file-publish_kept, find_file-publish_cases, find_file-remove,
}
use http_harness.Base.Table.{Table, lookup}
use http_harness.Base.Ensures.{ok, ◌>>=◌}
use http_harness.Store.Rows.{Context}
use http_harness.Resources.{MediaType, ArtifactRow, Store, Env, artifact_bytes}
use http_harness.Resources.Writes.{
  put_blob, new_artifact, is_registered, orphaned, delete_all, garbage_collect_blobs,
}

module _ (env : Env) where
  -- The row describes the content, which is in the row or in the blob of its digest.
  pub record Describes (row : ArtifactRow) (content : Text) (blobs : Files) : Type 0 where
    pub size : row.size_bytes ≡ length content
    pub digest : row.sha256 ≡ env.sha256 content
    pub place :
        (row.content ≡ some content)
        ⊎ ((row.content ≡ none)
            × (row.storage_key ≡ some (env.sha256 content))
            × (env.has_blob_store ≡ true)
            × (find_file (env.sha256 content) blobs ≡ some content))

  pub Describes-artifact_bytes :
      (row : ArtifactRow) (content : Text) (store : Store)
      → Describes row content store.blobs
      → artifact_bytes env row store ≡ ok content
  unfolding artifact_bytes ◌>>=◌
  Describes-artifact_bytes row content store d = elim d.place [
    | inl p ↦
        ground
          (arith, d.size, d.digest, ==-refl (length content), list_eq_refl (env.sha256 content))
    | inr (p, q, r, f) ↦
        ground
          (arith, d.size, d.digest, ==-refl (length content), list_eq_refl (env.sha256 content))
  ]

  -- Every blob stands under its digest, and is one of the contents that were sent.
  pub record HasDigests (Sent : Text → Type 0) (blobs : Files) : Type 0 where
    pub at : (name c : Text) → find_file name blobs ≡ some c → Sent c × (env.sha256 c ≡ name)

  HasDigests-if :
      (Sent : Text → Type 0) (b : Bool) (x y : Files)
      → HasDigests Sent x
      → HasDigests Sent y
      → HasDigests Sent (if b then x else y)
  HasDigests-if Sent true x y p q = p
  HasDigests-if Sent false x y p q = q

  pub put_blob-Describes :
      (row : ArtifactRow) (content c : Text) (store : Store)
      → Describes row c store.blobs
      → Describes row c (put_blob env content store).blobs
  unfolding put_blob
  put_blob-Describes row content c store d = record {
    size = d.size;
    digest = d.digest;
    place = elim d.place [
      | inl p ↦ inl p
      | inr (p, q, r, f) ↦ inr (
        p,
        q,
        r,
        ground (
          arith,
          find_file-publish_kept (env.sha256 c) (env.sha256 content) content c store.blobs f,
        ),
      )
    ];
  }

  module _ (Sent : Text → Type 0)
      (collision_free : (a b : Text) → Sent a → Sent b → env.sha256 a ≡ env.sha256 b → a ≡ b) where
    publish-HasDigests :
        (content : Text) (blobs : Files)
        → Sent content
        → HasDigests Sent blobs
        → HasDigests Sent (publish (env.sha256 content) content blobs)
    publish-HasDigests content blobs sent h = record {
      at = λ name c e. elim (find_file-publish_cases name (env.sha256 content) content c blobs e) [
        | inl old ↦ h.at name c old
        | inr (n, same) ↦ subst (λ t. Sent t × (env.sha256 t ≡ name)) (cc) (sent, n)
      ];
    }

    publish-find_file :
        (content : Text) (blobs : Files)
        → Sent content
        → HasDigests Sent blobs
        → find_file (env.sha256 content) (publish (env.sha256 content) content blobs) ≡ some content
    publish-find_file content blobs sent h =
        let (c, e) = find_file-publish (env.sha256 content) content blobs in
        let (s, d) = (publish-HasDigests content blobs sent h).at (env.sha256 content) c e in
        e ∙ ap some (collision_free c content s sent d)

    pub new_artifact-Describes :
        (context : Context) (content : Text) (media : MediaType) (action : Option ℕ) (store : Store)
        → Sent content
        → HasDigests Sent store.blobs
        → Describes
            (new_artifact env context content media action)
            content
            (put_blob env content store).blobs
    unfolding put_blob
    new_artifact-Describes context content media action store sent h = record {
      size = refl;
      digest = refl;
      place = elim (Bool-cases env.has_blob_store) [
        | inl e ↦
            inr (ground arith, ground arith, e, rw e (publish-find_file content store.blobs sent h))
        | inr e ↦ inl (ground arith)
      ];
    }

    pub put_blob-HasDigests :
        (content : Text) (store : Store)
        → Sent content
        → HasDigests Sent store.blobs
        → HasDigests Sent (put_blob env content store).blobs
    unfolding put_blob
    put_blob-HasDigests content store sent h =
        HasDigests-if Sent env.has_blob_store (publish (env.sha256 content) content store.blobs)
          store.blobs (publish-HasDigests content store.blobs sent h) h

is_registered-lookup :
    (id : ℕ) (row : ArtifactRow) (name : Text) (t : Table ArtifactRow)
    → lookup id t ≡ some row
    → row.storage_key ≡ some name
    → is_registered name t ≡ true
unfolding lookup is_registered
is_registered-lookup id row name [] h k = absurd (cc)
is_registered-lookup id row name ((j, r) ∷ t) h k =
    ground (arith, is_registered-lookup id row name t, list_eq_refl name)

delete_all-find_file :
    (name : Text) (rows : Table ArtifactRow) (keys : List Text) (files : Files)
    → is_registered name rows ≡ true
    → find_file name (delete_all (orphaned rows keys) files) ≡ find_file name files
unfolding delete_all orphaned
delete_all-find_file name rows [] files h = refl
delete_all-find_file name rows (k ∷ keys) files h = elim (Bool-cases (is_registered k rows)) [
  | inl e ↦ rw e (delete_all-find_file name rows keys files h)
  | inr e ↦ rw e (
      ground (
        arith,
        delete_all-find_file name rows keys (remove k files) h,
        find_file-remove name k files,
        list_eq→eq k name,
      ))
]

delete_all-find_file_old :
    (name c : Text) (keys : List Text) (files : Files)
    → find_file name (delete_all keys files) ≡ some c
    → find_file name files ≡ some c
unfolding delete_all
delete_all-find_file_old name c [] files h = h
delete_all-find_file_old name c (k ∷ keys) files h =
    ground (
      arith,
      delete_all-find_file_old name c keys (remove k files) h,
      find_file-remove name k files,
    )

module _ (env : Env) where
  pub garbage_collect_blobs-Describes :
      (id : ℕ) (row : ArtifactRow) (content : Text) (store : Store)
      → lookup id store.artifacts ≡ some row
      → Describes env row content store.blobs
      → Describes env row content (garbage_collect_blobs env store).blobs
  unfolding garbage_collect_blobs
  garbage_collect_blobs-Describes id row content store at d = record {
    size = d.size;
    digest = d.digest;
    place = elim d.place [
      | inl p ↦ inl p
      | inr (p, q, r, f) ↦ inr (
        p,
        q,
        r,
        rw r (
            delete_all-find_file (env.sha256 content) store.artifacts (names store.blobs)
              store.blobs (is_registered-lookup id row (env.sha256 content) store.artifacts at q)
            ∙ f),
      )
    ];
  }

  pub garbage_collect_blobs-HasDigests :
      (Sent : Text → Type 0) (store : Store)
      → HasDigests env Sent store.blobs
      → HasDigests env Sent (garbage_collect_blobs env store).blobs
  unfolding garbage_collect_blobs
  garbage_collect_blobs-HasDigests Sent store h =
      HasDigests-if env Sent env.has_blob_store
        (delete_all (orphaned store.artifacts (names store.blobs)) store.blobs) store.blobs
        (record {
          at = λ name c found. h.at name c (
              delete_all-find_file_old name c (orphaned store.artifacts (names store.blobs))
                store.blobs found);
        })
        h
