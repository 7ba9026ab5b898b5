-- ===== src/Resources/Changes.antt =====
-- What the methods of `ResourceStore` change, and that `create_artifact` changes no more.
use http_harness.Base.{ℕ, ◌≡◌, refl, ap, Option, none, some, is_none→eq}
use http_harness.Base.Texts.{Text}
use http_harness.Base.Table.{lookup, insert}
use http_harness.Base.Ensures.{Ensures, Ensures-ok, Ensures-bind, Ensures-guard, Ensures-require}
use http_harness.Store.Rows.{Context}
use http_harness.Resources.{MediaType, ArtifactRow, AnswerRow, Store, Env}
use http_harness.Resources.Writes.{
  put_blob, new_artifact, add_artifact, create_found, create_artifact, record_answer,
}
use http_harness.Resources.Entries.{EntryMove}

module _ (env : Env) (content : Text) (s : Store) where
  pub data ArtifactMove (s' : Store) : Type 0 where
    stays : s'.artifacts ≡ s.artifacts → s'.blobs ≡ s.blobs → ArtifactMove s'
    added :
        (id : ℕ) (row : ArtifactRow)
        → lookup id s.artifacts ≡ none
        → s'.artifacts ≡ insert id row s.artifacts
        → s'.blobs ≡ (put_blob env content s).blobs
        → ArtifactMove s'

  pub record Change (s' : Store) : Type 0 where
    pub artifacts : ArtifactMove s'
    pub entries : EntryMove s.entries s'.entries

pub add_artifact-new :
    (id : ℕ) (row : ArtifactRow) (s : Store)
    → Ensures
        (λ s'.
          (lookup id s.artifacts ≡ none)
          × (s' ≡ record s { artifacts = insert id row s.artifacts }))
        (add_artifact id row s)
unfolding add_artifact
add_artifact-new id row s = Ensures-guard _ _ _ _ λ free. Ensures-ok _ _ (is_none→eq free, refl)

module _ (env : Env) (c : Context) (content : Text) (key : ℕ) (fingerprint : Text)
    (action : Option ℕ) (id : ℕ) where
  create_found-Change :
      (media : MediaType) (found : Option AnswerRow) (s : Store)
      → Ensures
          (λ (_, s'). Change env content s s')
          (create_found env c content media key fingerprint action id found s)
  unfolding create_found record_answer put_blob
  create_found-Change media (some answered) s = Ensures-guard _ _ _ _ λ _.
      Ensures-require _ _ _ _ λ row _.
        Ensures-ok _ _
          (record { artifacts = ArtifactMove.stays refl refl; entries = EntryMove.stays refl })
  create_found-Change media none s = Ensures-bind _ _ _ λ added a.
      let (free, is) =
        (add_artifact-new id (new_artifact env c content media action) (put_blob env content s)).at
          added a in
      Ensures-ok _ _ (record {
        artifacts =
            ArtifactMove.added id (new_artifact env c content media action) free
              (ap (λ (t : Store). t.artifacts) is) (ap (λ (t : Store). t.blobs) is);
        entries = EntryMove.stays (ap (λ (t : Store). t.entries) is);
      })

module _ (env : Env) (c : Context) (content : Text) (key : ℕ) (action : Option ℕ) (id : ℕ) where
  pub create_artifact-Change :
      (media : MediaType) (s : Store)
      → Ensures
          (λ (_, s'). Change env content s s')
          (create_artifact env c content media key action id s)
  unfolding create_artifact
  create_artifact-Change media s =
      Ensures-guard _ _ _ _ λ _. create_found-Change env c content key _ action id media _ s
