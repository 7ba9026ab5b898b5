-- ===== src/Resources/Reach/Contents.antt =====
-- Artifacts are read as they were created (`create_artifact`).
use http_harness.Base.{ℕ, ◌≡◌, refl, sym, ap, ◌∙◌, subst, arith, true, Option, none, ==-refl}
use http_harness.Base.Texts.{Text}
use http_harness.Base.Table.{lookup, lookup-insert}
use http_harness.Base.Ensures.{
  ok, Ensures, Ensures-ok, Ensures-bind, Ensures-guard, ◌>>=◌, guard, require,
}
use http_harness.Store.Rows.{Context}
use http_harness.Resources
use http_harness.Resources.{
  MediaType, ArtifactRow, EntityTag, EntryRow, FileSnapshot, FileContent, Store, Env, AnswerRow,
  owns_artifact, visible_artifact, artifact_bytes, get_artifact_content, read_file, find_entry,
  file_snapshot, is_entry, normalize_file_path,
}
use http_harness.Resources.Writes.{
  put_blob, new_artifact, record_answer, find_answer, create_found, create_artifact,
}
use http_harness.Resources.Blobs.{Describes, Describes-artifact_bytes, new_artifact-Describes}
use http_harness.Resources.Changes.{add_artifact-new}
use http_harness.Resources.Reach.{
  Move, Move-Keeps, Reaches, no_files, IsSound, Holds, Reaches-IsSound, Reaches-Holds,
  no_files-IsSound,
}

pub ok-eq : {a b : Text} → ok a ≡ ok b → a ≡ b
ok-eq h = cc

pub owned_by_maker :
    (env : Env) (c : Context) (content : Text) (media : MediaType) (action : Option ℕ)
    → owns_artifact c (new_artifact env c content media action) ≡ true
owned_by_maker env c content media action =
    ground (arith, ==-refl c.tenant_id, ==-refl c.subject_id)

module _ (env : Env) (Sent : Text → Type 0)
    (collision_free : (a b : Text) → Sent a → Sent b → env.sha256 a ≡ env.sha256 b → a ≡ b) where
  create_found-Holds :
      (c : Context) (content : Text) (media : MediaType) (key : ℕ) (fingerprint : Text)
      (action : Option ℕ) (id : ℕ) (s : Store)
      → Sent content
      → IsSound env Sent collision_free s
      → Ensures
          (λ (r, s').
            (r.0 ≡ id)
            × Holds env Sent collision_free id (new_artifact env c content media action) content s')
          (create_found env c content media key fingerprint action id none s)
  unfolding create_found record_answer
  create_found-Holds c content media key fingerprint action id s sent sound =
      Ensures-bind _ _ _ λ added a.
        let row = new_artifact env c content media action in
        let (free, is) = (add_artifact-new id row (put_blob env content s)).at added a in
        Ensures-ok _ _ (
          refl,
          record {
            at =
                ap (λ (t : Store). lookup id t.artifacts) is
                ∙ ground
                    (arith, lookup-insert id id row (put_blob env content s).artifacts, ==-refl id);
            described = subst (Describes env row content) (ap (λ (t : Store). t.blobs) (sym is)) (
                new_artifact-Describes env Sent collision_free c content media action s sent
                  sound.digests);
          },
        )

  Holds-get_artifact_content :
      (c : Context) (id : ℕ) (row : ArtifactRow) (content : Text) (s : Store)
      → owns_artifact c row ≡ true
      → Holds env Sent collision_free id row content s
      → get_artifact_content env c id s ≡ ok (content, row.media_type, row.sha256)
  unfolding get_artifact_content visible_artifact ◌>>=◌ guard require
  Holds-get_artifact_content c id row content s owned h =
      ground (arith, owned, h.at, Describes-artifact_bytes env row content s h.described)

  create_artifact-Holds :
      (c : Context) (content : Text) (media : MediaType) (key : ℕ) (action : Option ℕ) (id : ℕ)
      (s : Store)
      → Sent content
      → IsSound env Sent collision_free s
      → find_answer c Resources.post_artifacts key s.answers ≡ none
      → Ensures
          (λ (r, s').
            (r.0 ≡ id)
            × Holds env Sent collision_free id (new_artifact env c content media action) content s')
          (create_artifact env c content media key action id s)
  unfolding create_artifact
  create_artifact-Holds c content media key action id s sent sound fresh =
      Ensures-guard _ _ _ _
        λ _. rw fresh (create_found-Holds c content media key _ action id s sent sound)

  -- The bytes of an artifact that was created under a new key are what its owner reads, whatever is
  -- created, written, abandoned half way or collected after that, one after the other: in every store
  -- reached from the empty one, where no two contents that are sent have one digest.
  pub Reaches-get_artifact_content :
      (c : Context) (content : Text) (media : MediaType) (key : ℕ) (action : Option ℕ) (id : ℕ)
      (r : ℕ × ArtifactRow) (s s' s'' : Store)
      → Reaches env Sent no_files s
      → Sent content
      → find_answer c Resources.post_artifacts key s.answers ≡ none
      → create_artifact env c content media key action id s ≡ ok (r, s')
      → Reaches env Sent s' s''
      → get_artifact_content env c r.0 s'' ≡ ok (content, media, env.sha256 content)
  Reaches-get_artifact_content c content media key action id r s s' s'' before sent fresh done
        later =
      let sound =
        Reaches-IsSound env Sent collision_free no_files s
          (no_files-IsSound env Sent collision_free) before in
      let next =
        Move-Keeps env Sent collision_free s s' sound
          (Move.created c content media key action id r sent done) in
      let (is, held) =
        (create_artifact-Holds c content media key action id s sent sound fresh).at (r, s') done in
      rw is (
        Holds-get_artifact_content c id (new_artifact env c content media action) content s''
          (owned_by_maker env c content media action)
          (Reaches-Holds env Sent collision_free s' s'' id _ content next.sound later held))
