-- ===== src/Resources/Reach.antt =====
-- The stores that writers and collections reach, one transaction after the other, and what is found
-- in them: the bytes of artifacts, and the tags of files.
pub mod Contents
pub mod Rereads
pub mod Conflicts
pub mod Races
pub mod Backing
pub mod Promise
pub mod Overwriting
pub mod Refines
use http_harness.Base.{ℕ, Bool, ◌≡◌, refl, sym, subst, ◌∙◌, Option, none, some, []}
use http_harness.Base.Texts.{Text, find_file}
use http_harness.Base.Table.{lookup, lookup-insert_kept}
use http_harness.Base.Ensures.{ok}
use http_harness.Store.Rows.{Context}
use http_harness.Resources.{MediaType, ArtifactRow, EntityTag, FileSnapshot, Store, Env, find_entry}
use http_harness.Resources.Writes.{put_blob, create_artifact, garbage_collect_blobs, find_answer}
use http_harness.Resources.Edits.{write_file}
use http_harness.Resources.Blobs.{
  Describes, HasDigests, put_blob-Describes, put_blob-HasDigests, garbage_collect_blobs-Describes,
  garbage_collect_blobs-HasDigests,
}
use http_harness.Resources.Entries.{
  EntryMove, AreTagged, IsAtLeast, EntryMove-AreTagged, EntryMove-IsAtLeast,
}
use http_harness.Resources.Steps.{write_file-Change}
use http_harness.Resources.Changes.{ArtifactMove, Change, create_artifact-Change}

abbrev pub no_files : Store
no_files = record { artifacts = []; entries = []; answers = []; blobs = [] }

-- A call that returns, a writer that stops after it published a blob, or a collection. Only contents
-- in `Sent` are ever sent.
pub data Move (env : Env) (Sent : Text → Type 0) (s s' : Store) : Type 0 where
  created :
      (c : Context) (content : Text) (media : MediaType) (key : ℕ) (action : Option ℕ) (id : ℕ)
      (r : ℕ × ArtifactRow)
      → Sent content
      → create_artifact env c content media key action id s ≡ ok (r, s')
      → Move env Sent s s'
  written :
      (c : Context) (workspace : ℕ) (path content : Text) (key : ℕ)
      (if_match if_none_match : Option EntityTag) (action : Option ℕ) (id entry_id : ℕ)
      (r : FileSnapshot × Bool)
      → Sent content
      → write_file env c workspace path content key if_match if_none_match action id entry_id s
        ≡ ok (r, s')
      → Move env Sent s s'
  stopped : (content : Text) → Sent content → s' ≡ put_blob env content s → Move env Sent s s'
  collected : s' ≡ garbage_collect_blobs env s → Move env Sent s s'

pub data Reaches (env : Env) (Sent : Text → Type 0) (s : Store) : Store → Type 0 where
  here : Reaches env Sent s s
  after : (t t' : Store) → Reaches env Sent s t → Move env Sent t t' → Reaches env Sent s t'

module _ (env : Env) (Sent : Text → Type 0)
    (collision_free : (a b : Text) → Sent a → Sent b → env.sha256 a ≡ env.sha256 b → a ≡ b) where
  pub record IsSound (s : Store) : Type 0 where
    pub digests : HasDigests env Sent s.blobs
    pub tagged : AreTagged s.entries

  pub no_files-IsSound : IsSound no_files
  unfolding find_file lookup
  no_files-IsSound = record {
    digests = record { at = λ name c h. absurd (cc) };
    tagged = record { keys = tt; tags = λ k row h. absurd (cc) };
  }

  -- The artifact is registered, and its bytes are where its row says.
  pub record Holds (id : ℕ) (row : ArtifactRow) (content : Text) (s : Store) : Type 0 where
    pub at : lookup id s.artifacts ≡ some row
    pub described : Describes env row content s.blobs

  Change-IsSound :
      (content : Text) (s s' : Store)
      → Sent content
      → Change env content s s'
      → IsSound s
      → IsSound s'
  Change-IsSound content s s' sent change sound = record {
    digests = elim change.artifacts [
      | ArtifactMove.stays rows blobs ↦ subst (HasDigests env Sent) (sym blobs) sound.digests
      | ArtifactMove.added id row free rows blobs ↦
          subst (HasDigests env Sent) (sym blobs)
            (put_blob-HasDigests env Sent collision_free content s sent sound.digests)
    ];
    tagged = EntryMove-AreTagged _ _ change.entries sound.tagged;
  }

  Change-Holds :
      (content : Text) (s s' : Store) (id : ℕ) (row : ArtifactRow) (c : Text)
      → Change env content s s'
      → Holds id row c s
      → Holds id row c s'
  Change-Holds content s s' id row c change h = elim change.artifacts [
    | ArtifactMove.stays rows blobs ↦ record {
      at = rw rows h.at;
      described = subst (Describes env row c) (sym blobs) h.described;
    }
    | ArtifactMove.added k new free rows blobs ↦ record {
      at = rw rows (lookup-insert_kept k id row new s.artifacts free h.at);
      described =
          subst (Describes env row c) (sym blobs)
            (put_blob-Describes env row content c s h.described);
    }
  ]

  -- What every move keeps.
  pub record Keeps (s s' : Store) : Type 0 where
    pub sound : IsSound s'
    pub holds : (id : ℕ) (row : ArtifactRow) (c : Text) → Holds id row c s → Holds id row c s'
    pub entries : EntryMove s.entries s'.entries

  Change-Keeps :
      (content : Text) (s s' : Store)
      → Sent content
      → IsSound s
      → Change env content s s'
      → Keeps s s'
  Change-Keeps content s s' sent sound change = record {
    sound = Change-IsSound content s s' sent change sound;
    holds = λ id row c h. Change-Holds content s s' id row c change h;
    entries = change.entries;
  }

  put_blob-Keeps :
      (content : Text) (s : Store) → Sent content → IsSound s → Keeps s (put_blob env content s)
  unfolding put_blob
  put_blob-Keeps content s sent sound = record {
    sound = record {
      digests = put_blob-HasDigests env Sent collision_free content s sent sound.digests;
      tagged = sound.tagged;
    };
    holds = λ id row c h. record {
      at = h.at;
      described = put_blob-Describes env row content c s h.described;
    };
    entries = EntryMove.stays refl;
  }

  garbage_collect_blobs-Keeps : (s : Store) → IsSound s → Keeps s (garbage_collect_blobs env s)
  unfolding garbage_collect_blobs
  garbage_collect_blobs-Keeps s sound = record {
    sound = record {
      digests = garbage_collect_blobs-HasDigests env Sent s sound.digests;
      tagged = sound.tagged;
    };
    holds = λ id row c h. record {
      at = h.at;
      described = garbage_collect_blobs-Describes env id row c s h.at h.described;
    };
    entries = EntryMove.stays refl;
  }

  pub Move-Keeps : (s s' : Store) → IsSound s → Move env Sent s s' → Keeps s s'
  Move-Keeps s s' sound (created c content media key action id r sent e) =
      Change-Keeps content s s' sent sound
        ((create_artifact-Change env c content key action id media s).at (r, s') e)
  Move-Keeps s s' sound (written c workspace path content key im inm action id entry_id r sent e) =
      Change-Keeps content s s' sent sound (
        (write_file-Change env c content key action id workspace path im inm entry_id s
            sound.tagged).at
          (r, s') e)
  Move-Keeps s s' sound (stopped content sent e) =
      subst (Keeps s) (sym e) (put_blob-Keeps content s sent sound)
  Move-Keeps s s' sound (collected e) =
      subst (Keeps s) (sym e) (garbage_collect_blobs-Keeps s sound)

  pub Reaches-IsSound : (s s' : Store) → IsSound s → Reaches env Sent s s' → IsSound s'
  Reaches-IsSound s s' sound here = sound
  Reaches-IsSound s s' sound (after t t' path move) =
      (Move-Keeps t t' (Reaches-IsSound s t sound path) move).sound

  pub Reaches-Holds :
      (s s' : Store) (id : ℕ) (row : ArtifactRow) (c : Text)
      → IsSound s
      → Reaches env Sent s s'
      → Holds id row c s
      → Holds id row c s'
  Reaches-Holds s s' id row c sound here h = h
  Reaches-Holds s s' id row c sound (after t t' path move) h =
      (Move-Keeps t t' (Reaches-IsSound s t sound path) move).holds id row c
        (Reaches-Holds s t id row c sound path h)

  pub Reaches-IsAtLeast :
      (s s' : Store) (c : Context) (workspace : ℕ) (name : Text) (n : ℕ)
      → IsSound s
      → Reaches env Sent s s'
      → IsAtLeast c workspace name n s.entries
      → IsAtLeast c workspace name n s'.entries
  Reaches-IsAtLeast s s' c workspace name n sound here h = h
  Reaches-IsAtLeast s s' c workspace name n sound (after t t' path move) h =
      let there = Reaches-IsSound s t sound path in
      EntryMove-IsAtLeast c workspace name n t.entries t'.entries
        (Move-Keeps t t' there move).entries there.tagged
        (Reaches-IsAtLeast s t c workspace name n sound path h)
