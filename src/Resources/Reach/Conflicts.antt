-- ===== src/Resources/Reach/Conflicts.antt =====
-- Conditional writes (`write_file`): a precondition that one writer has used is used up.
use http_harness.Base.{
  ℕ, ◌+◌, ◌≤◌, ◌≡◌, refl, sym, ap, ◌∙◌, arith, Bool, true, false, not, Option, none, some, is_none,
  ltb,
}
use http_harness.Base.Texts.{Text, length}
use http_harness.Base.Ensures.{ok, err, ◌>>=◌, guard}
use http_harness.Domain.Errors.{precondition_failed}
use http_harness.Store.Rows.{Context}
use http_harness.Resources
use http_harness.Resources.{
  EntityTag, EntryRow, FileSnapshot, Store, Env, same_tag, find_entry, normalize_file_path,
}
use http_harness.Resources.Writes.{find_answer}
use http_harness.Resources.Edits.{
  write_file, write_found, write_new, may_write, next_revision, next_entry,
}
use http_harness.Resources.Entries.{IsTagged, IsAtLeast, find_entry-lookup}
use http_harness.Resources.Steps.{write_file-Written}
use http_harness.Resources.Reach.{
  Move, Move-Keeps, Reaches, no_files, Reaches-IsSound, Reaches-IsAtLeast, no_files-IsSound,
}
use http_harness.Resources.Reach.Contents.{ok-eq}
use http_harness.Resources.Reach.Rereads.{Wrote-find_entry}

-- A tag that matches a later revision does not match an earlier one.
same_tag-later :
    (t : EntityTag) (d e : Text) (m n : ℕ)
    → same_tag t (Resources.tag d m) ≡ true
    → m + 1 ≤ n
    → same_tag t (Resources.tag e n) ≡ false
same_tag-later Resources.any d e m n h le = ground arith
same_tag-later (Resources.tag s k) d e m n h le = ground arith
same_tag-later (Resources.other k) d e m n h le = ground arith

-- What was allowed before a write is not allowed at the revision that it wrote, or later.
may_write-later :
    (im inm : Option EntityTag) (found : Option (ℕ × EntryRow)) (k : ℕ) (row : EntryRow)
    → is_none im ≡ not (is_none inm)
    → ((j : ℕ) (old : EntryRow) → found ≡ some (j, old) → IsTagged old)
    → IsTagged row
    → may_write found im inm ≡ true
    → next_revision found ≤ row.revision
    → may_write (some (k, row)) im inm ≡ false
may_write-later none inm found k row one tagged new h le = refl
may_write-later (some t) inm none k row one tagged new h le = ground arith
may_write-later (some t) inm (some (j, old)) k row one tagged new h le =
    let was = tagged j old refl in
    rw new.names
      (same_tag-later t was.digest new.digest old.revision row.revision (rw (← was.names) h) le)

refused :
    (env : Env) (c : Context) (workspace : ℕ) (path canonical content : Text) (key : ℕ)
    (im inm : Option EntityTag) (action : Option ℕ) (id entry_id k : ℕ) (row : EntryRow) (s : Store)
    → normalize_file_path env path ≡ ok canonical
    → ltb 1048576 (length content) ≡ false
    → is_none im ≡ not (is_none inm)
    → find_answer c (Resources.put_file workspace canonical) key s.answers ≡ none
    → find_entry c workspace canonical s.entries ≡ some (k, row)
    → may_write (some (k, row)) im inm ≡ false
    → write_file env c workspace path content key im inm action id entry_id s
      ≡ err precondition_failed
unfolding write_file write_found write_new ◌>>=◌ guard
refused env c workspace path canonical content key none inm action id entry_id k row s normal small
      one fresh found fails =
    rw (normal, small, fresh, found) (ground arith)
refused env c workspace path canonical content key (some t) none action id entry_id k row s normal
      small one fresh found fails =
    rw (normal, small, fresh, found) (ground arith)
refused env c workspace path canonical content key (some t) (some u) action id entry_id k row s
      normal small one fresh found fails =
    absurd (ground arith)

next_revision-next_entry :
    (c : Context) (workspace : ℕ) (path : Text) (etag : EntityTag) (id entry_id : ℕ)
    (found : Option (ℕ × EntryRow))
    → (next_entry c workspace path (next_revision found) etag id entry_id found).1.revision
      ≡ next_revision found
next_revision-next_entry c workspace path etag id entry_id none = refl
next_revision-next_entry c workspace path etag id entry_id (some (k, row)) = refl

module _ (env : Env) (Sent : Text → Type 0)
    (collision_free : (a b : Text) → Sent a → Sent b → env.sha256 a ≡ env.sha256 b → a ≡ b) where
  -- Once a write was committed under its preconditions, these preconditions never allow another
  -- write of the file: with any content of an allowed size and any new key it fails with 412, in
  -- every later store.
  pub write_file-used :
      (c : Context) (workspace : ℕ) (path canonical content : Text) (key : ℕ)
      (if_match if_none_match : Option EntityTag) (action : Option ℕ) (id entry_id : ℕ)
      (r : FileSnapshot × Bool) (s s' s'' : Store)
      → Reaches env Sent no_files s
      → Sent content
      → normalize_file_path env path ≡ ok canonical
      → find_answer c (Resources.put_file workspace canonical) key s.answers ≡ none
      → write_file env c workspace path content key if_match if_none_match action id entry_id s
        ≡ ok (r, s')
      → Reaches env Sent s' s''
      → (other : Text) (other_key : ℕ) (other_action : Option ℕ) (other_id other_entry : ℕ)
      → ltb 1048576 (length other) ≡ false
      → find_answer c (Resources.put_file workspace canonical) other_key s''.answers ≡ none
      → write_file env c workspace path other other_key if_match if_none_match other_action other_id
          other_entry s''
        ≡ err precondition_failed
  write_file-used c workspace path canonical content key im inm action id entry_id r s s' s'' before
        sent normal fresh done later other other_key other_action other_id other_entry small
        unused =
      let sound =
        Reaches-IsSound env Sent collision_free no_files s
          (no_files-IsSound env Sent collision_free) before in
      let move = Move.written c workspace path content key im inm action id entry_id r sent done in
      let sound' = (Move-Keeps env Sent collision_free s s' sound move).sound in
      let sound'' = Reaches-IsSound env Sent collision_free s' s'' sound' later in
      let (fingerprint, w) =
        (write_file-Written env c content key action id workspace path im inm entry_id s).at (r, s')
          done in
      let same : w.canonical ≡ canonical = ok-eq (sym w.normal ∙ normal) in
      let wrote = w.wrote (rw same fresh) in
      let found = find_entry c workspace w.canonical s.entries in
      let start : IsAtLeast c workspace w.canonical (next_revision found) s'.entries = record {
        key = wrote.entry.0;
        row = wrote.entry.1;
        found =
            Wrote-find_entry env Sent collision_free c content key fingerprint action id workspace
              w.canonical im inm entry_id s s' r sound.tagged wrote;
        reached = omega (
          arith,
          ap (λ (e : ℕ × EntryRow). e.1.revision) wrote.is_entry,
          next_revision-next_entry c workspace w.canonical
              (Resources.tag (env.sha256 content) (next_revision found)) id entry_id found,
        );
      } in
      let end =
        Reaches-IsAtLeast env Sent collision_free s' s'' c workspace w.canonical
          (next_revision found) sound' later start in
      let tagged = λ (j : ℕ) (old : EntryRow) (e : found ≡ some (j, old)).
        sound.tagged.tags j old
          (find_entry-lookup c workspace w.canonical j old s.entries sound.tagged.keys e) in
      let new = sound''.tagged.tags end.key end.row (
        find_entry-lookup c workspace w.canonical end.key end.row s''.entries sound''.tagged.keys
          end.found) in
      refused env c workspace path w.canonical other other_key im inm other_action other_id
        other_entry end.key end.row s'' w.normal small w.exclusive (rw same unused) end.found
        (may_write-later im inm found end.key end.row w.exclusive tagged new wrote.allowed
          end.reached)
