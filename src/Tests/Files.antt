-- ===== src/Tests/Files.antt =====
-- Artifacts and workspace files at concrete contents.
use http_harness.Base.{Bool, ◌≡◌, ◌⊎◌, refl, true, false, none, some, [], ◌∷◌}
use http_harness.Base.Texts.{Text, join, publish, split}
use http_harness.Base.Table.{lookup, insert}
use http_harness.Base.Ensures.{ok, err, ◌>>=◌}
use http_harness.Domain.Errors.{precondition_failed, data_error, dependency_unavailable}
use http_harness.Resources
use http_harness.Resources.{
  ArtifactRow, EntityTag, FileSnapshot, ResourceRoute, Payload, Store, Env, get_artifact_content,
  read_file, normalize_file_path,
}
use http_harness.Resources.Writes.{
  add_artifact, create_artifact, find_answer, garbage_collect_blobs, is_registered, new_artifact,
  put_blob,
}
use http_harness.Resources.Edits.{fits, write_file}
use http_harness.Resources.Reach.{Move, Reaches, no_files}
use http_harness.Resources.Reach.Contents.{Reaches-get_artifact_content}
use http_harness.Resources.Reach.Promise
use http_harness.Resources.Reach.Promise.{Condition, allows, file_at, overwritten}
use http_harness.Resources.Reach.Refines.{write_file-refines}
use http_harness.Resources.Reach.Conflicts.{write_file-used}
use http_harness.Resources.Reach.Races.{garbage_collect_blobs-between}
use http_harness.Tests.Stores.{alice}

abbrev fingerprint_of : ResourceRoute → Payload → Text
fingerprint_of route (Payload.artifact media digest) = digest
fingerprint_of route (Payload.file digest if_match if_none_match) = digest

-- A digest that is the content itself, and texts that are normal already.
abbrev disk : Env
disk = record {
  workspace_name = λ id. b'w' ∷ [];
  nfc = λ t. t;
  sha256 = λ t. t;
  request_fingerprint = fingerprint_of;
  has_blob_store = true;
}

abbrev Anything : Text → Type 0
Anything t = Unit

distinct : (a b : Text) → Anything a → Anything b → disk.sha256 a ≡ disk.sha256 b → a ≡ b
distinct a b _ _ e = e

abbrev hello : Text
hello = 104 ∷ 105 ∷ []

abbrev note : Text
note = b'a' ∷ b'/' ∷ b'b' ∷ []

abbrev hello_row : ArtifactRow
hello_row = new_artifact disk alice hello Resources.text_plain none

abbrev hello_stored : Store
hello_stored = record {
  artifacts = (1, hello_row) ∷ [];
  entries = [];
  answers =
      record {
        tenant_id = alice.tenant_id;
        subject_id = alice.subject_id;
        route = Resources.post_artifacts;
        idempotency_key = 7;
        request_hash = hello;
        answer = Resources.Answer.artifact 1;
      }
      ∷ [];
  blobs = (hello, hello) ∷ [];
}

hello_created :
    create_artifact disk alice hello Resources.text_plain 7 none 1 no_files
    ≡ ok ((1, hello_row), hello_stored)
unfolding create_artifact ◌>>=◌ lookup insert publish
hello_created = refl

Reaches-get_artifact_content_example :
    get_artifact_content disk alice 1 (garbage_collect_blobs disk hello_stored)
    ≡ ok (hello, Resources.text_plain, hello)
unfolding find_answer
Reaches-get_artifact_content_example =
    Reaches-get_artifact_content disk Anything distinct alice hello Resources.text_plain 7 none 1
      (1, hello_row) no_files hello_stored (garbage_collect_blobs disk hello_stored) Reaches.here tt
      refl hello_created
      (Reaches.after hello_stored (garbage_collect_blobs disk hello_stored) Reaches.here
        (Move.collected refl))

abbrev note_snapshot : FileSnapshot
note_snapshot = record {
  workspace_id = 3;
  path = note;
  revision = 1;
  etag = Resources.tag hello 1;
  artifact_id = 1;
}

abbrev note_stored : Store
note_stored = record {
  artifacts = (1, hello_row) ∷ [];
  entries =
      (
        5,
        record {
          tenant_id = alice.tenant_id;
          subject_id = alice.subject_id;
          workspace_id = 3;
          logical_path = note;
          revision = 1;
          etag = Resources.tag hello 1;
          artifact_id = 1;
        },
      )
      ∷ [];
  answers =
      record {
        tenant_id = alice.tenant_id;
        subject_id = alice.subject_id;
        route = Resources.put_file 3 note;
        idempotency_key = 8;
        request_hash = hello;
        answer = Resources.Answer.file note_snapshot true;
      }
      ∷ [];
  blobs = (hello, hello) ∷ [];
}

note_is_normal : normalize_file_path disk note ≡ ok note
unfolding normalize_file_path ◌>>=◌ split join
note_is_normal = refl

note_written :
    write_file disk alice 3 note hello 8 none (some Resources.any) none 1 5 no_files
    ≡ ok ((note_snapshot, true), note_stored)
unfolding write_file ◌>>=◌ lookup insert split join publish
note_written = refl

no_answer : find_answer alice (Resources.put_file 3 note) 8 no_files.answers ≡ none
unfolding find_answer
no_answer = refl

no_later_answer : find_answer alice (Resources.put_file 3 note) 9 note_stored.answers ≡ none
unfolding find_answer
no_later_answer = refl

write_file-used_example :
    write_file disk alice 3 note (1 ∷ []) 9 none (some Resources.any) none 2 6 note_stored
    ≡ err precondition_failed
write_file-used_example =
    write_file-used disk Anything distinct alice 3 note note hello 8 none (some Resources.any) none
      1 5 (note_snapshot, true) no_files note_stored note_stored Reaches.here tt note_is_normal
      no_answer note_written Reaches.here (1 ∷ []) 9 none 2 6 refl no_later_answer

abbrev other_text : Text
other_text = 1 ∷ []

abbrev at_first : Condition
at_first = Promise.matches (Resources.tag hello 1)

write_file-refines_example :
    ((allows disk at_first (file_at disk alice 3 note note_stored) ≡ true)
      × (fits disk 3 note ≡ true)
      × (p : (FileSnapshot × Bool) × Store) × (write_file disk alice 3 note other_text 9
            (some (Resources.tag hello 1))
            none
            none
            2
            6
            note_stored
          ≡ ok p)
      × (file_at disk alice 3 note p.1
          ≡ overwritten (file_at disk alice 3 note note_stored) other_text)
      × (file_at disk alice 4 note p.1 ≡ file_at disk alice 4 note note_stored))
    ⊎ ((allows disk at_first (file_at disk alice 3 note note_stored) ≡ true)
        × (fits disk 3 note ≡ false)
        × (write_file disk alice 3 note other_text 9
              (some (Resources.tag hello 1))
              none
              none
              2
              6
              note_stored
            ≡ err data_error))
    ⊎ ((allows disk at_first (file_at disk alice 3 note note_stored) ≡ false)
        × (write_file disk alice 3 note other_text 9
              (some (Resources.tag hello 1))
              none
              none
              2
              6
              note_stored
            ≡ err precondition_failed))
unfolding lookup
write_file-refines_example =
    write_file-refines disk Anything distinct alice 3 note note other_text 9 at_first none 2 6
      note_stored alice 4 note note
      (Reaches.after no_files note_stored Reaches.here (
        Move.written alice 3 note hello 8 none (some Resources.any) none 1 5 (note_snapshot, true)
          tt note_written))
      tt note_is_normal refl no_later_answer refl refl note_is_normal refl

garbage_collect_blobs-between_example :
    (s' : Store) × (add_artifact 1 hello_row
        (garbage_collect_blobs disk (put_blob disk hello no_files))
      ≡ ok s')
    × (get_artifact_content disk alice 1 s' ≡ err dependency_unavailable)
unfolding is_registered lookup
garbage_collect_blobs-between_example =
    garbage_collect_blobs-between disk alice hello Resources.text_plain none 1 no_files refl refl
      refl
