-- ===== src/Resources/Entries.antt =====
-- The entries of workspaces: how a write changes what is found under a path.
use http_harness.Base.{
  ℕ, ◌+◌, ◌≤◌, ◌≡◌, refl, sym, subst, ◌∙◌, ap, arith, true, false, Option, none, some, [], ◌∷◌,
  ◌==◌, ==-refl, ==→eq, if◌then◌else◌, Bool-cases, inl, inr,
}
use http_harness.Base.Texts.{Text}
use http_harness.Base.Table.{Table, lookup, insert, lookup-insert_cases}
use http_harness.Base.Unique.{HasUniqueKeys, insert-HasUniqueKeys}
use http_harness.Store.Rows.{Context}
use http_harness.Resources
use http_harness.Resources.{EntityTag, EntryRow, is_entry, find_entry}

-- The next revision of a file, with a new tag and artifact.
abbrev pub revised_row : EntryRow → Text → ℕ → EntryRow
revised_row row digest artifact_id = record row {
  revision = row.revision + 1;
  etag = Resources.tag digest (row.revision + 1);
  artifact_id = artifact_id;
}

-- What a write may do to the table.
pub data EntryMove (t t' : Table EntryRow) : Type 0 where
  stays : t' ≡ t → EntryMove t t'
  revised :
      (k : ℕ) (row : EntryRow) (digest : Text) (artifact_id : ℕ)
      → lookup k t ≡ some row
      → t' ≡ insert k (revised_row row digest artifact_id) t
      → EntryMove t t'
  added :
      (k : ℕ) (row : EntryRow) (digest : Text)
      → lookup k t ≡ none
      → row.etag ≡ Resources.tag digest row.revision
      → t' ≡ insert k row t
      → EntryMove t t'

-- The tag of a file names its revision.
pub record IsTagged (row : EntryRow) : Type 0 where
  pub digest : Text
  pub names : row.etag ≡ Resources.tag digest row.revision

pub record AreTagged (t : Table EntryRow) : Type 0 where
  pub keys : HasUniqueKeys t
  pub tags : (k : ℕ) (row : EntryRow) → lookup k t ≡ some row → IsTagged row

insert-AreTagged :
    (k : ℕ) (row : EntryRow) (t : Table EntryRow)
    → IsTagged row
    → AreTagged t
    → AreTagged (insert k row t)
insert-AreTagged k row t new h = record {
  keys = insert-HasUniqueKeys k row t h.keys;
  tags = λ j r e. elim (lookup-insert_cases k j row r t e) [
    | inl (_, same) ↦ subst IsTagged (sym same) new
    | inr (_, old) ↦ h.tags j r old
  ];
}

pub EntryMove-AreTagged : (t t' : Table EntryRow) → EntryMove t t' → AreTagged t → AreTagged t'
EntryMove-AreTagged t t' (stays e) h = subst AreTagged (sym e) h
EntryMove-AreTagged t t' (revised k row digest a at e) h =
    subst AreTagged (sym e) (insert-AreTagged k _ t (record { digest = digest; names = refl }) h)
EntryMove-AreTagged t t' (added k row digest at tag e) h =
    subst AreTagged (sym e) (insert-AreTagged k row t (record { digest = digest; names = tag }) h)

module _ (c : Context) (workspace : ℕ) (path : Text) where
  pub find_entry-lookup :
      (k : ℕ) (row : EntryRow) (t : Table EntryRow)
      → HasUniqueKeys t
      → find_entry c workspace path t ≡ some (k, row)
      → lookup k t ≡ some row
  unfolding find_entry lookup
  find_entry-lookup k row [] u h = absurd (cc)
  find_entry-lookup k row ((j, r) ∷ t) u h = elim (Bool-cases (is_entry c workspace path r)) [
    | inl e ↦
        let same : ◌≡◌ {A = Option (ℕ × EntryRow)} (some (j, r)) (some (k, row)) =
          sym (ap (λ b. if b then some (j, r) else find_entry c workspace path t) e) ∙ h in
        ground (arith, ==-refl k, same)
    | inr e ↦
        let below : lookup k t ≡ some row = find_entry-lookup k row t u.1 (ground arith) in
        ground (arith, ==→eq j k, u.0, below)
  ]

  abbrev after_insert : ℕ → EntryRow → ℕ → EntryRow → ℕ × EntryRow
  after_insert k new j r = if j == k then (k, new) else (j, r)

  pub find_entry-insert :
      (k : ℕ) (old new : EntryRow) (j : ℕ) (r : EntryRow) (t : Table EntryRow)
      → HasUniqueKeys t
      → lookup k t ≡ some old
      → is_entry c workspace path new ≡ is_entry c workspace path old
      → find_entry c workspace path t ≡ some (j, r)
      → find_entry c workspace path (insert k new t) ≡ some (if j == k then (k, new) else (j, r))
  unfolding find_entry lookup insert
  find_entry-insert k old new j r [] u at same h = absurd (cc)
  find_entry-insert k old new j r ((i, s) ∷ t) u at same h = elim (Bool-cases (i == k)) [
    | inl e ↦ elim (Bool-cases (is_entry c workspace path old)) [
      | inl hit ↦ ground arith
      | inr miss ↦
          let found : find_entry c workspace path t ≡ some (j, r) = ground arith in
          let there : lookup j t ≡ some r = find_entry-lookup j r t u.1 found in
          let apart : (j == k) ≡ false = ground (arith, ==→eq j k, ==→eq i k, u.0) in ground arith
    ]
    | inr e ↦ elim (Bool-cases (is_entry c workspace path s)) [
      | inl hit ↦ ground arith
      | inr miss ↦ ground (arith, find_entry-insert k old new j r t u.1)
    ]
  ]

  pub find_entry-insert_new :
      (k : ℕ) (new : EntryRow) (j : ℕ) (r : EntryRow) (t : Table EntryRow)
      → lookup k t ≡ none
      → find_entry c workspace path t ≡ some (j, r)
      → find_entry c workspace path (insert k new t) ≡ some (j, r)
  unfolding find_entry lookup insert
  find_entry-insert_new k new j r [] absent h = absurd (cc)
  find_entry-insert_new k new j r ((i, s) ∷ t) absent h =
      ground (arith, find_entry-insert_new k new j r t)

  pub find_entry-insert_first :
      (k : ℕ) (new : EntryRow) (t : Table EntryRow)
      → lookup k t ≡ none
      → is_entry c workspace path new ≡ true
      → find_entry c workspace path t ≡ none
      → find_entry c workspace path (insert k new t) ≡ some (k, new)
  unfolding find_entry lookup insert
  find_entry-insert_first k new [] absent hit h = ground arith
  find_entry-insert_first k new ((i, s) ∷ t) absent hit h =
      ground (arith, find_entry-insert_first k new t)

  -- A file is there, at this revision or a later one.
  pub record IsAtLeast (n : ℕ) (t : Table EntryRow) : Type 0 where
    pub key : ℕ
    pub row : EntryRow
    pub found : find_entry c workspace path t ≡ some (key, row)
    pub reached : n ≤ row.revision

  pub EntryMove-IsAtLeast :
      (n : ℕ) (t t' : Table EntryRow)
      → EntryMove t t'
      → AreTagged t
      → IsAtLeast n t
      → IsAtLeast n t'
  EntryMove-IsAtLeast n t t' (stays e) tagged h = subst (IsAtLeast n) (sym e) h
  EntryMove-IsAtLeast n t t' (revised k old digest a at e) tagged h =
      let new = revised_row old digest a in
      let found = find_entry-insert k old new h.key h.row t tagged.keys at refl h.found in
      elim (Bool-cases (h.key == k)) [
        | inl same ↦
            let there = find_entry-lookup h.key h.row t tagged.keys h.found in
            let is_old : h.row ≡ old = ground (arith, ==→eq h.key k same) in
            let le : n ≤ old.revision = subst (λ (r : EntryRow). n ≤ r.revision) is_old h.reached in
            record { key = k; row = new; found = ground arith; reached = omega (arith, le) }
        | inr other ↦ record { key = h.key; row = h.row; found = ground arith; reached = h.reached }
      ]
  EntryMove-IsAtLeast n t t' (added k new digest at tag e) tagged h = record {
    key = h.key;
    row = h.row;
    found = rw e (find_entry-insert_new k new h.key h.row t at h.found);
    reached = h.reached;
  }

module _ (c : Context) (workspace : ℕ) (path : Text) where
  pub find_entry-is_entry :
      (k : ℕ) (row : EntryRow) (t : Table EntryRow)
      → find_entry c workspace path t ≡ some (k, row)
      → is_entry c workspace path row ≡ true
  unfolding find_entry
  find_entry-is_entry k row [] h = absurd (cc)
  find_entry-is_entry k row ((j, r) ∷ t) h = ground (arith, find_entry-is_entry k row t)

  -- A write of another file is not seen.
  pub find_entry-insert_other :
      (k : ℕ) (new : EntryRow) (t : Table EntryRow)
      → is_entry c workspace path new ≡ false
      → ((old : EntryRow) → lookup k t ≡ some old → is_entry c workspace path old ≡ false)
      → find_entry c workspace path (insert k new t) ≡ find_entry c workspace path t
  unfolding find_entry lookup insert
  find_entry-insert_other k new [] miss was = ground arith
  find_entry-insert_other k new ((j, r) ∷ t) miss was = elim (Bool-cases (j == k)) [
    | inl same ↦ ground (arith, was r (ground arith))
    | inr other ↦
        ground (arith, find_entry-insert_other k new t miss (λ old at. was old (ground arith)))
  ]
