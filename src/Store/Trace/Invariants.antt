-- ===== src/Store/Trace/Invariants.antt =====
-- Parents and children through a trace: the invariant that no run is an orphan.
use http_harness.Base.{ℕ, ◌≡◌, inl, inr, true, false, none, some, List, arith, ◌==◌, Bool-cases}
use http_harness.Base.Table.{
  Table, lookup, insert, lookup-insert, lookup-insert_cases, any_row-lookup,
}
use http_harness.Domain.States.{is_terminal}
use http_harness.Domain.Transitions.{Follows-is_terminal}
use http_harness.Store.Rows.{RunRow, EventRow}
use http_harness.Store.Session.{has_nonterminal_children, is_live_child}
use http_harness.Store.Trace.{Trace, Edit, Settled}

pub record IsOrphanFree (rs : Table RunRow) : Type 0 where
  pub parents :
      (c p : ℕ) (child : RunRow)
      → lookup c rs ≡ some child
      → child.parent_run_id ≡ some p
      → (parent : RunRow) × (lookup p rs ≡ some parent)
  pub ended :
      (c p : ℕ) (child parent : RunRow)
      → lookup c rs ≡ some child
      → child.parent_run_id ≡ some p
      → lookup p rs ≡ some parent
      → is_terminal parent.status ≡ true
      → is_terminal child.status ≡ true

-- A row is still there after a write to any key.
lookup-insert-some :
    (k j : ℕ) (a b : RunRow) (t : Table RunRow)
    → lookup j t ≡ some b
    → (c : RunRow) × (lookup j (insert k a t) ≡ some c)
lookup-insert-some k j a b t h = elim (Bool-cases (k == j)) [
  | inl same ↦ (a, ground (arith, lookup-insert k j a t))
  | inr other ↦ (b, ground (arith, lookup-insert k j a t))
]

module _ (rs : Table RunRow) (id : ℕ) (old new : RunRow) (free : IsOrphanFree rs)
    (found : lookup id rs ≡ some old) (edit : Edit 1 old new)
    (settled : Settled id rs old new) where
  Edit-is_terminal : is_terminal old.status ≡ true → is_terminal new.status ≡ true
  Edit-is_terminal h = ground (arith, Follows-is_terminal edit.follows h)

  -- What was written is a child of `p` as `old` was.
  child_before :
      (c p : ℕ) (child : RunRow)
      → lookup c (insert id new rs) ≡ some child
      → child.parent_run_id ≡ some p
      → (before : RunRow) × (lookup c rs ≡ some before)
        × (before.parent_run_id ≡ some p)
        × (is_terminal before.status ≡ true → is_terminal child.status ≡ true)
  child_before c p child h e = elim (lookup-insert_cases id c new child rs h) [
    | inl (same, is_new) ↦ (
      old,
      rw (← same) found,
      ground (arith, edit.same_parent),
      λ t. ground (arith, Edit-is_terminal t),
    )
    | inr (other, at) ↦ (child, at, e, λ t. t)
  ]

  edit_parents :
      (c p : ℕ) (child : RunRow)
      → lookup c (insert id new rs) ≡ some child
      → child.parent_run_id ≡ some p
      → (parent : RunRow) × (lookup p (insert id new rs) ≡ some parent)
  edit_parents c p child h e =
      let (before, at, parent_of, _) = child_before c p child h e in
      let (parent, pat) = free.parents c p before at parent_of in
      lookup-insert-some id p new parent rs pat

  no_live_child :
      (c : ℕ) (child : RunRow)
      → has_nonterminal_children id rs ≡ false
      → lookup c rs ≡ some child
      → child.parent_run_id ≡ some id
      → is_terminal child.status ≡ true
  unfolding has_nonterminal_children
  no_live_child c child none_live at e =
      ground (arith, any_row-lookup (is_live_child id) c child rs none_live at)

  edit_ended :
      (c p : ℕ) (child parent : RunRow)
      → lookup c (insert id new rs) ≡ some child
      → child.parent_run_id ≡ some p
      → lookup p (insert id new rs) ≡ some parent
      → is_terminal parent.status ≡ true
      → is_terminal child.status ≡ true
  edit_ended c p child parent h e g t =
      let (before, at, parent_of, carries) = child_before c p child h e in
      elim (lookup-insert_cases id p new parent rs g) [
        | inl (same, is_new) ↦ carries (elim (settled (ground arith)) [
          | inl old_ended ↦ free.ended c id before old at (rw same parent_of) found old_ended
          | inr none_live ↦ no_live_child c before none_live at (rw same parent_of)
        ])
        | inr (other, pat) ↦ carries (free.ended c p before parent at parent_of pat t)
      ]

  edit-IsOrphanFree : IsOrphanFree (insert id new rs)
  edit-IsOrphanFree = record { parents = edit_parents; ended = edit_ended }

module _ (rs : Table RunRow) (id : ℕ) (new : RunRow) (free : IsOrphanFree rs)
    (absent : lookup id rs ≡ none)
    (adopted : (p : ℕ)
      → new.parent_run_id ≡ some p
      → (parent : RunRow) × (lookup p rs ≡ some parent) × (is_terminal parent.status ≡ false)) where
  -- The parent of a run of the new table was there before.
  parent_before :
      (c p : ℕ) (child : RunRow)
      → lookup c (insert id new rs) ≡ some child
      → child.parent_run_id ≡ some p
      → (parent : RunRow) × (lookup p rs ≡ some parent)
        × (is_terminal parent.status ≡ true → is_terminal child.status ≡ true)
  parent_before c p child h e = elim (lookup-insert_cases id c new child rs h) [
    | inl (same, is_new) ↦
        let (parent, pat, live) = adopted p (ground arith) in (parent, pat, λ t. ground arith)
    | inr (other, at) ↦
        let (parent, pat) = free.parents c p child at e in
        (parent, pat, λ t. free.ended c p child parent at e pat t)
  ]

  create_parents :
      (c p : ℕ) (child : RunRow)
      → lookup c (insert id new rs) ≡ some child
      → child.parent_run_id ≡ some p
      → (parent : RunRow) × (lookup p (insert id new rs) ≡ some parent)
  create_parents c p child h e =
      let (parent, pat, _) = parent_before c p child h e in
      lookup-insert-some id p new parent rs pat

  create_ended :
      (c p : ℕ) (child parent : RunRow)
      → lookup c (insert id new rs) ≡ some child
      → child.parent_run_id ≡ some p
      → lookup p (insert id new rs) ≡ some parent
      → is_terminal parent.status ≡ true
      → is_terminal child.status ≡ true
  create_ended c p child parent h e g t =
      let (before, pat, ends) = parent_before c p child h e in
      ground (arith, lookup-insert id p new rs, ends)

  create-IsOrphanFree : IsOrphanFree (insert id new rs)
  create-IsOrphanFree = record { parents = create_parents; ended = create_ended }

pub Trace-IsOrphanFree :
    {rs : Table RunRow} {es : List EventRow} {rs' : Table RunRow} {es' : List EventRow}
    → Trace rs es rs' es'
    → IsOrphanFree rs
    → IsOrphanFree rs'
Trace-IsOrphanFree Trace.here f = f
Trace-IsOrphanFree (Trace.log {rs' = mid} t id old new type found edit settled seq) f =
    edit-IsOrphanFree mid id old new (Trace-IsOrphanFree t f) found edit settled
Trace-IsOrphanFree (Trace.create {rs' = mid} t id new type absent parents seq) f =
    create-IsOrphanFree mid id new (Trace-IsOrphanFree t f) absent parents
