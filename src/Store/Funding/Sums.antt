-- ===== src/Store/Funding/Sums.antt =====
-- The sum over the reservations of one run in one dimension, and what a write changes of it.
use http_harness.Base.{
  ℕ, ◌+◌, ◌≤◌, ◌≡◌, refl, Bool, true, ◌&&◌, none, some, [], ◌∷◌, arith, ◌==◌, if◌then◌else◌,
}
use http_harness.Base.Table.{Table, lookup, insert, update_where}
use http_harness.Base.Unique.{HasUniqueKeys}
use http_harness.Store.Rows
use http_harness.Store.Rows.{ReservationRow, Dimension}
use http_harness.Store.Session.{is_reserved}

abbrev column : Dimension → ℕ
column Rows.model_turn = 0
column Rows.tool_call = 1
column Rows.output_tokens = 2
column Rows.cost_microunits = 3
column Rows.unsupported = 4

abbrev pub same_dimension : Dimension → Dimension → Bool
same_dimension d e = column d == column e

pub same_dimension→eq : (d e : Dimension) → same_dimension d e ≡ true → d ≡ e
same_dimension→eq d e h = ground arith

-- What a row adds to the active sum of a run in a dimension.
unfoldable pub share : ℕ → Dimension → ReservationRow → ℕ
share id d r =
    if r.run_id == id && same_dimension r.dimension d && is_reserved r.status
    then r.reserved_amount
    else 0

-- The sum of the reserved amounts `WHERE run_id=… AND dimension=… AND status='reserved'`.
unfoldable pub active : ℕ → Dimension → Table ReservationRow → ℕ
active id d [] = 0
active id d ((k, r) ∷ t) = share id d r + active id d t

-- The same `AND id != key`.
unfoldable pub active_others : ℕ → ℕ → Dimension → Table ReservationRow → ℕ
active_others key id d [] = 0
active_others key id d ((k, r) ∷ t) =
    (if k == key then 0 else share id d r) + active_others key id d t

pub active-insert :
    (id : ℕ) (d : Dimension) (k : ℕ) (old new : ReservationRow) (t : Table ReservationRow)
    → lookup k t ≡ some old
    → active id d (insert k new t) + share id d old ≡ active id d t + share id d new
unfolding active lookup insert
active-insert id d k old new [] h = ground arith
active-insert id d k old new ((j, r) ∷ t) h = ground (arith, active-insert id d k old new t)

pub active-insert_new :
    (id : ℕ) (d : Dimension) (k : ℕ) (new : ReservationRow) (t : Table ReservationRow)
    → lookup k t ≡ none
    → active id d (insert k new t) ≡ active id d t + share id d new
unfolding active lookup insert
active-insert_new id d k new [] h = ground arith
active-insert_new id d k new ((j, r) ∷ t) h = ground (arith, active-insert_new id d k new t)

active_others_absent :
    (key id : ℕ) (d : Dimension) (t : Table ReservationRow)
    → lookup key t ≡ none
    → active_others key id d t ≡ active id d t
unfolding active active_others lookup
active_others_absent key id d [] h = refl
active_others_absent key id d ((k, r) ∷ t) h = ground (arith, active_others_absent key id d t)

pub active_others-add :
    (key id : ℕ) (d : Dimension) (row : ReservationRow) (t : Table ReservationRow)
    → HasUniqueKeys t
    → lookup key t ≡ some row
    → active_others key id d t + share id d row ≡ active id d t
unfolding active active_others lookup
active_others-add key id d row [] u h = ground arith
active_others-add key id d row ((k, r) ∷ t) u h =
    ground (arith, active_others-add key id d row t u.1, active_others_absent key id d t)

pub active-update_where :
    (test : ReservationRow → Bool) (f : ReservationRow → ReservationRow)
    → ((id : ℕ) (d : Dimension) (r : ReservationRow) → share id d (f r) ≤ share id d r)
    → (id : ℕ) (d : Dimension) (t : Table ReservationRow)
    → active id d (update_where test f t) ≤ active id d t
unfolding active update_where
active-update_where test f less id d [] = omega arith
active-update_where test f less id d ((k, r) ∷ t) =
    ground (arith, active-update_where test f less id d t, less id d r)
