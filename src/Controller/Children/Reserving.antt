-- ===== src/Controller/Children/Reserving.antt =====
-- The reservations of an admitted child in the budget of its parent, as steps of the store.
use http_harness.Base.{ℕ, ◌≡◌, refl, arith, true, false, Option, none, some, is_none→eq}
use http_harness.Base.Table.{lookup}
use http_harness.Base.Ensures.{Ensures, Ensures-ok, Ensures-bind, Ensures-guard}
use http_harness.Store.Rows
use http_harness.Store.Rows.{Db, RunRow, BudgetRow, Context, Dimension, IdempotencyRow}
use http_harness.Store.Funding.Sums.{active, active-insert_new, share, same_dimension}
use http_harness.Store.Step.{Step, Step-refl, Step-trans}
use http_harness.Controller.Limits
use http_harness.Controller.Limits.{limit_of}
use http_harness.Controller.Budget.{new_reservation, add_reservation}
use http_harness.Controller.Budget.Steps.{add_reservation-Step}
use http_harness.Controller.Children.{ChildIds, fits, reserve_limit, reserve_limits}

-- What a reservation for the child leaves as it is.
record Spared (parent_id : ℕ) (d : Dimension) (db db' : Db) : Type 0 where
  same_runs : db'.runs ≡ db.runs
  same_budgets : db'.budgets ≡ db.budgets
  same_active :
      (e : Dimension)
      → same_dimension d e ≡ false
      → active parent_id e db'.reservations ≡ active parent_id e db.reservations

reserve_limit-Spared :
    (parent_id child_id : ℕ) (ids : Dimension → ℕ) (d : Dimension) (amount : Option ℕ) (db : Db)
    → Ensures (Spared parent_id d db) (reserve_limit parent_id child_id ids d amount db)
unfolding reserve_limit add_reservation share
reserve_limit-Spared parent_id child_id ids d none db =
    Ensures-ok _ _ (record { same_runs = refl; same_budgets = refl; same_active = λ e ne. refl })
reserve_limit-Spared parent_id child_id ids d (some amount) db =
    let row = new_reservation parent_id (Rows.ReservationKey.child child_id d) d amount in
    Ensures-guard _ _ _ _ λ free. Ensures-ok _ _ (record {
      same_runs = refl;
      same_budgets = refl;
      same_active = λ e ne.
          ground
            (arith, active-insert_new parent_id e (ids d) row db.reservations (is_none→eq free));
    })

reserve_limit-Step :
    (parent_id child_id : ℕ) (ids : Dimension → ℕ) (d : Dimension) (amount : Option ℕ)
    (b : BudgetRow) (db : Db)
    → lookup parent_id db.budgets ≡ some b
    → fits parent_id b db.reservations d amount ≡ true
    → Ensures (Step db) (reserve_limit parent_id child_id ids d amount db)
unfolding reserve_limit
reserve_limit-Step parent_id child_id ids d none b db found fit = Ensures-ok _ _ (Step-refl db)
reserve_limit-Step parent_id child_id ids d (some amount) b db found fit =
    add_reservation-Step (ids d)
      (new_reservation parent_id (Rows.ReservationKey.child child_id d) d amount) b db found fit

-- A limit that fits still fits after a reservation in another dimension.
fits-Spared :
    (parent_id : ℕ) (b : BudgetRow) (d e : Dimension) (amount : Option ℕ) (db db' : Db)
    → Spared parent_id d db db'
    → same_dimension d e ≡ false
    → fits parent_id b db.reservations e amount ≡ true
    → fits parent_id b db'.reservations e amount ≡ true
fits-Spared parent_id b d e none db db' spared ne h = refl
fits-Spared parent_id b d e (some amount) db db' spared ne h = rw (spared.same_active e ne) h

lookup-Spared :
    (parent_id : ℕ) (b : BudgetRow) (d : Dimension) (db db' : Db)
    → Spared parent_id d db db'
    → lookup parent_id db.budgets ≡ some b
    → lookup parent_id db'.budgets ≡ some b
lookup-Spared parent_id b d db db' spared found = rw spared.same_budgets found

-- The four reservations of a request.
module _ (parent_id : ℕ) (ids : ChildIds) (limits : Limits.Limits) (b : BudgetRow) (db : Db)
    (found : lookup parent_id db.budgets ≡ some b)
    (turns_fit : fits parent_id b db.reservations Rows.model_turn
        (limit_of Limits.max_model_turns limits)
      ≡ true)
    (calls_fit : fits parent_id b db.reservations Rows.tool_call
        (limit_of Limits.max_tool_calls limits)
      ≡ true)
    (tokens_fit : fits parent_id b db.reservations Rows.output_tokens
        (limit_of Limits.max_output_tokens limits)
      ≡ true)
    (cost_fits : fits parent_id b db.reservations Rows.cost_microunits
        (limit_of Limits.max_cost_microunits limits)
      ≡ true) where
  pub reserve_limits-Step :
      Ensures (λ db'. Step db db' × (db'.runs ≡ db.runs)) (reserve_limits parent_id ids limits db)
  unfolding reserve_limits
  reserve_limits-Step =
      let spare = reserve_limit-Spared parent_id ids.child_id ids.reservation_ids in
      let step = reserve_limit-Step parent_id ids.child_id ids.reservation_ids in
      Ensures-bind _ _ _ λ turns t. Ensures-bind _ _ _ λ calls c. Ensures-bind _ _ _ λ tokens k.
        record {
          at = λ all a.
              let st = (spare Rows.model_turn _ db).at turns t in
              let sc = (spare Rows.tool_call _ turns).at calls c in
              let sk = (spare Rows.output_tokens _ calls).at tokens k in
              let sa = (spare Rows.cost_microunits _ tokens).at all a in
              let found1 = lookup-Spared parent_id b Rows.model_turn db turns st found in
              let found2 = lookup-Spared parent_id b Rows.tool_call turns calls sc found1 in
              let found3 = lookup-Spared parent_id b Rows.output_tokens calls tokens sk found2 in
              let fit = fits-Spared parent_id b in
              (
                Step-trans db turns all ((step Rows.model_turn _ b db found turns_fit).at turns t) (
                    Step-trans turns calls all
                      ((step Rows.tool_call _ b turns found1
                          (fit Rows.model_turn Rows.tool_call _ db turns st refl calls_fit)).at
                        calls c)
                      (Step-trans calls tokens all
                        ((step Rows.output_tokens _ b calls found2 (
                            fit Rows.tool_call Rows.output_tokens _ turns calls sc refl (
                              fit Rows.model_turn Rows.output_tokens _ db turns st refl
                                tokens_fit))).at
                          tokens k)
                        ((step Rows.cost_microunits _ b tokens found3 (
                            fit Rows.output_tokens Rows.cost_microunits _ calls tokens sk refl (
                              fit Rows.tool_call Rows.cost_microunits _ turns calls sc refl (
                                fit Rows.model_turn Rows.cost_microunits _ db turns st refl
                                  cost_fits)))).at
                          all a))),
                cc,
              );
        }

pub reserve_limits-runs :
    (parent_id : ℕ) (ids : ChildIds) (limits : Limits.Limits) (db : Db)
    → Ensures (λ db'. db'.runs ≡ db.runs) (reserve_limits parent_id ids limits db)
unfolding reserve_limits
reserve_limits-runs parent_id ids limits db =
    let spare = reserve_limit-Spared parent_id ids.child_id ids.reservation_ids in
    Ensures-bind _ _ _ λ turns t. Ensures-bind _ _ _ λ calls c. Ensures-bind _ _ _ λ tokens k.
      record {
        at = λ all a.
            let st = ((spare Rows.model_turn _ db).at turns t).same_runs in
            let sc = ((spare Rows.tool_call _ turns).at calls c).same_runs in
            let sk = ((spare Rows.output_tokens _ calls).at tokens k).same_runs in
            let sa = ((spare Rows.cost_microunits _ tokens).at all a).same_runs in cc;
      }
