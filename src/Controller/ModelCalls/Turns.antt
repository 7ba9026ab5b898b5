-- ===== src/Controller/ModelCalls/Turns.antt =====
-- Turns of the model, answered, begun anew and begun again (`begin_model_call`, `complete_model_call`,
-- `next_turn_id`).
use http_harness.Base.{
  ℕ, ◌+◌, ◌≡◌, refl, sym, ap, ◌∙◌, ==→eq, ==-refl, arith, true, false, none, some, [], ◌∷◌, Option,
  ltb,
}
use http_harness.Base.Table.{Table, lookup, insert}
use http_harness.Base.Ensures.{
  ok, Ensures, Ensures-ok, Ensures-bind, Ensures-guard, Ensures-when, Ensures-require,
}
use http_harness.Store.Rows
use http_harness.Store.Session.{log_event}
use http_harness.Store.Rows.{Db, RunRow, ModelCallRow, CallStatus, Context}
use http_harness.Store.Lease.{Claim}
use http_harness.Controller.ModelCalls.{
  same_call_status, ModelCallWork, find_call, call_found, begin_model_call, complete_model_call,
  call_moved, last_turn, next_turn_id,
}

some-eq : {a b : ModelCallRow} → some a ≡ some b → a ≡ b
some-eq h = cc

find_call-beyond :
    (run_id turn_id : ℕ) (t : Table ModelCallRow)
    → ltb (last_turn run_id t) turn_id ≡ true
    → find_call run_id turn_id t ≡ none
unfolding find_call last_turn
find_call-beyond run_id turn_id [] h = refl
find_call-beyond run_id turn_id ((k, r) ∷ t) h = ground (arith, find_call-beyond run_id turn_id t)

next_turn-fresh :
    (context : Context) (run_id : ℕ) (db : Db)
    → Ensures (λ turn. find_call run_id turn db.model_calls ≡ none) (next_turn_id context run_id db)
unfolding next_turn_id
next_turn-fresh context run_id db = Ensures-bind _ _ _ λ run _.
    Ensures-ok _ _
      (find_call-beyond run_id (last_turn run_id db.model_calls + 1) db.model_calls (ground arith))

-- The turn that `next_turn_id` gives has no call yet: a call that is begun for it is a new one.
next_turn_id-find_call :
    (context : Context) (run_id turn : ℕ) (db : Db)
    → next_turn_id context run_id db ≡ ok turn
    → find_call run_id turn db.model_calls ≡ none
next_turn_id-find_call context run_id turn db h = (next_turn-fresh context run_id db).at turn h

found-committed :
    (run_id : ℕ) (run : RunRow) (turn_id provider revision call_id attempt_id id : ℕ)
    (call : ModelCallRow) (existing : Option (ℕ × ModelCallRow)) (db : Db)
    → existing ≡ some (id, call)
    → same_call_status call.status CallStatus.started ≡ false
    → Ensures
        (λ (work, db').
          (work ≡ record { call = (id, call); attempt = none; replayed = true }) × (db' ≡ db))
        (call_found run_id run turn_id provider revision call_id attempt_id existing db)
unfolding call_found
found-committed run_id run turn_id provider revision call_id attempt_id id call none db e done =
    absurd (cc)
found-committed run_id run turn_id provider revision call_id attempt_id id call (some (k, c)) db e
      done =
    Ensures-when _ _ _ _ (λ open_call. absurd (ground arith)) (λ _. Ensures-ok _ _ (cc, refl))

committed-kept :
    (context : Context) (run_id turn_id provider revision call_id attempt_id id : ℕ)
    (call : ModelCallRow) (claim : Claim) (db : Db)
    → find_call run_id turn_id db.model_calls ≡ some (id, call)
    → same_call_status call.status CallStatus.started ≡ false
    → Ensures
        (λ (work, db').
          (work ≡ record { call = (id, call); attempt = none; replayed = true }) × (db' ≡ db))
        (begin_model_call context run_id turn_id provider revision call_id attempt_id claim db)
unfolding begin_model_call
committed-kept context run_id turn_id provider revision call_id attempt_id id call claim db found
      done =
    Ensures-bind _ _ _ λ _ _. Ensures-bind _ _ _ λ run _. Ensures-guard _ _ _ _ λ _.
      found-committed run_id run turn_id provider revision call_id attempt_id id call _ db found
        done

-- The call of a turn stays the one that is found when it is rewritten.
find_call-insert :
    (id : ℕ) (call new : ModelCallRow) (t : Table ModelCallRow)
    → find_call call.run_id call.turn_id t ≡ some (id, call)
    → lookup id t ≡ some call
    → new.run_id ≡ call.run_id
    → new.turn_id ≡ call.turn_id
    → find_call call.run_id call.turn_id (insert id new t) ≡ some (id, new)
unfolding find_call lookup insert
find_call-insert id call new [] found at same_run same_turn = absurd (cc)
find_call-insert id call new ((k, r) ∷ t) found at same_run same_turn =
    ground
      (arith, ==→eq k id, ==-refl call.run_id, ==-refl call.turn_id, find_call-insert id call new t)

-- The turn has an answer that is stored.
record IsAnswered (run_id turn_id : ℕ) (out : ℕ × ModelCallRow) (db : Db) : Type 0 where
  found : find_call run_id turn_id db.model_calls ≡ some out
  closed : same_call_status (out.1).status CallStatus.started ≡ false

complete_model_call-IsAnswered :
    (id attempt_id : ℕ) (claim : Claim) (call : ModelCallRow) (db : Db)
    → lookup id db.model_calls ≡ some call
    → find_call call.run_id call.turn_id db.model_calls ≡ some (id, call)
    → Ensures
        (λ (out, db'). IsAnswered call.run_id call.turn_id out db')
        (complete_model_call id attempt_id claim db)
unfolding complete_model_call log_event
complete_model_call-IsAnswered id attempt_id claim call db at found = Ensures-bind _ _ _ λ _ _.
    Ensures-require _ _ _ _ λ row there.
      let same : row ≡ call = some-eq (sym there ∙ at) in
      Ensures-when _ _ _ _
        (λ _. Ensures-require _ _ _ _ λ attempt _. Ensures-guard _ _ _ _ λ _.
          Ensures-require _ _ _ _ λ run _. Ensures-ok _ _ (record {
            found =
                find_call-insert id call (call_moved Rows.response_committed row) db.model_calls
                  found at (ap (λ (r : ModelCallRow). r.run_id) same)
                  (ap (λ (r : ModelCallRow). r.turn_id) same);
            closed = refl;
          }))
        (λ answered. Ensures-ok _ _ (record {
          found = found ∙ ap (λ (r : ModelCallRow). some (id, r)) (sym same);
          closed = answered;
        }))

-- A turn is answered once: after the response to the call that is found for a turn was committed, a worker that begins
-- the turn again, under whatever claim and with whatever provider, is handed that response, without a
-- new attempt and without a write.
pub complete_model_call-begin_model_call :
    (id attempt_id : ℕ) (claim : Claim) (call : ModelCallRow) (out : ℕ × ModelCallRow)
    (context : Context) (provider revision call_id next_id : ℕ) (later : Claim)
    (work : ModelCallWork) (db db' db'' : Db)
    → lookup id db.model_calls ≡ some call
    → find_call call.run_id call.turn_id db.model_calls ≡ some (id, call)
    → complete_model_call id attempt_id claim db ≡ ok (out, db')
    → begin_model_call context call.run_id call.turn_id provider revision call_id next_id later db'
      ≡ ok (work, db'')
    → (work ≡ record { call = out; attempt = none; replayed = true }) × (db'' ≡ db')
complete_model_call-begin_model_call id attempt_id claim call out context provider revision call_id
      next_id later work db db' db'' at found done again =
    let a =
      (complete_model_call-IsAnswered id attempt_id claim call db at found).at (out, db') done in
    (committed-kept context call.run_id call.turn_id provider revision call_id next_id out.0 out.1
        later db' a.found a.closed).at
      (work, db'') again
