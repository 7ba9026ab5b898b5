-- ===== src/Store/Step/Moves.antt =====
-- How one action and one job may change: the diagram of `ActionStatus` that the controller's
-- transactions follow, what an action stays bound to, and the epochs of a job.
use http_harness.Base.{
  ℕ, zero, suc, ◌-◌, subst, ◌+◌, ◌≤◌, ◌≡◌, refl, Bool, true, false, Option, arith,
}
use http_harness.Domain.States.{ActionStatus, is_open}
use http_harness.Store.Rows
use http_harness.Store.Rows.{ActionRow, ActionResult, DownstreamKey, JobRow, JobStatus}

-- The edges: a cancellation receipt or an answer of the user may come at any status, as
-- `record_action_cancel_receipt` and `respond_to_input` test none.
unfoldable pub action_transitions : ActionStatus → ActionStatus → Bool
action_transitions ActionStatus.ready ActionStatus.running = true
action_transitions ActionStatus.retry_wait ActionStatus.running = true
action_transitions ActionStatus.running ActionStatus.succeeded = true
action_transitions ActionStatus.running ActionStatus.failed = true
action_transitions ActionStatus.running ActionStatus.outcome_unknown = true
action_transitions ActionStatus.running ActionStatus.retry_wait = true
action_transitions ActionStatus.outcome_unknown ActionStatus.succeeded = true
action_transitions ActionStatus.waiting_external ActionStatus.succeeded = true
action_transitions ActionStatus.ready ActionStatus.waiting_input = true
action_transitions _ ActionStatus.ready = true
action_transitions _ ActionStatus.cancelled = true
action_transitions _ ActionStatus.waiting_external = true
action_transitions _ _ = false

-- At most `n` edges, beside the cancellation of an action that was never dispatched, for which the code
-- counts no version.
pub data Moves (s : ActionStatus) : ℕ → ActionStatus → Type 0 where
  stay : {n : ℕ} → Moves s n s
  move :
      {n : ℕ} {t u : ActionStatus} → Moves s n t → action_transitions t u ≡ true → Moves s (suc n) u
  drop :
      {n : ℕ} {t : ActionStatus} → Moves s n t → is_open t ≡ true → Moves s n ActionStatus.cancelled

Moves-more : {s t : ActionStatus} {m : ℕ} (n : ℕ) → Moves s m t → m ≤ n → Moves s n t
Moves-more n stay le = stay
Moves-more n (drop f h) le = drop (Moves-more n f le) h
Moves-more zero (move f h) le = absurd (omega (arith, le))
Moves-more (suc n) (move f h) le = move (Moves-more n f (omega (arith, le))) h

Moves-trans : {s t u : ActionStatus} {m n : ℕ} → Moves s m t → Moves t n u → Moves s (m + n) u
Moves-trans {m = m} {n = n} f stay = Moves-more (m + n) f (omega arith)
Moves-trans f (drop g h) = drop (Moves-trans f g) h
Moves-trans {s = s} {m = m} f (move {n = n} {u = u} g h) =
    subst (λ k. Moves s k u) (omega arith) (move (Moves-trans f g) h)

-- The slot, the request and the policy of an action never change; its version never falls, and pays
-- for each of its moves.
pub record Bound (old new : ActionRow) : Type 0 where
  pub moves : Moves old.status (new.version - old.version) new.status
  pub same_run : new.run_id ≡ old.run_id
  pub same_tenant : new.tenant_id ≡ old.tenant_id
  pub same_subject : new.subject_id ≡ old.subject_id
  pub same_turn : new.turn_id ≡ old.turn_id
  pub same_index : new.call_index ≡ old.call_index
  pub same_request : new.request_hash ≡ old.request_hash
  pub same_capability : new.capability_id ≡ old.capability_id
  pub same_revision : new.capability_revision ≡ old.capability_revision
  pub same_semantics : new.effect_semantics ≡ old.effect_semantics
  pub same_policy : new.policy_revision ≡ old.policy_revision
  pub same_scopes : new.scope_fingerprint ≡ old.scope_fingerprint
  pub version_grows : old.version ≤ new.version

pub Bound-refl : (a : ActionRow) → Bound a a
Bound-refl a = record {
  moves = Moves.stay;
  same_run = refl;
  same_tenant = refl;
  same_subject = refl;
  same_turn = refl;
  same_index = refl;
  same_request = refl;
  same_capability = refl;
  same_revision = refl;
  same_semantics = refl;
  same_policy = refl;
  same_scopes = refl;
  version_grows = omega arith;
}

pub Bound-trans : (a b c : ActionRow) → Bound a b → Bound b c → Bound a c
Bound-trans a b c f g = record {
  moves =
      subst (λ n. Moves a.status n c.status) (omega (arith, f.version_grows, g.version_grows))
        (Moves-trans f.moves g.moves);
  same_run = cc;
  same_tenant = cc;
  same_subject = cc;
  same_turn = cc;
  same_index = cc;
  same_request = cc;
  same_capability = cc;
  same_revision = cc;
  same_semantics = cc;
  same_policy = cc;
  same_scopes = cc;
  version_grows = omega arith;
}

abbrev pub is_done : JobStatus → Bool
is_done Rows.done = true
is_done _ = false

-- A job keeps what it is for; its epoch never falls, and once done it stays done.
pub record Leased (old new : JobRow) : Type 0 where
  pub same_kind : new.kind ≡ old.kind
  pub same_run : new.run_id ≡ old.run_id
  pub same_action : new.action_id ≡ old.action_id
  pub same_tenant : new.tenant_id ≡ old.tenant_id
  pub epoch_grows : old.lease_epoch ≤ new.lease_epoch
  pub done_stays : is_done old.status ≡ true → is_done new.status ≡ true

pub Leased-refl : (j : JobRow) → Leased j j
Leased-refl j = record {
  same_kind = refl;
  same_run = refl;
  same_action = refl;
  same_tenant = refl;
  epoch_grows = omega arith;
  done_stays = λ h. h;
}

pub Leased-trans : (a b c : JobRow) → Leased a b → Leased b c → Leased a c
Leased-trans a b c f g = record {
  same_kind = cc;
  same_run = cc;
  same_action = cc;
  same_tenant = cc;
  epoch_grows = omega arith;
  done_stays = λ h. g.done_stays (f.done_stays h);
}

-- An action rewritten for the same slot and request, its version up by one.
abbrev pub revised :
    ActionStatus → Option DownstreamKey → Option ℕ → Option ActionResult → ℕ → ActionRow → ActionRow
revised status key handle result epoch a = record a {
  status = status;
  downstream_idempotency_key = key;
  upstream_handle = handle;
  result = result;
  version = a.version + 1;
  lease_epoch = epoch;
}

-- An action that waits for the answer to a request, or has it.
pub asked-Bound :
    (a : ActionRow) (status : ActionStatus) (request : Option ℕ)
    → Moves a.status 1 status
    → Bound a (record a { status = status; approval_request_id = request; version = a.version + 1 })
asked-Bound a status request moves = record {
  moves = Moves-more (a.version + 1 - a.version) moves (omega arith);
  same_run = refl;
  same_tenant = refl;
  same_subject = refl;
  same_turn = refl;
  same_index = refl;
  same_request = refl;
  same_capability = refl;
  same_revision = refl;
  same_semantics = refl;
  same_policy = refl;
  same_scopes = refl;
  version_grows = omega arith;
}

pub revised-Bound :
    (a : ActionRow) (status : ActionStatus) (key : Option DownstreamKey) (handle : Option ℕ)
    (result : Option ActionResult) (epoch : ℕ)
    → Moves a.status 1 status
    → Bound a (revised status key handle result epoch a)
revised-Bound a status key handle result epoch moves = record {
  moves = Moves-more (a.version + 1 - a.version) moves (omega arith);
  same_run = refl;
  same_tenant = refl;
  same_subject = refl;
  same_turn = refl;
  same_index = refl;
  same_request = refl;
  same_capability = refl;
  same_revision = refl;
  same_semantics = refl;
  same_policy = refl;
  same_scopes = refl;
  version_grows = omega arith;
}

pub Moves-step : (old new : ActionStatus) → action_transitions old new ≡ true → Moves old 1 new
Moves-step old new h = Moves.move Moves.stay h
