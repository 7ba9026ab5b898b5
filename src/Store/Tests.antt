-- ===== src/Store/Tests.antt =====
-- `==` and `in` on the enumerated values of the rows.
use http_harness.Base.{Bool, true, false, Option, none, some, ◌==◌}
use http_harness.Store.Rows
use http_harness.Store.Rows.{CapabilityId, DownstreamKey, EffectSemantics, Resolution, Route}

abbrev pub is_replayable : CapabilityId → Bool
is_replayable Rows.artifact_create = true
is_replayable Rows.workspace_file_write = true
is_replayable (CapabilityId.named _) = false

abbrev pub same_capability : CapabilityId → CapabilityId → Bool
same_capability Rows.artifact_create Rows.artifact_create = true
same_capability Rows.workspace_file_write Rows.workspace_file_write = true
same_capability (CapabilityId.named a) (CapabilityId.named b) = a == b
same_capability _ _ = false

abbrev same_downstream : DownstreamKey → DownstreamKey → Bool
same_downstream (DownstreamKey.hnh a) (DownstreamKey.hnh b) = a == b
same_downstream (DownstreamKey.action a) (DownstreamKey.action b) = a == b
same_downstream (DownstreamKey.other a) (DownstreamKey.other b) = a == b
same_downstream _ _ = false

abbrev pub same_key : Option DownstreamKey → Option DownstreamKey → Bool
same_key none none = true
same_key (some a) (some b) = same_downstream a b
same_key none (some _) = false
same_key (some _) none = false

abbrev pub is_local : EffectSemantics → Bool
is_local Rows.local_transactional = true
is_local _ = false

abbrev pub is_remote_idempotent : EffectSemantics → Bool
is_remote_idempotent Rows.remote_idempotent = true
is_remote_idempotent _ = false

abbrev pub same_resolution : Resolution → Resolution → Bool
same_resolution Rows.confirmed_applied Rows.confirmed_applied = true
same_resolution Rows.confirmed_not_applied Rows.confirmed_not_applied = true
same_resolution Rows.confirmed_stopped Rows.confirmed_stopped = true
same_resolution _ _ = false

abbrev pub same_route : Route → Route → Bool
same_route Rows.post_runs Rows.post_runs = true
same_route Rows.post_children Rows.post_children = true
same_route Rows.post_cancellations Rows.post_cancellations = true
same_route _ _ = false
