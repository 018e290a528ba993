-- ===== src/Rollout/Queries.antt =====
-- internal/rollout/rollout.go: what the engine tells one host. `commandForLane`, `VersionFor`,
-- `genForLane`, `currentCompletedGen`, `BlocklistVersion`, `FloorCatchupGen`, `markReverted`.
-- A query takes a flag for each of its reads: whether the database answers it.
use nebula_control_plane.Prelude.{
  ℕ, String, Bool, true, false, ◌&&◌, not, List, [], ◌∷◌, str_eq, find, keep, newest, update, max,
  leb, ◌==◌, if◌then◌else◌, Option, none, some,
}
use nebula_control_plane.Rollout.Types.{
  Rollout, Host, Db, Lane, policy, blocklist, nebula, pilot, same_lane, State, canary, widening,
  completed, rolled_back, aborted, is_active, HostStatus, waiting, converged, failed, reverted,
  Read, found, absent, broken, read, current,
}

-- `wire.Command` of type `CmdApplyBundle`.
pub data Command : Type 0 where
  apply_bundle : ℕ → Command

unfoldable pub member : Db → ℕ → String → Option Host
member db rid ip = find (λ h. (h.rollout_id == rid) && str_eq h.overlay_ip ip) db.hosts

-- `markReverted`; a failing write is ignored (`writes`).
unfoldable pub mark_reverted : Bool → Db → ℕ → ℕ → Db
mark_reverted false db hid now = db
mark_reverted true db hid now = record db {
  hosts =
      update (λ h. h.id == hid) (λ h. record h { status = reverted; updated_at = now }) db.hosts;
}

abbrev is_reverted : HostStatus → Bool
is_reverted reverted = true
is_reverted waiting = false
is_reverted converged = false
is_reverted failed = false

abbrev is_blocklist : Lane → Bool
is_blocklist blocklist = true
is_blocklist policy = false
is_blocklist nebula = false
is_blocklist pilot = false

abbrev drive : ℕ → ℕ → Option Command
drive reported target = if reported == target then none else some (apply_bundle target)

-- The `switch` of `commandForLane` over the rollout's state, for a member of the rollout.
unfoldable pub command_of : Lane → State → Rollout → Host → ℕ → Option Command
command_of lane canary r h v = if leb h.wave r.active_wave then drive v r.target_version else none
command_of lane widening r h v = if leb h.wave r.active_wave then drive v r.target_version else none
command_of lane completed r h v = drive v r.target_version
command_of lane rolled_back r h v =
    if is_blocklist lane
    then none
    else if leb h.wave r.active_wave
    then drive v r.prev_version
    else none
command_of lane aborted r h v = none

-- Whether `commandForLane` records the host as reverted.
unfoldable pub records_revert : Lane → State → Rollout → Host → ℕ → Bool
records_revert lane rolled_back r h v =
    not (is_blocklist lane)
    && (leb h.wave r.active_wave && ((v == r.prev_version) && not (is_reverted h.status)))
records_revert lane canary r h v = false
records_revert lane widening r h v = false
records_revert lane completed r h v = false
records_revert lane aborted r h v = false

abbrev pub command_for_member : Bool → Db → Lane → Rollout → ℕ → ℕ → Read Host → Db × Option Command
command_for_member writes db lane r v now absent = (db, none)
command_for_member writes db lane r v now broken = (db, none)
command_for_member writes db lane r v now (found h) = (
  (if records_revert lane r.state r h v then mark_reverted writes db h.id now else db),
  command_of lane r.state r h v,
)

abbrev pub command_in :
    Bool → Bool → Db → Lane → String → ℕ → ℕ → Read Rollout → Db × Option Command
command_in up writes db lane ip v now absent = (db, none)
command_in up writes db lane ip v now broken = (db, none)
command_in up writes db lane ip v now (found r) =
    command_for_member writes db lane r v now (read up (member db r.id ip))

-- `commandForLane`; `CommandFor` and its three sisters are this at one lane.
unfoldable pub command_for_lane :
    Bool → Bool → Bool → Db → Lane → String → ℕ → ℕ → Db × Option Command
command_for_lane up host_up writes db lane ip v now =
    command_in host_up writes db lane ip v now (current up db lane)

abbrev version_of : Rollout → Read Host → ℕ
version_of r (found h) =
    if is_active r.state && leb h.wave r.active_wave then r.target_version else r.prev_version
version_of r absent = r.prev_version
version_of r broken = r.prev_version

abbrev version_in : Bool → Db → String → Read Rollout → Option ℕ
version_in up db ip absent = none
version_in up db ip broken = none
version_in up db ip (found r) = some (version_of r (read up (member db r.id ip)))

-- `VersionFor`; `none` is "not governed".
unfoldable pub version_for : Bool → Bool → Db → String → Option ℕ
version_for up host_up db ip = version_in host_up db ip (current up db policy)

abbrev gen_active : Rollout → Read Host → Option ℕ
gen_active r absent = some r.prev_version
gen_active r broken = none
gen_active r (found h) =
    if leb h.wave r.active_wave then some r.target_version else some r.prev_version

abbrev gen_of : State → Rollout → Read Host → Option ℕ
gen_of completed r h = some r.target_version
gen_of canary r h = gen_active r h
gen_of widening r h = gen_active r h
gen_of rolled_back r h = some r.prev_version
gen_of aborted r h = some r.prev_version

abbrev gen_in : Bool → Db → String → Read Rollout → Option ℕ
gen_in up db ip absent = none
gen_in up db ip broken = none
gen_in up db ip (found r) = gen_of r.state r (read up (member db r.id ip))

-- `genForLane`, for `NebulaGenFor` and `PilotGenFor`.
unfoldable pub gen_for_lane : Bool → Bool → Db → Lane → String → Option ℕ
gen_for_lane up host_up db lane ip = gen_in host_up db ip (current up db lane)

abbrev pub is_completed : State → Bool
is_completed completed = true
is_completed canary = false
is_completed widening = false
is_completed rolled_back = false
is_completed aborted = false

abbrev target_or_zero : Option Rollout → ℕ
target_or_zero none = 0
target_or_zero (some r) = r.target_version

unfoldable pub latest_completed : Db → Lane → Option Rollout
latest_completed db lane =
    newest (λ r. r.id) (λ r. same_lane r.lane lane && is_completed r.state) db.rollouts

-- `currentCompletedGen`.
unfoldable pub current_completed_gen : Bool → Db → Lane → ℕ
current_completed_gen false db lane = 0
current_completed_gen true db lane = target_or_zero (latest_completed db lane)

abbrev max_target : List Rollout → ℕ
max_target [] = 0
max_target (r ∷ rs) = max r.target_version (max_target rs)

-- `BlocklistVersion`.
unfoldable pub blocklist_version : Bool → Db → ℕ
blocklist_version false db = 0
blocklist_version true db = max_target (keep (λ r. same_lane r.lane blocklist) db.rollouts)

abbrev catchup : ℕ → ℕ → Option ℕ
catchup floor reported =
    if floor == 0 then none else if leb floor reported then none else some floor

abbrev catchup_in : Bool → Db → Lane → ℕ → Read Rollout → Option ℕ
catchup_in up db lane v broken = none
catchup_in up db lane v absent = catchup (current_completed_gen up db lane) v
catchup_in up db lane v (found r) =
    if is_active r.state then none else catchup (current_completed_gen up db lane) v

-- `FloorCatchupGen`.
unfoldable pub floor_catchup_gen : Bool → Bool → Db → Lane → ℕ → Option ℕ
floor_catchup_gen up host_up db lane v = catchup_in host_up db lane v (current up db lane)
