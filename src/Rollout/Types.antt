-- ===== src/Rollout/Types.antt =====
-- internal/rollout/rollout.go, the tables: rollouts, rollout_hosts and the engine's read-only view
-- of heartbeats. Times are unix nanoseconds and versions are generations, both natural numbers.
use nebula_control_plane.Prelude.{
  ℕ, String, Bool, true, false, ◌||◌, Option, none, some, List, str_eq, newest, if◌then◌else◌,
}

-- `StateCanary` … `StateAborted`.
pub data State : Type 0 where
  canary widening completed rolled_back aborted : State

-- `HostWaiting` … `HostReverted`.
pub data HostStatus : Type 0 where
  waiting converged failed reverted : HostStatus

-- The fixed lanes that `Evaluate` sweeps.
pub data Lane : Type 0 where
  policy blocklist nebula pilot : Lane

abbrev pub same_lane : Lane → Lane → Bool
same_lane policy policy = true
same_lane blocklist blocklist = true
same_lane nebula nebula = true
same_lane pilot pilot = true
same_lane _ _ = false

-- `state == canary || state == widening`.
abbrev pub is_active : State → Bool
is_active canary = true
is_active widening = true
is_active completed = false
is_active rolled_back = false
is_active aborted = false

-- Why a wave was rolled back; the source renders it as text.
-- A `Cause` names the first host that speaks against the wave, if there is one.
pub data Cause : Type 0 where
  no_cause : Cause
  bad_health : String → String → Cause
  went_silent : String → Cause

pub data Trigger : Type 0 where
  failing_host : Cause → Trigger
  not_validated : Cause → Trigger
  not_converged : ℕ → ℕ → ℕ → ℕ → Trigger

-- The `note` column.
pub data Note : Type 0 where
  no_note all_converged operator_aborted : Note
  auto_rollback : Trigger → Note

pub record Rollout : Type 0 where
  pub id : ℕ
  pub lane : Lane
  pub description : String
  pub target_version : ℕ
  pub prev_version : ℕ
  pub state : State
  pub active_wave : ℕ
  pub wave_size : ℕ
  pub min_healthy : ℕ
  pub observe_window : ℕ
  pub missing_after : ℕ
  pub wave_started_at : ℕ
  pub created_at : ℕ
  pub updated_at : ℕ
  pub note : Note

pub record Host : Type 0 where
  pub id : ℕ
  pub rollout_id : ℕ
  pub overlay_ip : String
  pub wave : ℕ
  pub status : HostStatus
  pub updated_at : ℕ

-- `hb`, a heartbeat row.
pub record Beat : Type 0 where
  pub overlay_ip : String
  pub applied_bundle : ℕ
  pub applied_blocklist : ℕ
  pub applied_nebula : ℕ
  pub applied_pilot : ℕ
  pub health : String
  pub last_seen : ℕ

-- `healthBad`.
unfoldable pub health_bad : String → Bool
health_bad h =
    str_eq h "unhealthy"
    || str_eq h "degraded"
    || str_eq h "error"
    || str_eq h "critical"
    || str_eq h "red"

unfoldable pub applied_for : Beat → Lane → ℕ
applied_for b blocklist = b.applied_blocklist
applied_for b nebula = b.applied_nebula
applied_for b pilot = b.applied_pilot
applied_for b policy = b.applied_bundle

-- The calls of the audit hook.
pub data AuditEvent : Type 0 where
  started : String → ℕ → Lane → ℕ → ℕ → ℕ → ℕ → AuditEvent
  completed_event : ℕ → ℕ → AuditEvent
  advanced : ℕ → ℕ → AuditEvent
  rolled_back_event : ℕ → Trigger → AuditEvent
  aborted_event : String → ℕ → Lane → AuditEvent

-- The store, and the calls of the audit hook so far, newest first.
pub record Db : Type 0 where
  pub rollouts : List Rollout
  pub hosts : List Host
  pub beats : List Beat
  pub next_rollout : ℕ
  pub next_host : ℕ
  pub log : List AuditEvent

-- A read answers with a row, with `ErrRecordNotFound`, or with another error of the database.
pub data Read {ℓ} (A : Type ℓ) : Type ℓ where
  found : A → Read A
  absent broken : Read A

-- What a read answers when the database does (`up`).
abbrev pub read {ℓ} : {A : Type ℓ} → Bool → Option A → Read A
read false o = broken
read true none = absent
read true (some a) = found a

-- The rollout with the highest id on the lane.
unfoldable pub latest : Db → Lane → Option Rollout
latest db lane = newest (λ r. r.id) (λ r. same_lane r.lane lane) db.rollouts

-- `current`.
unfoldable pub current : Bool → Db → Lane → Read Rollout
current up db lane = read up (latest db lane)

abbrev pub if_active : Option Rollout → Option Rollout
if_active none = none
if_active (some r) = if is_active r.state then some r else none

-- `lockedActiveCurrent`, inside a transaction.
unfoldable pub locked_active_current : Db → Lane → Option Rollout
locked_active_current db lane = if_active (latest db lane)

pub data Error : Type 0 where
  active_exists no_hosts not_active db_error : Error

pub data Result {ℓ} (A : Type ℓ) : Type ℓ where
  ok : A → Result A
  err : Error → Result A
