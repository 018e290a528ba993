-- ===== src/DualControl/Types.antt =====
-- internal/dualcontrol/dualcontrol.go, the tables approvals and approval_signoffs. Times are unix
-- nanoseconds; a payload and its SHA-256 digest are texts.
use nebula_control_plane.Prelude.{ℕ, String, Bool, true, false, ◌&&◌, List, ◌==◌, str_eq}

-- `StatePending` … `StateFailed`.
pub data State : Type 0 where
  pending committing committed denied failed : State

-- `decisionApprove`, `decisionDeny`.
pub data Vote : Type 0 where
  approves denies : Vote

pub data Error : Type 0 where
  not_found not_pending self_approval duplicate_actor no_proposer no_actor db_error : Error
  commit_failed : String → Error

pub data Result {ℓ} (A : Type ℓ) : Type ℓ where
  ok : A → Result A
  err : Error → Result A

pub record Change : Type 0 where
  pub id : ℕ
  pub kind : String
  pub target : String
  pub payload : String
  pub payload_hash : String
  pub state : State
  pub quorum : ℕ
  pub proposer : String
  pub created_at : ℕ
  pub decided_at : ℕ

pub record Signoff : Type 0 where
  pub id : ℕ
  pub change_id : ℕ
  pub actor : String
  pub decision : Vote
  pub created_at : ℕ

-- The calls of the audit hook: the actor and the change.
pub data AuditEvent : Type 0 where
  proposed approve_blocked approve_recorded commit_event commit_failed_event deny_event :
      String → ℕ → AuditEvent

-- The store, the calls of the audit hook and the changes whose commit section has run, newest first.
pub record Db : Type 0 where
  pub changes : List Change
  pub signoffs : List Signoff
  pub next_change : ℕ
  pub next_signoff : ℕ
  pub log : List AuditEvent
  pub commits : List ℕ

abbrev pub is_pending : State → Bool
is_pending pending = true
is_pending committing = false
is_pending committed = false
is_pending denied = false
is_pending failed = false

abbrev pub is_approve : Vote → Bool
is_approve approves = true
is_approve denies = false

-- The `WHERE` clauses.
abbrev pub has_id : ℕ → Change → Bool
has_id i c = c.id == i

abbrev pub open_with_id : ℕ → Change → Bool
open_with_id i c = (c.id == i) && is_pending c.state

abbrev pub voted : ℕ → String → Signoff → Bool
voted i actor s = (s.change_id == i) && str_eq s.actor actor

abbrev pub approval_of : ℕ → Signoff → Bool
approval_of i s = (s.change_id == i) && is_approve s.decision
