-- ===== src/Queue/Types.antt =====
-- internal/queue/queue.go and durable.go: the tables queue_items and queue_results. Byte strings are
-- texts and times natural numbers; rows stand in the order of their keys.
use nebula_control_plane.Prelude.{ℕ, String, Bool, true, false, List, ◌==◌, str_eq, ◌||◌, ◌&&◌, leb}

-- `Candidate`.
pub record Candidate : Type 0 where
  pub enrollment_id : String
  pub pubkey_hash : String
  pub request_jws : String
  pub retrieval_secret_hash : String
  pub received_at : ℕ

-- `statusReady` … `statusDead`.
pub data Status : Type 0 where
  ready inflight dead : Status

pub record Item : Type 0 where
  pub id : ℕ
  pub candidate : Candidate
  pub mac : String
  pub status : Status
  pub attempts : ℕ
  pub lease_until : ℕ

-- `result`. Its status is a text: "pending", "issued" or "denied".
pub record Outcome : Type 0 where
  pub id : ℕ
  pub enrollment_id : String
  pub status : String
  pub bundle : String
  pub secret_hash : String
  pub reason : String
  pub expires_at : ℕ
  pub read_count : ℕ

pub data Error : Type 0 where
  duplicate backpressure result_not_found result_gone item_not_found db_error : Error

pub data Result {ℓ} (A : Type ℓ) : Type ℓ where
  ok : A → Result A
  err : Error → Result A

-- `Leased`.
pub record Leased : Type 0 where
  pub id : ℕ
  pub candidate : Candidate
  pub attempts : ℕ

-- `PollResult`.
pub record PollResult : Type 0 where
  pub status : String
  pub bundle : String
  pub reason : String

pub record Db : Type 0 where
  pub items : List Item
  pub results : List Outcome
  pub next_item : ℕ
  pub next_result : ℕ

abbrev pub is_ready : Status → Bool
is_ready ready = true
is_ready inflight = false
is_ready dead = false

abbrev pub is_inflight : Status → Bool
is_inflight ready = false
is_inflight inflight = true
is_inflight dead = false

-- The `WHERE` clauses.
abbrev pub live : Item → Bool
live it = is_ready it.status || is_inflight it.status

abbrev pub lapsed : ℕ → Item → Bool
lapsed now it = is_inflight it.status && leb it.lease_until now

abbrev pub ready_item : Item → Bool
ready_item it = is_ready it.status

abbrev pub has_id : ℕ → Item → Bool
has_id i it = it.id == i

abbrev pub claimable : ℕ → Item → Bool
claimable i it = (it.id == i) && is_ready it.status

abbrev pub enrolls : String → Item → Bool
enrolls e it = str_eq it.candidate.enrollment_id e

abbrev pub of_enrollment : String → Outcome → Bool
of_enrollment e r = str_eq r.enrollment_id e

abbrev pub unread : ℕ → Outcome → Bool
unread i r = (r.id == i) && str_eq r.status "issued" && r.read_count == 0
