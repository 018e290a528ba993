-- ===== src/Enrollment/Moves.antt =====
-- internal/enrollment/enrollment.go and internal/joinkey/joinkey.go: the ways in which a call may
-- change the tables, each with what the code has checked when it does so.
use nebula_control_plane.Prelude.{
  ℕ, zero, suc, String, Bool, true, false, List, [], ◌∷◌, Option, none, some, ◌≡◌, ◌==◌, find,
  count, update,
}
use nebula_control_plane.Policy.Check.{grants_reserved_group}
use nebula_control_plane.JoinKey.Keys.{
  JoinKey, Keys, Params, UpdateParams, presented, consumable, used, create_key, revoke_key,
  update_key,
}
use nebula_control_plane.Queue.Types.{Db}
use nebula_control_plane.Queue.Results.{put_result}
use nebula_control_plane.Enrollment.Types.{
  EnrollmentStatus, status_text, is_issued, Enrollment, Flight, Tables, of_id, pending_row,
  issued_row,
}
use nebula_control_plane.Enrollment.Admission.{inserted}
use nebula_control_plane.Enrollment.Approve.{claimed, rejected_row}

abbrev pub flight_at : ℕ → List Flight → Option Flight
flight_at i [] = none
flight_at zero (fl ∷ fls) = some fl
flight_at (suc i) (fl ∷ fls) = flight_at i fls

abbrev pub drop_flight : ℕ → List Flight → List Flight
drop_flight i [] = []
drop_flight zero (fl ∷ fls) = fls
drop_flight (suc i) (fl ∷ fls) = fl ∷ drop_flight i fls

abbrev pub denied_in : Tables → String → String → ℕ → Tables
denied_in t id approver now = record t {
  rows = update (pending_row id) (rejected_row approver now) t.rows;
}

abbrev pub counted_use : Keys → JoinKey → Keys
counted_use keys k = record keys { rows = update (consumable k) used keys.rows }

-- The change of the keys, and of the queue.
abbrev pub with_keys : Tables → Keys → Tables
with_keys t keys = record t { keys = keys }

abbrev pub with_queue : Tables → Db → Tables
with_queue t db = record t { queue = db }

-- Some row of the enrollment is issued.
abbrev pub HasIssued : String → Tables → Type 0
HasIssued id t = (count (issued_row id) t.rows == 0) ≡ false

-- A predicate on the tables that every change keeps. Its number is the key whose use was counted
-- for a row that is still to be recorded, or zero.
pub record Closed {κ} (P : ℕ → Tables → Type κ) : Type κ where
  pub forget : (j : ℕ) (t : Tables) → P j t → P 0 t
  pub insert :
      (j : ℕ) (t : Tables) (r : Enrollment)
      → P j t
      → r.join_key_id ≡ j
      → (count (of_id r.enrollment_id) t.rows == 0) ≡ true
      → (is_issued r.status ≡ true → grants_reserved_group r.groups ≡ false)
      → P 0 (inserted t r)
  pub count_use :
      (t : Tables) (hash : String) (k : JoinKey)
      → P 0 t
      → find (presented hash) t.keys.rows ≡ some k
      → (count (consumable k) t.keys.rows == 0) ≡ false
      → P k.id (with_keys t (counted_use t.keys k))
  pub write :
      (t : Tables) (id secret bundle : String) (status : EnrollmentStatus) (reason : String)
      (expires_at : ℕ)
      → P 0 t
      → (is_issued status ≡ true → HasIssued id t)
      → P 0 (
          with_queue t (put_result t.queue id (status_text status) secret bundle reason expires_at))
  pub requeue :
      (t : Tables) (db : Db) → P 0 t → db.results ≡ t.queue.results → P 0 (with_queue t db)
  pub fly :
      (t : Tables) (id : String) (fl : Flight)
      → P 0 t
      → find (of_id id) t.rows ≡ some fl.row
      → grants_reserved_group fl.row.groups ≡ false
      → P 0 (record t { flights = fl ∷ t.flights })
  pub land : (t : Tables) (i : ℕ) → P 0 t → P 0 (record t { flights = drop_flight i t.flights })
  pub claim :
      (t : Tables) (i : ℕ) (fl : Flight) (now : ℕ)
      → P 0 t
      → flight_at i t.flights ≡ some fl
      → P 0 (claimed t fl now)
  pub reject :
      (t : Tables) (id approver : String) (now : ℕ) → P 0 t → P 0 (denied_in t id approver now)
  pub create :
      (t : Tables) (writes : Bool) (p : Params) (hash : String) (now : ℕ)
      → P 0 t
      → P 0 (with_keys t (create_key writes t.keys p hash now).0)
  pub revoke :
      (t : Tables) (writes : Bool) (name : String)
      → P 0 t
      → P 0 (with_keys t (revoke_key writes t.keys name).0)
  pub edit :
      (t : Tables) (answers : Bool) (name : String) (p : UpdateParams) (now : ℕ)
      → p.max_uses ≡ none
      → P 0 t
      → P 0 (with_keys t (update_key answers t.keys name p now).0)
