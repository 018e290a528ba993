-- ===== src/Enrollment/History.antt =====
-- internal/enrollment/enrollment.go and internal/joinkey/joinkey.go: any order of calls. An approval is
-- two steps, and other calls may come between them.
use nebula_control_plane.Prelude.{
  ℕ, String, Bool, true, false, List, [], ◌∷◌, Option, none, some, ◌≡◌, refl, arith, Bool-cases,
  Option-cases, inl, inr, ◌==◌, find, count, count-update_some,
}
use nebula_control_plane.JoinKey.Keys.{
  Keys, Params, UpdateParams, create_key, revoke_key, update_key,
}
use nebula_control_plane.Queue.Types.{Candidate}
use nebula_control_plane.Enrollment.Types.{
  issued, denied, is_pending, Enrollment, Flight, Tables, World, of_id, pending_row, issued_row,
}
use nebula_control_plane.Enrollment.Services.{Config, Carried, Services}
use nebula_control_plane.Enrollment.Admission.{Issued, issuance_of, not_issued}
use nebula_control_plane.Enrollment.Approve.{
  approved, claimed, flown, approve_row, begin_approve, deliver_approved, finish_approve,
  deny_found, deny_pending,
}
use nebula_control_plane.Enrollment.Drain.{process, drain}
use nebula_control_plane.Enrollment.Moves.{
  Closed, HasIssued, flight_at, drop_flight, denied_in, with_keys,
}
use nebula_control_plane.Enrollment.Passes.{Allowed, issue-Allowed, write_result-P}
use nebula_control_plane.Enrollment.Methods.{process-P}
use nebula_control_plane.Enrollment.Draining.{drain-P}

pub data Step : Type 0 where
  drain_batch :
      (Candidate → String) → ℕ → (ℕ → Carried) → Bool → Bool → (ℕ → Bool) → ℕ → ℕ → ℕ → Step
  process_candidate : Carried → Candidate → ℕ → Step
  begin : Bool → Bool → String → String → ℕ → Step
  finish : Bool → ℕ → ℕ → Step
  reject : Bool → Bool → String → String → String → ℕ → Step
  create : Bool → Params → String → ℕ → Step
  revoke : Bool → String → Step
  edit : Bool → String → UpdateParams → ℕ → Step

-- An edit of a key that leaves its limit alone.
abbrev pub keeps_limit : UpdateParams → UpdateParams
keeps_limit p = record p { max_uses = none }

module _ {S : Type 0} (svc : Services S) (cfg : Config) where
  abbrev pub landed : ℕ → World S → World S
  landed i w = record w { tables = record w.tables { flights = drop_flight i w.tables.flights } }

  abbrev pub finished : Bool → World S → ℕ → ℕ → Option Flight → World S
  finished claims w i now none = w
  finished claims w i now (some fl) = landed i (finish_approve svc cfg claims w fl now).0

  abbrev pub rekeyed : World S → Keys → World S
  rekeyed w keys = record w { tables = with_keys w.tables keys }

  unfoldable pub step : World S → Step → World S
  step w (drain_batch mac max_attempts f reclaims reads writes batch lease now) =
      drain svc cfg mac max_attempts f reclaims reads writes w batch lease now
  step w (process_candidate f c now) = (process svc cfg f w c now).0
  step w (begin reads reads_key id approver now) =
      (begin_approve svc cfg reads reads_key w id approver now).0
  step w (finish claims i now) = finished claims w i now (flight_at i w.tables.flights)
  step w (reject reads writes id approver reason now) =
      (deny_pending svc cfg reads writes w id approver reason now).0
  step w (create writes p hash now) = rekeyed w (create_key writes w.tables.keys p hash now).0
  step w (revoke writes name) = rekeyed w (revoke_key writes w.tables.keys name).0
  step w (edit answers name p now) =
      rekeyed w (update_key answers w.tables.keys name (keeps_limit p) now).0

  unfoldable pub run : World S → List Step → World S
  run w [] = w
  run w (s ∷ rest) = run (step w s) rest

module _ {κ} {S : Type 0} (svc : Services S) (cfg : Config) (P : ℕ → Tables → Type κ)
    (closed : Closed P) where
  flown-P :
      (t : Tables) (id : String) (r : Enrollment) (approver : String) (ephemeral : Bool)
      (i : S × Issued)
      → P 0 t
      → find (of_id id) t.rows ≡ some r
      → Allowed r.groups i
      → P 0 (flown svc cfg t r approver ephemeral i).0.tables
  flown-P t id r approver ephemeral (s, not_issued e) p f a = p
  flown-P t id r approver ephemeral (s, issuance_of i) p f a = closed.fly t id _ p f a

  approve_row-P :
      (reads_key : Bool) (w : World S) (id : String) (r : Enrollment) (approver : String) (now : ℕ)
      → P 0 w.tables
      → find (of_id id) w.tables.rows ≡ some r
      → P 0 (approve_row svc cfg reads_key w r approver now).0.tables
  approve_row-P reads_key w id r approver now p f = elim (Bool-cases (is_pending r.status)) [
    | inr h ↦ rw h p
    | inl h ↦ rw h (
        flown-P w.tables id r approver _ _ p f
          (issue-Allowed svc cfg w.services approver r.device_name r.pubkey r.groups _ _ _ now))
  ]

  begin_approve-P :
      (reads reads_key : Bool) (w : World S) (id approver : String) (now : ℕ)
      → P 0 w.tables
      → P 0 (begin_approve svc cfg reads reads_key w id approver now).0.tables
  unfolding begin_approve
  begin_approve-P false reads_key w id approver now p = p
  begin_approve-P true reads_key w id approver now p =
      elim (Option-cases (find (of_id id) w.tables.rows)) [
        | inl e ↦ rw e p
        | inr (r, e) ↦ rw e (approve_row-P reads_key w id r approver now p e)
      ]

  deliver_approved-P :
      (w : World S) (fl : Flight) (b : Option String) (now : ℕ)
      → P 0 w.tables
      → HasIssued fl.row.enrollment_id w.tables
      → P 0 (deliver_approved svc cfg w fl b now).0.tables
  deliver_approved-P w fl none now p h = p
  deliver_approved-P w fl (some b) now p h =
      write_result-P svc cfg P closed w.tables fl.row.enrollment_id "" b issued "" now p (λ i. h)

  -- A claim that takes a row leaves it issued.
  claimed-HasIssued :
      (t : Tables) (fl : Flight) (now : ℕ)
      → (count (pending_row fl.row.enrollment_id) t.rows == 0) ≡ false
      → HasIssued fl.row.enrollment_id (claimed t fl now)
  claimed-HasIssued t fl now h = ground (
    arith,
    count-update_some (pending_row fl.row.enrollment_id) (issued_row fl.row.enrollment_id)
        (approved fl now) (λ r q. ground arith) t.rows,
  )

  finish_approve-P :
      (claims : Bool) (w : World S) (i : ℕ) (fl : Flight) (now : ℕ)
      → P 0 w.tables
      → flight_at i w.tables.flights ≡ some fl
      → P 0 (finish_approve svc cfg claims w fl now).0.tables
  unfolding finish_approve
  finish_approve-P false w i fl now p e = p
  finish_approve-P true w i fl now p e =
      elim (Bool-cases (count (pending_row fl.row.enrollment_id) w.tables.rows == 0)) [
        | inl n ↦ rw n p
        | inr n ↦ rw n (
            deliver_approved-P (record w { tables = claimed w.tables fl now }) fl _ now
              (closed.claim w.tables i fl now p e) (claimed-HasIssued w.tables fl now n))
      ]

  deny_found-P :
      (writes : Bool) (w : World S) (id approver reason : String) (now : ℕ) (r : Option Enrollment)
      → P 0 w.tables
      → P 0 (deny_found svc cfg writes w id approver reason now r).0.tables
  deny_found-P writes w id approver reason now none p = p
  deny_found-P false w id approver reason now (some r) p = elim (Bool-cases (is_pending r.status)) [
    | inl h ↦ rw h p
    | inr h ↦ rw h p
  ]
  deny_found-P true w id approver reason now (some r) p = elim (Bool-cases (is_pending r.status)) [
    | inr h ↦ rw h p
    | inl h ↦ elim (Bool-cases (count (pending_row id) w.tables.rows == 0)) [
      | inl n ↦ rw (h, n) p
      | inr n ↦
          rw (h, n)
            (write_result-P svc cfg P closed (denied_in w.tables id approver now) id "" "" denied
              reason now (closed.reject w.tables id approver now p) (λ i. cc))
    ]
  ]

  deny_pending-P :
      (reads writes : Bool) (w : World S) (id approver reason : String) (now : ℕ)
      → P 0 w.tables
      → P 0 (deny_pending svc cfg reads writes w id approver reason now).0.tables
  unfolding deny_pending
  deny_pending-P false writes w id approver reason now p = p
  deny_pending-P true writes w id approver reason now p =
      deny_found-P writes w id approver reason now (find (of_id id) w.tables.rows) p

  finished-P :
      (claims : Bool) (w : World S) (i now : ℕ) (fl : Option Flight)
      → flight_at i w.tables.flights ≡ fl
      → P 0 w.tables
      → P 0 (finished svc cfg claims w i now fl).tables
  finished-P claims w i now none e p = p
  finished-P claims w i now (some fl) e p =
      closed.land (finish_approve svc cfg claims w fl now).0.tables i
        (finish_approve-P claims w i fl now p e)

  step-P : (w : World S) (s : Step) → P 0 w.tables → P 0 (step svc cfg w s).tables
  unfolding step
  step-P w (drain_batch mac max_attempts f reclaims reads writes batch lease now) p =
      drain-P svc cfg P closed mac max_attempts f reclaims reads writes w batch lease now p
  step-P w (process_candidate f c now) p = process-P svc cfg P closed f w c now p
  step-P w (begin reads reads_key id approver now) p =
      begin_approve-P reads reads_key w id approver now p
  step-P w (finish claims i now) p = finished-P claims w i now (flight_at i w.tables.flights) refl p
  step-P w (reject reads writes id approver reason now) p =
      deny_pending-P reads writes w id approver reason now p
  step-P w (create writes p hash now) q = closed.create w.tables writes p hash now q
  step-P w (revoke writes name) q = closed.revoke w.tables writes name q
  step-P w (edit answers name p now) q =
      closed.edit w.tables answers name (keeps_limit p) now refl q

  -- What every change keeps holds after any history.
  pub run-P : (w : World S) (ss : List Step) → P 0 w.tables → P 0 (run svc cfg w ss).tables
  unfolding run
  run-P w [] p = p
  run-P w (s ∷ rest) p = run-P (step svc cfg w s) rest (step-P w s p)
