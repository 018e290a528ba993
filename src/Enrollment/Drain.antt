-- ===== src/Enrollment/Drain.antt =====
-- internal/enrollment/enrollment.go: `Process`, `terminal`, `Drain` and `BuildDeliverable`.
use nebula_control_plane.Prelude.{
  ℕ, String, Bool, true, false, not, List, [], ◌∷◌, Option, none, some, if◌then◌else◌, str_eq, find,
  keep,
}
use nebula_control_plane.JoinKey.Keys.{
  KeyError, key_not_found, key_expired, key_exhausted, key_db_error,
}
use nebula_control_plane.Queue.Types.{Candidate, Leased, Db, Result, ok, err}
use nebula_control_plane.Queue.Messages.{claim, ack, nack}
use nebula_control_plane.Enrollment.Types.{
  EnrollmentStatus, pending, issued, denied, is_pending, Enrollment, Request, EnrollError,
  bad_request, bad_signature, bad_nonce, replayed, bad_method, not_pending, over_quota,
  reserved_group, sso_not_configured, bad_assertion, bad_binding, sso_not_allowed, bad_key,
  aws_refused, pool_exhausted, replay_store_failed, allocate_failed, sign_failed, bundle_failed,
  db_failed, Processed, done, failed, Tables, World, of_id,
}
use nebula_control_plane.Enrollment.Services.{Config, Carried, Services}
use nebula_control_plane.Enrollment.Verify.{Verified, verified, rejected, verify}
use nebula_control_plane.Enrollment.Admit.{inputs}
use nebula_control_plane.Enrollment.Process.{summary_of, process_token, process_attested}
use nebula_control_plane.Enrollment.Sso.{process_sso}

-- `terminal`.
abbrev pub key_terminal : KeyError → Bool
key_terminal key_not_found = true
key_terminal key_expired = true
key_terminal key_exhausted = true
key_terminal key_db_error = false

abbrev pub terminal : EnrollError → Bool
terminal bad_request = true
terminal bad_signature = true
terminal bad_nonce = true
terminal replayed = true
terminal bad_method = true
terminal not_pending = false
terminal over_quota = true
terminal reserved_group = true
terminal sso_not_configured = true
terminal bad_assertion = true
terminal bad_binding = true
terminal sso_not_allowed = true
terminal (bad_key e) = key_terminal e
terminal (aws_refused e) = true
terminal pool_exhausted = false
terminal replay_store_failed = false
terminal allocate_failed = false
terminal sign_failed = false
terminal bundle_failed = false
terminal db_failed = false

-- The `WHERE` of `Pending`.
unfoldable pub pending_enrollments : List Enrollment → List Enrollment
pending_enrollments rows = keep (λ r. is_pending r.status) rows

abbrev pub settle_item : ℕ → ℕ → Db → Processed → Db
settle_item max_attempts i db (done s) = ack i db
settle_item max_attempts i db (failed e) =
    if terminal e then ack i db else (nack max_attempts i db).0

-- `existing`: a query that fails finds nothing.
abbrev pub existing : Bool → Tables → String → Option Enrollment
existing reads t id = if reads then find (of_id id) t.rows else none

module _ {S : Type 0} (svc : Services S) (cfg : Config) where
  abbrev pub dispatched : Carried → World S → Candidate → Request → String → ℕ → World S × Processed
  dispatched f w c req bytes now =
      if str_eq req.method "aws-sigv4"
      then process_attested svc cfg f w c req bytes now
      else if str_eq req.method "oidc"
      then process_sso svc cfg f w c req bytes now
      else if not (str_eq req.method "token")
      then (w, failed bad_method)
      else process_token svc cfg f w c req bytes now

  abbrev pub checked : Carried → Tables → Candidate → S × Verified → ℕ → World S × Processed
  checked f t c (s, rejected e) now = (record { tables = t; services = s }, failed e)
  checked f t c (s, verified req bytes) now =
      dispatched f (record { tables = t; services = s }) c req bytes now

  abbrev pub unless_recorded :
      Carried → World S → Candidate → ℕ → Option Enrollment → World S × Processed
  unless_recorded f w c now none = checked f w.tables c (verify svc cfg w.services c) now
  unless_recorded f w c now (some r) = (w, done (summary_of r))

  -- `Process`.
  unfoldable pub process : Carried → World S → Candidate → ℕ → World S × Processed
  process f w c now = unless_recorded f w c now (existing f.reads_row w.tables c.enrollment_id)

  abbrev pub deliverable_bundle : Option String → Option (EnrollmentStatus × String)
  deliverable_bundle none = none
  deliverable_bundle (some bundle) = some (issued, bundle)

  abbrev pub deliverable_expiry :
      World S → Enrollment → Option ℕ → Option (EnrollmentStatus × String)
  deliverable_expiry w r none = none
  deliverable_expiry w r (some not_after) = deliverable_bundle (
      svc.build_bundle w.services
        (inputs svc cfg r.device_name r.overlay_ip r.groups r.cert_pem not_after r.goos r.goarch))

  abbrev pub deliverable_status :
      World S → Enrollment → EnrollmentStatus → Option (EnrollmentStatus × String)
  deliverable_status w r pending = none
  deliverable_status w r denied = some (denied, "")
  deliverable_status w r issued = deliverable_expiry w r (svc.leaf_expiry r.cert_pem)

  abbrev pub deliverable : World S → Option Enrollment → Option (EnrollmentStatus × String)
  deliverable w none = none
  deliverable w (some r) = deliverable_status w r r.status

  -- `BuildDeliverable`; its errors deliver nothing.
  unfoldable pub build_deliverable : Bool → World S → String → Option (EnrollmentStatus × String)
  build_deliverable reads w id = deliverable w (existing reads w.tables id)

  abbrev pub requeued : World S → Db → World S
  requeued w db = record w { tables = record w.tables { queue = db } }

  -- One item of the batch.
  abbrev pub drain_item : ℕ → Carried → World S → Leased → ℕ → World S
  drain_item max_attempts f w l now =
      let (w', r) = process f w l.candidate now in
      requeued w' (settle_item max_attempts l.id w'.tables.queue r)

  abbrev pub drain_items : ℕ → (ℕ → Carried) → World S → List Leased → ℕ → World S
  drain_items max_attempts f w [] now = w
  drain_items max_attempts f w (l ∷ rest) now =
      drain_items max_attempts f (drain_item max_attempts (f l.id) w l now) rest now

  abbrev pub drain_claimed : ℕ → (ℕ → Carried) → World S → Db × Result (List Leased) → ℕ → World S
  drain_claimed max_attempts f w (db, err e) now = requeued w db
  drain_claimed max_attempts f w (db, ok leased) now =
      drain_items max_attempts f (requeued w db) leased now

  -- `Drain`, of the queue whose codes are `mac`. The flags are those of `Claim` and, for each item, of its own statements.
  unfoldable pub drain :
      (Candidate → String)
      → ℕ
      → (ℕ → Carried)
      → Bool
      → Bool
      → (ℕ → Bool)
      → World S
      → ℕ
      → ℕ
      → ℕ
      → World S
  drain mac max_attempts f reclaims reads writes w batch lease now =
      drain_claimed max_attempts f w
        (claim mac reclaims reads writes w.tables.queue batch lease now) now
