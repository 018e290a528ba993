-- ===== src/Enrollment/Approve.antt =====
-- internal/enrollment/enrollment.go: `Approve`, in the two statements that other calls can come
-- between, `Deny`, and what they derive from the row.
use nebula_control_plane.Prelude.{
  ℕ, String, Bool, false, ◌&&◌, not, ◌∷◌, Option, none, some, if◌then◌else◌, ◌==◌, str_eq, find,
  count, update,
}
use nebula_control_plane.JoinKey.Keys.{JoinKey, Keys, has_key_id}
use nebula_control_plane.Trust.Cloud.{CloudConfig, Identity, Grant, match_aws}
use nebula_control_plane.Trust.User.{UserConfig, match_user}
use nebula_control_plane.Enrollment.Types.{
  issued, denied, is_pending, Enrollment, EnrollError, not_pending, bundle_failed, db_failed,
  Summary, Processed, done, failed, Flight, Tables, World, of_id, pending_row,
}
use nebula_control_plane.Enrollment.Services.{Config, Services}
use nebula_control_plane.Enrollment.Admission.{
  Issued, issuance_of, not_issued, audited, write_result, issue,
}
use nebula_control_plane.Enrollment.Admit.{inputs}

-- `provenanceMethod`.
abbrev pub provenance_method : String → String
provenance_method m = if str_eq m "oidc" then "sso" else m

abbrev pub netblock_or_none : Option Grant → String
netblock_or_none none = ""
netblock_or_none (some g) = g.netblock

abbrev pub key_netblock : Option JoinKey → String
key_netblock none = ""
key_netblock (some k) = k.sub_range

abbrev pub key_ephemeral : Bool → Option JoinKey → Bool
key_ephemeral kept none = kept
key_ephemeral kept (some k) = k.ephemeral

abbrev pub read_key : Bool → Keys → ℕ → Option JoinKey
read_key reads keys i = if reads then find (has_key_id i) keys.rows else none

-- `approveEphemeral`.
unfoldable pub approve_ephemeral : Bool → Keys → Enrollment → Bool
approve_ephemeral reads keys r =
    if r.join_key_id == 0
    then false
    else key_ephemeral r.ephemeral (read_key reads keys r.join_key_id)

abbrev pub approved : Flight → ℕ → Enrollment → Enrollment
approved fl now r = record r {
  status = issued;
  cert_pem = fl.issuance.cert_pem;
  overlay_ip = fl.issuance.ip;
  fingerprint = fl.issuance.fingerprint;
  ca_fingerprint = fl.issuance.ca_fingerprint;
  decided_at = now;
  approver = fl.approver;
  ephemeral = fl.ephemeral;
}

abbrev pub claimed : Tables → Flight → ℕ → Tables
claimed t fl now = record t {
  rows = update (pending_row fl.row.enrollment_id) (approved fl now) t.rows;
}

abbrev pub rejected_row : String → ℕ → Enrollment → Enrollment
rejected_row approver now r = record r { status = denied; decided_at = now; approver = approver }

module _ {S : Type 0} (svc : Services S) (cfg : Config) where
  abbrev pub cloud_netblock : Enrollment → Option CloudConfig → String
  cloud_netblock r none = ""
  cloud_netblock r (some trust) =
      let id : Identity = record { account = r.attest.account; arn = r.attest.principal } in
      netblock_or_none (match_aws trust id)

  abbrev pub user_netblock : Enrollment → Option (Option UserConfig) → String
  user_netblock r none = ""
  user_netblock r (some none) = ""
  user_netblock r (some (some trust)) =
      netblock_or_none (match_user trust r.attest.account (svc.decode_groups r.attest.region))

  -- `approveNetblock`.
  unfoldable pub approve_netblock : Bool → Keys → Enrollment → String
  approve_netblock reads keys r =
      if not (r.join_key_id == 0)
      then key_netblock (read_key reads keys r.join_key_id)
      else if str_eq r.method "aws-sigv4" && str_eq r.attest.provider "aws"
      then cloud_netblock r cfg.cloud_trust
      else if str_eq r.method "oidc" && str_eq r.attest.provider "sso"
      then user_netblock r cfg.user_trust
      else ""

  abbrev pub flown : Tables → Enrollment → String → Bool → S × Issued → World S × Option EnrollError
  flown t r approver ephemeral (s, not_issued e) = (record { tables = t; services = s }, some e)
  flown t r approver ephemeral (s, issuance_of i) =
      let flight : Flight = record {
        row = r;
        issuance = i;
        approver = approver;
        ephemeral = ephemeral;
      } in
      (record { tables = record t { flights = flight ∷ t.flights }; services = s }, none)

  abbrev pub approve_row : Bool → World S → Enrollment → String → ℕ → World S × Option EnrollError
  approve_row reads_key w r approver now =
      let keys = w.tables.keys in
      let netblock =
        if str_eq r.sub_range "" then approve_netblock reads_key keys r else r.sub_range in
      let ephemeral = approve_ephemeral reads_key keys r in
      if not (is_pending r.status)
      then (w, some not_pending)
      else flown w.tables r approver ephemeral (
          issue svc cfg w.services approver r.device_name r.pubkey r.groups netblock
            (provenance_method r.method) ephemeral now)

  abbrev pub approve_found :
      Bool → World S → Option Enrollment → String → ℕ → World S × Option EnrollError
  approve_found reads_key w none approver now = (w, some not_pending)
  approve_found reads_key w (some r) approver now = approve_row reads_key w r approver now

  -- `Approve`, up to the certificate. The flags say whether the row and its key are read.
  unfoldable pub begin_approve :
      Bool → Bool → World S → String → String → ℕ → World S × Option EnrollError
  begin_approve reads reads_key w id approver now =
      if not reads
      then (w, some db_failed)
      else approve_found reads_key w (find (of_id id) w.tables.rows) approver now

  abbrev pub deliver_approved : World S → Flight → Option String → ℕ → World S × Processed
  deliver_approved w fl none now = (w, failed bundle_failed)
  deliver_approved w fl (some bundle) now =
      let r = fl.row in
      let summary : Summary = record {
        enrollment_id = r.enrollment_id;
        status = issued;
        overlay_ip = fl.issuance.ip;
        cert_pem = fl.issuance.cert_pem;
      } in
      (
        audited svc cfg
            (record w {
              tables = write_result svc cfg w.tables r.enrollment_id "" bundle issued "" now;
            })
            fl.approver "enroll-approved" r.device_name,
        done summary,
      )

  abbrev pub release_flight : World S → Flight → World S
  release_flight w fl = record w { services = svc.release w.services fl.issuance.ip }

  -- `Approve`, from the claim on. The claim takes the row only while it is pending.
  unfoldable pub finish_approve : Bool → World S → Flight → ℕ → World S × Processed
  finish_approve claims w fl now =
      let r = fl.row in
      if not claims
      then (release_flight w fl, failed db_failed)
      else if count (pending_row r.enrollment_id) w.tables.rows == 0
      then (release_flight w fl, failed not_pending)
      else deliver_approved (record w { tables = claimed w.tables fl now }) fl
          (svc.build_bundle w.services (
            inputs svc cfg r.device_name fl.issuance.ip r.groups fl.issuance.cert_pem
              fl.issuance.not_after r.goos r.goarch))
          now

  abbrev pub deny_found :
      Bool → World S → String → String → String → ℕ → Option Enrollment → World S × Processed
  deny_found writes w id approver reason now none = (w, failed not_pending)
  deny_found writes w id approver reason now (some r) =
      let rows = update (pending_row id) (rejected_row approver now) w.tables.rows in
      let summary : Summary = record {
        enrollment_id = id;
        status = denied;
        overlay_ip = "";
        cert_pem = "";
      } in
      if not (is_pending r.status)
      then (w, failed not_pending)
      else if not writes
      then (w, failed db_failed)
      else if count (pending_row id) w.tables.rows == 0
      then (w, failed not_pending)
      else (
        audited svc cfg
            (record w {
              tables =
                  write_result svc cfg (record w.tables { rows = rows }) id "" "" denied reason now;
            })
            approver "enroll-denied" r.device_name,
        done summary,
      )

  -- `Deny`; the flags say whether the row is read and the decision written.
  unfoldable pub deny_pending :
      Bool → Bool → World S → String → String → String → ℕ → World S × Processed
  deny_pending reads writes w id approver reason now =
      if not reads
      then (w, failed db_failed)
      else deny_found writes w id approver reason now (find (of_id id) w.tables.rows)
