-- ===== src/Enrollment/Admit.antt =====
-- internal/enrollment/enrollment.go: what `Process`, `processAttested` and `processSSO` do with a host that
-- is admitted.
use nebula_control_plane.Prelude.{
  ℕ, String, Bool, true, false, not, List, Option, none, some, if◌then◌else◌,
}
use nebula_control_plane.Queue.Types.{Candidate}
use nebula_control_plane.Enrollment.Types.{
  pending, issued, Request, bundle_failed, db_failed, Summary, Processed, done, failed, Issuance,
  Tables, World,
}
use nebula_control_plane.Enrollment.Services.{Config, BundleInputs, Carried, Services}
use nebula_control_plane.Enrollment.Admission.{
  Admitted, pending_entry, issued_entry, Issued, issuance_of, not_issued, device_name, audited,
  record_row, write_result, issue,
}

module _ {S : Type 0} (svc : Services S) (cfg : Config) where
  abbrev pub queued : Candidate → World S → Tables × Bool → String → ℕ → World S × Processed
  queued c w (t, false) device now = (record w { tables = t }, failed db_failed)
  queued c w (t, true) device now =
      let summary : Summary = record {
        enrollment_id = c.enrollment_id;
        status = pending;
        overlay_ip = "";
        cert_pem = "";
      } in
      (
        audited svc cfg
            (record w {
              tables =
                  write_result svc cfg t c.enrollment_id c.retrieval_secret_hash "" pending "" now;
            })
            "system" "enroll-pending" device,
        done summary,
      )

  abbrev pub after_issue : Bool → S → String → String → S
  after_issue audits s action device = if audits then svc.audit s "system" action device else s

  abbrev pub delivered :
      Candidate
      → World S
      → Admitted
      → String
      → Issuance
      → String
      → Tables × Bool
      → ℕ
      → World S × Processed
  delivered c w a device i bundle (t, false) now = (record w { tables = t }, failed db_failed)
  delivered c w a device i bundle (t, true) now =
      let summary : Summary = record {
        enrollment_id = c.enrollment_id;
        status = issued;
        overlay_ip = i.ip;
        cert_pem = i.cert_pem;
      } in
      (
        record w {
          tables =
              write_result svc cfg t c.enrollment_id c.retrieval_secret_hash bundle issued "" now;
          services = after_issue a.audits_issue w.services a.actor device;
        },
        done summary,
      )

  abbrev pub inputs : String → String → List String → String → ℕ → String → String → BundleInputs
  inputs device ip groups pem not_after goos goarch = record {
    device_name = device;
    overlay_ip = ip;
    groups = groups;
    certificate = pem;
    not_after = not_after;
    goos = goos;
    goarch = goarch;
  }

  abbrev pub bundled :
      Carried
      → Candidate
      → Request
      → String
      → World S
      → Admitted
      → Issuance
      → Option String
      → ℕ
      → World S × Processed
  bundled f c req bytes w a i none now = (w, failed bundle_failed)
  bundled f c req bytes w a i (some bundle) now =
      delivered c w a (device_name svc cfg req c.pubkey_hash) i bundle
        (record_row svc cfg f.writes_row w.tables c req bytes (issued_entry a i) now) now

  abbrev pub settled :
      Carried
      → Candidate
      → Request
      → String
      → Tables
      → Admitted
      → S × Issued
      → ℕ
      → World S × Processed
  settled f c req bytes t a (s, not_issued e) now = (record { tables = t; services = s }, failed e)
  settled f c req bytes t a (s, issuance_of i) now =
      bundled f c req bytes (record { tables = t; services = s }) a i
        (svc.build_bundle s (
          inputs (device_name svc cfg req c.pubkey_hash) i.ip a.groups i.cert_pem i.not_after req.os
            req.arch))
        now

  -- A host that a method admits: it waits for approval, or it is issued a certificate.
  unfoldable pub admit :
      Carried → World S → Candidate → Request → String → Admitted → ℕ → World S × Processed
  admit f w c req bytes a now =
      let device = device_name svc cfg req c.pubkey_hash in
      if not a.auto_issue
      then queued c w (record_row svc cfg f.writes_row w.tables c req bytes (pending_entry a) now)
          device now
      else settled f c req bytes w.tables a
          (issue svc cfg w.services a.actor device bytes a.groups a.netblock a.provenance
            a.ephemeral now)
          now
