-- ===== src/Enrollment/Process.antt =====
-- internal/enrollment/enrollment.go: `Process`, by a join key, by the identity of a cloud or by an
-- assertion of the portal.
use nebula_control_plane.Prelude.{
  ℕ, String, Bool, true, false, ◌&&◌, ◌||◌, not, List, Option, none, some, if◌then◌else◌, ltb, ◌==◌,
  count,
}
use nebula_control_plane.JoinKey.Keys.{JoinKey, KeyResult, ok, err, Keys, lookup_key, consume_key}
use nebula_control_plane.Trust.Cloud.{CloudConfig, Identity, Grant, match_aws}
use nebula_control_plane.Queue.Types.{Candidate}
use nebula_control_plane.Enrollment.Types.{
  Evidence, Enrollment, Request, aws_bad_request, aws_not_allowed, bad_method, over_quota, bad_key,
  aws_refused, db_failed, key_refused, quota_exceeded, aws_disabled, malformed_attestation,
  attestation_rejected, not_in_cloud_trust, Summary, Processed, failed, Tables, World,
  accepted_since,
}
use nebula_control_plane.Enrollment.Services.{
  Config, Attested, attested, attestation_refused, Carried, Services,
}
use nebula_control_plane.Enrollment.Admit.{admit}
use nebula_control_plane.Enrollment.Admission.{
  one_hour, or_else, no_evidence, Admitted, deny, refused,
}

abbrev pub summary_of : Enrollment → Summary
summary_of r = record {
  enrollment_id = r.enrollment_id;
  status = r.status;
  overlay_ip = r.overlay_ip;
  cert_pem = r.cert_pem;
}

-- `recentEnrollments`.
unfoldable pub recent_enrollments : Config → List Enrollment → ℕ → ℕ → ℕ
recent_enrollments cfg rows k now =
    count (accepted_since k (or_else one_hour cfg.enroll_window) now) rows

module _ {S : Type 0} (svc : Services S) (cfg : Config) where
  abbrev pub by_key : JoinKey → Admitted
  by_key k = record {
    join_key_id = k.id;
    groups = k.groups;
    netblock = k.sub_range;
    auto_issue = k.auto_issue;
    ephemeral = k.ephemeral;
    attest = no_evidence;
    actor = "enroll-auto";
    provenance = "token";
    audits_issue = false;
  }

  abbrev pub consumed :
      Carried
      → World S
      → Candidate
      → Request
      → String
      → JoinKey
      → Keys × KeyResult (Unit {0})
      → ℕ
      → World S × Processed
  consumed f w c req bytes k (keys, err e) now =
      refused svc cfg f (record w { tables = record w.tables { keys = keys } }) c req bytes
        (key_refused e) (bad_key e) now
  consumed f w c req bytes k (keys, ok _) now =
      admit svc cfg f (record w { tables = record w.tables { keys = keys } }) c req bytes (by_key k)
        now

  -- The quota of a key, where it has one.
  abbrev pub within_quota : Tables → JoinKey → ℕ → Bool
  within_quota t k now =
      k.quota_per_hour == 0 || ltb (recent_enrollments cfg t.rows k.id now) k.quota_per_hour

  abbrev pub looked_up :
      Carried → World S → Candidate → Request → String → KeyResult JoinKey → ℕ → World S × Processed
  looked_up f w c req bytes (err e) now =
      refused svc cfg f w c req bytes (key_refused e) (bad_key e) now
  looked_up f w c req bytes (ok k) now =
      if not (k.quota_per_hour == 0) && not f.counts_quota
      then (w, failed db_failed)
      else if not (within_quota w.tables k now)
      then (
        deny svc cfg f w c req bytes "enroll-quota-exceeded"
            (quota_exceeded k.name k.quota_per_hour) now,
        failed over_quota,
      )
      else consumed f w c req bytes k (consume_key f.uses_key w.tables.keys k) now

  -- `Process`, by a join key.
  unfoldable pub process_token :
      Carried → World S → Candidate → Request → String → ℕ → World S × Processed
  process_token f w c req bytes now =
      looked_up f w c req bytes
        (lookup_key f.reads_key w.tables.keys (svc.secret_digest (svc.token_of req.credential)) now)
        now

  abbrev pub by_account : Identity → String → ℕ → Grant → Admitted
  by_account id region now g =
      let evidence : Evidence = record {
        provider = "aws";
        account = id.account;
        principal = id.arn;
        region = region;
        verified_at = now;
      } in
      record {
        join_key_id = 0;
        groups = g.groups;
        netblock = g.netblock;
        auto_issue = g.auto_issue;
        ephemeral = false;
        attest = evidence;
        actor = "enroll-attested";
        provenance = "aws-sigv4";
        audits_issue = true;
      }

  abbrev pub account_matched :
      Carried
      → World S
      → Candidate
      → Request
      → String
      → Identity
      → String
      → Option Grant
      → ℕ
      → World S × Processed
  account_matched f w c req bytes id region none now =
      refused svc cfg f w c req bytes (not_in_cloud_trust id.account id.arn)
        (aws_refused aws_not_allowed) now
  account_matched f w c req bytes id region (some g) now =
      admit svc cfg f w c req bytes (by_account id region now g) now

  abbrev pub vouched :
      Carried
      → World S
      → Candidate
      → Request
      → String
      → CloudConfig
      → String
      → Attested
      → ℕ
      → World S × Processed
  vouched f w c req bytes trust presigned (attestation_refused e) now =
      refused svc cfg f w c req bytes (attestation_rejected e) (aws_refused e) now
  vouched f w c req bytes trust presigned (attested id) now =
      account_matched f w c req bytes id (svc.region_of presigned) (match_aws trust id) now

  abbrev pub presented_request :
      Carried
      → World S
      → Candidate
      → Request
      → String
      → CloudConfig
      → Option String
      → ℕ
      → World S × Processed
  presented_request f w c req bytes trust none now =
      refused svc cfg f w c req bytes malformed_attestation (aws_refused aws_bad_request) now
  presented_request f w c req bytes trust (some presigned) now =
      vouched f w c req bytes trust presigned
        (svc.verify_aws w.services presigned req.nonce (svc.digest bytes)) now

  abbrev pub cloud_trusted :
      Carried
      → World S
      → Candidate
      → Request
      → String
      → Option CloudConfig
      → ℕ
      → World S × Processed
  cloud_trusted f w c req bytes none now =
      refused svc cfg f w c req bytes aws_disabled bad_method now
  cloud_trusted f w c req bytes (some trust) now =
      if not cfg.aws_enabled
      then refused svc cfg f w c req bytes aws_disabled bad_method now
      else presented_request f w c req bytes trust (svc.presigned_of req.credential) now

  -- `processAttested`.
  unfoldable pub process_attested :
      Carried → World S → Candidate → Request → String → ℕ → World S × Processed
  process_attested f w c req bytes now = cloud_trusted f w c req bytes cfg.cloud_trust now
