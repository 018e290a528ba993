-- ===== src/Enrollment/Admission.antt =====
-- internal/enrollment/enrollment.go: `record`, `writeResult`, `deny`, `certTTL`, `issue`, and the
-- decision that the three methods share.
use nebula_control_plane.Prelude.{
  ℕ, suc, ◌+◌, ◌-◌, ◌*◌, String, Bool, true, false, not, List, [], ◌∷◌, Option, none, some,
  if◌then◌else◌, ◌==◌, str_eq, count,
}
use Prim.Native.String.{◌++◌ as append}
use nebula_control_plane.Policy.Check.{grants_reserved_group}
use nebula_control_plane.Queue.Types.{Candidate}
use nebula_control_plane.Queue.Results.{put_result}
use nebula_control_plane.Enrollment.Types.{
  EnrollmentStatus, pending, issued, denied, status_text, is_pending, Evidence, Enrollment, Request,
  EnrollError, reserved_group, pool_exhausted, allocate_failed, sign_failed, Reason, Processed,
  failed, Issuance, Tables, World, of_id,
}
use nebula_control_plane.Enrollment.Services.{
  Config, Allocated, allocated, exhausted, no_allocation, Template, Leaf, Carried, Services,
}

-- `ephemeral` and `cert_ttl`: a second is a thousand million units.
abbrev pub default_ephemeral_ttl : ℕ
default_ephemeral_ttl = 86400 * 1000000000

abbrev pub one_hour : ℕ
one_hour = 3600 * 1000000000

abbrev pub or_else : ℕ → ℕ → ℕ
or_else d n = if n == 0 then d else n

unfoldable pub cert_ttl : Config → Bool → ℕ
cert_ttl cfg ephemeral =
    if not ephemeral
    then cfg.cert_lifetime
    else or_else default_ephemeral_ttl cfg.ephemeral_cert_ttl

abbrev pub no_evidence : Evidence
no_evidence = record { provider = ""; account = ""; principal = ""; region = ""; verified_at = 0 }

-- What a decision records.
pub record Entry : Type 0 where
  pub join_key_id : ℕ
  pub groups : List String
  pub sub_range : String
  pub status : EnrollmentStatus
  pub cert_pem : String
  pub overlay_ip : String
  pub fingerprint : String
  pub ca_fingerprint : String
  pub attest : Evidence
  pub ephemeral : Bool

abbrev pub denial : Entry
denial = record {
  join_key_id = 0;
  groups = [];
  sub_range = "";
  status = denied;
  cert_pem = "";
  overlay_ip = "";
  fingerprint = "";
  ca_fingerprint = "";
  attest = no_evidence;
  ephemeral = false;
}

-- What a method admits a host to.
pub record Admitted : Type 0 where
  pub join_key_id : ℕ
  pub groups : List String
  pub netblock : String
  pub auto_issue : Bool
  pub ephemeral : Bool
  pub attest : Evidence
  pub actor : String
  pub provenance : String
  pub audits_issue : Bool

abbrev pub pending_entry : Admitted → Entry
pending_entry a = record {
  join_key_id = a.join_key_id;
  groups = a.groups;
  sub_range = a.netblock;
  status = pending;
  cert_pem = "";
  overlay_ip = "";
  fingerprint = "";
  ca_fingerprint = "";
  attest = a.attest;
  ephemeral = a.ephemeral;
}

abbrev pub issued_entry : Admitted → Issuance → Entry
issued_entry a i = record {
  join_key_id = a.join_key_id;
  groups = a.groups;
  sub_range = a.netblock;
  status = issued;
  cert_pem = i.cert_pem;
  overlay_ip = i.ip;
  fingerprint = i.fingerprint;
  ca_fingerprint = i.ca_fingerprint;
  attest = a.attest;
  ephemeral = a.ephemeral;
}

pub data Issued : Type 0 where
  issuance_of : Issuance → Issued
  not_issued : EnrollError → Issued

abbrev pub inserted : Tables → Enrollment → Tables
inserted t r = record t { rows = r ∷ t.rows; next_id = suc t.next_id }

module _ {S : Type 0} (svc : Services S) (cfg : Config) where
  -- `deviceName`.
  abbrev pub device_name : Request → String → String
  device_name req hash =
      if str_eq req.requested_name ""
      then append "dev-" (svc.first_ten hash)
      else req.requested_name

  abbrev pub audited : World S → String → String → String → World S
  audited w actor action target = record w { services = svc.audit w.services actor action target }

  abbrev pub new_row : ℕ → Candidate → Request → String → Entry → ℕ → Enrollment
  new_row i c req bytes e now = record {
    id = i;
    enrollment_id = c.enrollment_id;
    device_name = device_name req (svc.digest bytes);
    pubkey_hash = svc.digest bytes;
    pubkey = bytes;
    method = req.method;
    join_key_id = e.join_key_id;
    groups = e.groups;
    desired_groups = e.groups;
    groups_generation = 0;
    issued_generation = 0;
    reduction_pending_enforcement = false;
    reduction_old_not_after = 0;
    sub_range = e.sub_range;
    status = e.status;
    cert_pem = e.cert_pem;
    overlay_ip = e.overlay_ip;
    fingerprint = e.fingerprint;
    ca_fingerprint = e.ca_fingerprint;
    created_at = now;
    decided_at = if is_pending e.status then 0 else now;
    approver = "";
    ephemeral = e.ephemeral;
    attest = e.attest;
    goos = req.os;
    goarch = req.arch;
  }

  -- `record`: the enrollment's identifier is unique. The flag says whether the row is there.
  unfoldable pub record_row :
      Bool → Tables → Candidate → Request → String → Entry → ℕ → Tables × Bool
  record_row writes t c req bytes e now =
      if not writes
      then (t, false)
      else if count (of_id c.enrollment_id) t.rows == 0
      then (inserted t (new_row t.next_id c req bytes e now), true)
      else (t, false)

  -- `writeResult`.
  unfoldable pub write_result :
      Tables → String → String → String → EnrollmentStatus → String → ℕ → Tables
  write_result t id secret bundle status reason now =
      let expires_at = if is_pending status then 0 else now + or_else one_hour cfg.result_ttl in
      if not cfg.results then t else record t {
        queue = put_result t.queue id (status_text status) secret bundle reason expires_at;
      }

  -- `deny`.
  unfoldable pub deny :
      Carried → World S → Candidate → Request → String → String → Reason → ℕ → World S
  deny f w c req bytes action reason now =
      let (t, _) = record_row f.writes_row w.tables c req bytes denial now in
      audited
        (record w {
          tables =
              write_result t c.enrollment_id c.retrieval_secret_hash "" denied (svc.render reason)
                now;
        })
        "system" action req.requested_name

  abbrev pub refused :
      Carried
      → World S
      → Candidate
      → Request
      → String
      → Reason
      → EnrollError
      → ℕ
      → World S × Processed
  refused f w c req bytes reason e now = (deny f w c req bytes "enroll-denied" reason now, failed e)

  abbrev pub template : String → String → List String → String → ℕ → ℕ → Template
  template device ip groups bytes not_before not_after = record {
    name = device;
    address = ip;
    groups = groups;
    not_before = not_before;
    not_after = not_after;
    public_key = bytes;
  }

  -- A failed signature releases the address.
  abbrev pub signed_leaf : String → ℕ → S × Option Leaf → S × Issued
  signed_leaf ip not_after (s, none) = (svc.release s ip, not_issued sign_failed)
  signed_leaf ip not_after (s, some leaf) =
      let issuance : Issuance = record {
        ip = ip;
        cert_pem = leaf.pem;
        fingerprint = leaf.fingerprint;
        ca_fingerprint = leaf.issuer;
        not_after = not_after;
      } in
      (s, issuance_of issuance)

  abbrev pub signed_for :
      String → String → String → List String → Bool → ℕ → S × Allocated → S × Issued
  signed_for actor device bytes groups ephemeral now (s, no_allocation) =
      (s, not_issued allocate_failed)
  signed_for actor device bytes groups ephemeral now (s, exhausted) =
      (svc.audit s "system" "enroll-exhausted" device, not_issued pool_exhausted)
  signed_for actor device bytes groups ephemeral now (s, allocated ip) =
      let not_before = now - 300 * 1000000000 in
      let not_after = not_before + cert_ttl cfg ephemeral in
      signed_leaf ip not_after
        (svc.sign s actor (template device ip groups bytes not_before not_after))

  -- `issue`; the refusal comes first, and a begin of validity before the epoch is the epoch.
  unfoldable pub issue :
      S → String → String → String → List String → String → String → Bool → ℕ → S × Issued
  issue s actor device bytes groups netblock method ephemeral now =
      if grants_reserved_group groups
      then (svc.audit s "system" "enroll-reserved-group-refused" device, not_issued reserved_group)
      else signed_for actor device bytes groups ephemeral now
          (svc.allocate s device netblock method)
