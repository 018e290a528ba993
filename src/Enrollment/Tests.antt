-- ===== src/Enrollment/Tests.antt =====
-- A key that admits one host without approval, another that admits one with approval, and the
-- candidates of three hosts.
use nebula_control_plane.Prelude.{
  ℕ, ◌≤◌, suc, String, true, false, List, [], ◌∷◌, none, some, ◌≡◌, ◌≢◌, refl, arith, All, count,
  find, update,
}
use nebula_control_plane.Policy.Check.{grants_reserved_group, is_reserved_group}
use nebula_control_plane.JoinKey.Keys.{active, JoinKey, lookup_key, consume_key}
use nebula_control_plane.Queue.Types.{Candidate}
use nebula_control_plane.Queue.Results.{put_result}
use nebula_control_plane.Enrollment.Types.{
  pending, issued, Enrollment, Request, aws_not_allowed, done, Flight, World, joined_by,
}
use nebula_control_plane.Enrollment.Services.{
  Config, first_seen, allocated, attestation_refused, Header, Leaf, Carried, Services,
}
use nebula_control_plane.Enrollment.Verify.{verify}
use nebula_control_plane.Enrollment.Admission.{
  no_evidence, cert_ttl, record_row, write_result, deny, issue,
}
use nebula_control_plane.Enrollment.Approve.{
  begin_approve, finish_approve, approve_ephemeral, approve_netblock,
}
use nebula_control_plane.Enrollment.Admit.{admit}
use nebula_control_plane.Enrollment.Process.{process_token, recent_enrollments, summary_of}
use nebula_control_plane.Enrollment.Drain.{process}
use nebula_control_plane.Enrollment.History.{Step, process_candidate, begin, finish, step, run}
use nebula_control_plane.Enrollment.Decided.{redelivered_same}
use nebula_control_plane.Enrollment.Backed.{Backed, run-Backed}
use nebula_control_plane.Enrollment.Reserved.{Free, never_reserved}
use nebula_control_plane.Enrollment.Limits.{never_over_limit}

abbrev request : Request
request = record {
  request_type = "enroll";
  method = "token";
  nonce = "n";
  requested_name = "db1";
  public_key = "pk";
  credential = "s";
  os = "linux";
  arch = "amd64";
}

abbrev leaf : Leaf
leaf = record { pem = "cert"; fingerprint = "fp"; issuer = "ca" }

abbrev header : Header
header = record { typ = "ncp-request+jws"; kid = "pk" }

-- The state counts the addresses that are taken; the text of a request names its secret.
abbrev services : Services ℕ
services = record {
  parse_request = λ jws. some (record request { credential = jws });
  decode_bytes = λ x. some x;
  byte_length = λ x. 65;
  on_curve = λ x. true;
  digest = λ x. x;
  secret_digest = λ x. x;
  first_ten = λ x. x;
  verify_signature = λ jws bytes. some header;
  token_of = λ x. x;
  presigned_of = λ x. none;
  region_of = λ x. "";
  assertion_of = λ x. none;
  encode_groups = λ gs. "";
  decode_groups = λ x. [];
  render = λ r. "refused";
  nonce_valid = λ s n k. true;
  observe = λ s n. (s, first_seen);
  verify_aws = λ s p n k. attestation_refused aws_not_allowed;
  verify_assertion = λ s a. none;
  allocate = λ s d b m. (suc s, allocated "10.0.0.9");
  release = λ s ip. s;
  sign = λ s a t. (s, some leaf);
  leaf_expiry = λ pem. some 9;
  build_bundle = λ s i. some "bundle";
  audit = λ s a b c. s;
}

abbrev config : Config
config = record {
  replay_guard = true;
  cert_lifetime = 100;
  ephemeral_cert_ttl = 0;
  enroll_window = 0;
  aws_enabled = false;
  cloud_trust = none;
  assertion_key = false;
  user_trust = none;
  results = true;
  result_ttl = 0;
}

abbrev unattended_key : JoinKey
unattended_key = record {
  id = 1;
  name = "ci";
  secret_hash = "s";
  groups = "ci" ∷ [];
  sub_range = "";
  max_uses = 1;
  used_count = 0;
  expires_at = 0;
  auto_issue = true;
  ephemeral = false;
  quota_per_hour = 0;
  state = active;
  created_at = 0;
}

abbrev attended_key : JoinKey
attended_key = record unattended_key { id = 2; name = "db"; secret_hash = "t"; auto_issue = false }

abbrev start : World ℕ
start = record {
  tables = record {
    rows = [];
    next_id = 1;
    keys = record { rows = attended_key ∷ unattended_key ∷ []; next_id = 3 };
    queue = record { items = []; results = []; next_item = 1; next_result = 1 };
    flights = [];
  };
  services = 0;
}

abbrev all_carried : Carried
all_carried = record {
  reads_row = true;
  reads_key = true;
  counts_quota = true;
  uses_key = true;
  writes_row = true;
}

abbrev candidate : String → String → Candidate
candidate e secret = record {
  enrollment_id = e;
  pubkey_hash = "pk";
  request_jws = secret;
  retrieval_secret_hash = "h";
  received_at = 0;
}

-- One host is issued a certificate, a second finds the key used up, a third is approved.
abbrev calls : List Step
calls =
    process_candidate all_carried (candidate "e1" "s") 10
    ∷ process_candidate all_carried (candidate "e2" "s") 11
    ∷ process_candidate all_carried (candidate "e3" "t") 12
    ∷ begin true true "e3" "alice" 13
    ∷ finish true 0 14
    ∷ []

abbrev waiting : Enrollment
waiting = record {
  id = 1;
  enrollment_id = "e3";
  device_name = "db1";
  pubkey_hash = "pk";
  pubkey = "pk";
  method = "token";
  join_key_id = 2;
  groups = "db" ∷ [];
  desired_groups = "db" ∷ [];
  groups_generation = 0;
  issued_generation = 0;
  reduction_pending_enforcement = false;
  reduction_old_not_after = 0;
  sub_range = "";
  status = pending;
  cert_pem = "";
  overlay_ip = "";
  fingerprint = "";
  ca_fingerprint = "";
  created_at = 12;
  decided_at = 0;
  approver = "";
  ephemeral = false;
  attest = no_evidence;
  goos = "linux";
  goarch = "amd64";
}

abbrev decided_row : Enrollment
decided_row = record waiting { status = issued; cert_pem = "cert"; overlay_ip = "10.0.0.9" }

abbrev with_row : Enrollment → World ℕ
with_row r = record start { tables = record start.tables { rows = r ∷ []; next_id = 2 } }

abbrev flight : Flight
flight = record {
  row = waiting;
  issuance = record {
    ip = "10.0.0.9";
    cert_pem = "cert";
    fingerprint = "fp";
    ca_fingerprint = "ca";
    not_after = 9;
  };
  approver = "alice";
  ephemeral = false;
}

never_reserved_example : All Free (run services config start calls).tables.rows
never_reserved_example = never_reserved services config start calls (tt, tt, tt)

never_over_limit_example :
    All
      (λ k.
        k.max_uses ≢ 0
        → count (joined_by k.id) (run services config start calls).tables.rows ≤ k.max_uses)
      (run services config start calls).tables.keys.rows
unfolding count
never_over_limit_example = never_over_limit services config start calls (
  (omega arith, (omega arith, tt)),
  (
    (omega arith, omega arith, λ m. omega arith),
    ((omega arith, omega arith, λ m. omega arith), tt),
  ),
  tt,
  omega arith,
)

run-Backed_example : Backed 0 (run services config start calls).tables
run-Backed_example = run-Backed services config start calls tt

redelivered_same_example :
    process services config all_carried
      (run services config (with_row decided_row) calls)
      (candidate "e3" "t")
      20
    ≡ (run services config (with_row decided_row) calls, done (summary_of decided_row))
unfolding find
redelivered_same_example =
    redelivered_same services config all_carried (with_row decided_row) calls (candidate "e3" "t")
      20 decided_row refl refl refl

-- The second host is refused, and three hosts leave one use of each key.
one_use_each : count (joined_by 1) (run services config start calls).tables.rows ≡ 1
unfolding run step process process_token verify lookup_key consume_key admit issue record_row
    write_result put_result begin_approve finish_approve approve_ephemeral approve_netblock deny
    find count update cert_ttl grants_reserved_group recent_enrollments is_reserved_group
one_use_each = refl
