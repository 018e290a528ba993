-- ===== src/Enrollment/Types.antt =====
-- internal/enrollment/enrollment.go: the rows, the errors and the queries of the consumer. Byte strings
-- are texts, lists of groups are lists, and rows stand newest first.
use nebula_control_plane.Prelude.{
  ◌+◌, ℕ, String, Bool, true, false, ◌&&◌, ◌||◌, List, ltb, ◌==◌, str_eq,
}
use nebula_control_plane.JoinKey.Keys.{Keys, KeyError}
use nebula_control_plane.Queue.Types.{Db}

pub data EnrollmentStatus : Type 0 where
  pending issued denied : EnrollmentStatus

abbrev pub status_text : EnrollmentStatus → String
status_text pending = "pending"
status_text issued = "issued"
status_text denied = "denied"

abbrev pub is_pending : EnrollmentStatus → Bool
is_pending pending = true
is_pending issued = false
is_pending denied = false

abbrev pub is_issued : EnrollmentStatus → Bool
is_issued pending = false
is_issued issued = true
is_issued denied = false

-- `evidence`.
pub record Evidence : Type 0 where
  pub provider : String
  pub account : String
  pub principal : String
  pub region : String
  pub verified_at : ℕ

pub record Enrollment : Type 0 where
  pub id : ℕ
  pub enrollment_id : String
  pub device_name : String
  pub pubkey_hash : String
  pub pubkey : String
  pub method : String
  pub join_key_id : ℕ
  pub groups : List String
  pub desired_groups : List String
  pub groups_generation : ℕ
  pub issued_generation : ℕ
  pub reduction_pending_enforcement : Bool
  pub reduction_old_not_after : ℕ
  pub sub_range : String
  pub status : EnrollmentStatus
  pub cert_pem : String
  pub overlay_ip : String
  pub fingerprint : String
  pub ca_fingerprint : String
  pub created_at : ℕ
  pub decided_at : ℕ
  pub approver : String
  pub ephemeral : Bool
  pub attest : Evidence
  pub goos : String
  pub goarch : String

-- `wire.EnrollRequest`, as far as the consumer reads it.
pub record Request : Type 0 where
  pub request_type : String
  pub method : String
  pub nonce : String
  pub requested_name : String
  pub public_key : String
  pub credential : String
  pub os : String
  pub arch : String

-- The errors of internal/awsattest that `terminal` names.
pub data AwsFault : Type 0 where
  aws_binding aws_unsigned_binding aws_bad_request aws_bad_endpoint aws_attestation : AwsFault
  aws_not_allowed sts_unavailable : AwsFault

pub data EnrollError : Type 0 where
  bad_request bad_signature bad_nonce replayed bad_method not_pending over_quota : EnrollError
  reserved_group sso_not_configured bad_assertion bad_binding sso_not_allowed : EnrollError
  bad_key : KeyError → EnrollError
  aws_refused : AwsFault → EnrollError
  pool_exhausted replay_store_failed allocate_failed sign_failed bundle_failed : EnrollError
  db_failed : EnrollError

-- What a denial says.
pub data Reason : Type 0 where
  key_refused : KeyError → Reason
  quota_exceeded : String → ℕ → Reason
  aws_disabled malformed_attestation sso_unset no_user_trust malformed_envelope : Reason
  assertion_rejected wrong_device wrong_nonce nonce_not_authentic : Reason
  attestation_rejected : AwsFault → Reason
  not_in_cloud_trust : String → String → Reason
  not_in_user_trust : String → String → Reason

-- `Result`.
pub record Summary : Type 0 where
  pub enrollment_id : String
  pub status : EnrollmentStatus
  pub overlay_ip : String
  pub cert_pem : String

pub data Processed : Type 0 where
  done : Summary → Processed
  failed : EnrollError → Processed

-- What `issue` returns.
pub record Issuance : Type 0 where
  pub ip : String
  pub cert_pem : String
  pub fingerprint : String
  pub ca_fingerprint : String
  pub not_after : ℕ

-- An approval whose certificate is signed and whose claim is still to be made: the row that it
-- read, and what it will write.
pub record Flight : Type 0 where
  pub row : Enrollment
  pub issuance : Issuance
  pub approver : String
  pub ephemeral : Bool

-- The tables that enrollment reads and writes, and the approvals under way.
pub record Tables : Type 0 where
  pub rows : List Enrollment
  pub next_id : ℕ
  pub keys : Keys
  pub queue : Db
  pub flights : List Flight

-- With the state of everything else.
pub record World (S : Type 0) : Type 0 where
  pub tables : Tables
  pub services : S

-- The `WHERE` clauses.
abbrev pub of_id : String → Enrollment → Bool
of_id e r = str_eq r.enrollment_id e

abbrev pub pending_row : String → Enrollment → Bool
pending_row e r = str_eq r.enrollment_id e && is_pending r.status

abbrev pub issued_row : String → Enrollment → Bool
issued_row e r = str_eq r.enrollment_id e && is_issued r.status

abbrev pub joined_by : ℕ → Enrollment → Bool
joined_by k r = r.join_key_id == k

-- Accepted with the key within a window that ends now.
abbrev pub accepted_since : ℕ → ℕ → ℕ → Enrollment → Bool
accepted_since k window now r =
    (r.join_key_id == k)
    && ((is_pending r.status || is_issued r.status) && ltb now (r.created_at + window))
