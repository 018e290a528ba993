-- ===== src/Enrollment/Services.antt =====
-- internal/enrollment/enrollment.go: what the consumer is configured with, and what it calls: the
-- encodings, the verifiers, the nonces and their guard, the allocator, the signer and the audit log,
-- over a state `S` of theirs.
use nebula_control_plane.Prelude.{ℕ, String, Bool, List, Option}
use nebula_control_plane.Trust.Cloud.{CloudConfig, Identity}
use nebula_control_plane.Trust.User.{UserConfig}
use nebula_control_plane.Enrollment.Types.{Request, AwsFault, Reason}

-- The flags of `Config`; a duration of zero stands for one that is not set.
pub record Config : Type 0 where
  pub replay_guard : Bool
  pub cert_lifetime : ℕ
  pub ephemeral_cert_ttl : ℕ
  pub enroll_window : ℕ
  pub aws_enabled : Bool
  pub cloud_trust : Option CloudConfig
  pub assertion_key : Bool
  pub user_trust : Option (Option UserConfig)
  pub results : Bool
  pub result_ttl : ℕ

pub data Observed : Type 0 where
  first_seen seen_before observe_failed : Observed

pub data Allocated : Type 0 where
  allocated : String → Allocated
  exhausted no_allocation : Allocated

pub data Attested : Type 0 where
  attested : Identity → Attested
  attestation_refused : AwsFault → Attested

-- `ssoassert.Claims`.
pub record Assertion : Type 0 where
  pub pubkey_hash : String
  pub nonce : String
  pub issuer : String
  pub subject : String
  pub email : String
  pub idp_groups : List String

-- The protected header of a request, once its signature is verified.
pub record Header : Type 0 where
  pub typ : String
  pub kid : String

-- `signer.Template`, without the network's length, which is that of the pool.
pub record Template : Type 0 where
  pub name : String
  pub address : String
  pub groups : List String
  pub not_before : ℕ
  pub not_after : ℕ
  pub public_key : String

-- A certificate that was signed.
pub record Leaf : Type 0 where
  pub pem : String
  pub fingerprint : String
  pub issuer : String

-- What a bundle is made from, besides the state of the services.
pub record BundleInputs : Type 0 where
  pub device_name : String
  pub overlay_ip : String
  pub groups : List String
  pub certificate : String
  pub not_after : ℕ
  pub goos : String
  pub goarch : String

-- The statements of one call that are carried out.
pub record Carried : Type 0 where
  pub reads_row : Bool
  pub reads_key : Bool
  pub counts_quota : Bool
  pub uses_key : Bool
  pub writes_row : Bool

pub record Services (S : Type 0) : Type 0 where
  -- Encodings.
  pub parse_request : String → Option Request
  pub decode_bytes : String → Option String
  pub byte_length : String → ℕ
  pub on_curve : String → Bool
  pub digest : String → String
  pub secret_digest : String → String
  pub first_ten : String → String
  pub verify_signature : String → String → Option Header
  pub token_of : String → String
  pub presigned_of : String → Option String
  pub region_of : String → String
  pub assertion_of : String → Option String
  pub encode_groups : List String → String
  pub decode_groups : String → List String
  pub render : Reason → String
  -- Verifiers.
  pub nonce_valid : S → String → String → Bool
  pub observe : S → String → S × Observed
  pub verify_aws : S → String → String → String → Attested
  pub verify_assertion : S → String → Option Assertion
  -- Effects.
  pub allocate : S → String → String → String → S × Allocated
  pub release : S → String → S
  pub sign : S → String → Template → S × Option Leaf
  pub leaf_expiry : String → Option ℕ
  pub build_bundle : S → BundleInputs → Option String
  pub audit : S → String → String → String → S
