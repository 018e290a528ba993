-- ===== src/Enrollment/Sso.antt =====
-- internal/enrollment/enrollment.go: `processSSO`.
use nebula_control_plane.Prelude.{
  ℕ, String, Bool, true, false, ◌&&◌, not, Option, none, some, if◌then◌else◌, str_eq,
}
use nebula_control_plane.Policy.Check.{grants_reserved_group}
use nebula_control_plane.Trust.Cloud.{Grant}
use nebula_control_plane.Trust.User.{UserConfig, match_user}
use nebula_control_plane.Queue.Types.{Candidate}
use nebula_control_plane.Enrollment.Types.{
  Evidence, Request, sso_not_configured, bad_assertion, bad_binding, sso_not_allowed, sso_unset,
  no_user_trust, malformed_envelope, assertion_rejected, wrong_device, wrong_nonce,
  nonce_not_authentic, not_in_user_trust, Processed, World,
}
use nebula_control_plane.Enrollment.Services.{Config, Assertion, Carried, Services}
use nebula_control_plane.Enrollment.Admission.{Admitted, refused}
use nebula_control_plane.Enrollment.Admit.{admit}

-- The last guard: what would be issued with a reserved group waits for approval instead.
abbrev pub unattended : Grant → Bool
unattended g = g.auto_issue && not (grants_reserved_group g.groups)

module _ {S : Type 0} (svc : Services S) (cfg : Config) where
  abbrev pub by_membership : Assertion → ℕ → Grant → Admitted
  by_membership a now g =
      let evidence : Evidence = record {
        provider = "sso";
        account = a.issuer;
        principal = if str_eq a.email "" then a.subject else a.email;
        region = svc.encode_groups a.idp_groups;
        verified_at = now;
      } in
      record {
        join_key_id = 0;
        groups = g.groups;
        netblock = g.netblock;
        auto_issue = unattended g;
        ephemeral = false;
        attest = evidence;
        actor = "enroll-sso";
        provenance = "sso";
        audits_issue = true;
      }

  abbrev pub member_matched :
      Carried
      → World S
      → Candidate
      → Request
      → String
      → Assertion
      → Option Grant
      → ℕ
      → World S × Processed
  member_matched f w c req bytes a none now =
      refused svc cfg f w c req bytes (not_in_user_trust a.subject a.issuer) sso_not_allowed now
  member_matched f w c req bytes a (some g) now =
      admit svc cfg f w c req bytes (by_membership a now g) now

  -- The assertion is bound to the device and to the nonce of the request.
  abbrev pub asserted :
      Carried
      → World S
      → Candidate
      → Request
      → String
      → UserConfig
      → Option Assertion
      → ℕ
      → World S × Processed
  asserted f w c req bytes trust none now =
      refused svc cfg f w c req bytes assertion_rejected bad_assertion now
  asserted f w c req bytes trust (some a) now =
      if not (str_eq a.pubkey_hash (svc.digest bytes))
      then refused svc cfg f w c req bytes wrong_device bad_binding now
      else if not (str_eq a.nonce req.nonce)
      then refused svc cfg f w c req bytes wrong_nonce bad_binding now
      else if not (svc.nonce_valid w.services a.nonce (svc.digest bytes))
      then refused svc cfg f w c req bytes nonce_not_authentic bad_binding now
      else member_matched f w c req bytes a (match_user trust a.issuer a.idp_groups) now

  abbrev pub enveloped :
      Carried
      → World S
      → Candidate
      → Request
      → String
      → UserConfig
      → Option String
      → ℕ
      → World S × Processed
  enveloped f w c req bytes trust none now =
      refused svc cfg f w c req bytes malformed_envelope bad_assertion now
  enveloped f w c req bytes trust (some token) now =
      if str_eq token ""
      then refused svc cfg f w c req bytes malformed_envelope bad_assertion now
      else asserted f w c req bytes trust (svc.verify_assertion w.services token) now

  abbrev pub user_trusted :
      Carried
      → World S
      → Candidate
      → Request
      → String
      → Option (Option UserConfig)
      → ℕ
      → World S × Processed
  user_trusted f w c req bytes none now =
      refused svc cfg f w c req bytes sso_unset sso_not_configured now
  user_trusted f w c req bytes (some none) now =
      if not cfg.assertion_key
      then refused svc cfg f w c req bytes sso_unset sso_not_configured now
      else refused svc cfg f w c req bytes no_user_trust sso_not_configured now
  user_trusted f w c req bytes (some (some trust)) now =
      if not cfg.assertion_key
      then refused svc cfg f w c req bytes sso_unset sso_not_configured now
      else enveloped f w c req bytes trust (svc.assertion_of req.credential) now

  -- `processSSO`.
  unfoldable pub process_sso :
      Carried → World S → Candidate → Request → String → ℕ → World S × Processed
  process_sso f w c req bytes now = user_trusted f w c req bytes cfg.user_trust now
