-- ===== src/Enrollment/Verify.antt =====
-- internal/enrollment/enrollment.go: `verify`, the checks of a request that every method shares.
use nebula_control_plane.Prelude.{
  String, Bool, false, ◌&&◌, not, Option, none, some, if◌then◌else◌, ◌==◌, str_eq,
}
use nebula_control_plane.Queue.Types.{Candidate}
use nebula_control_plane.Enrollment.Types.{
  Request, EnrollError, bad_request, bad_signature, bad_nonce, replayed, replay_store_failed,
}
use nebula_control_plane.Enrollment.Services.{
  Config, Services, Observed, first_seen, seen_before, observe_failed, Header,
}

pub data Verified : Type 0 where
  verified : Request → String → Verified
  rejected : EnrollError → Verified

module _ {S : Type 0} (svc : Services S) (cfg : Config) where
  -- The protected header names the kind of request, and the key both as its own and as the queue's.
  abbrev pub signature_fits : Candidate → String → Header → Bool
  signature_fits c hash h =
      str_eq h.typ "ncp-request+jws" && (str_eq h.kid hash && str_eq hash c.pubkey_hash)

  abbrev pub signed : Candidate → String → Option Header → Bool
  signed c hash none = false
  signed c hash (some h) = signature_fits c hash h

  abbrev pub observed : Request → String → S × Observed → S × Verified
  observed req bytes (s, first_seen) = (s, verified req bytes)
  observed req bytes (s, seen_before) = (s, rejected replayed)
  observed req bytes (s, observe_failed) = (s, rejected replay_store_failed)

  abbrev pub verify_key : S → Candidate → Request → String → S × Verified
  verify_key s c req bytes =
      let hash = svc.digest bytes in
      if not (svc.byte_length bytes == 65 && svc.on_curve bytes)
      then (s, rejected bad_request)
      else if not (signed c hash (svc.verify_signature c.request_jws bytes))
      then (s, rejected bad_signature)
      else if not (svc.nonce_valid s req.nonce hash)
      then (s, rejected bad_nonce)
      else if not cfg.replay_guard
      then (s, verified req bytes)
      else observed req bytes (svc.observe s req.nonce)

  abbrev pub verify_decoded : S → Candidate → Request → Option String → S × Verified
  verify_decoded s c req none = (s, rejected bad_request)
  verify_decoded s c req (some bytes) = verify_key s c req bytes

  abbrev pub verify_request : S → Candidate → Option Request → S × Verified
  verify_request s c none = (s, rejected bad_request)
  verify_request s c (some req) =
      if str_eq req.request_type "enroll" && not (str_eq req.nonce "")
      then verify_decoded s c req (svc.decode_bytes req.public_key)
      else (s, rejected bad_request)

  -- `verify`.
  unfoldable pub verify : S → Candidate → S × Verified
  verify s c = verify_request s c (svc.parse_request c.request_jws)
