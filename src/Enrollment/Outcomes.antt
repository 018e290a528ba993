-- ===== src/Enrollment/Outcomes.antt =====
-- internal/enrollment/enrollment.go: how a call ends.
use nebula_control_plane.Prelude.{
  ◌⊎◌, Bool, ◌&&◌, not, List, [], ◌∷◌, ◌≡◌, ◌==◌, str_eq, if◌then◌else◌, count,
}
use nebula_control_plane.Enrollment.Types.{
  issued, is_pending, Enrollment, bundle_failed, db_failed, not_pending, Processed, done, failed,
  Flight, World,
}
use nebula_control_plane.Enrollment.Services.{Services}

-- What an approval makes of a pending row: it is issued with the certificate of the flight, and keeps
-- who it belongs to.
abbrev pub Certified : Flight → Enrollment → Enrollment → Type 0
Certified fl x y =
    (y.status ≡ issued)
    × (y.cert_pem ≡ fl.issuance.cert_pem)
    × (y.overlay_ip ≡ fl.issuance.ip)
    × (y.fingerprint ≡ fl.issuance.fingerprint)
    × (y.ca_fingerprint ≡ fl.issuance.ca_fingerprint)
    × (y.approver ≡ fl.approver)
    × (y.ephemeral ≡ fl.ephemeral)
    × (y.enrollment_id ≡ x.enrollment_id)
    × (y.device_name ≡ x.device_name)
    × (y.pubkey ≡ x.pubkey)
    × (y.groups ≡ x.groups)

-- The rows before and after: the pending rows of the enrollment are certified, all others stay.
abbrev pub CertifiedRows : Flight → List Enrollment → List Enrollment → Type 0
CertifiedRows fl [] [] = Unit
CertifiedRows fl [] (y ∷ ys) = ⊥
CertifiedRows fl (x ∷ xs) [] = ⊥
CertifiedRows fl (x ∷ xs) (y ∷ ys) =
    (if str_eq x.enrollment_id fl.row.enrollment_id && is_pending x.status
      then Certified fl x y
      else y ≡ x)
    × CertifiedRows fl xs ys

-- Whether the claim is carried out and finds the row still pending.
abbrev pub claims_row : {S : Type 0} → Bool → World S → Flight → Bool
claims_row claims w fl =
    claims
    && not (
        count (λ x. str_eq x.enrollment_id fl.row.enrollment_id && is_pending x.status)
          w.tables.rows
        == 0)

-- What the approver is told of a certificate that was recorded.
abbrev pub Told : Flight → Processed → Type 0
Told fl r =
    (r ≡ failed bundle_failed)
    ⊎ (r
        ≡ done (record {
          enrollment_id = fl.row.enrollment_id;
          status = issued;
          overlay_ip = fl.issuance.ip;
          cert_pem = fl.issuance.cert_pem;
        }))

abbrev pub Concluded :
    {S : Type 0} → Services S → Bool → World S → Flight → World S × Processed → Type 0
Concluded svc claims w fl r =
    if claims_row claims w fl
    then CertifiedRows fl w.tables.rows r.0.tables.rows × Told fl r.1
    else (r.0.tables ≡ w.tables)
      × (r.0.services ≡ svc.release w.services fl.issuance.ip)
      × ((r.1 ≡ failed db_failed) ⊎ (r.1 ≡ failed not_pending))
