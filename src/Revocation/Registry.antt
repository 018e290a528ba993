-- ===== src/Revocation/Registry.antt =====
-- internal/revocation/revocation.go: the table revocations and its operations. The normal form of a
-- fingerprint (`strings.ToLower`, `strings.TrimSpace`) and the test whether an address lies in the
-- central block are parameters; rows of enrollments stand newest first.
use Prim.Native.Char.{Char, code}
use Prim.Native.String.{[] as nil, ◌∷◌ as char_cons}
use nebula_control_plane.Prelude.{
  ℕ, suc, ◌-◌, String, Bool, true, false, ◌&&◌, ◌||◌, not, List, ◌∷◌, Option, none, some,
  if◌then◌else◌, ltb, leb, ◌==◌, str_eq, find, keep, update, map,
}
use nebula_control_plane.Policy.Check.{grants_reserved_group}
use nebula_control_plane.Enrollment.Types.{Enrollment, is_issued}
use nebula_control_plane.Trust.Groups.{sorted_set}

pub data RevocationState : Type 0 where
  active lifted : RevocationState

abbrev pub in_force : RevocationState → Bool
in_force active = true
in_force lifted = false

-- `Row`.
pub record Revocation : Type 0 where
  pub id : ℕ
  pub fingerprint : String
  pub reason : String
  pub bulk : Bool
  pub state : RevocationState
  pub created_by : String
  pub created_at : ℕ
  pub updated_at : ℕ

pub data RevokeError : Type 0 where
  no_fingerprint invalid_fingerprint already_active control_plane_protected : RevokeError
  bulk_empty bulk_too_large bulk_rate_limited revoke_db_error : RevokeError

-- The calls of the audit hook: the actor and the fingerprint, or the numbers of a bulk.
pub data AuditCall : Type 0 where
  add_event lift_event : String → String → AuditCall
  bulk_event : String → ℕ → ℕ → AuditCall

pub record Blocklist : Type 0 where
  pub rows : List Revocation
  pub next_id : ℕ
  pub log : List AuditCall

pub data Revoked : Type 0 where
  revoked : Revoked
  refused_with : RevokeError → Revoked

-- `BulkRevokeSpec`.
pub record BulkSpec : Type 0 where
  pub fingerprints : List String
  pub reason : String

abbrev pub of_fingerprint : String → Revocation → Bool
of_fingerprint fp r = str_eq r.fingerprint fp

abbrev pub is_hex : Char → Bool
is_hex c = (leb 48 (code c) && leb (code c) 57) || (leb 97 (code c) && leb (code c) 102)

-- Of the given length, and hexadecimal throughout.
unfoldable pub hex_digits : ℕ → String → Bool
hex_digits n nil = n == 0
hex_digits n (char_cons c s) = let rest = hex_digits (n - 1) s in ltb 0 n && (is_hex c && rest)

-- `validFingerprint`.
abbrev pub valid_fingerprint : String → Bool
valid_fingerprint fp = hex_digits 64 fp

abbrev pub enrolled_with : String → Enrollment → Bool
enrolled_with fp e = str_eq e.fingerprint fp && is_issued e.status

module _ (in_central : String → Bool) where
  abbrev pub protected_row : Option Enrollment → Option RevokeError
  protected_row none = none
  protected_row (some e) =
      if grants_reserved_group e.groups
      then some control_plane_protected
      else if in_central e.overlay_ip
      then some control_plane_protected
      else none

  -- `protectControlPlane`: a query that fails refuses.
  unfoldable pub protect : Bool → List Enrollment → String → Option RevokeError
  protect reads hosts fp =
      if not reads then some revoke_db_error else protected_row (find (enrolled_with fp) hosts)

abbrev pub fresh_row : ℕ → String → String → String → Bool → ℕ → Revocation
fresh_row i fp reason actor bulk now = record {
  id = i;
  fingerprint = fp;
  reason = reason;
  bulk = bulk;
  state = active;
  created_by = actor;
  created_at = now;
  updated_at = now;
}

abbrev pub reactivated : String → String → Bool → ℕ → Revocation → Revocation
reactivated reason actor bulk now r = record r {
  state = active;
  reason = reason;
  bulk = bulk;
  created_by = actor;
  updated_at = now;
}

abbrev pub add_found :
    Blocklist → String → String → String → Bool → ℕ → Option Revocation → Blocklist × Bool
add_found b fp reason actor bulk now none = (
  record b {
    rows = fresh_row b.next_id fp reason actor bulk now ∷ b.rows;
    next_id = suc b.next_id;
  },
  true,
)
add_found b fp reason actor bulk now (some r) = if in_force r.state then (b, false) else (
  record b { rows = update (of_fingerprint fp) (reactivated reason actor bulk now) b.rows },
  true,
)

-- `addTx`; false where the fingerprint is already active.
unfoldable pub add_tx : Blocklist → String → String → String → Bool → ℕ → Blocklist × Bool
add_tx b fp reason actor bulk now =
    add_found b fp reason actor bulk now (find (of_fingerprint fp) b.rows)

abbrev pub logged : Blocklist → AuditCall → Blocklist
logged b a = record b { log = a ∷ b.log }

-- `add`; the transaction commits, or nothing is written.
abbrev pub add_committed : Blocklist → String → String → Blocklist × Bool → Blocklist × Revoked
add_committed b fp actor (b', false) = (b, refused_with already_active)
add_committed b fp actor (b', true) = (logged b' (add_event actor fp), revoked)

abbrev pub add_guarded :
    Bool → Blocklist → String → String → String → ℕ → Option RevokeError → Blocklist × Revoked
add_guarded commits b fp reason actor now (some e) = (b, refused_with e)
add_guarded commits b fp reason actor now none =
    if not commits
    then (b, refused_with revoke_db_error)
    else add_committed b fp actor (add_tx b fp reason actor false now)

abbrev pub lift_row : ℕ → Revocation → Revocation
lift_row now r = record r { state = lifted; updated_at = now }

abbrev pub lift_found : Blocklist → String → String → ℕ → Option Revocation → Blocklist
lift_found b fp actor now none = b
lift_found b fp actor now (some r) =
    if not (in_force r.state)
    then b
    else logged (record b { rows = update (of_fingerprint fp) (lift_row now) b.rows })
        (lift_event actor fp)

-- `ActiveFingerprints`.
unfoldable pub active_fingerprints : Blocklist → List String
active_fingerprints b = sorted_set (map (λ r. r.fingerprint) (keep (λ r. in_force r.state) b.rows))

module _ (norm : String → String) (in_central : String → Bool) where
  -- `Add`.
  unfoldable pub add :
      Bool → Bool → Blocklist → List Enrollment → String → String → String → ℕ → Blocklist × Revoked
  add reads commits b hosts fingerprint reason actor now =
      let fp = norm fingerprint in
      if str_eq fp ""
      then (b, refused_with no_fingerprint)
      else if not (valid_fingerprint fp)
      then (b, refused_with invalid_fingerprint)
      else add_guarded commits b fp reason actor now (protect in_central reads hosts fp)

  -- `Lift`.
  unfoldable pub lift : Bool → Blocklist → String → String → ℕ → Blocklist × Revoked
  lift commits b fingerprint actor now =
      let fp = norm fingerprint in
      if str_eq fp ""
      then (b, refused_with no_fingerprint)
      else if not commits
      then (b, refused_with revoke_db_error)
      else (lift_found b fp actor now (find (of_fingerprint fp) b.rows), revoked)
