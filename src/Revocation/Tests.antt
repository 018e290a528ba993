-- ===== src/Revocation/Tests.antt =====
-- A lighthouse, a laptop, and the certificates of both.
use nebula_control_plane.Prelude.{
  inl, String, Bool, true, false, List, [], ◌∷◌, ◌≡◌, refl, find, count, keep,
}
use nebula_control_plane.Policy.Check.{grants_reserved_group, is_reserved_group}
use nebula_control_plane.Enrollment.Types.{issued, Enrollment}
use nebula_control_plane.Enrollment.Admission.{no_evidence}
use nebula_control_plane.Revocation.Registry.{
  lift, Blocklist, BulkSpec, protect, hex_digits, add, add_tx, active_fingerprints,
}
use nebula_control_plane.Revocation.Requests.{apply_all, apply_bulk, requested, protect_all}
use nebula_control_plane.Revocation.Guard.{
  Guarded, Call, add_one, bulk_one, lift_one, call, calls, Unblocked, calls-Unblocked,
}
use nebula_control_plane.Revocation.Bulk.{Enacted, apply_bulk-Enacted}
use nebula_control_plane.Trust.Groups.{sorted_set, insert_group}

abbrev light : String
light = "aaaaaaaaaaaaaaaaaaaaaaaaaaaaaaaaaaaaaaaaaaaaaaaaaaaaaaaaaaaaaaaa"

abbrev laptop : String
laptop = "0123456789abcdef0123456789abcdef0123456789abcdef0123456789abcdef"

abbrev beacon : Enrollment
beacon = record {
  id = 1;
  enrollment_id = "e1";
  device_name = "lh1";
  pubkey_hash = "";
  pubkey = "";
  method = "token";
  join_key_id = 0;
  groups = "lighthouse" ∷ [];
  desired_groups = [];
  groups_generation = 0;
  issued_generation = 0;
  reduction_pending_enforcement = false;
  reduction_old_not_after = 0;
  sub_range = "";
  status = issued;
  cert_pem = "";
  overlay_ip = "10.0.0.1";
  fingerprint = light;
  ca_fingerprint = "";
  created_at = 0;
  decided_at = 0;
  approver = "";
  ephemeral = false;
  attest = no_evidence;
  goos = "";
  goarch = "";
}

abbrev hosts : List Enrollment
hosts =
    record beacon { id = 2; enrollment_id = "e2"; groups = "dev" ∷ []; fingerprint = laptop }
    ∷ beacon
    ∷ []

abbrev nothing_blocked : Blocklist
nothing_blocked = record { rows = []; next_id = 1; log = [] }

abbrev both : BulkSpec
both = record { fingerprints = laptop ∷ light ∷ []; reason = "stolen" }

abbrev one : BulkSpec
one = record { fingerprints = laptop ∷ "" ∷ laptop ∷ []; reason = "stolen" }

abbrev norm : String → String
norm x = x

abbrev nowhere : String → Bool
nowhere ip = false

abbrev attempts : List Call
attempts =
    add_one true true hosts light "compromised" "bob" 1
    ∷ bulk_one (λ fp. true) true hosts [] both "bob" 2
    ∷ bulk_one (λ fp. true) true hosts [] one "bob" 3
    ∷ lift_one true light "bob" 4
    ∷ []

light-Guarded : Guarded norm nowhere light hosts
unfolding find grants_reserved_group is_reserved_group
light-Guarded = (_, refl, inl refl)

calls-Unblocked_example : Unblocked light (calls norm nowhere nothing_blocked attempts)
unfolding protect find count grants_reserved_group is_reserved_group
calls-Unblocked_example =
    calls-Unblocked norm nowhere light nothing_blocked attempts
      (light-Guarded, (light-Guarded, (light-Guarded, (tt, tt)))) refl

apply_bulk-Enacted_example :
    Enacted norm nowhere nothing_blocked
      (laptop ∷ "" ∷ laptop ∷ [])
      (apply_bulk norm nowhere (λ fp. true) true nothing_blocked hosts [] one "bob" 3)
apply_bulk-Enacted_example =
    apply_bulk-Enacted norm nowhere (λ fp. true) true nothing_blocked hosts [] one "bob" 3

-- Of the four calls, the second bulk takes effect.
laptop_blocked : active_fingerprints (calls norm nowhere nothing_blocked attempts) ≡ laptop ∷ []
unfolding active_fingerprints sorted_set insert_group calls call add apply_bulk requested
    protect_all protect hex_digits add_tx apply_all lift find count keep grants_reserved_group
    is_reserved_group
laptop_blocked = refl
