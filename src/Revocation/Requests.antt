-- ===== src/Revocation/Requests.antt =====
-- internal/revocation/revocation.go: `applyBulk`.
use nebula_control_plane.Prelude.{
  ℕ, suc, ◌+◌, ◌*◌, String, Bool, true, false, ◌&&◌, ◌||◌, not, List, [], ◌∷◌, Option, none, some,
  if◌then◌else◌, ltb, leb, ◌==◌, str_eq, length, count,
}
use nebula_control_plane.DualControl.Types.{
  State, pending, committing, committed, denied, failed, Change,
}
use nebula_control_plane.Enrollment.Types.{Enrollment}
use nebula_control_plane.Revocation.Registry.{
  valid_fingerprint, protect, add_tx, logged, RevokeError, Blocklist, Revoked, BulkSpec,
  invalid_fingerprint, bulk_empty, bulk_too_large, bulk_rate_limited, revoke_db_error, bulk_event,
  revoked, refused_with,
}

-- The changes of dual control that count against the rate.
abbrev pub in_commit : State → Bool
in_commit pending = false
in_commit committing = true
in_commit committed = true
in_commit denied = false
in_commit failed = false

abbrev pub bulk_operation : ℕ → Change → Bool
bulk_operation now c =
    str_eq c.kind "revocation.bulk-revoke"
    && (in_commit c.state && leb now (c.created_at + 3600 * 1000000000))

-- The writes of a bulk, and how many took effect.
unfoldable pub apply_all : Blocklist → List String → String → String → ℕ → Blocklist × ℕ
apply_all b [] reason actor now = (b, 0)
apply_all b (fp ∷ fps) reason actor now =
    let (b', fresh) = add_tx b fp reason actor true now in
    let (after, applied) = apply_all b' fps reason actor now in
    (after, (if fresh then suc applied else applied))

abbrev pub bulk_applied : List String → String → Blocklist × ℕ → Blocklist × Revoked
bulk_applied fps actor (b', applied) = (logged b' (bulk_event actor applied (length fps)), revoked)

module _ (norm : String → String) (in_central : String → Bool) where
  abbrev pub cons_some : String → Option (List String) → Option (List String)
  cons_some fp none = none
  cons_some fp (some fps) = some (fp ∷ fps)

  -- The fingerprints without repetition, in order; none where one is malformed.
  unfoldable pub requested : List String → List String → Option (List String)
  requested seen [] = some []
  requested seen (raw ∷ raws) =
      let fp = norm raw in
      let skipped = requested seen raws in
      let taken = requested (fp ∷ seen) raws in
      if str_eq fp "" || not (count (str_eq fp) seen == 0)
      then skipped
      else if not (valid_fingerprint fp)
      then none
      else cons_some fp taken

  -- The guard, for every fingerprint.
  unfoldable pub protect_all : (String → Bool) → List Enrollment → List String → Option RevokeError
  protect_all reads hosts [] = none
  protect_all reads hosts (fp ∷ fps) =
      let rest = protect_all reads hosts fps in
      elim (protect in_central (reads fp) hosts fp) [ none ↦ rest | some e ↦ some e ]

  abbrev pub bulk_written :
      Blocklist → List Change → List String → String → String → ℕ → Blocklist × Revoked
  bulk_written b changes fps reason actor now =
      if ltb 3 (count (bulk_operation now) changes)
      then (b, refused_with bulk_rate_limited)
      else bulk_applied fps actor (apply_all b fps reason actor now)

  abbrev pub bulk_guarded :
      Bool
      → Blocklist
      → List Change
      → List String
      → String
      → String
      → ℕ
      → Option RevokeError
      → Blocklist × Revoked
  bulk_guarded commits b changes fps reason actor now (some e) = (b, refused_with e)
  bulk_guarded commits b changes fps reason actor now none =
      if not commits
      then (b, refused_with revoke_db_error)
      else bulk_written b changes fps reason actor now

  abbrev pub bulk_requested :
      (String → Bool)
      → Bool
      → Blocklist
      → List Enrollment
      → List Change
      → String
      → String
      → ℕ
      → Option (List String)
      → Blocklist × Revoked
  bulk_requested reads commits b hosts changes reason actor now none =
      (b, refused_with invalid_fingerprint)
  bulk_requested reads commits b hosts changes reason actor now (some fps) =
      if length fps == 0
      then (b, refused_with bulk_empty)
      else if ltb 100 (length fps)
      then (b, refused_with bulk_too_large)
      else bulk_guarded commits b changes fps reason actor now (protect_all reads hosts fps)

  -- `applyBulk`; the flags say which guards are read and whether the transaction commits.
  unfoldable pub apply_bulk :
      (String → Bool)
      → Bool
      → Blocklist
      → List Enrollment
      → List Change
      → BulkSpec
      → String
      → ℕ
      → Blocklist × Revoked
  apply_bulk reads commits b hosts changes spec actor now =
      bulk_requested reads commits b hosts changes spec.reason actor now
        (requested [] spec.fingerprints)
