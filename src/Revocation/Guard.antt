-- ===== src/Revocation/Guard.antt =====
-- internal/revocation/revocation.go: the hosts that the blocklist leaves alone.
use nebula_control_plane.Prelude.{
  if-P, ltb, ℕ, String, Bool, true, false, ◌⊎◌, ◌&&◌, not, List, [], ◌∷◌, Option, none, some, ◌≡◌,
  refl, length, arith, eq_iff, Bool-cases, Option-cases, inl, inr, ◌==◌, str_eq, find, count, All,
  count-update-le, subst,
}
use nebula_control_plane.DualControl.Types.{Change}
use nebula_control_plane.Policy.Check.{grants_reserved_group}
use nebula_control_plane.Enrollment.Types.{Enrollment}
use nebula_control_plane.Revocation.Registry.{
  Revocation, RevokeError, refused_with, revoked, revoke_db_error, bulk_empty, bulk_too_large,
  no_fingerprint, invalid_fingerprint, bulk_rate_limited, valid_fingerprint,
  control_plane_protected, enrolled_with, Blocklist, Revoked, BulkSpec, in_force, of_fingerprint,
  protect, reactivated, add_found, add_tx, add_guarded, add_committed, lift_row, lift_found, add,
  lift,
}
use nebula_control_plane.Revocation.Requests.{
  bulk_operation, bulk_applied, apply_all, requested, protect_all, bulk_guarded, bulk_requested,
  apply_bulk,
}

-- A row by which the fleet refuses the fingerprint.
abbrev pub blocked : String → Revocation → Bool
blocked fp r = str_eq r.fingerprint fp && in_force r.state

abbrev pub Unblocked : String → Blocklist → Type 0
Unblocked fp b = count (blocked fp) b.rows ≡ 0

-- Writing one fingerprint leaves another.
add_found-Unblocked :
    (fp g : String) (b : Blocklist) (reason actor : String) (bulk : Bool) (now : ℕ)
    (r : Option Revocation)
    → str_eq g fp ≡ false
    → Unblocked fp b
    → Unblocked fp (add_found b g reason actor bulk now r).0
unfolding count
add_found-Unblocked fp g b reason actor bulk now none other u = ground arith
add_found-Unblocked fp g b reason actor bulk now (some r) other u =
    elim (Bool-cases (in_force r.state)) [
      | inl a ↦ rw a u
      | inr a ↦ rw a (
          omega (
            arith,
            u,
            count-update-le (blocked fp) (of_fingerprint g) (reactivated reason actor bulk now)
                (λ x q p. absurd (ground (arith, eq_iff x.fingerprint g))) b.rows,
          ))
    ]

add_tx-Unblocked :
    (fp g : String) (b : Blocklist) (reason actor : String) (bulk : Bool) (now : ℕ)
    → str_eq g fp ≡ false
    → Unblocked fp b
    → Unblocked fp (add_tx b g reason actor bulk now).0
unfolding add_tx
add_tx-Unblocked fp g b reason actor bulk now = add_found-Unblocked fp g b reason actor bulk now _

apply_all-Unblocked :
    (fp : String) (b : Blocklist) (fps : List String) (reason actor : String) (now : ℕ)
    → All (λ g. str_eq g fp ≡ false) fps
    → Unblocked fp b
    → Unblocked fp (apply_all b fps reason actor now).0
unfolding apply_all
apply_all-Unblocked fp b [] reason actor now others u = u
apply_all-Unblocked fp b (g ∷ fps) reason actor now others u =
    apply_all-Unblocked fp (add_tx b g reason actor true now).0 fps reason actor now others.1
      (add_tx-Unblocked fp g b reason actor true now others.0 u)

-- The calls of the blocklist, each with the enrollments and the changes that it reads.
pub data Call : Type 0 where
  add_one : Bool → Bool → List Enrollment → String → String → String → ℕ → Call
  bulk_one : (String → Bool) → Bool → List Enrollment → List Change → BulkSpec → String → ℕ → Call
  lift_one : Bool → String → String → ℕ → Call

module _ (norm : String → String) (in_central : String → Bool) where
  -- The latest issued enrollment with the fingerprint has a reserved group, or an address in the
  -- central block.
  abbrev pub Guarded : String → List Enrollment → Type 0
  Guarded fp hosts =
      (e : Enrollment) × (find (enrolled_with fp) hosts ≡ some e)
      × ((grants_reserved_group e.groups ≡ true) ⊎ (in_central e.overlay_ip ≡ true))

  Guarded-protect :
      (fp : String) (hosts : List Enrollment)
      → Guarded fp hosts
      → protect in_central true hosts fp ≡ some control_plane_protected
  unfolding protect
  Guarded-protect fp hosts (e, found, inl reserved) = rw (found, reserved) refl
  Guarded-protect fp hosts (e, found, inr central) = rw found (ground arith)

  passes_other :
      (fp g : String) (reads : Bool) (hosts : List Enrollment)
      → Guarded fp hosts
      → protect in_central reads hosts g ≡ none
      → str_eq g fp ≡ false
  unfolding protect
  passes_other fp g false hosts d p = cc
  passes_other fp g true hosts d p = elim (Bool-cases (str_eq g fp)) [
    | inr other ↦ other
    | inl same ↦
        let e : g ≡ fp = ground (arith, eq_iff g fp) in
        let guarded = Guarded-protect fp hosts d in
        absurd (cc (subst (λ x. protect in_central true hosts x ≡ none) e p, guarded))
  ]

  protect_all-others :
      (fp : String) (reads : String → Bool) (hosts : List Enrollment) (fps : List String)
      → Guarded fp hosts
      → protect_all norm in_central reads hosts fps ≡ none
      → All (λ g. str_eq g fp ≡ false) fps
  unfolding protect_all
  protect_all-others fp reads hosts [] d p = tt
  protect_all-others fp reads hosts (g ∷ fps) d p =
      elim (Option-cases (protect in_central (reads g) hosts g)) [
        | inl e ↦ (
          passes_other fp g (reads g) hosts d e,
          protect_all-others fp reads hosts fps d (rw (e, protect_all) at p),
        )
        | inr (r, e) ↦ absurd (cc (rw (e, protect_all) at p))
      ]

  add_committed-Unblocked :
      (fp g actor : String) (b : Blocklist) (r : Blocklist × Bool)
      → Unblocked fp b
      → Unblocked fp r.0
      → Unblocked fp (add_committed b g actor r).0
  add_committed-Unblocked fp g actor b (b', false) u v = u
  add_committed-Unblocked fp g actor b (b', true) u v = v

  add_guarded-Unblocked :
      (fp g reason actor : String) (b : Blocklist) (commits : Bool) (now : ℕ)
      (e : Option RevokeError)
      → (e ≡ none → str_eq g fp ≡ false)
      → Unblocked fp b
      → Unblocked fp (add_guarded commits b g reason actor now e).0
  add_guarded-Unblocked fp g reason actor b commits now (some e) other u = u
  add_guarded-Unblocked fp g reason actor b false now none other u = u
  add_guarded-Unblocked fp g reason actor b true now none other u =
      add_committed-Unblocked fp g actor b _ u
        (add_tx-Unblocked fp g b reason actor false now (other refl) u)

  add-Unblocked :
      (fp : String) (reads commits : Bool) (b : Blocklist) (hosts : List Enrollment)
      (raw reason actor : String) (now : ℕ)
      → Guarded fp hosts
      → Unblocked fp b
      → Unblocked fp (add norm in_central reads commits b hosts raw reason actor now).0
  unfolding add
  add-Unblocked fp reads commits b hosts raw reason actor now d u =
      let g = norm raw in
      if-P (λ (r : Blocklist × Revoked). Unblocked fp r.0) (str_eq g "")
        (b, refused_with no_fingerprint) _ u
        (if-P (λ (r : Blocklist × Revoked). Unblocked fp r.0) (not (valid_fingerprint g))
          (b, refused_with invalid_fingerprint)
          (add_guarded commits b g reason actor now (protect in_central reads hosts g)) u
          (add_guarded-Unblocked fp g reason actor b commits now _
            (λ e. passes_other fp g reads hosts d e) u))

  lift_found-Unblocked :
      (fp g actor : String) (b : Blocklist) (now : ℕ) (r : Option Revocation)
      → Unblocked fp b
      → Unblocked fp (lift_found b g actor now r)
  lift_found-Unblocked fp g actor b now none u = u
  lift_found-Unblocked fp g actor b now (some r) u = elim (Bool-cases (in_force r.state)) [
    | inr a ↦ rw a u
    | inl a ↦ rw a (
        omega (
          arith,
          u,
          count-update-le (blocked fp) (of_fingerprint g) (lift_row now)
              (λ x q p. absurd (ground arith)) b.rows,
        ))
  ]

  bulk_guarded-Unblocked :
      (fp : String) (commits : Bool) (b : Blocklist) (changes : List Change) (fps : List String)
      (reason actor : String) (now : ℕ) (e : Option RevokeError)
      → (e ≡ none → All (λ g. str_eq g fp ≡ false) fps)
      → Unblocked fp b
      → Unblocked fp (bulk_guarded norm in_central commits b changes fps reason actor now e).0
  bulk_guarded-Unblocked fp commits b changes fps reason actor now (some e) others u = u
  bulk_guarded-Unblocked fp false b changes fps reason actor now none others u = u
  bulk_guarded-Unblocked fp true b changes fps reason actor now none others u =
      if-P (λ (r : Blocklist × Revoked). Unblocked fp r.0)
        (ltb 3 (count (bulk_operation now) changes)) (b, refused_with bulk_rate_limited)
        (bulk_applied fps actor (apply_all b fps reason actor now)) u
        (apply_all-Unblocked fp b fps reason actor now (others refl) u)

  bulk_requested-Unblocked :
      (fp : String) (reads : String → Bool) (commits : Bool) (b : Blocklist)
      (hosts : List Enrollment) (changes : List Change) (reason actor : String) (now : ℕ)
      (fps : Option (List String))
      → Guarded fp hosts
      → Unblocked fp b
      → Unblocked fp
          (bulk_requested norm in_central reads commits b hosts changes reason actor now fps).0
  bulk_requested-Unblocked fp reads commits b hosts changes reason actor now none d u = u
  bulk_requested-Unblocked fp reads commits b hosts changes reason actor now (some fps) d u =
      if-P (λ (r : Blocklist × Revoked). Unblocked fp r.0) (length fps == 0)
        (b, refused_with bulk_empty) _ u
        (if-P (λ (r : Blocklist × Revoked). Unblocked fp r.0) (ltb 100 (length fps))
          (b, refused_with bulk_too_large)
          (bulk_guarded norm in_central commits b changes fps reason actor now
            (protect_all norm in_central reads hosts fps))
          u
          (bulk_guarded-Unblocked fp commits b changes fps reason actor now _
            (λ e. protect_all-others fp reads hosts fps d e) u))

  unfoldable pub call : Blocklist → Call → Blocklist
  call b (add_one reads commits hosts raw reason actor now) =
      (add norm in_central reads commits b hosts raw reason actor now).0
  call b (bulk_one reads commits hosts changes spec actor now) =
      (apply_bulk norm in_central reads commits b hosts changes spec actor now).0
  call b (lift_one commits raw actor now) = (lift norm in_central commits b raw actor now).0

  unfoldable pub calls : Blocklist → List Call → Blocklist
  calls b [] = b
  calls b (c ∷ rest) = calls (call b c) rest

  -- The host of the fingerprint is one that the guard refuses, as the call sees it.
  abbrev pub Refuses : String → Call → Type 0
  Refuses fp (add_one reads commits hosts raw reason actor now) = Guarded fp hosts
  Refuses fp (bulk_one reads commits hosts changes spec actor now) = Guarded fp hosts
  Refuses fp (lift_one commits raw actor now) = Unit

  call-Unblocked :
      (fp : String) (b : Blocklist) (c : Call)
      → Refuses fp c
      → Unblocked fp b
      → Unblocked fp (call b c)
  unfolding call apply_bulk lift
  call-Unblocked fp b (add_one reads commits hosts raw reason actor now) d u =
      add-Unblocked fp reads commits b hosts raw reason actor now d u
  call-Unblocked fp b (bulk_one reads commits hosts changes spec actor now) d u =
      bulk_requested-Unblocked fp reads commits b hosts changes spec.reason actor now
        (requested norm in_central [] spec.fingerprints) d u
  call-Unblocked fp b (lift_one commits raw actor now) d u =
      let g = norm raw in
      if-P (λ (r : Blocklist × Revoked). Unblocked fp r.0) (str_eq g "")
        (b, refused_with no_fingerprint) _ u
        (if-P (λ (r : Blocklist × Revoked). Unblocked fp r.0) (not commits)
          (b, refused_with revoke_db_error)
          (lift_found b g actor now (find (of_fingerprint g) b.rows), revoked) u
          (lift_found-Unblocked fp g actor b now _ u))

  -- A fingerprint that is not blocked, and whose latest issued enrollment has a reserved group or an address
  -- in the central block whenever Add or a bulk reads it, is not blocked after any sequence of Add, bulk and Lift.
  pub calls-Unblocked :
      (fp : String) (b : Blocklist) (cs : List Call)
      → All (Refuses fp) cs
      → Unblocked fp b
      → Unblocked fp (calls b cs)
  unfolding calls
  calls-Unblocked fp b [] d u = u
  calls-Unblocked fp b (c ∷ rest) d u =
      calls-Unblocked fp (call b c) rest d.1 (call-Unblocked fp b c d.0 u)
