-- ===== src/Revocation/Bulk.antt =====
-- internal/revocation/revocation.go: what a bulk revoke does to the blocklist.
use nebula_control_plane.Prelude.{
  ℕ, ◌≤◌, ◌⊎◌, length, ltb, String, Bool, true, false, List, [], ◌∷◌, Option, none, some, ◌≡◌, refl,
  sym, ◌∙◌, arith, eq_iff, Bool-cases, Option-cases, inl, inr, ◌==◌, str_eq, find, find-count,
  find_passes, count, count-update_some, update, All, subst,
}
use nebula_control_plane.DualControl.Types.{Change}
use nebula_control_plane.Enrollment.Types.{Enrollment}
use nebula_control_plane.Revocation.Registry.{
  Revocation, RevokeError, Blocklist, Revoked, revoked, refused_with, BulkSpec, in_force,
  of_fingerprint, valid_fingerprint, reactivated, add_found, add_tx,
}
use nebula_control_plane.Revocation.Requests.{
  apply_all, requested, cons_some, bulk_operation, bulk_written, bulk_guarded, bulk_requested,
  apply_bulk,
}
use nebula_control_plane.Revocation.Guard.{blocked}

abbrev pub Blocks : String → Blocklist → Type 0
Blocks fp b = (count (blocked fp) b.rows == 0) ≡ false

count-update-ge :
    (p q : Revocation → Bool) (f : Revocation → Revocation)
    → ((x : Revocation) → q x ≡ true → p x ≡ true → p (f x) ≡ true)
    → (rows : List Revocation) → count p rows ≤ count p (update q f rows)
unfolding count update
count-update-ge p q f stays [] = omega arith
count-update-ge p q f stays (x ∷ rows) = ground (arith, stays x, count-update-ge p q f stays rows)

find-update_other :
    (p q : Revocation → Bool) (f : Revocation → Revocation)
    → ((x : Revocation) → q x ≡ true → (p x ≡ false) × (p (f x) ≡ false))
    → (rows : List Revocation) → find p (update q f rows) ≡ find p rows
unfolding find update
find-update_other p q f apart [] = refl
find-update_other p q f apart (x ∷ rows) = elim (Bool-cases (q x)) [
  | inl t ↦ rw (t, (apart x t).0, (apart x t).1) (find-update_other p q f apart rows)
  | inr t ↦ rw (t, find-update_other p q f apart rows) refl
]

fresh-Blocks :
    (fp : String) (b : Blocklist) (reason actor : String) (bulk : Bool) (now : ℕ)
    → Blocks fp (add_found b fp reason actor bulk now none).0
unfolding count
fresh-Blocks fp b reason actor bulk now = ground (arith, eq_iff fp fp)

-- Writing a fingerprint blocks it, blocks no other one less, and leaves the rows of the others.
add_tx-Blocks :
    (fp : String) (b : Blocklist) (reason actor : String) (bulk : Bool) (now : ℕ)
    → Blocks fp (add_tx b fp reason actor bulk now).0
unfolding add_tx
add_tx-Blocks fp b reason actor bulk now = elim (Option-cases (find (of_fingerprint fp) b.rows)) [
  | inl e ↦ rw e (fresh-Blocks fp b reason actor bulk now)
  | inr (r, e) ↦ elim (Bool-cases (in_force r.state)) [
    | inl a ↦
        rw (e, a)
          (find-count (of_fingerprint fp) (blocked fp) b.rows r e
            (ground (arith, find_passes (of_fingerprint fp) b.rows r e)))
    | inr a ↦
        rw (e, a)
          (ground (
            arith,
            find-count (of_fingerprint fp) (of_fingerprint fp) b.rows r e
                (find_passes (of_fingerprint fp) b.rows r e),
            count-update_some (of_fingerprint fp) (blocked fp) (reactivated reason actor bulk now)
                (λ x q. ground arith) b.rows,
          ))
  ]
]

add_found-keeps :
    (fp g : String) (b : Blocklist) (reason actor : String) (bulk : Bool) (now : ℕ)
    (r : Option Revocation)
    → Blocks g b
    → Blocks g (add_found b fp reason actor bulk now r).0
unfolding count
add_found-keeps fp g b reason actor bulk now none h = ground arith
add_found-keeps fp g b reason actor bulk now (some r) h = elim (Bool-cases (in_force r.state)) [
  | inl a ↦ rw a h
  | inr a ↦ rw a (
      ground (
        arith,
        count-update-ge (blocked g) (of_fingerprint fp) (reactivated reason actor bulk now)
            (λ x q p. ground arith) b.rows,
      ))
]

add_found-rows :
    (fp g : String) (b : Blocklist) (reason actor : String) (bulk : Bool) (now : ℕ)
    (r : Option Revocation)
    → str_eq fp g ≡ false
    → find (of_fingerprint g) (add_found b fp reason actor bulk now r).0.rows
      ≡ find (of_fingerprint g) b.rows
unfolding find
add_found-rows fp g b reason actor bulk now none other = rw other refl
add_found-rows fp g b reason actor bulk now (some r) other = elim (Bool-cases (in_force r.state)) [
  | inl a ↦ rw a refl
  | inr a ↦ rw a (
      find-update_other (of_fingerprint g) (of_fingerprint fp) (reactivated reason actor bulk now)
        (λ x q.
          let h : of_fingerprint g x ≡ false = ground (arith, eq_iff x.fingerprint fp) in (h, h))
        b.rows)
]

apply_all-keeps :
    (g : String) (b : Blocklist) (fps : List String) (reason actor : String) (now : ℕ)
    → Blocks g b
    → Blocks g (apply_all b fps reason actor now).0
unfolding apply_all add_tx
apply_all-keeps g b [] reason actor now h = h
apply_all-keeps g b (fp ∷ fps) reason actor now h =
    apply_all-keeps g (add_tx b fp reason actor true now).0 fps reason actor now
      (add_found-keeps fp g b reason actor true now _ h)

apply_all-Blocks :
    (b : Blocklist) (fps : List String) (reason actor : String) (now : ℕ)
    → All (λ g. Blocks g (apply_all b fps reason actor now).0) fps
unfolding apply_all
apply_all-Blocks b [] reason actor now = tt
apply_all-Blocks b (fp ∷ fps) reason actor now = (
  apply_all-keeps fp (add_tx b fp reason actor true now).0 fps reason actor now
      (add_tx-Blocks fp b reason actor true now),
  apply_all-Blocks (add_tx b fp reason actor true now).0 fps reason actor now,
)

apply_all-rows :
    (g : String) (b : Blocklist) (fps : List String) (reason actor : String) (now : ℕ)
    → All (λ x. str_eq x g ≡ false) fps
    → find (of_fingerprint g) (apply_all b fps reason actor now).0.rows
      ≡ find (of_fingerprint g) b.rows
unfolding apply_all add_tx
apply_all-rows g b [] reason actor now others = refl
apply_all-rows g b (fp ∷ fps) reason actor now others =
    apply_all-rows g (add_tx b fp reason actor true now).0 fps reason actor now others.1
    ∙ add_found-rows fp g b reason actor true now _ others.0

module _ {κ} (Q : String → Type κ) where
  seen-holds :
      (fp : String) (seen : List String) → All Q seen → (count (str_eq fp) seen == 0) ≡ false → Q fp
  unfolding count
  seen-holds fp [] h n = cc
  seen-holds fp (x ∷ seen) h n = elim (Bool-cases (str_eq fp x)) [
    | inl e ↦ subst Q (sym (ground (arith, eq_iff fp x))) h.0
    | inr e ↦ seen-holds fp seen h.1 (ground arith)
  ]

module _ (norm : String → String) (in_central : String → Bool) where
  -- A fingerprint is skipped or is the next that is kept.
  requested_step :
      (seen : List String) (raw : String) (raws fps : List String)
      → requested norm in_central seen (raw ∷ raws) ≡ some fps
      → (((str_eq (norm raw) "" ≡ true) ⊎ ((count (str_eq (norm raw)) seen == 0) ≡ false))
          × (requested norm in_central seen raws ≡ some fps))
        ⊎ ((rest : List String) × (norm raw ∷ rest ≡ fps)
            × (requested norm in_central (norm raw ∷ seen) raws ≡ some rest))
  unfolding requested
  requested_step seen raw raws fps e = elim (Bool-cases (str_eq (norm raw) "")) [
    | inl z ↦ inl (inl z, rw z at e)
    | inr z ↦ elim (Bool-cases (count (str_eq (norm raw)) seen == 0)) [
      | inr s ↦ inl (inr s, rw (z, s) at e)
      | inl s ↦ elim (Bool-cases (valid_fingerprint (norm raw))) [
        | inr v ↦ absurd (cc (rw (z, s, v) at e))
        | inl v ↦
            let taken : cons_some norm in_central (norm raw)
                  (requested norm in_central (norm raw ∷ seen) raws)
                ≡ some fps =
              rw (z, s, v) at e in
            elim (Option-cases (requested norm in_central (norm raw ∷ seen) raws)) [
              | inl n ↦ absurd (cc (rw n at taken))
              | inr (rest, q) ↦
                  let same : some (norm raw ∷ rest) ≡ some fps = rw q at taken in
                  inr (rest, ground arith, q)
            ]
      ]
    ]
  ]

  -- What holds of the fingerprints that are kept holds of each that was asked for.
  requested-all {κ} :
      (Q : String → Type κ) (seen raws fps : List String)
      → requested norm in_central seen raws ≡ some fps
      → All Q seen
      → All Q fps
      → All (λ raw. (str_eq (norm raw) "" ≡ true) ⊎ Q (norm raw)) raws
  requested-all Q seen [] fps e h k = tt
  requested-all Q seen (raw ∷ raws) fps e h k = elim (requested_step seen raw raws fps e) [
    | inl (inl z, q) ↦ (inl z, requested-all Q seen raws fps q h k)
    | inl (inr s, q) ↦ (inr (seen-holds Q (norm raw) seen h s), requested-all Q seen raws fps q h k)
    | inr (rest, same, q) ↦
        let both : All Q (norm raw ∷ rest) = subst (All Q) (sym same) k in
        (inr both.0, requested-all Q (norm raw ∷ seen) raws rest q (both.0, h) both.1)
  ]

  -- The fingerprints that are kept were asked for.
  requested-others :
      (g : String) (seen raws fps : List String)
      → requested norm in_central seen raws ≡ some fps
      → All (λ raw. str_eq (norm raw) g ≡ false) raws
      → All (λ x. str_eq x g ≡ false) fps
  unfolding requested
  requested-others g seen [] fps e others =
      let same : [] ≡ fps = ground arith in subst (All (λ x. str_eq x g ≡ false)) same tt
  requested-others g seen (raw ∷ raws) fps e others = elim (requested_step seen raw raws fps e) [
    | inl (s, q) ↦ requested-others g seen raws fps q others.1
    | inr (rest, same, q) ↦
        subst (All (λ x. str_eq x g ≡ false)) same
          (others.0, requested-others g (norm raw ∷ seen) raws rest q others.1)
  ]

  -- What a bulk revoke of the fingerprints does: nothing where it is refused, and otherwise it blocks each and leaves the
  -- rows of the others.
  abbrev pub Enacted : Blocklist → List String → Blocklist × Revoked → Type 0
  Enacted b raws (b', refused_with e) = b' ≡ b
  Enacted b raws (b', revoked) =
      All (λ raw. (str_eq (norm raw) "" ≡ true) ⊎ Blocks (norm raw) b') raws
      × ((g : String)
          → All (λ raw. str_eq (norm raw) g ≡ false) raws
          → find (of_fingerprint g) b'.rows ≡ find (of_fingerprint g) b.rows)

  bulk_written-Enacted :
      (b : Blocklist) (changes : List Change) (raws fps : List String) (reason actor : String)
      (now : ℕ)
      → requested norm in_central [] raws ≡ some fps
      → Enacted b raws (bulk_written norm in_central b changes fps reason actor now)
  bulk_written-Enacted b changes raws fps reason actor now e =
      elim (Bool-cases (ltb 3 (count (bulk_operation now) changes))) [
        | inl l ↦ rw l refl
        | inr l ↦ rw l (
          requested-all (λ g. Blocks g (apply_all b fps reason actor now).0) [] raws fps e tt
              (apply_all-Blocks b fps reason actor now),
          λ g others.
              apply_all-rows g b fps reason actor now (requested-others g [] raws fps e others),
        )
      ]

  bulk_guarded-Enacted :
      (commits : Bool) (b : Blocklist) (changes : List Change) (raws fps : List String)
      (reason actor : String) (now : ℕ) (r : Option RevokeError)
      → requested norm in_central [] raws ≡ some fps
      → Enacted b raws (bulk_guarded norm in_central commits b changes fps reason actor now r)
  bulk_guarded-Enacted commits b changes raws fps reason actor now (some x) e = refl
  bulk_guarded-Enacted false b changes raws fps reason actor now none e = refl
  bulk_guarded-Enacted true b changes raws fps reason actor now none e =
      bulk_written-Enacted b changes raws fps reason actor now e

  bulk_requested-Enacted :
      (reads : String → Bool) (commits : Bool) (b : Blocklist) (hosts : List Enrollment)
      (changes : List Change) (raws : List String) (reason actor : String) (now : ℕ)
      (fps : Option (List String))
      → requested norm in_central [] raws ≡ fps
      → Enacted b raws
          (bulk_requested norm in_central reads commits b hosts changes reason actor now fps)
  bulk_requested-Enacted reads commits b hosts changes raws reason actor now none e = refl
  bulk_requested-Enacted reads commits b hosts changes raws reason actor now (some fps) e =
      elim (Bool-cases (length fps == 0)) [
        | inl z ↦ rw z refl
        | inr z ↦ elim (Bool-cases (ltb 100 (length fps))) [
          | inl l ↦ rw (z, l) refl
          | inr l ↦ rw (z, l) (bulk_guarded-Enacted commits b changes raws fps reason actor now _ e)
        ]
      ]

  -- A bulk revoke that is refused leaves the blocklist as it was; one that is not blocks every fingerprint that it
  -- names, where its normal form is not empty, and leaves the first row of each fingerprint that it does not name.
  pub apply_bulk-Enacted :
      (reads : String → Bool) (commits : Bool) (b : Blocklist) (hosts : List Enrollment)
      (changes : List Change) (spec : BulkSpec) (actor : String) (now : ℕ)
      → Enacted b spec.fingerprints
          (apply_bulk norm in_central reads commits b hosts changes spec actor now)
  unfolding apply_bulk
  apply_bulk-Enacted reads commits b hosts changes spec actor now =
      bulk_requested-Enacted reads commits b hosts changes spec.fingerprints spec.reason actor now
        (requested norm in_central [] spec.fingerprints) refl
