-- ===== src/DualControl/Votes.antt =====
-- internal/dualcontrol/dualcontrol.go: the transactions of `Approve` and `Deny` keep the sign-offs sound.
use nebula_control_plane.Prelude.{
  ℕ, ◌≡◌, refl, String, Bool, true, false, ◌∷◌, some, arith, count, if◌then◌else◌, ltb, leb, ◌==◌,
  Bool-cases, Option-cases, inl, inr, All-find, str_eq, find,
}
use nebula_control_plane.DualControl.Types.{
  Result, ok, err, Change, Db, has_id, denied, voted, approval_of, approves, denies,
}
use nebula_control_plane.DualControl.Controller.{
  approve_tx, vote_on, deny_tx, deny_loaded, sign, load_pending,
}
use nebula_control_plane.DualControl.System.{System, after_vote_tx}
use nebula_control_plane.DualControl.Approvers.{has_id-eq}
use nebula_control_plane.DualControl.Sound.{
  Approved, Row, IsSound, sign-IsSound, phase-IsSound, set_state-IsSound,
}

load_pending-row :
    (db : Db) (i : ℕ) (c : Change) → load_pending db i ≡ ok c → find (has_id i) db.changes ≡ some c
unfolding load_pending
load_pending-row db i c e = elim (Option-cases (find (has_id i) db.changes)) [
  | inl f ↦ absurd (ground arith)
  | inr (x, f) ↦ ground arith
]

unless_zero : (n : ℕ) → ltb 0 n ≡ false → n ≡ 0
unless_zero n h = ground arith

module _ (q : ℕ) where
  recorded-IsSound :
      (s : System) (i : ℕ) (actor : String) (now : ℕ) (c : Change) (reached : Bool)
      → let db = sign i actor approves now s.db in
        IsSound q (record s { db = db })
        → (reached ≡ true → Approved q db.signoffs c.id)
        → IsSound q (after_vote_tx s (db, ok (c, reached)))
  recorded-IsSound s i actor now c false h a = h
  recorded-IsSound s i actor now c true h a =
      phase-IsSound q (record s { db = sign i actor approves now s.db }) (c ∷ s.claiming)
        s.committing h (a refl, h.claiming_approved) h.committing_approved

  vote_on-IsSound :
      (s : System) (i : ℕ) (actor : String) (now : ℕ) (r : Result Change)
      → load_pending s.db i ≡ r
      → IsSound q s
      → IsSound q (after_vote_tx s (vote_on s.db i actor now r))
  vote_on-IsSound s i actor now (err e) l h = h
  vote_on-IsSound s i actor now (ok c) l h =
      let (row, hit) =
        All-find (Row q s.db.next_change s.db.signoffs) (has_id i) s.db.changes c h.rows
          (load_pending-row s.db i c l) in
      let same = has_id-eq i c hit in
      elim (Bool-cases (str_eq actor c.proposer)) [
        | inl own ↦ rw own h
        | inr other ↦ elim (Bool-cases (ltb 0 (count (voted i actor) s.db.signoffs))) [
          | inl again ↦ rw (other, again) h
          | inr first ↦
              rw (other, first)
                (recorded-IsSound s i actor now c
                  (leb c.quorum (count (approval_of i) (sign i actor approves now s.db).signoffs))
                  (sign-IsSound q s i actor approves now (rw same at row.0) (unless_zero _ first) h)
                  (λ k. rw (same) (ground (arith, row.1))))
        ]
      ]

  pub approve_tx-IsSound :
      (up : Bool) (s : System) (i : ℕ) (actor : String) (now : ℕ)
      → IsSound q s
      → IsSound q (after_vote_tx s (approve_tx up s.db i actor now))
  unfolding approve_tx
  approve_tx-IsSound false s i actor now h = h
  approve_tx-IsSound true s i actor now h =
      vote_on-IsSound s i actor now (load_pending s.db i) refl h

  denied_vote-IsSound :
      (s : System) (i : ℕ) (actor : String) (now : ℕ) (c : Change)
      → load_pending s.db i ≡ ok c
      → IsSound q s
      → IsSound q (record s {
        db =
            if count (voted i actor) s.db.signoffs == 0 then sign i actor denies now s.db else s.db;
      })
  denied_vote-IsSound s i actor now c l h =
      let (row, hit) =
        All-find (Row q s.db.next_change s.db.signoffs) (has_id i) s.db.changes c h.rows
          (load_pending-row s.db i c l) in
      elim (Bool-cases (count (voted i actor) s.db.signoffs == 0)) [
        | inl e ↦
            rw e (
              sign-IsSound q s i actor denies now (rw (has_id-eq i c hit) at row.0) (ground arith)
                h)
        | inr e ↦ rw e h
      ]

  deny_loaded-IsSound :
      (s : System) (i : ℕ) (actor : String) (now : ℕ) (r : Result Change)
      → load_pending s.db i ≡ r
      → IsSound q s
      → IsSound q (record s { db = (deny_loaded s.db i actor now r).0 })
  deny_loaded-IsSound s i actor now (err e) l h = h
  deny_loaded-IsSound s i actor now (ok c) l h =
      set_state-IsSound q
        (record s {
          db =
              if count (voted i actor) s.db.signoffs == 0
              then sign i actor denies now s.db
              else s.db;
        })
        i denied now (λ k. cc) (denied_vote-IsSound s i actor now c l h)

  pub deny_tx-IsSound :
      (up : Bool) (s : System) (i : ℕ) (actor : String) (now : ℕ)
      → IsSound q s
      → IsSound q (record s { db = (deny_tx up s.db i actor now).0 })
  unfolding deny_tx
  deny_tx-IsSound false s i actor now h = h
  deny_tx-IsSound true s i actor now h =
      deny_loaded-IsSound s i actor now (load_pending s.db i) refl h
