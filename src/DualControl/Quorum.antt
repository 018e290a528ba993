-- ===== src/DualControl/Quorum.antt =====
-- internal/dualcontrol/dualcontrol.go: the two-person rule, however calls interleave.
use nebula_control_plane.Prelude.{
  ℕ, suc, ◌≤◌, ◌≡◌, refl, String, true, List, ◌∷◌, Option, arith, length, All, All-map,
}
use nebula_control_plane.DualControl.Types.{Change, Signoff, denied, approves}
use nebula_control_plane.DualControl.Controller.{propose_tx, new_change, clamp_quorum, is_committed}
use nebula_control_plane.DualControl.System.{
  System, Step, Reach, initial, next, proposes, votes, claims, commits, denials, late_denials,
}
use nebula_control_plane.DualControl.Approvers.{
  NoRepeat, approvers, IsDistinct, approvers-IsDistinct, length-approvers,
}
use nebula_control_plane.DualControl.Sound.{
  Approved, IsSound, sign-IsSound, set_state-IsSound, unvoted, claim-IsSound, commit-IsSound,
}
use nebula_control_plane.DualControl.Votes.{approve_tx-IsSound, deny_tx-IsSound}

module _ (digest : String → String) (committers : String → Option (Change → Option String))
    (quorum : ℕ) where
  abbrev q : ℕ
  q = clamp_quorum quorum

  propose-IsSound :
      (s : System) (kind target payload proposer : String) (now : ℕ)
      → IsSound q s
      → IsSound q (record s { db = propose_tx digest quorum s.db kind target payload proposer now })
  unfolding propose_tx
  propose-IsSound s kind target payload proposer now h =
      sign-IsSound q
        (record s {
          db = record s.db {
            changes = new_change digest quorum s.db kind target payload proposer now ∷ s.db.changes;
            next_change = suc s.db.next_change;
          };
        })
        s.db.next_change proposer approves now (omega arith)
        (unvoted q s.db.next_change proposer s.db.signoffs h.voters_known)
        (record {
          rows = (
            (omega arith, refl, λ k. cc),
            All-map (λ c r. (omega (arith, r.0), r.1, r.2)) s.db.changes h.rows,
          );
          voters_known = All-map (λ v k. omega arith) s.db.signoffs h.voters_known;
          no_repeat = h.no_repeat;
          claiming_approved = h.claiming_approved;
          committing_approved = h.committing_approved;
          commits_approved = h.commits_approved;
        })

  Step-IsSound : {s t : System} → Step digest committers quorum s t → IsSound q s → IsSound q t
  Step-IsSound {s} (proposes kind target payload proposer now) h =
      propose-IsSound s kind target payload proposer now h
  Step-IsSound {s} (votes up i actor now) h = approve_tx-IsSound q up s i actor now h
  Step-IsSound {s} (claims before c rest e) h = claim-IsSound q s before c rest e h
  Step-IsSound {s} (commits before c rest writes actor now e) h =
      commit-IsSound q committers s before c rest writes actor now e h
  Step-IsSound {s} (denials up i actor now) h = deny_tx-IsSound q up s i actor now h
  Step-IsSound {s} (late_denials i now) h = set_state-IsSound q s i denied now (λ k. cc) h

  Reach-IsSound : {s : System} → Reach digest committers quorum s → IsSound q s
  Reach-IsSound initial = record {
    rows = tt;
    voters_known = tt;
    no_repeat = tt;
    claiming_approved = tt;
    committing_approved = tt;
    commits_approved = tt;
  }
  Reach-IsSound (next r st) = Step-IsSound st (Reach-IsSound r)

  -- The two-person rule for one change: at least the quorum, itself at least two, of distinct actors.
  abbrev pub TwoPerson : List Signoff → ℕ → Type 0
  TwoPerson ss i =
      (2 ≤ clamp_quorum quorum)
      × (clamp_quorum quorum ≤ length (approvers i ss))
      × IsDistinct (approvers i ss)

  Approved-TwoPerson : (ss : List Signoff) (i : ℕ) → NoRepeat ss → Approved q ss i → TwoPerson ss i
  Approved-TwoPerson ss i n a =
      (ground arith, omega (arith, length-approvers i ss, a), approvers-IsDistinct i ss n)

  -- However calls interleave, each change whose commit section has run, and each change that is
  -- recorded as committed, has been approved by at least the quorum of distinct actors, and the
  -- quorum is at least two, whatever number was configured.
  pub two_person :
      {s : System}
      → Reach digest committers quorum s
      → All (TwoPerson s.db.signoffs) s.db.commits
        × All (λ c. is_committed c.state ≡ true → TwoPerson s.db.signoffs c.id) s.db.changes
  two_person {s} r =
      let h = Reach-IsSound r in
      (
        All-map (λ i. Approved-TwoPerson s.db.signoffs i h.no_repeat) s.db.commits
            h.commits_approved,
        All-map (λ c row k. Approved-TwoPerson s.db.signoffs c.id h.no_repeat (row.2 k))
            s.db.changes h.rows,
      )
