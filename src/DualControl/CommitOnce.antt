-- ===== src/DualControl/CommitOnce.antt =====
-- internal/dualcontrol/dualcontrol.go: a change is committed at most once, however calls interleave.
use nebula_control_plane.Prelude.{ℕ, ◌≤◌, ◌<◌, ◌≡◌, refl, String, ◌++◌, Option, arith, count, ◌==◌}
use nebula_control_plane.DualControl.Types.{Change, has_id, open_with_id, denied}
use nebula_control_plane.DualControl.Controller.{propose_tx, approve_tx, sign}
use nebula_control_plane.DualControl.System.{
  System, Step, Reach, initial, next, proposes, votes, claims, commits, denials, late_denials,
}
use nebula_control_plane.DualControl.Closing.{
  IsOnce, approve_tx-SameChanges, set_state-ClosesOnly, deny_tx-ClosesOnly, after_claim-IsOnce,
  commit-IsOnce, after_vote_tx-IsOnce, closed-IsOnce,
}

module _ (digest : String → String) (committers : String → Option (Change → Option String))
    (quorum : ℕ) where
  propose-IsOnce :
      (k : ℕ) (s : System) (kind target payload proposer : String) (now : ℕ)
      → IsOnce k s
      → IsOnce k (record s { db = propose_tx digest quorum s.db kind target payload proposer now })
  unfolding propose_tx sign count
  propose-IsOnce k s kind target payload proposer now o = record {
    at_most_one = ground (arith, o.at_most_one, o.fresh_none);
    fresh_none = λ h. ground (arith, o.fresh_none);
  }

  Step-IsOnce : (k : ℕ) {s t : System} → Step digest committers quorum s t → IsOnce k s → IsOnce k t
  Step-IsOnce k {s} (proposes kind target payload proposer now) o =
      propose-IsOnce k s kind target payload proposer now o
  Step-IsOnce k {s} (votes up i actor now) o =
      let (db, r) = approve_tx up s.db i actor now in
      after_vote_tx-IsOnce k s db r (approve_tx-SameChanges up s.db i actor now) o
  Step-IsOnce k {s} (claims before c rest e) o = after_claim-IsOnce k s c (before ++ rest) o
  Step-IsOnce k {s} (commits before c rest writes actor now e) o =
      commit-IsOnce committers k s before c rest writes actor now e o
  Step-IsOnce k {s} (denials up i actor now) o =
      closed-IsOnce k s _ (deny_tx-ClosesOnly up s.db i actor now) o
  Step-IsOnce k {s} (late_denials i now) o =
      closed-IsOnce k s _ (set_state-ClosesOnly i denied now s.db refl) o

  Reach-IsOnce : (k : ℕ) {s : System} → Reach digest committers quorum s → IsOnce k s
  unfolding count
  Reach-IsOnce k initial = record { at_most_one = omega arith; fresh_none = λ h. refl }
  Reach-IsOnce k (next r st) = Step-IsOnce k st (Reach-IsOnce k r)

  -- However the statements of proposals, approvals and denials of several processes interleave, the
  -- commit section of a change runs at most once, also when writes are lost, processes stop, and a
  -- denial overwrites a state that has moved on.
  pub commit_once :
      {s : System}
      → Reach digest committers quorum s
      → (i : ℕ) → count (λ k. k == i) s.db.commits ≤ 1
  commit_once r i = omega (arith, (Reach-IsOnce i r).at_most_one)

  -- A change that is still pending has not run its commit section, and no process is in it.
  pub pending_uncommitted :
      {s : System}
      → Reach digest committers quorum s
      → (i : ℕ) → 0 < count (open_with_id i) s.db.changes
      → (count (λ k. k == i) s.db.commits ≡ 0) × (count (has_id i) s.committing ≡ 0)
  pending_uncommitted r i h =
      (omega (arith, (Reach-IsOnce i r).at_most_one), omega (arith, (Reach-IsOnce i r).at_most_one))
