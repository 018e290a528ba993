-- ===== src/Rollout/Catchup.antt =====
-- internal/rollout/rollout.go: `FloorCatchupGen`, the backstop for hosts that no rollout knows.
use nebula_control_plane.Prelude.{
  ℕ, ◌<◌, ◌≡◌, Bool, true, ◌&&◌, none, some, arith, Option-cases, inl, inr, newest-passes,
}
use nebula_control_plane.Rollout.Types.{
  Rollout, Db, Lane, State, completed, locked_active_current, current, same_lane,
}
use nebula_control_plane.Rollout.Queries.{
  floor_catchup_gen, latest_completed, current_completed_gen, is_completed,
}

is_completed-eq : (s : State) → is_completed s ≡ true → s ≡ completed
is_completed-eq s h = ground arith

latest_completed-state :
    (db : Db) (l : Lane) (r : Rollout) → latest_completed db l ≡ some r → r.state ≡ completed
unfolding latest_completed
latest_completed-state db l r e = is_completed-eq r.state (
    ground (
      arith,
      newest-passes (λ q. q.id) (λ q. same_lane q.lane l && is_completed q.state) db.rollouts r e,
    ))

-- A catch-up names the target of the newest completed rollout of the lane, is strictly above what
-- the host reports, and is given only while no rollout is active on the lane.
pub catchup_sound :
    (up floor_up : Bool) (db : Db) (l : Lane) (v g : ℕ)
    → floor_catchup_gen up floor_up db l v ≡ some g
    → (v < g)
      × (locked_active_current db l ≡ none)
      × ((r : Rollout) × (latest_completed db l ≡ some r)
          × (r.state ≡ completed)
          × (r.target_version ≡ g))
unfolding floor_catchup_gen current current_completed_gen locked_active_current
catchup_sound up floor_up db l v g e = elim (Option-cases (latest_completed db l)) [
  | inl q ↦ absurd (ground arith)
  | inr (r, q) ↦ (ground arith, ground arith, (r, q, latest_completed-state db l r q, ground arith))
]
