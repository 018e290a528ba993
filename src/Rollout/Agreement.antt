-- ===== src/Rollout/Agreement.antt =====
-- internal/rollout/rollout.go: the commands that drive a host, and the generations that its bundle
-- is stamped with.
use nebula_control_plane.Prelude.{
  ℕ, ◌≤◌, ◌≡◌, ◌≢◌, String, Bool, true, none, some, arith, if◌then◌else◌, ◌==◌,
}
use nebula_control_plane.Rollout.Types.{
  Rollout, Host, Db, Lane, policy, blocklist, rolled_back, aborted, latest, current,
}
use nebula_control_plane.Rollout.Queries.{
  apply_bundle, member, command_for_lane, command_of, gen_for_lane, records_revert,
}

module _ (db : Db) (l : Lane) (ip : String) (r : Rollout) (h : Host)
    (on_lane : latest db l ≡ some r) (in_rollout : member db r.id ip ≡ some h) where
  -- On the lanes of the binaries, a member of the lane's current rollout whose wave has been opened is
  -- told to apply exactly the generation that its bundle is stamped with, and is told nothing once
  -- it reports that generation: while the rollout is active, completed or rolled back.
  pub command-gen :
      (writes : Bool) (v now g : ℕ)
      → l ≢ blocklist
      → l ≢ policy
      → r.state ≢ aborted
      → h.wave ≤ r.active_wave
      → gen_for_lane true true db l ip ≡ some g
      → (command_for_lane true true writes db l ip v now).1
        ≡ (if v == g then none else some (apply_bundle g))
  unfolding command_for_lane gen_for_lane current command_of
  command-gen writes v now g lane binary alive touched e = ground arith

  -- The blocklist lane never reverts: every command on it names the target, and once its rollout is
  -- rolled back there is no command and no host is recorded as reverted.
  pub blocklist_never_reverts :
      (writes : Bool) (v now t : ℕ)
      → l ≡ blocklist
      → ((command_for_lane true true writes db l ip v now).1 ≡ some (apply_bundle t)
          → t ≡ r.target_version)
        × (r.state ≡ rolled_back → command_for_lane true true writes db l ip v now ≡ (db, none))
  unfolding command_for_lane current command_of records_revert
  blocklist_never_reverts writes v now t e = ((λ k. ground arith), λ k. ground arith)
