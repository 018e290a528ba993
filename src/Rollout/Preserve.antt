-- ===== src/Rollout/Preserve.antt =====
-- internal/rollout/rollout.go: each operation of the engine keeps the invariant of the table.
use nebula_control_plane.Prelude.{
  ℕ, ◌+◌, ◌≡◌, refl, String, Bool, true, false, none, some, arith, Bool-cases, Option-cases, inl,
  inr, length, ◌==◌,
}
use nebula_control_plane.Rollout.Types.{
  Rollout, Db, Lane, latest, locked_active_current, Trigger, auto_rollback, operator_aborted, Read,
  found, absent, broken, Host,
}
use nebula_control_plane.Rollout.Evaluate.{
  evaluate_lane, advance_tx, rollback_tx, judge, apply, Decision, advance, roll_back, hold,
  is_last_wave, complete, widen, freeze,
}
use nebula_control_plane.Rollout.Operations.{
  StartConfig, start, start_in, create, abort_lane, lane_or_policy,
}
use nebula_control_plane.Rollout.Queries.{
  command_for_lane, command_for_member, command_in, mark_reverted, records_revert, member,
}
use nebula_control_plane.Rollout.Types.{current, read}
use nebula_control_plane.Rollout.Invariant.{Inv, lane-Idle, rewrite-Inv}

advance_tx-Inv :
    (db : Db) (l : Lane) (r : Rollout) (now : ℕ)
    → Inv db
    → locked_active_current db l ≡ some r
    → Inv (advance_tx db r now)
unfolding advance_tx
advance_tx-Inv db l r now v e = elim (Bool-cases (is_last_wave db r now)) [
  | inl h ↦
      rw h
        (rewrite-Inv db _ l r (complete now) (λ q. refl) (λ q. refl) (λ q k. cc) v e (refl, refl))
  | inr h ↦ rw h (
      rewrite-Inv db _ l r (widen (r.active_wave + 1) now) (λ q. refl) (λ q. refl) (λ q k. cc) v e
        (refl, refl))
]

rollback_tx-Inv :
    (db : Db) (l : Lane) (r : Rollout) (now : ℕ) (why : Trigger)
    → Inv db
    → locked_active_current db l ≡ some r
    → Inv (rollback_tx db r now why)
unfolding rollback_tx
rollback_tx-Inv db l r now why v e =
    rewrite-Inv db _ l r (freeze now (auto_rollback why)) (λ q. refl) (λ q. refl) (λ q k. cc) v e
      (refl, refl)

apply-Inv :
    (db : Db) (l : Lane) (r : Rollout) (now : ℕ) (d : Decision)
    → Inv db
    → locked_active_current db l ≡ some r
    → Inv (apply db r now d).0
apply-Inv db l r now (roll_back why) v e = rollback_tx-Inv db l r now why v e
apply-Inv db l r now advance v e = advance_tx-Inv db l r now v e
apply-Inv db l r now hold v e = v

-- To split on the lane's active rollout.
pub evaluate_lane-cases {ℓ} :
    (P : Db → Type ℓ) (answers : String → Bool) (db : Db) (now : ℕ) (l : Lane)
    → P db
    → ((r : Rollout)
        → locked_active_current db l ≡ some r
        → P (apply db r now (judge answers db now r)).0)
    → (commits : Bool) → P (evaluate_lane commits answers db now l).0
unfolding evaluate_lane
evaluate_lane-cases P answers db now l same step false = same
evaluate_lane-cases P answers db now l same step true =
    elim (Option-cases (locked_active_current db l)) [
      | inl e ↦ rw e same
      | inr (r, e) ↦ rw e (step r e)
    ]

pub evaluate_lane-Inv :
    (commits : Bool) (answers : String → Bool) (db : Db) (now : ℕ) (l : Lane)
    → Inv db
    → Inv (evaluate_lane commits answers db now l).0
evaluate_lane-Inv commits answers db now l v =
    evaluate_lane-cases Inv answers db now l v
      (λ r e. apply-Inv db l r now (judge answers db now r) v e) commits

create-Inv :
    (db : Db) (cfg : StartConfig) (now : ℕ)
    → Inv db
    → locked_active_current db (lane_or_policy cfg.lane) ≡ none
    → Inv (create db cfg now)
unfolding create locked_active_current latest
create-Inv db cfg now v e = record {
  below = (omega arith, v.below);
  sole = (lane-Idle (lane_or_policy cfg.lane) db.next_rollout db.rollouts v.below v.sole e, v.sole);
  not_aborted = ((λ k. cc), v.not_aborted);
}

start_in-Inv :
    (commits : Bool) (db : Db) (cfg : StartConfig) (now : ℕ)
    → Inv db
    → Inv (start_in commits db cfg now (locked_active_current db (lane_or_policy cfg.lane))).0
start_in-Inv false db cfg now v = v
start_in-Inv true db cfg now v =
    elim (Option-cases (locked_active_current db (lane_or_policy cfg.lane))) [
      | inl e ↦ rw e (create-Inv db cfg now v e)
      | inr (r, e) ↦ rw e v
    ]

pub start-Inv :
    (commits : Bool) (db : Db) (cfg : StartConfig) (now : ℕ)
    → Inv db
    → Inv (start commits db cfg now).0
unfolding start
start-Inv commits db cfg now v = elim (Bool-cases (length cfg.hosts == 0)) [
  | inl none_given ↦ rw none_given v
  | inr given ↦ rw given (start_in-Inv commits db cfg now v)
]

pub abort_lane-Inv :
    (commits : Bool) (db : Db) (l : Lane) (actor : String) (now : ℕ)
    → Inv db
    → Inv (abort_lane commits db l actor now).0
unfolding abort_lane
abort_lane-Inv false db l actor now v = v
abort_lane-Inv true db l actor now v = elim (Option-cases (locked_active_current db l)) [
  | inl e ↦ rw e v
  | inr (r, e) ↦ rw e (
      rewrite-Inv db _ l r (freeze now operator_aborted) (λ q. refl) (λ q. refl) (λ q k. cc) v e
        (refl, refl))
]

mark_reverted-Inv :
    (writes : Bool) (db : Db) (h now : ℕ) → Inv db → Inv (mark_reverted writes db h now)
unfolding mark_reverted
mark_reverted-Inv false db h now v = v
mark_reverted-Inv true db h now v = record {
  below = v.below;
  sole = v.sole;
  not_aborted = v.not_aborted;
}

member-Inv :
    (writes : Bool) (db : Db) (l : Lane) (r : Rollout) (v now : ℕ) (h : Read Host)
    → Inv db
    → Inv (command_for_member writes db l r v now h).0
member-Inv writes db l r v now absent i = i
member-Inv writes db l r v now broken i = i
member-Inv writes db l r v now (found h) i = elim (Bool-cases (records_revert l r.state r h v)) [
  | inl e ↦ rw e (mark_reverted-Inv writes db h.id now i)
  | inr e ↦ rw e i
]

command_in-Inv :
    (up writes : Bool) (db : Db) (l : Lane) (ip : String) (v now : ℕ) (r : Read Rollout)
    → Inv db
    → Inv (command_in up writes db l ip v now r).0
command_in-Inv up writes db l ip v now absent i = i
command_in-Inv up writes db l ip v now broken i = i
command_in-Inv up writes db l ip v now (found r) i =
    member-Inv writes db l r v now (read up (member db r.id ip)) i

pub command_for_lane-Inv :
    (up host_up writes : Bool) (db : Db) (l : Lane) (ip : String) (v now : ℕ)
    → Inv db
    → Inv (command_for_lane up host_up writes db l ip v now).0
unfolding command_for_lane
command_for_lane-Inv up host_up writes db l ip v now i =
    command_in-Inv host_up writes db l ip v now (current up db l) i
