-- ===== src/Rollout/History.antt =====
-- internal/rollout/rollout.go: what holds of the rollout tables after any history of calls.
use nebula_control_plane.Prelude.{
  ℕ, ◌≡◌, refl, ◌≢◌, String, Bool, true, ◌&&◌, List, [], ◌∷◌, Option, none, some, arith, Bool-cases,
  inl, inr, All, All-map, Descending, newest, newest-head, count,
}
use nebula_control_plane.Rollout.Types.{
  Rollout, Beat, Db, Lane, latest, if_active, locked_active_current, aborted, same_lane, is_active,
}
use nebula_control_plane.Rollout.Evaluate.{evaluate_lane}
use nebula_control_plane.Rollout.Operations.{StartConfig, start, abort_lane}
use nebula_control_plane.Rollout.Queries.{command_for_lane}
use nebula_control_plane.Rollout.Invariant.{Inv, Idle, Sole}
use nebula_control_plane.Rollout.Preserve.{
  start-Inv, evaluate_lane-Inv, abort_lane-Inv, command_for_lane-Inv,
}

abbrev pub empty_db : Db
empty_db = record {
  rollouts = [];
  hosts = [];
  beats = [];
  next_rollout = 1;
  next_host = 1;
  log = [];
}

-- One call of the engine, or heartbeats that another component writes.
pub data Step (db : Db) : Db → Type 0 where
  starts : (commits : Bool) (cfg : StartConfig) (now : ℕ) → Step db (start commits db cfg now).0
  evaluates :
      (commits : Bool) (answers : String → Bool) (now : ℕ) (l : Lane)
      → Step db (evaluate_lane commits answers db now l).0
  aborts :
      (commits : Bool) (l : Lane) (actor : String) (now : ℕ)
      → Step db (abort_lane commits db l actor now).0
  commands :
      (up host_up writes : Bool) (l : Lane) (ip : String) (v now : ℕ)
      → Step db (command_for_lane up host_up writes db l ip v now).0
  heartbeats : (bs : List Beat) → Step db (record db { beats = bs })

pub data Reach : Db → Type 0 where
  empty : Reach empty_db
  next : {a b : Db} → Reach a → Step a b → Reach b

Step-Inv : {a b : Db} → Step a b → Inv a → Inv b
Step-Inv {a} (starts commits cfg now) v = start-Inv commits a cfg now v
Step-Inv {a} (evaluates commits answers now l) v = evaluate_lane-Inv commits answers a now l v
Step-Inv {a} (aborts commits l actor now) v = abort_lane-Inv commits a l actor now v
Step-Inv {a} (commands up host_up writes l ip u now) v =
    command_for_lane-Inv up host_up writes a l ip u now v
Step-Inv (heartbeats bs) v = record { below = v.below; sole = v.sole; not_aborted = v.not_aborted }

pub Reach-Inv : {db : Db} → Reach db → Inv db
Reach-Inv empty = record { below = tt; sole = tt; not_aborted = tt }
Reach-Inv (next r s) = Step-Inv s (Reach-Inv r)

abbrev pub active_on : Lane → Rollout → Bool
active_on l r = same_lane r.lane l && is_active r.state

abbrev pub how_many : Option Rollout → ℕ
how_many none = 0
how_many (some r) = 1

Idle-count : (l : Lane) (rs : List Rollout) → All (Idle l) rs → count (active_on l) rs ≡ 0
unfolding count
Idle-count l [] a = refl
Idle-count l (r ∷ rs) a = ground (arith, Idle-count l rs a.1, a.0)

same_lane_sym : (a b l : Lane) → same_lane a l ≡ true → same_lane b l ≡ true → same_lane b a ≡ true
same_lane_sym a b l p q = ground arith

lane_count :
    (l : Lane) (n : ℕ) (rs : List Rollout)
    → Descending (λ r. r.id) n rs
    → Sole rs
    → count (active_on l) rs
      ≡ how_many (if_active (newest (λ r. r.id) (λ r. same_lane r.lane l) rs))
unfolding count newest
lane_count l n [] d s = refl
lane_count l n (r ∷ rs) d s = elim (Bool-cases (same_lane r.lane l)) [
  | inl h ↦
      let rest =
        Idle-count l rs (All-map (λ y i k. i (same_lane_sym r.lane y.lane l h k)) rs s.0) in
      rw (newest-head (λ x. x.id) (λ x. same_lane x.lane l) r rs d.1 h) (ground arith)
  | inr h ↦ rw h (lane_count l r.id rs d.1 s.1)
]

-- After any history of calls, on every lane the number of active rollouts is 1 if the engine's own
-- query for the lane's active rollout finds one, and 0 if it finds none: so there are never two,
-- and none is ever hidden behind a newer rollout where `Evaluate` and `AbortLane` would miss it.
pub one_active :
    {db : Db}
    → Reach db
    → (l : Lane) → count (active_on l) db.rollouts ≡ how_many (locked_active_current db l)
unfolding locked_active_current latest
one_active {db} r l =
    lane_count l db.next_rollout db.rollouts (Reach-Inv r).below (Reach-Inv r).sole

-- No history of calls leaves a rollout in the state `aborted`: an operator's abort is recorded as
-- `rolled_back`.
pub never_aborted : {db : Db} → Reach db → All (λ r. r.state ≢ aborted) db.rollouts
never_aborted r = (Reach-Inv r).not_aborted
