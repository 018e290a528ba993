-- ===== src/Rollout/Operations.antt =====
-- internal/rollout/rollout.go: `Start`, `AbortLane`, and the steps that the store can take.
-- The sizes and durations of `StartConfig` are natural numbers: a negative one acts as 0.
use nebula_control_plane.Prelude.{
  ℕ, suc, ◌+◌, ◌-◌, ◌/◌, String, Bool, true, false, List, [], ◌∷◌, ◌++◌, Option, none, some, update,
  length, ltb, ◌==◌, if◌then◌else◌,
}
use nebula_control_plane.Rollout.Types.{
  Rollout, Host, Db, Lane, policy, canary, waiting, no_note, operator_aborted, started,
  aborted_event, locked_active_current, Result, ok, err, db_error, active_exists, no_hosts,
  not_active,
}
use nebula_control_plane.Rollout.Evaluate.{has_id, freeze}

pub record StartConfig : Type 0 where
  pub lane : Option Lane
  pub description : String
  pub target_version : ℕ
  pub prev_version : ℕ
  pub hosts : List String
  pub canary_size : ℕ
  pub wave_size : ℕ
  pub min_healthy : ℕ
  pub observe : ℕ
  pub missing_after : ℕ
  pub actor : String

abbrev pub lane_or_policy : Option Lane → Lane
lane_or_policy none = policy
lane_or_policy (some l) = l

-- `canary`, clamped to 1 … the number of hosts.
unfoldable pub canary_of : ℕ → ℕ → ℕ
canary_of size n = let c = if ltb size 1 then 1 else size in if ltb n c then n else c

-- The wave of the host at position `i`.
unfoldable pub wave_of : ℕ → ℕ → ℕ → ℕ
wave_of first size i = if ltb i first then 0 else if size == 0 then 1 else 1 + (i - first) / size

-- The rows that the loop of `Start` creates.
unfoldable pub members : ℕ → ℕ → ℕ → ℕ → ℕ → ℕ → List String → List Host
members first size now rid next i [] = []
members first size now rid next i (ip ∷ ips) =
    record {
      id = next;
      rollout_id = rid;
      overlay_ip = ip;
      wave = wave_of first size i;
      status = waiting;
      updated_at = now;
    }
    ∷ members first size now rid (suc next) (suc i) ips

abbrev pub new_rollout : Db → StartConfig → ℕ → Rollout
new_rollout db cfg now = record {
  id = db.next_rollout;
  lane = lane_or_policy cfg.lane;
  description = cfg.description;
  target_version = cfg.target_version;
  prev_version = cfg.prev_version;
  state = canary;
  active_wave = 0;
  wave_size = cfg.wave_size;
  min_healthy = cfg.min_healthy;
  observe_window = cfg.observe;
  missing_after = cfg.missing_after;
  wave_started_at = now;
  created_at = now;
  updated_at = now;
  note = no_note;
}

-- The transaction of `Start`, past its test for an active rollout.
unfoldable pub create : Db → StartConfig → ℕ → Db
create db cfg now =
    let n = length cfg.hosts in
    let c = canary_of cfg.canary_size n in
    record db {
      rollouts = new_rollout db cfg now ∷ db.rollouts;
      hosts = members c cfg.wave_size now db.next_rollout db.next_host 0 cfg.hosts ++ db.hosts;
      next_rollout = suc db.next_rollout;
      next_host = db.next_host + n;
      log =
          started cfg.actor db.next_rollout (lane_or_policy cfg.lane) cfg.target_version
            cfg.prev_version n c
          ∷ db.log;
    }

abbrev pub start_in : Bool → Db → StartConfig → ℕ → Option Rollout → Db × Result Rollout
start_in false db cfg now active = (db, err db_error)
start_in true db cfg now (some r) = (db, err active_exists)
start_in true db cfg now none = (create db cfg now, ok (new_rollout db cfg now))

-- `Start`.
unfoldable pub start : Bool → Db → StartConfig → ℕ → Db × Result Rollout
start commits db cfg now =
    if length cfg.hosts == 0
    then (db, err no_hosts)
    else start_in commits db cfg now (locked_active_current db (lane_or_policy cfg.lane))

abbrev pub abort_active : Db → String → Lane → ℕ → Option Rollout → Db × Result (Unit {0})
abort_active db actor lane now none = (db, err not_active)
abort_active db actor lane now (some r) = (
  record db {
    rollouts = update (has_id r.id) (freeze now operator_aborted) db.rollouts;
    log = aborted_event actor r.id lane ∷ db.log;
  },
  ok tt,
)

-- `AbortLane`.
unfoldable pub abort_lane : Bool → Db → Lane → String → ℕ → Db × Result (Unit {0})
abort_lane false db lane actor now = (db, err db_error)
abort_lane true db lane actor now = abort_active db actor lane now (locked_active_current db lane)
