-- ===== src/Rollout/Tests.antt =====
-- The rollout engine on a fleet of three hosts: a canary of one, then a wave of two.
use nebula_control_plane.Prelude.{
  ℕ, ◌≡◌, ◌-◌, ◌<◌, ◌≤◌, refl, String, Bool, true, List, [], ◌∷◌, none, some, arith, count, find,
  newest, keep,
}
use nebula_control_plane.Rollout.Types.{
  State, Rollout, Host, Beat, Db, Lane, policy, blocklist, nebula, canary, completed, rolled_back,
  waiting, no_note, latest, locked_active_current, current,
}
use nebula_control_plane.Rollout.Evaluate.{
  judge, beat_of, needed, sick, healthy, silent, verdict, tally, tally_host, decide,
}
use nebula_control_plane.Rollout.Operations.{
  StartConfig, start, create, canary_of, wave_of, members,
}
use nebula_control_plane.Rollout.Queries.{
  apply_bundle, member, command_for_lane, gen_for_lane, latest_completed, floor_catchup_gen,
  current_completed_gen,
}
use nebula_control_plane.Rollout.History.{
  empty_db, empty, next, starts, active_on, how_many, one_active,
}
use nebula_control_plane.Rollout.Waves.{wave_having, wave_size, advance_sound}
use nebula_control_plane.Rollout.Progress.{Round, rounds, rollout_ends}
use nebula_control_plane.Rollout.Agreement.{command-gen, blocklist_never_reverts}
use nebula_control_plane.Rollout.Catchup.{catchup_sound}
use nebula_control_plane.Rollout.Operations.{new_rollout}
use nebula_control_plane.Rollout.Sizes.{in_wave, IsCanary, wave_limits}

abbrev fleet : List String
fleet = "10.0.0.1" ∷ "10.0.0.2" ∷ "10.0.0.3" ∷ []

abbrev config : Lane → StartConfig
config l = record {
  lane = some l;
  description = "new policy";
  target_version = 2;
  prev_version = 1;
  hosts = fleet;
  canary_size = 1;
  wave_size = 2;
  min_healthy = 0;
  observe = 10;
  missing_after = 5;
  actor = "alice";
}

abbrev row : Lane → State → ℕ → Rollout
row l s wave = record {
  id = 1;
  lane = l;
  description = "new policy";
  target_version = 2;
  prev_version = 1;
  state = s;
  active_wave = wave;
  wave_size = 2;
  min_healthy = 0;
  observe_window = 10;
  missing_after = 5;
  wave_started_at = 100;
  created_at = 100;
  updated_at = 100;
  note = no_note;
}

abbrev host : ℕ → String → ℕ → Host
host i ip wave = record {
  id = i;
  rollout_id = 1;
  overlay_ip = ip;
  wave = wave;
  status = waiting;
  updated_at = 100;
}

abbrev beat : String → String → ℕ → Beat
beat ip health seen = record {
  overlay_ip = ip;
  applied_bundle = 2;
  applied_blocklist = 2;
  applied_nebula = 2;
  applied_pilot = 2;
  health = health;
  last_seen = seen;
}

abbrev staged : Lane → State → ℕ → List Beat → Db
staged l s wave bs = record {
  rollouts = row l s wave ∷ [];
  hosts = host 1 "10.0.0.1" 0 ∷ host 2 "10.0.0.2" 1 ∷ host 3 "10.0.0.3" 1 ∷ [];
  beats = bs;
  next_rollout = 2;
  next_host = 4;
  log = [];
}

abbrev always : String → Bool
always ip = true

one_active_example :
    count (active_on policy) (start true empty_db (config policy) 100).0.rollouts
    ≡ how_many (locked_active_current (start true empty_db (config policy) 100).0 policy)
one_active_example = one_active (next empty (starts true (config policy) 100)) policy

-- `Start` on an empty store creates the row and the three hosts that the other tests begin with.
start_creates :
    (start true empty_db (config policy) 100).0.hosts ≡ (staged policy canary 0 []).hosts
unfolding start locked_active_current latest newest create canary_of members wave_of
start_creates = refl

abbrev round : ℕ → Round
round now = record { beats = []; answers = always; now = now }

rollout_ends_example :
    locked_active_current
      (rounds nebula (staged nebula canary 0 []) (round 110 ∷ round 120 ∷ []))
      nebula
    ≡ none
unfolding locked_active_current latest newest
rollout_ends_example =
    rollout_ends nebula (staged nebula canary 0 []) (row nebula canary 0) (round 110)
      (round 120 ∷ []) refl (omega arith) (omega arith)

abbrev good_canary : List Beat
good_canary = beat "10.0.0.1" "ok" 101 ∷ []

advance_sound_example :
    let db = staged nebula canary 0 good_canary in
    let r = row nebula canary 0 in
    (wave_having always db 102 r sick ≡ 0)
    × (needed r (wave_size always db 102 r - wave_having always db 102 r silent)
        ≤ wave_having always db 102 r healthy)
    × (r.active_wave ≡ 0 → 0 < wave_size always db 102 r → 0 < wave_having always db 102 r healthy)
unfolding judge decide tally tally_host verdict beat_of find keep needed
advance_sound_example =
    advance_sound always (staged nebula canary 0 good_canary) 102 (row nebula canary 0) refl

abbrev half_silent : List Beat
half_silent = beat "10.0.0.2" "ok" 104 ∷ []

abbrev ill_canary : List Beat
ill_canary = beat "10.0.0.1" "degraded" 101 ∷ []

command-gen_example :
    (command_for_lane true true true (staged nebula canary 0 []) nebula "10.0.0.1" 1 5).1
    ≡ some (apply_bundle 2)
unfolding latest newest member find gen_for_lane current
command-gen_example =
    command-gen (staged nebula canary 0 []) nebula "10.0.0.1" (row nebula canary 0)
      (host 1 "10.0.0.1" 0) refl refl true 1 5 2 (λ e. cc) (λ e. cc) (λ e. cc) (omega arith) refl

blocklist_never_reverts_example :
    let db = staged blocklist rolled_back 0 [] in
    ((command_for_lane true true true db blocklist "10.0.0.1" 2 5).1 ≡ some (apply_bundle 1)
      → ◌≡◌ {A = ℕ} 1 2)
    × (rolled_back ≡ rolled_back
        → command_for_lane true true true db blocklist "10.0.0.1" 2 5 ≡ (db, none))
unfolding latest newest member find
blocklist_never_reverts_example =
    blocklist_never_reverts (staged blocklist rolled_back 0 []) blocklist "10.0.0.1"
      (row blocklist rolled_back 0) (host 1 "10.0.0.1" 0) refl refl true 2 5 1 refl

catchup_sound_example :
    let db = staged nebula completed 1 [] in
    (1 < 2)
    × (locked_active_current db nebula ≡ none)
    × ((r : Rollout) × (latest_completed db nebula ≡ some r)
        × (r.state ≡ completed)
        × (r.target_version ≡ 2))
unfolding floor_catchup_gen current latest newest current_completed_gen latest_completed
catchup_sound_example = catchup_sound true true (staged nebula completed 1 []) nebula 1 2 refl

wave_limits_example :
    let db = (start true empty_db (config policy) 100).0 in
    IsCanary 1 3 (count (in_wave 1 0) db.hosts) × (count (in_wave 1 1) db.hosts ≤ 2)
unfolding start locked_active_current latest newest count
wave_limits_example =
    wave_limits empty_db (config policy) 100 0 (new_rollout empty_db (config policy) 100)
      (omega arith) refl refl
