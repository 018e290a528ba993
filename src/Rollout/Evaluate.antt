-- ===== src/Rollout/Evaluate.antt =====
-- internal/rollout/rollout.go: `evaluateLane`, `isMissing`, `advanceTx`, `rollbackTx`, `Evaluate`.
-- A transaction either commits or leaves the store as it was (`commits`); `answers ip` says whether
-- the read of that host's heartbeat gets through. Comparisons of differences of times are written
-- as sums, since the integers of the source may fall below zero.
use nebula_control_plane.Prelude.{
  ℕ, ◌+◌, ◌-◌, String, Bool, true, false, ◌&&◌, ◌||◌, List, [], ◌∷◌, str_eq, find, keep, count,
  update, length, ltb, leb, ◌==◌, if◌then◌else◌, Option, none, some,
}
use nebula_control_plane.Rollout.Types.{
  Rollout, Host, HostStatus, Note, Beat, Db, Lane, policy, blocklist, nebula, pilot, widening,
  completed, rolled_back, converged, failed, Cause, no_cause, bad_health, went_silent, Trigger,
  failing_host, not_validated, not_converged, all_converged, auto_rollback, completed_event,
  advanced, rolled_back_event, Read, found, absent, broken, read, locked_active_current, health_bad,
  applied_for, Result, ok, err, Error, db_error,
}

-- `isMissing`: after the grace period, no heartbeat or a stale one.
unfoldable pub is_missing : Read Beat → ℕ → Rollout → Bool
is_missing beat now r = if ltb now (r.wave_started_at + r.missing_after) then false else elim beat [
  | absent ↦ true
  | broken ↦ false
  | found b ↦ ltb (b.last_seen + r.missing_after) now
]

-- The cases of the `switch` over one host of the wave.
pub data Verdict : Type 0 where
  sick healthy silent pending : Verdict

abbrev late : Bool → Verdict
late true = silent
late false = pending

unfoldable pub verdict : Rollout → ℕ → Read Beat → Verdict
unfolding health_bad applied_for
verdict r now (found b) =
    if health_bad b.health
    then sick
    else if (applied_for b r.lane == r.target_version) && leb now (b.last_seen + r.missing_after)
    then healthy
    else late (is_missing (found b) now r)
verdict r now absent = late (is_missing absent now r)
verdict r now broken = late (is_missing broken now r)

-- `SELECT … FROM heartbeats WHERE overlay_ip = ?`.
unfoldable pub beat_of : (String → Bool) → Db → String → Read Beat
beat_of answers db ip = read (answers ip) (find (λ b. str_eq b.overlay_ip ip) db.beats)

pub record Tally : Type 0 where
  pub converged : ℕ
  pub failed : ℕ
  pub missing : ℕ
  pub trigger : Cause

abbrev pub no_tally : Tally
no_tally = record { converged = 0; failed = 0; missing = 0; trigger = no_cause }

-- `if trigger == "" { trigger = … }`.
abbrev first_cause : Cause → Cause → Cause
first_cause no_cause c = c
first_cause (bad_health ip h) c = bad_health ip h
first_cause (went_silent ip) c = went_silent ip

abbrev health_of : Read Beat → String
health_of (found b) = b.health
health_of absent = ""
health_of broken = ""

unfoldable pub tally_host : Tally → Host → Read Beat → Verdict → Tally
tally_host t h beat sick = record t {
  failed = t.failed + 1;
  trigger = first_cause t.trigger (bad_health h.overlay_ip (health_of beat));
}
tally_host t h beat healthy = record t { converged = t.converged + 1 }
tally_host t h beat silent = record t {
  missing = t.missing + 1;
  trigger = first_cause t.trigger (went_silent h.overlay_ip);
}
tally_host t h beat pending = t

-- The loop over the hosts of the wave.
unfoldable pub tally : (String → Read Beat) → Rollout → ℕ → Tally → List Host → Tally
tally beats r now t [] = t
tally beats r now t (h ∷ hs) =
    tally beats r now (tally_host t h (beats h.overlay_ip) (verdict r now (beats h.overlay_ip))) hs

pub data Decision : Type 0 where
  roll_back : Trigger → Decision
  advance hold : Decision

-- `need`, capped at the hosts that are reachable.
unfoldable pub needed : Rollout → ℕ → ℕ
needed r reachable =
    if (r.min_healthy == 0) || ltb reachable r.min_healthy then reachable else r.min_healthy

unfoldable pub decide : Rollout → ℕ → ℕ → Tally → Decision
decide r now size t =
    let reachable = size - t.missing in
    let need = needed r reachable in
    if ltb 0 t.failed
    then roll_back (failing_host t.trigger)
    else if (r.active_wave == 0) && ((t.converged == 0) && ltb 0 t.missing)
    then roll_back (not_validated t.trigger)
    else if leb need t.converged
    then advance
    else if leb (r.wave_started_at + r.observe_window) now
    then roll_back (not_converged r.active_wave t.converged need t.missing)
    else hold

abbrev pub in_wave : Rollout → Host → Bool
in_wave r h = (h.rollout_id == r.id) && (h.wave == r.active_wave)

abbrev pub in_later_wave : Rollout → Host → Bool
in_later_wave r h = (h.rollout_id == r.id) && ltb r.active_wave h.wave

abbrev pub has_id : ℕ → Rollout → Bool
has_id i r = r.id == i

-- The `UPDATE`s of the rollout's row.
abbrev pub complete : ℕ → Rollout → Rollout
complete now q = record q { state = completed; updated_at = now; note = all_converged }

abbrev pub widen : ℕ → ℕ → Rollout → Rollout
widen wave now q = record q {
  state = widening;
  active_wave = wave;
  wave_started_at = now;
  updated_at = now;
}

abbrev pub freeze : ℕ → Note → Rollout → Rollout
freeze now why q = record q { state = rolled_back; updated_at = now; note = why }

abbrev pub mark : HostStatus → ℕ → Host → Host
mark status now h = record h { status = status; updated_at = now }

-- `remaining == 0`, after the wave's hosts are marked.
unfoldable pub is_last_wave : Db → Rollout → ℕ → Bool
is_last_wave db r now =
    count (in_later_wave r) (update (in_wave r) (mark converged now) db.hosts) == 0

-- `advanceTx`: complete the rollout, or open the next wave.
unfoldable pub advance_tx : Db → Rollout → ℕ → Db
advance_tx db r now =
    if is_last_wave db r now
    then record db {
      hosts = update (in_wave r) (mark converged now) db.hosts;
      rollouts = update (has_id r.id) (complete now) db.rollouts;
      log = completed_event r.id r.target_version ∷ db.log;
    }
    else record db {
      hosts = update (in_wave r) (mark converged now) db.hosts;
      rollouts = update (has_id r.id) (widen (r.active_wave + 1) now) db.rollouts;
      log = advanced r.id r.active_wave ∷ db.log;
    }

-- `rollbackTx`: fail the wave's hosts and freeze the rollout.
unfoldable pub rollback_tx : Db → Rollout → ℕ → Trigger → Db
rollback_tx db r now why = record db {
  hosts = update (in_wave r) (mark failed now) db.hosts;
  rollouts = update (has_id r.id) (freeze now (auto_rollback why)) db.rollouts;
  log = rolled_back_event r.id why ∷ db.log;
}

abbrev pub apply : Db → Rollout → ℕ → Decision → Db × Bool
apply db r now (roll_back why) = (rollback_tx db r now why, true)
apply db r now advance = (advance_tx db r now, true)
apply db r now hold = (db, false)

-- What `evaluateLane` decides for the rollout that it has locked.
unfoldable pub judge : (String → Bool) → Db → ℕ → Rollout → Decision
judge answers db now r =
    let wave = keep (in_wave r) db.hosts in
    decide r now (length wave) (tally (beat_of answers db) r now no_tally wave)

abbrev pub evaluate_active : (String → Bool) → Db → ℕ → Option Rollout → Db × Bool
evaluate_active answers db now none = (db, false)
evaluate_active answers db now (some r) = apply db r now (judge answers db now r)

-- `evaluateLane`; the result says whether the state changed.
unfoldable pub evaluate_lane : Bool → (String → Bool) → Db → ℕ → Lane → Db × Result Bool
evaluate_lane false answers db now lane = (db, err db_error)
evaluate_lane true answers db now lane =
    let (db', changed) = evaluate_active answers db now (locked_active_current db lane) in
    (db', ok changed)

abbrev pub lanes : List Lane
lanes = policy ∷ blocklist ∷ nebula ∷ pilot ∷ []

-- `Evaluate`: the lanes in turn, up to the first error. `commits` is asked for each lane.
unfoldable pub evaluate_lanes :
    (Lane → Bool) → (String → Bool) → ℕ → Db → Bool → List Lane → Db × Bool × Option Error
evaluate_lanes commits answers now db changed [] = (db, changed, none)
evaluate_lanes commits answers now db changed (l ∷ ls) =
    let (db', res) = evaluate_lane (commits l) answers db now l in
    elim res [
      | ok c ↦ evaluate_lanes commits answers now db' (changed || c) ls
      | err e ↦ (db', changed, some e)
    ]
