-- ===== src/Rollout/Waves.antt =====
-- internal/rollout/rollout.go: when `evaluateLane` widens a wave, and when it rolls one back.
use nebula_control_plane.Prelude.{
  ℕ, ◌+◌, ◌-◌, ◌<◌, ◌≤◌, ◌≡◌, ◌≢◌, String, Bool, true, false, List, [], ◌∷◌, arith, if◌then◌else◌,
  length, keep, count,
}
use nebula_control_plane.Rollout.Types.{Rollout, Host, Beat, Db, Read, Trigger, failing_host}
use nebula_control_plane.Rollout.Evaluate.{
  Verdict, sick, healthy, silent, pending, verdict, beat_of, Tally, no_tally, tally_host, tally,
  needed, decide, roll_back, advance, hold, judge, in_wave,
}

abbrev same_verdict : Verdict → Verdict → Bool
same_verdict sick sick = true
same_verdict healthy healthy = true
same_verdict silent silent = true
same_verdict pending pending = true
same_verdict _ _ = false

-- How many hosts of a list have a verdict.
abbrev pub having : Verdict → (String → Read Beat) → Rollout → ℕ → List Host → ℕ
having v beats r now = count λ h. same_verdict (verdict r now (beats h.overlay_ip)) v

-- The hosts that `Evaluate` looks at.
abbrev pub wave_hosts : Db → Rollout → List Host
wave_hosts db r = keep (in_wave r) db.hosts

abbrev one_if : Bool → ℕ
one_if b = if b then 1 else 0

tally_host-counts :
    (t : Tally) (h : Host) (beat : Read Beat) (v : Verdict)
    → ((tally_host t h beat v).converged ≡ t.converged + one_if (same_verdict v healthy))
      × ((tally_host t h beat v).failed ≡ t.failed + one_if (same_verdict v sick))
      × ((tally_host t h beat v).missing ≡ t.missing + one_if (same_verdict v silent))
unfolding tally_host
tally_host-counts t h beat sick = omega arith
tally_host-counts t h beat healthy = omega arith
tally_host-counts t h beat silent = omega arith
tally_host-counts t h beat pending = omega arith

having_cons :
    (w : Verdict) (beats : String → Read Beat) (r : Rollout) (now : ℕ) (h : Host) (hs : List Host)
    → having w beats r now (h ∷ hs)
      ≡ one_if (same_verdict (verdict r now (beats h.overlay_ip)) w) + having w beats r now hs
unfolding count
having_cons w beats r now h hs = ground arith

-- The loop counts the hosts by their verdicts.
tally-counts :
    (beats : String → Read Beat) (r : Rollout) (now : ℕ) (t : Tally) (hs : List Host)
    → ((tally beats r now t hs).converged ≡ t.converged + having healthy beats r now hs)
      × ((tally beats r now t hs).failed ≡ t.failed + having sick beats r now hs)
      × ((tally beats r now t hs).missing ≡ t.missing + having silent beats r now hs)
unfolding tally count
tally-counts beats r now t [] = (omega arith, omega arith, omega arith)
tally-counts beats r now t (h ∷ hs) =
    let v = verdict r now (beats h.overlay_ip) in
    let here = tally_host-counts t h (beats h.overlay_ip) v in
    let rest = tally-counts beats r now (tally_host t h (beats h.overlay_ip) v) hs in
    (
      omega (arith, here.0, rest.0, having_cons healthy beats r now h hs),
      omega (arith, here.1, rest.1, having_cons sick beats r now h hs),
      omega (arith, here.2, rest.2, having_cons silent beats r now h hs),
    )

module _ (answers : String → Bool) (db : Db) (now : ℕ) (r : Rollout) where
  -- The hosts of the active wave with a verdict, and their number in all.
  abbrev pub wave_having : Verdict → ℕ
  wave_having v = having v (beat_of answers db) r now (wave_hosts db r)

  abbrev pub wave_size : ℕ
  wave_size = length (wave_hosts db r)

  -- A wave is widened only if none of its hosts reports bad health, at least the needed number of
  -- the reachable hosts run the target version, and, in a canary wave that has a host, at least one
  -- host runs it.
  pub advance_sound :
      judge answers db now r ≡ advance
      → (wave_having sick ≡ 0)
        × (needed r (wave_size - wave_having silent) ≤ wave_having healthy)
        × (r.active_wave ≡ 0 → 0 < wave_size → 0 < wave_having healthy)
  unfolding judge decide needed
  advance_sound e =
      ground (arith, tally-counts (beat_of answers db) r now no_tally (wave_hosts db r))

  -- A wave past the canary whose hosts are all either converged or silent is widened: silent hosts
  -- neither hold the rollout back nor roll it back.
  pub silent_excluded :
      r.active_wave ≢ 0
      → wave_having healthy + wave_having silent ≡ wave_size
      → wave_having sick ≡ 0
      → judge answers db now r ≡ advance
  unfolding judge decide needed
  silent_excluded w all none_sick =
      ground (arith, tally-counts (beat_of answers db) r now no_tally (wave_hosts db r))

  -- A host of the wave that reports bad health rolls the rollout back at once.
  pub sick_rolls_back :
      0 < wave_having sick → (why : Trigger) × (judge answers db now r ≡ roll_back why)
  unfolding judge decide needed
  sick_rolls_back h =
      let t = tally (beat_of answers db) r now no_tally (wave_hosts db r) in
      (
        failing_host t.trigger,
        ground (arith, tally-counts (beat_of answers db) r now no_tally (wave_hosts db r)),
      )

  -- Past the observe window the evaluation never leaves the wave undecided.
  pub decided_by_window : r.wave_started_at + r.observe_window ≤ now → judge answers db now r ≢ hold
  unfolding judge decide needed
  decided_by_window h e =
      ground (arith, tally-counts (beat_of answers db) r now no_tally (wave_hosts db r))
