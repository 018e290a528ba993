-- ===== src/Rollout/Progress.antt =====
-- internal/rollout/rollout.go: a rollout comes to an end. Every evaluation past the observe window
-- ends it or opens its next wave, and the waves are finitely many.
use nebula_control_plane.Prelude.{
  ℕ, ◌+◌, ◌<◌, ◌≤◌, ◌≡◌, refl, sym, ap, subst, ◌≢◌, ◌⊎◌, inl, inr, String, Bool, true, false, List,
  [], ◌∷◌, Option, none, some, arith, if◌then◌else◌, length, count, update, max, newest,
  newest-update, Bool-cases, Option-cases, ◌==◌,
}
use nebula_control_plane.Rollout.Types.{
  Rollout, Host, HostStatus, converged, Beat, Db, Lane, Trigger, auto_rollback, latest,
  locked_active_current, is_active, same_lane,
}
use nebula_control_plane.Rollout.Evaluate.{
  evaluate_lane, advance_tx, rollback_tx, judge, apply, Decision, advance, roll_back, hold,
  is_last_wave, complete, widen, freeze, mark, has_id, in_wave, in_later_wave,
}
use nebula_control_plane.Rollout.Waves.{decided_by_window}

-- The last wave that a rollout's hosts are in.
abbrev pub top_wave : ℕ → List Host → ℕ
top_wave rid [] = 0
top_wave rid (h ∷ hs) = max (if h.rollout_id == rid then h.wave else 0) (top_wave rid hs)

top_wave-mark :
    (r : Rollout) (s : HostStatus) (now rid : ℕ) (hs : List Host)
    → top_wave rid (update (in_wave r) (mark s now) hs) ≡ top_wave rid hs
unfolding update
top_wave-mark r s now rid [] = refl
top_wave-mark r s now rid (h ∷ hs) = elim (Bool-cases (in_wave r h)) [
  | inl e ↦ rw (e, top_wave-mark r s now rid hs)
  | inr e ↦ rw (e, top_wave-mark r s now rid hs)
]

-- A host beyond the active wave shows that the last wave is beyond it.
later_below_top :
    (r : Rollout) (hs : List Host)
    → 0 < count (in_later_wave r) hs
    → r.active_wave < top_wave r.id hs
unfolding count
later_below_top r [] h = absurd (omega arith)
later_below_top r (x ∷ hs) h = elim (Bool-cases (in_later_wave r x)) [
  | inl e ↦ ground arith
  | inr e ↦ omega (arith, later_below_top r hs (rw e at h))
]

locked_active_current-some :
    (db : Db) (l : Lane) (r : Rollout)
    → locked_active_current db l ≡ some r
    → (latest db l ≡ some r) × (is_active r.state ≡ true)
unfolding locked_active_current
locked_active_current-some db l r e = elim (Option-cases (latest db l)) [
  | inl q ↦ absurd (ground arith)
  | inr (c, q) ↦ (ground arith, ground arith)
]

abbrev row_on : Lane → List Rollout → Option Rollout
row_on l = newest (λ q. q.id) (λ q. same_lane q.lane l)

-- What the lane's query returns after the rewrite of the row that it returned before.
row_on-rewrite :
    (l : Lane) (r : Rollout) (f : Rollout → Rollout) (rows : List Rollout)
    → ((q : Rollout) → (f q).id ≡ q.id)
    → ((q : Rollout) → (f q).lane ≡ q.lane)
    → row_on l rows ≡ some r
    → row_on l (update (has_id r.id) f rows) ≡ some (f r)
row_on-rewrite l r f rows id_kept lane_kept e =
    rw
      (
        newest-update (λ q. q.id) (has_id r.id) f (λ q. same_lane q.lane l) id_kept
            (λ q. ap (λ k. same_lane k l) (lane_kept q)) rows,
        e,
      )
      (ground arith)

-- The next wave of `r` is open since `now`, and it is not past the last one.
pub record Widened (db db' : Db) (l : Lane) (r : Rollout) (now : ℕ) : Type 0 where
  pub opened : Rollout
  pub is_current : locked_active_current db' l ≡ some opened
  pub same_id : opened.id ≡ r.id
  pub same_window : opened.observe_window ≡ r.observe_window
  pub next_wave : opened.active_wave ≡ r.active_wave + 1
  pub restarted : opened.wave_started_at ≡ now
  pub same_top : top_wave r.id db'.hosts ≡ top_wave r.id db.hosts
  pub in_range : r.active_wave < top_wave r.id db.hosts

not_last :
    (db : Db) (r : Rollout) (now : ℕ)
    → is_last_wave db r now ≡ false
    → r.active_wave < top_wave r.id db.hosts
unfolding is_last_wave
not_last db r now h =
    rw (← top_wave-mark r converged now r.id db.hosts)
      (later_below_top r (update (in_wave r) (mark converged now) db.hosts) (ground arith))

advance_tx-settles :
    (db : Db) (l : Lane) (r : Rollout) (now : ℕ)
    → latest db l ≡ some r
    → (locked_active_current (advance_tx db r now) l ≡ none)
      ⊎ Widened db (advance_tx db r now) l r now
unfolding advance_tx locked_active_current latest
advance_tx-settles db l r now e = elim (Bool-cases (is_last_wave db r now)) [
  | inl h ↦
      inl (rw (h, row_on-rewrite l r (complete now) db.rollouts (λ q. refl) (λ q. refl) e) refl)
  | inr h ↦ inr (
      rw h (record {
        opened = widen (r.active_wave + 1) now r;
        is_current =
            rw
              (row_on-rewrite l r (widen (r.active_wave + 1) now) db.rollouts (λ q. refl)
                (λ q. refl) e)
              refl;
        same_id = refl;
        same_window = refl;
        next_wave = refl;
        restarted = refl;
        same_top = top_wave-mark r converged now r.id db.hosts;
        in_range = not_last db r now h;
      }))
]

rollback_tx-settles :
    (db : Db) (l : Lane) (r : Rollout) (now : ℕ) (why : Trigger)
    → latest db l ≡ some r
    → locked_active_current (rollback_tx db r now why) l ≡ none
unfolding rollback_tx locked_active_current latest
rollback_tx-settles db l r now why e =
    rw (row_on-rewrite l r (freeze now (auto_rollback why)) db.rollouts (λ q. refl) (λ q. refl) e)
      refl

apply-settles :
    (db : Db) (l : Lane) (r : Rollout) (now : ℕ) (d : Decision)
    → latest db l ≡ some r
    → d ≢ hold
    → (locked_active_current (apply db r now d).0 l ≡ none)
      ⊎ Widened db (apply db r now d).0 l r now
apply-settles db l r now (roll_back why) e h = inl (rollback_tx-settles db l r now why e)
apply-settles db l r now advance e h = advance_tx-settles db l r now e
apply-settles db l r now hold e h = absurd (h refl)

-- An evaluation whose transaction commits, past the observe window of the lane's active rollout,
-- ends that rollout or opens its next wave, which is at most its last.
pub evaluate_lane-settles :
    (answers : String → Bool) (db : Db) (now : ℕ) (l : Lane) (r : Rollout)
    → locked_active_current db l ≡ some r
    → r.wave_started_at + r.observe_window ≤ now
    → let db' = (evaluate_lane true answers db now l).0 in
      (locked_active_current db' l ≡ none) ⊎ Widened db db' l r now
unfolding evaluate_lane
evaluate_lane-settles answers db now l r e late = rw e (
    apply-settles db l r now (judge answers db now r) (locked_active_current-some db l r e).0
      (decided_by_window answers db now r late))

-- One heartbeat round: the heartbeats that have come in, and the evaluation that follows.
pub record Round : Type 0 where
  pub beats : List Beat
  pub answers : String → Bool
  pub now : ℕ

unfoldable pub rounds : Lane → Db → List Round → Db
rounds l db [] = db
rounds l db (x ∷ xs) =
    rounds l (evaluate_lane true x.answers (record db { beats = x.beats }) x.now l).0 xs

-- Each round comes at least an observe window after the one before.
abbrev pub Spaced : ℕ → ℕ → List Round → Type 0
Spaced window since [] = Unit {0}
Spaced window since (x ∷ xs) = (since + window ≤ x.now) × Spaced window x.now xs

idle_stays :
    (l : Lane) (db : Db) (xs : List Round)
    → locked_active_current db l ≡ none
    → locked_active_current (rounds l db xs) l ≡ none
unfolding rounds evaluate_lane locked_active_current latest
idle_stays l db [] e = e
idle_stays l db (x ∷ xs) e =
    idle_stays l (evaluate_lane true x.answers (record db { beats = x.beats }) x.now l).0 xs
      (rw e e)

locked-beats :
    (db : Db) (l : Lane) (bs : List Beat)
    → locked_active_current (record db { beats = bs }) l ≡ locked_active_current db l
unfolding locked_active_current latest
locked-beats db l bs = refl

first_round :
    (l : Lane) (db : Db) (r : Rollout) (x : Round)
    → locked_active_current db l ≡ some r
    → r.wave_started_at + r.observe_window ≤ x.now
    → let db' = (evaluate_lane true x.answers (record db { beats = x.beats }) x.now l).0 in
      (locked_active_current db' l ≡ none) ⊎ Widened (record db { beats = x.beats }) db' l r x.now
first_round l db r x e late =
    evaluate_lane-settles x.answers (record db { beats = x.beats }) x.now l r
      (rw (locked-beats db l x.beats) e) late

-- A rollout with `k` waves left is over after any `k + 1` rounds that are an observe window apart,
-- whatever the heartbeats say.
pub rollout_ends :
    (l : Lane) (db : Db) (r : Rollout) (x : Round) (xs : List Round)
    → locked_active_current db l ≡ some r
    → top_wave r.id db.hosts ≤ r.active_wave + length xs
    → Spaced r.observe_window r.wave_started_at (x ∷ xs)
    → locked_active_current (rounds l db (x ∷ xs)) l ≡ none
unfolding rounds
rollout_ends l db r x [] e enough spaced = elim (first_round l db r x e spaced.0) [
  | inl over ↦ over
  | inr w ↦ absurd (omega (arith, w.in_range))
]
rollout_ends l db r x (y ∷ ys) e enough spaced = elim (first_round l db r x e spaced.0) [
  | inl over ↦ idle_stays l _ (y ∷ ys) over
  | inr w ↦
      rollout_ends l (evaluate_lane true x.answers (record db { beats = x.beats }) x.now l).0
        w.opened y ys w.is_current (rw (w.same_id, w.same_top, w.next_wave) (omega arith))
        (subst (λ k. Spaced k w.opened.wave_started_at (y ∷ ys)) (sym w.same_window)
          (subst (λ t. Spaced r.observe_window t (y ∷ ys)) (sym w.restarted) spaced.1))
]
