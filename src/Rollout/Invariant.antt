-- ===== src/Rollout/Invariant.antt =====
-- internal/rollout/rollout.go: at most one rollout is active on a lane, after any history of
-- `Start`, `Evaluate`, `AbortLane`, the heartbeat commands and arriving heartbeats.
use nebula_control_plane.Prelude.{
  ℕ, ◌≡◌, ap, ◌≢◌, Bool, true, false, List, [], ◌∷◌, none, some, newest, newest-head, newest-tail,
  newest_unique, Descending, Descending-update, update, arith, if◌then◌else◌, All, All-map,
  All-update, Bool-cases, Option-cases, inl, inr,
}
use nebula_control_plane.Rollout.Types.{
  Rollout, Db, Lane, same_lane, is_active, latest, if_active, locked_active_current, aborted,
}
use nebula_control_plane.Rollout.Evaluate.{has_id}

abbrev pub Idle : Lane → Rollout → Type 0
Idle l s = same_lane s.lane l ≡ true → is_active s.state ≡ false

-- No rollout older than one of its lane is active.
abbrev pub Sole : List Rollout → Type 0
Sole [] = Unit {0}
Sole (r ∷ rs) = All (Idle r.lane) rs × Sole rs

pub record Inv (db : Db) : Type 0 where
  pub below : Descending (λ r. r.id) db.next_rollout db.rollouts
  pub sole : Sole db.rollouts
  pub not_aborted : All (λ r. r.state ≢ aborted) db.rollouts

abbrev on_lane : Lane → Rollout → Bool
on_lane l r = same_lane r.lane l

same_lane_through :
    (a b l : Lane) → same_lane a l ≡ true → same_lane b l ≡ true → same_lane b a ≡ true
same_lane_through a b l p q = ground arith

-- When a lane's newest rollout is not active, none of its rollouts is.
pub lane-Idle :
    (l : Lane) (n : ℕ) (rs : List Rollout)
    → Descending (λ r. r.id) n rs
    → Sole rs
    → if_active (newest (λ r. r.id) (on_lane l) rs) ≡ none
    → All (Idle l) rs
lane-Idle l n [] d s e = tt
lane-Idle l n (x ∷ rs) d s e = elim (Bool-cases (same_lane x.lane l)) [
  | inl h ↦ (
    (λ _. ground (arith, newest-head (λ r. r.id) (on_lane l) x rs d.1 h)),
    All-map (λ y i k. i (same_lane_through x.lane y.lane l h k)) rs s.0,
  )
  | inr h ↦
      let rest = newest-tail (λ r. r.id) (on_lane l) x rs h in
      ((λ k. cc), lane-Idle l x.id rs d.1 s.1 (rw rest at e))
]

-- Rewriting active rollouts, their lane kept, activates no other.
module _ (i : ℕ) (f : Rollout → Rollout) (keeps : (r : Rollout) → (f r).lane ≡ r.lane) where
  abbrev rewritten : Rollout → Rollout
  rewritten r = if has_id i r then f r else r

  rewritten_lane : (r : Rollout) → (rewritten r).lane ≡ r.lane
  rewritten_lane r = elim (Bool-cases (has_id i r)) [ inl h ↦ rw h (keeps r) | inr h ↦ rw h ]

  rewritten-Idle :
      (l : Lane) (r : Rollout)
      → (r.id ≡ i → is_active r.state ≡ true)
      → Idle l r
      → Idle l (rewritten r)
  rewritten-Idle l r a d = elim (Bool-cases (has_id i r)) [
    | inl h ↦ rw h λ k. absurd (cc (a (ground arith), d (rw (keeps r) at k)))
    | inr h ↦ rw h d
  ]

  Idle-update :
      (l : Lane) (rs : List Rollout)
      → All (λ s. s.id ≡ i → is_active s.state ≡ true) rs
      → All (Idle l) rs
      → All (Idle l) (update (has_id i) f rs)
  unfolding update
  Idle-update l [] a d = tt
  Idle-update l (r ∷ rs) a d = (rewritten-Idle l r a.0 d.0, Idle-update l rs a.1 d.1)

  Sole-update :
      (rs : List Rollout)
      → All (λ s. s.id ≡ i → is_active s.state ≡ true) rs
      → Sole rs
      → Sole (update (has_id i) f rs)
  unfolding update
  Sole-update [] a s = tt
  Sole-update (r ∷ rs) a s =
      (rw (rewritten_lane r) (Idle-update r.lane rs a.1 s.0), Sole-update rs a.1 s.1)

-- The rows of a table that share the key of the lane's active rollout are active.
locked_active :
    (db : Db) (l : Lane) (r : Rollout)
    → Inv db
    → locked_active_current db l ≡ some r
    → All (λ s. s.id ≡ r.id → is_active s.state ≡ true) db.rollouts
unfolding locked_active_current latest
locked_active db l r v e = elim (Option-cases (latest db l)) [
  | inl q ↦ absurd (cc (e, ap if_active q))
  | inr (c, q) ↦
      let same : c ≡ r = ground arith in
      All-map (λ s u k. rw (u (rw same k)) (ground arith)) db.rollouts
        (newest_unique (λ x. x.id) (on_lane l) db.next_rollout db.rollouts c v.below q)
]

-- An operation that rewrites the lane's active rollout keeps the invariant.
abbrev pub Rewrites : Db → Db → ℕ → (Rollout → Rollout) → Type 0
Rewrites db db' i f =
    (db'.rollouts ≡ update (has_id i) f db.rollouts) × (db'.next_rollout ≡ db.next_rollout)

pub rewrite-Inv :
    (db db' : Db) (l : Lane) (r : Rollout) (f : Rollout → Rollout)
    → ((q : Rollout) → (f q).id ≡ q.id)
    → ((q : Rollout) → (f q).lane ≡ q.lane)
    → ((q : Rollout) → (f q).state ≢ aborted)
    → Inv db
    → locked_active_current db l ≡ some r
    → Rewrites db db' r.id f
    → Inv db'
rewrite-Inv db db' l r f id_kept lane_kept alive v e (rows, next) = record {
  below =
      rw (rows, next)
        (Descending-update (λ q. q.id) (has_id r.id) f id_kept db.next_rollout db.rollouts v.below);
  sole = rw rows (Sole-update r.id f lane_kept db.rollouts (locked_active db l r v e) v.sole);
  not_aborted = rw rows (
      All-update (λ q. q.state ≢ aborted) (has_id r.id) f db.rollouts
        (All-map
          (λ q h. elim (Bool-cases (has_id r.id q)) [ inl k ↦ rw k (alive q) | inr k ↦ rw k h ])
          db.rollouts v.not_aborted));
}
