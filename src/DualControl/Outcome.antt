-- ===== src/DualControl/Outcome.antt =====
-- internal/dualcontrol/dualcontrol.go: what one call of `Approve` or `Deny` comes to.
use nebula_control_plane.Prelude.{
  ℕ, suc, ◌≤◌, ◌<◌, ◌≡◌, ◌≢◌, ◌⊎◌, refl, String, Bool, true, false, ◌∷◌, Option, none, some, arith,
  count, ◌∙◌, find, find_passes, find-count, find-update, ltb, leb, ◌==◌, Bool-cases, inl, inr,
  str_eq, eq_iff,
}
use nebula_control_plane.DualControl.Types.{
  Change, Db, ok, err, pending, committing, committed, has_id, open_with_id, voted, approval_of,
  is_pending, not_found, self_approval, duplicate_actor, no_proposer, no_actor, db_error,
  commit_failed, not_pending, approves, State, Error,
}
use nebula_control_plane.DualControl.Controller.{
  approve, approve_tx, load_pending, claim, commit_section, finalize, set_state, sign, audit,
  reload, run_committer, Answers, commit_claimed, after_vote,
}

abbrev pub all_answer : Answers
all_answer = record { votes = true; claims = true; finalizes = true; reloads = true }

-- A write to the state of the change that a query finds.
find-set_state :
    (i : ℕ) (s : State) (now : ℕ) (db : Db) (c : Change)
    → find (has_id i) db.changes ≡ some c
    → find (has_id i) (set_state i s now db).changes
      ≡ some (record c { state = s; decided_at = now })
unfolding set_state
find-set_state i s now db c e =
    find-update (has_id i) (has_id i) (λ c. record c { state = s; decided_at = now }) (λ x. refl)
      db.changes c e
    ∙ rw (find_passes (has_id i) db.changes c e) refl

find-claim :
    (i : ℕ) (db : Db) (c : Change)
    → find (has_id i) db.changes ≡ some c
    → c.state ≡ pending
    → find (has_id i) (claim db i).0.changes ≡ some (record c { state = committing })
unfolding claim
find-claim i db c e p =
    find-update (has_id i) (open_with_id i) (λ c. record c { state = committing }) (λ x. refl)
      db.changes c e
    ∙ rw (find_passes (has_id i) db.changes c e, p) refl

differ : (a b : String) → a ≢ b → str_eq a b ≡ false
differ a b n = elim (Bool-cases (str_eq a b)) [
  | inl t ↦ absurd (n (ground (arith, eq_iff a b)))
  | inr f ↦ f
]

loaded :
    (db : Db) (i : ℕ) (c : Change)
    → find (has_id i) db.changes ≡ some c
    → c.state ≡ pending
    → load_pending db i ≡ ok c
unfolding load_pending
loaded db i c e p = rw (e, p) refl

reload_finds :
    (db : Db) (i : ℕ) (c : Change) → find (has_id i) db.changes ≡ some c → reload true db i ≡ ok c
unfolding reload
reload_finds db i c e = rw (e, reload) refl

-- The vote of an actor who may vote.
approve_tx-records :
    (db : Db) (i : ℕ) (actor : String) (now : ℕ) (c : Change)
    → find (has_id i) db.changes ≡ some c
    → c.state ≡ pending
    → actor ≢ c.proposer
    → count (voted i actor) db.signoffs ≡ 0
    → approve_tx true db i actor now ≡ (
      sign i actor approves now db,
      ok (c, leb c.quorum (suc (count (approval_of i) db.signoffs))),
    )
unfolding approve_tx sign count
approve_tx-records db i actor now c e p other first =
    let same : (i == i) ≡ true = ground arith in
    rw (loaded db i c e p, differ actor c.proposer other, first, same) refl

blocked_vote :
    (up : Bool) (db : Db) (i : ℕ) (actor : String) (now : ℕ) (c : Change)
    → find (has_id i) db.changes ≡ some c
    → (actor ≡ c.proposer) ⊎ (0 < count (voted i actor) db.signoffs)
    → (f : Error) × (approve_tx up db i actor now ≡ (db, err f))
unfolding approve_tx load_pending
blocked_vote false db i actor now c e h = (_, refl)
blocked_vote true db i actor now c e (inl own) =
    let same : str_eq actor c.proposer ≡ true = ground (arith, eq_iff actor c.proposer) in
    elim (Bool-cases (is_pending c.state)) [
      | inl p ↦ (self_approval, rw (e, p, same) refl)
      | inr p ↦ (not_pending, rw (e, p) refl)
    ]
blocked_vote true db i actor now c e (inr again) =
    let voted : ltb 0 (count (voted i actor) db.signoffs) ≡ true = ground arith in
    elim (Bool-cases (is_pending c.state)) [
      | inl p ↦ elim (Bool-cases (str_eq actor c.proposer)) [
        | inl own ↦ (self_approval, rw (e, p, own) refl)
        | inr other ↦ (duplicate_actor, rw (e, p, other, voted) refl)
      ]
      | inr p ↦ (not_pending, rw (e, p) refl)
    ]

module _ (committers : String → Option (Change → Option String)) where
  -- A won claim of a pending change.
  claim_commits :
      (db : Db) (actor : String) (now : ℕ) (c : Change)
      → find (has_id c.id) db.changes ≡ some c
      → c.state ≡ pending
      → run_committer (committers c.kind) c ≡ none
      → let (after, answer) =
          commit_claimed committers all_answer c.id (claim db c.id) c actor now in
        (answer ≡ ok (record c { state = committed; decided_at = now }))
        × (find (has_id c.id) after.changes
            ≡ some (record c { state = committed; decided_at = now }))
        × (after.commits ≡ c.id ∷ db.commits)
  unfolding set_state claim commit_section finalize audit
  claim_commits db actor now c e p runs =
      let known : (c.id == c.id) ≡ true = ground arith in
      let wins = find-count (has_id c.id) (open_with_id c.id) db.changes c e (rw (known, p) refl) in
      let claimed = (claim db c.id).0 in
      let found =
        find-set_state c.id committed now (record claimed { commits = c.id ∷ db.commits })
          (record c { state = committing }) (find-claim c.id db c e p) in
      rw (wins, runs) (reload_finds _ c.id _ found, found, refl)

  -- The last approval that the quorum needs, by an actor who neither proposed nor voted, commits a
  -- pending change: its commit section runs once, and the row and the answer are the change in the
  -- state committed, when the database answers and the committer succeeds.
  pub approve_commits :
      (db : Db) (actor : String) (now : ℕ) (c : Change)
      → find (has_id c.id) db.changes ≡ some c
      → c.state ≡ pending
      → actor ≢ ""
      → actor ≢ c.proposer
      → count (voted c.id actor) db.signoffs ≡ 0
      → c.quorum ≤ suc (count (approval_of c.id) db.signoffs)
      → run_committer (committers c.kind) c ≡ none
      → let (after, answer) = approve committers all_answer db c.id actor now in
        (answer ≡ ok (record c { state = committed; decided_at = now }))
        × (find (has_id c.id) after.changes
            ≡ some (record c { state = committed; decided_at = now }))
        × (after.commits ≡ c.id ∷ db.commits)
  unfolding approve sign
  approve_commits db actor now c e p named other first enough runs =
      let reached : leb c.quorum (suc (count (approval_of c.id) db.signoffs)) ≡ true =
        ground arith in
      rw (differ actor "" named, approve_tx-records db c.id actor now c e p other first, reached)
        (claim_commits (sign c.id actor approves now db) actor now c e p runs)

  after_vote-keeps :
      (a : Answers) (i : ℕ) (actor : String) (now : ℕ) (db : Db) (e : Error)
      → let after = (after_vote committers a i actor now (db, err e)).0 in
        (after.changes ≡ db.changes) × (after.signoffs ≡ db.signoffs) × (after.commits ≡ db.commits)
  unfolding audit
  after_vote-keeps a i actor now db not_found = (refl, refl, refl)
  after_vote-keeps a i actor now db not_pending = (refl, refl, refl)
  after_vote-keeps a i actor now db self_approval = (refl, refl, refl)
  after_vote-keeps a i actor now db duplicate_actor = (refl, refl, refl)
  after_vote-keeps a i actor now db no_proposer = (refl, refl, refl)
  after_vote-keeps a i actor now db no_actor = (refl, refl, refl)
  after_vote-keeps a i actor now db db_error = (refl, refl, refl)
  after_vote-keeps a i actor now db (commit_failed m) = (refl, refl, refl)

  -- An actor who proposed the change, or has voted on it, cannot approve it, whatever the database
  -- answers: no row of either table changes and nothing is committed.
  pub repeat_blocked :
      (a : Answers) (db : Db) (i : ℕ) (actor : String) (now : ℕ) (c : Change)
      → find (has_id i) db.changes ≡ some c
      → (actor ≡ c.proposer) ⊎ (0 < count (voted i actor) db.signoffs)
      → let after = (approve committers a db i actor now).0 in
        (after.changes ≡ db.changes) × (after.signoffs ≡ db.signoffs) × (after.commits ≡ db.commits)
  unfolding approve
  repeat_blocked a db i actor now c e h =
      let (f, g) = blocked_vote a.votes db i actor now c e h in
      elim (Bool-cases (str_eq actor "")) [
        | inl t ↦ rw t (refl, refl, refl)
        | inr t ↦ rw (t, g) (after_vote-keeps a i actor now db f)
      ]
