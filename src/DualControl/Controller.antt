-- ===== src/DualControl/Controller.antt =====
-- internal/dualcontrol/dualcontrol.go: `Propose`, `Approve`, `Deny` and the queries. A transaction
-- commits or leaves the store as it was; each other statement has a flag that says whether the
-- database carries it out. `digest` is SHA-256 and `committers` the registered committers: for a
-- kind none, or a function to the error that it returns, if any.
use nebula_control_plane.Prelude.{
  ℕ, suc, String, Bool, true, false, ◌&&◌, ◌∷◌, Option, none, some, find, count, update, newest,
  if◌then◌else◌, ltb, leb, ◌==◌, str_eq,
}
use nebula_control_plane.DualControl.Types.{
  State, pending, committing, committed, denied, failed, Vote, approves, denies, Error, not_found,
  not_pending, self_approval, duplicate_actor, no_proposer, no_actor, db_error, commit_failed,
  Result, ok, err, Change, AuditEvent, proposed, approve_blocked, approve_recorded, commit_event,
  commit_failed_event, deny_event, Db, is_pending, has_id, open_with_id, voted, approval_of,
}

-- `New`: quorum is at least two.
abbrev pub clamp_quorum : ℕ → ℕ
clamp_quorum q = if ltb q 2 then 2 else q

unfoldable pub audit : AuditEvent → Db → Db
audit e db = record db { log = e ∷ db.log }

unfoldable pub sign : ℕ → String → Vote → ℕ → Db → Db
sign i actor v now db = record db {
  signoffs =
      record { id = db.next_signoff; change_id = i; actor = actor; decision = v; created_at = now }
      ∷ db.signoffs;
  next_signoff = suc db.next_signoff;
}

-- `UPDATE approvals SET state = ?, decided_at = ? WHERE id = ?`.
unfoldable pub set_state : ℕ → State → ℕ → Db → Db
set_state i s now db = record db {
  changes = update (has_id i) (λ c. record c { state = s; decided_at = now }) db.changes;
}

abbrev pending_only : Option Change → Result Change
pending_only none = err not_found
pending_only (some c) = if is_pending c.state then ok c else err not_pending

-- `loadPending`.
unfoldable pub load_pending : Db → ℕ → Result Change
load_pending db i = pending_only (find (has_id i) db.changes)

-- `reload`.
unfoldable pub reload : Bool → Db → ℕ → Result Change
reload false db i = err db_error
reload true db i = elim (find (has_id i) db.changes) [ none ↦ err db_error | some c ↦ ok c ]

module _ (digest : String → String) where
  abbrev pub new_change : ℕ → Db → String → String → String → String → ℕ → Change
  new_change q db kind target payload proposer now = record {
    id = db.next_change;
    kind = kind;
    target = target;
    payload = payload;
    payload_hash = digest payload;
    state = pending;
    quorum = clamp_quorum q;
    proposer = proposer;
    created_at = now;
    decided_at = 0;
  }

  -- The transaction of `Propose`: the change and its proposer's sign-off.
  unfoldable pub propose_tx : ℕ → Db → String → String → String → String → ℕ → Db
  propose_tx q db kind target payload proposer now =
      sign db.next_change proposer approves now (record db {
        changes = new_change q db kind target payload proposer now ∷ db.changes;
        next_change = suc db.next_change;
      })

  -- `Propose`.
  unfoldable pub propose :
      Bool → ℕ → Db → String → String → String → String → ℕ → Db × Result Change
  propose commits q db kind target payload proposer now =
      if str_eq proposer ""
      then (db, err no_proposer)
      else if commits
      then (
        audit (proposed proposer db.next_change) (propose_tx q db kind target payload proposer now),
        ok (new_change q db kind target payload proposer now),
      )
      else (db, err db_error)

abbrev pub vote_on : Db → ℕ → String → ℕ → Result Change → Db × Result (Change × Bool)
vote_on db i actor now (err e) = (db, err e)
vote_on db i actor now (ok c) =
    if str_eq actor c.proposer
    then (db, err self_approval)
    else if ltb 0 (count (voted i actor) db.signoffs)
    then (db, err duplicate_actor)
    else (let db' = sign i actor approves now db in
        (db', ok (c, leb c.quorum (count (approval_of i) db'.signoffs))))

-- The transaction of `Approve`: record the vote; the flag says whether quorum is reached.
unfoldable pub approve_tx : Bool → Db → ℕ → String → ℕ → Db × Result (Change × Bool)
approve_tx false db i actor now = (db, err db_error)
approve_tx true db i actor now = vote_on db i actor now (load_pending db i)

-- The compare-and-set of `Approve` from pending to committing, with the rows it affects.
unfoldable pub claim : Db → ℕ → Db × ℕ
claim db i = (
  record db { changes = update (open_with_id i) (λ c. record c { state = committing }) db.changes },
  count (open_with_id i) db.changes,
)

-- `finalize`; a failing write is ignored.
unfoldable pub finalize : Bool → Db → ℕ → State → ℕ → Db
finalize false db i s now = db
finalize true db i s now = set_state i s now db

abbrev pub run_committer : Option (Change → Option String) → Change → Option String
run_committer none c = none
run_committer (some f) c = f c

-- Which statements of one call of `Approve` the database carries out.
pub record Answers : Type 0 where
  pub votes : Bool
  pub claims : Bool
  pub finalizes : Bool
  pub reloads : Bool

module _ (committers : String → Option (Change → Option String)) where
  abbrev pub finish : Bool → Db → Change → String → ℕ → Option String → Db × Option Error
  finish writes db c actor now none =
      (audit (commit_event actor c.id) (finalize writes db c.id committed now), none)
  finish writes db c actor now (some e) = (
    audit (commit_failed_event actor c.id) (finalize writes db c.id failed now),
    some (commit_failed e),
  )

  -- The section of `Approve` behind a won claim: run the committer, then finalize.
  unfoldable pub commit_section : Bool → Db → Change → String → ℕ → Db × Option Error
  commit_section writes db c actor now =
      finish writes (record db { commits = c.id ∷ db.commits }) c actor now
        (run_committer (committers c.kind) c)

  abbrev or_reloaded : Bool → Db → ℕ → Option Error → Db × Result Change
  or_reloaded up db i none = (db, reload up db i)
  or_reloaded up db i (some e) = (db, err e)

  abbrev pub commit_claimed : Answers → ℕ → Db × ℕ → Change → String → ℕ → Db × Result Change
  commit_claimed a i (db, rows) c actor now =
      if rows == 0
      then (db, reload a.reloads db i)
      else (let (db', e) = commit_section a.finalizes db c actor now in
          or_reloaded a.reloads db' i e)

  abbrev pub after_vote :
      Answers → ℕ → String → ℕ → Db × Result (Change × Bool) → Db × Result Change
  after_vote a i actor now (db, err self_approval) =
      (audit (approve_blocked actor i) db, err self_approval)
  after_vote a i actor now (db, err duplicate_actor) =
      (audit (approve_blocked actor i) db, err duplicate_actor)
  after_vote a i actor now (db, err e) = (db, err e)
  after_vote a i actor now (db, ok (c, false)) =
      let db' = audit (approve_recorded actor i) db in (db', reload a.reloads db' i)
  after_vote a i actor now (db, ok (c, true)) =
      if a.claims then commit_claimed a i (claim db i) c actor now else (db, err db_error)

  -- `Approve`.
  unfoldable pub approve : Answers → Db → ℕ → String → ℕ → Db × Result Change
  approve a db i actor now =
      if str_eq actor ""
      then (db, err no_actor)
      else after_vote a i actor now (approve_tx a.votes db i actor now)

abbrev pub deny_loaded : Db → ℕ → String → ℕ → Result Change → Db × Result (Unit {0})
deny_loaded db i actor now (err e) = (db, err e)
deny_loaded db i actor now (ok c) = (
  set_state i denied now
      (if count (voted i actor) db.signoffs == 0 then sign i actor denies now db else db),
  ok tt,
)

-- The transaction of `Deny`.
unfoldable pub deny_tx : Bool → Db → ℕ → String → ℕ → Db × Result (Unit {0})
deny_tx false db i actor now = (db, err db_error)
deny_tx true db i actor now = deny_loaded db i actor now (load_pending db i)

abbrev after_deny : Bool → ℕ → String → Db × Result (Unit {0}) → Db × Result Change
after_deny up i actor (db, err e) = (db, err e)
after_deny up i actor (db, ok u) = let db' = audit (deny_event actor i) db in (db', reload up db' i)

-- `Deny`.
unfoldable pub deny : Bool → Bool → Db → ℕ → String → ℕ → Db × Result Change
deny commits up db i actor now =
    if str_eq actor ""
    then (db, err no_actor)
    else after_deny up i actor (deny_tx commits db i actor now)

abbrev pub is_committed : State → Bool
is_committed committed = true
is_committed pending = false
is_committed committing = false
is_committed denied = false
is_committed failed = false

-- `LatestCommitted`.
unfoldable pub latest_committed : Db → String → Option Change
latest_committed db kind =
    newest (λ c. c.id) (λ c. str_eq c.kind kind && is_committed c.state) db.changes
