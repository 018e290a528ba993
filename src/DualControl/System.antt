-- ===== src/DualControl/System.antt =====
-- internal/dualcontrol/dualcontrol.go, run by several processes at once: the statements of `Approve`
-- interleave with those of other calls. A process that has reached quorum stands in `claiming`, one
-- that has won the claim in `committing`; it may stop there for ever.
use nebula_control_plane.Prelude.{
  ℕ, zero, suc, ◌≡◌, String, Bool, true, false, List, [], ◌∷◌, ◌++◌, Option,
}
use nebula_control_plane.DualControl.Types.{denied, Result, ok, err, Change, Db}
use nebula_control_plane.DualControl.Controller.{
  propose_tx, approve_tx, claim, commit_section, deny_tx, set_state,
}

pub record System : Type 0 where
  pub db : Db
  pub claiming : List Change
  pub committing : List Change

abbrev pub empty_db : Db
empty_db = record {
  changes = [];
  signoffs = [];
  next_change = 1;
  next_signoff = 1;
  log = [];
  commits = [];
}

abbrev pub start : System
start = record { db = empty_db; claiming = []; committing = [] }

-- The next statement of an `Approve` whose vote is in: claim, where quorum was reached.
abbrev pub after_vote_tx : System → Db × Result (Change × Bool) → System
after_vote_tx s (db, err e) = record s { db = db }
after_vote_tx s (db, ok (c, false)) = record s { db = db }
after_vote_tx s (db, ok (c, true)) = record s { db = db; claiming = c ∷ s.claiming }

abbrev pub after_claim : System → Change → List Change → Db × ℕ → System
after_claim s c rest (db, zero) = record s { db = db; claiming = rest }
after_claim s c rest (db, suc n) = record s {
  db = db;
  claiming = rest;
  committing = c ∷ s.committing;
}

module _ (digest : String → String) (committers : String → Option (Change → Option String))
    (quorum : ℕ) where
  pub data Step (s : System) : System → Type 0 where
    proposes :
        (kind target payload proposer : String) (now : ℕ)
        → Step s (record s { db = propose_tx digest quorum s.db kind target payload proposer now })
    votes :
        (commits : Bool) (i : ℕ) (actor : String) (now : ℕ)
        → Step s (after_vote_tx s (approve_tx commits s.db i actor now))
    claims :
        (before : List Change) (c : Change) (rest : List Change)
        → s.claiming ≡ before ++ (c ∷ rest)
        → Step s (after_claim s c (before ++ rest) (claim s.db c.id))
    commits :
        (before : List Change) (c : Change) (rest : List Change) (writes : Bool) (actor : String)
        (now : ℕ)
        → s.committing ≡ before ++ (c ∷ rest)
        → Step s (record s {
          db = (commit_section committers writes s.db c actor now).0;
          committing = before ++ rest;
        })
    denials :
        (commits : Bool) (i : ℕ) (actor : String) (now : ℕ)
        → Step s (record s { db = (deny_tx commits s.db i actor now).0 })
    -- The `UPDATE` of a `Deny` that loaded the change while it was pending, at any later time:
    -- where transactions are not serialized, its state may have moved on since.
    late_denials : (i now : ℕ) → Step s (record s { db = set_state i denied now s.db })

  pub data Reach : System → Type 0 where
    initial : Reach start
    next : {s t : System} → Reach s → Step s t → Reach t
