-- ===== src/DualControl/Closing.antt =====
-- internal/dualcontrol/dualcontrol.go: which statements open and close changes.
use nebula_control_plane.Prelude.{
  ℕ, zero, suc, ◌+◌, ◌≤◌, ◌≡◌, refl, String, Bool, true, false, List, ◌∷◌, ◌++◌, Option, none, some,
  arith, count, ◌==◌, count-middle, count-update-le, count-update_none, Bool-cases, inl, inr, ap,
  ◌∙◌,
}
use nebula_control_plane.DualControl.Types.{
  State, Result, ok, err, Change, Db, is_pending, has_id, open_with_id, committing, committed,
  denied, failed, denies, voted, commit_event, commit_failed_event, AuditEvent,
}
use nebula_control_plane.DualControl.Controller.{
  approve_tx, claim, commit_section, deny_tx, deny_loaded, set_state, sign, audit, load_pending,
  finalize, run_committer, finish,
}
use nebula_control_plane.DualControl.System.{System, after_vote_tx, after_claim}

-- How often a change is open for a commit, about to be committed, or committed.
abbrev weight : ℕ → System → ℕ
weight i s =
    count (open_with_id i) s.db.changes
    + (count (has_id i) s.committing + count (λ k. k == i) s.db.commits)

pub record IsOnce (i : ℕ) (s : System) : Type 0 where
  pub at_most_one : weight i s ≤ 1
  pub fresh_none : s.db.next_change ≤ i → weight i s ≡ 0

-- A statement that adds nothing to the weight and leaves the keys alone.
IsOnce-le :
    (i : ℕ) (s t : System)
    → weight i t ≤ weight i s
    → t.db.next_change ≡ s.db.next_change
    → IsOnce i s
    → IsOnce i t
IsOnce-le i s t h e o = record {
  at_most_one = omega (arith, o.at_most_one);
  fresh_none = λ k. omega (arith, o.fresh_none (rw (← e) k));
}

-- Votes change no change, no key and no commit.
pub record SameChanges (a b : Db) : Type 0 where
  pub changes : b.changes ≡ a.changes
  pub keys : b.next_change ≡ a.next_change
  pub commits : b.commits ≡ a.commits

pub approve_tx-SameChanges :
    (up : Bool) (db : Db) (i : ℕ) (actor : String) (now : ℕ)
    → SameChanges db (approve_tx up db i actor now).0
unfolding approve_tx sign
approve_tx-SameChanges false db i actor now = record { changes = refl; keys = refl; commits = refl }
approve_tx-SameChanges true db i actor now = ground arith

-- Writes that close a change, or leave it, and commit nothing.
pub record ClosesOnly (a b : Db) : Type 0 where
  pub opens_less : (k : ℕ) → count (open_with_id k) b.changes ≤ count (open_with_id k) a.changes
  pub keys : b.next_change ≡ a.next_change
  pub commits : b.commits ≡ a.commits

pub set_state-ClosesOnly :
    (i : ℕ) (s : State) (now : ℕ) (db : Db)
    → is_pending s ≡ false
    → ClosesOnly db (set_state i s now db)
unfolding set_state
set_state-ClosesOnly i s now db e = record {
  opens_less = λ k.
      count-update-le (open_with_id k) (has_id i) _ (λ x a b. absurd (ground arith)) db.changes;
  keys = refl;
  commits = refl;
}

same-ClosesOnly : (db : Db) → ClosesOnly db db
same-ClosesOnly db = record { opens_less = λ k. omega arith; keys = refl; commits = refl }

deny_loaded-ClosesOnly :
    (db : Db) (i : ℕ) (actor : String) (now : ℕ) (r : Result Change)
    → ClosesOnly db (deny_loaded db i actor now r).0
unfolding sign
deny_loaded-ClosesOnly db i actor now (err e) = same-ClosesOnly db
deny_loaded-ClosesOnly db i actor now (ok c) =
    elim (Bool-cases (count (voted i actor) db.signoffs == 0)) [
      | inl e ↦
          let r = set_state-ClosesOnly i denied now (sign i actor denies now db) refl in
          rw e (record { opens_less = r.opens_less; keys = r.keys; commits = r.commits })
      | inr e ↦ rw e (set_state-ClosesOnly i denied now db refl)
    ]

pub deny_tx-ClosesOnly :
    (up : Bool) (db : Db) (i : ℕ) (actor : String) (now : ℕ)
    → ClosesOnly db (deny_tx up db i actor now).0
unfolding deny_tx
deny_tx-ClosesOnly false db i actor now = same-ClosesOnly db
deny_tx-ClosesOnly true db i actor now = deny_loaded-ClosesOnly db i actor now (load_pending db i)

finalize-ClosesOnly :
    (writes : Bool) (db : Db) (i : ℕ) (s : State) (now : ℕ)
    → is_pending s ≡ false
    → ClosesOnly db (finalize writes db i s now)
unfolding finalize
finalize-ClosesOnly false db i s now e = record {
  opens_less = λ k. omega arith;
  keys = refl;
  commits = refl;
}
finalize-ClosesOnly true db i s now e = set_state-ClosesOnly i s now db e

-- A claim closes its change, and opens none.
claim_closes : (db : Db) (j : ℕ) → count (open_with_id j) (claim db j).0.changes ≡ 0
unfolding claim
claim_closes db j =
    count-update_none (open_with_id j) (λ c. record c { state = committing }) (λ x. ground arith)
      db.changes

claim_opens_none :
    (db : Db) (j k : ℕ)
    → count (open_with_id k) (claim db j).0.changes ≤ count (open_with_id k) db.changes
unfolding claim
claim_opens_none db j k =
    count-update-le (open_with_id k) (open_with_id j) _ (λ x a b. absurd (ground arith)) db.changes

claim-count : (db : Db) (j : ℕ) → (claim db j).1 ≡ count (open_with_id j) db.changes
unfolding claim
claim-count db j = refl

claim_weight :
    (k : ℕ) (s : System) (db' : Db) (n : ℕ) (c : Change) (rest : List Change)
    → db'.commits ≡ s.db.commits
    → count (open_with_id k) db'.changes ≤ count (open_with_id k) s.db.changes
    → (c.id ≡ k
        → (count (open_with_id k) db'.changes ≡ 0) × (n ≡ count (open_with_id k) s.db.changes))
    → weight k (after_claim s c rest (db', n)) ≤ weight k s
unfolding count
claim_weight k s db' zero c rest same less here = rw same (omega arith)
claim_weight k s db' (suc n) c rest same less here = elim (Bool-cases (c.id == k)) [
  | inl e ↦ rw (same, e) (omega (arith, here (ground arith)))
  | inr e ↦ rw (same, e) (omega arith)
]

after_claim-keys :
    (s : System) (db' : Db) (n : ℕ) (c : Change) (rest : List Change)
    → (after_claim s c rest (db', n)).db.next_change ≡ db'.next_change
after_claim-keys s db' zero c rest = refl
after_claim-keys s db' (suc n) c rest = refl

claim_keeps :
    (db : Db) (j : ℕ)
    → ((claim db j).0.commits ≡ db.commits) × ((claim db j).0.next_change ≡ db.next_change)
unfolding claim
claim_keeps db j = (refl, refl)

pub after_claim-IsOnce :
    (k : ℕ) (s : System) (c : Change) (rest : List Change)
    → IsOnce k s
    → IsOnce k (after_claim s c rest (claim s.db c.id))
after_claim-IsOnce k s c rest o =
    let (db', n) = claim s.db c.id in
    IsOnce-le k s (after_claim s c rest (db', n))
      (claim_weight k s db' n c rest (claim_keeps s.db c.id).0 (claim_opens_none s.db c.id k)
        (λ e. (rw (← e) (claim_closes s.db c.id), rw (← e) (claim-count s.db c.id))))
      (after_claim-keys s db' n c rest ∙ (claim_keeps s.db c.id).1) o

audit-ClosesOnly : (a b : Db) (e : AuditEvent) → ClosesOnly a b → ClosesOnly a (audit e b)
unfolding audit
audit-ClosesOnly a b e c = record { opens_less = c.opens_less; keys = c.keys; commits = c.commits }

module _ (committers : String → Option (Change → Option String)) where
  finish-ClosesOnly :
      (writes : Bool) (db : Db) (c : Change) (actor : String) (now : ℕ) (r : Option String)
      → ClosesOnly db (finish committers writes db c actor now r).0
  finish-ClosesOnly writes db c actor now none =
      audit-ClosesOnly db _ (commit_event actor c.id)
        (finalize-ClosesOnly writes db c.id committed now refl)
  finish-ClosesOnly writes db c actor now (some e) =
      audit-ClosesOnly db _ (commit_failed_event actor c.id)
        (finalize-ClosesOnly writes db c.id failed now refl)

  commit_section-ClosesOnly :
      (writes : Bool) (db : Db) (c : Change) (actor : String) (now : ℕ)
      → ClosesOnly
          (record db { commits = c.id ∷ db.commits })
          (commit_section committers writes db c actor now).0
  unfolding commit_section
  commit_section-ClosesOnly writes db c actor now =
      finish-ClosesOnly writes (record db { commits = c.id ∷ db.commits }) c actor now
        (run_committer (committers c.kind) c)

  pub commit-IsOnce :
      (k : ℕ) (s : System) (before : List Change) (c : Change) (rest : List Change) (writes : Bool)
      (actor : String) (now : ℕ)
      → s.committing ≡ before ++ (c ∷ rest)
      → IsOnce k s
      → IsOnce k (record s {
        db = (commit_section committers writes s.db c actor now).0;
        committing = before ++ rest;
      })
  unfolding count
  commit-IsOnce k s before c rest writes actor now e o =
      let r = commit_section-ClosesOnly writes s.db c actor now in
      let moved = ap (count (has_id k)) e ∙ count-middle (has_id k) before c rest in
      IsOnce-le k s _ (rw r.commits (ground (arith, r.opens_less k))) r.keys o

-- Votes leave what counts alone.
pub after_vote_tx-IsOnce :
    (k : ℕ) (s : System) (db : Db) (r : Result (Change × Bool))
    → SameChanges s.db db
    → IsOnce k s
    → IsOnce k (after_vote_tx s (db, r))
after_vote_tx-IsOnce k s db (err e) v o =
    IsOnce-le k s _ (rw (v.changes, v.commits) (omega arith)) v.keys o
after_vote_tx-IsOnce k s db (ok (c, false)) v o =
    IsOnce-le k s _ (rw (v.changes, v.commits) (omega arith)) v.keys o
after_vote_tx-IsOnce k s db (ok (c, true)) v o =
    IsOnce-le k s _ (rw (v.changes, v.commits) (omega arith)) v.keys o

pub closed-IsOnce :
    (k : ℕ) (s : System) (db : Db)
    → ClosesOnly s.db db
    → IsOnce k s
    → IsOnce k (record s { db = db })
closed-IsOnce k s db c o = IsOnce-le k s _ (rw c.commits (omega (arith, c.opens_less k))) c.keys o
