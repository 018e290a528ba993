-- ===== src/DualControl/Sound.antt =====
-- internal/dualcontrol/dualcontrol.go: what the statements keep true of the sign-offs and of what they
-- let be committed.
use nebula_control_plane.Prelude.{
  ℕ, zero, suc, ◌≤◌, ◌<◌, ◌≡◌, refl, String, Bool, true, false, List, [], ◌∷◌, ◌++◌, Option, none,
  some, arith, count, update, Bool-cases, inl, inr, All, All-map, All-middle, All-update,
}
use nebula_control_plane.DualControl.Types.{
  State, AuditEvent, Change, Signoff, Db, has_id, open_with_id, committed, failed, voted,
  approval_of, Vote,
}
use nebula_control_plane.DualControl.Controller.{
  claim, commit_section, finish, set_state, sign, audit, finalize, run_committer, is_committed,
}
use nebula_control_plane.DualControl.System.{System, after_claim}
use nebula_control_plane.DualControl.Approvers.{NoRepeat, has_id-eq}

module _ (q : ℕ) where
  abbrev pub Approved : List Signoff → ℕ → Type 0
  Approved ss i = q ≤ count (approval_of i) ss

  abbrev pub Row : ℕ → List Signoff → Change → Type 0
  Row n ss c = (c.id < n) × (c.quorum ≡ q) × (is_committed c.state ≡ true → Approved ss c.id)

  pub record IsSound (s : System) : Type 0 where
    pub rows : All (Row s.db.next_change s.db.signoffs) s.db.changes
    pub voters_known : All (λ v. v.change_id < s.db.next_change) s.db.signoffs
    pub no_repeat : NoRepeat s.db.signoffs
    pub claiming_approved : All (λ c. Approved s.db.signoffs c.id) s.claiming
    pub committing_approved : All (λ c. Approved s.db.signoffs c.id) s.committing
    pub commits_approved : All (Approved s.db.signoffs) s.db.commits

  -- One more vote takes no approval away.
  Approved-cons : (v : Signoff) (ss : List Signoff) (i : ℕ) → Approved ss i → Approved (v ∷ ss) i
  unfolding count
  Approved-cons v ss i h = ground arith

  -- A vote by an actor who has not voted on the change.
  pub sign-IsSound :
      (s : System) (i : ℕ) (actor : String) (v : Vote) (now : ℕ)
      → i < s.db.next_change
      → count (voted i actor) s.db.signoffs ≡ 0
      → IsSound s
      → IsSound (record s { db = sign i actor v now s.db })
  unfolding sign
  sign-IsSound s i actor v now known unvoted h = record {
    rows =
        All-map (λ c r. (r.0, r.1, λ k. Approved-cons _ s.db.signoffs c.id (r.2 k))) s.db.changes
          h.rows;
    voters_known = (known, h.voters_known);
    no_repeat = (unvoted, h.no_repeat);
    claiming_approved =
        All-map (λ c. Approved-cons _ s.db.signoffs c.id) s.claiming h.claiming_approved;
    committing_approved =
        All-map (λ c. Approved-cons _ s.db.signoffs c.id) s.committing h.committing_approved;
    commits_approved =
        All-map (λ i. Approved-cons _ s.db.signoffs i) s.db.commits h.commits_approved;
  }

  -- A write to the rows that commits none but approved changes.
  rows-IsSound :
      (s : System) (p : Change → Bool) (f : Change → Change)
      → ((c : Change)
          → Row s.db.next_change s.db.signoffs c
          → p c ≡ true
          → Row s.db.next_change s.db.signoffs (f c))
      → IsSound s
      → IsSound (record s { db = record s.db { changes = update p f s.db.changes } })
  rows-IsSound s p f keeps h = record {
    rows = All-update (Row s.db.next_change s.db.signoffs) p f s.db.changes (
        All-map (λ c r. elim (Bool-cases (p c)) [ inl e ↦ rw e (keeps c r e) | inr e ↦ rw e r ])
          s.db.changes h.rows);
    voters_known = h.voters_known;
    no_repeat = h.no_repeat;
    claiming_approved = h.claiming_approved;
    committing_approved = h.committing_approved;
    commits_approved = h.commits_approved;
  }

  -- Moving a process on, or stopping it, keeps what is known of the others.
  pub phase-IsSound :
      (s : System) (waiting won : List Change)
      → IsSound s
      → All (λ c. Approved s.db.signoffs c.id) waiting
      → All (λ c. Approved s.db.signoffs c.id) won
      → IsSound (record s { claiming = waiting; committing = won })
  phase-IsSound s waiting won h w c = record {
    rows = h.rows;
    voters_known = h.voters_known;
    no_repeat = h.no_repeat;
    claiming_approved = w;
    committing_approved = c;
    commits_approved = h.commits_approved;
  }

  audit-IsSound :
      (s : System) (e : AuditEvent) → IsSound s → IsSound (record s { db = audit e s.db })
  unfolding audit
  audit-IsSound s e h = record {
    rows = h.rows;
    voters_known = h.voters_known;
    no_repeat = h.no_repeat;
    claiming_approved = h.claiming_approved;
    committing_approved = h.committing_approved;
    commits_approved = h.commits_approved;
  }

  pub set_state-IsSound :
      (s : System) (i : ℕ) (st : State) (now : ℕ)
      → (is_committed st ≡ true → Approved s.db.signoffs i)
      → IsSound s
      → IsSound (record s { db = set_state i st now s.db })
  unfolding set_state
  set_state-IsSound s i st now approved h =
      rows-IsSound s (has_id i) _ (λ c r e. (r.0, r.1, λ k. rw (has_id-eq i c e) (approved k))) h

  finalize-IsSound :
      (writes : Bool) (s : System) (i : ℕ) (st : State) (now : ℕ)
      → (is_committed st ≡ true → Approved s.db.signoffs i)
      → IsSound s
      → IsSound (record s { db = finalize writes s.db i st now })
  unfolding finalize
  finalize-IsSound false s i st now approved h = h
  finalize-IsSound true s i st now approved h = set_state-IsSound s i st now approved h

  pub unvoted :
      (n : ℕ) (a : String) (ss : List Signoff)
      → All (λ v. v.change_id < n) ss
      → count (voted n a) ss ≡ 0
  unfolding count
  unvoted n a [] h = refl
  unvoted n a (s ∷ ss) h = ground (arith, unvoted n a ss h.1)

  after_claim-IsSound :
      (s : System) (db : Db) (n : ℕ) (c : Change) (rest : List Change)
      → IsSound (record s { db = db })
      → Approved db.signoffs c.id
      → All (λ k. Approved db.signoffs k.id) rest
      → IsSound (after_claim s c rest (db, n))
  after_claim-IsSound s db zero c rest h a r =
      phase-IsSound (record s { db = db }) rest s.committing h r h.committing_approved
  after_claim-IsSound s db (suc n) c rest h a r =
      phase-IsSound (record s { db = db }) rest (c ∷ s.committing) h r (a, h.committing_approved)

  pub claim-IsSound :
      (s : System) (before : List Change) (c : Change) (rest : List Change)
      → s.claiming ≡ before ++ (c ∷ rest)
      → IsSound s
      → IsSound (after_claim s c (before ++ rest) (claim s.db c.id))
  unfolding claim
  claim-IsSound s before c rest e h =
      let parts =
        All-middle (λ k. Approved s.db.signoffs k.id) before c rest (rw e at h.claiming_approved) in
      after_claim-IsSound s (claim s.db c.id).0 (claim s.db c.id).1 c (before ++ rest)
        (rows-IsSound s (open_with_id c.id) _ (λ x r k. (r.0, r.1, λ j. cc)) h) parts.0 parts.1

  module _ (committers : String → Option (Change → Option String)) where
    finish-IsSound :
        (writes : Bool) (s : System) (c : Change) (actor : String) (now : ℕ) (r : Option String)
        → Approved s.db.signoffs c.id
        → IsSound s
        → IsSound (record s { db = (finish committers writes s.db c actor now r).0 })
    finish-IsSound writes s c actor now none a h =
        audit-IsSound (record s { db = finalize writes s.db c.id committed now }) _
          (finalize-IsSound writes s c.id committed now (λ _. a) h)
    finish-IsSound writes s c actor now (some e) a h =
        audit-IsSound (record s { db = finalize writes s.db c.id failed now }) _
          (finalize-IsSound writes s c.id failed now (λ k. cc) h)

    pub commit-IsSound :
        (s : System) (before : List Change) (c : Change) (rest : List Change) (writes : Bool)
        (actor : String) (now : ℕ)
        → s.committing ≡ before ++ (c ∷ rest)
        → IsSound s
        → IsSound (record s {
          db = (commit_section committers writes s.db c actor now).0;
          committing = before ++ rest;
        })
    unfolding commit_section
    commit-IsSound s before c rest writes actor now e h =
        let parts =
          All-middle (λ k. Approved s.db.signoffs k.id) before c rest
            (rw e at h.committing_approved) in
        finish-IsSound writes
          (record s {
            db = record s.db { commits = c.id ∷ s.db.commits };
            committing = before ++ rest;
          })
          c actor now (run_committer (committers c.kind) c) parts.0
          (record {
            rows = h.rows;
            voters_known = h.voters_known;
            no_repeat = h.no_repeat;
            claiming_approved = h.claiming_approved;
            committing_approved = parts.1;
            commits_approved = (parts.0, h.commits_approved);
          })
