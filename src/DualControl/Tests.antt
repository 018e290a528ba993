-- ===== src/DualControl/Tests.antt =====
-- The approval workflow, with a quorum of two, on one policy change.
use nebula_control_plane.Prelude.{
  ℕ, ◌≡◌, ◌≤◌, refl, String, true, [], ◌∷◌, Option, none, some, arith, count, update, ◌==◌, find,
  All,
}
use nebula_control_plane.DualControl.Types.{
  Change, Signoff, State, Db, pending, committing, committed, approves, ok, has_id,
}
use nebula_control_plane.DualControl.Controller.{
  approve, propose_tx, approve_tx, sign, load_pending, is_committed, claim, commit_section,
}
use nebula_control_plane.DualControl.System.{
  System, Reach, initial, next, proposes, votes, claims, commits, start,
}
use nebula_control_plane.DualControl.CommitOnce.{commit_once}
use nebula_control_plane.DualControl.Quorum.{two_person, TwoPerson}
use nebula_control_plane.DualControl.Outcome.{approve_commits, all_answer}

abbrev digest : String → String
digest x = x

abbrev committers : String → Option (Change → Option String)
committers k = some (λ c. none)

abbrev change : State → ℕ → Change
change s decided = record {
  id = 1;
  kind = "policy";
  target = "";
  payload = "allow";
  payload_hash = "allow";
  state = s;
  quorum = 2;
  proposer = "alice";
  created_at = 10;
  decided_at = decided;
}

abbrev signoff : ℕ → String → ℕ → Signoff
signoff i actor now = record {
  id = i;
  change_id = 1;
  actor = actor;
  decision = approves;
  created_at = now;
}

abbrev proposed_db : Db
proposed_db = propose_tx digest 2 start.db "policy" "" "allow" "alice" 10

abbrev proposed_system : System
proposed_system = record start { db = proposed_db }

proposed : Reach digest committers 2 proposed_system
proposed = next initial (proposes "policy" "" "allow" "alice" 10)

abbrev voted_db : Db
voted_db = record {
  changes = change pending 0 ∷ [];
  signoffs = signoff 2 "bob" 20 ∷ signoff 1 "alice" 10 ∷ [];
  next_change = 2;
  next_signoff = 3;
  log = [];
  commits = [];
}

abbrev voted_system : System
voted_system = record { db = voted_db; claiming = change pending 0 ∷ []; committing = [] }

abbrev claimed_system : System
claimed_system = record {
  db = record voted_db { changes = change committing 0 ∷ [] };
  claiming = [];
  committing = change pending 0 ∷ [];
}

abbrev done_db : Db
done_db = (commit_section committers true claimed_system.db (change pending 0) "bob" 30).0

abbrev done_system : System
done_system = record { db = done_db; claiming = []; committing = [] }

voted : Reach digest committers 2 voted_system
unfolding propose_tx approve_tx sign load_pending find count
voted = next proposed (votes true 1 "bob" 20)

claimed : Reach digest committers 2 claimed_system
unfolding claim update count
claimed = next voted (claims [] (change pending 0) [] refl)

done : Reach digest committers 2 done_system
done = next claimed (commits [] (change pending 0) [] true "bob" 30 refl)

commit_once_example : count (λ k. k == 1) done_db.commits ≤ 1
commit_once_example = commit_once digest committers 2 done 1

two_person_example :
    All (TwoPerson digest committers 2 done_db.signoffs) done_db.commits
    × All
        (λ c. is_committed c.state ≡ true → TwoPerson digest committers 2 done_db.signoffs c.id)
        done_db.changes
two_person_example = two_person digest committers 2 done

approve_commits_example :
    let (after, answer) = approve committers all_answer proposed_db 1 "bob" 20 in
    (answer ≡ ok (change committed 20))
    × (find (has_id 1) after.changes ≡ some (change committed 20))
    × (after.commits ≡ 1 ∷ [])
unfolding propose_tx sign find count
approve_commits_example =
    approve_commits committers proposed_db "bob" 20 (change pending 0) refl refl (λ e. cc) (λ e. cc)
      refl (omega arith) refl
