-- ===== src/Enrollment/Decided.antt =====
-- internal/enrollment/enrollment.go: an enrollment that is decided, over any history.
use nebula_control_plane.Prelude.{
  ℕ, String, true, false, List, ◌∷◌, some, ◌≡◌, refl, arith, eq_iff, Bool-cases, inl, inr, ◌==◌,
  str_eq, find, count, update, find-count, find-update, find_passes,
}
use nebula_control_plane.Queue.Types.{Candidate}
use nebula_control_plane.Enrollment.Types.{
  is_pending, Enrollment, done, Tables, World, of_id, pending_row,
}
use nebula_control_plane.Enrollment.Services.{Config, Carried, Services}
use nebula_control_plane.Enrollment.Approve.{approved, rejected_row}
use nebula_control_plane.Enrollment.Process.{summary_of}
use nebula_control_plane.Enrollment.Drain.{process}
use nebula_control_plane.Enrollment.Moves.{Closed}
use nebula_control_plane.Enrollment.History.{Step, run, run-P}

same_id : (a b c : String) → str_eq a c ≡ true → str_eq b c ≡ true → str_eq b a ≡ true
same_id a b c = ground (arith, eq_iff a c, eq_iff b c, eq_iff b a)

module _ (id : String) (r : Enrollment) (decided : is_pending r.status ≡ false) where
  abbrev Kept : ℕ → Tables → Type 0
  Kept j t = find (of_id id) t.rows ≡ some r

  -- A row of another enrollment does not hide it.
  insert-Kept :
      (new : Enrollment) (rows : List Enrollment)
      → find (of_id id) rows ≡ some r
      → (count (of_id new.enrollment_id) rows == 0) ≡ true
      → find (of_id id) (new ∷ rows) ≡ some r
  unfolding find
  insert-Kept new rows e h = elim (Bool-cases (str_eq new.enrollment_id id)) [
    | inr other ↦ rw other e
    | inl same ↦ absurd (
        ground (
          arith,
          find-count (of_id id) (of_id new.enrollment_id) rows r e
              (same_id new.enrollment_id r.enrollment_id id same (find_passes (of_id id) rows r e)),
        ))
  ]

  update-Kept :
      (i : String) (f : Enrollment → Enrollment) (rows : List Enrollment)
      → ((x : Enrollment) → of_id id (f x) ≡ of_id id x)
      → find (of_id id) rows ≡ some r
      → find (of_id id) (update (pending_row i) f rows) ≡ some r
  update-Kept i f rows blind e =
      let untouched : pending_row i r ≡ false = ground arith in
      let same = find-update (of_id id) (pending_row i) f blind rows r e in rw untouched at same

  Kept-Closed : Closed Kept
  Kept-Closed = record {
    forget = λ j t p. p;
    insert = λ j t new p e h free. insert-Kept new t.rows p h;
    count_use = λ t hash k p f n. p;
    write = λ t i secret bundle status reason expires_at p h. p;
    requeue = λ t db p e. p;
    fly = λ t i fl p f free. p;
    land = λ t i p. p;
    claim =
        λ t i fl now p e. update-Kept fl.row.enrollment_id (approved fl now) t.rows (λ x. refl) p;
    reject = λ t i approver now p. update-Kept i (rejected_row approver now) t.rows (λ x. refl) p;
    create = λ t writes p hash now q. q;
    revoke = λ t writes name q. q;
    edit = λ t answers name p now n q. q;
  }

module _ {S : Type 0} (svc : Services S) (cfg : Config) where
  -- Once an enrollment is issued or denied, its row is the same after any history of calls.
  pub decided_kept :
      (w : World S) (ss : List Step) (id : String) (r : Enrollment)
      → find (of_id id) w.tables.rows ≡ some r
      → is_pending r.status ≡ false
      → find (of_id id) (run svc cfg w ss).tables.rows ≡ some r
  decided_kept w ss id r e decided =
      run-P svc cfg (Kept id r decided) (Kept-Closed id r decided) w ss e

  -- Its candidate, delivered again at any later time, changes nothing and is answered with what was
  -- decided, where the row is read.
  pub redelivered_same :
      (f : Carried) (w : World S) (ss : List Step) (c : Candidate) (now : ℕ) (r : Enrollment)
      → f.reads_row ≡ true
      → find (of_id c.enrollment_id) w.tables.rows ≡ some r
      → is_pending r.status ≡ false
      → process svc cfg f (run svc cfg w ss) c now ≡ (run svc cfg w ss, done (summary_of r))
  unfolding process
  redelivered_same f w ss c now r reads e decided =
      rw (reads, decided_kept w ss c.enrollment_id r e decided) refl
