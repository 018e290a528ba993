-- ===== src/Enrollment/Backed.antt =====
-- internal/enrollment/enrollment.go: the results that are delivered, and the rows behind them.
use nebula_control_plane.Prelude.{
  ℕ, ◌≤◌, eq_iff, String, true, false, List, ◌∷◌, ◌≡◌, refl, sym, subst, arith, Bool-cases, inl,
  inr, ◌==◌, str_eq, count, update, All, All-map, All-append, All-update, count-update_others,
}
use nebula_control_plane.Queue.Types.{Outcome, Db, of_enrollment}
use nebula_control_plane.Queue.Results.{put_result}
use nebula_control_plane.Enrollment.Types.{
  EnrollmentStatus, pending, issued, denied, status_text, is_issued, is_pending, Enrollment, Tables,
  World, pending_row, issued_row,
}
use nebula_control_plane.Enrollment.Services.{Config, Services}
use nebula_control_plane.Enrollment.Approve.{approved, rejected_row}
use nebula_control_plane.Enrollment.Moves.{Closed}
use nebula_control_plane.Enrollment.History.{Step, run, run-P}

-- A result that says `issued` has an issued row.
abbrev pub BackedBy : List Enrollment → Outcome → Type 0
BackedBy rows o =
    str_eq o.status "issued" ≡ true → (count (issued_row o.enrollment_id) rows == 0) ≡ false

abbrev pub Backed : ℕ → Tables → Type 0
Backed j t = All (BackedBy t.rows) t.queue.results

-- More issued rows back as many results.
Backed-more :
    (rows rows' : List Enrollment) (results : List Outcome)
    → ((e : String) → count (issued_row e) rows ≤ count (issued_row e) rows')
    → All (BackedBy rows) results
    → All (BackedBy rows') results
Backed-more rows rows' results more h =
    All-map (λ o b s. ground (arith, b s, more o.enrollment_id)) results h

insert-more :
    (r : Enrollment) (rows : List Enrollment) (e : String)
    → count (issued_row e) rows ≤ count (issued_row e) (r ∷ rows)
unfolding count
insert-more r rows e = ground arith

issued_apart : (s : EnrollmentStatus) → is_issued s ≡ true → is_pending s ≡ false
issued_apart pending h = cc
issued_apart issued h = refl
issued_apart denied h = refl

-- A decision on pending rows takes no issued one away.
update-more :
    (f : Enrollment → Enrollment) (i : String) (rows : List Enrollment) (e : String)
    → count (issued_row e) rows ≤ count (issued_row e) (update (pending_row i) f rows)
update-more f i rows e =
    count-update_others (pending_row i) (issued_row e) f
      (λ x h. ground (arith, issued_apart x.status)) rows

says_issued : (s : EnrollmentStatus) → str_eq (status_text s) "issued" ≡ true → is_issued s ≡ true
says_issued pending h = h
says_issued issued h = refl
says_issued denied h = h

put_result-Backed :
    (rows : List Enrollment) (db : Db) (id secret bundle : String) (status : EnrollmentStatus)
    (reason : String) (expires_at : ℕ)
    → (is_issued status ≡ true → (count (issued_row id) rows == 0) ≡ false)
    → All (BackedBy rows) db.results
    → All
        (BackedBy rows)
        (put_result db id (status_text status) secret bundle reason expires_at).results
unfolding put_result
put_result-Backed rows db id secret bundle status reason expires_at h all =
    let said : str_eq (status_text status) "issued" ≡ true
        → (count (issued_row id) rows == 0) ≡ false =
      λ s. h (says_issued status s) in
    elim (Bool-cases (count (of_enrollment id) db.results == 0)) [
      | inl new ↦ rw new (All-append (BackedBy rows) db.results _ all (said, tt))
      | inr old ↦ rw old (
          All-update (BackedBy rows) (of_enrollment id) _ db.results (
            All-map
              (λ o b. elim (Bool-cases (of_enrollment id o)) [
                | inr other ↦ rw other b
                | inl same ↦
                    let e : o.enrollment_id ≡ id = ground (arith, eq_iff o.enrollment_id id) in
                    rw same
                      (λ s. subst (λ i. (count (issued_row i) rows == 0) ≡ false) (sym e) (said s))
              ])
              db.results all))
    ]

Backed-Closed : Closed Backed
Backed-Closed = record {
  forget = λ j t p. p;
  insert =
      λ j t r p e h free. Backed-more t.rows (r ∷ t.rows) t.queue.results (insert-more r t.rows) p;
  count_use = λ t hash k p f n. p;
  write = λ t i secret bundle status reason expires_at p h.
      put_result-Backed t.rows t.queue i secret bundle status reason expires_at h p;
  requeue = λ t db p e. subst (All (BackedBy t.rows)) (sym e) p;
  fly = λ t i fl p f free. p;
  land = λ t i p. p;
  claim = λ t i fl now p e.
      Backed-more t.rows _ t.queue.results
        (update-more (approved fl now) fl.row.enrollment_id t.rows) p;
  reject = λ t i approver now p.
      Backed-more t.rows _ t.queue.results (update-more (rejected_row approver now) i t.rows) p;
  create = λ t writes p hash now q. q;
  revoke = λ t writes name q. q;
  edit = λ t answers name p now n q. q;
}

-- A result is never `issued` without an issued row of its enrollment, in any history of calls, where
-- that held at first.
pub run-Backed :
    {S : Type 0} (svc : Services S) (cfg : Config) (w : World S) (ss : List Step)
    → Backed 0 w.tables
    → Backed 0 (run svc cfg w ss).tables
run-Backed svc cfg w ss b = run-P svc cfg Backed Backed-Closed w ss b
