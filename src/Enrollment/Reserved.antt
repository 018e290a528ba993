-- ===== src/Enrollment/Reserved.antt =====
-- internal/enrollment/enrollment.go: the groups of the certificates that enrollment issues.
use nebula_control_plane.Prelude.{
  ℕ, zero, suc, String, true, false, List, [], ◌∷◌, some, ◌≡◌, refl, ◌∙◌, ap, subst, arith, eq_iff,
  Bool-cases, inl, inr, ◌==◌, str_eq, find, count, update, All, All-map, All-both, All-update,
  find_passes, find-count, count_zero-All, count-update_same,
}
use nebula_control_plane.Policy.Check.{grants_reserved_group}
use nebula_control_plane.Enrollment.Types.{
  is_issued, Enrollment, Flight, Tables, World, of_id, pending_row,
}
use nebula_control_plane.Enrollment.Services.{Config, Services}
use nebula_control_plane.Enrollment.Approve.{approved, rejected_row}
use nebula_control_plane.Enrollment.Moves.{Closed, flight_at, drop_flight}
use nebula_control_plane.Enrollment.History.{Step, run, run-P}

-- One row for each enrollment.
abbrev pub Apart : List Enrollment → Type 0
Apart [] = Unit
Apart (r ∷ rows) = (count (of_id r.enrollment_id) rows ≡ 0) × Apart rows

abbrev pub Free : Enrollment → Type 0
Free r = is_issued r.status ≡ true → grants_reserved_group r.groups ≡ false

abbrev SameGroups : Flight → Enrollment → Type 0
SameGroups fl r = str_eq r.enrollment_id fl.row.enrollment_id ≡ true → r.groups ≡ fl.row.groups

-- An approval under way has a row, with the groups that were read, and they are not reserved.
abbrev pub Fit : List Enrollment → Flight → Type 0
Fit rows fl =
    ((count (of_id fl.row.enrollment_id) rows == 0) ≡ false)
    × (grants_reserved_group fl.row.groups ≡ false)
    × All (SameGroups fl) rows

abbrev pub Unprivileged : ℕ → Tables → Type 0
Unprivileged j t = Apart t.rows × All Free t.rows × All (Fit t.rows) t.flights

clash_other : (a b c : String) → str_eq a c ≡ true → str_eq a b ≡ false → b ≡ c → ⊥
clash_other a b c h n e = ground (arith, eq_iff a c, eq_iff a b)

clash_head : (a b c : String) → str_eq a b ≡ true → str_eq b c ≡ true → str_eq a c ≡ false → ⊥
clash_head a b c h k n = ground (arith, eq_iff a b, eq_iff b c, eq_iff a c)

-- The row that a query finds is the only one of its enrollment.
find-SameGroups :
    (id : String) (rows : List Enrollment) (fl : Flight)
    → Apart rows
    → find (of_id id) rows ≡ some fl.row
    → All (SameGroups fl) rows
unfolding find
find-SameGroups id [] fl a e = tt
find-SameGroups id (r ∷ rows) fl a e = elim (Bool-cases (of_id id r)) [
  | inl t ↦
      let same : some r ≡ some fl.row = rw t at e in
      let is_row : r ≡ fl.row = ground arith in
      (
        λ h. ap (λ x. x.groups) is_row,
        All-map
            (λ s other h. absurd (
              clash_other s.enrollment_id r.enrollment_id fl.row.enrollment_id h other
                (ap (λ x. x.enrollment_id) is_row)))
            rows (count_zero-All (of_id r.enrollment_id) rows a.0),
      )
  | inr t ↦
      let rest : find (of_id id) rows ≡ some fl.row = rw t at e in
      (
        λ h. absurd (
            clash_head r.enrollment_id fl.row.enrollment_id id h
              (find_passes (of_id id) rows fl.row rest) t),
        find-SameGroups id rows fl a.1 rest,
      )
]

-- A decision on pending rows leaves what identifies a row and its groups.
module _ (f : Enrollment → Enrollment)
    (ids : (x : Enrollment) → (f x).enrollment_id ≡ x.enrollment_id)
    (kept : (x : Enrollment) → (f x).groups ≡ x.groups) (i : String) where
  sees_nothing : (e : String) (x : Enrollment) → of_id e (f x) ≡ of_id e x
  sees_nothing e x = rw (ids x) refl

  update-Apart : (rows : List Enrollment) → Apart rows → Apart (update (pending_row i) f rows)
  unfolding update
  update-Apart [] a = tt
  update-Apart (r ∷ rows) a =
      let same =
        count-update_same (of_id r.enrollment_id) (pending_row i) f (sees_nothing r.enrollment_id)
          rows in
      elim (Bool-cases (pending_row i r)) [
        | inl t ↦ rw (t, ids r) (same ∙ a.0, update-Apart rows a.1)
        | inr t ↦ rw t (same ∙ a.0, update-Apart rows a.1)
      ]

  update-Fit :
      (rows : List Enrollment) (fl : Flight) → Fit rows fl → Fit (update (pending_row i) f rows) fl
  update-Fit rows fl h =
      let same =
        count-update_same (of_id fl.row.enrollment_id) (pending_row i) f
          (sees_nothing fl.row.enrollment_id) rows in
      (
        rw same h.0,
        h.1,
        All-update (SameGroups fl) (pending_row i) f rows (
            All-map
              (λ r s. elim (Bool-cases (pending_row i r)) [
                | inl t ↦ rw (t, ids r, kept r) s
                | inr t ↦ rw t s
              ])
              rows h.2),
      )

insert-Fit :
    (r : Enrollment) (rows : List Enrollment) (fl : Flight)
    → (count (of_id r.enrollment_id) rows == 0) ≡ true
    → Fit rows fl
    → Fit (r ∷ rows) fl
unfolding count
insert-Fit r rows fl new h = (
  ground (arith, h.0),
  h.1,
  (
    λ same.
        let e : fl.row.enrollment_id ≡ r.enrollment_id =
          ground (arith, eq_iff r.enrollment_id fl.row.enrollment_id) in
        absurd (ground (arith, subst (λ x. (count (of_id x) rows == 0) ≡ false) e h.0)),
    h.2,
  ),
)

All-flight_at {κ} :
    (Q : Flight → Type κ) (i : ℕ) (fls : List Flight) (fl : Flight)
    → All Q fls
    → flight_at i fls ≡ some fl
    → Q fl
All-flight_at Q i [] fl h e = cc
All-flight_at Q zero (x ∷ fls) fl h e = subst Q (ground arith) h.0
All-flight_at Q (suc i) (x ∷ fls) fl h e = All-flight_at Q i fls fl h.1 e

All-drop_flight {κ} :
    (Q : Flight → Type κ) (i : ℕ) (fls : List Flight) → All Q fls → All Q (drop_flight i fls)
All-drop_flight Q i [] h = tt
All-drop_flight Q zero (x ∷ fls) h = h.1
All-drop_flight Q (suc i) (x ∷ fls) h = (h.0, All-drop_flight Q i fls h.1)

-- What an approval writes has the groups that were read.
claim-Free :
    (fl : Flight) (now : ℕ) (rows : List Enrollment)
    → grants_reserved_group fl.row.groups ≡ false
    → All Free rows
    → All (SameGroups fl) rows
    → All Free (update (pending_row fl.row.enrollment_id) (approved fl now) rows)
claim-Free fl now rows unreserved free same =
    All-update Free (pending_row fl.row.enrollment_id) (approved fl now) rows (
      All-both
        (λ r keeps g. elim (Bool-cases (pending_row fl.row.enrollment_id r)) [
          | inr t ↦ rw t keeps
          | inl t ↦ rw t (λ i. ap grants_reserved_group (g (ground arith)) ∙ unreserved)
        ])
        rows free same)

reject-Free :
    (id approver : String) (now : ℕ) (rows : List Enrollment)
    → All Free rows
    → All Free (update (pending_row id) (rejected_row approver now) rows)
reject-Free id approver now rows free =
    All-update Free (pending_row id) (rejected_row approver now) rows (
      All-map
        (λ r keeps. elim (Bool-cases (pending_row id r)) [
          | inr t ↦ rw t keeps
          | inl t ↦ rw t (λ i. cc)
        ])
        rows free)

Unprivileged-Closed : Closed Unprivileged
Unprivileged-Closed = record {
  forget = λ j t p. p;
  insert = λ j t r p e h free. (
    (ground arith, p.0),
    (free, p.1),
    All-map (λ fl fit. insert-Fit r t.rows fl h fit) t.flights p.2,
  );
  count_use = λ t hash k p f n. p;
  write = λ t i secret bundle status reason expires_at p h. p;
  requeue = λ t db p e. p;
  fly = λ t id fl p f free. (
    p.0,
    p.1,
    (
      (
        ground (
          arith,
          find-count (of_id id) (of_id fl.row.enrollment_id) t.rows fl.row f
              (ground (arith, eq_iff fl.row.enrollment_id fl.row.enrollment_id)),
        ),
        free,
        find-SameGroups id t.rows fl p.0 f,
      ),
      p.2,
    ),
  );
  land = λ t i p. (p.0, p.1, All-drop_flight (Fit t.rows) i t.flights p.2);
  claim = λ t i fl now p e.
      let fit = All-flight_at (Fit t.rows) i t.flights fl p.2 e in
      (
        update-Apart (approved fl now) (λ x. refl) (λ x. refl) fl.row.enrollment_id t.rows p.0,
        claim-Free fl now t.rows fit.1 p.1 fit.2,
        All-map (update-Fit (approved fl now) (λ x. refl) (λ x. refl) fl.row.enrollment_id t.rows)
            t.flights p.2,
      );
  reject = λ t i approver now p. (
    update-Apart (rejected_row approver now) (λ x. refl) (λ x. refl) i t.rows p.0,
    reject-Free i approver now t.rows p.1,
    All-map (update-Fit (rejected_row approver now) (λ x. refl) (λ x. refl) i t.rows) t.flights p.2,
  );
  create = λ t writes p hash now q. q;
  revoke = λ t writes name q. q;
  edit = λ t answers name p now n q. q;
}

-- After any history of calls no issued row has a reserved group, where at first each enrollment had
-- one row, no issued row had a reserved group, and each approval under way had read its row's groups
-- and none reserved.
pub never_reserved :
    {S : Type 0} (svc : Services S) (cfg : Config) (w : World S) (ss : List Step)
    → Unprivileged 0 w.tables
    → All Free (run svc cfg w ss).tables.rows
never_reserved svc cfg w ss u = (run-P svc cfg Unprivileged Unprivileged-Closed w ss u).1
