-- ===== src/Enrollment/Limits.antt =====
-- internal/joinkey/joinkey.go and internal/enrollment/enrollment.go: the counts of a key's uses, over
-- every change of the tables.
use nebula_control_plane.Prelude.{
  ℕ, ◌≤◌, ◌<◌, String, Bool, true, false, List, none, some, ◌≡◌, ◌≢◌, refl, arith, Bool-cases, inl,
  inr, ◌==◌, find, count, update, All, All-map, All-both, All-update, All-count_zero,
  count-update_same, Descending-update,
}
use nebula_control_plane.JoinKey.Keys.{
  JoinKey, Params, UpdateParams, named_active, clashing, presented, consumable, used, create_key,
  revoked_row, revoke_key, edited, update_key,
}
use nebula_control_plane.Enrollment.Types.{Enrollment, Tables, World, joined_by, pending_row}
use nebula_control_plane.Enrollment.Services.{Config, Services}
use nebula_control_plane.Enrollment.Approve.{approved, rejected_row}
use nebula_control_plane.Enrollment.Moves.{Closed, counted_use, with_keys}
use nebula_control_plane.Enrollment.History.{Step, run, run-P}
use nebula_control_plane.Enrollment.Uses.{
  key_id, Covers, Covered, find_unique, insert-Covers, forget-Covers, consumable_self, use-Covers,
}

-- A change of the keys that leaves their numbers, uses and limits.
module _ (p : JoinKey → Bool) (f : JoinKey → JoinKey)
    (blind : (r : List Enrollment) (k : JoinKey) → Covers 0 r k → Covers 0 r (f k))
    (ids : (k : JoinKey) → (f k).id ≡ k.id) where
  change-Covered :
      (t : Tables)
      → Covered 0 t
      → Covered 0 (with_keys t (record t.keys { rows = update p f t.keys.rows }))
  change-Covered t c = (
    Descending-update key_id p f ids t.keys.next_id t.keys.rows c.0,
    All-update (Covers 0 t.rows) p f t.keys.rows (
        All-map
          (λ k h. elim (Bool-cases (p k)) [ inl u ↦ rw u (blind t.rows k h) | inr u ↦ rw u h ])
          t.keys.rows c.1),
    c.2,
    c.3,
  )

create-Covered :
    (t : Tables) (writes : Bool) (p : Params) (hash : String) (now : ℕ)
    → Covered 0 t
    → Covered 0 (with_keys t (create_key writes t.keys p hash now).0)
unfolding create_key
create-Covered t false p hash now c = c
create-Covered t true p hash now c =
    elim (Bool-cases (count (clashing p.name hash) t.keys.rows == 0)) [
      | inr taken ↦ rw taken c
      | inl new ↦
          let none_joined =
            All-count_zero (joined_by t.keys.next_id) t.rows
              (All-map (λ r below. ground arith) t.rows c.2) in
          rw new (
            (omega arith, c.0),
            ((omega (arith, c.3), ground (arith, none_joined, c.3), λ m. omega arith), c.1),
            All-map (λ r below. omega arith) t.rows c.2,
            omega (arith, c.3),
          )
    ]

revoke-Covered :
    (t : Tables) (writes : Bool) (name : String)
    → Covered 0 t
    → Covered 0 (with_keys t (revoke_key writes t.keys name).0)
unfolding revoke_key
revoke-Covered t false name c = c
revoke-Covered t true name c =
    change-Covered (named_active name) revoked_row (λ rows k h. h) (λ k. refl) t c

edit-Covered :
    (t : Tables) (answers : Bool) (name : String) (p : UpdateParams) (now : ℕ)
    → p.max_uses ≡ none
    → Covered 0 t
    → Covered 0 (with_keys t (update_key answers t.keys name p now).0)
unfolding update_key
edit-Covered t false name p now limit c = c
edit-Covered t true name p now limit c =
    change-Covered (named_active name) (edited p now) (λ rows k h. rw limit h) (λ k. refl) t c

use-Covered :
    (t : Tables) (hash : String) (k : JoinKey)
    → Covered 0 t
    → find (presented hash) t.keys.rows ≡ some k
    → (count (consumable k) t.keys.rows == 0) ≡ false
    → Covered k.id (with_keys t (counted_use t.keys k))
use-Covered t hash k c e n =
    let (below, unique) = find_unique (presented hash) t.keys.next_id t.keys.rows k c.0 e in
    let self = consumable_self k t.keys.rows unique n in
    (
      Descending-update key_id (consumable k) used (λ x. refl) t.keys.next_id t.keys.rows c.0,
      All-update (Covers k.id t.rows) (consumable k) used t.keys.rows
          (All-both (λ x only h. use-Covers k x t.rows only self h) t.keys.rows unique c.1),
      c.2,
      below,
    )

-- A decision on pending rows leaves the key that each was admitted by.
module _ (f : Enrollment → Enrollment) (same : (x : Enrollment) → (f x).join_key_id ≡ x.join_key_id)
    (id : String) where
  decide-Covered :
      (t : Tables) → Covered 0 t → Covered 0 (record t { rows = update (pending_row id) f t.rows })
  decide-Covered t c = (
    c.0,
    All-map
        (λ k h. (
          h.0,
          rw (count-update_same (joined_by k.id) (pending_row id) f (λ x. rw (same x) refl) t.rows)
              h.1,
          h.2,
        ))
        t.keys.rows c.1,
    All-update (λ r. r.join_key_id < t.keys.next_id) (pending_row id) f t.rows
        (All-map
          (λ r h. elim (Bool-cases (pending_row id r)) [
            | inl u ↦ rw (u, same r) h
            | inr u ↦ rw u h
          ])
          t.rows c.2),
    c.3,
  )

Covered-Closed : Closed Covered
Covered-Closed = record {
  forget = λ j t c.
      (c.0, All-map (λ k h. forget-Covers j t.rows k h) t.keys.rows c.1, c.2, omega (arith, c.3));
  insert = λ j t r c e h free. (
    c.0,
    All-map (λ k g. insert-Covers j r t.rows k e g) t.keys.rows c.1,
    (omega (arith, e, c.3), c.2),
    omega (arith, c.3),
  );
  count_use = λ t hash k c e n. use-Covered t hash k c e n;
  write = λ t i secret bundle status reason expires_at p h. p;
  requeue = λ t db p e. p;
  fly = λ t id fl p f free. p;
  land = λ t i p. p;
  claim = λ t i fl now p e. decide-Covered (approved fl now) (λ x. refl) fl.row.enrollment_id t p;
  reject = λ t i approver now p. decide-Covered (rejected_row approver now) (λ x. refl) i t p;
  create = create-Covered;
  revoke = revoke-Covered;
  edit = edit-Covered;
}

-- A key with a limit has admitted no more enrollments than it, in any history of calls in which no
-- edit changes the limits, from tables whose keys cover their enrollments.
pub never_over_limit :
    {S : Type 0} (svc : Services S) (cfg : Config) (w : World S) (ss : List Step)
    → Covered 0 w.tables
    → All
        (λ k. k.max_uses ≢ 0 → count (joined_by k.id) (run svc cfg w ss).tables.rows ≤ k.max_uses)
        (run svc cfg w ss).tables.keys.rows
never_over_limit svc cfg w ss c =
    let after = run-P svc cfg Covered Covered-Closed w ss c in
    All-map (λ k h m. omega (arith, h.1, h.2 m)) (run svc cfg w ss).tables.keys.rows after.1
