-- ===== src/Enrollment/Draining.antt =====
-- internal/enrollment/enrollment.go: `Drain`, under a predicate that the changes of Moves keep.
use nebula_control_plane.Prelude.{
  ℕ, String, Bool, true, false, List, [], ◌∷◌, ◌≡◌, refl, Bool-cases, Option-cases, inl, inr, ◌==◌,
  find, count, leb,
}
use nebula_control_plane.Queue.Types.{
  Candidate, Item, Leased, Db, Result, ok, err, has_id, claimable,
}
use nebula_control_plane.Queue.Messages.{authentic, claim_rows, claim, ack, nack}
use nebula_control_plane.Enrollment.Types.{Processed, done, failed, Tables, World}
use nebula_control_plane.Enrollment.Services.{Config, Carried, Services}
use nebula_control_plane.Enrollment.Drain.{
  terminal, settle_item, requeued, drain_item, drain_items, drain_claimed, drain,
}
use nebula_control_plane.Enrollment.Moves.{Closed}
use nebula_control_plane.Enrollment.Methods.{process-P}

module _ (mac : Candidate → String) where
  claim_rows-results :
      (writes : ℕ → Bool) (until : ℕ) (its : List Item) (db : Db)
      → (claim_rows mac writes until its db).0.results ≡ db.results
  unfolding claim_rows
  claim_rows-results writes until [] db = refl
  claim_rows-results writes until (it ∷ its) db = elim (Bool-cases (authentic mac it)) [
    | inr a ↦ elim (Bool-cases (writes it.id)) [
      | inl w ↦ rw (a, w) (claim_rows-results writes until its _)
      | inr w ↦ rw (a, w) (claim_rows-results writes until its db)
    ]
    | inl a ↦ elim (Bool-cases (writes it.id)) [
      | inr w ↦ rw (a, w) (claim_rows-results writes until its db)
      | inl w ↦ elim (Bool-cases (count (claimable it.id) db.items == 0)) [
        | inl n ↦ rw (a, w, n) (claim_rows-results writes until its db)
        | inr n ↦ rw (a, w, n) (claim_rows-results writes until its _)
      ]
    ]
  ]

  claim-results :
      (reclaims reads : Bool) (writes : ℕ → Bool) (db : Db) (limit lease_ttl now : ℕ)
      → (claim mac reclaims reads writes db limit lease_ttl now).0.results ≡ db.results
  unfolding claim
  claim-results false reads writes db limit lease_ttl now = refl
  claim-results true false writes db limit lease_ttl now = refl
  claim-results true true writes db limit lease_ttl now = claim_rows-results writes _ _ _

nack-results : (max_attempts i : ℕ) (db : Db) → (nack max_attempts i db).0.results ≡ db.results
unfolding nack
nack-results max_attempts i db = elim (Option-cases (find (has_id i) db.items)) [
  | inl f ↦ rw (f, nack) refl
  | inr (it, f) ↦
      rw (f, nack)
        (elim (Bool-cases (leb max_attempts it.attempts)) [ inl l ↦ rw l refl | inr l ↦ rw l refl ])
]

settle_item-results :
    (max_attempts i : ℕ) (db : Db) (r : Processed)
    → (settle_item max_attempts i db r).results ≡ db.results
unfolding ack
settle_item-results max_attempts i db (done s) = refl
settle_item-results max_attempts i db (failed e) = elim (Bool-cases (terminal e)) [
  | inl t ↦ rw t refl
  | inr t ↦ rw t (nack-results max_attempts i db)
]

module _ {κ} {S : Type 0} (svc : Services S) (cfg : Config) (P : ℕ → Tables → Type κ)
    (closed : Closed P) where
  drain_item-P :
      (max_attempts : ℕ) (f : Carried) (w : World S) (l : Leased) (now : ℕ)
      → P 0 w.tables
      → P 0 (drain_item svc cfg max_attempts f w l now).tables
  drain_item-P max_attempts f w l now p =
      closed.requeue _ _ (process-P svc cfg P closed f w l.candidate now p)
        (settle_item-results max_attempts l.id _ _)

  drain_items-P :
      (max_attempts : ℕ) (f : ℕ → Carried) (w : World S) (ls : List Leased) (now : ℕ)
      → P 0 w.tables
      → P 0 (drain_items svc cfg max_attempts f w ls now).tables
  drain_items-P max_attempts f w [] now p = p
  drain_items-P max_attempts f w (l ∷ rest) now p =
      drain_items-P max_attempts f (drain_item svc cfg max_attempts (f l.id) w l now) rest now
        (drain_item-P max_attempts (f l.id) w l now p)

  drain_claimed-P :
      (max_attempts : ℕ) (f : ℕ → Carried) (w : World S) (r : Db × Result (List Leased)) (now : ℕ)
      → r.0.results ≡ w.tables.queue.results
      → P 0 w.tables
      → P 0 (drain_claimed svc cfg max_attempts f w r now).tables
  drain_claimed-P max_attempts f w (db, err e) now same p = closed.requeue w.tables db p same
  drain_claimed-P max_attempts f w (db, ok leased) now same p =
      drain_items-P max_attempts f (requeued svc cfg w db) leased now
        (closed.requeue w.tables db p same)

  pub drain-P :
      (mac : Candidate → String) (max_attempts : ℕ) (f : ℕ → Carried) (reclaims reads : Bool)
      (writes : ℕ → Bool) (w : World S) (batch lease now : ℕ)
      → P 0 w.tables
      → P 0 (drain svc cfg mac max_attempts f reclaims reads writes w batch lease now).tables
  unfolding drain
  drain-P mac max_attempts f reclaims reads writes w batch lease now p =
      drain_claimed-P max_attempts f w
        (claim mac reclaims reads writes w.tables.queue batch lease now) now
        (claim-results mac reclaims reads writes w.tables.queue batch lease now) p
