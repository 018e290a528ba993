-- ===== src/Enrollment/Passes.antt =====
-- internal/enrollment/enrollment.go: `record`, `writeResult`, `deny`, `issue` and the admission of a host,
-- under a predicate that the changes of Moves keep.
use nebula_control_plane.Prelude.{
  ℕ, String, Bool, true, false, List, Option, none, some, ◌≡◌, refl, arith, eq_iff, Bool-cases, inl,
  inr, ◌==◌, count,
}
use nebula_control_plane.Policy.Check.{grants_reserved_group}
use nebula_control_plane.Queue.Types.{Candidate}
use nebula_control_plane.Enrollment.Types.{
  EnrollmentStatus, pending, issued, denied, is_issued, Request, Reason, Enrollment, Issuance,
  Tables, World, of_id,
}
use nebula_control_plane.Enrollment.Services.{
  Config, Carried, Services, Allocated, allocated, exhausted, no_allocation, Leaf,
}
use nebula_control_plane.Enrollment.Admission.{
  Entry, denial, Admitted, pending_entry, issued_entry, Issued, issuance_of, not_issued, inserted,
  new_row, record_row, write_result, deny, signed_leaf, signed_for, issue,
}
use nebula_control_plane.Enrollment.Admit.{queued, delivered, bundled, settled, admit}
use nebula_control_plane.Enrollment.Moves.{HasIssued, Closed}

-- A certificate is handed out only for groups that are not reserved.
abbrev pub Allowed : {S : Type 0} → List String → S × Issued → Type 0
Allowed groups (s, not_issued e) = Unit
Allowed groups (s, issuance_of i) = grants_reserved_group groups ≡ false

module _ {S : Type 0} (svc : Services S) (cfg : Config) where
  signed_leaf-Allowed :
      (groups : List String) (ip : String) (n : ℕ) (r : S × Option Leaf)
      → grants_reserved_group groups ≡ false
      → Allowed groups (signed_leaf svc cfg ip n r)
  signed_leaf-Allowed groups ip n (s, none) free = tt
  signed_leaf-Allowed groups ip n (s, some leaf) free = free

  signed_for-Allowed :
      (actor device bytes : String) (groups : List String) (ephemeral : Bool) (now : ℕ)
      (r : S × Allocated)
      → grants_reserved_group groups ≡ false
      → Allowed groups (signed_for svc cfg actor device bytes groups ephemeral now r)
  signed_for-Allowed actor device bytes groups ephemeral now (s, no_allocation) free = tt
  signed_for-Allowed actor device bytes groups ephemeral now (s, exhausted) free = tt
  signed_for-Allowed actor device bytes groups ephemeral now (s, allocated ip) free =
      signed_leaf-Allowed groups ip _ _ free

  pub issue-Allowed :
      (s : S) (actor device bytes : String) (groups : List String) (netblock method : String)
      (ephemeral : Bool) (now : ℕ)
      → Allowed groups (issue svc cfg s actor device bytes groups netblock method ephemeral now)
  unfolding issue
  issue-Allowed s actor device bytes groups netblock method ephemeral now =
      elim (Bool-cases (grants_reserved_group groups)) [
        | inl r ↦ rw r tt
        | inr r ↦ rw r (signed_for-Allowed actor device bytes groups ephemeral now _ r)
      ]

-- After `record`: the row is there when it says so.
abbrev pub Recorded {κ} : (ℕ → Tables → Type κ) → String → EnrollmentStatus → Tables × Bool → Type κ
Recorded P id status r = P 0 r.0 × (r.1 ≡ true → is_issued status ≡ true → HasIssued id r.0)

HasIssued-inserted :
    (t : Tables) (r : Enrollment)
    → is_issued r.status ≡ true
    → HasIssued r.enrollment_id (inserted t r)
unfolding count
HasIssued-inserted t r i = ground (arith, eq_iff r.enrollment_id r.enrollment_id)

module _ {κ} {S : Type 0} (svc : Services S) (cfg : Config) (P : ℕ → Tables → Type κ)
    (closed : Closed P) where
  pub record_row-Recorded :
      (writes : Bool) (t : Tables) (c : Candidate) (req : Request) (bytes : String) (e : Entry)
      (now : ℕ)
      → P e.join_key_id t
      → (is_issued e.status ≡ true → grants_reserved_group e.groups ≡ false)
      → Recorded P c.enrollment_id e.status (record_row svc cfg writes t c req bytes e now)
  unfolding record_row
  record_row-Recorded false t c req bytes e now p free = (closed.forget e.join_key_id t p, λ b. cc)
  record_row-Recorded true t c req bytes e now p free =
      elim (Bool-cases (count (of_id c.enrollment_id) t.rows == 0)) [
        | inl new ↦ rw new (
          closed.insert e.join_key_id t (new_row svc cfg t.next_id c req bytes e now) p refl new
              free,
          λ b. HasIssued-inserted t (new_row svc cfg t.next_id c req bytes e now),
        )
        | inr old ↦ rw old (closed.forget e.join_key_id t p, λ b. cc)
      ]

  pub write_result-P :
      (t : Tables) (id secret bundle : String) (status : EnrollmentStatus) (reason : String)
      (now : ℕ)
      → P 0 t
      → (is_issued status ≡ true → HasIssued id t)
      → P 0 (write_result svc cfg t id secret bundle status reason now)
  unfolding write_result
  write_result-P t id secret bundle status reason now p h = elim (Bool-cases cfg.results) [
    | inl r ↦ rw r (closed.write t id secret bundle status reason _ p h)
    | inr r ↦ rw r p
  ]

  pub deny-P :
      (f : Carried) (w : World S) (c : Candidate) (req : Request) (bytes action : String)
      (reason : Reason) (now : ℕ)
      → P 0 w.tables
      → P 0 (deny svc cfg f w c req bytes action reason now).tables
  unfolding deny
  deny-P f w c req bytes action reason now p =
      let recorded = record_row-Recorded f.writes_row w.tables c req bytes denial now p (λ i. cc) in
      write_result-P _ c.enrollment_id c.retrieval_secret_hash "" denied (svc.render reason) now
        recorded.0 (λ i. cc)

  queued-P :
      (c : Candidate) (w : World S) (r : Tables × Bool) (device : String) (now : ℕ)
      → P 0 r.0
      → P 0 (queued svc cfg c w r device now).0.tables
  queued-P c w (t, false) device now p = p
  queued-P c w (t, true) device now p =
      write_result-P t c.enrollment_id c.retrieval_secret_hash "" pending "" now p (λ i. cc)

  delivered-P :
      (c : Candidate) (w : World S) (a : Admitted) (device : String) (i : Issuance)
      (bundle : String) (r : Tables × Bool) (now : ℕ)
      → Recorded P c.enrollment_id issued r
      → P 0 (delivered svc cfg c w a device i bundle r now).0.tables
  delivered-P c w a device i bundle (t, false) now h = h.0
  delivered-P c w a device i bundle (t, true) now h =
      write_result-P t c.enrollment_id c.retrieval_secret_hash bundle issued "" now h.0 (h.1 refl)

  bundled-P :
      (f : Carried) (c : Candidate) (req : Request) (bytes : String) (w : World S) (a : Admitted)
      (i : Issuance) (b : Option String) (now : ℕ)
      → P a.join_key_id w.tables
      → grants_reserved_group a.groups ≡ false
      → P 0 (bundled svc cfg f c req bytes w a i b now).0.tables
  bundled-P f c req bytes w a i none now p free = closed.forget a.join_key_id w.tables p
  bundled-P f c req bytes w a i (some bundle) now p free =
      delivered-P c w a _ i bundle _ now
        (record_row-Recorded f.writes_row w.tables c req bytes (issued_entry a i) now p (λ e. free))

  settled-P :
      (f : Carried) (c : Candidate) (req : Request) (bytes : String) (t : Tables) (a : Admitted)
      (r : S × Issued) (now : ℕ)
      → P a.join_key_id t
      → Allowed a.groups r
      → P 0 (settled svc cfg f c req bytes t a r now).0.tables
  settled-P f c req bytes t a (s, not_issued e) now p h = closed.forget a.join_key_id t p
  settled-P f c req bytes t a (s, issuance_of i) now p h =
      bundled-P f c req bytes (record { tables = t; services = s }) a i _ now p h

  pub admit-P :
      (f : Carried) (w : World S) (c : Candidate) (req : Request) (bytes : String) (a : Admitted)
      (now : ℕ)
      → P a.join_key_id w.tables
      → P 0 (admit svc cfg f w c req bytes a now).0.tables
  unfolding admit
  admit-P f w c req bytes a now p = elim (Bool-cases a.auto_issue) [
    | inl auto ↦ rw auto (
        settled-P f c req bytes w.tables a _ now p (
          issue-Allowed svc cfg w.services a.actor _ bytes a.groups a.netblock a.provenance
            a.ephemeral now))
    | inr manual ↦ rw manual (
        queued-P c w _ _ now
          (record_row-Recorded f.writes_row w.tables c req bytes (pending_entry a) now p
            (λ i. cc)).0)
  ]
