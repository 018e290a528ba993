-- ===== src/Lease/Invariant.antt =====
-- internal/ipam/ipam.go: invariants of the statements of `Allocate` and `AllocateSpecific`.
use nebula_control_plane.Prelude.{
  ℕ, zero, suc, ◌≡◌, String, Bool, true, false, not, Option, none, some, arith, if◌then◌else◌, ◌==◌,
  Bool-cases, Option-cases, inl, inr, count, find,
}
use nebula_control_plane.Net.Prefix.{Prefix, is_valid, contains}
use nebula_control_plane.Netblock.Types.{Result, ok, err}
use nebula_control_plane.Netblock.Resolve.{Resolved}
use nebula_control_plane.Lease.Types.{
  Db, Pool, Resolver, Call, Outcome, done, refused, has_ip, max_alloc_attempts,
}
use nebula_control_plane.Lease.Operations.{
  has_device, insert_device, ensure_device, purge_expired, insert_lease, new_lease, attempts,
  create, exhausted, regrown, allocate, allocate_in, allocate_for, allocate_specific, specific_for,
}
use nebula_control_plane.Lease.Search.{first_free, resolve, netblock_id_containing}

-- A property of the tables that the statements of a call keep, and one of the addresses that it hands
-- out.
pub record IsKept (call : Call) (P : Db → Type 0) (G : ℕ → Type 0) : Type 0 where
  pub device : (db : Db) (name : String) → P db → P (insert_device call.now name db)
  pub purge : (db : Db) → P db → P (purge_expired call.now db)
  pub lease :
      (db : Db) (ip device block : ℕ) (method : String)
      → P db
      → count (has_ip ip) db.allocations ≡ 0
      → P (insert_lease (new_lease ip device call.now block method db) db) × G ip

-- What holds of the table after a call, and of the address that it returns.
abbrev pub Good : (Db → Type 0) → (ℕ → Type 0) → Db → Outcome ℕ → Type 0
Good P G db (done a) = P db × G a
Good P G db (refused e) = P db

Good-table : (P : Db → Type 0) (G : ℕ → Type 0) (db : Db) (o : Outcome ℕ) → Good P G db o → P db
Good-table P G db (done a) h = h.0
Good-table P G db (refused e) h = h

Good-result :
    (P : Db → Type 0) (G : ℕ → Type 0) (db : Db) (o : Outcome ℕ) (a : ℕ)
    → Good P G db o
    → o ≡ done a
    → G a
Good-result P G db (done b) a h e = let same : b ≡ a = cc e in rw (← same) h.1
Good-result P G db (refused x) a h e = absurd (cc e)

module _ {ℓ} {R : Type ℓ} (pool : Pool) (wired : Option (Resolver R)) (call : Call)
    (others : ℕ → Db → Db) (P : Db → Type 0) (G : ℕ → Type 0) (kept : IsKept call P G)
    (elsewhere : (n : ℕ) (db : Db) → P db → P (others n db)) where
  abbrev Fine : (Db × R) × Outcome ℕ → Type 0
  Fine (s, o) = Good P G s.0 o

  if_Fine : (c : Bool) (x y : (Db × R) × Outcome ℕ) → Fine x → Fine y → Fine (if c then x else y)
  if_Fine true x y h k = h
  if_Fine false x y h k = k

  regrown-Fine :
      (db : Db) (again : R → Prefix → (Db × R) × Outcome ℕ) (g : R × Result Prefix)
      → P db
      → ((r : R) (p : Prefix) → Fine (again r p))
      → Fine (regrown db again g)
  regrown-Fine db again (r, err e) h rest = h
  regrown-Fine db again (r, ok p) h rest = if_Fine (is_valid p) _ _ (rest r p) h

  exhausted-Fine :
      (w : Option (Resolver R)) (res : Resolved) (db : Db) (r : R)
      (again : R → Prefix → (Db × R) × Outcome ℕ)
      → P db
      → ((r : R) (p : Prefix) → Fine (again r p))
      → Fine (exhausted w res db r again)
  exhausted-Fine none res db r again h rest = h
  exhausted-Fine (some ops) res db r again h rest =
      if_Fine res.named _ _ (regrown-Fine db again (ops.grow r res.name "ipam-autogrow") h rest) h

  create-Fine :
      (device : ℕ) (method : String) (ip : ℕ) (res : Resolved) (db : Db) (r : R)
      (again : (Db × R) × Outcome ℕ)
      → P db
      → Fine again
      → Fine (create call device method ip res db r again)
  create-Fine device method ip res db r again h rest =
      if_Fine (not call.writes) _ _ h (elim (Bool-cases (count (has_ip ip) db.allocations == 0)) [
        | inl b ↦ rw b (kept.lease db ip device res.id method h (ground arith))
        | inr b ↦ rw b rest
      ])

  attempts-Fine :
      (n device : ℕ) (method : String) (res : Resolved) (db : Db) (r : R)
      → P db
      → Fine (attempts pool wired call others n device method res db r)
  unfolding attempts
  attempts-Fine zero device method res db r h = h
  attempts-Fine (suc n) device method res db r h =
      if_Fine (not call.reads) _ _ h (elim (Option-cases (first_free pool wired r res db)) [
        | inl b ↦ rw b (
            exhausted-Fine wired res db r
              (λ r' p.
                attempts pool wired call others n device method (record res { cidr = p }) db r')
              h (λ r' p. attempts-Fine n device method (record res { cidr = p }) db r' h))
        | inr (ip, b) ↦ rw b (
            create-Fine device method ip res (others n db) r _ (elsewhere n db h)
              (attempts-Fine n device method res (others n db) r (elsewhere n db h)))
      ])

  -- The table after `ensureDevice`.
  ensure_device-keeps : (name : String) (db : Db) → P db → P (ensure_device call name db).0
  unfolding ensure_device
  ensure_device-keeps name db h = elim (Bool-cases call.reads) [
    | inr a ↦ rw a h
    | inl a ↦ elim (Option-cases (find (has_device name) db.devices)) [
      | inr (d, b) ↦ rw (a, b) h
      | inl b ↦ elim (Bool-cases call.writes) [
        | inr c ↦ rw (a, b, c) h
        | inl c ↦ rw (a, b, c) (kept.device db name h)
      ]
    ]
  ]

  allocate_for-Fine :
      (method : String) (res : Resolved) (r : R) (o : Db × Outcome ℕ)
      → P o.0
      → Fine (allocate_for pool wired call others method res r o)
  allocate_for-Fine method res r (db, refused e) h = h
  allocate_for-Fine method res r (db, done device) h = if_Fine (not call.writes) _ _ h (
      attempts-Fine max_alloc_attempts device method res (purge_expired call.now db) r
        (kept.purge db h))

  allocate_in-Fine :
      (device method : String) (db : Db) (r : R) (o : Outcome Resolved)
      → P db
      → Fine (allocate_in pool wired call others device method db r o)
  allocate_in-Fine device method db r (refused e) h = h
  allocate_in-Fine device method db r (done res) h =
      allocate_for-Fine method res r (ensure_device call device db)
        (ensure_device-keeps device db h)

  allocate-Good :
      (device name method : String) (db : Db) (r : R)
      → P db
      → Good P G
          (allocate pool wired call others device name method db r).0.0
          (allocate pool wired call others device name method db r).1
  unfolding allocate
  allocate-Good device name method db r h =
      allocate_in-Fine device method db r (resolve pool wired r name) h

  specific_for-Good :
      (a : ℕ) (method : String) (r : R) (o : Db × Outcome ℕ)
      → P o.0
      → Good P G
          (specific_for pool wired call a method r o).0
          (specific_for pool wired call a method r o).1
  specific_for-Good a method r (db, refused e) h = h
  specific_for-Good a method r (db, done device) h = elim (Bool-cases call.writes) [
    | inr b ↦ rw b h
    | inl b ↦ elim (Bool-cases (count (has_ip a) (purge_expired call.now db).allocations == 0)) [
      | inr c ↦ rw (b, c) (kept.purge db h)
      | inl c ↦
          rw (b, c)
            (kept.lease (purge_expired call.now db) a device (netblock_id_containing wired r a)
              method (kept.purge db h) (ground arith))
    ]
  ]

  allocate_specific-Good :
      (device : String) (a : ℕ) (method : String) (db : Db) (r : R)
      → P db
      → Good P G
          (allocate_specific pool wired call device a method db r).0
          (allocate_specific pool wired call device a method db r).1
  unfolding allocate_specific
  allocate_specific-Good device a method db r h = elim (Bool-cases (contains pool.prefix a)) [
    | inr b ↦ rw b h
    | inl b ↦ rw b (
        specific_for-Good a method r (ensure_device call device db)
          (ensure_device-keeps device db h))
  ]

  pub allocate-keeps :
      (device name method : String) (db : Db) (r : R)
      → P db
      → P (allocate pool wired call others device name method db r).0.0
  allocate-keeps device name method db r h =
      Good-table P G (allocate pool wired call others device name method db r).0.0
        (allocate pool wired call others device name method db r).1
        (allocate-Good device name method db r h)

  pub allocate-returns :
      (device name method : String) (db : Db) (r : R) (a : ℕ)
      → P db
      → (allocate pool wired call others device name method db r).1 ≡ done a
      → G a
  allocate-returns device name method db r a h e =
      Good-result P G (allocate pool wired call others device name method db r).0.0
        (allocate pool wired call others device name method db r).1 a
        (allocate-Good device name method db r h) e

  pub allocate_specific-keeps :
      (device : String) (a : ℕ) (method : String) (db : Db) (r : R)
      → P db
      → P (allocate_specific pool wired call device a method db r).0
  allocate_specific-keeps device a method db r h =
      Good-table P G (allocate_specific pool wired call device a method db r).0
        (allocate_specific pool wired call device a method db r).1
        (allocate_specific-Good device a method db r h)

  pub allocate_specific-returns :
      (device : String) (a : ℕ) (method : String) (db : Db) (r : R) (b : ℕ)
      → P db
      → (allocate_specific pool wired call device a method db r).1 ≡ done b
      → G b
  allocate_specific-returns device a method db r b h e =
      Good-result P G (allocate_specific pool wired call device a method db r).0
        (allocate_specific pool wired call device a method db r).1 b
        (allocate_specific-Good device a method db r h) e
