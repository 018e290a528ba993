-- ===== src/Lease/Operations.antt =====
-- internal/ipam/ipam.go: `Allocate`, `AllocateSpecific`, `Release` and `LiveAddrs`.
use nebula_control_plane.Prelude.{
  ℕ, zero, suc, ◌+◌, String, Bool, ◌&&◌, ◌||◌, not, List, ◌∷◌, Option, none, some, if◌then◌else◌,
  ltb, leb, ◌==◌, str_eq, find, count, update, keep, map,
}
use nebula_control_plane.Net.Prefix.{Prefix, is_valid, contains}
use nebula_control_plane.Netblock.Types.{Result, ok, err}
use nebula_control_plane.Netblock.Resolve.{Resolved}
use nebula_control_plane.Lease.Types.{
  Device, allocated, quarantined, Allocation, Db, pool_exhausted, contended, out_of_pool,
  addr_taken, not_allocated, failed, Outcome, done, refused, Pool, Resolver, Call,
  max_alloc_attempts, allocated?, quarantined?, has_ip, is_allocated,
}
use nebula_control_plane.Lease.Search.{first_free, netblock_id_containing, resolve}

abbrev pub has_device : String → Device → Bool
has_device name d = str_eq d.name name

abbrev pub insert_device : ℕ → String → Db → Db
insert_device now name db = record db {
  devices = record { id = db.next_id; name = name; created_at = now } ∷ db.devices;
  next_id = suc db.next_id;
}

-- `ensureDevice`, `FirstOrCreate`: the table after it and the device's id.
unfoldable pub ensure_device : Call → String → Db → Db × Outcome ℕ
ensure_device call name db =
    if not call.reads then (db, refused failed) else elim (find (has_device name) db.devices) [
      | some d ↦ (db, done d.id)
      | none ↦
          if call.writes
          then (insert_device call.now name db, done db.next_id)
          else (db, refused failed)
    ]

abbrev pub is_expired : ℕ → Allocation → Bool
is_expired now l = quarantined? l.state && leb l.quarantine_until now

-- `purgeExpiredQuarantine`.
unfoldable pub purge_expired : ℕ → Db → Db
purge_expired now db = record db { allocations = keep (λ l. not (is_expired now l)) db.allocations }

abbrev pub new_lease : ℕ → ℕ → ℕ → ℕ → String → Db → Allocation
new_lease ip device now block method db = record {
  id = db.next_id;
  ip = ip;
  device_id = device;
  state = allocated;
  allocated_at = now;
  released_at = 0;
  quarantine_until = 0;
  netblock_id = block;
  method = method;
}

abbrev pub insert_lease : Allocation → Db → Db
insert_lease l db = record db { allocations = l ∷ db.allocations; next_id = suc db.next_id }

module _ {ℓ} {R : Type ℓ} where
  -- What one attempt leads to: the end, or another attempt.
  abbrev pub create :
      Call → ℕ → String → ℕ → Resolved → Db → R → ((Db × R) × Outcome ℕ) → (Db × R) × Outcome ℕ
  create call device method ip res db r again =
      if not call.writes
      then ((db, r), refused failed)
      else if count (has_ip ip) db.allocations == 0
      then ((insert_lease (new_lease ip device call.now res.id method db) db, r), done ip)
      else again

  abbrev pub regrown :
      Db → (R → Prefix → (Db × R) × Outcome ℕ) → R × Result Prefix → (Db × R) × Outcome ℕ
  regrown db again (r, err e) = ((db, r), refused pool_exhausted)
  regrown db again (r, ok grown) =
      if is_valid grown then again r grown else ((db, r), refused pool_exhausted)

  abbrev pub exhausted :
      Option (Resolver R)
      → Resolved
      → Db
      → R
      → (R → Prefix → (Db × R) × Outcome ℕ)
      → (Db × R) × Outcome ℕ
  exhausted none res db r again = ((db, r), refused pool_exhausted)
  exhausted (some ops) res db r again =
      if res.named
      then regrown db again (ops.grow r res.name "ipam-autogrow")
      else ((db, r), refused pool_exhausted)

module _ {ℓ} {R : Type ℓ} (pool : Pool) where
  module _ (wired : Option (Resolver R)) (call : Call) (others : ℕ → Db → Db) where
    -- The loop of `Allocate`, so many attempts at most. Other allocators write between the search of an
    -- attempt and its insert.
    unfoldable pub attempts : ℕ → ℕ → String → Resolved → Db → R → (Db × R) × Outcome ℕ
    attempts zero device method res db r = ((db, r), refused contended)
    attempts (suc n) device method res db r =
        if not call.reads
        then ((db, r), refused failed)
        else elim (first_free pool wired r res db) [
          | none ↦
              exhausted wired res db r
                (λ r' grown. attempts n device method (record res { cidr = grown }) db r')
          | some ip ↦
              create call device method ip res (others n db) r
                (attempts n device method res (others n db) r)
        ]

    abbrev pub allocate_for : String → Resolved → R → Db × Outcome ℕ → (Db × R) × Outcome ℕ
    allocate_for method res r (db, refused e) = ((db, r), refused e)
    allocate_for method res r (db, done device) =
        if not call.writes
        then ((db, r), refused failed)
        else attempts max_alloc_attempts device method res (purge_expired call.now db) r

    abbrev pub allocate_in : String → String → Db → R → Outcome Resolved → (Db × R) × Outcome ℕ
    allocate_in device method db r (refused e) = ((db, r), refused e)
    allocate_in device method db r (done res) =
        allocate_for method res r (ensure_device call device db)

    -- `Allocate`.
    unfoldable pub allocate : String → String → String → Db → R → (Db × R) × Outcome ℕ
    allocate device name method db r = allocate_in device method db r (resolve pool wired r name)

module _ {ℓ} {R : Type ℓ} (pool : Pool) (wired : Option (Resolver R)) (call : Call) where
  abbrev pub specific_for : ℕ → String → R → Db × Outcome ℕ → Db × Outcome ℕ
  specific_for a method r (db, refused e) = (db, refused e)
  specific_for a method r (db, done device) =
      let after = purge_expired call.now db in
      let lease = new_lease a device call.now (netblock_id_containing wired r a) method after in
      if not call.writes
      then (db, refused failed)
      else if count (has_ip a) after.allocations == 0
      then (insert_lease lease after, done a)
      else (after, refused addr_taken)

  -- `AllocateSpecific`.
  unfoldable pub allocate_specific : String → ℕ → String → Db → R → Db × Outcome ℕ
  allocate_specific device a method db r =
      if not (contains pool.prefix a)
      then (db, refused out_of_pool)
      else specific_for a method r (ensure_device call device db)

module _ (pool : Pool) where
  abbrev pub quarantine : ℕ → Allocation → Allocation
  quarantine now l = record l {
    state = quarantined;
    released_at = now;
    quarantine_until = now + pool.quarantine_ttl;
  }

  -- `Release`.
  unfoldable pub release : Call → ℕ → Db → Db × Outcome (Unit {0})
  release call a db =
      if not call.writes
      then (db, refused failed)
      else if pool.quarantine_ttl == 0
      then (
        record db { allocations = keep (λ l. not (has_ip a l)) db.allocations },
        (if count (has_ip a) db.allocations == 0 then refused not_allocated else done tt),
      )
      else (
        record db { allocations = update (is_allocated a) (quarantine call.now) db.allocations },
        (if count (is_allocated a) db.allocations == 0 then refused not_allocated else done tt),
      )

-- `LiveAddrs`.
abbrev pub is_live : ℕ → Allocation → Bool
is_live now l = allocated? l.state || ltb now l.quarantine_until

unfoldable pub live_addrs : ℕ → Db → List ℕ
live_addrs now db = map (λ (l : Allocation). l.ip) (keep (is_live now) db.allocations)
