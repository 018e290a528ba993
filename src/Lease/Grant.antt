-- ===== src/Lease/Grant.antt =====
-- internal/ipam/ipam.go, `Allocate`: what an address that it returns satisfies.
use nebula_control_plane.Prelude.{
  ℕ, zero, suc, ◌≡◌, refl, String, Bool, true, false, not, some, arith, if◌then◌else◌, ◌==◌,
  Bool-cases, Option-cases, inl, inr, count,
}
use nebula_control_plane.Net.Prefix.{Prefix, is_valid, masked, contains}
use nebula_control_plane.Netblock.Types.{Result, ok, err, default_name}
use nebula_control_plane.Netblock.Resolve.{Resolved}
use nebula_control_plane.Lease.Types.{
  Db, Pool, Resolver, Call, Outcome, done, refused, has_ip, max_alloc_attempts,
}
use nebula_control_plane.Lease.Operations.{
  attempts, create, regrown, allocate, allocate_in, allocate_for, ensure_device, purge_expired,
  new_lease, insert_lease,
}
use nebula_control_plane.Lease.Search.{usable, first_free, resolve, unless_reserved}
use nebula_control_plane.Lease.Scan.{Lowest, first_free-scan}

-- What the allocator relies on in a resolver: in a state that it keeps, the range of a name that
-- resolves is a block, and so is the range that growing one leads to.
pub record BlockLaws {ℓ} {R : Type ℓ} (ops : Resolver R) : Type (ℓ ⊔ 1) where
  pub IsSound : R → Type 0
  pub IsBlock : R → Prefix → Type 0
  pub resolves :
      (r : R) (name : String) (res : Resolved)
      → IsSound r
      → ops.resolve_full r name ≡ ok res
      → IsBlock r res.cidr
  pub grow-IsSound : (r : R) (name actor : String) → IsSound r → IsSound (ops.grow r name actor).0
  pub grows :
      (r : R) (name actor : String) (p : Prefix)
      → IsSound r
      → (ops.grow r name actor).1 ≡ ok p
      → IsBlock (ops.grow r name actor).0 p

-- An address is leased once, lies in a range without being its first address, and is not reserved.
pub record IsLeased (pool : Pool) (cidr : Prefix) (a : ℕ) (db : Db) : Type 0 where
  pub within : contains cidr a ≡ true
  pub not_base : (a == (masked cidr).addr) ≡ false
  pub unreserved : count (λ (b : ℕ). b == a) pool.reserved ≡ 0
  pub once : count (has_ip a) db.allocations ≡ 1

module _ {ℓ} {R : Type ℓ} (pool : Pool) (ops : Resolver R) (laws : BlockLaws ops) where
  -- A grant is in a block of the final state.
  abbrev pub Granted : Db → R → ℕ → Type 0
  Granted db r a = laws.IsSound r × (cidr : Prefix) × laws.IsBlock r cidr × IsLeased pool cidr a db

  abbrev Fine : (Db × R) × Outcome ℕ → Type 0
  Fine ((db, r), done a) = Granted db r a
  Fine (s, refused e) = Unit {0}

  Fine-Granted :
      (db : Db) (r : R) (o : Outcome ℕ) (a : ℕ) → Fine ((db, r), o) → o ≡ done a → Granted db r a
  Fine-Granted db r (done b) a f e = let same : b ≡ a = cc e in rw (← same) f
  Fine-Granted db r (refused x) a f e = absurd (cc e)

  usable-IsLeased :
      (res : Resolved) (r : R) (db after : Db) (ip device now : ℕ) (method : String)
      → contains res.cidr ip ≡ true
      → usable pool (some ops) r res db ip ≡ true
      → (count (has_ip ip) after.allocations == 0) ≡ true
      → IsLeased pool res.cidr ip (insert_lease (new_lease ip device now res.id method after) after)
  unfolding count
  usable-IsLeased res r db after ip device now method c u fresh =
      let own : (ip == ip) ≡ true = ground arith in
      record {
        within = c;
        not_base = ground arith;
        unreserved = ground arith;
        once = rw own (ground arith);
      }

  if_Fine : (c : Bool) (x y : (Db × R) × Outcome ℕ) → Fine x → Fine y → Fine (if c then x else y)
  if_Fine true x y h k = h
  if_Fine false x y h k = k

  regrown-Fine :
      (db : Db) (again : R → Prefix → (Db × R) × Outcome ℕ) (g : R × Result Prefix)
      → ((p : Prefix) → g.1 ≡ ok p → Fine (again g.0 p))
      → Fine (regrown db again g)
  regrown-Fine db again (r, err e) rest = tt
  regrown-Fine db again (r, ok p) rest = if_Fine (is_valid p) _ _ (rest p refl) tt

  module _ (call : Call) (others : ℕ → Db → Db) where
    create-Fine :
        (res : Resolved) (r : R) (db after : Db) (ip device : ℕ) (method : String)
        (again : (Db × R) × Outcome ℕ)
        → laws.IsSound r
        → laws.IsBlock r res.cidr
        → contains res.cidr ip ≡ true
        → usable pool (some ops) r res db ip ≡ true
        → Fine again
        → Fine (create call device method ip res after r again)
    create-Fine res r db after ip device method again sound block c u rest =
        elim (Bool-cases call.writes) [
          | inr a ↦ rw a tt
          | inl a ↦ elim (Bool-cases (count (has_ip ip) after.allocations == 0)) [
            | inr b ↦ rw (a, b) rest
            | inl b ↦
                rw (a, b)
                  (
                    sound,
                    res.cidr,
                    block,
                    usable-IsLeased res r db after ip device call.now method c u b,
                  )
          ]
        ]

    attempts-Fine :
        (n device : ℕ) (method : String) (res : Resolved) (db : Db) (r : R)
        → laws.IsSound r
        → laws.IsBlock r res.cidr
        → Fine (attempts pool (some ops) call others n device method res db r)
    unfolding attempts
    attempts-Fine zero device method res db r sound block = tt
    attempts-Fine (suc n) device method res db r sound block = elim (Bool-cases call.reads) [
      | inr a ↦ rw a tt
      | inl a ↦ elim (Option-cases (first_free pool (some ops) r res db)) [
        | inl b ↦
            let grown = ops.grow r res.name "ipam-autogrow" in
            let s = laws.grow-IsSound r res.name "ipam-autogrow" sound in
            rw (a, b)
              (if_Fine res.named _ _
                (regrown-Fine db
                  (λ r' p.
                    attempts pool (some ops) call others n device method (record res { cidr = p })
                      db r')
                  grown
                  (λ p e.
                    attempts-Fine n device method (record res { cidr = p }) db grown.0 s
                      (laws.grows r res.name "ipam-autogrow" p sound e)))
                tt)
        | inr (ip, b) ↦
            let low : Lowest res.cidr (usable pool (some ops) r res db) 0 (some ip) =
              rw b at (first_free-scan pool (some ops) r res db) in
            rw (a, b)
              (create-Fine res r db (others n db) ip device method _ sound block low.0.1 low.0.2
                (attempts-Fine n device method res (others n db) r sound block))
      ]
    ]

    allocate_for-Fine :
        (method : String) (res : Resolved) (r : R) (o : Db × Outcome ℕ)
        → laws.IsSound r
        → laws.IsBlock r res.cidr
        → Fine (allocate_for pool (some ops) call others method res r o)
    allocate_for-Fine method res r (db, refused e) sound block = tt
    allocate_for-Fine method res r (db, done device) sound block =
        if_Fine (not call.writes) _ _ tt (
          attempts-Fine max_alloc_attempts device method res (purge_expired call.now db) r sound
            block)

    allocate_in-Fine :
        (device method : String) (db : Db) (r : R) (o : Outcome Resolved)
        → laws.IsSound r
        → ((res : Resolved) → o ≡ done res → laws.IsBlock r res.cidr)
        → Fine (allocate_in pool (some ops) call others device method db r o)
    allocate_in-Fine device method db r (refused e) sound block = tt
    allocate_in-Fine device method db r (done res) sound block =
        allocate_for-Fine method res r (ensure_device call device db) sound (block res refl)

    resolve-IsBlock :
        (r : R) (name : String) (res : Resolved)
        → laws.IsSound r
        → resolve pool (some ops) r name ≡ done res
        → laws.IsBlock r res.cidr
    unfolding resolve
    resolve-IsBlock r name res sound e =
        chosen (ops.resolve_full r default_name) (ops.resolve_full r name) refl refl e
      where
        picked :
            (c : Bool) (x y res : Resolved)
            → laws.IsBlock r x.cidr
            → laws.IsBlock r y.cidr
            → done (if c then x else y) ≡ done res
            → laws.IsBlock r res.cidr
        picked true x y res h k e = let same : x ≡ res = cc e in rw (← same) h
        picked false x y res h k e = let same : y ≡ res = cc e in rw (← same) k

        chosen :
            (def given : Result Resolved)
            → ops.resolve_full r default_name ≡ def
            → ops.resolve_full r name ≡ given
            → unless_reserved def given ≡ done res
            → laws.IsBlock r res.cidr
        chosen def (err x) d g k = absurd (cc k)
        chosen (err x) (ok given) d g k =
            let b = laws.resolves r name given sound g in
            picked given.is_reserved given given res b b k
        chosen (ok def) (ok given) d g k =
            picked given.is_reserved def given res (laws.resolves r default_name def sound d)
              (laws.resolves r name given sound g) k

    -- Over a resolver that keeps its laws: whatever the other allocators write meanwhile and however
    -- often the block grows, an address that `Allocate` returns lies in a block of the resolver's final
    -- state, is neither the block's first address nor reserved, and has exactly one lease.
    pub allocate-IsLeased :
        (device name method : String) (db : Db) (r : R) (a : ℕ)
        → laws.IsSound r
        → (allocate pool (some ops) call others device name method db r).1 ≡ done a
        → Granted
            (allocate pool (some ops) call others device name method db r).0.0
            (allocate pool (some ops) call others device name method db r).0.1
            a
    unfolding allocate
    allocate-IsLeased device name method db r a sound e =
        Fine-Granted _ _ _ a
          (allocate_in-Fine device method db r (resolve pool (some ops) r name) sound
            (λ res k. resolve-IsBlock r name res sound k))
          e
