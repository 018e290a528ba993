-- ===== src/Lease/Registry.antt =====
-- internal/ipam/ipam.go over internal/netblock/netblock.go: the registry of blocks as the resolver of
-- the allocator.
use nebula_control_plane.Prelude.{
  ℕ, ◌≡◌, refl, String, Bool, List, some, arith, if◌then◌else◌, ◌==◌, Bool-cases, inl, inr, count,
}
use nebula_control_plane.Net.Prefix.{Prefix, contains}
use nebula_control_plane.Net.Slots.{IsPool}
use nebula_control_plane.Netblock.Types.{
  Result, ok, err, Netblock, prefix, Live, Env, is_named, has_name, has_cidr, db_error,
  default_name, not_found,
}
use nebula_control_plane.Netblock.Types
use nebula_control_plane.Netblock.Registry.{grow}
use nebula_control_plane.Netblock.Resolve.{resolve_full, carves}
use nebula_control_plane.Netblock.History.{
  Reached, Reached-IsCarved, called, grown, call_env, blocks_disjoint,
}
use nebula_control_plane.Lease.Types.{Pool, Resolver, Call, done, has_ip, Db}
use nebula_control_plane.Lease.Operations.{allocate}
use nebula_control_plane.Lease.Grant.{BlockLaws, allocate-IsLeased}
use nebula_control_plane.Lease.Blocks.{HasBlock, resolve_full-HasBlock, within_block, grow-HasBlock}

-- The table of blocks, and the rows that a registry last read of it. Other registries may have
-- changed the table since.
pub record View : Type 0 where
  pub table : Types.Db
  pub snapshot : List Netblock

-- A change by the registry itself drops what it has read.
abbrev pub after_change : List Netblock → Types.Db × Result Prefix → View × Result Prefix
after_change old (db, ok p) = (record { table = db; snapshot = db.rows }, ok p)
after_change old (db, err e) = (record { table = db; snapshot = old }, err e)

module _ (env : Env) where
  -- The methods of `Registry` that the allocator calls: blocks are looked up in what the registry has
  -- read, and grown in the table.
  abbrev pub registry_resolver : Resolver View
  registry_resolver = record {
    resolve_full = λ c name. if env.reads then resolve_full c.snapshot name else err db_error;
    carves = λ c. if env.reads then ok (carves c.snapshot) else err db_error;
    grow = λ c name actor. after_change c.snapshot (grow env c.table name actor);
  }

module _ (pool : Prefix) (reserved : List ℕ) (whole : IsPool pool) (live : Live)
    (reads writes : Bool) where
  abbrev env : Env
  env = call_env pool reserved live reads writes

  -- What a registry has read are the rows of a table that some calls led to.
  abbrev pub IsView : View → Type 0
  IsView c =
      Reached pool reserved c.table
      × ((seen : Types.Db) × Reached pool reserved seen × (c.snapshot ≡ seen.rows))

  after_change-IsView :
      (old : List Netblock)
      → ((seen : Types.Db) × Reached pool reserved seen × (old ≡ seen.rows))
      → (r : Types.Db × Result Prefix) → Reached pool reserved r.0
      → IsView (after_change old r).0
  after_change-IsView old seen (db, ok p) h = (h, (db, h, refl))
  after_change-IsView old seen (db, err e) h = (h, seen)

  after_change-HasBlock :
      (old : List Netblock) (r : Types.Db × Result Prefix) (p : Prefix)
      → (r.1 ≡ ok p → HasBlock r.0.rows p)
      → (after_change old r).1 ≡ ok p
      → HasBlock (after_change old r).0.snapshot p
  after_change-HasBlock old (db, ok q) p h e = h e
  after_change-HasBlock old (db, err x) p h e = absurd (cc e)

  abbrev registry_laws : BlockLaws (registry_resolver env)
  registry_laws = record {
    IsSound = IsView;
    IsBlock = λ c p. HasBlock c.snapshot p;
    resolves = λ c name res sound e. elim (Bool-cases reads) [
      | inl a ↦ resolve_full-HasBlock c.snapshot name res (rw a at e)
      | inr a ↦ absurd (cc (rw a at e))
    ];
    grow-IsSound = λ c name actor sound.
        after_change-IsView c.snapshot sound.1 (grow env c.table name actor)
          (called sound.0 (grown live reads writes name actor));
    grows = λ c name actor p sound e.
        after_change-HasBlock c.snapshot (grow env c.table name actor) p
          (λ k.
            grow-HasBlock env c.table name actor p
              (Reached-IsCarved pool reserved whole c.table sound.0) k)
          e;
  }

  -- For a table of blocks that any calls led to, and a registry that has read this or another such
  -- table: an address that `Allocate` returns lies in exactly one of the blocks that the registry
  -- then has read, is not reserved, and has exactly one lease, whatever other allocators write
  -- meanwhile and however often the block grows.
  pub allocate-registry :
      (conf : Pool) (call : Call) (others : ℕ → Db → Db) (device name method : String) (db : Db)
      (blocks : View) (a : ℕ)
      → IsView blocks
      → (allocate conf (some (registry_resolver env)) call others device name method db blocks).1
        ≡ done a
      → (count
            (λ n. contains (prefix n) a)
            (allocate conf
              (some (registry_resolver env))
              call
              others
              device
              name
              method
              db
              blocks).0.1.snapshot
          ≡ 1)
        × (count
              (has_ip a)
              (allocate conf
                (some (registry_resolver env))
                call
                others
                device
                name
                method
                db
                blocks).0.0.allocations
            ≡ 1)
        × (count (λ (b : ℕ). b == a) conf.reserved ≡ 0)
  allocate-registry conf call others device name method db blocks a r e =
      let (sound, cidr, block, lease) =
        allocate-IsLeased conf (registry_resolver env) registry_laws call others device name method
          db blocks a r e in
      let after =
        (allocate conf (some (registry_resolver env)) call others device name method db
          blocks).0.1 in
      let least = within_block cidr a after.snapshot block lease.within in
      let (seen, reached, same) = sound.1 in
      let most = rw (← same) at ((blocks_disjoint pool reserved whole seen a reached).0) in
      (omega (arith, least, most), lease.once, lease.unreserved)
