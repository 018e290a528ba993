-- ===== src/Lease/History.antt =====
-- internal/ipam/ipam.go: what follows the release of an address while its quarantine lasts.
use nebula_control_plane.Prelude.{ℕ, ◌+◌, ◌<◌, ◌≡◌, ◌≢◌, String, false, Option, ◌==◌}
use nebula_control_plane.Lease.Types.{Db, Pool, Resolver, Call, done}
use nebula_control_plane.Lease.Operations.{allocate, allocate_specific, release}
use nebula_control_plane.Lease.Holds.{Held, quarantine_kept, release-Held, release-holds}

module _ {ℓ} {R : Type ℓ} (pool : Pool) (wired : Option (Resolver R)) where
  -- What other allocators write does not end the quarantine of an address.
  abbrev pub Spares : ℕ → ℕ → (ℕ → Db → Db) → Type 0
  Spares a end others = (n : ℕ) (s : Db) → Held a end s → Held a end (others n s)

  -- The tables that calls before a time lead to from another table.
  pub data Later (a end : ℕ) (start : Db) : Db → Type ℓ where
    at_once : Later a end start start
    allocates :
        {db : Db}
        → Later a end start db
        → (call : Call) (others : ℕ → Db → Db) (device name method : String) (r : R)
        → call.now < end
        → Spares a end others
        → Later a end start (allocate pool wired call others device name method db r).0.0
    allocates_specific :
        {db : Db}
        → Later a end start db
        → (call : Call) (device : String) (b : ℕ) (method : String) (r : R) → call.now < end
        → Later a end start (allocate_specific pool wired call device b method db r).0
    releases :
        {db : Db}
        → Later a end start db
        → (call : Call) (b : ℕ) → call.now < end
        → Later a end start (release pool call b db).0

  Later-Held :
      (a end : ℕ) (start db : Db)
      → (pool.quarantine_ttl == 0) ≡ false
      → Later a end start db
      → Held a end start
      → Held a end db
  Later-Held a end start _ t at_once h = h
  Later-Held a end start _ t (allocates {db} l call others device name method r early spares) h =
      (quarantine_kept pool wired call others device name method a a end db r t early spares
        (Later-Held a end start db t l h)).1
  Later-Held a end start _ t (allocates_specific {db} l call device b method r early) h =
      (quarantine_kept pool wired call (λ n s. s) device "" method a b end db r t early (λ n s k. k)
        (Later-Held a end start db t l h)).3
  Later-Held a end start _ t (releases {db} l call b early) h =
      release-Held pool call a b end db t (Later-Held a end start db t l h)

  -- Where releases have a quarantine: after a successful `Release` of an address, and whatever calls
  -- of `Allocate`, `AllocateSpecific` and `Release` follow it, neither `Allocate` nor `AllocateSpecific`
  -- returns the address before its quarantine is over, provided that what other allocators write
  -- during an `Allocate` does not end it.
  pub released_held_back :
      (first call : Call) (others : ℕ → Db → Db) (device name method : String) (a b : ℕ)
      (db later : Db) (r : R)
      → (pool.quarantine_ttl == 0) ≡ false
      → (release pool first a db).1 ≡ done tt
      → Later a (first.now + pool.quarantine_ttl) (release pool first a db).0 later
      → call.now < first.now + pool.quarantine_ttl
      → Spares a (first.now + pool.quarantine_ttl) others
      → ((allocate pool wired call others device name method later r).1 ≢ done a)
        × ((allocate_specific pool wired call device b method later r).1 ≢ done a)
  released_held_back first call others device name method a b db later r t e l early spares =
      let end = first.now + pool.quarantine_ttl in
      let h =
        Later-Held a end (release pool first a db).0 later t l
          (release-holds pool first a db t e) in
      let kept =
        quarantine_kept pool wired call others device name method a b end later r t early spares
          h in
      (kept.0, kept.2)
