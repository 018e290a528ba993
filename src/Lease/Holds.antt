-- ===== src/Lease/Holds.antt =====
-- internal/ipam/ipam.go: the leases of an address, and its quarantine.
use nebula_control_plane.Prelude.{
  ℕ, ◌+◌, ◌<◌, ◌≡◌, ◌≢◌, refl, String, Bool, false, ◌&&◌, not, Option, arith, leb, ◌==◌, Bool-cases,
  inl, inr, count, count-keep, count-update_some, count-update_others, count_mono,
}
use nebula_control_plane.Lease.Types.{
  Db, Allocation, Pool, Resolver, Call, done, has_ip, is_allocated, quarantined?,
}
use nebula_control_plane.Lease.Operations.{
  purge_expired, is_expired, allocate, allocate_specific, release, quarantine,
}
use nebula_control_plane.Lease.Invariant.{
  IsKept, allocate-keeps, allocate-returns, allocate_specific-keeps, allocate_specific-returns,
}

-- A quarantine of an address that lasts until a time, or longer.
abbrev pub held : ℕ → ℕ → Allocation → Bool
held a end l = (l.ip == a) && (quarantined? l.state && leb end l.quarantine_until)

abbrev pub Held : ℕ → ℕ → Db → Type 0
Held a end db = 0 < count (held a end) db.allocations

Held-IsKept :
    (call : Call) (a end : ℕ) → call.now < end → IsKept call (Held a end) (λ (b : ℕ). b ≢ a)
unfolding purge_expired count
Held-IsKept call a end early = record {
  device = λ db name h. h;
  purge = λ db h.
      let e =
        count-keep (λ l. not (is_expired call.now l)) (held a end) (λ l t. ground arith)
          db.allocations in
      omega (arith, e, h);
  lease = λ db ip device block method h fresh. (
    ground (arith, h),
    λ same.
        let le = count_mono (held a end) (has_ip a) (λ l t. ground arith) db.allocations in
        absurd (omega (arith, le, h, rw same at fresh)),
  );
}

module _ (pool : Pool) (call : Call) where
  pub release-Held :
      (a b end : ℕ) (db : Db)
      → (pool.quarantine_ttl == 0) ≡ false
      → Held a end db
      → Held a end (release pool call b db).0
  unfolding release
  release-Held a b end db t h = elim (Bool-cases call.writes) [
    | inr w ↦ rw w h
    | inl w ↦
        let le =
          count-update_others (is_allocated b) (held a end) (quarantine pool call.now)
            (λ l x. ground arith) db.allocations in
        rw (w, t) (omega (arith, le, h))
  ]

  -- A successful `Release` with a quarantine holds the address until the quarantine is over.
  pub release-holds :
      (a : ℕ) (db : Db)
      → (pool.quarantine_ttl == 0) ≡ false
      → (release pool call a db).1 ≡ done tt
      → Held a (call.now + pool.quarantine_ttl) (release pool call a db).0
  unfolding release
  release-holds a db t e = elim (Bool-cases call.writes) [
    | inr w ↦ absurd (cc (rw w at e))
    | inl w ↦ elim (Bool-cases (count (is_allocated a) db.allocations == 0)) [
      | inl z ↦ absurd (cc (rw (w, t, z) at e))
      | inr z ↦
          let le =
            count-update_some (is_allocated a) (held a (call.now + pool.quarantine_ttl))
              (quarantine pool call.now) (λ l x. ground arith) db.allocations in
          rw (w, t) (ground arith)
    ]
  ]

module _ {ℓ} {R : Type ℓ} (pool : Pool) (wired : Option (Resolver R)) (call : Call)
    (others : ℕ → Db → Db) where
  -- Until the quarantine of an address is over, provided that other allocators do not end it: neither
  -- `Allocate` nor `AllocateSpecific` returns the address, and it is still held after each of them and
  -- after a `Release` of any address, where releases have a quarantine.
  pub quarantine_kept :
      (device name method : String) (a b end : ℕ) (db : Db) (r : R)
      → (pool.quarantine_ttl == 0) ≡ false
      → call.now < end
      → ((n : ℕ) (s : Db) → Held a end s → Held a end (others n s))
      → Held a end db
      → ((allocate pool wired call others device name method db r).1 ≢ done a)
        × Held a end (allocate pool wired call others device name method db r).0.0
        × ((allocate_specific pool wired call device b method db r).1 ≢ done a)
        × Held a end (allocate_specific pool wired call device b method db r).0
        × Held a end (release pool call b db).0
  quarantine_kept device name method a b end db r t early elsewhere h =
      let kept = Held-IsKept call a end early in
      let apart = λ (c : ℕ). c ≢ a in
      (
        λ e.
            allocate-returns pool wired call others (Held a end) apart kept elsewhere device name
              method db r a h e refl,
        allocate-keeps pool wired call others (Held a end) apart kept elsewhere device name method
            db r h,
        λ e.
            allocate_specific-returns pool wired call others (Held a end) apart kept elsewhere
              device b method db r a h e refl,
        allocate_specific-keeps pool wired call others (Held a end) apart kept elsewhere device b
            method db r h,
        release-Held pool call a b end db t h,
      )
