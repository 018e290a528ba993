-- ===== src/Lease/Scan.antt =====
-- internal/ipam/ipam.go, `firstFree`: the scan of a block and its lowest usable address.
use native.Mathlib.Nat.{div-eq_of_lt-le}
use nebula_control_plane.Prelude.{
  ℕ, zero, suc, ◌+◌, ◌*◌, ◌≤◌, ◌<◌, ◌≡◌, Bool, true, false, Option, none, some, arith, ◌==◌,
  Bool-cases, inl, inr, ◌↔◌,
}
use nebula_control_plane.Net.Prefix.{Prefix, is_valid, size, masked, contains}
use nebula_control_plane.Net.Power.{size-pos}
use nebula_control_plane.Net.Overlap.{cut, contains_iff, masked_valid}
use nebula_control_plane.Net.Slots.{from_group}
use nebula_control_plane.Lease.Types.{Db, Pool, Resolver}
use nebula_control_plane.Lease.Search.{scan, usable, first_free}
use nebula_control_plane.Netblock.Resolve.{Resolved}

module _ (range : Prefix) (test : ℕ → Bool) where
  abbrev Candidate : ℕ → ℕ → Type 0
  Candidate from a = (from ≤ a) × (contains range a ≡ true) × (test a ≡ true)

  -- The lowest address from one on, or there is none.
  abbrev pub Lowest : ℕ → Option ℕ → Type 0
  Lowest from none = (a : ℕ) → ¬ Candidate from a
  Lowest from (some a) = Candidate from a × ((b : ℕ) → Candidate from b → a ≤ b)

  module _ (lo hi : ℕ)
      (interval : (a : ℕ) → (contains range a ≡ true) ↔ ((lo ≤ a) × (a < hi))) where
    widen : (o : Option ℕ) → Lowest lo o → Lowest 0 o
    widen none l = λ a c. l a (((interval a).0 c.1).0, c.1, c.2)
    widen (some m) ((above, c, t), least) =
        ((omega arith, c, t), λ b d. least b (((interval b).0 d.1).0, d.1, d.2))

    skip : (a : ℕ) (o : Option ℕ) → test a ≡ false → Lowest (suc a) o → Lowest a o
    skip a none e l = λ b c. elim (Bool-cases (a == b)) [
      | inl t ↦ let same : a ≡ b = ground arith in absurd (cc (same, e, c.2))
      | inr t ↦ l b (ground (arith, c.0), c.1, c.2)
    ]
    skip a (some m) e ((above, c, t), least) = (
      (omega (arith, above), c, t),
      λ b d. elim (Bool-cases (a == b)) [
        | inl k ↦ let same : a ≡ b = ground arith in absurd (cc (same, e, d.2))
        | inr k ↦ least b (ground (arith, d.0), d.1, d.2)
      ],
    )

    scan-Lowest : (n a : ℕ) → lo ≤ a → hi ≤ a + n → Lowest a (scan range test n a)
    unfolding scan
    scan-Lowest zero a from fuel = λ b c. let i = (interval b).0 c.1 in omega (arith, i, c.0)
    scan-Lowest (suc n) a from fuel = elim (Bool-cases (contains range a)) [
      | inr out ↦ rw out (λ b c.
          let i = (interval b).0 c.1 in
          let j = (interval a).1 (from, omega (arith, i, c.0)) in absurd (cc (out, j)))
      | inl within ↦ elim (Bool-cases (test a)) [
        | inl t ↦ rw (within, t) ((omega arith, within, t), λ b c. c.0)
        | inr t ↦
            rw (within, t)
              (skip a (scan range test n (suc a)) t
                (scan-Lowest n (suc a) (omega arith) (omega arith)))
      ]
    ]

-- A valid prefix holds the addresses from its base on, as many as its size.
interval_valid :
    (p : Prefix) (a : ℕ)
    → p.bits ≤ 32
    → (contains p a ≡ true) ↔ (((masked p).addr ≤ a) × (a < (masked p).addr + size p.bits))
interval_valid p a v = rw (masked_valid p v) (
  λ c.
      let e = ((contains_iff p a).0 c).1 in
      let g : (cut p.bits a * size p.bits ≤ a) × (a < cut p.bits a * size p.bits + size p.bits) =
        from_group (size p.bits) a (size-pos p.bits) in
      rw e at g,
  λ (lo, hi). (contains_iff p a).1 (v, div-eq_of_lt-le (size p.bits) lo (grind arith)),
)

-- The scan of a block has enough fuel, whether its prefix is valid or not.
pub scan_block :
    (p : Prefix) (test : ℕ → Bool) → Lowest p test 0 (scan p test (size p.bits) (masked p).addr)
scan_block p test = elim (Bool-cases (is_valid p)) [
  | inl v ↦
      let base = (masked p).addr in
      let interval : (a : ℕ) → (contains p a ≡ true) ↔ ((base ≤ a) × (a < base + size p.bits)) =
        λ a. interval_valid p a (ground arith) in
      widen p test base (base + size p.bits) interval _ (
        scan-Lowest p test base (base + size p.bits) interval (size p.bits) base (omega arith)
          (omega arith))
  | inr v ↦
      let base = (masked p).addr in
      let nowhere : (a : ℕ) → (contains p a ≡ true) ↔ ((base ≤ a) × (a < 0)) = λ a. (
        (λ c. let i = (contains_iff p a).0 c in absurd (ground arith)),
        λ (l, u). absurd (omega (arith, u)),
      ) in
      widen p test base 0 nowhere _
        (scan-Lowest p test base 0 nowhere (size p.bits) base (omega arith) (omega arith))
]

module _ {ℓ} {R : Type ℓ} (pool : Pool) (wired : Option (Resolver R)) (r : R) (res : Resolved)
    (db : Db) where
  -- `firstFree` finds the lowest address of the block that passes its tests, if there is one.
  pub first_free-scan :
      Lowest res.cidr (usable pool wired r res db) 0 (first_free pool wired r res db)
  unfolding first_free
  first_free-scan = scan_block res.cidr (usable pool wired r res db)
