-- ===== src/Lease/Free.antt =====
-- internal/ipam/ipam.go, `firstFree`: which addresses of a block are free.
use nebula_control_plane.Prelude.{
  ℕ, ◌≤◌, ◌≡◌, ◌≢◌, refl, Bool, true, false, List, [], ◌∷◌, Option, none, some, arith, ◌==◌,
  Bool-cases, inl, inr, count, keep, All, All-map, ◌↔◌,
}
use nebula_control_plane.Net.Prefix.{Prefix, masked, contains, overlaps}
use nebula_control_plane.Net.Overlap.{apart_disjoint}
use nebula_control_plane.Netblock.Types.{Result, ok, err}
use nebula_control_plane.Netblock.Resolve.{Resolved}
use nebula_control_plane.Lease.Types.{Db, Pool, Resolver, has_ip}
use nebula_control_plane.Lease.Search.{usable, avoided, avoided_by, first_free}
use nebula_control_plane.Lease.Scan.{Lowest, first_free-scan}

count_none-All :
    {A : Type 0} (p : A → Bool) (xs : List A) → (count p xs == 0) ≡ true → All (λ x. p x ≡ false) xs
unfolding count
count_none-All p [] e = tt
count_none-All p (x ∷ xs) e = (ground arith, count_none-All p xs (ground arith))

All-count_none :
    {A : Type 0} (p : A → Bool) (xs : List A) → All (λ x. p x ≡ false) xs → (count p xs == 0) ≡ true
unfolding count
All-count_none p [] h = refl
All-count_none p (x ∷ xs) h = rw h.0 (All-count_none p xs h.1)

-- Of the prefixes that overlap a range, none holds an address of the range exactly if none of all does.
kept_apart :
    (range : Prefix) (a : ℕ) (cs : List Prefix)
    → contains range a ≡ true
    → All (λ c. contains c a ≡ false) (keep (overlaps range) cs)
    → All (λ c. contains c a ≡ false) cs
unfolding keep
kept_apart range a [] w h = tt
kept_apart range a (c ∷ cs) w h = elim (Bool-cases (overlaps range c)) [
  | inl o ↦ let k = rw o at h in (k.0, kept_apart range a cs w k.1)
  | inr o ↦ (apart_disjoint range c a o w, kept_apart range a cs w (rw o at h))
]

keep_apart :
    (range : Prefix) (a : ℕ) (cs : List Prefix)
    → All (λ c. contains c a ≡ false) cs
    → All (λ c. contains c a ≡ false) (keep (overlaps range) cs)
unfolding keep
keep_apart range a [] h = tt
keep_apart range a (c ∷ cs) h = elim (Bool-cases (overlaps range c)) [
  | inl o ↦ rw o (h.0, keep_apart range a cs h.1)
  | inr o ↦ rw o (keep_apart range a cs h.1)
]

-- No block among those that the allocator is told of holds the address.
abbrev pub OutsideCarves : ℕ → Result (List Prefix) → Type 0
OutsideCarves a (err e) = Unit
OutsideCarves a (ok cs) = All (λ c. contains c a ≡ false) cs

-- A range without a name keeps clear of the registry's blocks, if there is a registry.
abbrev pub OutsideBlocks {ℓ} : {R : Type ℓ} → ℕ → Bool → Option (Resolver R) → R → Type 0
OutsideBlocks a named none r = Unit
OutsideBlocks a true (some ops) r = Unit
OutsideBlocks a false (some ops) r = OutsideCarves a (ops.carves r)

-- The lowest address with a property, or there is none.
abbrev pub IsLowest : (ℕ → Type 0) → Option ℕ → Type 0
IsLowest P none = (a : ℕ) → ¬ P a
IsLowest P (some a) = P a × ((b : ℕ) → P b → a ≤ b)

module _ {ℓ} {R : Type ℓ} (pool : Pool) (wired : Option (Resolver R)) (r : R) (res : Resolved)
    (db : Db) where
  -- An address of the block that is not its first, is not reserved, has no row, whatever its state, and
  -- lies in no other block, where the allocator keeps clear of them.
  abbrev pub IsFree : ℕ → Type 0
  IsFree a =
      (contains res.cidr a ≡ true)
      × ((masked res.cidr).addr ≢ a)
      × All (λ (b : ℕ). b ≢ a) pool.reserved
      × All (λ l. l.ip ≢ a) db.allocations
      × OutsideBlocks a res.named wired r

  carves_outside :
      (a : ℕ) (named : Bool) (w : Option (Resolver R))
      → res.named ≡ named
      → contains res.cidr a ≡ true
      → All (λ c. contains c a ≡ false) (avoided pool w r res) ↔ OutsideBlocks a named w r
  carves_outside a named none e c = ((λ h. tt), λ h. tt)
  carves_outside a true (some ops) e c = rw e ((λ h. tt), λ h. tt)
  carves_outside a false (some ops) e c = rw e (told (ops.carves r))
    where
      told :
          (cs : Result (List Prefix))
          → All (λ p. contains p a ≡ false) (avoided_by res.cidr cs) ↔ OutsideCarves a cs
      told (err x) = ((λ h. tt), λ h. tt)
      told (ok cs) = (kept_apart res.cidr a cs c, keep_apart res.cidr a cs)

  IsFree-usable : (a : ℕ) → IsFree a → usable pool wired r res db a ≡ true
  IsFree-usable a (c, base, unreserved, unleased, clear) =
      let u =
        All-count_none (λ (b : ℕ). b == a) pool.reserved
          (All-map (λ b h. ground arith) pool.reserved unreserved) in
      let l =
        All-count_none (has_ip a) db.allocations
          (All-map (λ x h. ground arith) db.allocations unleased) in
      let o =
        All-count_none (λ p. contains p a) (avoided pool wired r res)
          ((carves_outside a res.named wired refl c).1 clear) in
      let n : (a == (masked res.cidr).addr) ≡ false = ground arith in rw (n, u, l, o) refl

  usable-IsFree :
      (a : ℕ) → contains res.cidr a ≡ true → usable pool wired r res db a ≡ true → IsFree a
  usable-IsFree a c t = (
    c,
    ground arith,
    All-map (λ b h. ground arith) pool.reserved
        (count_none-All (λ (b : ℕ). b == a) pool.reserved (ground arith)),
    All-map (λ x h. ground arith) db.allocations
        (count_none-All (has_ip a) db.allocations (ground arith)),
    (carves_outside a res.named wired refl c).0
        (count_none-All (λ p. contains p a) (avoided pool wired r res) (ground arith)),
  )

  lowest : (o : Option ℕ) → Lowest res.cidr (usable pool wired r res db) 0 o → IsLowest IsFree o
  lowest none h = λ a f. h a (omega arith, f.0, IsFree-usable a f)
  lowest (some a) ((low, c, t), least) =
      (usable-IsFree a c t, λ b f. least b (omega arith, f.0, IsFree-usable b f))

  -- `firstFree` finds the lowest address of the block that is free: not its first, not reserved, without
  -- a row, and, for a range without a name, in no block that the registry tells of. Where it
  -- answers that the block is exhausted, none is free.
  pub first_free-Lowest : IsLowest IsFree (first_free pool wired r res db)
  first_free-Lowest = lowest (first_free pool wired r res db) (first_free-scan pool wired r res db)
