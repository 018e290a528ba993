-- ===== src/Net/Overlap.antt =====
-- What it means, for addresses, that prefixes overlap or lie in one another.
use native.Mathlib.Nat.{mul-div_left}
use nebula_control_plane.Prelude.{
  ℕ, ◌*◌, ◌/◌, ◌≤◌, ◌≡◌, refl, ◌∙◌, sym, ap, true, false, arith, ltb, leb, Bool-cases, inl, inr,
  ◌⊎◌, ◌↔◌,
}
use nebula_control_plane.Net.Prefix.{
  Prefix, is_valid, size, masked, contains, overlaps, prefix_inside,
}
use nebula_control_plane.Net.Power.{size-pos, coarser}

-- The number of an address among the prefixes of so many bits.
abbrev pub cut : ℕ → ℕ → ℕ
cut b a = a / size b

pub contains_iff :
    (p : Prefix) (a : ℕ)
    → (contains p a ≡ true) ↔ ((p.bits ≤ 32) × (cut p.bits a ≡ cut p.bits p.addr))
unfolding contains
contains_iff p a = ground arith

-- The shorter of two overlapping prefixes contains the other.
abbrev Meets : Prefix → Prefix → Type 0
Meets p q =
    (p.bits ≤ 32)
    × (q.bits ≤ 32)
    × (((p.bits ≤ q.bits) × (cut p.bits p.addr ≡ cut p.bits q.addr))
        ⊎ ((q.bits ≤ p.bits) × (cut q.bits p.addr ≡ cut q.bits q.addr)))

pub overlaps_iff : (p q : Prefix) → (overlaps p q ≡ true) ↔ Meets p q
unfolding overlaps
overlaps_iff p q = elim (Bool-cases (ltb p.bits q.bits)) [
  | inl s ↦ rw s (ground arith)
  | inr s ↦ rw s (ground arith)
]

pub overlaps_comm : (p q : Prefix) → overlaps p q ≡ overlaps q p
overlaps_comm p q = elim (Bool-cases (overlaps p q)) [
  | inl a ↦ elim (Bool-cases (overlaps q p)) [
    | inl b ↦ a ∙ sym b
    | inr b ↦ absurd (ground (arith, overlaps_iff p q, overlaps_iff q p))
  ]
  | inr a ↦ elim (Bool-cases (overlaps q p)) [
    | inl b ↦ absurd (ground (arith, overlaps_iff p q, overlaps_iff q p))
    | inr b ↦ a ∙ sym b
  ]
]

-- Prefixes that do not overlap share no address.
pub apart_disjoint :
    (p q : Prefix) (a : ℕ) → overlaps p q ≡ false → contains p a ≡ true → contains q a ≡ false
apart_disjoint p q a o c = elim (Bool-cases (contains q a)) [
  | inr d ↦ d
  | inl d ↦
      let (vp, ep) = (contains_iff p a).0 c in
      let (vq, eq) = (contains_iff q a).0 d in
      elim (Bool-cases (leb p.bits q.bits)) [
        | inl s ↦
            let e = coarser p.bits q.bits a q.addr (ground arith) vq eq in
            absurd (ground (arith, overlaps_iff p q))
        | inr s ↦
            let e = coarser q.bits p.bits a p.addr (ground arith) vp ep in
            absurd (ground (arith, overlaps_iff p q))
      ]
]

-- One prefix lies in another.
abbrev pub Inside : Prefix → Prefix → Type 0
Inside p q = (q.bits ≤ p.bits) × (p.bits ≤ 32) × (cut q.bits p.addr ≡ cut q.bits q.addr)

pub Inside-contains :
    (p q : Prefix) (a : ℕ) → Inside p q → contains p a ≡ true → contains q a ≡ true
Inside-contains p q a i c =
    let (v, e) = (contains_iff p a).0 c in
    (contains_iff q a).1 (omega (arith, i.0, i.1), coarser q.bits p.bits a p.addr i.0 i.1 e ∙ i.2)

pub Inside-overlaps : (p q r : Prefix) → Inside p q → overlaps p r ≡ true → overlaps q r ≡ true
Inside-overlaps p q r i o =
    let (vp, vr, m) = (overlaps_iff p r).0 o in
    (overlaps_iff q r).1 (elim m [
      | inl (s, e) ↦ (
        omega (arith, i.0),
        vr,
        inl (omega (arith, i.0), sym i.2 ∙ coarser q.bits p.bits p.addr r.addr i.0 i.1 e),
      )
      | inr (s, e) ↦ elim (Bool-cases (leb q.bits r.bits)) [
        | inl t ↦ (
          omega (arith, i.0),
          vr,
          inl (ground arith, sym i.2 ∙ coarser q.bits r.bits p.addr r.addr (ground arith) vr e),
        )
        | inr t ↦ (
          omega (arith, i.0),
          vr,
          inr (
            ground arith,
            sym (coarser r.bits q.bits p.addr q.addr (ground arith) (omega (arith, i.0)) i.2) ∙ e,
          ),
        )
      ]
    ])

pub masked_valid :
    (p : Prefix)
    → p.bits ≤ 32
    → masked p ≡ record { addr = cut p.bits p.addr * size p.bits; bits = p.bits }
unfolding masked
masked_valid p v = let h : is_valid p ≡ true = ground arith in rw h refl

pub cut-masked : (b a m : ℕ) → m ≤ b → b ≤ 32 → cut m (cut b a * size b) ≡ cut m a
cut-masked b a m h k = coarser m b (cut b a * size b) a h k (mul-div_left (cut b a) (size-pos b))

pub masked_twice : (p : Prefix) → p.bits ≤ 32 → masked (masked p) ≡ masked p
masked_twice p v = rw (masked_valid p v) (
    masked_valid _ v
    ∙ ap (λ (t : ℕ). record { addr = t * size p.bits; bits = p.bits })
        (cut-masked p.bits p.addr p.bits (omega arith) v))

-- Cutting a prefix off at its own length changes neither where it lies nor what it overlaps.
pub masked-Inside : (p : Prefix) → p.bits ≤ 32 → Inside (masked p) p × Inside p (masked p)
masked-Inside p v = rw (masked_valid p v) (
  (omega arith, v, cut-masked p.bits p.addr p.bits (omega arith) v),
  (omega arith, v, sym (cut-masked p.bits p.addr p.bits (omega arith) v)),
)

pub prefix_inside-Inside : (p q : Prefix) → p.bits ≤ 32 → (prefix_inside p q ≡ true) ↔ Inside p q
unfolding prefix_inside
prefix_inside-Inside p q v = rw (masked_valid p v) (
  λ h.
      let (vq, e) = (contains_iff q (cut p.bits p.addr * size p.bits)).0 (ground arith) in
      (ground arith, v, sym (cut-masked p.bits p.addr q.bits (ground arith) v) ∙ e),
  λ i.
      let c =
        (contains_iff q (cut p.bits p.addr * size p.bits)).1
          (omega (arith, i.0), cut-masked p.bits p.addr q.bits i.0 v ∙ i.2) in
      ground (arith, i.0),
)

pub Inside-trans : (p q r : Prefix) → Inside p q → Inside q r → Inside p r
Inside-trans p q r i j = (
  omega (arith, i.0, j.0),
  i.1,
  coarser r.bits q.bits p.addr q.addr j.0 (omega (arith, i.0, i.1)) i.2 ∙ j.2,
)
