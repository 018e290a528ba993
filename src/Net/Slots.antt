-- ===== src/Net/Slots.antt =====
-- The aligned prefixes of one length inside another prefix.
use native.Mathlib.Nat.{
  mul-div_left, div-eq_of_lt-le, div-mul-le_self, lt-div-mul-add, div-div-eq-div-mul, one-le-pow,
}
use nebula_control_plane.Prelude.{
  ℕ, zero, suc, ◌+◌, ◌-◌, ◌*◌, ◌/◌, ◌^◌, ◌≤◌, ◌<◌, ◌≡◌, refl, ◌∙◌, sym, ap, false, List, [], ◌∷◌,
  some, arith, ltb, ◌==◌, Bool-cases, Option-cases, inl, inr, All, All-map, subst,
}
use nebula_control_plane.Net.Prefix.{Prefix, size, masked, next_slot, slots_from, slots, u32}
use nebula_control_plane.Net.Power.{size-pos, size_split, pow-add}
use nebula_control_plane.Net.Overlap.{cut, masked_valid, Inside}

-- The prefix with a given number among those of its length.
abbrev pub slot : ℕ → ℕ → Prefix
slot b i = record { addr = i * size b; bits = b }

masked-slot : (b i : ℕ) → b ≤ 32 → masked (slot b i) ≡ slot b i
masked-slot b i v = rw (masked_valid (slot b i) v, mul-div_left i (size-pos b)) refl

next_slot-slot :
    (b i : ℕ) → b ≤ 32 → (i + 2) * size b ≤ 2 ^ 32 → next_slot (slot b i) ≡ some (slot b (suc i))
unfolding next_slot
next_slot-slot b i v h =
    let pos = size-pos b in
    let small : size b < 2 ^ 32 = grind arith in
    let after : i * size b + size b ≡ suc i * size b = grind arith in
    let below : suc i * size b < 2 ^ 32 = grind arith in
    let step : u32 (i * size b + u32 (size b)) ≡ suc i * size b = grind arith in
    let up : ltb (suc i * size b) (i * size b) ≡ false = grind arith in
    rw (masked-slot b i v, step, up) refl

-- The slots from number `i` on.
abbrev slots_of : ℕ → ℕ → ℕ → List Prefix
slots_of b i zero = []
slots_of b i (suc n) = slot b i ∷ slots_of b (suc i) n

slots_from-slots_of :
    (b n i : ℕ) → b ≤ 32 → (i + n) * size b ≤ 2 ^ 32 → slots_from n (slot b i) ≡ slots_of b i n
unfolding slots_from
slots_from-slots_of b zero i v h = refl
slots_from-slots_of b (suc zero) i v h = elim (Option-cases (next_slot (slot b i))) [
  | inl e ↦ rw e refl
  | inr (q, e) ↦ rw e refl
]
slots_from-slots_of b (suc (suc n)) i v h =
    rw (next_slot-slot b i v (grind arith))
      (ap (λ ps. slot b i ∷ ps) (slots_from-slots_of b (suc n) (suc i) v (grind arith)))

abbrev IsNumbered : ℕ → ℕ → ℕ → Prefix → Type 0
IsNumbered b lo hi p = (j : ℕ) × (lo ≤ j) × (j < hi) × (p ≡ slot b j)

slots_of-IsNumbered : (b i n : ℕ) → All (IsNumbered b i (i + n)) (slots_of b i n)
slots_of-IsNumbered b i zero = tt
slots_of-IsNumbered b i (suc n) = (
  (i, omega arith, omega arith, refl),
  All-map (λ p (j, lo, hi, e). (j, omega arith, omega arith, e)) (slots_of b (suc i) n)
      (slots_of-IsNumbered b (suc i) n),
)

slots_of-holds {ℓ} :
    (Q : Prefix → Type ℓ) (b n i j : ℕ) → All Q (slots_of b i n) → i ≤ j → j < i + n → Q (slot b j)
slots_of-holds Q b zero i j a lo hi = absurd (omega arith)
slots_of-holds Q b (suc n) i j a lo hi = elim (Bool-cases (i == j)) [
  | inl e ↦ let same : i ≡ j = ground arith in subst (λ k. Q (slot b k)) same a.0
  | inr e ↦ slots_of-holds Q b n (suc i) j a.1 (ground arith) (omega arith)
]

fewer : (a c t : ℕ) → a * t < c * t → a < c
fewer a c t h = elim (Bool-cases (ltb a c)) [
  | inl e ↦ ground arith
  | inr e ↦ let k : c ≤ a = ground arith in absurd (grind arith)
]

scaled : (a k s : ℕ) → (a * k + k) * s ≡ suc a * (s * k)
scaled a k s = grind arith

within_group : (a k j : ℕ) → a * k ≤ j → j < a * k + k → j / k ≡ a
within_group a k j lo hi = div-eq_of_lt-le k lo (grind arith)

pub from_group : (k j : ℕ) → 0 < k → (j / k * k ≤ j) × (j < j / k * k + k)
from_group k j h = (div-mul-le_self j k, lt-div-mul-add h)

at_most : (a c t : ℕ) → a ≤ c → a * t ≤ c * t
at_most a c t h = grind arith

-- A prefix that is cut off at its length, of 32-bit addresses.
pub record IsPool (pool : Prefix) : Type 0 where
  pub bits-le : pool.bits ≤ 32
  pub aligned : cut pool.bits pool.addr * size pool.bits ≡ pool.addr
  pub addr-lt : pool.addr < 2 ^ 32

pub masked-IsPool : (p : Prefix) → p.bits ≤ 32 → p.addr < 2 ^ 32 → IsPool (masked p)
masked-IsPool p v small = rw (masked_valid p v) (record {
  bits-le = v;
  aligned = ap (λ (t : ℕ). t * size p.bits) (mul-div_left (cut p.bits p.addr) (size-pos p.bits));
  addr-lt = omega (arith, small, div-mul-le_self p.addr (size p.bits));
})

-- The last address of a pool is a 32-bit number.
pub pool_end : (p : Prefix) → IsPool p → suc (cut p.bits p.addr) * size p.bits ≤ 2 ^ 32
pool_end p h =
    let whole : 2 ^ p.bits * size p.bits ≡ 2 ^ 32 =
      let v = h.bits-le in grind (arith, pow-add p.bits (32 - p.bits)) in
    let below =
      fewer (cut p.bits p.addr) (2 ^ p.bits) (size p.bits) (rw (h.aligned, whole) h.addr-lt) in
    omega (arith, whole, at_most (suc (cut p.bits p.addr)) (2 ^ p.bits) (size p.bits) below)

pub Inside-addr : (p q : Prefix) → IsPool q → Inside p q → p.addr < 2 ^ 32
Inside-addr p q h i =
    let (l, u) = from_group (size q.bits) p.addr (size-pos q.bits) in
    let e = ap (λ (t : ℕ). t * size q.bits) i.2 in let last = pool_end q h in grind arith

pub Inside-IsPool : (p q : Prefix) → IsPool q → Inside p q → IsPool (masked p)
Inside-IsPool p q h i = masked-IsPool p i.1 (Inside-addr p q h i)

pub IsPool-masked : (p : Prefix) → IsPool p → masked p ≡ p
IsPool-masked p h =
    masked_valid p h.bits-le ∙ ap (λ (t : ℕ). record { addr = t; bits = p.bits }) h.aligned

module _ (pool : Prefix) (b : ℕ) (h : IsPool pool) (lo : pool.bits ≤ b) (hi : b ≤ 32) where
  abbrev many : ℕ
  many = 2 ^ (b - pool.bits)

  abbrev base : ℕ
  base = cut pool.bits pool.addr * many

  -- The first slot begins where the pool does, and the last one ends by the last address.
  first_slot : base * size b ≡ pool.addr
  first_slot = let split = size_split pool.bits b lo hi in let al = h.aligned in grind arith

  room : (base + many) * size b ≤ 2 ^ 32
  room =
      let sum =
        scaled (cut pool.bits pool.addr) many (size b)
        ∙ ap (λ (t : ℕ). suc (cut pool.bits pool.addr) * t) (sym (size_split pool.bits b lo hi)) in
      omega (arith, pool_end pool h, sum)

  slots-slots_of : slots pool b ≡ slots_of b base many
  unfolding slots
  slots-slots_of =
      let short : ltb b pool.bits ≡ false = ground arith in
      let long : ltb 32 b ≡ false = ground arith in
      let start : masked (record { addr = pool.addr; bits = b }) ≡ slot b base =
        ap (λ (t : ℕ). masked (record { addr = t; bits = b })) (sym first_slot)
        ∙ masked-slot b base hi in
      rw (short, long, start) (slots_from-slots_of b many base hi room)

  -- Which group of `many` a slot stands in.
  cut-slot : (j : ℕ) → cut pool.bits (j * size b) ≡ j / many
  cut-slot j =
      let split = size_split pool.bits b lo hi in
      rw split (
        sym (div-div-eq-div-mul (j * size b) (size b) many)
        ∙ ap (λ (t : ℕ). t / many) (mul-div_left j (size-pos b)))

  slot-IsPool : (j : ℕ) → j < base + many → IsPool (slot b j)
  slot-IsPool j u = record {
    bits-le = hi;
    aligned = ap (λ (t : ℕ). t * size b) (mul-div_left j (size-pos b));
    addr-lt = grind (arith, at_most (suc j) (base + many) (size b) u, room, size-pos b);
  }

  -- Every slot has the length that was asked for, is cut off at it and lies in the pool.
  pub slots-Inside : All (λ p. IsPool p × (p.bits ≡ b) × Inside p pool) (slots pool b)
  slots-Inside = rw slots-slots_of (
      All-map
        (λ p (j, l, u, e). rw e (
          slot-IsPool j u,
          refl,
          (lo, hi, cut-slot j ∙ within_group (cut pool.bits pool.addr) many j l u),
        ))
        (slots_of b base many) (slots_of-IsNumbered b base many))

  -- What holds of all slots holds of every such prefix.
  pub slots_all {ℓ} :
      (Q : Prefix → Type ℓ) (p : Prefix)
      → All Q (slots pool b)
      → p.bits ≡ b
      → masked p ≡ p
      → Inside p pool
      → Q p
  slots_all Q p a e m i =
      let j = cut b p.addr in
      let same : slot b j ≡ p = rw (← e) (sym (masked_valid p (rw e hi)) ∙ m) in
      let at : j * size b ≡ p.addr = ap (λ (q : Prefix). q.addr) same in
      let group : j / many ≡ cut pool.bits pool.addr = sym (cut-slot j) ∙ rw at i.2 in
      let (l, u) = from_group many j (one-le-pow (b - pool.bits) 2 (omega arith)) in
      subst Q same
        (slots_of-holds Q b many base j (rw slots-slots_of at a) (rw group at l) (rw group at u))
