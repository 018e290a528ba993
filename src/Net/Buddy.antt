-- ===== src/Net/Buddy.antt =====
-- internal/netblock/netblock.go, `buddyOf`: a prefix and its buddy make up the next shorter one.
use native.Mathlib.Nat.{mul-div_left, div-div-eq-div-mul}
use nebula_control_plane.Prelude.{
  ℕ, suc, ◌+◌, ◌-◌, ◌*◌, ◌/◌, ◌^◌, ◌≤◌, ◌<◌, ◌≡◌, refl, ◌∙◌, sym, ap, true, false, arith, leb, ◌==◌,
  Bool-cases, inl, inr, ◌⊎◌,
}
use nebula_control_plane.Net.Prefix.{Prefix, size, parent, buddy_of, overlaps, u32}
use nebula_control_plane.Net.Power.{size-pos, size_split}
use nebula_control_plane.Net.Overlap.{cut, masked_valid, overlaps_iff}
use nebula_control_plane.Net.Slots.{IsPool, IsPool-masked, masked-IsPool, pool_end}

size-half : (b : ℕ) → 0 < b → b ≤ 32 → size (b - 1) ≡ size b * 2
size-half b h k =
    let one : b - (b - 1) ≡ 1 = omega arith in
    size_split (b - 1) b (omega arith) k ∙ ap (λ (t : ℕ). size b * 2 ^ t) one

cut-half : (b x : ℕ) → 0 < b → b ≤ 32 → cut (b - 1) x ≡ cut b x / 2
cut-half b x h k = rw (size-half b h k) (sym (div-div-eq-div-mul x (size b) 2))

cancel : (a c s : ℕ) → 0 < s → a * s ≡ c * s → a ≡ c
cancel a c s h e = sym (mul-div_left a h) ∙ (ap (λ (t : ℕ). t / s) e ∙ mul-div_left c h)

doubled : (u t : ℕ) → u * (t * 2) ≡ u * 2 * t
doubled u t = grind arith

pair_up : (u t : ℕ) → (u * 2 + 2) * t ≡ suc u * (t * 2)
pair_up u t = grind arith

next_at : (n t a : ℕ) → n * t ≡ a → 0 < t → (n + 2) * t ≤ 2 ^ 32 → u32 (a + u32 t) ≡ suc n * t
next_at n t a e pos fits =
    let small : t < 2 ^ 32 = grind arith in
    let after : n * t + t ≡ suc n * t = grind arith in
    let below : suc n * t < 2 ^ 32 = grind arith in ground arith

module _ (cur : Prefix) (whole : IsPool cur) (longer : 0 < cur.bits)
    (lower : (parent cur).addr ≡ cur.addr) where
  abbrev number : ℕ
  number = cut cur.bits cur.addr

  abbrev upper : ℕ
  upper = cut (cur.bits - 1) cur.addr

  shorter : cur.bits - 1 ≤ 32
  shorter = omega (arith, whole.bits-le)

  above : parent cur ≡ record { addr = upper * size (cur.bits - 1); bits = cur.bits - 1 }
  above = masked_valid (record { addr = cur.addr; bits = cur.bits - 1 }) shorter

  above-at : upper * size (cur.bits - 1) ≡ cur.addr
  above-at = ap (λ (q : Prefix). q.addr) (sym above) ∙ lower

  -- A lower half has an even number.
  even : number ≡ upper * 2
  even = cancel number (upper * 2) (size cur.bits) (size-pos cur.bits) (
      whole.aligned
      ∙ (sym above-at
          ∙ (ap (λ (t : ℕ). upper * t) (size-half cur.bits longer whole.bits-le)
              ∙ doubled upper (size cur.bits))))

  fits : (number + 2) * size cur.bits ≤ 2 ^ 32
  fits =
      let whole_parent : IsPool (parent cur) = masked-IsPool _ shorter whole.addr-lt in
      let last : suc (cut (cur.bits - 1) (upper * size (cur.bits - 1))) * size (cur.bits - 1)
          ≤ 2 ^ 32 =
        rw above at (pool_end (parent cur) whole_parent) in
      let back = mul-div_left upper (size-pos (cur.bits - 1)) in
      rw (even, pair_up upper (size cur.bits), ← size-half cur.bits longer whole.bits-le)
        (rw back at last)

  -- The buddy of a lower half is the upper half.
  buddy_of-upper : buddy_of cur ≡ record { addr = suc number * size cur.bits; bits = cur.bits }
  unfolding buddy_of
  buddy_of-upper =
      let pos = size-pos cur.bits in
      let some_bits : (cur.bits == 0) ≡ false = ground arith in
      let left : ((parent cur).addr == cur.addr) ≡ true = ground arith in
      let step : u32 (cur.addr + u32 (size cur.bits)) ≡ suc number * size cur.bits =
        next_at number (size cur.bits) cur.addr whole.aligned pos fits in
      rw (IsPool-masked cur whole, some_bits, left, step) refl

  buddy-cut : (buddy_of cur).bits ≡ cur.bits
  buddy-cut = ap (λ (q : Prefix). q.bits) buddy_of-upper

  abbrev Either : Prefix → Type 0
  Either m = (overlaps cur m ≡ true) ⊎ (overlaps (buddy_of cur) m ≡ true)

  -- A prefix as long as `cur`, or longer, lies in one half or in the other.
  in_half :
      (m : Prefix) → m.bits ≤ 32 → cur.bits ≤ m.bits → cut (cur.bits - 1) m.addr ≡ upper → Either m
  in_half m v s e =
      let b-le = whole.bits-le in
      let half : cut cur.bits m.addr / 2 ≡ upper = sym (cut-half cur.bits m.addr longer b-le) ∙ e in
      let ev = even in
      elim (Bool-cases (cut cur.bits m.addr == number)) [
        | inl same ↦ inl ((overlaps_iff cur m).1 (b-le, v, inl (s, ground arith)))
        | inr other ↦
            let next : suc number ≡ cut cur.bits m.addr = ground arith in
            let at : cut cur.bits (suc number * size cur.bits) ≡ suc number =
              mul-div_left (suc number) (size-pos cur.bits) in
            inr (
              rw buddy_of-upper (
                (overlaps_iff (record { addr = suc number * size cur.bits; bits = cur.bits }) m).1
                  (b-le, v, inl (s, at ∙ next))))
      ]

  -- What overlaps the next shorter prefix overlaps one of its halves.
  pub buddy_covers : (m : Prefix) → overlaps (parent cur) m ≡ true → Either m
  buddy_covers m o =
      let b-le = whole.bits-le in
      let (vp, vm, meets) = (overlaps_iff _ m).0 (rw above at o) in
      elim meets [
        | inr (s, e) ↦
            let same : cut m.bits cur.addr ≡ cut m.bits m.addr = rw above-at at e in
            inl ((overlaps_iff cur m).1 (b-le, vm, inr (omega arith, same)))
        | inl (s, e) ↦ elim (Bool-cases (leb cur.bits m.bits)) [
          | inl t ↦ in_half m vm (ground arith) (sym (rw above-at at e))
          | inr t ↦
              let same : cur.bits - 1 ≡ m.bits = ground arith in
              let far : cut (cur.bits - 1) cur.addr ≡ cut (cur.bits - 1) m.addr =
                rw above-at at e in
              let agree : cut m.bits cur.addr ≡ cut m.bits m.addr = rw same at far in
              inl ((overlaps_iff cur m).1 (b-le, vm, inr (ground arith, agree)))
        ]
      ]
