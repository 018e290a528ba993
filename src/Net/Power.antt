-- ===== src/Net/Power.antt =====
-- Sizes of prefixes: powers of two that divide one another.
use native.Mathlib.Nat.{pow-suc, one-le-pow, div-div-eq-div-mul}
use nebula_control_plane.Prelude.{
  ℕ, zero, suc, ◌+◌, ◌-◌, ◌*◌, ◌/◌, ◌^◌, ◌≤◌, ◌<◌, ◌≡◌, ◌∙◌, sym, ap, arith,
}
use nebula_control_plane.Net.Prefix.{size}

pub pow-add : (a b : ℕ) → 2 ^ (a + b) ≡ 2 ^ a * 2 ^ b
pow-add zero b = let e : 0 + b ≡ b = omega arith in rw e (omega arith)
pow-add (suc a) b =
    let e : suc a + b ≡ suc (a + b) = omega arith in
    rw e (grind (arith, pow-suc 2 (a + b), pow-suc 2 a, pow-add a b))

pub size-pos : (b : ℕ) → 0 < size b
size-pos b = omega (arith, one-le-pow (32 - b) 2 (omega arith))

-- A shorter prefix is so many longer ones.
pub size_split : (m b : ℕ) → m ≤ b → b ≤ 32 → size m ≡ size b * 2 ^ (b - m)
size_split m b h k =
    let e : 32 - m ≡ (32 - b) + (b - m) = omega arith in rw e (pow-add (32 - b) (b - m))

-- Numbers that agree at a fine scale agree at a coarse one.
pub coarser : (m b x y : ℕ) → m ≤ b → b ≤ 32 → x / size b ≡ y / size b → x / size m ≡ y / size m
coarser m b x y h k e =
    let wide = size_split m b h k in
    rw wide (
      sym (div-div-eq-div-mul x (size b) (2 ^ (b - m)))
      ∙ (ap (λ (t : ℕ). t / 2 ^ (b - m)) e ∙ div-div-eq-div-mul y (size b) (2 ^ (b - m))))
