-- ===== src/Prelude/Counts.antt =====
-- How queries, counts and rewrites act on one another, and on what holds of all rows.
use Prim.Native.Nat.{◌≤◌}
use mathlib.Core.Path.{◌≡◌, refl}
use mathlib.Core.Logic.{inl, inr}
use mathlib.Core.Bool.{Bool, true, false}
use mathlib.Core.Option.{none, some}
use mathlib.Core.List.{List, [], ◌∷◌}
use native.Mathlib.Omega.{arith}
use nebula_control_plane.Prelude.Tests.{◌==◌, Bool-cases}
use nebula_control_plane.Prelude.Lists.{length, keep, count, find, update, All}

module _ {ℓ} {A : Type ℓ} (q : A → Bool) where
  pub length-keep : (xs : List A) → length (keep q xs) ≡ count q xs
  unfolding keep count
  length-keep [] = refl
  length-keep (x ∷ xs) = ground (arith, length-keep xs)

  -- Dropping what is not counted changes no count.
  pub count-keep :
      (p : A → Bool)
      → ((x : A) → p x ≡ true → q x ≡ true)
      → (xs : List A) → count p (keep q xs) ≡ count p xs
  unfolding keep count
  count-keep p h [] = refl
  count-keep p h (x ∷ xs) = ground (arith, h x, count-keep p h xs)

  pub count-keep_none :
      (p : A → Bool)
      → ((x : A) → p x ≡ true → q x ≡ false)
      → (xs : List A) → count p (keep q xs) ≡ 0
  unfolding keep count
  count-keep_none p h [] = refl
  count-keep_none p h (x ∷ xs) = ground (arith, h x, count-keep_none p h xs)

module _ {ℓ} {A : Type ℓ} (p : A → Bool) where
  pub count-find : (xs : List A) → find p xs ≡ none → (count p xs == 0) ≡ true
  unfolding find count
  count-find [] e = refl
  count-find (x ∷ xs) e = ground (arith, count-find xs)

module _ {ℓ} {A : Type ℓ} (p q : A → Bool) (h : (x : A) → p x ≡ true → q x ≡ true) where
  pub count_mono : (xs : List A) → count p xs ≤ count q xs
  unfolding count
  count_mono [] = omega arith
  count_mono (x ∷ xs) = ground (arith, h x, count_mono xs)

  pub count_none : (xs : List A) → count q xs ≡ 0 → count p xs ≡ 0
  count_none xs e = omega (arith, count_mono xs)

module _ {ℓ} {A : Type ℓ} (p q : A → Bool) where
  pub find-keep :
      (xs : List A) (x : A) → find p xs ≡ some x → q x ≡ true → find p (keep q xs) ≡ some x
  unfolding find keep
  find-keep [] x e h = cc
  find-keep (y ∷ ys) x e h = elim (Bool-cases (p y)) [
    | inl t ↦ let same : some y ≡ some x = rw t at e in ground arith
    | inr t ↦
        let rest = find-keep ys x (rw t at e) h in
        elim (Bool-cases (q y)) [ inl u ↦ rw (u, t) rest | inr u ↦ rw u rest ]
  ]

module _ {ℓ} {A : Type ℓ} (p : A → Bool) where
  pub All-none : (xs : List A) → find p xs ≡ none → All (λ x. p x ≡ false) xs
  unfolding find
  All-none [] e = tt
  All-none (x ∷ xs) e = elim (Bool-cases (p x)) [
    | inl t ↦ absurd (cc (rw t at e))
    | inr t ↦ (t, All-none xs (rw t at e))
  ]

module _ {ℓ} {A : Type ℓ} (p : A → Bool) where
  pub count_zero-All : (xs : List A) → count p xs ≡ 0 → All (λ x. p x ≡ false) xs
  unfolding count
  count_zero-All [] e = tt
  count_zero-All (x ∷ xs) e = elim (Bool-cases (p x)) [
    | inl t ↦ absurd (ground arith)
    | inr t ↦ (t, count_zero-All xs (ground arith))
  ]

  pub All-count_zero : (xs : List A) → All (λ x. p x ≡ false) xs → count p xs ≡ 0
  unfolding count
  All-count_zero [] h = refl
  All-count_zero (x ∷ xs) h = rw (h.0, All-count_zero xs h.1) refl

module _ {ℓ κ μ ν} {A : Type ℓ} {P : A → Type κ} {Q : A → Type μ} {R : A → Type ν} where
  pub All-both : ((x : A) → P x → Q x → R x) → (xs : List A) → All P xs → All Q xs → All R xs
  All-both f [] h k = tt
  All-both f (x ∷ xs) h k = (f x h.0 k.0, All-both f xs h.1 k.1)

module _ {ℓ κ} {A : Type ℓ} (P : A → Type κ) where
  pub All-keep : (q : A → Bool) (xs : List A) → All P xs → All P (keep q xs)
  unfolding keep
  All-keep q [] h = tt
  All-keep q (x ∷ xs) h = elim (Bool-cases (q x)) [
    | inl t ↦ rw t (h.0, All-keep q xs h.1)
    | inr t ↦ rw t (All-keep q xs h.1)
  ]

module _ {ℓ} {A : Type ℓ} (p q : A → Bool) (f : A → A) where
  -- An `UPDATE` of some row leaves a row as it writes them.
  pub count-update_some :
      ((x : A) → p x ≡ true → q (f x) ≡ true) → (xs : List A) → count p xs ≤ count q (update p f xs)
  unfolding count update
  count-update_some moves [] = omega arith
  count-update_some moves (x ∷ xs) = ground (arith, moves x, count-update_some moves xs)

  -- An `UPDATE` that leaves some rows alone leaves as many of them.
  pub count-update_others :
      ((x : A) → q x ≡ true → p x ≡ false) → (xs : List A) → count q xs ≤ count q (update p f xs)
  unfolding count update
  count-update_others apart [] = omega arith
  count-update_others apart (x ∷ xs) = ground (arith, apart x, count-update_others apart xs)

module _ {ℓ} {A : Type ℓ} (p q : A → Bool) where
  pub count-keep-le : (xs : List A) → count p (keep q xs) ≤ count p xs
  unfolding keep count
  count-keep-le [] = omega arith
  count-keep-le (x ∷ xs) = ground (arith, count-keep-le xs)

module _ {ℓ} {A : Type ℓ} (p q : A → Bool) (f : A → A) where
  -- An `UPDATE` that a count does not see leaves it.
  pub count-update_same :
      ((x : A) → p (f x) ≡ p x) → (xs : List A) → count p (update q f xs) ≡ count p xs
  unfolding count update
  count-update_same blind [] = refl
  count-update_same blind (x ∷ xs) = ground (arith, blind x, count-update_same blind xs)
