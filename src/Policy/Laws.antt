-- ===== src/Policy/Laws.antt =====
-- internal/policy: what the checks, the compiler and the analysis do.
use nebula_control_plane.Prelude.{
  ℕ, suc, ◌≡◌, refl, String, Bool, true, false, not, List, [], ◌∷◌, Option, none, some, arith,
  if◌then◌else◌, ◌==◌, str_eq, eq_iff, count, Bool-cases, inl, inr,
}
use nebula_control_plane.Policy.Types.{Rule, FirewallRule, rule_key, keyed, unseen}
use nebula_control_plane.Policy.Check.{is_reserved_group, contains_reserved_ref, check_invariants}
use nebula_control_plane.Policy.Compile.{dedup}

abbrev pub is_some {ℓ} : {A : Type ℓ} → Option A → Bool
is_some none = false
is_some (some x) = true

-- The predicate that asks for two approvers and the check that rejects agree on every policy: rules
-- that name a reserved group are exactly those that `CheckInvariants` refuses.
pub reserved_agree :
    (i : ℕ) (rules : List Rule) → contains_reserved_ref rules ≡ is_some (check_invariants i rules)
unfolding contains_reserved_ref check_invariants
reserved_agree i [] = refl
reserved_agree i (r ∷ rs) = elim (Bool-cases (is_reserved_group r.from_group)) [
  | inl a ↦ rw a refl
  | inr a ↦ elim (Bool-cases (is_reserved_group r.to_group)) [
    | inl b ↦ rw (a, b) refl
    | inr b ↦ rw (a, b) (reserved_agree (suc i) rs)
  ]
]

module _ {ℓ} {A : Type ℓ} (key : A → String) where
  abbrev first_only : Bool → ℕ → ℕ
  first_only true n = 0
  first_only false n = if n == 0 then 0 else 1

  first_only_zero : (b : Bool) → 0 ≡ first_only b 0
  first_only_zero true = refl
  first_only_zero false = refl

  unseen_once :
      (k : String) (seen : List String) (xs : List A)
      → count (keyed key k) (unseen key seen xs)
        ≡ first_only (not (count (λ s. str_eq s k) seen == 0)) (count (keyed key k) xs)
  unfolding unseen count
  unseen_once k seen [] = first_only_zero (not (count (λ s. str_eq s k) seen == 0))
  unseen_once k seen (x ∷ xs) =
      let later = unseen_once k (key x ∷ seen) xs in
      let now = unseen_once k seen xs in
      elim (Bool-cases (str_eq (key x) k)) [
        | inl e ↦
            let same : key x ≡ k = ground (arith, eq_iff (key x) k) in
            let self : str_eq k k ≡ true = ground (arith, eq_iff k k) in
            elim (Bool-cases (count (λ s. str_eq s k) seen == 0)) [
              | inl fresh ↦ rw (same, fresh, e) (rw self (ground (arith, rw (same, self) at later)))
              | inr old ↦ rw (same, old) (rw old at now)
            ]
        | inr e ↦ elim (Bool-cases (count (λ s. str_eq s (key x)) seen == 0)) [
          | inl fresh ↦ rw (fresh, e) (rw e at later)
          | inr old ↦ rw (old, e) now
        ]
      ]

-- Compiled rules: one rule of each key that occurs, and no other.
pub dedup_once :
    (k : String) (rules : List FirewallRule)
    → count (keyed rule_key k) (dedup rules)
      ≡ (if count (keyed rule_key k) rules == 0 then 0 else 1)
unfolding dedup count
dedup_once k rules = unseen_once rule_key k [] rules
