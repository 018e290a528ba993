-- ===== src/DualControl/Approvers.antt =====
-- internal/dualcontrol/dualcontrol.go, the table approval_signoffs: who has approved a change.
use nebula_control_plane.Prelude.{
  ℕ, ◌≡◌, refl, String, true, List, [], ◌∷◌, arith, count, keep, length, map, Bool-cases, inl, inr,
  ◌≢◌, All, eq_iff,
}
use nebula_control_plane.DualControl.Types.{Change, Signoff, has_id, voted, approval_of}

-- No actor has signed off twice on one change.
abbrev pub NoRepeat : List Signoff → Type 0
NoRepeat [] = Unit {0}
NoRepeat (s ∷ ss) = (count (voted s.change_id s.actor) ss ≡ 0) × NoRepeat ss

-- The actors who approved a change.
abbrev pub approvers : ℕ → List Signoff → List String
approvers i ss = map (λ s. s.actor) (keep (approval_of i) ss)

abbrev pub IsDistinct : List String → Type 0
IsDistinct [] = Unit {0}
IsDistinct (a ∷ bs) = All (λ b. b ≢ a) bs × IsDistinct bs

other_voters :
    (i : ℕ) (a : String) (ss : List Signoff)
    → count (voted i a) ss ≡ 0
    → All (λ b. b ≢ a) (approvers i ss)
unfolding count keep
other_voters i a [] h = tt
other_voters i a (s ∷ ss) h =
    let rest = other_voters i a ss (ground arith) in
    elim (Bool-cases (approval_of i s)) [
      | inl t ↦ rw t ((λ e. ground (arith, eq_iff s.actor a)), rest)
      | inr f ↦ rw f rest
    ]

pub approvers-IsDistinct : (i : ℕ) (ss : List Signoff) → NoRepeat ss → IsDistinct (approvers i ss)
unfolding keep
approvers-IsDistinct i [] n = tt
approvers-IsDistinct i (s ∷ ss) n = elim (Bool-cases (approval_of i s)) [
  | inl t ↦
      let same : s.change_id ≡ i = ground arith in
      rw t (other_voters i s.actor ss (rw same at n.0), approvers-IsDistinct i ss n.1)
  | inr f ↦ rw f (approvers-IsDistinct i ss n.1)
]

pub length-approvers :
    (i : ℕ) (ss : List Signoff) → length (approvers i ss) ≡ count (approval_of i) ss
unfolding count keep
length-approvers i [] = refl
length-approvers i (s ∷ ss) = ground (arith, length-approvers i ss)

pub has_id-eq : (i : ℕ) (c : Change) → has_id i c ≡ true → c.id ≡ i
has_id-eq i c e = ground arith
