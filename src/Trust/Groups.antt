-- ===== src/Trust/Groups.antt =====
-- Sets of groups, sorted and without repetition, as `resolveGroups` of internal/cloudtrust and
-- internal/usertrust builds them, and what they grant.
use Prim.Native.String.{compare}
use Prim.Native.Nat.{Ordering}
use nebula_control_plane.Prelude.{
  String, Bool, true, false, ◌||◌, List, [], ◌∷◌, ◌++◌, ◌≡◌, refl, ◌∙◌, if◌then◌else◌, str_eq,
  eq_iff, arith, Bool-cases, inl, inr,
}
use nebula_control_plane.Policy.Check.{is_reserved_group, grants_reserved_group}

abbrev pub before : String → String → Bool
before s t = elim (compare s t) [ Ordering.lt ↦ true | _ ↦ false ]

-- The set and the sort: an element goes before the first that is greater.
unfoldable pub insert_group : String → List String → List String
insert_group g [] = g ∷ []
insert_group g (h ∷ hs) =
    let rest = insert_group g hs in
    if str_eq g h then h ∷ hs else if before g h then g ∷ (h ∷ hs) else h ∷ rest

unfoldable pub sorted_set : List String → List String
sorted_set [] = []
sorted_set (g ∷ gs) = insert_group g (sorted_set gs)

-- `resolveGroups`.
unfoldable pub resolve_groups : List String → List String → List String
resolve_groups defaults own = sorted_set (defaults ++ own)

grants-head :
    (g h : String) (hs : List String)
    → str_eq g h ≡ true
    → grants_reserved_group (h ∷ hs) ≡ (is_reserved_group g || grants_reserved_group (h ∷ hs))
unfolding grants_reserved_group
grants-head g h hs e =
    let same : g ≡ h = ground (arith, eq_iff g h) in
    rw same (elim (Bool-cases (is_reserved_group h)) [ inl r ↦ rw r refl | inr r ↦ rw r refl ])

grants-insert_group :
    (g : String) (gs : List String)
    → grants_reserved_group (insert_group g gs) ≡ (is_reserved_group g || grants_reserved_group gs)
unfolding grants_reserved_group insert_group
grants-insert_group g [] = ground arith
grants-insert_group g (h ∷ hs) = elim (Bool-cases (str_eq g h)) [
  | inl e ↦ rw e (grants-head g h hs e)
  | inr e ↦ elim (Bool-cases (before g h)) [
    | inl l ↦ rw (e, l) (ground arith)
    | inr l ↦ rw (e, l) (ground (arith, grants-insert_group g hs))
  ]
]

grants-append :
    (gs hs : List String)
    → grants_reserved_group (gs ++ hs) ≡ (grants_reserved_group gs || grants_reserved_group hs)
unfolding grants_reserved_group
grants-append [] hs = refl
grants-append (g ∷ gs) hs = ground (arith, grants-append gs hs)

grants-sorted_set :
    (gs : List String) → grants_reserved_group (sorted_set gs) ≡ grants_reserved_group gs
unfolding grants_reserved_group sorted_set
grants-sorted_set [] = refl
grants-sorted_set (g ∷ gs) =
    grants-insert_group g (sorted_set gs) ∙ ground (arith, grants-sorted_set gs)

-- A merged set grants a reserved group exactly when one of its parts does.
pub grants-resolve_groups :
    (defaults own : List String)
    → grants_reserved_group (resolve_groups defaults own)
      ≡ (grants_reserved_group defaults || grants_reserved_group own)
unfolding resolve_groups
grants-resolve_groups defaults own =
    grants-sorted_set (defaults ++ own) ∙ grants-append defaults own
