-- ===== src/Netblock/Parsed.antt =====
-- internal/netblock/netblock.go, `snapshot`: the rows that a snapshot keeps, and that lookups in them find
-- what they find in the table.
use nebula_control_plane.Prelude.{
  ◌≡◌, refl, ◌∙◌, sym, ap, String, List, [], ◌∷◌, Option, none, some, if◌then◌else◌, find, keep,
  Bool-cases, Option-cases, inl, inr, str_eq,
}
use nebula_control_plane.Net.Prefix.{Prefix, is_valid}
use nebula_control_plane.Netblock.Types.{
  Result, ok, err, Netblock, prefix, is_default, default_name,
}
use nebula_control_plane.Netblock.Resolve.{
  resolve_full, resolve_cidr, netblock_cidrs, Resolved, listed, carves, or_default,
}

-- The rows of a `resolverCache`.
unfoldable pub parsed : List Netblock → List Netblock
parsed rows = keep (λ n. is_valid (prefix n)) rows

find-parsed :
    (name : String) (rows : List Netblock)
    → find (listed name) (parsed rows) ≡ find (listed name) rows
unfolding parsed keep find
find-parsed name [] = refl
find-parsed name (n ∷ rows) = elim (Bool-cases (is_valid (prefix n))) [
  | inr v ↦ rw v (find-parsed name rows)
  | inl v ↦ elim (Bool-cases (str_eq n.name name)) [
    | inl s ↦ rw (v, v, s) refl
    | inr s ↦ rw (v, v, s) (find-parsed name rows)
  ]
]

pub carves-parsed : (rows : List Netblock) → carves (parsed rows) ≡ carves rows
unfolding carves parsed keep
carves-parsed [] = refl
carves-parsed (n ∷ rows) = elim (Bool-cases (is_valid (prefix n))) [
  | inr v ↦ rw v (carves-parsed rows)
  | inl v ↦ elim (Bool-cases (is_default n.kind)) [
    | inl s ↦ rw (v, v, s) (carves-parsed rows)
    | inr s ↦ rw (v, v, s) (ap (λ ps. prefix n ∷ ps) (carves-parsed rows))
  ]
]

or_default-parsed :
    (rows : List Netblock) (wanted : String) (o : Option Netblock)
    → or_default (parsed rows) wanted o ≡ or_default rows wanted o
or_default-parsed rows wanted (some n) = refl
or_default-parsed rows wanted none = rw (find-parsed default_name rows) refl

pub resolve_full-parsed :
    (rows : List Netblock) (name : String)
    → resolve_full (parsed rows) name ≡ resolve_full rows name
unfolding resolve_full
resolve_full-parsed rows name =
    let wanted = if str_eq name "" then default_name else name in
    or_default-parsed rows wanted (find (listed wanted) (parsed rows))
    ∙ ap (or_default rows wanted) (find-parsed wanted rows)

abbrev cidr_of : Result Resolved → Result Prefix
cidr_of (ok res) = ok res.cidr
cidr_of (err e) = err e

-- The two ways to resolve a name agree.
resolve_cidr-resolve_full :
    (rows : List Netblock) (name : String)
    → resolve_cidr rows name ≡ cidr_of (resolve_full rows name)
unfolding resolve_cidr resolve_full
resolve_cidr-resolve_full rows name =
    let wanted = if str_eq name "" then default_name else name in
    elim (Option-cases (find (listed wanted) rows)) [
      | inr (n, e) ↦ rw e refl
      | inl e ↦ elim (Bool-cases (str_eq wanted default_name)) [
        | inl d ↦ rw (e, d) refl
        | inr d ↦ elim (Option-cases (find (listed default_name) rows)) [
          | inl g ↦ rw (e, d, g) refl
          | inr (n, g) ↦ rw (e, d, g) refl
        ]
      ]
    ]

pub netblock_cidrs-parsed :
    (rows : List Netblock) → netblock_cidrs (parsed rows) ≡ netblock_cidrs rows
unfolding netblock_cidrs parsed keep
netblock_cidrs-parsed [] = refl
netblock_cidrs-parsed (n ∷ rows) = elim (Bool-cases (is_valid (prefix n))) [
  | inr v ↦ rw v (netblock_cidrs-parsed rows)
  | inl v ↦ rw (v, v) (ap (λ ps. (n.name, prefix n) ∷ ps) (netblock_cidrs-parsed rows))
]

pub resolve_cidr-parsed :
    (rows : List Netblock) (name : String)
    → resolve_cidr (parsed rows) name ≡ resolve_cidr rows name
resolve_cidr-parsed rows name =
    resolve_cidr-resolve_full (parsed rows) name
    ∙ (ap cidr_of (resolve_full-parsed rows name) ∙ sym (resolve_cidr-resolve_full rows name))
