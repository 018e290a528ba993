-- ===== src/Trust/Privilege.antt =====
-- internal/usertrust/usertrust.go and internal/cloudtrust/cloudtrust.go: what a valid configuration
-- admits an identity to.
use nebula_control_plane.Prelude.{
  String, Bool, true, false, ◌||◌, ◌&&◌, List, [], ◌∷◌, Option, none, some, if◌then◌else◌, ◌≡◌,
  refl, ◌∙◌, arith, Bool-cases, inl, inr, count, count_zero-All, All, str_eq, ◌==◌, not,
}
use nebula_control_plane.Policy.Check.{grants_reserved_group}
use nebula_control_plane.Trust.Groups.{grants-resolve_groups}
use nebula_control_plane.Trust.Cloud.{
  Grant, CloudConfig, AwsAccount, Identity, admits, match_accounts, match_aws, privileged_account,
  contains_privileged_cloud,
}
use nebula_control_plane.Trust.User.{
  IdpEntry, UserConfig, UserFault, no_entry, no_realm, no_group, duplicate_group, grants_nothing,
  auto_issue_privileged, is_entry, is_empty, validate_entries, validate_user, match_entries,
  match_user,
}

-- A grant that is issued without approval has no reserved group.
abbrev pub Harmless : Option Grant → Type 0
Harmless none = Unit
Harmless (some g) = g.auto_issue ≡ true → grants_reserved_group g.groups ≡ false

-- Neither issued without approval nor with a reserved group.
abbrev pub Plain : Option Grant → Type 0
Plain none = Unit
Plain (some g) = (g.auto_issue ≡ false) × (grants_reserved_group g.groups ≡ false)

-- An entry that passes the checks passes each, and so do those after it.
checks_passed :
    (a b c d e : Bool) (later : Option UserFault)
    → (if a
        then some no_realm
        else if b
        then some no_group
        else if c
        then some duplicate_group
        else if d
        then some grants_nothing
        else if e
        then some auto_issue_privileged
        else later)
      ≡ none
    → (e ≡ false) × (later ≡ none)
checks_passed true b c d e later h = cc
checks_passed false true c d e later h = cc
checks_passed false false true d e later h = cc
checks_passed false false false true e later h = cc
checks_passed false false false false true later h = cc
checks_passed false false false false false later h = (refl, h)

not_both :
    (auto own default : Bool)
    → (auto && (own || default)) ≡ false
    → auto ≡ true
    → (default || own) ≡ false
not_both auto own default = ground arith

match_entries-Harmless :
    (defaults : List String) (realm : String) (groups : List String) (seen : List IdpEntry)
    (es : List IdpEntry)
    → validate_entries defaults seen es ≡ none
    → Harmless (match_entries defaults realm groups es)
match_entries-Harmless defaults realm groups seen [] v = tt
match_entries-Harmless defaults realm groups seen (e ∷ rest) v =
    let (here, later) =
      checks_passed (str_eq e.realm "") (str_eq e.directory_group "")
        (not (count (is_entry e.realm e.directory_group) seen == 0))
        (is_empty e.mesh_groups && is_empty defaults)
        (e.auto_issue && (grants_reserved_group e.mesh_groups || grants_reserved_group defaults))
        (validate_entries defaults (e ∷ seen) rest) v in
    let after = match_entries-Harmless defaults realm groups (e ∷ seen) rest later in
    elim (Bool-cases (str_eq e.realm realm)) [
      | inr r ↦ rw r after
      | inl r ↦ elim (Bool-cases (count (λ g. str_eq g e.directory_group) groups == 0)) [
        | inl n ↦ rw (r, n) after
        | inr n ↦
            rw (r, n)
              (λ auto.
                grants-resolve_groups defaults e.mesh_groups
                ∙ not_both e.auto_issue (grants_reserved_group e.mesh_groups)
                    (grants_reserved_group defaults) here auto)
      ]
    ]

valid-Harmless :
    (defaults : List String) (realm : String) (groups : List String) (es : List IdpEntry)
    → elim es [ [] ↦ some no_entry | e ∷ rest ↦ validate_entries defaults [] (e ∷ rest) ] ≡ none
    → Harmless (match_entries defaults realm groups es)
valid-Harmless defaults realm groups [] v = cc
valid-Harmless defaults realm groups (e ∷ rest) v =
    match_entries-Harmless defaults realm groups [] (e ∷ rest) v

-- What a directory configuration that passes `Validate` admits a user to without approval has no
-- reserved group, for any realm and any directory groups of the user.
pub match_user-Harmless :
    (c : UserConfig) (realm : String) (groups : List String)
    → validate_user c ≡ none
    → Harmless (match_user c realm groups)
unfolding validate_user match_user
match_user-Harmless c realm groups v = valid-Harmless c.default_groups realm groups c.idp_entries v

plain_account :
    (auto own default : Bool)
    → default ≡ false
    → (if auto then true else own) ≡ false
    → (auto ≡ false) × ((default || own) ≡ false)
plain_account auto own default = ground arith

match_accounts-Plain :
    (defaults : List String) (id : Identity) (accounts : List AwsAccount)
    → grants_reserved_group defaults ≡ false
    → All (λ a. privileged_account a ≡ false) accounts
    → Plain (match_accounts defaults id accounts)
match_accounts-Plain defaults id [] d h = tt
match_accounts-Plain defaults id (a ∷ rest) d h =
    let (manual, free) =
      plain_account a.auto_issue (grants_reserved_group a.groups) (grants_reserved_group defaults) d
        h.0 in
    elim (Bool-cases (admits id a)) [
      | inl t ↦ rw t (manual, grants-resolve_groups defaults a.groups ∙ free)
      | inr t ↦ rw t (match_accounts-Plain defaults id rest d h.1)
    ]

-- A cloud configuration without privileged content (`ContainsPrivileged`) admits an identity
-- only to groups that are not reserved, and only with approval.
pub match_aws-Plain :
    (c : CloudConfig) (id : Identity) → contains_privileged_cloud c ≡ false → Plain (match_aws c id)
unfolding contains_privileged_cloud match_aws
match_aws-Plain c id h =
    let none_privileged : (count privileged_account c.aws == 0) ≡ true = ground arith in
    match_accounts-Plain c.default_groups id c.aws (ground arith)
      (count_zero-All privileged_account c.aws (ground arith))
