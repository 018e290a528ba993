-- ===== src/Trust/User.antt =====
-- internal/usertrust/usertrust.go: `Validate`, `ContainsPrivileged` and `Match`.
use nebula_control_plane.Prelude.{
  String, Bool, true, false, ◌||◌, ◌&&◌, not, List, [], ◌∷◌, Option, none, some, if◌then◌else◌,
  str_eq, count, ◌==◌,
}
use nebula_control_plane.Policy.Check.{grants_reserved_group}
use nebula_control_plane.Trust.Groups.{resolve_groups}
use nebula_control_plane.Trust.Cloud.{Grant}

pub record IdpEntry : Type 0 where
  pub realm : String
  pub directory_group : String
  pub mesh_groups : List String
  pub auto_issue : Bool
  pub netblock : String

pub record UserConfig : Type 0 where
  pub default_groups : List String
  pub idp_entries : List IdpEntry

pub data UserFault : Type 0 where
  no_entry no_realm no_group duplicate_group grants_nothing auto_issue_privileged : UserFault

abbrev pub is_entry : String → String → IdpEntry → Bool
is_entry realm group e = str_eq e.realm realm && str_eq e.directory_group group

abbrev pub is_empty : List String → Bool
is_empty [] = true
is_empty (g ∷ gs) = false

abbrev pub validate_entries : List String → List IdpEntry → List IdpEntry → Option UserFault
validate_entries defaults seen [] = none
validate_entries defaults seen (e ∷ rest) =
    let later = validate_entries defaults (e ∷ seen) rest in
    if str_eq e.realm ""
    then some no_realm
    else if str_eq e.directory_group ""
    then some no_group
    else if not (count (is_entry e.realm e.directory_group) seen == 0)
    then some duplicate_group
    else if is_empty e.mesh_groups && is_empty defaults
    then some grants_nothing
    else if e.auto_issue && (grants_reserved_group e.mesh_groups || grants_reserved_group defaults)
    then some auto_issue_privileged
    else later

-- `Validate`.
unfoldable pub validate_user : UserConfig → Option UserFault
validate_user c = elim c.idp_entries [
  | [] ↦ some no_entry
  | e ∷ rest ↦ validate_entries c.default_groups [] (e ∷ rest)
]

abbrev pub privileged_entry : IdpEntry → Bool
privileged_entry e = if e.auto_issue then true else grants_reserved_group e.mesh_groups

-- `ContainsPrivileged`.
unfoldable pub contains_privileged_user : UserConfig → Bool
contains_privileged_user c =
    grants_reserved_group c.default_groups || not (count privileged_entry c.idp_entries == 0)

abbrev pub match_entries : List String → String → List String → List IdpEntry → Option Grant
match_entries defaults realm groups [] = none
match_entries defaults realm groups (e ∷ rest) =
    let later = match_entries defaults realm groups rest in
    let grant : Grant = record {
      groups = resolve_groups defaults e.mesh_groups;
      netblock = e.netblock;
      auto_issue = e.auto_issue;
    } in
    if not (str_eq e.realm realm)
    then later
    else if count (λ g. str_eq g e.directory_group) groups == 0
    then later
    else some grant

-- `Match`.
unfoldable pub match_user : UserConfig → String → List String → Option Grant
match_user c realm groups = match_entries c.default_groups realm groups c.idp_entries
