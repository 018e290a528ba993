-- ===== src/Trust/Cloud.antt =====
-- internal/cloudtrust/cloudtrust.go: `Validate`, `ContainsPrivileged` and `MatchAWS`, with `Check` of
-- internal/awsattest/awsattest.go.
use nebula_control_plane.Prelude.{
  String, Bool, true, ◌||◌, ◌&&◌, not, List, [], ◌∷◌, Option, none, some, if◌then◌else◌, str_eq,
  count, ◌==◌,
}
use nebula_control_plane.Policy.Check.{grants_reserved_group}
use nebula_control_plane.Trust.Glob.{match_glob}
use nebula_control_plane.Trust.Groups.{resolve_groups}

pub record AwsAccount : Type 0 where
  pub account : String
  pub arn_patterns : List String
  pub groups : List String
  pub auto_issue : Bool
  pub netblock : String

pub record CloudConfig : Type 0 where
  pub default_groups : List String
  pub aws : List AwsAccount

pub data CloudFault : Type 0 where
  no_principal no_account duplicate_account : CloudFault

-- `awsattest.Identity`.
pub record Identity : Type 0 where
  pub account : String
  pub arn : String

-- What an identity is admitted to.
pub record Grant : Type 0 where
  pub groups : List String
  pub netblock : String
  pub auto_issue : Bool

abbrev pub is_account : String → AwsAccount → Bool
is_account account a = str_eq a.account account

abbrev pub validate_accounts : List AwsAccount → List AwsAccount → Option CloudFault
validate_accounts seen [] = none
validate_accounts seen (a ∷ rest) =
    let later = validate_accounts (a ∷ seen) rest in
    if str_eq a.account ""
    then some no_account
    else if not (count (is_account a.account) seen == 0)
    then some duplicate_account
    else later

-- `Validate`.
unfoldable pub validate_cloud : CloudConfig → Option CloudFault
validate_cloud c = elim c.aws [
  | [] ↦ some no_principal
  | a ∷ rest ↦ validate_accounts [] (a ∷ rest)
]

-- `ContainsPrivileged`.
abbrev pub privileged_account : AwsAccount → Bool
privileged_account a = if a.auto_issue then true else grants_reserved_group a.groups

unfoldable pub contains_privileged_cloud : CloudConfig → Bool
contains_privileged_cloud c =
    grants_reserved_group c.default_groups || not (count privileged_account c.aws == 0)

-- `awsattest.Policy.Check`, for one account.
abbrev pub admits : Identity → AwsAccount → Bool
admits id a = str_eq id.account a.account && (elim a.arn_patterns [
  | [] ↦ true
  | p ∷ ps ↦ not (count (λ q. match_glob q id.arn) (p ∷ ps) == 0)
])

-- `MatchAWS`.
abbrev pub match_accounts : List String → Identity → List AwsAccount → Option Grant
match_accounts defaults id [] = none
match_accounts defaults id (a ∷ rest) =
    let later = match_accounts defaults id rest in
    let grant : Grant = record {
      groups = resolve_groups defaults a.groups;
      netblock = a.netblock;
      auto_issue = a.auto_issue;
    } in
    if admits id a then some grant else later

unfoldable pub match_aws : CloudConfig → Identity → Option Grant
match_aws c id = match_accounts c.default_groups id c.aws
