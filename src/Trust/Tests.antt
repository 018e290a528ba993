-- ===== src/Trust/Tests.antt =====
-- A directory configuration and a cloud configuration.
use nebula_control_plane.Prelude.{◌≡◌, true, false, [], ◌∷◌, count, refl}
use nebula_control_plane.Policy.Check.{grants_reserved_group, is_reserved_group}
use nebula_control_plane.Trust.Glob.{
  match_glob, split_star, after_prefix, after_first, match_parts, has_suffix,
}
use nebula_control_plane.Trust.Cloud.{
  AwsAccount, CloudConfig, Identity, match_aws, contains_privileged_cloud,
}
use nebula_control_plane.Trust.User.{IdpEntry, UserConfig, validate_user, match_user}
use nebula_control_plane.Trust.Privilege.{Harmless, Plain, match_user-Harmless, match_aws-Plain}

abbrev engineers : IdpEntry
engineers = record {
  realm = "okta";
  directory_group = "eng";
  mesh_groups = "dev" ∷ [];
  auto_issue = true;
  netblock = "";
}

abbrev operators : IdpEntry
operators = record {
  realm = "okta";
  directory_group = "ops";
  mesh_groups = "lighthouse" ∷ [];
  auto_issue = false;
  netblock = "";
}

abbrev directory : UserConfig
directory = record { default_groups = "user" ∷ []; idp_entries = engineers ∷ operators ∷ [] }

abbrev builders : AwsAccount
builders = record {
  account = "123";
  arn_patterns = "arn:aws:*:role/c*" ∷ [];
  groups = "ci" ∷ [];
  auto_issue = false;
  netblock = "builders";
}

abbrev cloud : CloudConfig
cloud = record { default_groups = []; aws = builders ∷ [] }

abbrev builder : Identity
builder = record { account = "123"; arn = "arn:aws:iam::123:role/ci" }

match_user-Harmless_example : Harmless (match_user directory "okta" ("eng" ∷ "ops" ∷ []))
unfolding validate_user count grants_reserved_group is_reserved_group
match_user-Harmless_example = match_user-Harmless directory "okta" ("eng" ∷ "ops" ∷ []) refl

match_aws-Plain_example : Plain (match_aws cloud builder)
unfolding contains_privileged_cloud count grants_reserved_group is_reserved_group
match_aws-Plain_example = match_aws-Plain cloud builder refl

-- The name of the example fits the pattern, and one of another role does not.
role_fits : match_glob "arn:aws:*:role/c*" builder.arn ≡ true
unfolding match_glob split_star after_prefix after_first match_parts has_suffix
role_fits = refl

other_role : match_glob "arn:aws:*:role/c*" "arn:aws:iam::123:user/ci" ≡ false
unfolding match_glob split_star after_prefix after_first match_parts has_suffix
other_role = refl
