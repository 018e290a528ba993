-- ===== src/Policy/Compile.antt =====
-- internal/policy/policy.go: `CompileHost`.
use nebula_control_plane.Prelude.{
  String, Bool, ◌||◌, List, [], ◌∷◌, ◌++◌, map, if◌then◌else◌, ◌==◌, str_eq, count, keep, not,
}
use nebula_control_plane.Policy.Types.{
  Rule, FirewallRule, Compiled, control_plane, rule_key, unseen,
}

-- `selector`.
abbrev pub selector : String → String → String → FirewallRule
selector proto port group =
    if str_eq group "any"
    then record { proto = proto; port = port; host = "any"; group = "" }
    else record { proto = proto; port = port; host = ""; group = group }

-- `dedup`.
unfoldable pub dedup : List FirewallRule → List FirewallRule
dedup rules = unseen rule_key [] rules

abbrev pub in_groups : List String → String → Bool
in_groups gs g = not (count (λ k. str_eq k g) gs == 0)

abbrev pub any_host : String → FirewallRule
any_host proto = record { proto = proto; port = "any"; host = "any"; group = "" }

abbrev pub reach_control_plane : FirewallRule
reach_control_plane = record { proto = "any"; port = "any"; host = ""; group = control_plane }

abbrev pub inbound_rules : List Rule → List String → List FirewallRule
inbound_rules rules gs =
    map (λ r. selector r.proto r.port r.from_group)
      (keep (λ r. str_eq r.to_group "any" || in_groups gs r.to_group) rules)

abbrev pub outbound_rules : List Rule → List String → List FirewallRule
outbound_rules rules gs =
    map (λ r. selector r.proto r.port r.to_group)
      (keep (λ r. str_eq r.from_group "any" || in_groups gs r.from_group) rules)

-- `CompileHost`.
unfoldable pub compile_host : List Rule → List String → Compiled
compile_host rules gs =
    let core = in_groups gs control_plane in
    let baseline_in = if core then any_host "any" ∷ [] else [] in
    let baseline_out = if core then any_host "any" else reach_control_plane in
    record {
      inbound = dedup (inbound_rules rules gs ++ (baseline_in ++ (any_host "icmp" ∷ [])));
      outbound = dedup (outbound_rules rules gs ++ (baseline_out ∷ any_host "icmp" ∷ []));
    }
