-- ===== src/Policy/Tests.antt =====
-- A policy of two rules.
use nebula_control_plane.Prelude.{
  ◌≡◌, refl, ◌⊎◌, ◌↔◌, String, true, false, List, [], ◌∷◌, none, if◌then◌else◌, str_eq,
}
use nebula_control_plane.Policy.Types.{Rule, FirewallRule, control_plane, default_deny}
use nebula_control_plane.Policy.Check.{validate, validate_port}
use nebula_control_plane.Policy.Text.{cut, atoi, digits}
use nebula_control_plane.Policy.Compile.{selector}
use nebula_control_plane.Policy.Analysis.{reachable, scan, match_port}
use nebula_control_plane.Policy.Reach.{Allowed, reachable_iff}
use nebula_control_plane.Policy.Baseline.{copies, baseline_kept}
use nebula_control_plane.Policy.Compile.{any_host, reach_control_plane, in_groups, compile_host}

abbrev rule : String → String → String → String → Rule
rule src dst proto port = record { from_group = src; to_group = dst; proto = proto; port = port }

abbrev rules : List Rule
rules = rule "web" "db" "tcp" "5432" ∷ rule "any" "web" "tcp" "80-443" ∷ []

-- A well-formed policy; the range covers 443, and no rule lets the database out.
is_valid : validate 0 rules ≡ none
unfolding validate validate_port cut atoi digits
is_valid = refl

-- The two protocols of the queries, in lower case.
abbrev lower : String → String
lower s = if str_eq s "TCP" then "tcp" else s

covered : (reachable lower rules "db" "web" "TCP" "443").allowed ≡ true
unfolding reachable scan match_port cut atoi digits
covered = refl

denied : (reachable lower rules "db" "app" "udp" "53").reason ≡ default_deny
unfolding reachable scan match_port cut atoi digits
denied = refl

abbrev compiled : List FirewallRule
compiled = selector "tcp" "443" "web" ∷ selector "tcp" "443" "web" ∷ []

reachable_iff_example :
    ((reachable lower rules "web" "db" "TCP" "5432").allowed ≡ true)
    ↔ Allowed rules "web" "db" (lower "TCP") "5432"
reachable_iff_example = reachable_iff lower rules "web" "db" "TCP" "5432"

-- A policy that names the reserved group does not take the baseline away.
baseline_kept_example :
    let c = compile_host (rule "web" "control-plane" "any" "any" ∷ rules) ("web" ∷ []) in
    (copies (any_host "icmp") c.inbound ≡ 1)
    × (copies (any_host "icmp") c.outbound ≡ 1)
    × (copies
          (if in_groups ("web" ∷ []) control_plane then any_host "any" else reach_control_plane)
          c.outbound
        ≡ 1)
    × ((in_groups ("web" ∷ []) control_plane ≡ false) ⊎ (copies (any_host "any") c.inbound ≡ 1))
baseline_kept_example = baseline_kept (rule "web" "control-plane" "any" "any" ∷ rules) ("web" ∷ [])
