-- ===== src/Policy/Analysis.antt =====
-- internal/policy/analysis.go: `Reachable`, the flows of a pair of groups, and the tests of a policy.
-- `to_lower` is strings.ToLower.
use nebula_control_plane.Prelude.{
  ℕ, String, Bool, true, false, ◌||◌, ◌&&◌, not, List, [], ◌∷◌, Option, none, some, map,
  if◌then◌else◌, leb, ◌==◌, str_eq, count, keep,
}
use nebula_control_plane.Policy.Text.{cut, atoi}
use nebula_control_plane.Policy.Types.{
  Rule, Decision, by_rule, baseline_control_plane, baseline_icmp, default_deny, Reason, Flow,
  control_plane, flow_key, unseen,
}

-- `matchGroup`.
abbrev pub match_group : String → String → Bool
match_group rule_group q = str_eq rule_group "any" || str_eq rule_group q

-- `matchProto`.
abbrev pub match_proto : String → String → Bool
match_proto rule_proto q =
    if str_eq q "any" then true else str_eq rule_proto "any" || str_eq rule_proto q

abbrev pub equal_port : Option ℕ → ℕ → Bool
equal_port none q = false
equal_port (some n) q = n == q

abbrev pub within : Option ℕ → Option ℕ → ℕ → Bool
within (some lo) (some hi) q = leb lo q && leb q hi
within (some lo) none q = false
within none hi q = false

abbrev pub covers : Option (String × String) → String → ℕ → Bool
covers none rule_port q = equal_port (atoi rule_port) q
covers (some (lo, hi)) rule_port q = within (atoi lo) (atoi hi) q

abbrev pub covers_query : Option ℕ → String → Bool
covers_query none rule_port = false
covers_query (some q) rule_port = covers (cut rule_port) rule_port q

-- `matchPort`.
unfoldable pub match_port : String → String → Bool
match_port rule_port q =
    if str_eq q "any" || str_eq rule_port "any" then true else covers_query (atoi q) rule_port

abbrev pub matches_pair : String → String → Rule → Bool
matches_pair src dst r = match_group r.from_group src && match_group r.to_group dst

abbrev pub matches_flow : String → String → Rule → Bool
matches_flow proto port r = match_proto r.proto proto && match_port r.port port

abbrev pub or_first : Option Rule → Rule → Option Rule
or_first none r = some r
or_first (some n) r = some n

-- The loop of `Reachable` over the rules: the rule that grants, or the nearest miss.
unfoldable pub scan :
    String → String → String → String → Option Rule → List Rule → Option Rule × Option Rule
scan src dst proto port nearest [] = (none, nearest)
scan src dst proto port nearest (r ∷ rs) =
    let unmatched = scan src dst proto port nearest rs in
    let missed = scan src dst proto port (or_first nearest r) rs in
    if not (matches_pair src dst r)
    then unmatched
    else if matches_flow proto port r
    then (some r, none)
    else missed

abbrev pub decided : Bool → Option Rule × Option Rule → Decision
decided wildcard (some r, n) = record {
  allowed = true;
  reason = by_rule;
  rule = some r;
  nearest = none;
}
decided true (none, n) = record {
  allowed = true;
  reason = baseline_icmp;
  rule = none;
  nearest = none;
}
decided false (none, n) = record {
  allowed = false;
  reason = default_deny;
  rule = none;
  nearest = n;
}

abbrev pub reachable_lower : List Rule → String → String → String → String → Decision
reachable_lower rules src dst proto port =
    if str_eq proto "icmp"
    then record { allowed = true; reason = baseline_icmp; rule = none; nearest = none }
    else if str_eq dst control_plane && not (str_eq src control_plane)
    then record { allowed = true; reason = baseline_control_plane; rule = none; nearest = none }
    else decided (str_eq proto "any" && str_eq port "any") (scan src dst proto port none rules)

-- `Reachable`.
unfoldable pub reachable :
    (String → String) → List Rule → String → String → String → String → Decision
reachable to_lower rules src dst proto port = reachable_lower rules src dst (to_lower proto) port

-- `ruleFlows`.
unfoldable pub rule_flows : List Rule → String → String → List Flow
rule_flows rules src dst =
    unseen flow_key []
      (map (λ r. record { proto = r.proto; port = r.port }) (keep (matches_pair src dst) rules))

abbrev pub canon_of : Option (String × String) → String → String
canon_of none port = port
canon_of (some (lo, hi)) port = if str_eq lo hi then lo else port

-- `canonPort`.
unfoldable pub canon_port : String → String
canon_port port = canon_of (cut port) port

-- `literalFlows`.
unfoldable pub literal_flows : List Rule → String → String → List Flow
literal_flows rules src dst = unseen flow_key [] (
    map (λ r. record { proto = r.proto; port = canon_port r.port })
      (keep (λ r. str_eq r.from_group src && str_eq r.to_group dst) rules))

-- `flowsMinus`.
unfoldable pub flows_minus : List Flow → List Flow → List Flow
flows_minus a b = keep (λ f. count (λ g. str_eq (flow_key g) (flow_key f)) b == 0) a

pub record Assertion : Type 0 where
  pub expect : Bool
  pub src : String
  pub dst : String
  pub proto : String
  pub port : String
  pub line : ℕ

pub record TestResult : Type 0 where
  pub assertion : Assertion
  pub got : Bool
  pub pass : Bool
  pub reason : Reason

abbrev same_answer : Bool → Bool → Bool
same_answer true b = b
same_answer false b = not b

-- `RunTests`.
unfoldable pub run_tests : (String → String) → List Rule → List Assertion → List TestResult
run_tests to_lower rules [] = []
run_tests to_lower rules (a ∷ rest) =
    let d = reachable to_lower rules a.src a.dst a.proto a.port in
    record {
      assertion = a;
      got = d.allowed;
      pass = same_answer d.allowed a.expect;
      reason = d.reason;
    }
    ∷ run_tests to_lower rules rest
