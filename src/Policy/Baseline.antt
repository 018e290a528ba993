-- ===== src/Policy/Baseline.antt =====
-- internal/policy/policy.go: what `CompileHost` gives every host, whatever the policy says.
use nebula_control_plane.Prelude.{
  ℕ, ◌+◌, ◌≡◌, refl, ◌∙◌, sym, append_assoc, String, true, false, List, [], ◌∷◌, ◌++◌, arith,
  if◌then◌else◌, str_eq, eq_iff, count, count-append, Bool-cases, inl, inr, ◌⊎◌,
}
use nebula_control_plane.Policy.Types.{Rule, FirewallRule, rule_key, keyed, control_plane}
use nebula_control_plane.Policy.Keys.{bars, same_rule, keyed-same_rule}
use nebula_control_plane.Policy.Compile.{
  dedup, compile_host, in_groups, any_host, reach_control_plane, inbound_rules, outbound_rules,
}
use nebula_control_plane.Policy.Laws.{dedup_once}

-- How often a rule stands in a list: the same protocol, port, host and group.
abbrev pub copies : FirewallRule → List FirewallRule → ℕ
copies r rules = count (same_rule r) rules

module _ (r : FirewallRule)
    (plain : bars r.proto + (bars r.port + (bars r.host + bars r.group)) ≡ 0) where
  kept_once : (before after : List FirewallRule) → copies r (dedup (before ++ (r ∷ after))) ≡ 1
  unfolding count
  kept_once before after =
      let self : str_eq (rule_key r) (rule_key r) ≡ true =
        (eq_iff (rule_key r) (rule_key r)).1 refl in
      let split = count-append (keyed rule_key (rule_key r)) before (r ∷ after) in
      sym (keyed-same_rule r plain (dedup (before ++ (r ∷ after))))
      ∙ (dedup_once (rule_key r) (before ++ (r ∷ after)) ∙ rw (split, self) (ground arith))

  kept_last :
      (b : FirewallRule) (before : List FirewallRule)
      → copies r (dedup (before ++ (b ∷ (r ∷ [])))) ≡ 1
  kept_last b before =
      rw (← append_assoc before (b ∷ []) (r ∷ [])) (kept_once (before ++ (b ∷ [])) [])

-- Whatever rules a policy has, the compiled section of a host carries the baseline, each rule of it
-- once, with its protocol, port, host and group: ICMP in both directions, and towards the control plane a rule for any protocol and port, or,
-- on a host of the control plane, rules for any peer in both directions.
pub baseline_kept :
    (rules : List Rule) (gs : List String)
    → (copies (any_host "icmp") (compile_host rules gs).inbound ≡ 1)
      × (copies (any_host "icmp") (compile_host rules gs).outbound ≡ 1)
      × (copies
            (if in_groups gs control_plane then any_host "any" else reach_control_plane)
            (compile_host rules gs).outbound
          ≡ 1)
      × ((in_groups gs control_plane ≡ false)
          ⊎ (copies (any_host "any") (compile_host rules gs).inbound ≡ 1))
unfolding compile_host bars
baseline_kept rules gs =
    let ins = inbound_rules rules gs in
    let outs = outbound_rules rules gs in
    elim (Bool-cases (in_groups gs control_plane)) [
      | inl core ↦ rw core (
        kept_last (any_host "icmp") refl (any_host "any") ins,
        kept_last (any_host "icmp") refl (any_host "any") outs,
        (kept_once (any_host "any") refl outs (any_host "icmp" ∷ [])),
        inr (kept_once (any_host "any") refl ins (any_host "icmp" ∷ [])),
      )
      | inr out ↦ rw out (
        (kept_once (any_host "icmp") refl ins []),
        kept_last (any_host "icmp") refl reach_control_plane outs,
        kept_once reach_control_plane refl outs (any_host "icmp" ∷ []),
        inl refl,
      )
    ]
