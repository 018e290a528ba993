-- ===== src/Policy/Types.antt =====
-- internal/policy: rules, policies, firewall sections and decisions.
use Prim.Native.String.{◌++◌ as append}
use nebula_control_plane.Prelude.{
  ℕ, String, Bool, List, [], ◌∷◌, Option, if◌then◌else◌, ◌==◌, str_eq, count,
}

pub record Rule : Type 0 where
  pub from_group : String
  pub to_group : String
  pub proto : String
  pub port : String

pub record Policy : Type 0 where
  pub version : ℕ
  pub rules : List Rule

-- A rule of nebula's firewall: the peers are a group, or every host.
pub record FirewallRule : Type 0 where
  pub proto : String
  pub port : String
  pub host : String
  pub group : String

pub record Compiled : Type 0 where
  pub inbound : List FirewallRule
  pub outbound : List FirewallRule

pub data Reason : Type 0 where
  by_rule baseline_control_plane baseline_icmp default_deny : Reason

pub record Decision : Type 0 where
  pub allowed : Bool
  pub reason : Reason
  pub rule : Option Rule
  pub nearest : Option Rule

pub record Flow : Type 0 where
  pub proto : String
  pub port : String

abbrev pub control_plane : String
control_plane = "control-plane"

abbrev pub lighthouse : String
lighthouse = "lighthouse"

-- The keys of the maps `seen`.
abbrev pub bar : String → String → String
bar s t = append s (append "|" t)

abbrev pub rule_key : FirewallRule → String
rule_key r = bar r.proto (bar r.port (bar r.host r.group))

abbrev pub flow_key : Flow → String
flow_key f = bar f.proto f.port

abbrev pub keyed {ℓ} : {A : Type ℓ} → (A → String) → String → A → Bool
keyed key k x = str_eq (key x) k

-- The loops over a map `seen`: the first element of each key that is not in it.
unfoldable pub unseen {ℓ} : {A : Type ℓ} → (A → String) → List String → List A → List A
unseen key seen [] = []
unseen key seen (x ∷ xs) =
    let skipped = unseen key seen xs in
    let kept = x ∷ unseen key (key x ∷ seen) xs in
    if count (λ k. str_eq k (key x)) seen == 0 then kept else skipped
