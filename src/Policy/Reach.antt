-- ===== src/Policy/Reach.antt =====
-- internal/policy/analysis.go: what `Reachable` allows.
use nebula_control_plane.Prelude.{
  ℕ, ◌≤◌, ◌≡◌, ◌≢◌, refl, ◌⊎◌, ◌↔◌, String, Bool, true, false, ◌||◌, ◌&&◌, not, List, [], ◌∷◌,
  Option, none, some, arith, ◌==◌, str_eq, eq_iff, count, Bool-cases, Option-cases, inl, inr,
}
use nebula_control_plane.Policy.Types.{Rule, control_plane}
use nebula_control_plane.Policy.Text.{cut, atoi}
use nebula_control_plane.Policy.Laws.{is_some}
use nebula_control_plane.Policy.Analysis.{
  reachable, reachable_lower, scan, decided, match_group, match_proto, match_port, covers_query,
  covers, within, equal_port, matches_pair, matches_flow, or_first,
}

-- Some rule has a property.
abbrev pub Any : (Rule → Type 0) → List Rule → Type 0
Any P [] = ⊥
Any P (r ∷ rs) = P r ⊎ Any P rs

-- A rule's group, protocol and port let a query's pass.
abbrev pub GroupAllows : String → String → Type 0
GroupAllows g q = (g ≡ "any") ⊎ (g ≡ q)

abbrev pub ProtoAllows : String → String → Type 0
ProtoAllows p q = (q ≡ "any") ⊎ ((p ≡ "any") ⊎ (p ≡ q))

-- A single port, or a range from one number to another.
abbrev pub PortHolds : String → ℕ → Type 0
PortHolds p n =
    ((cut p ≡ none) × (atoi p ≡ some n))
    ⊎ ((lo : String) × (hi : String) × (a : ℕ) × (b : ℕ) × (cut p ≡ some (lo, hi))
        × (atoi lo ≡ some a)
        × (atoi hi ≡ some b)
        × (a ≤ n)
        × (n ≤ b))

abbrev pub PortAllows : String → String → Type 0
PortAllows p q = (q ≡ "any") ⊎ ((p ≡ "any") ⊎ ((n : ℕ) × (atoi q ≡ some n) × PortHolds p n))

abbrev pub Grants : String → String → String → String → Rule → Type 0
Grants src dst proto port r =
    GroupAllows r.from_group src
    × GroupAllows r.to_group dst
    × ProtoAllows r.proto proto
    × PortAllows r.port port

same : (s t : String) → (str_eq s t ≡ true) ↔ (s ≡ t)
same s t = ((λ e. ground (arith, eq_iff s t)), λ e. ground (arith, eq_iff s t))

GroupAllows-iff : (g q : String) → (match_group g q ≡ true) ↔ GroupAllows g q
GroupAllows-iff g q = ground (arith, same g "any", same g q)

ProtoAllows-iff : (p q : String) → (match_proto p q ≡ true) ↔ ProtoAllows p q
ProtoAllows-iff p q = ground (arith, same q "any", same p "any", same p q)

equal_iff : (o : Option ℕ) (n : ℕ) → (equal_port o n ≡ true) ↔ (o ≡ some n)
equal_iff none n = ((λ e. absurd cc), λ e. absurd cc)
equal_iff (some m) n =
    ((λ e. let k : m ≡ n = ground arith in rw k refl), λ e. let k : m ≡ n = cc in ground arith)

within_iff :
    (o u : Option ℕ) (n : ℕ)
    → (within o u n ≡ true) ↔ ((a : ℕ) × (b : ℕ) × (o ≡ some a) × (u ≡ some b) × (a ≤ n) × (n ≤ b))
within_iff none u n = ((λ e. absurd cc), λ (a, b, p, q, lo, hi). absurd cc)
within_iff (some a) none n = ((λ e. absurd cc), λ (x, b, p, q, lo, hi). absurd cc)
within_iff (some a) (some b) n = (
  (λ e. (a, b, refl, refl, ground arith, ground arith)),
  λ (x, y, p, q, lo, hi). let s : a ≡ x = cc in let t : b ≡ y = cc in ground arith,
)

PortHolds-iff : (p : String) (n : ℕ) → (covers (cut p) p n ≡ true) ↔ PortHolds p n
PortHolds-iff p n = elim (Option-cases (cut p)) [
  | inl e ↦ rw e (
    (λ k. inl (refl, (equal_iff (atoi p) n).0 k)),
    λ h. elim h [
      | inl (c, k) ↦ (equal_iff (atoi p) n).1 k
      | inr (lo, hi, a, b, c, f, g, m, o) ↦ absurd cc
    ],
  )
  | inr ((lo, hi), e) ↦ rw e (
    (λ k.
        let (a, b, f, g, m, l) = (within_iff (atoi lo) (atoi hi) n).0 k in
        inr (lo, hi, a, b, refl, f, g, m, l)),
    λ h. elim h [
      | inl (c, k) ↦ absurd cc
      | inr (l', h', a, b, c, f, g, m, o) ↦
          let x : lo ≡ l' = cc in
          let y : hi ≡ h' = cc in (within_iff (atoi lo) (atoi hi) n).1 (a, b, rw x f, rw y g, m, o)
    ],
  )
]

query_iff :
    (o : Option ℕ) (p : String)
    → (covers_query o p ≡ true) ↔ ((n : ℕ) × (o ≡ some n) × PortHolds p n)
query_iff none p = ((λ e. absurd cc), λ (n, e, h). absurd cc)
query_iff (some q) p = (
  (λ e. (q, refl, (PortHolds-iff p q).0 e)),
  λ (n, e, h). let k : q ≡ n = cc in (PortHolds-iff p q).1 (rw k h),
)

PortAllows-iff : (p q : String) → (match_port p q ≡ true) ↔ PortAllows p q
unfolding match_port
PortAllows-iff p q = ground (arith, same q "any", same p "any", query_iff (atoi q) p)

Grants-iff :
    (src dst proto port : String) (r : Rule)
    → ((matches_pair src dst r && matches_flow proto port r) ≡ true) ↔ Grants src dst proto port r
Grants-iff src dst proto port r = ground (
  arith,
  GroupAllows-iff r.from_group src,
  GroupAllows-iff r.to_group dst,
  ProtoAllows-iff r.proto proto,
  PortAllows-iff r.port port,
)

Any-iff :
    (p : Rule → Bool) (P : Rule → Type 0)
    → ((r : Rule) → (p r ≡ true) ↔ P r)
    → (rs : List Rule) → ((count p rs == 0) ≡ false) ↔ Any P rs
unfolding count
Any-iff p P f [] = ((λ e. absurd (ground arith)), λ e. absurd e)
Any-iff p P f (r ∷ rs) = elim (Bool-cases (p r)) [
  | inl e ↦ rw e ((λ k. inl ((f r).0 e)), λ k. ground arith)
  | inr e ↦ rw e (
    (λ k. inr ((Any-iff p P f rs).0 k)),
    λ h. elim h [ inl g ↦ absurd (cc ((f r).1 g, e)) | inr g ↦ (Any-iff p P f rs).1 g ],
  )
]

scan_finds :
    (src dst proto port : String) (n : Option Rule) (rules : List Rule)
    → is_some (scan src dst proto port n rules).0
      ≡ not (count (λ r. matches_pair src dst r && matches_flow proto port r) rules == 0)
unfolding scan count
scan_finds src dst proto port n [] = refl
scan_finds src dst proto port n (r ∷ rs) = elim (Bool-cases (matches_pair src dst r)) [
  | inr a ↦ rw a (scan_finds src dst proto port n rs)
  | inl a ↦ elim (Bool-cases (matches_flow proto port r)) [
    | inl b ↦ rw (a, b) (ground arith)
    | inr b ↦ rw (a, b) (scan_finds src dst proto port (or_first n r) rs)
  ]
]

decided_allows :
    (wildcard : Bool) (p : Option Rule × Option Rule)
    → (decided wildcard p).allowed ≡ (is_some p.0 || wildcard)
decided_allows wildcard (some r, n) = refl
decided_allows true (none, n) = refl
decided_allows false (none, n) = refl

reachable_lower-allowed :
    (rules : List Rule) (src dst proto port : String)
    → (reachable_lower rules src dst proto port).allowed ≡ (
        str_eq proto "icmp"
        || (str_eq dst control_plane && not (str_eq src control_plane))
        || not (count (λ r. matches_pair src dst r && matches_flow proto port r) rules == 0)
        || (str_eq proto "any" && str_eq port "any"))
reachable_lower-allowed rules src dst proto port = elim (Bool-cases (str_eq proto "icmp")) [
  | inl a ↦ rw a refl
  | inr a ↦ elim (Bool-cases (str_eq dst control_plane && not (str_eq src control_plane))) [
    | inl b ↦ rw (a, b) refl
    | inr b ↦
        rw (a, b, ← scan_finds src dst proto port none rules)
          (decided_allows (str_eq proto "any" && str_eq port "any")
            (scan src dst proto port none rules))
  ]
]

-- What a policy and the baseline let through.
abbrev pub Allowed : List Rule → String → String → String → String → Type 0
Allowed rules src dst proto port =
    (proto ≡ "icmp")
    ⊎ (((dst ≡ control_plane) × (src ≢ control_plane))
        ⊎ (Any (Grants src dst proto port) rules ⊎ ((proto ≡ "any") × (port ≡ "any"))))

-- `Reachable` allows a query, its protocol in lower case, exactly when it is for ICMP, or leads to the
-- control plane from outside of it, or some rule, in whatever place, names both groups or any, the
-- protocol or any, and the port, a range around it, or any; or when it asks for any protocol and
-- port.
pub reachable_iff :
    (to_lower : String → String) (rules : List Rule) (src dst proto port : String)
    → ((reachable to_lower rules src dst proto port).allowed ≡ true)
      ↔ Allowed rules src dst (to_lower proto) port
unfolding reachable
reachable_iff to_lower rules src dst proto port =
    let p = to_lower proto in
    let any =
      Any-iff (λ r. matches_pair src dst r && matches_flow p port r) (Grants src dst p port)
        (Grants-iff src dst p port) rules in
    rw (reachable_lower-allowed rules src dst p port) (
      ground (
        arith,
        any,
        same p "icmp",
        same dst control_plane,
        same src control_plane,
        same p "any",
        same port "any",
      ))
