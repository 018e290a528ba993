-- ===== src/Policy/Keys.antt =====
-- internal/policy/policy.go, `dedup`: the keys of firewall rules, by which a rule without a bar in a
-- field is told from every other.
use Prim.Native.Char.{Char, char, code}
use Prim.Native.String.append
use Prim.Native.String.{[] as nil, ◌∷◌ as char_cons, ◌++◌ as append}
use text.Mathlib.TextEquality.{Char-path}
use nebula_control_plane.Prelude.{
  suc, count, List, [], ◌∷◌, ◌∙◌, ℕ, ◌+◌, ◌≡◌, if◌then◌else◌, ap, refl, String, Bool, true, ◌&&◌,
  arith, ◌==◌, str_eq, eq_iff, Bool-cases, inl, inr,
}
use nebula_control_plane.Policy.Types.{FirewallRule, bar, rule_key, keyed}

-- How many bars a text has.
unfoldable pub bars : String → ℕ
bars nil = 0
bars (char_cons c s) = (if code c == 124 then 1 else 0) + bars s

bars-append : (s t : String) → bars (append s t) ≡ bars s + bars t
unfolding bars
bars-append nil t = rw (append.nil t) (omega arith)
bars-append (char_cons c s) t = rw (append.cons c s t) (omega (arith, bars-append s t))

bars-bar : (s t : String) → bars (bar s t) ≡ bars s + (1 + bars t)
unfolding bars
bars-bar s t = omega (arith, bars-append s (append "|" t), bars-append "|" t)

-- The first character's number, and what follows it.
abbrev head_code : String → ℕ
head_code nil = 0
head_code (char_cons c s) = code c

abbrev tail : String → String
tail nil = nil
tail (char_cons c s) = s

bar-nil : (t : String) → bar nil t ≡ char_cons (char 124 tt) t
bar-nil t =
    append.nil (append "|" t)
    ∙ (append.cons (char 124 tt) nil t ∙ ap (λ u. char_cons (char 124 tt) u) (append.nil t))

bar-cons : (c : Char) (s t : String) → bar (char_cons c s) t ≡ char_cons c (bar s t)
bar-cons c s t = append.cons c s (append "|" t)

same_parts : (a b x y : String) → bars a ≡ 0 → bars b ≡ 0 → bar a x ≡ bar b y → (a ≡ b) × (x ≡ y)
unfolding bars
same_parts nil nil x y h k e = (refl, ap tail (rw (bar-nil x, bar-nil y) at e))
same_parts nil (char_cons c b) x y h k e =
    let first : 124 ≡ code c = ap head_code (rw (bar-nil x, bar-cons c b y) at e) in
    absurd (ground arith)
same_parts (char_cons c a) nil x y h k e =
    let first : code c ≡ 124 = ap head_code (rw (bar-cons c a x, bar-nil y) at e) in
    absurd (ground arith)
same_parts (char_cons c a) (char_cons d b) x y h k e =
    let whole = rw (bar-cons c a x, bar-cons d b y) at e in
    let first = Char-path c d (ap head_code whole) in
    let (rest, after) = same_parts a b x y (omega (arith, h)) (omega (arith, k)) (ap tail whole) in
    (cc, after)

-- The four fields of two rules are the same.
abbrev pub same_rule : FirewallRule → FirewallRule → Bool
same_rule r x =
    str_eq x.proto r.proto && str_eq x.port r.port && str_eq x.host r.host && str_eq x.group r.group

module _ (r : FirewallRule)
    (plain : bars r.proto + (bars r.port + (bars r.host + bars r.group)) ≡ 0) where
  same_key : (x : FirewallRule) → rule_key x ≡ rule_key r → same_rule r x ≡ true
  same_key x e =
      let none_in : bars x.proto + (bars x.port + (bars x.host + bars x.group)) ≡ 0 = omega (
        plain,
        arith,
        ap bars e,
        bars-bar x.proto (bar x.port (bar x.host x.group)),
        bars-bar x.port (bar x.host x.group),
        bars-bar x.host x.group,
        bars-bar r.proto (bar r.port (bar r.host r.group)),
        bars-bar r.port (bar r.host r.group),
        bars-bar r.host r.group,
      ) in
      let (proto, k) =
        same_parts x.proto r.proto _ _ (omega (arith, none_in)) (omega (arith, plain)) e in
      let (port, l) =
        same_parts x.port r.port _ _ (omega (arith, none_in)) (omega (arith, plain)) k in
      let (host, group) =
        same_parts x.host r.host _ _ (omega (arith, none_in)) (omega (arith, plain)) l in
      ground (
        arith,
        eq_iff x.proto r.proto,
        eq_iff x.port r.port,
        eq_iff x.host r.host,
        eq_iff x.group r.group,
      )

  same_rule-key : (x : FirewallRule) → same_rule r x ≡ true → rule_key x ≡ rule_key r
  same_rule-key x e =
      let a : x.proto ≡ r.proto = ground (arith, eq_iff x.proto r.proto) in
      let b : x.port ≡ r.port = ground (arith, eq_iff x.port r.port) in
      let c : x.host ≡ r.host = ground (arith, eq_iff x.host r.host) in
      let d : x.group ≡ r.group = ground (arith, eq_iff x.group r.group) in rw (a, b, c, d) refl

  -- The rules with the key of a rule that has no bar are the rule itself.
  pub keyed-same_rule :
      (xs : List FirewallRule) → count (keyed rule_key (rule_key r)) xs ≡ count (same_rule r) xs
  unfolding count
  keyed-same_rule [] = refl
  keyed-same_rule (x ∷ xs) = elim (Bool-cases (same_rule r x)) [
    | inl e ↦
        let k : str_eq (rule_key x) (rule_key r) ≡ true =
          (eq_iff (rule_key x) (rule_key r)).1 (same_rule-key x e) in
        rw (e, k) (ap suc (keyed-same_rule xs))
    | inr e ↦ elim (Bool-cases (str_eq (rule_key x) (rule_key r))) [
      | inr k ↦ rw (e, k) (keyed-same_rule xs)
      | inl k ↦ absurd (cc (same_key x ((eq_iff (rule_key x) (rule_key r)).0 k), e))
    ]
  ]
