-- ===== src/Policy/Text.antt =====
-- What internal/policy uses of Go's strings and strconv: `Cut` at a dash, and `Atoi`.
use Prim.Native.Char.{Char, code}
use Prim.Native.String.{[] as nil, ◌∷◌ as char_cons}
use nebula_control_plane.Prelude.{
  ℕ, ◌+◌, ◌-◌, ◌*◌, String, Bool, ◌&&◌, Option, none, some, if◌then◌else◌, leb, ◌==◌,
}

-- `strings.Cut(s, "-")`; none where there is no dash.
unfoldable pub cut : String → Option (String × String)
cut nil = none
cut (char_cons c s) =
    let rest = cut s in
    if code c == 45
    then some ("", s)
    else elim rest [ none ↦ none | some p ↦ some (char_cons c p.0, p.1) ]

abbrev pub is_digit : Char → Bool
is_digit c = leb 48 (code c) && leb (code c) 57

unfoldable pub digits : ℕ → String → Option ℕ
digits n nil = some n
digits n (char_cons c s) =
    let rest = digits (n * 10 + (code c - 48)) s in if is_digit c then rest else none

-- `strconv.Atoi`, with the integer moved up by 2 ^ 63; none is an error.
abbrev pub zero_int : ℕ
zero_int = 9223372036854775808

abbrev pub positive : Option ℕ → Option ℕ
positive none = none
positive (some n) = if leb zero_int n then none else some (zero_int + n)

abbrev pub negative : Option ℕ → Option ℕ
negative none = none
negative (some n) = if leb n zero_int then some (zero_int - n) else none

abbrev pub magnitude : String → Option ℕ
magnitude nil = none
magnitude (char_cons c s) = digits 0 (char_cons c s)

unfoldable pub atoi : String → Option ℕ
atoi nil = none
atoi (char_cons c s) =
    if code c == 43
    then positive (magnitude s)
    else if code c == 45
    then negative (magnitude s)
    else positive (digits 0 (char_cons c s))
