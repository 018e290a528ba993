-- ===== src/Trust/Glob.antt =====
-- internal/awsattest/awsattest.go: `matchGlob`, with what it uses of Go's strings: `Split` at a star,
-- `HasPrefix`, `Index` and `HasSuffix`.
use Prim.Native.Char.{Char, code}
use Prim.Native.String.{[] as nil, ◌∷◌ as char_cons}
use nebula_control_plane.Prelude.{
  String, Bool, true, false, List, [], ◌∷◌, Option, none, some, if◌then◌else◌, ◌==◌, str_eq,
}

abbrev pub prepend : Char → List String → List String
prepend c [] = char_cons c "" ∷ []
prepend c (p ∷ ps) = char_cons c p ∷ ps

-- `strings.Split(pattern, "*")`.
unfoldable pub split_star : String → List String
split_star nil = "" ∷ []
split_star (char_cons c s) =
    let rest = split_star s in if code c == 42 then "" ∷ rest else prepend c rest

-- What follows a prefix.
unfoldable pub after_prefix : String → String → Option String
after_prefix nil s = some s
after_prefix (char_cons c p) nil = none
after_prefix (char_cons c p) (char_cons d s) =
    let rest = after_prefix p s in if code c == code d then rest else none

-- What follows the first occurrence of a part.
unfoldable pub after_first : String → String → Option String
after_first p nil = after_prefix p nil
after_first p (char_cons d s) =
    let rest = after_first p s in
    elim (after_prefix p (char_cons d s)) [ none ↦ rest | some t ↦ some t ]

unfoldable pub has_suffix : String → String → Bool
has_suffix p nil = str_eq p ""
has_suffix p (char_cons d s) =
    let rest = has_suffix p s in if str_eq (char_cons d s) p then true else rest

-- The parts after the first, the last of them at the end.
unfoldable pub match_parts : List String → String → Bool
match_parts [] s = false
match_parts (p ∷ []) s = has_suffix p s
match_parts (p ∷ (q ∷ ps)) s = elim (after_first p s) [
  | none ↦ false
  | some t ↦ match_parts (q ∷ ps) t
]

abbrev pub match_split : String → String → List String → Bool
match_split pattern s [] = false
match_split pattern s (p ∷ []) = str_eq pattern s
match_split pattern s (p ∷ (q ∷ ps)) = elim (after_prefix p s) [
  | none ↦ false
  | some t ↦ match_parts (q ∷ ps) t
]

-- `matchGlob`.
unfoldable pub match_glob : String → String → Bool
match_glob pattern s = match_split pattern s (split_star pattern)
