-- ===== src/AuditChain/Tests.antt =====
-- A log of two rows under a toy hash.
use Prim.Native.Char.{code}
use Prim.Native.String.{[] as nil, ◌∷◌ as char_cons}
use text.Mathlib.TextEquality.{Char-path}
use nebula_control_plane.Prelude.{ℕ, ◌≡◌, refl, ap, arith, String, true, List, [], ◌∷◌, ◌⊎◌, All}
use nebula_control_plane.AuditChain.{Row, intact, append_audit, verify_audit, verify_from}
use nebula_control_plane.AuditChain.Framing.{Fits}
use nebula_control_plane.AuditChain.Tamper.{Collision, tamper_evident}
use nebula_control_plane.AuditChain.{append_keeps_intact}

abbrev sha256 : List ℕ → String
sha256 bs = "h"

-- A text as the numbers of its characters.
abbrev codes : String → List ℕ
codes nil = []
codes (char_cons c s) = code c ∷ codes s

abbrev head : List ℕ → ℕ
head [] = 0
head (b ∷ bs) = b

abbrev tail : List ℕ → List ℕ
tail [] = []
tail (b ∷ bs) = bs

codes_injective : (s t : String) → codes s ≡ codes t → s ≡ t
codes_injective nil nil e = refl
codes_injective nil (char_cons c t) e = absurd cc
codes_injective (char_cons c s) nil e = absurd cc
codes_injective (char_cons c s) (char_cons d t) e =
    let first = Char-path c d (ap head e) in let rest = codes_injective s t (ap tail e) in cc

abbrev row : ℕ → String → String → String → Row
row seq actor action prev = record {
  seq = seq;
  ts = 5;
  actor = actor;
  action = action;
  target = "";
  details = "";
  prev_hash = prev;
  hash = "h";
}

abbrev log : List Row
log = row 1 "alice" "propose" "0" ∷ row 2 "bob" "approve" "h" ∷ []

abbrev forged : List Row
forged = row 1 "eve" "propose" "0" ∷ row 2 "bob" "approve" "h" ∷ []

append_keeps_intact_example :
    verify_audit sha256 codes "0" (append_audit sha256 codes "0" true log 9 "bob" "commit" "" "").0
    ≡ intact 3
unfolding verify_audit verify_from
append_keeps_intact_example =
    append_keeps_intact sha256 codes "0" true log 2 9 "bob" "commit" "" "" refl

log-Fits : All (Fits codes) log
log-Fits = ground arith

forged-Fits : All (Fits codes) forged
forged-Fits = ground arith

-- The toy hash has collisions: the second case of the theorem.
tamper_evident_example : (log ≡ forged) ⊎ Collision sha256
unfolding verify_audit verify_from
tamper_evident_example =
    tamper_evident sha256 codes codes_injective "0" 2 log forged log-Fits forged-Fits refl refl refl
