-- ===== src/Netblock/Suggest.antt =====
-- internal/netblock/netblock.go: `Suggest`, where a new block should go.
use nebula_control_plane.Prelude.{
  ℕ, zero, suc, ◌-◌, Bool, ◌&&◌, not, List, [], ◌∷◌, Option, none, some, if◌then◌else◌, ltb, ◌==◌,
  find, count,
}
use nebula_control_plane.Net.Prefix.{Prefix, is_valid, masked, contains, overlaps, slots}
use nebula_control_plane.Netblock.Types.{bad_cidr, bad_prefix_len, pool_full, Result, ok, err}

abbrev pub margin_bits : ℕ
margin_bits = 3

abbrev pub envelope_floor : ℕ
envelope_floor = 24

abbrev pub start_of : ℕ → Prefix → Prefix
start_of bits env = masked (record { addr = env.addr; bits = bits })

abbrev pub floor_bits : Prefix → ℕ
floor_bits pool = if ltb envelope_floor pool.bits then pool.bits else envelope_floor

-- The length of the growth envelope.
abbrev pub envelope_bits : Prefix → ℕ → ℕ
envelope_bits pool bits =
    let e =
      if ltb (bits - margin_bits) (floor_bits pool) then floor_bits pool else bits - margin_bits in
    if ltb bits e then bits else e

module _ (reserved : List ℕ) (carves : List Prefix) where
  -- `rangeClear`.
  unfoldable pub range_clear : Prefix → Bool
  range_clear p =
      (count (contains p) reserved == 0) && (count (λ c. is_valid c && overlaps p c) carves == 0)

  -- `freeSlotsIn`: the lowest clear slot, and how many there are.
  unfoldable pub free_slots_in : Prefix → ℕ → Option Prefix × ℕ
  free_slots_in env bits = (find range_clear (slots env bits), count range_clear (slots env bits))

  -- The loop for the envelope with the most clear slots; the first of several stays.
  abbrev pub better : Option Prefix × ℕ → Option Prefix × ℕ → Option Prefix × ℕ
  better best candidate = if ltb best.1 candidate.1 then candidate else best

  unfoldable pub worst_fit : ℕ → Option Prefix × ℕ → List Prefix → Option Prefix × ℕ
  worst_fit bits best [] = best
  worst_fit bits best (env ∷ envs) = worst_fit bits (better best (free_slots_in env bits)) envs

  -- The loop that relaxes the margin: so many lengths from one on.
  unfoldable pub relax : ℕ → ℕ → Prefix → ℕ → Option Prefix
  relax zero e pool bits = none
  relax (suc n) e pool bits =
      let rest = relax n (suc e) pool bits in
      elim (find range_clear (slots pool e)) [ some env ↦ some (start_of bits env) | none ↦ rest ]

  abbrev pub last_resort : Prefix → ℕ → Option Prefix → Result Prefix
  last_resort pool bits (some p) = ok p
  last_resort pool bits none = elim (find range_clear (slots pool bits)) [
    | some p ↦ ok p
    | none ↦ err pool_full
  ]

  abbrev pub packed : Prefix → ℕ → ℕ → Option Prefix × ℕ → Result Prefix
  packed pool bits e (some p, suc n) = ok p
  packed pool bits e (some p, zero) = last_resort pool bits (relax (bits - e) (suc e) pool bits)
  packed pool bits e (none, n) = last_resort pool bits (relax (bits - e) (suc e) pool bits)

  abbrev pub fresh_or_packed : Prefix → ℕ → ℕ → Option Prefix → Result Prefix
  fresh_or_packed pool bits e (some env) = ok (start_of bits env)
  fresh_or_packed pool bits e none = packed pool bits e (worst_fit bits (none, 0) (slots pool e))

  -- `Suggest`.
  unfoldable pub suggest : ℕ → Prefix → Result Prefix
  suggest bits given =
      let pool = masked given in
      let e = envelope_bits pool bits in
      if not (is_valid given)
      then err bad_cidr
      else if ltb bits pool.bits
      then err bad_prefix_len
      else if ltb 32 bits
      then err bad_prefix_len
      else fresh_or_packed pool bits e (find range_clear (slots pool e))
