-- ===== src/Net/Prefix.antt =====
-- net/netip, as internal/netblock/netblock.go uses it: `Prefix`, and the helpers `prefixInside`,
-- `nextSlot`, `buddyOf` and `slots`.
use nebula_control_plane.Prelude.{
  ℕ, zero, suc, ◌+◌, ◌-◌, ◌*◌, ◌/◌, ◌%◌, ◌^◌, Bool, ◌&&◌, List, [], ◌∷◌, Option, none, some,
  if◌then◌else◌, ltb, leb, ◌==◌,
}

pub record Prefix : Type 0 where
  pub addr : ℕ
  pub bits : ℕ

abbrev pub zero_prefix : Prefix
zero_prefix = record { addr = 0; bits = 33 }

abbrev pub is_valid : Prefix → Bool
is_valid p = leb p.bits 32

-- The number of addresses of a prefix of so many bits.
abbrev pub size : ℕ → ℕ
size b = 2 ^ (32 - b)

-- `Prefix.Masked`.
unfoldable pub masked : Prefix → Prefix
masked p =
    if is_valid p then record p { addr = p.addr / size p.bits * size p.bits } else zero_prefix

-- `Prefix.Contains`.
unfoldable pub contains : Prefix → ℕ → Bool
contains p a = is_valid p && (a / size p.bits == p.addr / size p.bits)

abbrev pub min_bits : Prefix → Prefix → ℕ
min_bits p q = if ltb p.bits q.bits then p.bits else q.bits

-- `Prefix.Overlaps`: the prefixes agree, cut to the shorter one.
unfoldable pub overlaps : Prefix → Prefix → Bool
overlaps p q =
    is_valid p && is_valid q && (p.addr / size (min_bits p q) == q.addr / size (min_bits p q))

abbrev pub same_prefix : Prefix → Prefix → Bool
same_prefix p q = (p.addr == q.addr) && p.bits == q.bits

-- `prefixInside`.
unfoldable pub prefix_inside : Prefix → Prefix → Bool
prefix_inside inner outer = leb outer.bits inner.bits && contains outer (masked inner).addr

-- A `uint32` and what it wraps at.
abbrev pub u32 : ℕ → ℕ
u32 n = n % 2 ^ 32

-- `nextSlot`: none where the addresses wrap.
unfoldable pub next_slot : Prefix → Option Prefix
next_slot p =
    let v = u32 ((masked p).addr + u32 (size p.bits)) in
    if ltb v (masked p).addr then none else some (record { addr = v; bits = p.bits })

abbrev pub parent : Prefix → Prefix
parent p = masked (record { addr = p.addr; bits = p.bits - 1 })

-- `buddyOf`.
unfoldable pub buddy_of : Prefix → Prefix
buddy_of p =
    let q = masked p in
    let step = u32 (size q.bits) in
    if q.bits == 0
    then zero_prefix
    else if (parent q).addr == q.addr
    then record { addr = u32 (q.addr + step); bits = q.bits }
    else record { addr = u32 (q.addr + 2 ^ 32 - step); bits = q.bits }

-- The loop of `slots`: so many prefixes from one on.
abbrev pub and_then : Prefix → (Prefix → List Prefix) → Option Prefix → List Prefix
and_then cur rest none = cur ∷ []
and_then cur rest (some next) = cur ∷ rest next

unfoldable pub slots_from : ℕ → Prefix → List Prefix
slots_from zero cur = []
slots_from (suc n) cur = and_then cur (slots_from n) (next_slot cur)

-- `slots`.
unfoldable pub slots : Prefix → ℕ → List Prefix
slots pool bits =
    if ltb bits pool.bits
    then []
    else if ltb 32 bits
    then []
    else slots_from (2 ^ (bits - pool.bits)) (masked (record { addr = pool.addr; bits = bits }))
