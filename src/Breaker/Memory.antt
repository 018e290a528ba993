-- ===== src/Breaker/Memory.antt =====
-- internal/signer/breaker.go: the breaker of one process.
use nebula_control_plane.Prelude.{
  ℕ, Bool, true, false, List, [], ◌∷◌, ◌++◌, if◌then◌else◌, leb, ◌==◌, keep, length,
}
use nebula_control_plane.Breaker.Calls.{
  Call, acquires, resets, Answer, refused, tripped, granted, recent,
}

pub record Breaker : Type 0 where
  pub events : List ℕ
  pub latched : Bool

-- `newBreaker`. The ceiling and the window do not change and are arguments of the operations.
abbrev pub new_breaker : Breaker
new_breaker = record { events = []; latched = false }

-- `acquire`, which reads the clock when it prunes and again when it records.
unfoldable pub acquire : ℕ → ℕ → Breaker → ℕ → ℕ → Breaker × Answer
acquire max window b pruned_at recorded_at =
    if b.latched
    then (b, refused)
    else if max == 0
    then (b, granted)
    else (let kept = keep (recent window pruned_at) b.events in
        if leb max (length kept)
        then (record { events = kept; latched = true }, tripped)
        else (record b { events = kept ++ (recorded_at ∷ []) }, granted))

-- `reset`.
unfoldable pub reset : Breaker → Breaker
reset b = record { events = []; latched = false }

-- `isOpen`.
abbrev pub is_open : Breaker → Bool
is_open b = b.latched

-- The breaker as a client calls it, one reading of the clock for each call.
abbrev pub memory : ℕ → ℕ → Breaker → Call → Breaker × Answer
memory max window b (acquires core sweeps now) = acquire max window b now now
memory max window b resets = (reset b, refused)
