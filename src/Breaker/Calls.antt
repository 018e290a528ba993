-- ===== src/Breaker/Calls.antt =====
-- internal/signer/breaker.go and breaker_sql.go: the calls of a breaker, what they answer, and a
-- breaker that keeps everything it has granted since the last reset. Times are natural numbers.
use nebula_control_plane.Prelude.{
  ℕ, ◌+◌, ◌≤◌, ◌≡◌, refl, Bool, true, false, List, [], ◌∷◌, if◌then◌else◌, ltb, leb, ◌==◌, count,
}

-- `core` is the process that calls, `sweeps` whether a sweep of old rows succeeds.
pub data Call : Type 0 where
  acquires : (core : ℕ) (sweeps : Bool) (now : ℕ) → Call
  resets : Call

pub record Answer : Type 0 where
  pub allowed : Bool
  pub just_tripped : Bool

abbrev pub refused : Answer
refused = record { allowed = false; just_tripped = false }

abbrev pub tripped : Answer
tripped = record { allowed = false; just_tripped = true }

abbrev pub granted : Answer
granted = record { allowed = true; just_tripped = false }

-- Within the window that ends now: after the cutoff.
abbrev pub recent : ℕ → ℕ → ℕ → Bool
recent window now t = ltb now (t + window)

-- The breaker that forgets nothing.
pub record Ledger : Type 0 where
  pub grants : List ℕ
  pub latched : Bool

abbrev pub new_ledger : Ledger
new_ledger = record { grants = []; latched = false }

module _ (max window : ℕ) where
  abbrev pub ledger : Ledger → Call → Ledger × Answer
  ledger l resets = (new_ledger, refused)
  ledger l (acquires core sweeps now) =
      if l.latched
      then (l, refused)
      else if max == 0
      then (l, granted)
      else if leb max (count (recent window now) l.grants)
      then (record l { latched = true }, tripped)
      else (record l { grants = now ∷ l.grants }, granted)

  -- A call whose transaction fails leaves it as it was, and is refused where there is a ceiling.
  abbrev pub try_ledger : Ledger → Call × Bool → Ledger × Answer
  try_ledger l (c, true) = ledger l c
  try_ledger l (resets, false) = (l, refused)
  try_ledger l (acquires core sweeps now, false) = if max == 0 then (l, granted) else (l, refused)

-- A run of calls, and what they answer.
abbrev pub run {ℓ} : {S : Type ℓ} {C : Type 0} → (S → C → S × Answer) → S → List C → S × List Answer
run step s [] = (s, [])
run step s (c ∷ cs) = let (t, a) = step s c in let (u, xs) = run step t cs in (u, a ∷ xs)

-- The clock after a call, and that it never goes back.
abbrev pub time : ℕ → Call → ℕ
time clock resets = clock
time clock (acquires core sweeps now) = now

abbrev pub InOrder : ℕ → List Call → Type 0
InOrder clock [] = Unit {0}
InOrder clock (c ∷ cs) = (clock ≤ time clock c) × InOrder (time clock c) cs

-- Calls, each with whether its transaction commits.
abbrev pub calls_of : List (Call × Bool) → List Call
calls_of [] = []
calls_of ((c, commits) ∷ cs) = c ∷ calls_of cs

-- The times of the calls that were allowed since the last reset that committed, newest first.
abbrev pub grant_times : List ℕ → List (Call × Bool) → List Answer → List ℕ
grant_times ts [] xs = ts
grant_times ts (c ∷ cs) [] = ts
grant_times ts ((resets, true) ∷ cs) (a ∷ xs) = grant_times [] cs xs
grant_times ts ((resets, false) ∷ cs) (a ∷ xs) = grant_times ts cs xs
grant_times ts ((acquires core sweeps now, commits) ∷ cs) (a ∷ xs) =
    grant_times (if a.allowed then now ∷ ts else ts) cs xs

-- A breaker does what another one does, as long as the clock never goes back.
pub record Simulates {ℓ κ μ} {S : Type ℓ} {T : Type κ} (f : S → Call → S × Answer)
    (g : T → Call → T × Answer) (R : ℕ → S → T → Type μ) : Type (ℓ ⊔ κ ⊔ μ) where
  pub step :
      (clock : ℕ) (c : Call) (s : S) (t : T)
      → clock ≤ time clock c
      → R clock s t
      → ((f s c).1 ≡ (g t c).1) × R (time clock c) (f s c).0 (g t c).0

module _ {ℓ κ μ} {S : Type ℓ} {T : Type κ} {f : S → Call → S × Answer} {g : T → Call → T × Answer}
    {R : ℕ → S → T → Type μ} (sim : Simulates f g R) where
  pub same_answers :
      (clock : ℕ) (cs : List Call) (s : S) (t : T)
      → InOrder clock cs
      → R clock s t
      → (run f s cs).1 ≡ (run g t cs).1
  same_answers clock [] s t o r = refl
  same_answers clock (c ∷ cs) s t o r =
      let (e, r') = sim.step clock c s t o.0 r in
      rw (e, same_answers (time clock c) cs (f s c).0 (g t c).0 o.1 r') refl
