-- ===== src/Rollout/Sizes.antt =====
-- internal/rollout/rollout.go: the waves that `Start` cuts the fleet into.
use nebula_control_plane.Prelude.{
  ℕ, suc, ◌+◌, ◌-◌, ◌*◌, ◌/◌, ◌<◌, ◌≤◌, ◌≡◌, String, Bool, true, ◌&&◌, List, [], ◌∷◌, ◌++◌, arith,
  ltb, ◌==◌, count, count_none, count-append, length, Bool-cases, Option-cases, inl, inr,
}
use native.Mathlib.Nat.{div-add-mod, mod-lt}
use nebula_control_plane.Rollout.Types.{Rollout, Host, Db, ok, locked_active_current}
use nebula_control_plane.Rollout.Operations.{
  StartConfig, wave_of, members, canary_of, create, new_rollout, lane_or_policy, start,
}

-- The hosts of a wave of a rollout.
abbrev pub in_wave : ℕ → ℕ → Host → Bool
in_wave i w h = (h.rollout_id == i) && (h.wave == w)

same_number : (n : ℕ) → (n == n) ≡ true
same_number n = ground arith

module _ (first size : ℕ) (pos : 0 < size) where
  wave_of_bounds :
      (i w : ℕ) → wave_of first size i ≡ suc w → (first + w * size ≤ i) × (i < first + suc w * size)
  unfolding wave_of
  wave_of_bounds i w e =
      let quotient : (i - first) / size ≡ w = ground arith in
      let whole = rw quotient at (div-add-mod (i - first) size) in
      let above : first ≤ i = ground arith in (omega arith, omega (arith, mod-lt (i - first) pos))

  -- At most one wave's worth of positions is left in wave `w + 1` from position `i` on.
  count-wave :
      (w now rid next i : ℕ) (ips : List String)
      → (count (in_wave rid (suc w)) (members first size now rid next i ips)
          ≤ first + suc w * size - i)
        × (count (in_wave rid (suc w)) (members first size now rid next i ips) ≤ size)
  unfolding count members
  count-wave w now rid next i [] = (omega arith, omega arith)
  count-wave w now rid next i (ip ∷ ips) =
      let rest = count-wave w now rid (suc next) (suc i) ips in
      elim (Bool-cases (wave_of first size i == suc w)) [
        | inl hit ↦
            let b = wave_of_bounds i w (ground arith) in
            rw (same_number rid, hit) (grind arith, grind arith)
        | inr miss ↦ rw (same_number rid, miss) (omega (arith, rest), rest.1)
      ]

canary_position : (first size i : ℕ) → (wave_of first size i == 0) ≡ ltb i first
unfolding wave_of
canary_position first size i = ground arith

-- The canary wave takes the positions below `first`, as far as there are any.
count-canary :
    (first size now rid next i : ℕ) (ips : List String)
    → let k = count (in_wave rid 0) (members first size now rid next i ips) in
      (i + length ips ≤ first → k ≡ length ips) × (first ≤ i + length ips → k ≡ first - i)
unfolding count members
count-canary first size now rid next i [] = ((λ h. omega arith), λ h. omega arith)
count-canary first size now rid next i (ip ∷ ips) =
    let (short, long) = count-canary first size now rid (suc next) (suc i) ips in
    rw (same_number rid, canary_position first size i)
      (elim (Bool-cases (ltb i first)) [
        | inl hit ↦
            rw hit
              ((λ h. omega (arith, short (omega arith))), λ h. ground (arith, long (omega arith)))
        | inr miss ↦ rw miss ((λ h. absurd (ground arith)), λ h. ground (arith, long (omega arith)))
      ])

-- What `Start` says of the sizes: the canary wave `k` is as large as configured, but at least one host
-- and at most all `n` of them.
abbrev pub IsCanary : ℕ → ℕ → ℕ → Type 0
IsCanary c n k = ((c ≤ 1 → k ≡ 1) × (0 < c → c ≤ n → k ≡ c)) × (n ≤ c → k ≡ n)

canary_of-IsCanary : (c n : ℕ) → 0 < n → IsCanary c n (canary_of c n) × (canary_of c n ≤ n)
unfolding canary_of
canary_of-IsCanary c n h =
    ((((λ k. ground arith), λ k m. ground arith), λ k. ground arith), ground arith)

created :
    (db : Db) (cfg : StartConfig) (now w : ℕ)
    → 0 < cfg.wave_size
    → count (λ h. h.rollout_id == db.next_rollout) db.hosts ≡ 0
    → 0 < length cfg.hosts
    → IsCanary cfg.canary_size
        (length cfg.hosts)
        (count (in_wave db.next_rollout 0) (create db cfg now).hosts)
      × (count (in_wave db.next_rollout (suc w)) (create db cfg now).hosts ≤ cfg.wave_size)
unfolding create
created db cfg now w pos fresh some_host =
    let first = canary_of cfg.canary_size (length cfg.hosts) in
    let rid = db.next_rollout in
    let new = members first cfg.wave_size now rid db.next_host 0 cfg.hosts in
    let old = λ (v : ℕ).
      count_none (in_wave rid v) (λ h. h.rollout_id == rid) (λ h k. ground arith) db.hosts fresh in
    let (size, few) = canary_of-IsCanary cfg.canary_size (length cfg.hosts) some_host in
    let exact : count (in_wave rid 0) (new ++ db.hosts) ≡ first = omega (
      arith,
      count-append (in_wave rid 0) new db.hosts,
      old 0,
      (count-canary first cfg.wave_size now rid db.next_host 0 cfg.hosts).1 (omega (arith, few)),
    ) in
    (
      rw exact size,
      omega (
        arith,
        count-append (in_wave rid (suc w)) new db.hosts,
        old (suc w),
        (count-wave first cfg.wave_size pos w now rid db.next_host 0 cfg.hosts).1,
      ),
    )

-- The rows that a successful `Start` creates, for a number that no row has yet: the canary wave has
-- CanarySize hosts, but at least one and at most all of the hosts, and each later wave has at most
-- WaveSize, when that is positive.
pub wave_limits :
    (db : Db) (cfg : StartConfig) (now w : ℕ) (r : Rollout)
    → 0 < cfg.wave_size
    → count (λ h. h.rollout_id == db.next_rollout) db.hosts ≡ 0
    → (start true db cfg now).1 ≡ ok r
    → IsCanary cfg.canary_size
        (length cfg.hosts)
        (count (in_wave r.id 0) (start true db cfg now).0.hosts)
      × (count (in_wave r.id (suc w)) (start true db cfg now).0.hosts ≤ cfg.wave_size)
unfolding start
wave_limits db cfg now w r pos fresh e = elim (Bool-cases (length cfg.hosts == 0)) [
  | inl z ↦ absurd (cc (rw z at e))
  | inr z ↦ elim (Option-cases (locked_active_current db (lane_or_policy cfg.lane))) [
    | inr (a, q) ↦ absurd (cc (rw (z, q) at e))
    | inl q ↦
        let same : new_rollout db cfg now ≡ r = cc (rw (z, q) at e) in
        rw (z, q, ← same) (created db cfg now w pos fresh (ground arith))
  ]
]
