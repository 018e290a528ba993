-- ===== src/Replay/Memory.antt =====
-- internal/replay/replay.go: the map of one process accepts a nonce once while it is fresh.
use nebula_control_plane.Prelude.{
  ℕ, ◌+◌, ◌≤◌, ◌<◌, ◌≡◌, refl, String, true, false, not, List, [], ◌∷◌, some, arith, str_eq, eq_iff,
  keep, find, find-keep, find_passes, Bool-cases, inl, inr, All,
}
use nebula_control_plane.Replay.{Seen, for_nonce, unexpired, lives, observe}

-- The map's entry for the nonce lasts at least until then.
abbrev Remembers : String → ℕ → List Seen → Type 0
Remembers n until seen = (s : Seen) × (find (for_nonce n) seen ≡ some s) × (until ≤ s.expires_at)

abbrev pub seen_after : ℕ → List Seen → List (String × ℕ) → List Seen
seen_after ttl seen [] = seen
seen_after ttl seen ((m, now) ∷ os) = seen_after ttl (observe ttl seen m now).0 os

remembered-lives :
    (n : String) (until now : ℕ) (seen : List Seen)
    → now < until
    → Remembers n until seen
    → lives (find (for_nonce n) seen) now ≡ true
remembered-lives n until now seen h (s, f, k) = rw f (ground arith)

observe-Remembers :
    (ttl : ℕ) (n : String) (until : ℕ) (seen : List Seen) (m : String) (now : ℕ)
    → now < until
    → Remembers n until seen
    → Remembers n until (observe ttl seen m now).0
unfolding observe find
observe-Remembers ttl n until seen m now h (s, f, k) =
    elim (Bool-cases (lives (find (for_nonce m) seen) now)) [
      | inl t ↦ rw t (s, f, k)
      | inr t ↦
          let live = remembered-lives n until now seen h (s, f, k) in
          let hit = find_passes (for_nonce n) seen s f in
          elim (Bool-cases (str_eq m n)) [
            | inl e ↦
                let same : m ≡ n = ground (arith, eq_iff m n) in absurd (cc (rw same at t, live))
            | inr e ↦
                let other : not (for_nonce m s) ≡ true = elim (Bool-cases (str_eq s.nonce m)) [
                  | inr d ↦ rw d refl
                  | inl d ↦
                      let a : s.nonce ≡ m = ground (arith, eq_iff s.nonce m) in
                      let b : s.nonce ≡ n = ground (arith, eq_iff s.nonce n) in
                      absurd (cc (rw (← a, b) at e, (eq_iff n n).1 refl))
                ] in
                let fresh : unexpired now s ≡ true = ground arith in
                rw (t, e)
                  (
                    s,
                    find-keep (for_nonce n) (λ x. not (for_nonce m x)) (keep (unexpired now) seen) s
                        (find-keep (for_nonce n) (unexpired now) seen s f fresh) other,
                    k,
                  )
          ]
    ]

seen_after-Remembers :
    (ttl : ℕ) (n : String) (until : ℕ) (seen : List Seen) (os : List (String × ℕ))
    → All (λ o. o.1 < until) os
    → Remembers n until seen
    → Remembers n until (seen_after ttl seen os)
seen_after-Remembers ttl n until seen [] a r = r
seen_after-Remembers ttl n until seen ((m, now) ∷ os) a r =
    seen_after-Remembers ttl n until (observe ttl seen m now).0 os a.1
      (observe-Remembers ttl n until seen m now a.0 r)

accepted-Remembers :
    (ttl : ℕ) (n : String) (now : ℕ) (seen : List Seen)
    → (observe ttl seen n now).1 ≡ true
    → Remembers n (now + ttl) (observe ttl seen n now).0
unfolding observe find
accepted-Remembers ttl n now seen e = elim (Bool-cases (lives (find (for_nonce n) seen) now)) [
  | inl t ↦ absurd (cc (rw t at e))
  | inr t ↦ rw (t, (eq_iff n n).1 refl) (_, refl, omega arith)
]

-- While a nonce that the process accepted lasts, it is refused, whatever nonces are observed
-- meanwhile.
pub refused_while_fresh :
    (ttl : ℕ) (seen : List Seen) (n : String) (first again : ℕ) (between : List (String × ℕ))
    → (observe ttl seen n first).1 ≡ true
    → All (λ o. o.1 < first + ttl) between
    → again < first + ttl
    → (observe ttl (seen_after ttl (observe ttl seen n first).0 between) n again).1 ≡ false
unfolding observe
refused_while_fresh ttl seen n first again between e a h =
    let later = seen_after ttl (observe ttl seen n first).0 between in
    let kept =
      seen_after-Remembers ttl n (first + ttl) (observe ttl seen n first).0 between a
        (accepted-Remembers ttl n first seen e) in
    rw (remembered-lives n (first + ttl) again later h kept) refl
