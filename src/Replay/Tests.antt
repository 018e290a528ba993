-- ===== src/Replay/Tests.antt =====
-- Two processes that share the table of nonces.
use nebula_control_plane.Prelude.{
  ℕ, ◌≡◌, ◌≢◌, refl, true, String, [], ◌∷◌, none, some, arith, keep, count,
}
use nebula_control_plane.Replay.{observe_sql}
use nebula_control_plane.Replay.SingleUse.{Call, observes, table_after, single_use}

abbrev call : String → ℕ → Call
call n now = record { nonce = n; now = now; last_gc = none; inserts = true; sweeps = true }

accepted : (observes 60 [] (call "n" 100)).1 ≡ some true
unfolding observe_sql keep count
accepted = refl

single_use_example :
    (observes 60
      (table_after 60 (observes 60 [] (call "n" 100)).0 (call "m" 120 ∷ []))
      (call "n" 160)).1
    ≢ some true
single_use_example =
    single_use 60 [] (call "n" 100) (call "m" 120 ∷ []) (call "n" 160) accepted (omega arith, tt)
      (omega arith) refl
