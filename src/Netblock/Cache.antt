-- ===== src/Netblock/Cache.antt =====
-- internal/netblock/netblock.go, `snapshot` and `invalidate`: the cached table of one registry, with the
-- calls of several threads interleaved. A generation is a natural number that does not wrap.
use nebula_control_plane.Prelude.{
  ℕ, suc, ◌≤◌, ◌≡◌, refl, ◌∙◌, sym, String, List, [], ◌∷◌, ◌++◌, Option, none, some, arith,
  if◌then◌else◌, ◌==◌, All, All-map, All-middle, Bool-cases, Option-cases, inl, inr,
}
use nebula_control_plane.Netblock.Types.{Netblock}
use nebula_control_plane.Netblock.Resolve.{resolve_full, resolve_cidr, netblock_cidrs, carves}
use nebula_control_plane.Netblock.Parsed.{
  parsed, resolve_full-parsed, resolve_cidr-parsed, carves-parsed, netblock_cidrs-parsed,
}

-- `Registry.cache` and `Registry.gen`.
pub record Cached : Type 0 where
  pub cache : Option (List Netblock)
  pub gen : ℕ

-- `invalidate`.
abbrev pub invalidate : Cached → Cached
invalidate reg = record { cache = none; gen = suc reg.gen }

-- The end of `snapshot`: a table is stored only in the generation in which its reading began.
abbrev pub publish : ℕ → List Netblock → Cached → Cached
publish start rows reg = record {
  cache = if reg.gen == start then some rows else reg.cache;
  gen = reg.gen;
}

-- `snapshot` without an interruption, where the database answers.
abbrev pub hit_or : List Netblock → Option (List Netblock) → List Netblock
hit_or rows none = parsed rows
hit_or rows (some c) = c

abbrev pub snapshot : Cached → List Netblock → List Netblock
snapshot reg rows = hit_or rows reg.cache

-- A call of `snapshot` under way: the generation that it saw, and the table once it has read it.
pub record Flight : Type 0 where
  pub start : ℕ
  pub read_rows : Option (List Netblock)

-- The table, the registry, how many changes stand between their write and their `invalidate`, and the
-- calls of `snapshot` under way.
pub record World : Type 0 where
  pub rows : List Netblock
  pub reg : Cached
  pub pending : ℕ
  pub flights : List Flight

pub data Step (w : World) : World → Type 0 where
  written : (rows : List Netblock) → Step w (record w { rows = rows; pending = suc w.pending })
  invalidated :
      (left : ℕ)
      → w.pending ≡ suc left
      → Step w (record w { reg = invalidate w.reg; pending = left })
  begun :
      w.reg.cache ≡ none
      → Step w (record w { flights = record { start = w.reg.gen; read_rows = none } ∷ w.flights })
  fetched :
      (before after : List Flight) (f : Flight)
      → w.flights ≡ before ++ (f ∷ after)
      → Step w
          (record w { flights = record f { read_rows = some (parsed w.rows) } ∷ (before ++ after) })
  published :
      (before after : List Flight) (f : Flight) (c : List Netblock)
      → w.flights ≡ before ++ (f ∷ after)
      → f.read_rows ≡ some c
      → Step w (record w { reg = publish f.start c w.reg; flights = before ++ after })
  failed :
      (before after : List Flight) (f : Flight)
      → w.flights ≡ before ++ (f ∷ after)
      → Step w (record w { flights = before ++ after })

pub data Reached : World → Type 0 where
  fresh :
      (rows : List Netblock)
      → Reached (record {
        rows = rows;
        reg = record { cache = none; gen = 0 };
        pending = 0;
        flights = [];
      })
  moved : {w w' : World} → Reached w → Step w w' → Reached w'

-- A call began in no later generation, and one of this generation has read the table as it is.
abbrev Current : List Netblock → ℕ → ℕ → Flight → Type 0
Current rows gen pending f =
    (f.start ≤ gen)
    × (pending ≡ 0 → f.start ≡ gen → (c : List Netblock) → f.read_rows ≡ some c → c ≡ parsed rows)

record IsCoherent (w : World) : Type 0 where
  stored : w.pending ≡ 0 → (c : List Netblock) → w.reg.cache ≡ some c → c ≡ parsed w.rows
  current : All (Current w.rows w.reg.gen w.pending) w.flights

Step-IsCoherent : (w w' : World) → Step w w' → IsCoherent w → IsCoherent w'
Step-IsCoherent w _ (written rows) h = record {
  stored = λ p. absurd (omega (arith, p));
  current = All-map (λ f k. (k.0, λ p. absurd (omega (arith, p)))) w.flights h.current;
}
Step-IsCoherent w _ (invalidated left e) h = record {
  stored = λ p c k. absurd (cc k);
  current =
      All-map (λ f k. (omega (arith, k.0), λ p s. absurd (omega (arith, k.0, s)))) w.flights
        h.current;
}
Step-IsCoherent w _ (begun e) h = record {
  stored = h.stored;
  current = ((omega arith, λ p s c k. absurd (cc k)), h.current);
}
Step-IsCoherent w _ (fetched before after f e) h =
    let (mine, rest) =
      All-middle (Current w.rows w.reg.gen w.pending) before f after (rw e at h.current) in
    record { stored = h.stored; current = ((mine.0, λ p s c k. cc k), rest) }
Step-IsCoherent w _ (published before after f c e k) h =
    let (mine, rest) =
      All-middle (Current w.rows w.reg.gen w.pending) before f after (rw e at h.current) in
    record {
      stored = λ p d q. elim (Bool-cases (w.reg.gen == f.start)) [
        | inr t ↦ h.stored p d (rw t at q)
        | inl t ↦
            let same : f.start ≡ w.reg.gen = ground arith in
            let own : c ≡ d = cc (rw t at q) in sym own ∙ mine.1 p same c k
      ];
      current = rest;
    }
Step-IsCoherent w _ (failed before after f e) h = record {
  stored = h.stored;
  current = (All-middle (Current w.rows w.reg.gen w.pending) before f after (rw e at h.current)).1;
}

Reached-IsCoherent : (w : World) → Reached w → IsCoherent w
Reached-IsCoherent _ (fresh rows) = record { stored = λ p c k. absurd (cc k); current = tt }
Reached-IsCoherent _ (moved {w} {w'} r s) = Step-IsCoherent w w' s (Reached-IsCoherent w r)

snapshot-parsed : (w : World) → Reached w → w.pending ≡ 0 → snapshot w.reg w.rows ≡ parsed w.rows
snapshot-parsed w r p = elim (Option-cases w.reg.cache) [
  | inl e ↦ rw e refl
  | inr (c, e) ↦ rw e ((Reached-IsCoherent w r).stored p c e)
]

-- In one registry, with its writes, invalidations and snapshots interleaved in any way: whenever no
-- change stands between its write and its invalidation, names resolve, with their rows and to their
-- ranges, and blocks and carves are listed from the snapshot as they are from the table itself.
pub cache_coherent :
    (w : World) (name : String)
    → Reached w
    → w.pending ≡ 0
    → (resolve_full (snapshot w.reg w.rows) name ≡ resolve_full w.rows name)
      × (resolve_cidr (snapshot w.reg w.rows) name ≡ resolve_cidr w.rows name)
      × (carves (snapshot w.reg w.rows) ≡ carves w.rows)
      × (netblock_cidrs (snapshot w.reg w.rows) ≡ netblock_cidrs w.rows)
cache_coherent w name r p = rw (snapshot-parsed w r p) (
  resolve_full-parsed w.rows name,
  resolve_cidr-parsed w.rows name,
  carves-parsed w.rows,
  netblock_cidrs-parsed w.rows,
)
