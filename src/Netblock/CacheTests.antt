-- ===== src/Netblock/CacheTests.antt =====
-- A snapshot that a change overtakes.
use nebula_control_plane.Prelude.{◌≡◌, refl, false, [], ◌∷◌, none}
use nebula_control_plane.Netblock.Types.{Netblock, named}
use nebula_control_plane.Netblock.Resolve.{resolve_full, resolve_cidr, netblock_cidrs, carves}
use nebula_control_plane.Netblock.Parsed.{parsed}
use nebula_control_plane.Netblock.Cache.{
  snapshot, World, Reached, fresh, moved, written, invalidated, begun, fetched, published,
  cache_coherent,
}

abbrev web : Netblock
web = record {
  id = 1;
  name = "web";
  cidr = record { addr = 170525184; bits = 29 };
  kind = named;
  description = "";
  is_protected = false;
  created_at = 100;
  created_by = "admin";
}

-- The table had no block when the snapshot read it, and has one since.
abbrev overtaken : World
overtaken = record {
  rows = web ∷ [];
  reg = record { cache = none; gen = 1 };
  pending = 0;
  flights = [];
}

overtaken-Reached : Reached overtaken
overtaken-Reached =
    moved
      (moved
        (moved (moved (moved (fresh []) (begun refl)) (fetched [] [] _ refl)) (written (web ∷ [])))
        (invalidated 0 refl))
      (published [] [] _ (parsed []) refl refl)

cache_coherent_example :
    (resolve_full (snapshot overtaken.reg overtaken.rows) "web" ≡ resolve_full overtaken.rows "web")
    × (resolve_cidr (snapshot overtaken.reg overtaken.rows) "web"
        ≡ resolve_cidr overtaken.rows "web")
    × (carves (snapshot overtaken.reg overtaken.rows) ≡ carves overtaken.rows)
    × (netblock_cidrs (snapshot overtaken.reg overtaken.rows) ≡ netblock_cidrs overtaken.rows)
cache_coherent_example = cache_coherent overtaken "web" overtaken-Reached refl
