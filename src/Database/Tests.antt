-- ===== src/Database/Tests.antt =====
-- Runs of the choice between the database and the memory on concrete environments.
use big_project.Common.{ℕ, ◌+◌, String, ◌≡◌, refl, true, false, none, some}
use big_project.Common.Result.{ok, throw, service_unavailable}
use big_project.Database.{
  Environment, Outcome, returns, breaks, Connection, database_fallback_enabled, try_database,
}
use big_project.Database.Fallback.{try_database_in_production}

abbrev live : Environment
live = record {
  disable_database = false;
  has_database_url = true;
  production = true;
  allow_demo_auth = some "1";
}

abbrev local : Environment
local = record {
  disable_database = false;
  has_database_url = true;
  production = false;
  allow_demo_auth = some "0";
}

-- A database of one number, which each operation increments before it breaks.
abbrev fresh : Connection ℕ
fresh = record { database_unavailable = false; db = 5 }

abbrev down : Connection ℕ
down = record { database_unavailable = true; db = 5 }

abbrev broken : ℕ → ℕ × Outcome String
broken n = (n + 1, breaks)

abbrev working : ℕ → ℕ × Outcome String
working n = (n + 1, returns "row")

breaks_live : try_database live fresh broken ≡ (record fresh { db = 6 }, throw service_unavailable)
unfolding try_database
breaks_live = refl

breaks_local : try_database local fresh broken ≡ (record down { db = 6 }, ok none)
unfolding try_database
breaks_local = refl

try_database_in_production_example :
    try_database live down working ≡ (record down { db = 6 }, ok (some "row"))
try_database_in_production_example = try_database_in_production live down working refl refl refl

may_fall_back : database_fallback_enabled local ≡ true
unfolding database_fallback_enabled
may_fall_back = refl
