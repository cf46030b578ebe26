-- ===== src/Workspaces/Listing/Examples.antt =====
-- A page of one user's workspaces.
use mathlib.Core.Bool.{true}
use mathlib.Core.Option.{none, some}
use mathlib.Core.List.{[], ◌∷◌}
use aglack.Prelude.Text.{codes}
use aglack.Workspaces.Host.{World}
use aglack.Workspaces.Fake.{FakeLauncher, key, id, ready_row, created}
use aglack.Workspaces.Listing.{ListWorkspacesQuery, ListWorkspacesData, pos}

abbrev two_owners : World FakeLauncher
two_owners = record created {
  db = record {
    rows =
        record ready_row { owner_google_sub = some (codes "bob") }
        ∷ record ready_row {
          idempotency_key = codes "other";
          workspace_id = codes "w2";
          owner_google_sub = some (codes "eve");
        }
        ∷ [];
    faults = [];
    now = 1700000000;
  };
}

abbrev asked : ListWorkspacesQuery
asked = record { limit = some (pos 500); offset = none; health = none }

abbrev page : ListWorkspacesData
page = record {
  workspaces =
      record {
        workspace_id = id;
        name = key;
        status = "ready";
        healthy = some true;
        host_port = some 40001;
        desktop_port = some 50001;
        created_at = codes "1700000000";
      }
      ∷ [];
  limit = 200;
  offset = 0;
}
