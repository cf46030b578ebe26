-- ===== src/Workspaces/Creation/Examples.antt =====
-- Two users and one name.
use aglack.Workspaces.Lifecycle.{delay_for}
use aglack.Prelude.Decimal.{to_text}
use aglack.Workspaces.Writes.{set_owner}
use aglack.Workspaces.Writes.{mark_ready}
use aglack.Workspaces.Lifecycle.{launch_and_record}
use aglack.Workspaces.Writes.{begin_creation}
use aglack.Workspaces.Lifecycle.{create_workspace}
use aglack.Workspaces.Db.{query}
use aglack.Workspaces.Reads.{find}
use mathlib.Core.Path.{◌≡◌, refl}
use mathlib.Core.Option.{none, some}
use mathlib.Core.List.{[], ◌∷◌}
use aglack.Prelude.Text.{codes}
use aglack.Prelude.Exec.{ok}
use aglack.Prelude.Lists.{find?}
use aglack.Workspaces.Host.{World}
use aglack.Workspaces.Fake.{FakeLauncher, fake, key, id, empty, ready_row, created}
use aglack.Workspaces.Creation.{CreateWorkspaceData, create_workspace_route_inner}
use aglack.Workspaces.Creation.Ownership.{is_foreign, create_workspace_route-owned}
use aglack.Prelude.Text.{◌==◌}
use aglack.Prelude.Strings.{trim}

abbrev made : CreateWorkspaceData
made = record { workspace_id = id; status = "ready"; container_name = some id }

abbrev of_bob : World FakeLauncher
of_bob = record created {
  db = record {
    rows = record ready_row { owner_google_sub = some (codes "bob") } ∷ [];
    faults = [];
    now = 1700000000;
  };
}

bob_creates : create_workspace_route_inner fake key id (some (codes "bob")) empty ≡ ok made of_bob
unfolding create_workspace_route_inner trim find query create_workspace begin_creation
    launch_and_record mark_ready ◌==◌ set_owner to_text delay_for
bob_creates = refl

create_workspace_route-owned_example : find? (is_foreign id (codes "bob")) of_bob.db.rows ≡ none
create_workspace_route-owned_example =
    create_workspace_route-owned fake key id (codes "bob") empty of_bob made bob_creates
