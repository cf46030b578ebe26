-- ===== src/Workspaces/Fake.antt =====
-- A host like the `FakeLauncher` of workspaces/container/fake_launcher.rs, and tables for examples.
use Prim.Native.Nat.{ℕ, zero, suc}
use mathlib.Core.Bool.{Bool, true, false}
use mathlib.Core.Option.{none}
use mathlib.Core.List.{[]}
use aglack.Prelude.Text.{Text, codes}
use aglack.Prelude.Exec.{ok, err, Exec}
use aglack.Workspaces.Host.{Host, World, CreateWorkspaceError, container, LaunchedContainer}
use mathlib.Core.Option.{some}
use mathlib.Core.List.{◌∷◌}
use aglack.Workspaces.Rows.{Row}
use aglack.Workspaces.Host.{launches}
use aglack.Workspaces.Host.{sleeps}

pub record FakeLauncher : Type 0 where
  pub call_count : ℕ
  pub fail_next_n_calls : ℕ
  pub running : Bool
  pub daemon : Bool

abbrev pub launched : Text → LaunchedContainer
launched id = record {
  container_name = id;
  wrapper_port = 40001;
  desktop_port = 50001;
  browser_port = 60001;
}

abbrev pub launch_after :
    Text → ℕ → FakeLauncher → Exec FakeLauncher CreateWorkspaceError LaunchedContainer
launch_after id zero called s = ok (launched id) called
launch_after id (suc n) called s =
    err (container (codes "simulated launch failure")) (record called { fail_next_n_calls = n })

abbrev pub fake : Host
fake = record {
  State = FakeLauncher;
  launch =
      λ id s. launch_after id s.fail_next_n_calls (record s { call_count = suc s.call_count }) s;
  remove = λ name s. ok tt s;
  inspect = λ name s. ok (record { running = s.running; exit_code = none; oom_killed = false }) s;
  stop = λ name s. ok tt (record s { running = false });
  start_existing = λ name s. ok tt (record s { running = true });
  daemon_reachable = λ s. ok s.daemon s;
  check_wrapper = λ port timeout s. ok s.running s;
  check_desktop = λ id port timeout s. ok s.running s;
  wait_wrapper = λ port timeout s. ok tt s;
  wait_desktop = λ id port timeout s. ok tt s;
}

abbrev pub key : Text
key = codes "demo"

abbrev pub id : Text
id = codes "w1"

abbrev pub empty : World FakeLauncher
empty = record {
  db = record { rows = []; faults = []; now = 1700000000 };
  host = record { call_count = 0; fail_next_n_calls = 1; running = true; daemon = true };
  log = [];
}

-- The table after a creation whose first launch failed.
abbrev pub ready_row : Row
ready_row = record {
  idempotency_key = key;
  workspace_id = id;
  status = "ready";
  container_name = some id;
  created_at = codes "1700000000";
  host_port = some 40001;
  desktop_port = some 50001;
  browser_port = some 60001;
  owner_google_sub = none;
}

abbrev pub created : World FakeLauncher
created = record {
  db = record { rows = ready_row ∷ []; faults = []; now = 1700000000 };
  host = record { call_count = 2; fail_next_n_calls = 0; running = true; daemon = true };
  log = launches id ∷ sleeps 200 ∷ launches id ∷ [];
}

-- A creation that another request has begun.
abbrev pub creating_row : Row
creating_row = record {
  idempotency_key = key;
  workspace_id = id;
  status = "creating";
  container_name = none;
  created_at = codes "1700000000";
  host_port = none;
  desktop_port = none;
  browser_port = none;
  owner_google_sub = none;
}

abbrev pub begun : World FakeLauncher
begun = record {
  db = record { rows = creating_row ∷ []; faults = []; now = 1700000000 };
  host = record { call_count = 0; fail_next_n_calls = 3; running = true; daemon = true };
  log = [];
}
