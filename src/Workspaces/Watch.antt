-- ===== src/Workspaces/Watch.antt =====
-- workspaces/daemon_watch.rs: heal the ready workspaces when the Docker daemon is back.
pub mod Safety
pub mod Laws
use mathlib.Core.Bool.{Bool, false}
use mathlib.Core.Option.{Option, some}
use mathlib.Core.List.{List, [], ◌∷◌}
use Prim.Native.Nat.{ℕ, zero, suc}
use aglack.Prelude.Tests.{if◌then◌else◌}
use aglack.Prelude.Exec.{good, bad, pure, ◌>>=◌, ◌>>◌, attempt, ignore}
use aglack.Workspaces.Rows.{WorkspaceRecord}
use aglack.Workspaces.Reads.{list_ready_with_container}
use aglack.Workspaces.Host.{Host, WorldM, on_store, probe, sleep}
use aglack.Workspaces.Diagnosis.{production, diagnose_workspace}
use aglack.Prelude.Exec.{Result}
use aglack.Workspaces.Host.{CreateWorkspaceError}

module _ (h : Host) where
  open h use {State, daemon_reachable}

  -- The loop over the ready rows: a diagnosis that fails is logged and passed over.
  heal_each : List WorkspaceRecord → WorldM State (Unit {0})
  heal_each [] = pure tt
  heal_each (r ∷ rs) = do ignore (diagnose_workspace h r.workspace_id production); heal_each rs

  abbrev heal_listed : Result CreateWorkspaceError (List WorkspaceRecord) → WorldM State (Unit {0})
  heal_listed (good rows) = heal_each rows
  heal_listed (bad e) = pure tt

  unfoldable pub heal_all_ready_workspaces : WorldM State (Unit {0})
  unfolding heal_each
  heal_all_ready_workspaces = do
    listed ← attempt (on_store list_ready_with_container)
    heal_listed listed

  -- `matches!(last_reachable, Some(false)) && reachable`
  abbrev pub recovered : Option Bool → Bool → Bool
  recovered (some false) reachable = reachable
  recovered _ reachable = false

  -- One round of the `loop` of `run`; the result is the new `last_reachable`.
  unfoldable pub poll : ℕ → Option Bool → WorldM State (Option Bool)
  poll interval last_reachable = do
    reachable ← probe daemon_reachable
    let nothing : WorldM State (Unit {0}) = pure tt
    if recovered last_reachable reachable then heal_all_ready_workspaces else nothing
    sleep interval
    pure (some reachable)

  -- `run` never ends; this is its first `rounds` rounds.
  unfoldable pub run : ℕ → ℕ → Option Bool → WorldM State (Option Bool)
  run interval zero last_reachable = pure last_reachable
  run interval (suc rounds) last_reachable = do
    seen ← poll interval last_reachable
    run interval rounds seen
