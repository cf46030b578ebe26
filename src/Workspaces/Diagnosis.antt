-- ===== src/Workspaces/Diagnosis.antt =====
-- workspaces/diagnosis.rs: look at a workspace's container, and stop and start it where it is
-- unhealthy. `tokio::join!` of two checks is one after the other here.
pub mod Safety
pub mod Laws
use Prim.Native.Nat.{ℕ}
use mathlib.Core.Bool.{Bool, true, false, not, ◌||◌}
use mathlib.Core.Option.{Option, none, some}
use aglack.Prelude.Tests.{if◌then◌else◌}
use aglack.Prelude.Text.{Text}
use aglack.Prelude.Exec.{
  Result, good, bad, Exec, pure, throw, ◌>>=◌, ◌>>◌, attempt, ignore, map_err,
}
use aglack.Workspaces.Rows.{WorkspaceRecord}
use aglack.Workspaces.Reads.{find_by_workspace_id}
use aglack.Workspaces.Writes.{mark_ready_by_workspace_id, mark_failed_by_workspace_id}
use aglack.Workspaces.Host.{
  CreateWorkspaceError, Host, ContainerState, World, WorldM, inspects, stops, starts, on_store,
  call, probe,
}
use aglack.Workspaces.Resolve.{as_u16}

-- In milliseconds.
pub record DiagnosisTimeouts : Type 0 where
  pub health_check : ℕ
  pub post_restart_wrapper : ℕ
  pub post_restart_desktop : ℕ

abbrev pub production : DiagnosisTimeouts
production = record {
  health_check = 2000;
  post_restart_wrapper = 30000;
  post_restart_desktop = 15000;
}

pub record DiagnosisSnapshot : Type 0 where
  pub container_running : Bool
  pub container_exit_code : Option ℕ
  pub container_oom_killed : Bool
  pub wrapper_healthy : Bool
  pub desktop_healthy : Bool

abbrev pub is_unhealthy : DiagnosisSnapshot → Bool
is_unhealthy s = not s.container_running || not s.wrapper_healthy || not s.desktop_healthy

pub data DiagnosisAction : Type 0 where
  untouched restarted restart_failed : DiagnosisAction

pub record DiagnosisReport : Type 0 where
  pub before : DiagnosisSnapshot
  pub action : DiagnosisAction
  pub after : Option DiagnosisSnapshot

pub data DiagnoseWorkspaceError : Type 0 where
  not_found no_container : DiagnoseWorkspaceError
  other : CreateWorkspaceError → DiagnoseWorkspaceError

abbrev pub DiagnoseM : Type 0 → Type 0 → Type 0
DiagnoseM S A = Exec (World S) DiagnoseWorkspaceError A

abbrev snapshot_of : ContainerState → Bool → Bool → DiagnosisSnapshot
snapshot_of c wrapper desktop = record {
  container_running = c.running;
  container_exit_code = c.exit_code;
  container_oom_killed = c.oom_killed;
  wrapper_healthy = wrapper;
  desktop_healthy = desktop;
}

module _ (h : Host) where
  open h use {
    State, inspect, stop, start_existing, check_wrapper, check_desktop, wait_wrapper, wait_desktop,
  }

  abbrev check_ports : Option ℕ → Option ℕ → Text → ℕ → WorldM State (Bool × Bool)
  check_ports (some wrapper) (some desktop) id timeout = do
    w ← probe (check_wrapper (as_u16 wrapper) timeout)
    d ← probe (check_desktop id (as_u16 desktop) timeout)
    pure (w, d)
  check_ports _ _ id timeout = pure (false, false)

  check_both_services : Text → WorkspaceRecord → ℕ → WorldM State (Bool × Bool)
  check_both_services id r timeout = check_ports r.host_port r.desktop_port id timeout

  snapshot : Text → Text → WorkspaceRecord → ℕ → WorldM State DiagnosisSnapshot
  snapshot id name r timeout = do
    c ← call (inspects name) (inspect name)
    let unseen : WorldM State (Bool × Bool) = pure (false, false)
    (w, d) ← if c.running then check_both_services id r timeout else unseen
    pure (snapshot_of c w d)

  -- `.is_ok()` of a wait.
  abbrev is_ok : Result CreateWorkspaceError (Unit {0}) → Bool
  is_ok (good done) = true
  is_ok (bad e) = false

  abbrev wait_ports : Option ℕ → Option ℕ → Text → DiagnosisTimeouts → WorldM State (Bool × Bool)
  wait_ports (some wrapper) (some desktop) id t = do
    w ← attempt (probe (wait_wrapper (as_u16 wrapper) t.post_restart_wrapper))
    d ← attempt (probe (wait_desktop id (as_u16 desktop) t.post_restart_desktop))
    pure (is_ok w, is_ok d)
  wait_ports _ _ id t = pure (false, false)

  heal : Text → WorldM State (Unit {0})
  heal name = do call (stops name) (stop name); call (starts name) (start_existing name)

  -- The best-effort store update at the end.
  abbrev remark_ready : Option ℕ → Option ℕ → Option ℕ → Text → Text → WorldM State (Unit {0})
  remark_ready (some wrapper) (some desktop) (some browser) id name = ignore (
      on_store
        (mark_ready_by_workspace_id id name (as_u16 wrapper) (as_u16 desktop) (as_u16 browser)))
  remark_ready _ _ _ id name = pure tt

  record_outcome : Text → Text → WorkspaceRecord → DiagnosisSnapshot → WorldM State (Unit {0})
  record_outcome id name r after =
      if is_unhealthy after
      then ignore (on_store (mark_failed_by_workspace_id id))
      else remark_ready r.host_port r.desktop_port r.browser_port id name

  -- What follows a stop and start that went well.
  recheck :
      Text
      → Text
      → WorkspaceRecord
      → DiagnosisTimeouts
      → DiagnosisSnapshot
      → WorldM State DiagnosisReport
  unfolding record_outcome
  recheck id name r t before = do
    (w, d) ← wait_ports r.host_port r.desktop_port id t
    c ← call (inspects name) (inspect name)
    let after = snapshot_of c w d
    record_outcome id name r after
    pure (record { before = before; action = restarted; after = some after })

  abbrev after_heal :
      Text
      → Text
      → WorkspaceRecord
      → DiagnosisTimeouts
      → DiagnosisSnapshot
      → Result CreateWorkspaceError (Unit {0})
      → WorldM State DiagnosisReport
  after_heal id name r t before (good done) = recheck id name r t before
  after_heal id name r t before (bad e) =
      pure (record { before = before; action = restart_failed; after = none })

  diagnose_container :
      Text → Text → WorkspaceRecord → DiagnosisTimeouts → WorldM State DiagnosisReport
  unfolding snapshot heal recheck check_both_services
  diagnose_container id name r t = do
    before ← snapshot id name r t.health_check
    if not (is_unhealthy before)
        then pure (record { before = before; action = untouched; after = none })
        else do healed ← attempt (heal name); after_heal id name r t before healed

  -- The `let Some(container_name) … else`.
  abbrev diagnose_named :
      Text → DiagnosisTimeouts → WorkspaceRecord → Option Text → DiagnoseM State DiagnosisReport
  diagnose_named id t r none = throw no_container
  diagnose_named id t r (some name) = map_err other (diagnose_container id name r t)

  abbrev diagnose_found :
      Text → DiagnosisTimeouts → Option WorkspaceRecord → DiagnoseM State DiagnosisReport
  diagnose_found id t none = throw not_found
  diagnose_found id t (some r) = diagnose_named id t r r.container_name

  unfoldable pub diagnose_workspace : Text → DiagnosisTimeouts → DiagnoseM State DiagnosisReport
  unfolding diagnose_container
  diagnose_workspace id t = do
    found ← map_err other (on_store (find_by_workspace_id id))
    diagnose_found id t found
