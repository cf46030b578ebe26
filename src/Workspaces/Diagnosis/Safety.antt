-- ===== src/Workspaces/Diagnosis/Safety.antt =====
-- The table stays valid through a diagnosis, and through the watcher's rounds.
use Prim.Native.Nat.{ℕ, ◌<◌, ◌^◌}
use mathlib.Core.Bool.{false, not}
use mathlib.Core.Option.{Option, none, some}
use native.Mathlib.Omega.{arith}
use aglack.Prelude.Text.{Text}
use aglack.Prelude.Tests.{if◌then◌else◌}
use aglack.Prelude.Exec.{Result, good, bad, pure, ◌>>=◌, attempt, ignore, map_err}
use aglack.Prelude.Keeps.{Keeps->>=, Keeps-attempt, Keeps-ignore, Keeps-map_err, Keeps-if}
use aglack.Workspaces.Rows.{WorkspaceRecord}
use aglack.Workspaces.Reads.{find_by_workspace_id}
use aglack.Workspaces.Writes.{mark_failed_by_workspace_id, mark_ready_by_workspace_id}
use aglack.Workspaces.Writes.Validity.{
  find_by_workspace_id-keeps, mark_failed_by_workspace_id-keeps, mark_ready_by_workspace_id-keeps,
}
use aglack.Workspaces.Host.{
  CreateWorkspaceError, Host, inspects, stops, starts, on_store, call, probe,
}
use aglack.Workspaces.Resolve.{as_u16}
use aglack.Workspaces.Safety.{Safe, WorldIsValid, on_store-Safe, call-Safe, probe-Safe}
use aglack.Workspaces.Diagnosis.{
  DiagnosisTimeouts, DiagnosisSnapshot, is_unhealthy, untouched, snapshot_of, check_ports,
  check_both_services, snapshot, is_ok, wait_ports, heal, remark_ready, record_outcome, recheck,
  after_heal, diagnose_container, diagnose_named, diagnose_found, diagnose_workspace, other,
}

as_u16_fits : (n : ℕ) → as_u16 n < 2 ^ 16
as_u16_fits n = omega arith

module _ (h : Host) where
  open h use {State}

  check_ports-Safe :
      (p q : Option ℕ) (id : Text) (timeout : ℕ) → Safe (check_ports h p q id timeout)
  check_ports-Safe (some p) (some q) id timeout =
      Keeps->>= WorldIsValid (probe (h.check_wrapper (as_u16 p) timeout)) _
        (probe-Safe (h.check_wrapper (as_u16 p) timeout))
        λ b.
          Keeps->>= WorldIsValid (probe (h.check_desktop id (as_u16 q) timeout)) (λ d. pure (b, d))
            (probe-Safe (h.check_desktop id (as_u16 q) timeout)) (λ d w v. v)
  check_ports-Safe none q id timeout = λ w v. v
  check_ports-Safe (some p) none id timeout = λ w v. v

  snapshot-Safe :
      (id name : Text) (r : WorkspaceRecord) (timeout : ℕ) → Safe (snapshot h id name r timeout)
  unfolding snapshot check_both_services
  snapshot-Safe id name r timeout =
      Keeps->>= WorldIsValid (call (inspects name) (h.inspect name)) _
        (call-Safe (inspects name) (h.inspect name))
        λ c.
          Keeps->>= WorldIsValid
            (if c.running
              then check_ports h r.host_port r.desktop_port id timeout
              else pure (false, false))
            _
            (Keeps-if WorldIsValid c.running (check_ports h r.host_port r.desktop_port id timeout)
              (pure (false, false)) (check_ports-Safe r.host_port r.desktop_port id timeout)
              (λ w v. v))
            (λ both w v. v)

  wait_ports-Safe :
      (p q : Option ℕ) (id : Text) (t : DiagnosisTimeouts) → Safe (wait_ports h p q id t)
  wait_ports-Safe (some p) (some q) id t =
      let ww = h.wait_wrapper (as_u16 p) t.post_restart_wrapper in
      let wd = h.wait_desktop id (as_u16 q) t.post_restart_desktop in
      Keeps->>= WorldIsValid (attempt (probe ww)) _
        (Keeps-attempt WorldIsValid CreateWorkspaceError (probe ww) (probe-Safe ww))
        λ b.
          Keeps->>= WorldIsValid (attempt (probe wd)) (λ d. pure (is_ok h b, is_ok h d))
            (Keeps-attempt WorldIsValid CreateWorkspaceError (probe wd) (probe-Safe wd))
            (λ d w v. v)
  wait_ports-Safe none q id t = λ w v. v
  wait_ports-Safe (some p) none id t = λ w v. v

  heal-Safe : (name : Text) → Safe (heal h name)
  unfolding heal
  heal-Safe name =
      Keeps->>= WorldIsValid (call (stops name) (h.stop name))
        (λ _. call (starts name) (h.start_existing name)) (call-Safe (stops name) (h.stop name))
        (λ _. call-Safe (starts name) (h.start_existing name))

  remark_ready-Safe : (p q r : Option ℕ) (id name : Text) → Safe (remark_ready h p q r id name)
  remark_ready-Safe (some p) (some q) (some r) id name =
      let mark = mark_ready_by_workspace_id id name (as_u16 p) (as_u16 q) (as_u16 r) in
      Keeps-ignore WorldIsValid CreateWorkspaceError (on_store mark) (
        on_store-Safe mark (
          mark_ready_by_workspace_id-keeps name (as_u16 p) (as_u16 q) (as_u16 r) (as_u16_fits p)
            (as_u16_fits q) (as_u16_fits r) id))
  remark_ready-Safe none q r id name = λ w v. v
  remark_ready-Safe (some p) none r id name = λ w v. v
  remark_ready-Safe (some p) (some q) none id name = λ w v. v

  record_outcome-Safe :
      (id name : Text) (r : WorkspaceRecord) (after : DiagnosisSnapshot)
      → Safe (record_outcome h id name r after)
  unfolding record_outcome
  record_outcome-Safe id name r after =
      Keeps-if WorldIsValid (is_unhealthy after)
        (ignore (on_store (mark_failed_by_workspace_id id)))
        (remark_ready h r.host_port r.desktop_port r.browser_port id name)
        (Keeps-ignore WorldIsValid CreateWorkspaceError (on_store (mark_failed_by_workspace_id id))
          (on_store-Safe (mark_failed_by_workspace_id id) (mark_failed_by_workspace_id-keeps id)))
        (remark_ready-Safe r.host_port r.desktop_port r.browser_port id name)

  recheck-Safe :
      (id name : Text) (r : WorkspaceRecord) (t : DiagnosisTimeouts) (before : DiagnosisSnapshot)
      → Safe (recheck h id name r t before)
  unfolding recheck
  recheck-Safe id name r t before =
      Keeps->>= WorldIsValid (wait_ports h r.host_port r.desktop_port id t) _
        (wait_ports-Safe r.host_port r.desktop_port id t)
        λ both.
          Keeps->>= WorldIsValid (call (inspects name) (h.inspect name)) _
            (call-Safe (inspects name) (h.inspect name))
            λ c.
              Keeps->>= WorldIsValid (record_outcome h id name r (snapshot_of c both.0 both.1)) _
                (record_outcome-Safe id name r (snapshot_of c both.0 both.1)) (λ _ w v. v)

  after_heal-Safe :
      (id name : Text) (r : WorkspaceRecord) (t : DiagnosisTimeouts) (before : DiagnosisSnapshot)
      (healed : Result CreateWorkspaceError (Unit {0}))
      → Safe (after_heal h id name r t before healed)
  after_heal-Safe id name r t before (good done) = recheck-Safe id name r t before
  after_heal-Safe id name r t before (bad e) = λ w v. v

  diagnose_container-Safe :
      (id name : Text) (r : WorkspaceRecord) (t : DiagnosisTimeouts)
      → Safe (diagnose_container h id name r t)
  unfolding diagnose_container
  diagnose_container-Safe id name r t =
      Keeps->>= WorldIsValid (snapshot h id name r t.health_check) _
        (snapshot-Safe id name r t.health_check)
        λ before.
          Keeps-if WorldIsValid (not (is_unhealthy before))
            (pure (record { before = before; action = untouched; after = none }))
            (do healed ← attempt (heal h name); after_heal h id name r t before healed) (λ w v. v)
            (Keeps->>= WorldIsValid (attempt (heal h name)) (after_heal h id name r t before)
              (Keeps-attempt WorldIsValid CreateWorkspaceError (heal h name) (heal-Safe name))
              (after_heal-Safe id name r t before))

  diagnose_named-Safe :
      (id : Text) (r : WorkspaceRecord) (t : DiagnosisTimeouts) (name : Option Text)
      → Safe (diagnose_named h id t r name)
  diagnose_named-Safe id r t none = λ w v. v
  diagnose_named-Safe id r t (some name) =
      Keeps-map_err WorldIsValid other (diagnose_container h id name r t)
        (diagnose_container-Safe id name r t)

  diagnose_found-Safe :
      (id : Text) (t : DiagnosisTimeouts) (found : Option WorkspaceRecord)
      → Safe (diagnose_found h id t found)
  diagnose_found-Safe id t none = λ w v. v
  diagnose_found-Safe id t (some r) = diagnose_named-Safe id r t r.container_name

  pub diagnose_workspace-Safe :
      (id : Text) (t : DiagnosisTimeouts) → Safe (diagnose_workspace h id t)
  unfolding diagnose_workspace
  diagnose_workspace-Safe id t =
      Keeps->>= WorldIsValid (map_err other (on_store (find_by_workspace_id id)))
        (diagnose_found h id t)
        (Keeps-map_err WorldIsValid other (on_store (find_by_workspace_id id))
          (on_store-Safe (find_by_workspace_id id) (find_by_workspace_id-keeps id)))
        (diagnose_found-Safe id t)
