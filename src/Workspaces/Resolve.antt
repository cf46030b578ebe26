-- ===== src/Workspaces/Resolve.antt =====
-- workspaces/resolve.rs: from a workspace id to the ports to forward to.
pub mod Laws
use Prim.Native.Nat.{ℕ, ◌%◌, ◌^◌}
use mathlib.Core.Bool.{not}
use mathlib.Core.Option.{Option, none, some}
use aglack.Prelude.Tests.{if◌then◌else◌}
use aglack.Prelude.Text.{Text}
use aglack.Prelude.Exec.{Result, good, bad, Exec, pure, throw, ◌>>=◌, attempt}
use aglack.Response.{Response, error, not_found, conflict, internal_server_error}
use aglack.Workspaces.Rows.{WorkspaceRecord, ready, status_eq}
use aglack.Workspaces.Db.{SqlxError, Db}
use aglack.Workspaces.Reads.{find_by_workspace_id}

pub record ReadyWorkspacePorts : Type 0 where
  pub wrapper_port : ℕ
  pub desktop_port : ℕ
  pub browser_port : ℕ

-- `i64 as u16`.
abbrev pub as_u16 : ℕ → ℕ
as_u16 n = n % 2 ^ 16

-- The `let … else` on the three ports.
ports_of : Option ℕ → Option ℕ → Option ℕ → Exec Db Response ReadyWorkspacePorts
ports_of (some wrapper) (some desktop) (some browser) = pure (record {
  wrapper_port = as_u16 wrapper;
  desktop_port = as_u16 desktop;
  browser_port = as_u16 browser;
})
ports_of _ _ _ = throw (error internal_server_error "workspace_port_missing")

ports_of_record : Result SqlxError (Option WorkspaceRecord) → Exec Db Response ReadyWorkspacePorts
ports_of_record (good none) = throw (error not_found "workspace_not_found")
ports_of_record (bad e) = throw (error internal_server_error "workspace_lookup_failed")
ports_of_record (good (some record')) =
    if not (status_eq record'.status ready)
    then throw (error conflict "workspace_not_ready")
    else ports_of record'.host_port record'.desktop_port record'.browser_port

unfoldable pub resolve_ready_workspace : Text → Exec Db Response ReadyWorkspacePorts
unfolding ports_of ports_of_record
resolve_ready_workspace id = do found ← attempt (find_by_workspace_id id); ports_of_record found

exists_in : Result SqlxError (Option WorkspaceRecord) → Exec Db Response (Unit {0})
exists_in (good (some record')) = pure tt
exists_in (good none) = throw (error not_found "workspace_not_found")
exists_in (bad e) = throw (error internal_server_error "workspace_lookup_failed")

unfoldable pub resolve_existing_workspace : Text → Exec Db Response (Unit {0})
unfolding exists_in
resolve_existing_workspace id = do found ← attempt (find_by_workspace_id id); exists_in found
