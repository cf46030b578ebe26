-- ===== src/Workspaces/WrapperProxy/Targets.antt =====
-- Where the requests of the wrapper's routes go.
use mathlib.Core.Path.{◌≡◌}
use mathlib.Core.Bool.{Bool}
use mathlib.Core.Option.{Option, some}
use mathlib.Core.List.{List}
use aglack.Prelude.Text.{Text}
use aglack.Prelude.Exec.{Run, ok}
use aglack.Response.{Response}
use aglack.Workspaces.Db.{Db}
use aglack.Workspaces.Resolve.{ReadyWorkspacePorts, resolve_ready_workspace}
use aglack.Proxy.{Request, Upstream, UpstreamResponse}
use aglack.Proxy.Filtering.{Relayed}
use aglack.Workspaces.WrapperProxy.{rewritten_path, workspace_target_addr}

-- The workspace is ready, and the request was relayed by its own wrapper, in the namespace.
pub record InNamespace (u : Upstream) (host id namespace path : Text) (req : Request) (db db' : Db)
    (s s' : u.State) (answer : UpstreamResponse) : Type 0 where
  pub ports : ReadyWorkspacePorts
  pub ready :
      ◌≡◌ {A = Run Db Response ReadyWorkspacePorts} (resolve_ready_workspace id db) (ok ports db')
  pub passed :
      Relayed u
        (workspace_target_addr host ports.wrapper_port)
        req
        (some (rewritten_path namespace path req))
        s
        s'
        answer
