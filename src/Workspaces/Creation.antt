-- ===== src/Workspaces/Creation.antt =====
-- workspaces/route/create.rs: `POST /workspaces`. The delivery of the integrations token, which runs
-- after a creation that succeeded and whose failure changes nothing here, is left out.
pub mod Ownership
pub mod Examples
use mathlib.Core.Bool.{Bool, true, false}
use mathlib.Core.Option
use mathlib.Core.Option.{Option, none, some}
use mathlib.Core.List.{List, [], ◌∷◌}
use Prim.Native.String.{String}
use aglack.Prelude.Tests.{if◌then◌else◌}
use aglack.Prelude.Text.{Text}
use aglack.Prelude.Strings.{trim}
use aglack.Prelude.Exec.{Result, good, bad, Exec, pure, throw, ◌>>=◌, ◌>>◌, attempt}
use aglack.Response.{Response, error, bad_request, conflict, internal_server_error, bad_gateway}
use aglack.Workspaces.Rows.{WorkspaceRecord, ready, as_db_str, status_eq}
use aglack.Workspaces.Db.{SqlxError}
use aglack.Workspaces.Reads.{find}
use aglack.Workspaces.Writes.{set_owner}
use aglack.Workspaces.Host.{CreateWorkspaceError, store, container, Host, World, on_store}
use aglack.Workspaces.Lifecycle.{create_workspace}

pub record CreateWorkspaceData : Type 0 where
  pub workspace_id : Text
  pub status : String
  pub container_name : Option Text

abbrev pub RouteM : Type 0 → Type 0 → Type 0
RouteM S A = Exec (World S) Response A

abbrev is_empty : Text → Bool
is_empty [] = true
is_empty (c ∷ s) = false

-- The guard of the first `match` arm.
abbrev is_taken : Option WorkspaceRecord → Bool
is_taken none = false
is_taken (some existing) = status_eq existing.status ready

abbrev data_of : WorkspaceRecord → CreateWorkspaceData
data_of r = record {
  workspace_id = r.workspace_id;
  status = as_db_str r.status;
  container_name = r.container_name;
}

abbrev assigned : {S : Type 0} → Result CreateWorkspaceError (Unit {0}) → RouteM S (Unit {0})
assigned (good done) = pure tt
assigned (bad e) = throw (error internal_server_error "workspace_store_failed")

-- `user` is the authenticated user's id, if there is one.
abbrev assign : {S : Type 0} → Option Text → WorkspaceRecord → RouteM S (Unit {0})
assign none r = pure tt
assign (some sub) r = do owned ← attempt (on_store (set_owner r.workspace_id sub)); assigned owned

abbrev after_creation :
    {S : Type 0}
    → Option Text
    → Result CreateWorkspaceError WorkspaceRecord
    → RouteM S CreateWorkspaceData
after_creation user (good r) = do assign user r; pure (data_of r)
after_creation user (bad (store e)) = throw (error internal_server_error "workspace_store_failed")
after_creation user (bad (container message)) = throw (error bad_gateway "workspace_launch_failed")

module _ (h : Host) where
  open h use {State}

  abbrev unless_taken :
      Text
      → Text
      → Option Text
      → Result CreateWorkspaceError (Option WorkspaceRecord)
      → RouteM State CreateWorkspaceData
  unless_taken name new_id user (bad e) =
      throw (error internal_server_error "workspace_lookup_failed")
  unless_taken name new_id user (good existing) =
      if is_taken existing
      then throw (error conflict "workspace_name_taken")
      else (do created ← attempt (create_workspace h name new_id); after_creation user created)

  abbrev named : Text → Text → Option Text → RouteM State CreateWorkspaceData
  named name new_id user =
      if is_empty name
      then throw (error bad_request "workspace_name_required")
      else (do existing ← attempt (on_store (find name)); unless_taken name new_id user existing)

  -- `new_id` is the UUID that the creation would draw.
  unfoldable pub create_workspace_route_inner :
      Text → Text → Option Text → RouteM State CreateWorkspaceData
  create_workspace_route_inner name new_id user = named (trim name) new_id user
