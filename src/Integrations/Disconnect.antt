-- ===== src/Integrations/Disconnect.antt =====
-- integrations/route.rs: `disconnect_integration_route`. Where a provider was found, its id is the
-- `provider_id` of the request.
pub mod Forgetting
pub mod Outcome
use mathlib.Core.Bool.{true, false}
use mathlib.Core.Option.{Option, none, some}
use mathlib.Core.List.{List, [], ◌∷◌}
use aglack.Prelude.Text.{Text}
use aglack.Prelude.Exec.{
  Exec, Result, good, bad, pure, throw, map_err, attempt, ignore, ◌>>=◌, ◌>>◌,
}
use aglack.Response.{Response, error, not_found}
use aglack.Workspaces.Db.{SqlxError}
use aglack.Workspaces.Rows.{WorkspaceRecord}
use aglack.Workspaces.Reads.{find_by_workspace_id}
use aglack.Workspaces.Resolve.{resolve_existing_workspace}
use aglack.Integrations.Tokens.{WorkspaceRuntimeToken, delete_runtime_token}
use aglack.Integrations.Connections.{mark_disconnected}
use aglack.Integrations.Sanitize.{Provider, workspace_connection_name}
use aglack.Integrations.Remote.{
  OpenConnectorError, remote_error, Outside, deletes, revokes, wipes, GatewayM, in_workspaces,
  in_store, ask, audit,
}
use aglack.Integrations.Rotation.{previous_token, rotate_workspace_token}
use aglack.Integrations.Connect.{connected_ids, connections_of, store_failed, find_provider}

-- `if let Ok(Some(record))` and `record.container_name`
abbrev pub container_found : Result SqlxError (Option WorkspaceRecord) → Option Text
container_found (good (some record')) = record'.container_name
container_found (good none) = none
container_found (bad e) = none

module _ (o : Outside) where
  open o use {State, delete_connection, revoke_runtime_token, remove_token_file}

  abbrev pub drop_token : Text → Option WorkspaceRuntimeToken → GatewayM State Response (Unit {0})
  drop_token id none = pure tt
  drop_token id (some token) = do
    ignore (
        ask (revokes token.openconnector_token_id)
          (revoke_runtime_token token.openconnector_token_id))
    ignore (in_store (delete_runtime_token id))

  abbrev pub wipe : Option Text → GatewayM State Response (Unit {0})
  wipe none = pure tt
  wipe (some container_name) =
      ignore (ask (wipes container_name) (remove_token_file container_name))

  abbrev pub rotate_in : Text → List Text → Option Text → GatewayM State Response (Unit {0})
  rotate_in id ids none = pure tt
  rotate_in id ids (some container_name) = ignore (rotate_workspace_token o id container_name ids)

  abbrev pub container_name_of :
      Text → GatewayM State Response (Result SqlxError (Option WorkspaceRecord))
  container_name_of id = attempt (in_workspaces (find_by_workspace_id id))

  abbrev pub drop_and_wipe :
      Text → Option WorkspaceRuntimeToken → GatewayM State Response (Unit {0})
  drop_and_wipe id token = do
    drop_token id token
    found ← container_name_of id
    wipe (container_found found)

  -- The token is taken away with the last connection, and narrowed otherwise.
  abbrev pub narrow : Text → List Text → GatewayM State Response (Unit {0})
  narrow id [] = previous_token o id >>= drop_and_wipe id
  narrow id (c ∷ cs) =
      container_name_of id >>= λ found. rotate_in id (c ∷ cs) (container_found found)

  abbrev pub mark : Text → Text → GatewayM State Response (Unit {0})
  mark id provider_id = map_err store_failed (in_store (mark_disconnected id provider_id))

  abbrev pub forget : Text → Text → GatewayM State Response (Unit {0})
  forget id provider_id = do
    mark id provider_id
    remaining ← connections_of o id
    narrow id (connected_ids remaining)
    audit id provider_id "disconnect" true

  abbrev pub after_delete :
      Text → Text → Result OpenConnectorError (Unit {0}) → GatewayM State Response (Unit {0})
  after_delete id provider_id (bad e) = do
    audit id provider_id "disconnect" false
    throw (remote_error e)
  after_delete id provider_id (good _) = forget id provider_id

  abbrev pub disconnect_from : Text → Option Provider → GatewayM State Response (Unit {0})
  disconnect_from id none = throw (error not_found "unknown_provider")
  disconnect_from id (some provider) = do
    let name = workspace_connection_name id
    deleted ← attempt (
        ask (deletes provider.openconnector_service name)
          (delete_connection provider.openconnector_service name))
    after_delete id provider.id deleted

  unfoldable pub disconnect_integration_route :
      List Provider → Text → Text → GatewayM State Response (Unit {0})
  unfolding audit
  disconnect_integration_route providers id provider_id = do
    in_workspaces (resolve_existing_workspace id)
    disconnect_from id (find_provider o providers provider_id)
