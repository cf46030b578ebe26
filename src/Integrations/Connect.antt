-- ===== src/Integrations/Connect.antt =====
-- integrations/route.rs: `finish_connection`, `connect_integration_route`, `start_oauth_route`. Where a
-- provider was found, its id is the `provider_id` of the request.
pub mod Answering
pub mod Steps
pub mod Honesty
use mathlib.Core.Bool.{Bool, true, false}
use mathlib.Core.Option.{Option, none, some}
use mathlib.Core.List.{List, [], ◌∷◌, ◌++◌}
use Prim.Native.String.{String}
use aglack.Prelude.Text.{Text, codes}
use aglack.Prelude.Tests.{if◌then◌else◌}
use aglack.Prelude.Lists.{find?, is_some}
use aglack.Prelude.Exec.{
  Exec, Result, good, bad, pure, throw, map_err, attempt, ignore, ◌>>=◌, ◌>>◌,
}
use aglack.Response.{Response, error, not_found, bad_request, conflict, internal_server_error}
use aglack.Workspaces.Db.{SqlxError}
use aglack.Workspaces.Rows.{WorkspaceRecord}
use aglack.Workspaces.Reads.{find_by_workspace_id}
use aglack.Workspaces.Resolve.{resolve_ready_workspace}
use aglack.Integrations.Rows.{
  IntegrationConnection, ConnectionStatus, pending, connected, status_eq,
}
use aglack.Integrations.Connections.{list_connections, upsert_connection, mark_pending, mark_error}
use aglack.Integrations.Sanitize.{Provider, contains, workspace_connection_name}
use aglack.Prelude.Text.{◌==◌}
use aglack.Integrations.Remote.{
  OpenConnectorError, remote_error, ConnectionSummary, Outside, connects, authorizes, deletes,
  GatewayM, in_workspaces, in_store, ask, draw, audit,
}
use aglack.Integrations.Rotation.{rotate_workspace_token}

-- `is_ok()`
abbrev pub succeeded : {E A : Type 0} → Result E A → Bool
succeeded (good a) = true
succeeded (bad e) = false

-- `filter(status == Connected).filter_map(openconnector_connection_id)`
unfoldable pub connected_ids : List IntegrationConnection → List Text
connected_ids [] = []
connected_ids (c ∷ cs) =
    let rest = connected_ids cs in
    if status_eq c.status connected
    then elim c.openconnector_connection_id [ some id ↦ id ∷ rest | none ↦ rest ]
    else rest

abbrev pub with_id : Text → List Text → List Text
with_id id ids = if contains ids id then ids else ids ++ id ∷ []

abbrev pub store_failed : SqlxError → Response
store_failed e = error internal_server_error "integrations_store_failed"

abbrev pub container_of : Option WorkspaceRecord → Option Text
container_of none = none
container_of (some record') = record'.container_name

abbrev pub finishing_failed : Text
finishing_failed = codes "Connected on the provider side but finishing setup failed. Try again."

pub record ConnectResponseData : Type 0 where
  pub provider_id : Text
  pub status : String
  pub account_label : Option Text

module _ (o : Outside) where
  open o use {State, connect_with_api_key, create_oauth_authorization, delete_connection, new_uuid}

  abbrev pub write_row :
      Text
      → Text
      → ConnectionSummary
      → ConnectionStatus
      → Option Text
      → GatewayM State Response (Unit {0})
  write_row id provider_id summary status account_label = do
    uuid ← draw new_uuid
    map_err store_failed (
        in_store (
          upsert_connection uuid id provider_id (workspace_connection_name id) (some summary.id)
            status account_label))

  -- The row is pending while the token is rotated, and connected behind that.
  abbrev pub rotate_for :
      Text
      → Text
      → ConnectionSummary
      → Text
      → List IntegrationConnection
      → GatewayM State Response (Unit {0})
  rotate_for id provider_id summary container_name connections = do
    write_row id provider_id summary pending none
    rotate_workspace_token o id container_name (with_id summary.id (connected_ids connections))
    write_row id provider_id summary connected (some summary.connection_name)

  abbrev pub connections_of : Text → GatewayM State Response (List IntegrationConnection)
  connections_of id = map_err store_failed (in_store (list_connections id))

  -- Behind the lookup of the container.
  abbrev pub finish_in :
      Text → Text → ConnectionSummary → Option Text → GatewayM State Response (Unit {0})
  finish_in id provider_id summary none = throw (error conflict "workspace_not_ready")
  finish_in id provider_id summary (some container_name) =
      connections_of id >>= rotate_for id provider_id summary container_name

  abbrev pub find_record : Text → GatewayM State Response (Option WorkspaceRecord)
  find_record id =
      map_err (λ e. error internal_server_error "workspace_lookup_failed")
        (in_workspaces (find_by_workspace_id id))

  unfoldable pub finish_connection_inner :
      Text → Text → ConnectionSummary → GatewayM State Response (Unit {0})
  finish_connection_inner id provider_id summary = do
    record' ← find_record id
    finish_in id provider_id summary (container_of record')

  abbrev pub conclude :
      Text → Text → Result Response (Unit {0}) → GatewayM State Response (Unit {0})
  conclude id provider_id (good done) = audit id provider_id "connect_finished" true
  conclude id provider_id (bad response) = do
    ignore (in_store (mark_error id provider_id finishing_failed))
    audit id provider_id "connect_finished" false
    throw response

  unfoldable pub finish_connection :
      Text → Text → ConnectionSummary → GatewayM State Response (Unit {0})
  unfolding finish_connection_inner audit
  finish_connection id provider_id summary = do
    result ← attempt (finish_connection_inner id provider_id summary)
    conclude id provider_id result

  abbrev pub answer_connect :
      Text
      → Provider
      → ConnectionSummary
      → Result Response (Unit {0})
      → GatewayM State Response ConnectResponseData
  answer_connect id provider summary (good done) = pure (record {
    provider_id = provider.id;
    status = "connected";
    account_label = some summary.connection_name;
  })
  answer_connect id provider summary (bad response) = do
    let name = workspace_connection_name id
    compensation_result ← attempt (
        ask (deletes provider.openconnector_service name)
          (delete_connection provider.openconnector_service name))
    audit id provider.id "connect_compensated" (succeeded compensation_result)
    throw response

  abbrev pub connect_with :
      Text → Text → Option Provider → GatewayM State Response ConnectResponseData
  connect_with id api_key none = throw (error not_found "unknown_provider")
  connect_with id api_key (some provider) = do
    let name = workspace_connection_name id
    summary ← map_err remote_error (
        ask (connects provider.openconnector_service name)
          (connect_with_api_key provider.openconnector_service name api_key))
    finished ← attempt (finish_connection id provider.id summary)
    answer_connect id provider summary finished

  abbrev pub authorized :
      Text → Text → Result OpenConnectorError Text → GatewayM State Response Text
  authorized id provider_id (bad e) = throw (remote_error e)
  authorized id provider_id (good authorization_url) = do
    uuid ← draw new_uuid
    map_err store_failed
        (in_store (mark_pending uuid id provider_id (workspace_connection_name id)))
    pure authorization_url

  abbrev pub authorize_with : Text → Option Provider → GatewayM State Response Text
  authorize_with id none = throw (error not_found "unknown_provider")
  authorize_with id (some provider) =
      if is_some provider.oauth_client_env
      then (do
        let name = workspace_connection_name id
        result ← attempt (
            ask (authorizes provider.openconnector_service name)
              (create_oauth_authorization provider.openconnector_service name))
        audit id provider.id "oauth_start" (succeeded result)
        authorized id provider.id result)
      else throw (error bad_request "oauth_not_supported")

  module _ (providers : List Provider) where
    abbrev pub find_provider : Text → Option Provider
    find_provider provider_id = find? (λ provider. provider.id == provider_id) providers

    unfoldable pub connect_integration_route :
        Text → Text → Text → GatewayM State Response ConnectResponseData
    unfolding finish_connection
    connect_integration_route id provider_id api_key = do
      in_workspaces (resolve_ready_workspace id)
      connect_with id api_key (find_provider provider_id)

    -- The answer is the `authorization_url`.
    unfoldable pub start_oauth_route : Text → Text → GatewayM State Response Text
    unfolding audit
    start_oauth_route id provider_id = do
      in_workspaces (resolve_ready_workspace id)
      authorize_with id (find_provider provider_id)
