-- ===== src/Integrations/Rotation.antt =====
-- integrations/route.rs: `issue_and_deliver_runtime_token`, `rotate_workspace_token`.
pub mod Keeping
pub mod Connections
pub mod Atomicity
pub mod Undelivered
use mathlib.Core.Bool.{not}
use mathlib.Core.Option.{Option, none, some}
use mathlib.Core.List.{List, ◌++◌}
use aglack.Prelude.Text.{Text, codes, ◌==◌}
use aglack.Prelude.Tests.{if◌then◌else◌}
use aglack.Prelude.Exec.{Exec, pure, map_err, ignore, ◌>>=◌, ◌>>◌}
use aglack.Response.{Response, error, internal_server_error}
use aglack.Workspaces.Db.{SqlxError}
use aglack.Integrations.Tokens.{WorkspaceRuntimeToken, find_runtime_token, upsert_runtime_token}
use aglack.Integrations.Remote.{
  OpenConnectorError, remote_error, RuntimeToken, Outside, creates, revokes, delivers, GatewayM,
  in_store, ask, look,
}

pub data IntegrationsTokenError : Type 0 where
  open_connector : OpenConnectorError → IntegrationsTokenError
  token_encryption_failed : Text → IntegrationsTokenError
  runtime_token_store_failed : SqlxError → IntegrationsTokenError
  token_delivery_failed : Text → IntegrationsTokenError

abbrev pub into_response : IntegrationsTokenError → Response
into_response (open_connector e) = remote_error e
into_response (token_encryption_failed e) = error internal_server_error "token_encryption_failed"
into_response (runtime_token_store_failed e) =
    error internal_server_error "runtime_token_store_failed"
into_response (token_delivery_failed e) =
    error internal_server_error "integrations_token_delivery_failed"

abbrev pub token_name : Text → Text
token_name id = codes "workspace:" ++ id

module _ (o : Outside) where
  open o use {
    State, create_runtime_token, revoke_runtime_token, encrypt, sha256_hex, deliver_token_file,
  }

  abbrev pub stored_token : Text → RuntimeToken → Text → WorkspaceRuntimeToken
  stored_token id token encrypted_bearer = record {
    workspace_id = id;
    openconnector_token_id = token.openconnector_token_id;
    token_hash = sha256_hex token.bearer;
    openconnector_bearer = encrypted_bearer;
  }

  abbrev pub encrypt_bearer : RuntimeToken → GatewayM State IntegrationsTokenError Text
  encrypt_bearer token = map_err token_encryption_failed (look (encrypt token.bearer))

  abbrev pub store_token :
      Text → RuntimeToken → Text → GatewayM State IntegrationsTokenError (Unit {0})
  store_token id token encrypted_bearer =
      map_err runtime_token_store_failed
        (in_store (upsert_runtime_token (stored_token id token encrypted_bearer)))

  abbrev pub deliver : Text → RuntimeToken → GatewayM State IntegrationsTokenError Text
  deliver container_name token = do
    map_err token_delivery_failed (
        ask (delivers container_name token.bearer) (deliver_token_file container_name token.bearer))
    pure token.openconnector_token_id

  abbrev pub create_token : Text → List Text → GatewayM State IntegrationsTokenError RuntimeToken
  create_token id allowed_connection_ids = map_err open_connector (
      ask (creates (token_name id) allowed_connection_ids)
        (create_runtime_token (token_name id) allowed_connection_ids))

  -- What follows the creation of the token.
  abbrev pub store_and_deliver :
      Text → Text → RuntimeToken → GatewayM State IntegrationsTokenError Text
  store_and_deliver id container_name token = do
    encrypted_bearer ← encrypt_bearer token
    store_token id token encrypted_bearer
    deliver container_name token

  unfoldable pub issue_and_deliver_runtime_token :
      Text → Text → List Text → GatewayM State IntegrationsTokenError Text
  issue_and_deliver_runtime_token id container_name allowed_connection_ids = do
    token ← create_token id allowed_connection_ids
    store_and_deliver id container_name token

  abbrev pub retire : Text → Option WorkspaceRuntimeToken → GatewayM State Response (Unit {0})
  retire new_token_id none = pure tt
  retire new_token_id (some previous) =
      if not (previous.openconnector_token_id == new_token_id)
      then ignore (
          ask (revokes previous.openconnector_token_id)
            (revoke_runtime_token previous.openconnector_token_id))
      else pure tt

  abbrev pub issue : Text → Text → List Text → GatewayM State Response Text
  issue id container_name allowed_connection_ids =
      map_err into_response
        (issue_and_deliver_runtime_token id container_name allowed_connection_ids)

  abbrev pub issue_and_retire :
      Text → Text → List Text → Option WorkspaceRuntimeToken → GatewayM State Response (Unit {0})
  issue_and_retire id container_name allowed_connection_ids previous_token = do
    new_token_id ← issue id container_name allowed_connection_ids
    retire new_token_id previous_token

  abbrev pub previous_token : Text → GatewayM State Response (Option WorkspaceRuntimeToken)
  previous_token id =
      map_err (λ e. error internal_server_error "runtime_token_lookup_failed")
        (in_store (find_runtime_token id))

  unfoldable pub rotate_workspace_token :
      Text → Text → List Text → GatewayM State Response (Unit {0})
  unfolding issue_and_deliver_runtime_token
  rotate_workspace_token id container_name allowed_connection_ids = do
    previous ← previous_token id
    issue_and_retire id container_name allowed_connection_ids previous
