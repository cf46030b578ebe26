-- ===== src/Integrations/McpRoute.antt =====
-- integrations/mcp_proxy.rs: `integration_mcp_route`, by which a container reaches OpenConnector. The
-- JSON parser of third-party code is a parameter.
pub mod Tenancy
use mathlib.Core.Option.{Option, none, some}
use mathlib.Core.List.{List}
use aglack.Prelude.Text.{Text}
use aglack.Prelude.Exec.{Exec, Result, good, bad, pure, throw, map_err, ◌>>=◌, ◌>>◌}
use aglack.Response.{Response, error, bad_request, unauthorized, internal_server_error}
use aglack.Integrations.Json.{Value, array}
use aglack.Integrations.Sanitize.{Provider, sanitize_request}
use aglack.Integrations.Tokens.{WorkspaceRuntimeToken, find_runtime_token}
use aglack.Integrations.Bearer.{require_workspace_bearer}
use aglack.Integrations.Remote.{
  remote_error, Outside, forwards, GatewayM, in_integrations, in_store, ask,
}

module _ (o : Outside) (from_slice : Text → Option Value) (providers : List Provider) where
  open o use {State, sha256_hex, decrypt, forward_mcp}

  abbrev pub authenticate : Text → Option Text → GatewayM State Response (Unit {0})
  authenticate id authorization =
      in_integrations
        (require_workspace_bearer sha256_hex id authorization "mcp_proxy_invalid_bearer")

  abbrev pub forward : Text → Value → GatewayM State Response Value
  forward bearer sanitized =
      map_err remote_error (ask (forwards bearer sanitized) (forward_mcp bearer sanitized))

  abbrev pub forward_decrypted : Value → Result Text Text → GatewayM State Response Value
  forward_decrypted sanitized (good bearer) = forward bearer sanitized
  forward_decrypted sanitized (bad e) =
      throw (error internal_server_error "token_decryption_failed")

  abbrev pub forward_as : Value → Option WorkspaceRuntimeToken → GatewayM State Response Value
  forward_as sanitized none = throw (error unauthorized "unknown_workspace_token")
  forward_as sanitized (some token) =
      forward_decrypted sanitized (decrypt token.openconnector_bearer)

  abbrev pub current_token : Text → GatewayM State Response (Option WorkspaceRuntimeToken)
  current_token id =
      map_err (λ e. error internal_server_error "token_lookup_failed")
        (in_store (find_runtime_token id))

  abbrev pub send : Text → Result Response Value → GatewayM State Response Value
  send id (bad response) = throw response
  send id (good sanitized) = current_token id >>= forward_as sanitized

  -- A batch is refused before it is looked into.
  abbrev pub sanitize_and_send : Text → Option Value → GatewayM State Response Value
  sanitize_and_send id none = throw (error bad_request "invalid_json")
  sanitize_and_send id (some (array items)) = throw (error bad_request "batch_not_allowed")
  sanitize_and_send id (some request) = send id (sanitize_request id providers request)

  unfoldable pub integration_mcp_route : Text → Option Text → Text → GatewayM State Response Value
  integration_mcp_route id authorization body = do
    authenticate id authorization
    sanitize_and_send id (from_slice body)
