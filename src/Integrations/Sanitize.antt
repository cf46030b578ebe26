-- ===== src/Integrations/Sanitize.antt =====
-- integrations/mcp_proxy.rs `sanitize_request`, with `Provider::allows_action` of providers.rs: what a
-- workspace container may send on to OpenConnector.
pub mod Isolation
use mathlib.Core.Bool.{Bool, true, false, ◌&&◌, ◌||◌, not}
use mathlib.Core.Option.{Option, none, some}
use mathlib.Core.List.{List, [], ◌∷◌, ◌++◌}
use aglack.Response.{Response, error, bad_request, forbidden}
use aglack.Prelude.Exec.{Result, good, bad}
use aglack.Prelude.Text.{◌==◌}
use aglack.Prelude.Text.{codes}
use aglack.Prelude.Text.{Text}
use aglack.Prelude.Tests.{if◌then◌else◌}
use aglack.Prelude.Strings.{split}
use aglack.Prelude.Strings.{first_part}
use aglack.Prelude.Lists.{find?}
use aglack.Prelude.Lists.{any}
use aglack.Integrations.Json.{remove_field}
use aglack.Integrations.Json.{insert_field}
use aglack.Integrations.Json.{get_field}
use aglack.Integrations.Json.{as_str}
use aglack.Integrations.Json.{as_object}
use aglack.Integrations.Json.{Value}
use aglack.Integrations.Json.{Fields}
use aglack.Integrations.Json.{string}
use aglack.Integrations.Json.{object}
use aglack.Integrations.Json.{no_fields}

pub record Provider : Type 0 where
  pub id : Text
  pub name : Text
  pub icon : Option Text
  pub openconnector_service : Text
  pub description : Option Text
  pub homepage_url : Option Text
  pub oauth_client_env : Option Text
  pub allowed_actions : List Text

abbrev pub contains : List Text → Text → Bool
contains names name = any (λ a. a == name) names

abbrev is_empty : List Text → Bool
is_empty [] = true
is_empty (a ∷ names) = false

abbrev pub allows_action : Provider → Text → Bool
allows_action p action_id = is_empty p.allowed_actions || contains p.allowed_actions action_id

abbrev pub allowed_methods : List Text
allowed_methods =
    codes "initialize"
    ∷ codes "tools/list"
    ∷ codes "tools/call"
    ∷ codes "ping"
    ∷ codes "notifications/initialized"
    ∷ []

abbrev pub allowed_tools : List Text
allowed_tools =
    codes "execute_action"
    ∷ codes "list_connections"
    ∷ codes "search_actions"
    ∷ codes "get_action_guide"
    ∷ codes "list_apps"
    ∷ codes "find_action"
    ∷ codes "search_connection"
    ∷ codes "open_browser"
    ∷ codes "close_browser"
    ∷ []

unfoldable pub workspace_connection_name : Text → Text
workspace_connection_name workspace_id = codes "ws-" ++ workspace_id

-- `action_id.split('.').next().unwrap_or(action_id)`
abbrev service_or : Text → Option Text → Text
service_or action_id none = action_id
service_or action_id (some service) = service

abbrev pub service_of : Text → Text
service_of action_id = service_or action_id (first_part (split b'.' action_id))

abbrev refused_by : Option Provider → Text → Bool
refused_by none action_id = false
refused_by (some p) action_id = not (allows_action p action_id)

-- An action that a provider of the registry does not allow. Without an `actionId` nothing is checked,
-- nor where the registry has no provider of the service.
abbrev pub action_refused : List Provider → Option Text → Bool
action_refused providers none = false
action_refused providers (some action_id) =
    refused_by (find? (λ p. p.openconnector_service == service_of action_id) providers) action_id

-- `entry("arguments").or_insert_with(|| json!({}))`, then `as_object_mut`.
abbrev arguments_of : Option Value → Option Fields
arguments_of none = some no_fields
arguments_of (some v) = as_object (some v)

-- Every name of a connection is dropped, and the one true name is set.
abbrev pub forced : Text → Fields → Fields
forced workspace_id arguments =
    insert_field (codes "connectionName") (string (workspace_connection_name workspace_id))
      (remove_field (codes "alias") (remove_field (codes "connectionName") arguments))

abbrev with_arguments :
    Text → List Provider → Fields → Fields → Text → Option Fields → Result Response Value
with_arguments id providers request params tool none = bad (error bad_request "invalid_arguments")
with_arguments id providers request params tool (some arguments) =
    if tool == codes "execute_action"
      && action_refused providers (as_str (get_field (codes "actionId") arguments))
    then bad (error forbidden "action_not_allowed")
    else good (
        object (
          insert_field (codes "params")
            (object (insert_field (codes "arguments") (object (forced id arguments)) params))
            request))

abbrev with_tool : Text → List Provider → Fields → Fields → Option Text → Result Response Value
with_tool id providers request params none = bad (error bad_request "missing_tool_name")
with_tool id providers request params (some tool) =
    if not (contains allowed_tools tool)
    then bad (error forbidden "tool_not_allowed")
    else with_arguments id providers request params tool
        (arguments_of (get_field (codes "arguments") params))

abbrev with_params : Text → List Provider → Fields → Option Fields → Result Response Value
with_params id providers request none = bad (error bad_request "missing_params")
with_params id providers request (some params) =
    with_tool id providers request params (as_str (get_field (codes "name") params))

abbrev with_method : Text → List Provider → Fields → Option Text → Result Response Value
with_method id providers request none = bad (error bad_request "missing_method")
with_method id providers request (some method) =
    if not (contains allowed_methods method)
    then bad (error forbidden "method_not_allowed")
    else if method == codes "tools/call"
    then with_params id providers request (as_object (get_field (codes "params") request))
    else good (object request)

unfoldable pub sanitize_request : Text → List Provider → Value → Result Response Value
sanitize_request id providers (object request) =
    with_method id providers request (as_str (get_field (codes "method") request))
sanitize_request id providers _ = bad (error bad_request "invalid_request")
