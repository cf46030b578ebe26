-- ===== src/Integrations/Sanitize/Isolation.antt =====
-- What reaches OpenConnector from a workspace container.
use mathlib.Core.Path.{◌≡◌, refl, ◌∙◌}
use mathlib.Core.Logic.{inl, inr}
use mathlib.Core.Bool.{true, false, ◌&&◌}
use mathlib.Core.Option.{Option, none, some}
use mathlib.Core.List.{List}
use aglack.Response.{Response}
use aglack.Prelude.Exec.{Result, good, bad}
use aglack.Integrations.Json.{null, boolean, number, string, array, object}
use mathlib.Core.Path.{ap}
use aglack.Workspaces.Host.{call}
use aglack.Prelude.Text.{◌==◌}
use aglack.Prelude.Text.{eq_iff}
use aglack.Prelude.Text.{codes}
use aglack.Prelude.Text.{Text}
use aglack.Prelude.Tests.{Bool-cases}
use aglack.Integrations.Sanitize.{workspace_connection_name}
use aglack.Integrations.Sanitize.{sanitize_request}
use aglack.Integrations.Sanitize.{forced}
use aglack.Integrations.Sanitize.{contains}
use aglack.Integrations.Sanitize.{allowed_tools}
use aglack.Integrations.Sanitize.{allowed_methods}
use aglack.Integrations.Sanitize.{action_refused}
use aglack.Integrations.Sanitize.{Provider}
use aglack.Integrations.Json.{remove_field}
use aglack.Integrations.Json.{insert_field}
use aglack.Integrations.Json.{get_field}
use aglack.Integrations.Json.{get-remove_field_other}
use aglack.Integrations.Json.{get-remove_field}
use aglack.Integrations.Json.{get-insert_field_other}
use aglack.Integrations.Json.{get-insert_field}
use aglack.Integrations.Json.{as_str}
use aglack.Integrations.Json.{Value}
use aglack.Integrations.Json.{Fields}
use aglack.Integrations.Sanitize.{with_tool}
use aglack.Integrations.Sanitize.{with_params}
use aglack.Integrations.Sanitize.{with_method}
use aglack.Integrations.Sanitize.{with_arguments}
use aglack.Integrations.Json.{string}
use aglack.Integrations.Json.{object}
use aglack.Integrations.Json.{boolean}
use aglack.Integrations.Json.{number}
use aglack.Integrations.Json.{array}

-- A call of an allowed tool, which names the workspace's own connection and no other, and whose
-- action its provider allows.
pub record OwnCall (id : Text) (providers : List Provider) (request : Fields) : Type 0 where
  pub params : Fields
  pub arguments : Fields
  pub tool : Text
  pub at_params : get_field (codes "params") request ≡ some (object params)
  pub at_name : as_str (get_field (codes "name") params) ≡ some tool
  pub tool_allowed : contains allowed_tools tool ≡ true
  pub at_arguments : get_field (codes "arguments") params ≡ some (object arguments)
  pub own_connection :
      get_field (codes "connectionName") arguments ≡ some (string (workspace_connection_name id))
  pub no_alias : get_field (codes "alias") arguments ≡ none
  pub action_allowed :
      (tool == codes "execute_action"
        && action_refused providers (as_str (get_field (codes "actionId") arguments)))
      ≡ false

pub data Sanitized (id : Text) (providers : List Provider) : Value → Type 0 where
  other_method :
      {request : Fields} {method : Text}
      → as_str (get_field (codes "method") request) ≡ some method
      → contains allowed_methods method ≡ true
      → (method == codes "tools/call") ≡ false
      → Sanitized id providers (object request)
  tool_call :
      {request : Fields}
      → as_str (get_field (codes "method") request) ≡ some (codes "tools/call")
      → OwnCall id providers request
      → Sanitized id providers (object request)

abbrev Sound : Text → List Provider → Result Response Value → Type 0
Sound id providers (good v) = Sanitized id providers v
Sound id providers (bad r) = Unit

forced-own :
    (id : Text) (arguments : Fields)
    → get_field (codes "connectionName") (forced id arguments)
      ≡ some (string (workspace_connection_name id))
forced-own id arguments = get-insert_field (codes "connectionName") _ _

forced-alias :
    (id : Text) (arguments : Fields) → get_field (codes "alias") (forced id arguments) ≡ none
unfolding ◌==◌
forced-alias id arguments =
    get-insert_field_other (codes "alias") (codes "connectionName") _ _ refl
    ∙ get-remove_field (codes "alias") (remove_field (codes "connectionName") arguments)

forced-action :
    (id : Text) (arguments : Fields)
    → get_field (codes "actionId") (forced id arguments) ≡ get_field (codes "actionId") arguments
unfolding ◌==◌
forced-action id arguments =
    get-insert_field_other (codes "actionId") (codes "connectionName") _ _ refl
    ∙ get-remove_field_other (codes "actionId") (codes "alias")
        (remove_field (codes "connectionName") arguments) refl
    ∙ get-remove_field_other (codes "actionId") (codes "connectionName") arguments refl

get-other_param :
    (v : Value) (params : Fields)
    → get_field (codes "name") (insert_field (codes "arguments") v params)
      ≡ get_field (codes "name") params
unfolding ◌==◌
get-other_param v params = get-insert_field_other (codes "name") (codes "arguments") v params refl

get-method :
    (v : Value) (request : Fields)
    → get_field (codes "method") (insert_field (codes "params") v request)
      ≡ get_field (codes "method") request
unfolding ◌==◌
get-method v request = get-insert_field_other (codes "method") (codes "params") v request refl

module _ (id : Text) (providers : List Provider) (request : Fields)
    (is_call : as_str (get_field (codes "method") request) ≡ some (codes "tools/call")) where
  arguments-Sound :
      (params : Fields) (tool : Text) (arguments : Option Fields)
      → as_str (get_field (codes "name") params) ≡ some tool
      → contains allowed_tools tool ≡ true
      → Sound id providers (with_arguments id providers request params tool arguments)
  arguments-Sound params tool none named allowed = tt
  arguments-Sound params tool (some arguments) named allowed =
      elim (Bool-cases (
        tool == codes "execute_action"
        && action_refused providers (as_str (get_field (codes "actionId") arguments)))) [
          | inl stop ↦ rw stop tt
          | inr pass ↦ rw pass (
              tool_call (rw (get-method _ request) is_call) (record {
                params = insert_field (codes "arguments") (object (forced id arguments)) params;
                arguments = forced id arguments;
                tool = tool;
                at_params = get-insert_field (codes "params") _ request;
                at_name = rw (get-other_param _ params) named;
                tool_allowed = allowed;
                at_arguments = get-insert_field (codes "arguments") _ params;
                own_connection = forced-own id arguments;
                no_alias = forced-alias id arguments;
                action_allowed = rw (forced-action id arguments) pass;
              }))
        ]

  tool-Sound :
      (params : Fields) (tool : Option Text)
      → as_str (get_field (codes "name") params) ≡ tool
      → Sound id providers (with_tool id providers request params tool)
  tool-Sound params none named = tt
  tool-Sound params (some tool) named = elim (Bool-cases (contains allowed_tools tool)) [
    | inl allowed ↦ rw allowed (arguments-Sound params tool _ named allowed)
    | inr unknown ↦ rw unknown tt
  ]

  params-Sound :
      (params : Option Fields) → Sound id providers (with_params id providers request params)
  params-Sound none = tt
  params-Sound (some params) = tool-Sound params _ refl

method-Sound :
    (id : Text) (providers : List Provider) (request : Fields) (method : Option Text)
    → as_str (get_field (codes "method") request) ≡ method
    → Sound id providers (with_method id providers request method)
method-Sound id providers request none named = tt
method-Sound id providers request (some method) named =
    elim (Bool-cases (contains allowed_methods method)) [
      | inl allowed ↦ rw allowed (elim (Bool-cases (method == codes "tools/call")) [
        | inl call ↦
            let same : method ≡ codes "tools/call" = (eq_iff method (codes "tools/call")).0 call in
            rw call (params-Sound id providers request (named ∙ ap some same) _)
        | inr other ↦ rw other (other_method named allowed other)
      ])
      | inr unknown ↦ rw unknown tt
    ]

-- Whatever a container sends, what the proxy forwards is a request of an allowed method; and where it
-- is a tool call, one of an allowed tool, whose only name of a connection is the workspace's own, and
-- whose action is not one that the registry's provider of its service refuses.
pub sanitize_request-Sanitized :
    (id : Text) (providers : List Provider) (request forwarded : Value)
    → sanitize_request id providers request ≡ good forwarded
    → Sanitized id providers forwarded
unfolding sanitize_request
sanitize_request-Sanitized id providers (object request) forwarded e =
    rw e at (method-Sound id providers request _ refl)
sanitize_request-Sanitized id providers null forwarded e = absurd (cc)
sanitize_request-Sanitized id providers (boolean b) forwarded e = absurd (cc)
sanitize_request-Sanitized id providers (number n) forwarded e = absurd (cc)
sanitize_request-Sanitized id providers (string s) forwarded e = absurd (cc)
sanitize_request-Sanitized id providers (array xs) forwarded e = absurd (cc)
