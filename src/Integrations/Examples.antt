-- ===== src/Integrations/Examples.antt =====
-- The routes at work on one workspace, whose OpenConnector always answers.
use aglack.Integrations.Json.{get_field}
use aglack.Integrations.Sanitize.{sanitize_request}
use aglack.Integrations.Bearer.{decode_sha256_hex}
use aglack.Integrations.Bearer.{hashes_match_constant_time}
use aglack.Prelude.Maps.{get}
use aglack.Integrations.Lockout.{check}
use aglack.Prelude.Strings.{trim}
use aglack.Prelude.Strings.{strip_prefix}
use aglack.Integrations.Bearer.{extract_bearer}
use aglack.Integrations.Bearer.{require_workspace_bearer}
use aglack.Integrations.Connections.{by_provider}
use aglack.Integrations.Listing.{finish_and_summarize}
use aglack.Integrations.Sanitize.{workspace_connection_name}
use aglack.Integrations.Tokens.{delete_runtime_token}
use aglack.Integrations.Connect.{connected_ids}
use aglack.Integrations.Connections.{mark_disconnected}
use aglack.Workspaces.Resolve.{resolve_existing_workspace}
use aglack.Integrations.Connections.{mark_error}
use aglack.Integrations.Tokens.{record_audit}
use aglack.Integrations.Tokens.{upsert_runtime_token}
use aglack.Integrations.Tokens.{find_runtime_token}
use aglack.Integrations.Connections.{upsert_connection}
use aglack.Integrations.Tokens.{token_statement}
use aglack.Integrations.Connections.{list_connections}
use aglack.Prelude.Text.{◌==◌}
use aglack.Workspaces.Db.{query}
use aglack.Workspaces.Reads.{find_by_workspace_id}
use Prim.Native.Nat.{ℕ, suc}
use mathlib.Core.Path.{◌≡◌, refl}
use mathlib.Core.Bool.{Bool, true, false}
use mathlib.Core.Option.{Option, none, some}
use mathlib.Core.Logic.{◌⊎◌}
use mathlib.Core.List.{[], ◌∷◌, ◌++◌}
use aglack.Prelude.Text.{Text, codes}
use aglack.Prelude.Tests.{if◌then◌else◌}
use aglack.Prelude.Exec.{ok, err, good, final}
use aglack.Prelude.Ends.{Ends}
use aglack.Prelude.Lists.{find?}
use aglack.Response.{error, internal_server_error}
use aglack.Workspaces.Fake.{created, id}
use aglack.Integrations.Json.{Value, null, string, object, field, no_fields}
use aglack.Integrations.Sanitize.{Provider}
use aglack.Integrations.Tokens.{is_for}
use aglack.Integrations.Bearer.Verified.{Verified}
use aglack.Integrations.Remote.{Outside, ConnectionSummary, RuntimeToken, Gateway}
use aglack.Integrations.Remote.Quiet.{tables}
use aglack.Integrations.Rotation.{rotate_workspace_token, stored_token}
use aglack.Integrations.Rotation.Atomicity.{Rotated, Unrotated, rotate_workspace_token-Rotated}
use aglack.Integrations.Rotation.Undelivered.{rotate_workspace_token_undelivered}
use aglack.Integrations.Connections.Laws.{ErrorRow}
use aglack.Integrations.Connect.{finish_connection}
use aglack.Integrations.Connect.Honesty.{finish_connection-ErrorRow}
use aglack.Integrations.McpRoute.{integration_mcp_route}
use aglack.Integrations.McpRoute.Tenancy.{Answered, Refused, integration_mcp_route-Tenant}
use aglack.Integrations.Listing.{list_integrations_route, finished_entry}
use aglack.Integrations.Listing.Outcome.{Listed, Excuse, list_integrations_route-Listed}
use aglack.Integrations.Disconnect.{disconnect_integration_route}
use aglack.Integrations.Disconnect.Forgetting.{DisconnectedRow}
use aglack.Integrations.Disconnect.Outcome.{disconnect_integration_route-Disconnected}

abbrev summary : ConnectionSummary
summary = record {
  id = codes "conn1";
  service = codes "github";
  connection_name = codes "ws-w1";
  configured = true;
}

abbrev issued : RuntimeToken
issued = record { bearer = codes "bearer"; openconnector_token_id = codes "tok" }

-- The state counts the UUIDs; `delivers` says whether a token file arrives.
abbrev toy : Bool → Outside
toy delivers = record {
  State = ℕ;
  connect_with_api_key = λ service name key s. ok summary s;
  create_oauth_authorization = λ service name s. ok (codes "https://provider") s;
  list_remote = λ s. ok (summary ∷ []) s;
  find_remote = λ service name s. ok (some summary) s;
  delete_connection = λ service name s. ok tt s;
  create_runtime_token = λ name allowed s. ok issued s;
  revoke_runtime_token = λ token s. ok tt s;
  forward_mcp = λ bearer value s. ok null s;
  encrypt = λ text s. ok text s;
  decrypt = λ text. good text;
  sha256_hex = λ text. text;
  deliver_token_file =
      λ name bearer s. if delivers then ok tt s else err (codes "No such container") s;
  remove_token_file = λ name s. ok tt s;
  new_uuid = λ s. (s ∷ [], suc s);
}

abbrev start : (delivers : Bool) → Gateway ℕ
start delivers = record {
  workspaces = created.db;
  integrations = record {
    lockout = [];
    store = record { tokens = []; connections = []; audits = []; faults = []; now = 5 };
    now = 0;
  };
  outside = 0;
  calls = [];
}

abbrev github : Provider
github = record {
  id = codes "github";
  name = codes "GitHub";
  icon = none;
  openconnector_service = codes "github";
  description = none;
  homepage_url = none;
  oauth_client_env = none;
  allowed_actions = [];
}

abbrev finished : Gateway ℕ
finished = final (finish_connection (toy true) id (codes "github") summary (start true))

abbrev unfinished : Gateway ℕ
unfinished = final (finish_connection (toy false) id (codes "github") summary (start false))

fails :
    finish_connection (toy false) id (codes "github") summary (start false)
    ≡ err (error internal_server_error "integrations_token_delivery_failed") unfinished
unfolding finish_connection find_by_workspace_id query ◌==◌ list_connections token_statement
    upsert_connection rotate_workspace_token find_runtime_token upsert_runtime_token mark_error
    record_audit
fails = refl

finish_connection-ErrorRow_example : ErrorRow id (codes "github") (tables unfinished)
finish_connection-ErrorRow_example =
    finish_connection-ErrorRow (toy false) id (codes "github") summary (start false) unfinished
      (error internal_server_error "integrations_token_delivery_failed") refl fails

rotate_workspace_token-Rotated_example :
    Ends
      (λ _. Rotated (toy true) id (codes "c") (codes "conn1" ∷ []) (start true))
      (λ _. Unrotated (toy true) id (codes "c") (codes "conn1" ∷ []) [])
      (rotate_workspace_token (toy true) id (codes "c") (codes "conn1" ∷ []) (start true))
rotate_workspace_token-Rotated_example =
    rotate_workspace_token-Rotated (toy true) id (codes "c") (codes "conn1" ∷ []) (start true)

rotate_workspace_token_undelivered_example :
    (after : Gateway ℕ) × (rotate_workspace_token
        (toy false)
        id
        (codes "c")
        (codes "conn1" ∷ [])
        (start false)
      ≡ err (error internal_server_error "integrations_token_delivery_failed") after)
    × (find? (is_for id) (tables after).tokens
        ≡ some (stored_token (toy false) id issued (codes "bearer")))
rotate_workspace_token_undelivered_example =
    rotate_workspace_token_undelivered (toy false) id (codes "c") (codes "conn1" ∷ []) (start false)
      issued (codes "bearer") (codes "No such container") 0 0 0 refl refl refl refl

-- The bearer that the container of `served` has, and a request of its own.
abbrev presented : Text
presented = codes "0000000000000000000000000000000000000000000000000000000000000000"

abbrev served : Gateway ℕ
served = record (start true) {
  integrations = record (start true).integrations {
    store = record (tables (start true)) {
      tokens =
          record {
            workspace_id = id;
            openconnector_token_id = codes "tok";
            token_hash = presented;
            openconnector_bearer = codes "bearer";
          }
          ∷ [];
    };
  };
}

abbrev initializes : Value
initializes = object (field (codes "method") (string (codes "initialize")) no_fields)

abbrev authorization : Option Text
authorization = some (codes "Bearer " ++ presented)

abbrev answered_at : Gateway ℕ
answered_at = final (
    integration_mcp_route (toy true) (λ body. some initializes) (github ∷ []) id authorization []
      served)

answers :
    integration_mcp_route
      (toy true)
      (λ body. some initializes)
      (github ∷ [])
      id
      authorization
      []
      served
    ≡ ok null answered_at
unfolding integration_mcp_route require_workspace_bearer extract_bearer strip_prefix trim check get
    find_runtime_token token_statement ◌==◌ hashes_match_constant_time decode_sha256_hex
    sanitize_request get_field
answers = refl

integration_mcp_route-Tenant_example :
    Ends
      (λ value after.
        Verified (toy true).sha256_hex id authorization served.integrations
        × Answered (toy true) (λ body. some initializes) (github ∷ []) id served value after)
      (λ _ after.
        (after.calls ≡ [])
        ⊎ (Verified (toy true).sha256_hex id authorization served.integrations
            × Refused (toy true) (λ body. some initializes) (github ∷ []) id served after))
      (integration_mcp_route
        (toy true)
        (λ body. some initializes)
        (github ∷ [])
        id
        authorization
        []
        served)
integration_mcp_route-Tenant_example =
    integration_mcp_route-Tenant (toy true) (λ body. some initializes) (github ∷ []) id
      authorization [] served

abbrev disconnected_at : Gateway ℕ
disconnected_at =
    final (disconnect_integration_route (toy true) (github ∷ []) id (codes "github") finished)

disconnects :
    disconnect_integration_route (toy true) (github ∷ []) id (codes "github") finished
    ≡ ok tt disconnected_at
unfolding disconnect_integration_route resolve_existing_workspace find_by_workspace_id query
    finish_connection ◌==◌ list_connections token_statement upsert_connection rotate_workspace_token
    find_runtime_token upsert_runtime_token record_audit mark_disconnected connected_ids
    delete_runtime_token
disconnects = refl

disconnect_integration_route-Disconnected_example :
    DisconnectedRow id (codes "github") (tables disconnected_at)
disconnect_integration_route-Disconnected_example =
    disconnect_integration_route-Disconnected (toy true) id (github ∷ []) (codes "github") finished
      disconnected_at disconnects

-- A provider that is connected on the remote side only is found, and finished.
discovers :
    list_integrations_route (toy true) (github ∷ []) id (start true)
    ≡ ok (finished_entry (codes "github") summary (good tt) ∷ []) finished
unfolding list_integrations_route resolve_existing_workspace find_by_workspace_id query ◌==◌
    list_connections token_statement workspace_connection_name finish_and_summarize
    finish_connection upsert_connection rotate_workspace_token find_runtime_token
    upsert_runtime_token record_audit
discovers = refl

list_integrations_route-Listed_example :
    Ends
      (λ entries _. Listed (github ∷ []) [] entries)
      (λ e _. Excuse id (start true) e)
      (list_integrations_route (toy true) (github ∷ []) id (start true))
unfolding by_provider
list_integrations_route-Listed_example =
    list_integrations_route-Listed (toy true) (github ∷ []) id (start true)
