-- ===== src/Integrations/Tests.antt =====
-- The theorems at work on one workspace and its bearer.
use aglack.Integrations.Sanitize.{workspace_connection_name}
use aglack.Integrations.Json.{remove_field}
use aglack.Integrations.Json.{insert_field}
use aglack.Integrations.Json.{get_field}
use aglack.Prelude.Maps.{insert}
use aglack.Integrations.Lockout.{record_success}
use aglack.Integrations.Tokens.{token_statement}
use aglack.Integrations.Tokens.{find_runtime_token}
use aglack.Integrations.Bearer.{decode_sha256_hex}
use aglack.Prelude.Strings.{trim}
use aglack.Prelude.Strings.{strip_prefix}
use Prim.Native.Nat.{ℕ}
use mathlib.Core.Path.{◌≡◌, refl}
use mathlib.Core.Bool.{true, false}
use mathlib.Core.Option.{Option, none, some}
use mathlib.Core.List.{List, [], ◌∷◌}
use aglack.Prelude.Text.{◌==◌}
use aglack.Prelude.Text.{codes}
use aglack.Prelude.Text.{Text}
use aglack.Prelude.Maps.{get}
use aglack.Prelude.Lists.{All}
use aglack.Integrations.Tokens.{WorkspaceRuntimeToken}
use aglack.Integrations.Lockout.Throttling.{step_isolated}
use aglack.Integrations.Lockout.Throttling.{step}
use aglack.Integrations.Lockout.{check}
use aglack.Integrations.Lockout.{WorkspaceBearerFailures}
use aglack.Integrations.Bearer.Verified.{require_workspace_bearer-Verified}
use aglack.Integrations.Bearer.Verified.{Verified}
use aglack.Integrations.Bearer.Guessing.{attempts}
use aglack.Integrations.Bearer.{require_workspace_bearer}
use aglack.Integrations.Bearer.{hashes_match_constant_time}
use aglack.Integrations.Bearer.{extract_bearer}
use aglack.Integrations.Bearer.{IntegrationsState}
use aglack.Prelude.Exec.{ok}
use aglack.Integrations.Lockout.Throttling.{fails}
use aglack.Integrations.Sanitize.Isolation.{sanitize_request-Sanitized}
use aglack.Integrations.Sanitize.Isolation.{Sanitized}
use aglack.Integrations.Sanitize.{sanitize_request}
use aglack.Integrations.Json.{Value}
use aglack.Prelude.Exec.{good}
use mathlib.Core.Logic.{◌↔◌}
use aglack.Integrations.Sanitize.{Provider}
use aglack.Integrations.Providers.{load_providers}
use aglack.Integrations.Providers.Registry.{IsNamed, DistinctIds, load_providers_iff}
use aglack.Integrations.Json.{object}
use aglack.Integrations.Json.{field}
use aglack.Integrations.Json.{string}
use aglack.Integrations.Json.{no_fields}

abbrev id : Text
id = codes "w1"

-- Stands in for the hash.
abbrev plain : Text → Text
plain raw = raw

abbrev right : Text
right = codes "0000000000000000000000000000000000000000000000000000000000000000"

abbrev guess : Text
guess = codes "1111111111111111111111111111111111111111111111111111111111111111"

abbrev token : WorkspaceRuntimeToken
token = record {
  workspace_id = id;
  openconnector_token_id = codes "tok";
  token_hash = right;
  openconnector_bearer = codes "secret";
}

abbrev entry : WorkspaceBearerFailures
entry = record { count = 8; window_start = 1000; last_audited = none }

abbrev state : IntegrationsState
state = record {
  lockout = (id, entry) ∷ [];
  store = record { tokens = token ∷ []; connections = []; audits = []; faults = []; now = 0 };
  now = 1000;
}

abbrev wrong_header : Option Text
wrong_header =
    some (codes "Bearer 1111111111111111111111111111111111111111111111111111111111111111")

abbrev right_header : Option Text
right_header =
    some (codes "Bearer 0000000000000000000000000000000000000000000000000000000000000000")

abbrev guesses : List (ℕ × Option Text)
guesses = (2000, wrong_header) ∷ (3000, wrong_header) ∷ []

-- The lockout and the store after the two guesses.
abbrev after : IntegrationsState
after = attempts plain id "mcp_proxy_invalid_bearer" token 1000 guesses state

abbrev cleared : IntegrationsState
cleared = record state {
  lockout = (id, record { count = 0; window_start = 1000; last_audited = none }) ∷ [];
}

passes :
    require_workspace_bearer plain id right_header "mcp_proxy_invalid_bearer" state ≡ ok tt cleared
unfolding require_workspace_bearer extract_bearer strip_prefix trim check get ◌==◌
    find_runtime_token token_statement hashes_match_constant_time decode_sha256_hex record_success
    insert
passes = refl

require_workspace_bearer-Verified_example : Verified plain id right_header state
require_workspace_bearer-Verified_example =
    require_workspace_bearer-Verified plain id "mcp_proxy_invalid_bearer" right_header state cleared
      passes

apart : (codes "w2" == id) ≡ false
unfolding ◌==◌
apart = refl

step_isolated_example :
    (check 3000 id (step 2000 (codes "w2") (fails true) ((id, entry) ∷ []))).0
    ≡ (check 3000 id ((id, entry) ∷ [])).0
step_isolated_example =
    step_isolated (codes "w2") id 2000 3000 (fails true) ((id, entry) ∷ []) apart

-- A call that names somebody else's connection.
abbrev stolen : Value
stolen = object (
    field (codes "method") (string (codes "tools/call")) (
      field (codes "params")
        (object (
          field (codes "name") (string (codes "list_connections")) (
            field (codes "arguments")
              (object (
                field (codes "alias") (string (codes "ws-w2"))
                  (field (codes "connectionName") (string (codes "ws-w2")) no_fields)))
              no_fields)))
        no_fields))

abbrev returned_to_owner : Value
returned_to_owner = object (
    field (codes "method") (string (codes "tools/call")) (
      field (codes "params")
        (object (
          field (codes "name") (string (codes "list_connections")) (
            field (codes "arguments")
              (object (field (codes "connectionName") (string (codes "ws-w1")) no_fields))
              no_fields)))
        no_fields))

stolen_is_returned : sanitize_request id [] stolen ≡ good returned_to_owner
unfolding sanitize_request get_field ◌==◌ insert_field remove_field workspace_connection_name
stolen_is_returned = refl

sanitize_request-Sanitized_example : Sanitized id [] returned_to_owner
sanitize_request-Sanitized_example =
    sanitize_request-Sanitized id [] stolen returned_to_owner stolen_is_returned

abbrev github : Provider
github = record {
  id = codes "github";
  name = codes "GitHub";
  icon = none;
  openconnector_service = codes "github";
  description = none;
  homepage_url = none;
  oauth_client_env = none;
  allowed_actions = [];
}

load_providers_iff_example :
    (load_providers (github ∷ []) ≡ good (github ∷ []))
    ↔ (All IsNamed (github ∷ []) × DistinctIds (github ∷ []))
load_providers_iff_example = load_providers_iff (github ∷ [])
