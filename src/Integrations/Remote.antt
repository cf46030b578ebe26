-- ===== src/Integrations/Remote.antt =====
-- What the routes of integrations/ work on: the two stores, the lockout, and the outside. The outside
-- is an interface: the trait `OpenConnectorApi` (openconnector.rs), the delivery of the token file
-- (token_delivery.rs), the cipher and hash of crypto.rs, and fresh UUIDs. `calls` lists every call
-- that changes something outside, in order, with whether it succeeded.
pub mod Quiet
pub mod Keeping
pub mod Answers
use Prim.Native.Nat.{ℕ}
use mathlib.Core.Bool.{Bool, true, false, ◌&&◌}
use mathlib.Core.Option.{Option, none, some}
use mathlib.Core.List.{List, [], ◌∷◌, ◌++◌}
use Prim.Native.String.{String}
use aglack.Prelude.Text.{Text}
use aglack.Prelude.Tests.{if◌then◌else◌, leb}
use aglack.Prelude.Exec.{Exec, Result, ok, err, ignore}
use aglack.Response.{Response, error, bad_gateway}
use aglack.Workspaces.Db.{Db, SqlxError, StoreM}
use aglack.Integrations.Json.{Value}
use aglack.Integrations.Tokens.{TokenM, record_audit}
use aglack.Integrations.Bearer.{IntegrationsState, on_tokens}

-- Less its message; `status` is that of OpenConnector's answer, where there was one.
pub record OpenConnectorError : Type 0 where
  pub status : Option ℕ

abbrev is_client_error : ℕ → Bool
is_client_error status = leb 400 status && leb status 499

abbrev code_of : Option ℕ → String
code_of (some status) =
    if is_client_error status then "provider_rejected" else "provider_unavailable"
code_of none = "provider_unreachable"

unfoldable pub safe_code : OpenConnectorError → String
safe_code e = code_of e.status

-- The answer of every route for such an error.
abbrev pub remote_error : OpenConnectorError → Response
remote_error e = error bad_gateway (safe_code e)

pub record ConnectionSummary : Type 0 where
  pub id : Text
  pub service : Text
  pub connection_name : Text
  pub configured : Bool

pub record RuntimeToken : Type 0 where
  pub bearer : Text
  pub openconnector_token_id : Text

pub record Outside : Type 1 where
  pub State : Type 0
  pub connect_with_api_key : Text → Text → Text → Exec State OpenConnectorError ConnectionSummary
  pub create_oauth_authorization : Text → Text → Exec State OpenConnectorError Text
  pub list_remote : Exec State OpenConnectorError (List ConnectionSummary)
  pub find_remote : Text → Text → Exec State OpenConnectorError (Option ConnectionSummary)
  pub delete_connection : Text → Text → Exec State OpenConnectorError (Unit {0})
  pub create_runtime_token : Text → List Text → Exec State OpenConnectorError RuntimeToken
  pub revoke_runtime_token : Text → Exec State OpenConnectorError (Unit {0})
  pub forward_mcp : Text → Value → Exec State OpenConnectorError Value
  pub encrypt : Text → Exec State Text Text
  pub decrypt : Text → Result Text Text
  pub sha256_hex : Text → Text
  pub deliver_token_file : Text → Text → Exec State Text (Unit {0})
  pub remove_token_file : Text → Exec State Text (Unit {0})
  pub new_uuid : State → Text × State

pub data Call : Type 0 where
  connects : Text → Text → Call
  authorizes : Text → Text → Call
  deletes : Text → Text → Call
  creates : Text → List Text → Call
  revokes : Text → Call
  delivers : Text → Text → Call
  wipes : Text → Call
  forwards : Text → Value → Call

-- The calls that were made, each with whether it succeeded.
abbrev pub Log : Type 0
Log = List (Call × Bool)

pub record Gateway (S : Type 0) : Type 0 where
  pub workspaces : Db
  pub integrations : IntegrationsState
  pub outside : S
  pub calls : Log

abbrev pub GatewayM : Type 0 → Type 0 → Type 0 → Type 0
GatewayM S E A = Exec (Gateway S) E A

abbrev pub in_workspaces : {S E A : Type 0} → Exec Db E A → GatewayM S E A
in_workspaces m g = elim (m g.workspaces) [
  | ok a db ↦ ok a (record g { workspaces = db })
  | err e db ↦ err e (record g { workspaces = db })
]

abbrev pub in_integrations : {S E A : Type 0} → Exec IntegrationsState E A → GatewayM S E A
in_integrations m g = elim (m g.integrations) [
  | ok a s ↦ ok a (record g { integrations = s })
  | err e s ↦ err e (record g { integrations = s })
]

abbrev pub in_store : {S A : Type 0} → TokenM A → GatewayM S SqlxError A
in_store m = in_integrations (on_tokens m)

-- A call of the outside that changes something there, and one that does not.
abbrev pub ask : {S E A : Type 0} → Call → Exec S E A → GatewayM S E A
ask call m g = elim (m g.outside) [
  | ok a s ↦ ok a (record g { outside = s; calls = g.calls ++ (call, true) ∷ [] })
  | err e s ↦ err e (record g { outside = s; calls = g.calls ++ (call, false) ∷ [] })
]

abbrev pub look : {S E A : Type 0} → Exec S E A → GatewayM S E A
look m g = elim (m g.outside) [
  | ok a s ↦ ok a (record g { outside = s })
  | err e s ↦ err e (record g { outside = s })
]

abbrev pub draw : {S E A : Type 0} → (S → A × S) → GatewayM S E A
draw f g = let (a, s) = f g.outside in ok a (record g { outside = s })

-- `audit`, whose failure is only logged.
unfoldable pub audit : {S E : Type 0} → Text → Text → String → Bool → GatewayM S E (Unit {0})
audit id provider event success = ignore (in_store (record_audit id (some provider) event success))
