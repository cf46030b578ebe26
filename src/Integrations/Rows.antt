-- ===== src/Integrations/Rows.antt =====
-- integrations/store.rs: the rows of `integration_connections` and the type that is read from them.
use mathlib.Core.Path.{◌≡◌, refl}
use mathlib.Core.Bool.{Bool, true, false}
use mathlib.Core.Option.{Option}
use Prim.Native.String.{String}
use text.Mathlib.Text.{◌==◌ as str_eq}
use aglack.Prelude.Tests.{if◌then◌else◌}
use aglack.Prelude.Text.{Text}

pub data ConnectionStatus : Type 0 where
  pending connected needs_reauth disconnected errored : ConnectionStatus

abbrev pub status_eq : ConnectionStatus → ConnectionStatus → Bool
status_eq pending pending = true
status_eq connected connected = true
status_eq needs_reauth needs_reauth = true
status_eq disconnected disconnected = true
status_eq errored errored = true
status_eq _ _ = false

unfoldable pub as_db_str : ConnectionStatus → String
as_db_str pending = "pending"
as_db_str connected = "connected"
as_db_str needs_reauth = "needs_reauth"
as_db_str disconnected = "disconnected"
as_db_str errored = "error"

unfoldable pub from_db_str : String → ConnectionStatus
from_db_str value =
    if str_eq value "connected"
    then connected
    else if str_eq value "needs_reauth"
    then needs_reauth
    else if str_eq value "disconnected"
    then disconnected
    else if str_eq value "error"
    then errored
    else pending

pub from_db_str-as_db_str : (s : ConnectionStatus) → from_db_str (as_db_str s) ≡ s
unfolding from_db_str as_db_str
from_db_str-as_db_str pending = refl
from_db_str-as_db_str connected = refl
from_db_str-as_db_str needs_reauth = refl
from_db_str-as_db_str disconnected = refl
from_db_str-as_db_str errored = refl

-- A row, less `created_at`, which nothing reads.
pub record ConnectionRow : Type 0 where
  pub id : Text
  pub workspace_id : Text
  pub provider_id : Text
  pub connection_name : Text
  pub openconnector_connection_id : Option Text
  pub status : String
  pub account_label : Option Text
  pub last_error : Option Text
  pub updated_at : Text

pub record IntegrationConnection : Type 0 where
  pub id : Text
  pub workspace_id : Text
  pub provider_id : Text
  pub connection_name : Text
  pub openconnector_connection_id : Option Text
  pub status : ConnectionStatus
  pub account_label : Option Text
  pub last_error : Option Text
  pub updated_at : Text

unfoldable pub connection_from_row : ConnectionRow → IntegrationConnection
unfolding from_db_str
connection_from_row row = record {
  id = row.id;
  workspace_id = row.workspace_id;
  provider_id = row.provider_id;
  connection_name = row.connection_name;
  openconnector_connection_id = row.openconnector_connection_id;
  status = from_db_str row.status;
  account_label = row.account_label;
  last_error = row.last_error;
  updated_at = row.updated_at;
}
