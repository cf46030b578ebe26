-- ===== src/Integrations/Listing.antt =====
-- integrations/route.rs: `list_integrations_route`, which also finishes the connections that have come
-- up on the remote side and gives up on those that have been pending for too long. The clock is that
-- of the store.
pub mod Entries
pub mod Outcome
use Prim.Native.Nat.{ℕ, zero, suc, ◌+◌, ◌*◌, ◌-◌, ◌^◌}
use mathlib.Core.Bool.{Bool, true, false, ◌&&◌}
use mathlib.Core.Option.{Option, none, some}
use mathlib.Core.List.{List, [], ◌∷◌, ◌++◌, map}
use Prim.Native.String.{String}
use aglack.Prelude.Text.{Text, codes, ◌==◌}
use aglack.Prelude.Tests.{if◌then◌else◌, leb, ltb, nat_eq}
use aglack.Prelude.Lists.{find?}
use aglack.Prelude.Exec.{Exec, Result, ok, good, bad, pure, map_err, attempt, ignore, ◌>>=◌, ◌>>◌}
use aglack.Response.{Response, error, internal_server_error}
use aglack.Workspaces.Db.{SqlxError}
use aglack.Workspaces.Resolve.{resolve_existing_workspace}
use aglack.Integrations.Rows.{
  IntegrationConnection, ConnectionStatus, pending, connected, needs_reauth, disconnected, errored,
  status_eq,
}
use aglack.Integrations.Connections.{list_connections, mark_error}
use aglack.Integrations.Sanitize.{Provider, contains, workspace_connection_name}
use aglack.Integrations.Remote.{
  OpenConnectorError, ConnectionSummary, Outside, Gateway, GatewayM, in_workspaces, in_store, look,
}
use aglack.Integrations.Connect.{finish_connection, find_provider, finishing_failed}

pub record ConnectionSummaryOut : Type 0 where
  pub provider_id : Text
  pub status : String
  pub account_label : Option Text
  pub last_error : Option Text

unfoldable pub status_str : ConnectionStatus → String
status_str pending = "pending"
status_str connected = "connected"
status_str needs_reauth = "needs_reauth"
status_str disconnected = "disconnected"
status_str errored = "error"

abbrev pub oauth_pending_timeout_secs : ℕ
oauth_pending_timeout_secs = 600

-- `str::parse::<u64>`: a `+` may stand before the digits.
abbrev digits : ℕ → Text → Option ℕ
digits value [] = if ltb value (2 ^ 64) then some value else none
digits value (c ∷ s) =
    let later = digits (value * 10 + (c - b'0')) s in
    if leb b'0' c && leb c b'9' then later else none

abbrev unsigned : Text → Option ℕ
unsigned [] = none
unsigned (c ∷ s) = digits 0 (c ∷ s)

unfoldable pub parse_u64 : Text → Option ℕ
parse_u64 [] = none
parse_u64 (c ∷ s) = if nat_eq c b'+' then unsigned s else unsigned (c ∷ s)

abbrev expired_at : ℕ → Option ℕ → Bool
expired_at now none = true
expired_at now (some updated_at) = ltb oauth_pending_timeout_secs (now - updated_at)

unfoldable pub pending_row_is_expired : ℕ → Text → Bool
unfolding parse_u64
pending_row_is_expired now updated_at = expired_at now (parse_u64 updated_at)

abbrev pub timed_out : Text
timed_out = codes "The connect attempt timed out. Try again."

-- A row as it is stored.
abbrev pub as_stored : IntegrationConnection → ConnectionSummaryOut
as_stored connection = record {
  provider_id = connection.provider_id;
  status = status_str connection.status;
  account_label = connection.account_label;
  last_error = connection.last_error;
}

-- The entry of a provider that is shown with this status and error.
abbrev pub shown : Text → ConnectionStatus → Option Text → ConnectionSummaryOut
shown provider_id status last_error = record {
  provider_id = provider_id;
  status = status_str status;
  account_label = none;
  last_error = last_error;
}

abbrev pub finished_entry :
    Text → ConnectionSummary → Result Response (Unit {0}) → ConnectionSummaryOut
finished_entry provider_id summary (good done) = record (shown provider_id connected none) {
  account_label = some summary.connection_name;
}
finished_entry provider_id summary (bad response) =
    shown provider_id errored (some finishing_failed)

-- `.ok().flatten()`
abbrev pub flat : {E A : Type 0} → Result E (Option A) → Option A
flat (good found) = found
flat (bad e) = none

abbrev pub or_empty : {E A : Type 0} → Result E (List A) → List A
or_empty (good xs) = xs
or_empty (bad e) = []

abbrev pub is_configured : Text → Provider → ConnectionSummary → Bool
is_configured connection_name provider c =
    (c.service == provider.openconnector_service)
    && (c.connection_name == connection_name)
    && c.configured

abbrev pub list_failed : SqlxError → Response
list_failed e = error internal_server_error "integrations_list_failed"

module _ (o : Outside) where
  open o use {State, list_remote, find_remote}

  abbrev pub clock : GatewayM State Response ℕ
  clock g = ok g.integrations.store.now g

  unfoldable pub finish_and_summarize :
      Text → Text → ConnectionSummary → GatewayM State Response ConnectionSummaryOut
  finish_and_summarize id provider_id summary = do
    result ← attempt (finish_connection o id provider_id summary)
    pure (finished_entry provider_id summary result)

  abbrev pub expire :
      Text → IntegrationConnection → ℕ → GatewayM State Response ConnectionSummaryOut
  expire id connection now =
      if pending_row_is_expired now connection.updated_at
      then (do
        ignore (in_store (mark_error id connection.provider_id timed_out))
        pure (shown connection.provider_id errored (some timed_out)))
      else pure (shown connection.provider_id pending none)

  abbrev pub reconcile_found :
      Text
      → IntegrationConnection
      → Option ConnectionSummary
      → GatewayM State Response ConnectionSummaryOut
  reconcile_found id connection none = clock >>= expire id connection
  reconcile_found id connection (some summary) =
      if summary.configured
      then finish_and_summarize id connection.provider_id summary
      else clock >>= expire id connection

  abbrev pub reconcile_with :
      Text → IntegrationConnection → Option Provider → GatewayM State Response ConnectionSummaryOut
  reconcile_with id connection none = pure (as_stored connection)
  reconcile_with id connection (some provider) = do
    found ← attempt (look (find_remote provider.openconnector_service connection.connection_name))
    reconcile_found id connection (flat found)

  module _ (providers : List Provider) (id : Text) where
    unfoldable pub reconcile_pending_connection :
        IntegrationConnection → GatewayM State Response ConnectionSummaryOut
    unfolding finish_and_summarize
    reconcile_pending_connection connection =
        reconcile_with id connection (find_provider o providers connection.provider_id)

    abbrev pub local_entry : IntegrationConnection → GatewayM State Response ConnectionSummaryOut
    local_entry connection =
        if status_eq connection.status pending
        then reconcile_pending_connection connection
        else pure (as_stored connection)

    -- The first loop.
    unfoldable pub local_entries :
        List IntegrationConnection → GatewayM State Response (List ConnectionSummaryOut)
    local_entries [] = pure []
    local_entries (connection ∷ connections) = do
      entry ← local_entry connection
      entries ← local_entries connections
      pure (entry ∷ entries)

  -- The second loop, over the providers without a row.
  abbrev pub found_entry :
      Text
      → Provider
      → Option ConnectionSummary
      → GatewayM State Response (List ConnectionSummaryOut)
      → GatewayM State Response (List ConnectionSummaryOut)
  found_entry id provider none later = later
  found_entry id provider (some summary) later = do
    entry ← finish_and_summarize id provider.id summary
    entries ← later
    pure (entry ∷ entries)

  unfoldable pub discovered_entries :
      Text
      → List Text
      → List ConnectionSummary
      → List Provider
      → GatewayM State Response (List ConnectionSummaryOut)
  discovered_entries id known remote [] = pure []
  discovered_entries id known remote (provider ∷ providers) =
      let later = discovered_entries id known remote providers in
      let live = find? (is_configured (workspace_connection_name id) provider) remote in
      if contains known provider.id then later else found_entry id provider live later

  module _ (providers : List Provider) (id : Text) where
    abbrev pub entries_with :
        List IntegrationConnection
        → List ConnectionSummary
        → GatewayM State Response (List ConnectionSummaryOut)
    entries_with connections remote = do
      entries ← local_entries providers id connections
      let known = map (λ (c : IntegrationConnection). c.provider_id) connections
      found ← discovered_entries id known remote providers
      pure (entries ++ found)

    abbrev pub with_remote :
        List IntegrationConnection → GatewayM State Response (List ConnectionSummaryOut)
    with_remote connections = do
      remote ← attempt (look list_remote)
      entries_with connections (or_empty remote)

    unfoldable pub list_integrations_route : GatewayM State Response (List ConnectionSummaryOut)
    unfolding local_entries discovered_entries
    list_integrations_route = do
      in_workspaces (resolve_existing_workspace id)
      connections ← map_err list_failed (in_store (list_connections id))
      with_remote connections
