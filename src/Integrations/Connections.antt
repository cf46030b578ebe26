-- ===== src/Integrations/Connections.antt =====
-- integrations/store.rs: the connections of `IntegrationStore`.
pub mod Laws
use Prim.Native.Nat.{ℕ}
use mathlib.Core.Bool.{Bool, true, false, ◌&&◌, ◌||◌, not}
use mathlib.Core.Option
use mathlib.Core.Option.{Option, some, none}
use mathlib.Core.List.{List, [], ◌∷◌, ◌++◌, map}
use aglack.Prelude.Text.{Text, ◌==◌, codes}
use aglack.Prelude.Tests.{if◌then◌else◌}
use aglack.Prelude.Decimal.{to_text, text_lt}
use aglack.Prelude.Lists.{find?, keep, any, update_where}
use aglack.Prelude.Exec.{Exec, pure, throw, get_state, put_state, ◌>>=◌, ◌>>◌}
use aglack.Workspaces.Db.{unique_violation}
use aglack.Integrations.Rows.{
  ConnectionStatus, pending, disconnected, errored, as_db_str, ConnectionRow, IntegrationConnection,
  connection_from_row,
}
use aglack.Integrations.Tokens.{TokenM, token_statement}

-- The rows of a workspace, and its row for one provider.
abbrev pub of_workspace : Text → ConnectionRow → Bool
of_workspace id row = row.workspace_id == id

abbrev pub of_provider : Text → Text → ConnectionRow → Bool
of_provider id provider row = of_workspace id row && (row.provider_id == provider)

unfoldable pub find_connection : Text → Text → TokenM (Option IntegrationConnection)
unfolding connection_from_row
find_connection id provider = do
  token_statement
  db ← get_state
  pure (Option.map connection_from_row (find? (of_provider id provider) db.connections))

-- `ORDER BY provider_id`, by insertion.
place_row : ConnectionRow → List ConnectionRow → List ConnectionRow
place_row row [] = row ∷ []
place_row row (r ∷ rows) =
    let later = place_row row rows in
    if text_lt r.provider_id row.provider_id then r ∷ later else row ∷ r ∷ rows

unfoldable pub by_provider : List ConnectionRow → List ConnectionRow
unfolding place_row
by_provider [] = []
by_provider (row ∷ rows) = place_row row (by_provider rows)

unfoldable pub list_connections : Text → TokenM (List IntegrationConnection)
unfolding connection_from_row by_provider
list_connections id = do
  token_statement
  db ← get_state
  pure (map connection_from_row (by_provider (keep (of_workspace id) db.connections)))

-- The `SET` of the conflict clause: all but the id.
abbrev pub overwrite : ConnectionRow → ConnectionRow → ConnectionRow
overwrite new old = record old {
  connection_name = new.connection_name;
  openconnector_connection_id = new.openconnector_connection_id;
  status = new.status;
  account_label = new.account_label;
  last_error = none;
  updated_at = new.updated_at;
}

abbrev pub upserted_row : ConnectionRow → List ConnectionRow → List ConnectionRow
upserted_row row rows =
    if any (of_provider row.workspace_id row.provider_id) rows
    then update_where (of_provider row.workspace_id row.provider_id) (overwrite row) rows
    else rows ++ row ∷ []

-- The primary key is taken by another row.
abbrev pub id_taken : ConnectionRow → List ConnectionRow → Bool
id_taken row rows =
    any (λ r. (r.id == row.id) && not (of_provider row.workspace_id row.provider_id r)) rows

abbrev pub new_row :
    Text → Text → Text → Text → Option Text → ConnectionStatus → Option Text → ℕ → ConnectionRow
new_row id workspace provider connection_name openconnector_id status account_label now = record {
  id = id;
  workspace_id = workspace;
  provider_id = provider;
  connection_name = connection_name;
  openconnector_connection_id = openconnector_id;
  status = as_db_str status;
  account_label = account_label;
  last_error = none;
  updated_at = to_text now;
}

abbrev pub put_row : ConnectionRow → TokenM (Unit {0})
put_row row db =
    if id_taken row db.connections
    then throw unique_violation db
    else put_state (record db { connections = upserted_row row db.connections }) db

-- `INSERT … ON CONFLICT (workspace_id, provider_id) DO UPDATE`.
unfoldable pub upsert_connection :
    Text → Text → Text → Text → Option Text → ConnectionStatus → Option Text → TokenM (Unit {0})
upsert_connection id workspace provider connection_name openconnector_id status account_label = do
  token_statement
  db ← get_state
  put_row
      (new_row id workspace provider connection_name openconnector_id status account_label db.now)

unfoldable pub mark_pending : Text → Text → Text → Text → TokenM (Unit {0})
unfolding upsert_connection
mark_pending id workspace provider connection_name =
    upsert_connection id workspace provider connection_name none pending none

unfoldable pub mark_disconnected : Text → Text → TokenM (Unit {0})
unfolding as_db_str to_text
mark_disconnected workspace provider = do
  token_statement
  db ← get_state
  put_state (record db {
    connections =
        update_where (of_provider workspace provider)
          (λ row. record row { status = as_db_str disconnected; updated_at = to_text db.now })
          db.connections;
  })

unfoldable pub mark_error : Text → Text → Text → TokenM (Unit {0})
unfolding as_db_str to_text
mark_error workspace provider reason = do
  token_statement
  db ← get_state
  put_state (record db {
    connections =
        update_where (of_provider workspace provider)
          (λ row. record row {
            status = as_db_str errored;
            last_error = some reason;
            updated_at = to_text db.now;
          })
          db.connections;
  })
