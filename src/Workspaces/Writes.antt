-- ===== src/Workspaces/Writes.antt =====
-- workspaces/store.rs: the statements of `WorkspaceStore` that change the table.
pub mod Validity
pub mod Outcomes
use Prim.Native.Nat.{ℕ}
use mathlib.Core.Bool.{Bool, not}
use mathlib.Core.Option.{Option, none, some}
use mathlib.Core.List.{[], ◌∷◌, ◌++◌}
use aglack.Prelude.Tests.{if◌then◌else◌}
use aglack.Prelude.Lists.{any, keep, update_where}
use aglack.Prelude.Text.{Text}
use aglack.Prelude.Decimal.{to_text}
use aglack.Prelude.Exec.{Result, good, bad, pure, throw, ◌>>=◌, ◌>>◌, get_state, attempt}
use aglack.Workspaces.Rows.{
  Row, creating, ready, failed, as_db_str, from_db_str, WorkspaceRecord, record_from_row,
}
use aglack.Workspaces.Db.{
  SqlxError, unique_violation, row_not_found, StoreM, query, set_rows, has_key, has_id,
}
use aglack.Workspaces.Reads.{find, find_by_workspace_id}

unfoldable pub set_owner : Text → Text → StoreM (Unit {0})
unfolding set_rows
set_owner id owner = do
  query
  set_rows (update_where (has_id id) (λ row. record row { owner_google_sub = some owner }))

-- `.ok_or(sqlx::Error::RowNotFound)`
or_not_found : Option WorkspaceRecord → StoreM WorkspaceRecord
or_not_found none = throw row_not_found
or_not_found (some record') = pure record'

-- `INSERT`, which the primary key refuses where the key has a row already.
insert_row : Row → StoreM (Unit {0})
insert_row row = do
  query
  db ← get_state
  if any (has_key row.idempotency_key) db.rows
      then throw unique_violation
      else set_rows (λ rows. rows ++ row ∷ [])

abbrev pub new_row : Text → Text → Text → Row
new_row key id now = record {
  idempotency_key = key;
  workspace_id = id;
  status = as_db_str creating;
  container_name = none;
  created_at = now;
  host_port = none;
  desktop_port = none;
  browser_port = none;
  owner_google_sub = none;
}

-- The `match insert_result` of `begin_creation`.
claim : Text → Text → Result SqlxError (Unit {0}) → StoreM WorkspaceRecord
unfolding or_not_found
claim key id (good done) = pure (record_from_row (new_row key id []))
claim key id (bad unique_violation) = do found ← find key; or_not_found found
claim key id (bad other) = throw other

unfoldable pub begin_creation : Text → Text → StoreM WorkspaceRecord
unfolding insert_row claim set_rows from_db_str
begin_creation key id = do
  db ← get_state
  inserted ← attempt (insert_row (new_row key id (to_text db.now)))
  claim key id inserted

-- The `SET` of both `UPDATE`s that mark a row ready, and of both that mark one failed.
abbrev pub set_ready : Text → ℕ → ℕ → ℕ → Row → Row
set_ready container host desktop browser row = record row {
  status = as_db_str ready;
  container_name = some container;
  host_port = some host;
  desktop_port = some desktop;
  browser_port = some browser;
}

abbrev pub set_failed : Row → Row
set_failed row = record row { status = as_db_str failed }

unfoldable pub mark_ready : Text → Text → ℕ → ℕ → ℕ → StoreM WorkspaceRecord
unfolding set_rows or_not_found
mark_ready key container host desktop browser = do
  query
  set_rows (update_where (has_key key) (set_ready container host desktop browser))
  found ← find key
  or_not_found found

unfoldable pub mark_failed : Text → StoreM WorkspaceRecord
unfolding set_rows or_not_found
mark_failed key = do
  query
  set_rows (update_where (has_key key) set_failed)
  found ← find key
  or_not_found found

unfoldable pub delete_by_workspace_id : Text → StoreM Bool
unfolding set_rows
delete_by_workspace_id id = do
  query
  db ← get_state
  set_rows (keep (λ row. not (has_id id row)))
  pure (any (has_id id) db.rows)

unfoldable pub mark_ready_by_workspace_id :
    Text → Text → ℕ → ℕ → ℕ → StoreM (Option WorkspaceRecord)
unfolding set_rows
mark_ready_by_workspace_id id container host desktop browser = do
  query
  set_rows (update_where (has_id id) (set_ready container host desktop browser))
  find_by_workspace_id id

unfoldable pub mark_failed_by_workspace_id : Text → StoreM (Option WorkspaceRecord)
unfolding set_rows
mark_failed_by_workspace_id id = do
  query
  set_rows (update_where (has_id id) set_failed)
  find_by_workspace_id id
