-- ===== src/Workspaces/Reads.antt =====
-- workspaces/store.rs: the lookups and listings of `WorkspaceStore`.
pub mod Order
use Prim.Native.Nat.{ℕ}
use mathlib.Core.Bool.{Bool, false, ◌&&◌}
use mathlib.Core.Option
use mathlib.Core.Option.{Option, none, some}
use mathlib.Core.List.{List, [], ◌∷◌, map, reverse}
use text.Mathlib.Text.{◌==◌ as str_eq}
use aglack.Prelude.Tests.{if◌then◌else◌}
use aglack.Prelude.Lists.{is_some, find?, keep, take, drop}
use aglack.Prelude.Text.{Text, ◌==◌}
use aglack.Prelude.Decimal.{text_lt}
use aglack.Prelude.Exec.{pure, ◌>>=◌, ◌>>◌, get_state}
use aglack.Workspaces.Rows.{
  Row, ready, as_db_str, from_db_str, WorkspaceRecord, WorkspaceListItem, record_from_row,
}
use aglack.Workspaces.Db.{StoreM, query, has_key, has_id}

unfoldable pub find : Text → StoreM (Option WorkspaceRecord)
find key = do query; db ← get_state; pure (Option.map record_from_row (find? (has_key key) db.rows))

unfoldable pub find_by_workspace_id : Text → StoreM (Option WorkspaceRecord)
find_by_workspace_id id = do
  query
  db ← get_state
  pure (Option.map record_from_row (find? (has_id id) db.rows))

abbrev is_ready_with_container : Row → Bool
is_ready_with_container row = str_eq row.status (as_db_str ready) && is_some row.container_name

unfoldable pub list_ready_with_container : StoreM (List WorkspaceRecord)
list_ready_with_container = do
  query
  db ← get_state
  pure (map record_from_row (keep is_ready_with_container db.rows))

-- `ORDER BY created_at DESC, rowid DESC`: `newest` takes the rows newest `rowid` first, and puts
-- each behind those that were created in the same second.
place : Row → List Row → List Row
place row [] = row ∷ []
place row (r ∷ rs) =
    let later = r ∷ place row rs in
    if text_lt row.created_at r.created_at then later else row ∷ r ∷ rs

unfoldable pub newest : List Row → List Row
unfolding place
newest [] = []
newest (row ∷ rows) = place row (newest rows)

abbrev pub list_item : Row → WorkspaceListItem
list_item row = record {
  workspace_id = row.workspace_id;
  name = row.idempotency_key;
  status = from_db_str row.status;
  host_port = row.host_port;
  desktop_port = row.desktop_port;
  browser_port = row.browser_port;
  created_at = row.created_at;
}

unfoldable pub list : ℕ → ℕ → StoreM (List WorkspaceListItem)
list limit offset = do
  query
  db ← get_state
  pure (map list_item (take limit (drop offset (newest (reverse db.rows)))))

abbrev pub owner_is : Option Text → Text → Bool
owner_is none owner = false
owner_is (some sub) owner = sub == owner

abbrev pub has_owner : Text → Row → Bool
has_owner owner row = owner_is row.owner_google_sub owner

unfoldable pub list_for_owner : Text → ℕ → ℕ → StoreM (List WorkspaceListItem)
list_for_owner owner limit offset = do
  query
  db ← get_state
  pure
      (map list_item (take limit (drop offset (newest (reverse (keep (has_owner owner) db.rows))))))
