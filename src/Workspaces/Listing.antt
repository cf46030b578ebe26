-- ===== src/Workspaces/Listing.antt =====
-- workspaces/route/list.rs: `GET /workspaces`. The live checks of a page run concurrently and are
-- put back in the page's order, so that they are one after the other here. The health mode is the
-- query's text.
pub mod Pages
pub mod Examples
use Prim.Native.Nat.{ℕ, min}
use Prim.Native.String.{String}
use mathlib.Core.Bool.{Bool, true, false}
use mathlib.Core.Option
use mathlib.Core.Option.{Option, none, some}
use mathlib.Core.List.{List, [], ◌∷◌}
use aglack.Prelude.Text.{Text, codes, ◌==◌}
use aglack.Prelude.Tests.{if◌then◌else◌}
use aglack.Prelude.Exec.{Result, good, bad, Exec, pure, throw, ◌>>=◌, ◌>>◌, attempt, map_err}
use aglack.Response.{Response, error, bad_request, internal_server_error}
use aglack.Workspaces.Rows.{WorkspaceListItem, WorkspaceStatus, ready, creating, failed, as_db_str}
use aglack.Workspaces.Reads.{list, list_for_owner}
use aglack.Workspaces.Db.{StoreM}
use aglack.Workspaces.Resolve.{as_u16}
use aglack.Workspaces.Host.{CreateWorkspaceError, Host, World, on_store, probe}

-- An `i64` of the query: `pos n` is n, `negsuc n` is -(n + 1).
pub data ℤ : Type 0 where
  pos negsuc : ℕ → ℤ

pub record ListWorkspacesQuery : Type 0 where
  pub limit : Option ℤ
  pub offset : Option ℤ
  pub health : Option Text

pub data HealthMode : Type 0 where
  live skip : HealthMode

pub record WorkspaceListItemData : Type 0 where
  pub workspace_id : Text
  pub name : Text
  pub status : String
  pub healthy : Option Bool
  pub host_port : Option ℕ
  pub desktop_port : Option ℕ
  pub created_at : Text

pub record ListWorkspacesData : Type 0 where
  pub workspaces : List WorkspaceListItemData
  pub limit : ℕ
  pub offset : ℕ

abbrev pub default_list_limit : ℕ
default_list_limit = 50

abbrev pub max_list_limit : ℕ
max_list_limit = 200

-- In milliseconds.
abbrev pub health_check_timeout : ℕ
health_check_timeout = 2000

abbrev pub parse_health_mode : Option Text → Option HealthMode
parse_health_mode none = some live
parse_health_mode (some health) = if health == codes "skip" then some skip else none

-- A number of the query that must not be negative, or its default.
abbrev pub non_negative : ℕ → Option ℤ → Option ℕ
non_negative default none = some default
non_negative default (some (pos n)) = some n
non_negative default (some (negsuc n)) = none

abbrev pub item_data : WorkspaceListItem → Option Bool → WorkspaceListItemData
item_data item healthy = record {
  workspace_id = item.workspace_id;
  name = item.name;
  status = as_db_str item.status;
  healthy = healthy;
  host_port = item.host_port;
  desktop_port = item.desktop_port;
  created_at = item.created_at;
}

abbrev listed_by : Option Text → ℕ → ℕ → StoreM (List WorkspaceListItem)
listed_by none limit offset = list limit offset
listed_by (some sub) limit offset = list_for_owner sub limit offset

module _ (h : Host) where
  open h use {State, check_wrapper}

  abbrev health_of :
      WorkspaceStatus → Option ℕ → Exec (World State) CreateWorkspaceError (Option Bool)
  health_of ready (some port) = do
    healthy ← probe (check_wrapper (as_u16 port) health_check_timeout)
    pure (some healthy)
  health_of _ _ = pure (some false)

  -- `run_health_checks` and `build_list_items`, item by item. A check that panics counts as false.
  abbrev checked_item :
      HealthMode → WorkspaceListItem → Exec (World State) Response WorkspaceListItemData
  checked_item skip item = pure (item_data item none)
  checked_item live item = do
    healthy ← attempt (health_of item.status item.host_port)
    pure (item_data item (of_result healthy))
    where
      of_result : Result CreateWorkspaceError (Option Bool) → Option Bool
      of_result (good healthy) = healthy
      of_result (bad e) = some false

  build_list_items :
      HealthMode → List WorkspaceListItem → Exec (World State) Response (List WorkspaceListItemData)
  build_list_items mode [] = pure []
  build_list_items mode (item ∷ items) = do
    first ← checked_item mode item
    rest ← build_list_items mode items
    pure (first ∷ rest)

  abbrev list_page :
      Option Text
      → Option ℕ
      → Option ℕ
      → Option HealthMode
      → Exec (World State) Response ListWorkspacesData
  list_page user none limit mode = throw (error bad_request "invalid_pagination")
  list_page user (some offset) none mode = throw (error bad_request "invalid_pagination")
  list_page user (some offset) (some limit) none = throw (error bad_request "invalid_health_mode")
  list_page user (some offset) (some limit) (some mode) = do
    items ←
        map_err (λ e. error internal_server_error "workspace_list_failed")
          (on_store (listed_by user (min limit max_list_limit) offset))
    workspaces ← build_list_items mode items
    pure (record { workspaces = workspaces; limit = min limit max_list_limit; offset = offset })

  -- `user` is the authenticated user's id, if there is one.
  unfoldable pub list_workspaces_route_inner :
      ListWorkspacesQuery → Option Text → Exec (World State) Response ListWorkspacesData
  unfolding build_list_items
  list_workspaces_route_inner query user =
      list_page user (non_negative 0 query.offset) (non_negative default_list_limit query.limit)
        (parse_health_mode query.health)
