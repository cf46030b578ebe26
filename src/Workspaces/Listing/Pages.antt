-- ===== src/Workspaces/Listing/Pages.antt =====
-- What a page shows.
use Prim.Native.Nat.{ℕ, min, ◌≤◌}
use mathlib.Core.Path.{◌≡◌}
use mathlib.Core.Bool.{true}
use mathlib.Core.Option.{Option, some}
use mathlib.Core.List.{List, map, reverse}
use aglack.Prelude.Text.{Text}
use aglack.Prelude.Lists.{All, keep, take, drop, length}
use aglack.Prelude.Post.{Post}
use aglack.Workspaces.Rows.{Row, WorkspaceListItem}
use aglack.Workspaces.Db.{Db, query}
use aglack.Workspaces.Reads.{has_owner, newest}
use aglack.Workspaces.Host.{Host}
use aglack.Workspaces.Listing.{
  ListWorkspacesQuery, WorkspaceListItemData, ListWorkspacesData, non_negative,
}

-- The user's rows that a page starts at `offset` and holds at most `limit` of, newest first.
abbrev pub page_rows : Text → ℕ → ℕ → List Row → List Row
page_rows sub limit offset rows =
    take limit (drop offset (newest (reverse (keep (has_owner sub) rows))))

abbrev pub shown : WorkspaceListItemData → Text × Text
shown d = (d.workspace_id, d.name)

abbrev shown_item : WorkspaceListItem → Text × Text
shown_item i = (i.workspace_id, i.name)

abbrev pub shown_row : Row → Text × Text
shown_row row = (row.workspace_id, row.idempotency_key)

-- The page shows the ids and names of these rows, all of them the user's and at most 200. It starts
-- where the query asks and is as long as the query asks, up to 200.
pub record OwnPage (query : ListWorkspacesQuery) (sub : Text) (rows : List Row)
    (page : ListWorkspacesData) : Type 0 where
  pub limit : ℕ
  pub limit_asked : non_negative 50 query.limit ≡ some limit
  pub limit_kept : page.limit ≡ min limit 200
  pub offset_asked : non_negative 0 query.offset ≡ some page.offset
  pub limit_small : page.limit ≤ 200
  pub entries :
      map shown page.workspaces ≡ map shown_row (page_rows sub page.limit page.offset rows)
  pub owned : All (λ row. has_owner sub row ≡ true) (page_rows sub page.limit page.offset rows)
  pub few : length (page_rows sub page.limit page.offset rows) ≤ 200
