-- ===== src/Workspaces/Rows.antt =====
-- The table `workspace_creations` (migrations 0001 to 0003, 0009, 0010) and the types that
-- workspaces/store.rs reads out of it. Rows are listed in `rowid` order, oldest first.
use Prim.Native.Nat.{ℕ}
use Prim.Native.String.{String}
use mathlib.Core.Path.{◌≡◌, refl}
use mathlib.Core.Bool.{Bool, true, false}
use mathlib.Core.Option.{Option}
use text.Mathlib.Text.{◌==◌ as str_eq}
use aglack.Prelude.Tests.{if◌then◌else◌}
use aglack.Prelude.Text.{Text}

pub data WorkspaceStatus : Type 0 where
  creating ready failed : WorkspaceStatus

abbrev pub as_db_str : WorkspaceStatus → String
as_db_str creating = "creating"
as_db_str ready = "ready"
as_db_str failed = "failed"

unfoldable pub from_db_str : String → WorkspaceStatus
from_db_str raw =
    if str_eq raw "ready" then ready else if str_eq raw "failed" then failed else creating

abbrev pub status_eq : WorkspaceStatus → WorkspaceStatus → Bool
status_eq creating creating = true
status_eq ready ready = true
status_eq failed failed = true
status_eq _ _ = false

pub record WorkspaceRecord : Type 0 where
  pub workspace_id : Text
  pub status : WorkspaceStatus
  pub container_name : Option Text
  pub host_port : Option ℕ
  pub desktop_port : Option ℕ
  pub browser_port : Option ℕ

pub record WorkspaceListItem : Type 0 where
  pub workspace_id : Text
  pub name : Text
  pub status : WorkspaceStatus
  pub host_port : Option ℕ
  pub desktop_port : Option ℕ
  pub browser_port : Option ℕ
  pub created_at : Text

pub record Row : Type 0 where
  pub idempotency_key : Text
  pub workspace_id : Text
  pub status : String
  pub container_name : Option Text
  pub created_at : Text
  pub host_port : Option ℕ
  pub desktop_port : Option ℕ
  pub browser_port : Option ℕ
  pub owner_google_sub : Option Text

abbrev pub record_from_row : Row → WorkspaceRecord
record_from_row row = record {
  workspace_id = row.workspace_id;
  status = from_db_str row.status;
  container_name = row.container_name;
  host_port = row.host_port;
  desktop_port = row.desktop_port;
  browser_port = row.browser_port;
}

-- A status that is written and read back is the same.
pub from_db_str-as_db_str : (s : WorkspaceStatus) → from_db_str (as_db_str s) ≡ s
unfolding from_db_str
from_db_str-as_db_str creating = refl
from_db_str-as_db_str ready = refl
from_db_str-as_db_str failed = refl

pub status_of_eq : (s : WorkspaceStatus) → status_eq s ready ≡ true → s ≡ ready
status_of_eq creating e = cc
status_of_eq ready e = refl
status_of_eq failed e = cc
