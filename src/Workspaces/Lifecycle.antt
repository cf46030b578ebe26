-- ===== src/Workspaces/Lifecycle.antt =====
-- workspaces/mod.rs: `create_workspace`, `delete_workspace`, `launch_and_record`.
pub mod Safety
pub mod Retry
pub mod Failures
pub mod Deletion
pub mod Outcomes
use Prim.Native.Nat.{ℕ, zero, suc, ◌+◌, ◌*◌, ◌^◌, min}
use mathlib.Core.Option.{Option, none, some}
use aglack.Prelude.Tests.{if◌then◌else◌, leb}
use aglack.Prelude.Lists.{is_some}
use aglack.Prelude.Text.{Text}
use aglack.Prelude.Exec.{Result, good, bad, pure, throw, ◌>>=◌, ◌>>◌, attempt, ignore}
use aglack.Workspaces.Rows.{WorkspaceRecord, ready, status_eq}
use aglack.Workspaces.Reads.{find, find_by_workspace_id}
use aglack.Workspaces.Writes.{begin_creation, mark_ready, mark_failed, delete_by_workspace_id}
use aglack.Workspaces.Host.{
  CreateWorkspaceError, Host, LaunchedContainer, launches, removes, WorldM, on_store, call, sleep,
}

-- `max_attempts` is a `u32`, `base_delay` a `Duration`, here in milliseconds.
pub record LaunchRetryPolicy : Type 0 where
  pub max_attempts : ℕ
  pub base_delay : ℕ

abbrev pub production : LaunchRetryPolicy
production = record { max_attempts = 3; base_delay = 200 }

-- `saturating_pow` on `u32`.
unfoldable pub delay_for : LaunchRetryPolicy → ℕ → ℕ
delay_for policy attempts = policy.base_delay * min (2 ^ attempts) 4294967295

-- How the `loop` ends: by the `return` inside, or by `break launch_err`.
pub data LoopEnd : Type 0 where
  returned : WorkspaceRecord → LoopEnd
  broke : CreateWorkspaceError → LoopEnd

module _ (h : Host) where
  open h use {State, launch, remove}

  -- The arms of the `match` on a launch's result.
  abbrev after_launch :
      LaunchRetryPolicy
      → Text
      → ℕ
      → (CreateWorkspaceError → WorldM State LoopEnd)
      → Result CreateWorkspaceError LaunchedContainer
      → WorldM State LoopEnd
  after_launch policy key attempts again (good c) = do
    record' ←
        on_store (mark_ready key c.container_name c.wrapper_port c.desktop_port c.browser_port)
    pure (returned record')
  after_launch policy key attempts again (bad e) =
      if leb policy.max_attempts (attempts + 1)
      then pure (broke e)
      else do sleep (delay_for policy attempts); again e

  -- One round of the loop; `again` is the next round.
  pub round :
      LaunchRetryPolicy
      → Text
      → Text
      → ℕ
      → (CreateWorkspaceError → WorldM State LoopEnd)
      → WorldM State LoopEnd
  round policy key id attempts again = do
    launched ← attempt (call (launches id) (launch id))
    after_launch policy key attempts again launched

  -- The loop with fuel for `fuel` more rounds behind this one. The `break` is reached first where
  -- the fuel is at least `max_attempts - 1`.
  pub launch_loop : LaunchRetryPolicy → Text → Text → ℕ → ℕ → WorldM State LoopEnd
  unfolding round
  launch_loop policy key id zero attempts = round policy key id attempts (λ e. pure (broke e))
  launch_loop policy key id (suc fuel) attempts =
      round policy key id attempts (λ e. launch_loop policy key id fuel (attempts + 1))

  abbrev conclude : Text → LoopEnd → WorldM State WorkspaceRecord
  conclude key (returned record') = pure record'
  conclude key (broke e) = do ignore (on_store (mark_failed key)); throw e

  unfoldable pub launch_and_record : Text → Text → WorldM State WorkspaceRecord
  unfolding launch_loop
  launch_and_record key id = do
    end ← launch_loop production key id production.max_attempts 0
    conclude key end

  abbrev resume : Text → WorkspaceRecord → WorldM State WorkspaceRecord
  resume key existing =
      if status_eq existing.status ready
      then pure existing
      else launch_and_record key existing.workspace_id

  abbrev begin : Text → Text → WorldM State WorkspaceRecord
  begin key new_id = do
    record' ← on_store (begin_creation key new_id)
    if is_some record'.container_name
        then pure record'
        else launch_and_record key record'.workspace_id

  -- `new_id` is the UUID that the call would draw.
  unfoldable pub create_workspace : Text → Text → WorldM State WorkspaceRecord
  create_workspace key new_id = do
    found ← on_store (find key)
    elim found [ some existing ↦ resume key existing | none ↦ begin key new_id ]

  abbrev remove_container : Option Text → WorldM State (Unit {0})
  remove_container none = pure tt
  remove_container (some name) = call (removes name) (remove name)

  abbrev delete_found : Text → Option WorkspaceRecord → WorldM State (Option WorkspaceRecord)
  delete_found id none = pure none
  delete_found id (some record') = do
    remove_container record'.container_name
    on_store (delete_by_workspace_id id)
    pure (some record')

  unfoldable pub delete_workspace : Text → WorldM State (Option WorkspaceRecord)
  delete_workspace id = do found ← on_store (find_by_workspace_id id); delete_found id found
