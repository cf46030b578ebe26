-- ===== src/Workspaces/Lifecycle/Safety.antt =====
-- The table stays valid through creation and deletion, whatever the database and the host answer.
use Prim.Native.Nat.{ℕ, zero, suc, ◌+◌}
use mathlib.Core.Path.{◌≡◌, refl}
use mathlib.Core.Logic.{inl, inr}
use mathlib.Core.Option.{Option, none, some}
use native.Mathlib.Omega.{arith}
use aglack.Prelude.Lists.{is_some}
use aglack.Prelude.Tests.{leb}
use aglack.Prelude.Text.{Text}
use aglack.Prelude.Exec.{ok, Result, good, bad, pure, throw, attempt, ignore, Run-cases}
use aglack.Prelude.Keeps.{Keeps->>=, Keeps->>=_of_ok, Keeps-attempt, Keeps-ignore, Keeps-if}
use aglack.Workspaces.Rows.{WorkspaceRecord, ready, status_eq}
use aglack.Workspaces.Reads.{find, find_by_workspace_id}
use aglack.Workspaces.Writes.{begin_creation, mark_ready, mark_failed, delete_by_workspace_id}
use aglack.Workspaces.Writes.Validity.{
  find-keeps, find_by_workspace_id-keeps, begin_creation-keeps, mark_ready-keeps, mark_failed-keeps,
  delete_by_workspace_id-keeps,
}
use aglack.Workspaces.Host.{
  CreateWorkspaceError, Host, LaunchedContainer, removes, launches, World, WorldM, on_store, call,
}
use aglack.Workspaces.Lifecycle.{
  LaunchRetryPolicy, LoopEnd, returned, broke, after_launch, round, launch_loop, conclude,
  production, launch_and_record, resume, begin, create_workspace, remove_container, delete_found,
  delete_workspace,
}
use aglack.Workspaces.Safety.{
  Safe, WorldIsValid, on_store-Safe, then_store-Safe, call-Safe, HasPorts, LaunchesPorts,
}
use aglack.Prelude.Exec.{◌>>◌}

module _ (h : Host) (ports : LaunchesPorts h) where
  open h use {State, launch, remove}

  launch_ports :
      (id : Text) (w w' : World State) (c : LaunchedContainer)
      → attempt {F = CreateWorkspaceError} (call (launches id) (launch id)) w ≡ ok (good c) w'
      → HasPorts c
  launch_ports id w w' c e = elim (Run-cases (launch id w.host)) [
    | inl (c', host, l) ↦
        let same : c' ≡ c = ground (arith, l) in rw (← same) (ports id w.host host c' l)
    | inr (x, host, l) ↦ absurd (ground (arith, l))
  ]

  after_launch-Safe :
      (policy : LaunchRetryPolicy) (key : Text) (attempts : ℕ)
      (again : CreateWorkspaceError → WorldM State LoopEnd)
      → ((e : CreateWorkspaceError) → Safe (again e))
      → (r : Result CreateWorkspaceError LaunchedContainer)
      → ((c : LaunchedContainer) → r ≡ good c → HasPorts c)
      → Safe (after_launch h policy key attempts again r)
  after_launch-Safe policy key attempts again k (good c) fits =
      let f = fits c refl in
      then_store-Safe (mark_ready key c.container_name c.wrapper_port c.desktop_port c.browser_port)
        (λ r. pure (returned r))
        (mark_ready-keeps c.container_name c.wrapper_port c.desktop_port c.browser_port
          f.wrapper_fits f.desktop_fits f.browser_fits key)
        (λ r w v. v)
  after_launch-Safe policy key attempts again k (bad e) fits =
      Keeps-if WorldIsValid (leb policy.max_attempts (attempts + 1)) (pure (broke e)) _ (λ w v. v)
        (λ w v. k e _ v)

  round-Safe :
      (policy : LaunchRetryPolicy) (key id : Text) (attempts : ℕ)
      (again : CreateWorkspaceError → WorldM State LoopEnd)
      → ((e : CreateWorkspaceError) → Safe (again e))
      → Safe (round h policy key id attempts again)
  unfolding round
  round-Safe policy key id attempts again k =
      Keeps->>=_of_ok WorldIsValid (attempt (call (launches id) (launch id)))
        (after_launch h policy key attempts again)
        (Keeps-attempt WorldIsValid CreateWorkspaceError (call (launches id) (launch id))
          (call-Safe (launches id) (launch id)))
        λ w w' r e v.
          after_launch-Safe policy key attempts again k r
            (λ c same. launch_ports id w w' c (rw same at e)) w' v

  launch_loop-Safe :
      (policy : LaunchRetryPolicy) (key id : Text) (fuel attempts : ℕ)
      → Safe (launch_loop h policy key id fuel attempts)
  unfolding launch_loop
  launch_loop-Safe policy key id zero attempts =
      round-Safe policy key id attempts (λ e. pure (broke e)) (λ e w v. v)
  launch_loop-Safe policy key id (suc fuel) attempts =
      round-Safe policy key id attempts (λ e. launch_loop h policy key id fuel (attempts + 1))
        (λ e. launch_loop-Safe policy key id fuel (attempts + 1))

  conclude-Safe : (key : Text) (end : LoopEnd) → Safe (conclude h key end)
  conclude-Safe key (returned r) w v = v
  conclude-Safe key (broke e) w v =
      Keeps->>= WorldIsValid (ignore (on_store (mark_failed key))) (λ _. throw e)
        (Keeps-ignore WorldIsValid CreateWorkspaceError (on_store (mark_failed key))
          (on_store-Safe (mark_failed key) (mark_failed-keeps key)))
        (λ _ w v. v) w v

  pub launch_and_record-Safe : (key id : Text) → Safe (launch_and_record h key id)
  unfolding launch_and_record
  launch_and_record-Safe key id =
      Keeps->>= WorldIsValid (launch_loop h production key id production.max_attempts 0)
        (conclude h key) (launch_loop-Safe production key id production.max_attempts 0)
        (conclude-Safe key)

  resume-Safe : (key : Text) (r : WorkspaceRecord) → Safe (resume h key r)
  resume-Safe key r =
      Keeps-if WorldIsValid (status_eq r.status ready) (pure r)
        (launch_and_record h key r.workspace_id) (λ w v. v)
        (launch_and_record-Safe key r.workspace_id)

  begin-Safe : (key new_id : Text) → Safe (begin h key new_id)
  begin-Safe key new_id =
      then_store-Safe (begin_creation key new_id) _ (begin_creation-keeps key new_id) λ r.
        Keeps-if WorldIsValid (is_some r.container_name) (pure r)
          (launch_and_record h key r.workspace_id) (λ w v. v)
          (launch_and_record-Safe key r.workspace_id)

  create_found-Safe :
      (key new_id : Text) (found : Option WorkspaceRecord)
      → Safe (elim found [ some existing ↦ resume h key existing | none ↦ begin h key new_id ])
  create_found-Safe key new_id (some existing) = resume-Safe key existing
  create_found-Safe key new_id none = begin-Safe key new_id

  -- Creating a workspace keeps the table valid: keys stay distinct, and a row that reads as ready
  -- has its container and all three ports, also where the launch or the database fails midway.
  pub create_workspace-Safe : (key new_id : Text) → Safe (create_workspace h key new_id)
  unfolding create_workspace
  create_workspace-Safe key new_id =
      then_store-Safe (find key) _ (find-keeps key) (create_found-Safe key new_id)

module _ (h : Host) where
  open h use {State}

  remove_container-Safe : (name : Option Text) → Safe (remove_container h name)
  remove_container-Safe none w v = v
  remove_container-Safe (some name) w v = call-Safe (removes name) (h.remove name) w v

  delete_found-Safe : (id : Text) (found : Option WorkspaceRecord) → Safe (delete_found h id found)
  delete_found-Safe id none w v = v
  delete_found-Safe id (some r) w v =
      Keeps->>= WorldIsValid (remove_container h r.container_name)
        (λ _. do on_store (delete_by_workspace_id id); pure (some r))
        (remove_container-Safe r.container_name)
        (λ _.
          then_store-Safe (delete_by_workspace_id id) (λ _. pure (some r))
            (delete_by_workspace_id-keeps id) (λ _ w v. v))
        w v

  pub delete_workspace-Safe : (id : Text) → Safe (delete_workspace h id)
  unfolding delete_workspace
  delete_workspace-Safe id =
      then_store-Safe (find_by_workspace_id id) (delete_found h id) (find_by_workspace_id-keeps id)
        (delete_found-Safe id)
