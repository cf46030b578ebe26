-- ===== src/Workspaces/Watch/Safety.antt =====
-- The table stays valid through every round of the watcher.
use Prim.Native.Nat.{ℕ, zero, suc}
use mathlib.Core.Bool.{Bool}
use mathlib.Core.Option.{Option}
use mathlib.Core.List.{List, [], ◌∷◌}
use aglack.Prelude.Exec.{Result, good, bad, pure, attempt, ignore}
use aglack.Prelude.Keeps.{Keeps->>=, Keeps-attempt, Keeps-ignore, Keeps-if}
use aglack.Workspaces.Rows.{WorkspaceRecord}
use aglack.Workspaces.Reads.{list_ready_with_container}
use aglack.Workspaces.Writes.Validity.{list_ready_with_container-keeps}
use aglack.Workspaces.Host.{CreateWorkspaceError, Host, on_store, probe}
use aglack.Workspaces.Safety.{Safe, WorldIsValid, on_store-Safe, probe-Safe}
use aglack.Workspaces.Diagnosis.{production, diagnose_workspace}
use aglack.Workspaces.Diagnosis.Safety.{diagnose_workspace-Safe}
use aglack.Workspaces.Watch.{
  heal_each, heal_listed, heal_all_ready_workspaces, recovered, poll, run,
}
use aglack.Workspaces.Watch.{if◌then◌else◌}

module _ (h : Host) where
  heal_each-Safe : (rows : List WorkspaceRecord) → Safe (heal_each h rows)
  unfolding heal_each
  heal_each-Safe [] = λ w v. v
  heal_each-Safe (r ∷ rs) =
      Keeps->>= WorldIsValid (ignore (diagnose_workspace h r.workspace_id production))
        (λ _. heal_each h rs)
        (Keeps-ignore WorldIsValid CreateWorkspaceError
          (diagnose_workspace h r.workspace_id production)
          (diagnose_workspace-Safe h r.workspace_id production))
        (λ _. heal_each-Safe rs)

  listed-Safe :
      (listed : Result CreateWorkspaceError (List WorkspaceRecord)) → Safe (heal_listed h listed)
  listed-Safe (good rows) = heal_each-Safe rows
  listed-Safe (bad e) = λ w v. v

  heal_all-Safe : Safe (heal_all_ready_workspaces h)
  unfolding heal_all_ready_workspaces
  heal_all-Safe =
      Keeps->>= WorldIsValid (attempt (on_store list_ready_with_container)) _
        (Keeps-attempt WorldIsValid CreateWorkspaceError (on_store list_ready_with_container)
          (on_store-Safe list_ready_with_container list_ready_with_container-keeps))
        listed-Safe

  pub poll-Safe : (interval : ℕ) (last : Option Bool) → Safe (poll h interval last)
  unfolding poll
  poll-Safe interval last =
      Keeps->>= WorldIsValid (probe h.daemon_reachable) _ (probe-Safe h.daemon_reachable)
        λ reachable.
          Keeps->>= WorldIsValid
            (if recovered h last reachable then heal_all_ready_workspaces h else pure tt) _
            (Keeps-if WorldIsValid (recovered h last reachable) (heal_all_ready_workspaces h)
              (pure tt) heal_all-Safe (λ w v. v))
            (λ _ w v. v)

  -- The watcher keeps the table valid for as many rounds as it runs.
  pub run-Safe : (interval rounds : ℕ) (last : Option Bool) → Safe (run h interval rounds last)
  unfolding run
  run-Safe interval zero last = λ w v. v
  run-Safe interval (suc rounds) last =
      Keeps->>= WorldIsValid (poll h interval last) (run h interval rounds)
        (poll-Safe interval last) (run-Safe interval rounds)
