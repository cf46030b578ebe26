-- ===== src/Workspaces/Operations.antt =====
-- The feature as a whole: its public operations, in any order, on one table and one host. A
-- request that loses a race is an operation that begins where another has left the table.
use mathlib.Core.Bool.{Bool}
use mathlib.Core.Option.{Option}
use mathlib.Core.List.{List, [], ◌∷◌}
use Prim.Native.Nat.{ℕ}
use aglack.Prelude.Text.{Text}
use aglack.Prelude.Exec.{final}
use aglack.Workspaces.Writes.{set_owner, begin_creation}
use aglack.Workspaces.Writes.Validity.{set_owner-keeps, begin_creation-keeps}
use aglack.Workspaces.Host.{Host, World, on_store}
use aglack.Workspaces.Lifecycle.{create_workspace, delete_workspace, launch_and_record}
use aglack.Workspaces.Lifecycle.Safety.{
  create_workspace-Safe, delete_workspace-Safe, launch_and_record-Safe,
}
use aglack.Workspaces.Diagnosis.{diagnose_workspace, DiagnosisTimeouts}
use aglack.Workspaces.Diagnosis.Safety.{diagnose_workspace-Safe}
use aglack.Workspaces.Watch.{poll}
use aglack.Workspaces.Watch.Safety.{poll-Safe}
use aglack.Workspaces.Safety.{WorldIsValid, LaunchesPorts, on_store-Safe}

-- `claims` and `launches` are the two halves of a creation, between which another request may run.
pub data Operation : Type 0 where
  creates : (key new_id : Text) → Operation
  claims : (key new_id : Text) → Operation
  launches : (key id : Text) → Operation
  deletes : (id : Text) → Operation
  diagnoses : (id : Text) → DiagnosisTimeouts → Operation
  owns : (id owner : Text) → Operation
  polls : (interval : ℕ) → Option Bool → Operation

module _ (h : Host) where
  open h use {State}

  unfoldable pub perform : Operation → World State → World State
  perform (creates key new_id) w = final (create_workspace h key new_id w)
  perform (claims key new_id) w = final (on_store (begin_creation key new_id) w)
  perform (launches key id) w = final (launch_and_record h key id w)
  perform (deletes id) w = final (delete_workspace h id w)
  perform (diagnoses id t) w = final (diagnose_workspace h id t w)
  perform (owns id owner) w = final (on_store (set_owner id owner) w)
  perform (polls interval last) w = final (poll h interval last w)

  unfoldable pub perform_all : List Operation → World State → World State
  perform_all [] w = w
  perform_all (op ∷ ops) w = perform_all ops (perform op w)

  module _ (ports : LaunchesPorts h) where
    perform-IsValid :
        (op : Operation) (w : World State) → WorldIsValid w → WorldIsValid (perform op w)
    unfolding perform
    perform-IsValid (creates key new_id) w v = create_workspace-Safe h ports key new_id w v
    perform-IsValid (claims key new_id) w v =
        on_store-Safe (begin_creation key new_id) (begin_creation-keeps key new_id) w v
    perform-IsValid (launches key id) w v = launch_and_record-Safe h ports key id w v
    perform-IsValid (deletes id) w v = delete_workspace-Safe h id w v
    perform-IsValid (diagnoses id t) w v = diagnose_workspace-Safe h id t w v
    perform-IsValid (owns id owner) w v =
        on_store-Safe (set_owner id owner) (set_owner-keeps id owner) w v
    perform-IsValid (polls interval last) w v = poll-Safe h interval last w v

    -- Any sequence of the feature's operations, with any answers of the database and of the host
    -- (whose launches return `u16` ports), keeps the table valid: no two rows share a key, every row
    -- that reads as ready has a container and all three ports, and every port is a `u16`.
    pub perform_all-IsValid :
        (ops : List Operation) (w : World State) → WorldIsValid w → WorldIsValid (perform_all ops w)
    unfolding perform_all
    perform_all-IsValid [] w v = v
    perform_all-IsValid (op ∷ ops) w v =
        perform_all-IsValid ops (perform op w) (perform-IsValid op w v)
