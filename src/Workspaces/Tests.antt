-- ===== src/Workspaces/Tests.antt =====
-- The theorems at work on a host like the `FakeLauncher` of the code.
use mathlib.Core.Option
use mathlib.Core.Logic.{inl}
use Prim.Native.Nat.{ℕ, zero, suc}
use mathlib.Core.Bool.{true, false}
use mathlib.Core.Option.{none}
use mathlib.Core.List.{[]}
use aglack.Prelude.Text.{codes}
use aglack.Prelude.Exec.{ok, err}
use aglack.Workspaces.Host.{World, CreateWorkspaceError, container}
use native.Mathlib.Omega.{arith}
use mathlib.Core.Path.{◌≡◌}
use mathlib.Core.Path.{subst}
use mathlib.Core.Path.{refl}
use mathlib.Core.Option.{some}
use mathlib.Core.List.{◌∷◌}
use mathlib.Core.List.{List}
use aglack.Workspaces.Safety.{WorldIsValid}
use aglack.Workspaces.Safety.{LaunchesPorts}
use aglack.Workspaces.Safety.{HasPorts}
use aglack.Workspaces.Rows.{record_from_row}
use aglack.Workspaces.Operations.{perform_all-IsValid}
use aglack.Workspaces.Operations.{perform_all}
use aglack.Workspaces.Operations.{Operation}
use aglack.Workspaces.Lifecycle.Outcomes.{create_workspace_idempotent}
use aglack.Workspaces.Lifecycle.{create_workspace}
use aglack.Workspaces.Diagnosis.{production}
use aglack.Workspaces.Operations.{creates}
use aglack.Workspaces.Operations.{owns}
use aglack.Workspaces.Operations.{diagnoses}
use aglack.Workspaces.Operations.{deletes}
use mathlib.Core.Logic.{◌≢◌}
use mathlib.Core.List.{◌++◌}
use aglack.Workspaces.Writes.Validity.{DbIsValid}
use aglack.Workspaces.Writes.{set_failed}
use aglack.Workspaces.Writes.{mark_ready}
use aglack.Workspaces.Writes.{begin_creation}
use aglack.Workspaces.Watch.Laws.{poll-IsQuiet_unless_recovered}
use aglack.Workspaces.Watch.{poll}
use aglack.Workspaces.Rows.{from_db_str}
use aglack.Workspaces.Resolve.Laws.{resolve_ready_workspace-Resolved}
use aglack.Workspaces.Resolve.Laws.{Resolved}
use aglack.Workspaces.Resolve.{resolve_ready_workspace}
use aglack.Workspaces.Reads.{find}
use aglack.Workspaces.Quiet.{mutations}
use aglack.Workspaces.Quiet.{IsQuiet}
use aglack.Workspaces.Lifecycle.Retry.{launch_and_record_bounded}
use aglack.Workspaces.Lifecycle.Retry.{count_launches}
use aglack.Workspaces.Lifecycle.Outcomes.{create_workspace-IsDone}
use aglack.Workspaces.Lifecycle.Outcomes.{IsDone}
use aglack.Workspaces.Lifecycle.Failures.{retry_log}
use aglack.Workspaces.Lifecycle.Failures.{launch_and_record_exhausted}
use aglack.Workspaces.Lifecycle.Failures.{FailsThrice}
use aglack.Workspaces.Lifecycle.Deletion.{delete_workspace-Deletion}
use aglack.Workspaces.Lifecycle.Deletion.{Deletion}
use aglack.Workspaces.Lifecycle.{launch_and_record}
use aglack.Workspaces.Lifecycle.{delete_workspace}
use aglack.Workspaces.Lifecycle.{delay_for}
use aglack.Workspaces.Diagnosis.Laws.{diagnose_workspace-Diagnosed}
use aglack.Workspaces.Diagnosis.Laws.{Reported}
use aglack.Workspaces.Diagnosis.{diagnose_workspace}
use aglack.Workspaces.Diagnosis.{DiagnosisSnapshot}
use aglack.Workspaces.Diagnosis.{DiagnosisReport}
use aglack.Workspaces.Db.{query}
use aglack.Workspaces.Db.{has_key}
use aglack.Workspaces.Db.{has_id}
use aglack.Prelude.Text.{◌==◌}
use aglack.Prelude.Lists.{update_where}
use aglack.Prelude.Lists.{find?}
use aglack.Prelude.Exec.{final}
use aglack.Prelude.Decimal.{to_text}
use Prim.Native.Nat.{◌≤◌}
use aglack.Workspaces.Rows.{ready}
use aglack.Workspaces.Host.{inspects}
use aglack.Workspaces.Diagnosis.{restarted}
use aglack.Workspaces.Host.{stops}
use aglack.Workspaces.Host.{starts}
use aglack.Workspaces.Writes.{mark_ready_by_workspace_id}
use aglack.Workspaces.Reads.{find_by_workspace_id}
use aglack.Workspaces.Fake.{
  FakeLauncher, launched, launch_after, fake, key, id, empty, ready_row, created, creating_row,
  begun,
}

fake-LaunchesPorts : LaunchesPorts fake
fake-LaunchesPorts id s s' c e = by_failures s.fail_next_n_calls e
  where
    by_failures :
        (n : ℕ)
        → launch_after id n (record s { call_count = suc s.call_count }) s ≡ ok c s'
        → HasPorts c
    by_failures zero e' =
        let p : launched id ≡ c = cc in
        subst HasPorts p (record {
          wrapper_fits = ground arith;
          desktop_fits = ground arith;
          browser_fits = ground arith;
        })
    by_failures (suc n) e' = absurd (cc)

creates_once : create_workspace fake key id empty ≡ ok (record_from_row ready_row) created
unfolding create_workspace find query begin_creation launch_and_record mark_ready ◌==◌ to_text
    delay_for
creates_once = refl

create_workspace_idempotent_example :
    create_workspace fake key (codes "w2") created ≡ ok (record_from_row ready_row) created
create_workspace_idempotent_example =
    create_workspace_idempotent fake key id (codes "w2") empty created (record_from_row ready_row)
      refl creates_once

empty-WorldIsValid : WorldIsValid empty
empty-WorldIsValid = record { sound = tt; distinct = tt }

abbrev operations : List Operation
operations = creates key id ∷ owns id (codes "alice") ∷ diagnoses id production ∷ deletes id ∷ []

perform_all-IsValid_example : WorldIsValid (perform_all fake operations empty)
perform_all-IsValid_example =
    perform_all-IsValid fake fake-LaunchesPorts operations empty empty-WorldIsValid

create_workspace-IsDone_example : IsDone key (record_from_row ready_row) created
create_workspace-IsDone_example =
    create_workspace-IsDone fake key id empty created (record_from_row ready_row) refl creates_once

launch_and_record_bounded_example :
    count_launches (final (launch_and_record fake key id empty)).log ≤ 3
launch_and_record_bounded_example = launch_and_record_bounded fake key id empty

begun-found : find? (has_key key) begun.db.rows ≡ some creating_row
unfolding ◌==◌
begun-found = refl

begun-unready : from_db_str creating_row.status ≢ ready
unfolding from_db_str
begun-unready e = cc

abbrev launch_error : CreateWorkspaceError
launch_error = container (codes "simulated launch failure")

abbrev exhausted : FakeLauncher
exhausted = record { call_count = 3; fail_next_n_calls = 0; running = true; daemon = true }

begun-FailsThrice : FailsThrice fake id begun.host launch_error exhausted
begun-FailsThrice = record {
  e1 = launch_error;
  s1 = record { call_count = 1; fail_next_n_calls = 2; running = true; daemon = true };
  e2 = launch_error;
  s2 = record { call_count = 2; fail_next_n_calls = 1; running = true; daemon = true };
  first = refl;
  second = refl;
  third = refl;
}

launch_and_record_exhausted_example :
    launch_and_record fake key id begun
    ≡ err launch_error (record {
      db = record {
        rows = update_where (has_key key) set_failed (creating_row ∷ []);
        faults = [];
        now = 1700000000;
      };
      host = exhausted;
      log = retry_log fake id;
    })
launch_and_record_exhausted_example =
    launch_and_record_exhausted fake key id begun launch_error exhausted refl begun-FailsThrice

delete_workspace-Deletion_example :
    Deletion fake id created (find? (has_id id) created.db.rows) (delete_workspace fake id created)
delete_workspace-Deletion_example = delete_workspace-Deletion fake id created refl

created-DbIsValid : DbIsValid created.db
created-DbIsValid = record {
  sound = (
    record {
      container_set = λ e. refl;
      host_set = λ e. refl;
      desktop_set = λ e. refl;
      browser_set = λ e. refl;
      host_fits = ground arith;
      desktop_fits = ground arith;
      browser_fits = ground arith;
    },
    tt,
  );
  distinct = (tt, tt);
}

resolve_ready_workspace-Resolved_example :
    Resolved created.db (find? (has_id id) created.db.rows) (resolve_ready_workspace id created.db)
resolve_ready_workspace-Resolved_example =
    resolve_ready_workspace-Resolved id created.db created-DbIsValid refl

-- The container has died.
abbrev dead : World FakeLauncher
dead = record created {
  host = record { call_count = 2; fail_next_n_calls = 0; running = false; daemon = true };
}

abbrev down : DiagnosisSnapshot
down = record {
  container_running = false;
  container_exit_code = none;
  container_oom_killed = false;
  wrapper_healthy = false;
  desktop_healthy = false;
}

abbrev up : DiagnosisSnapshot
up = record {
  container_running = true;
  container_exit_code = none;
  container_oom_killed = false;
  wrapper_healthy = true;
  desktop_healthy = true;
}

abbrev revived : DiagnosisReport
revived = record { before = down; action = restarted; after = some up }

abbrev healed : World FakeLauncher
healed = record created {
  log = created.log ++ inspects id ∷ stops id ∷ starts id ∷ inspects id ∷ [];
}

dead-healed : diagnose_workspace fake id production dead ≡ ok revived healed
unfolding diagnose_workspace find_by_workspace_id query ◌==◌ mark_ready_by_workspace_id
dead-healed = refl

diagnose_workspace-Diagnosed_example :
    Reported fake dead.db.rows
      (mutations dead.log)
      (Option.map record_from_row (find? (has_id id) dead.db.rows))
      revived
      healed
diagnose_workspace-Diagnosed_example =
    diagnose_workspace-Diagnosed fake id production dead healed revived refl dead-healed

still_up : some true ≢ some false
still_up e = cc

poll-IsQuiet_unless_recovered_example :
    IsQuiet created.db.rows 2 (final (poll fake 5000 (some true) created))
poll-IsQuiet_unless_recovered_example =
    poll-IsQuiet_unless_recovered fake 5000 (some true) created (inl still_up)

begun-found_again : begin_creation key id begun.db ≡ ok (record_from_row creating_row) begun.db
unfolding begin_creation query find ◌==◌
begun-found_again = refl
