-- ===== src/Workspaces/Diagnosis/Laws.antt =====
-- What a diagnosis does to the table and to containers, by what it reports.
use mathlib.Core.Option
use mathlib.Core.Path.{◌≡◌, refl}
use aglack.Workspaces.Host.{Host}
use mathlib.Core.List.{List}
use mathlib.Core.Option.{Option}
use aglack.Workspaces.Rows.{Row}
use Prim.Native.Nat.{ℕ}
use aglack.Workspaces.Diagnosis.{DiagnosisReport}
use aglack.Prelude.Text.{Text}
use aglack.Workspaces.Diagnosis.{CreateWorkspaceError}
use aglack.Workspaces.Quiet.{Quiet}
use aglack.Workspaces.Diagnosis.{heal}
use aglack.Workspaces.Diagnosis.{WorkspaceRecord}
use aglack.Workspaces.Diagnosis.{snapshot}
use aglack.Workspaces.Diagnosis.{recheck}
use aglack.Workspaces.Diagnosis.{diagnose_container}
use aglack.Workspaces.Diagnosis.{World}
use aglack.Workspaces.Diagnosis.{check_ports}
use aglack.Workspaces.Diagnosis.{DiagnosisTimeouts}
use aglack.Workspaces.Diagnosis.{is_unhealthy}
use aglack.Workspaces.Diagnosis.{check_both_services}
use aglack.Workspaces.Diagnosis.{false}
use aglack.Workspaces.Diagnosis.{DiagnosisSnapshot}
use aglack.Workspaces.Quiet.{IsQuiet}
use aglack.Prelude.Keeps.{Keeps->>=}
use aglack.Workspaces.Diagnosis.{call}
use aglack.Prelude.Post.{Post}
use aglack.Workspaces.Diagnosis.{true}
use aglack.Workspaces.Diagnosis.{untouched}
use aglack.Prelude.Exec.{Result}
use aglack.Workspaces.Diagnosis.{inspects}
use aglack.Prelude.Exec.{Run-cases}
use mathlib.Core.Option.{some}
use mathlib.Core.Option.{none}
use mathlib.Core.Logic.{◌≢◌}
use mathlib.Core.Logic.{inr}
use mathlib.Core.Logic.{inl}
use mathlib.Core.Bool.{not}
use aglack.Workspaces.Resolve.{as_u16}
use aglack.Workspaces.Quiet.{probe-Quiet}
use aglack.Workspaces.Quiet.{call-Quiet}
use aglack.Workspaces.Host.{probe}
use aglack.Prelude.Tests.{if◌then◌else◌}
use aglack.Prelude.Tests.{Bool-cases}
use aglack.Prelude.Post.{Post-of_Keeps}
use aglack.Prelude.Post.{Post-any}
use aglack.Prelude.Post.{Post->>=}
use aglack.Prelude.Lists.{is_some}
use aglack.Prelude.Keeps.{Keeps-if}
use aglack.Prelude.Exec.{pure}
use aglack.Prelude.Exec.{attempt}
use aglack.Workspaces.Diagnosis.{wait_ports}
use aglack.Workspaces.Diagnosis.{restart_failed}
use aglack.Workspaces.Diagnosis.{after_heal}
use aglack.Workspaces.Diagnosis.{restarted}
use aglack.Workspaces.Diagnosis.{record_outcome}
use aglack.Prelude.Exec.{good, err, Run, ◌>>◌}
use mathlib.Core.Logic.{◌⊎◌}
use aglack.Workspaces.Diagnosis.{snapshot_of}
use aglack.Prelude.Exec.{bad}
use aglack.Workspaces.Writes.Outcomes.{find_by_workspace_id_of_Answers}
use aglack.Workspaces.Writes.Outcomes.{Answers}
use aglack.Workspaces.Rows.{record_from_row}
use aglack.Workspaces.Quiet.{mutations}
use aglack.Workspaces.Host.{on_store}
use aglack.Workspaces.Diagnosis.{diagnose_workspace}
use aglack.Workspaces.Db.{has_id}
use aglack.Prelude.Post.{Post_of_ok}
use aglack.Prelude.Post.{Post-map_err, Post-mono}
use aglack.Prelude.Lists.{find?}
use aglack.Prelude.Exec.{◌>>=◌}
use aglack.Prelude.Exec.{map_err}
use aglack.Workspaces.Diagnosis.{diagnose_named}
use aglack.Workspaces.Diagnosis.{diagnose_found}
use aglack.Prelude.Exec.{ok}
use aglack.Workspaces.Diagnosis.{other}

abbrev pub Went : (h : Host) → Run h.State CreateWorkspaceError (Unit {0}) → h.State → Type 0
Went h r s = r ≡ ok tt s

abbrev pub Failed : (h : Host) → Run h.State CreateWorkspaceError (Unit {0}) → h.State → Type 0
Failed h r s = (e : CreateWorkspaceError) × (r ≡ err e s)

-- The stop and then the start of a container went well.
abbrev pub Healed : Host → Text → Type 0
Healed h name =
    (s1 : h.State) × (s2 : h.State) × (s3 : h.State) × (Went h (h.stop name s1) s2)
    × (Went h (h.start_existing name s2) s3)

-- The stop failed, or it went well and the start failed.
abbrev pub NotHealed : Host → Text → Type 0
NotHealed h name =
    ((s1 : h.State) × (s2 : h.State) × (Failed h (h.stop name s1) s2))
    ⊎ ((s1 : h.State) × (s2 : h.State) × (s3 : h.State) × (Went h (h.stop name s1) s2)
        × (Failed h (h.start_existing name s2) s3))

-- `report` is what was found and done, `rows` the table before, `n` the changes to containers
-- before, `w` the world after.
pub record Diagnosed (h : Host) (container_name : Text) (rows : List Row) (n : ℕ)
    (report : DiagnosisReport) (w : World h.State) : Type 0 where
  pub healthy_left :
      is_unhealthy report.before ≡ false → (report.action ≡ untouched) × IsQuiet rows n w
  pub unhealthy_healed : is_unhealthy report.before ≡ true → report.action ≢ untouched
  pub failed_same : report.action ≡ restart_failed → (report.after ≡ none) × (w.db.rows ≡ rows)
  pub checked_again : report.action ≡ restarted → is_some report.after ≡ true
  pub healed : report.action ≡ restarted → Healed h container_name
  pub not_healed : report.action ≡ restart_failed → NotHealed h container_name

module _ (h : Host) where
  open h use {State}

  check_ports-Quiet :
      (p q : Option ℕ) (id : Text) (timeout : ℕ) → Quiet (check_ports h p q id timeout)
  check_ports-Quiet (some p) (some q) id timeout = λ rows n.
      Keeps->>= (IsQuiet rows n) (probe (h.check_wrapper (as_u16 p) timeout)) _
        (probe-Quiet (h.check_wrapper (as_u16 p) timeout) rows n)
        λ b.
          Keeps->>= (IsQuiet rows n) (probe (h.check_desktop id (as_u16 q) timeout))
            (λ d. pure (b, d)) (probe-Quiet (h.check_desktop id (as_u16 q) timeout) rows n)
            (λ d w v. v)
  check_ports-Quiet none q id timeout = λ rows n w v. v
  check_ports-Quiet (some p) none id timeout = λ rows n w v. v

  snapshot-Quiet :
      (id name : Text) (r : WorkspaceRecord) (timeout : ℕ) → Quiet (snapshot h id name r timeout)
  unfolding snapshot check_both_services
  snapshot-Quiet id name r timeout rows n =
      Keeps->>= (IsQuiet rows n) (call (inspects name) (h.inspect name)) _
        (call-Quiet (inspects name) (h.inspect name) refl rows n)
        λ c.
          Keeps->>= (IsQuiet rows n)
            (if c.running
              then check_ports h r.host_port r.desktop_port id timeout
              else pure (false, false))
            _
            (Keeps-if (IsQuiet rows n) c.running
              (check_ports h r.host_port r.desktop_port id timeout) (pure (false, false))
              (check_ports-Quiet r.host_port r.desktop_port id timeout rows n) (λ w v. v))
            (λ both w v. v)

  recheck-Diagnosed :
      (rows : List Row) (n : ℕ) (id name : Text) (r : WorkspaceRecord) (t : DiagnosisTimeouts)
      (before : DiagnosisSnapshot) (w : World State)
      → is_unhealthy before ≡ true
      → Healed h name
      → Post (Diagnosed h name rows n) (recheck h id name r t before w)
  unfolding recheck
  recheck-Diagnosed rows n id name r t before w bad_before healed =
      Post->>= (λ _ _. Unit {0}) (Diagnosed h name rows n)
        (wait_ports h r.host_port r.desktop_port id t) _ w (Post-any _)
        λ both w1 _.
          Post->>= (λ _ _. Unit {0}) (Diagnosed h name rows n)
            (call (inspects name) (h.inspect name)) _ w1 (Post-any _)
            λ c w2 _.
              Post->>= (λ _ _. Unit {0}) (Diagnosed h name rows n)
                (record_outcome h id name r (snapshot_of c both.0 both.1)) _ w2 (Post-any _)
                λ _ w3 _. record {
                  healthy_left = λ e. absurd (cc);
                  unhealthy_healed = λ e f. cc;
                  failed_same = λ e. absurd (cc);
                  checked_again = λ e. refl;
                  healed = λ e. healed;
                  not_healed = λ e. absurd (cc);
                }

  -- What the outcome of `heal` says.
  abbrev HealedIf : Text → Result CreateWorkspaceError (Unit {0}) → Type 0
  HealedIf name (good done) = Healed h name
  HealedIf name (bad e) = NotHealed h name

  -- Both its outcomes.
  healed-If :
      (rows : List Row) (name : Text) (w : World State)
      → w.db.rows ≡ rows
      → Post
          (λ healed w'. (w'.db.rows ≡ rows) × HealedIf name healed)
          (attempt {F = CreateWorkspaceError} (heal h name) w)
  unfolding heal
  healed-If rows name w same = elim (Run-cases (h.stop name w.host)) [
    | inl (u, s1, e) ↦ elim (Run-cases (h.start_existing name s1)) [
      | inl (v, s2, f) ↦
          rw (attempt, heal, ◌>>=◌, ◌>>◌, call, e, f, Post) (same, (w.host, s1, s2, e, f))
      | inr (x, s2, f) ↦
          rw (attempt, heal, ◌>>=◌, ◌>>◌, call, e, f, Post) (same, inr (w.host, s1, s2, e, (x, f)))
    ]
    | inr (x, s1, e) ↦
        rw (attempt, heal, ◌>>=◌, ◌>>◌, call, e, Post) (same, inl (w.host, s1, (x, e)))
  ]

  after_heal-Diagnosed :
      (rows : List Row) (n : ℕ) (id name : Text) (r : WorkspaceRecord) (t : DiagnosisTimeouts)
      (before : DiagnosisSnapshot) (healed : Result CreateWorkspaceError (Unit {0}))
      (w : World State)
      → is_unhealthy before ≡ true
      → w.db.rows ≡ rows
      → HealedIf name healed
      → Post (Diagnosed h name rows n) (after_heal h id name r t before healed w)
  after_heal-Diagnosed rows n id name r t before (good done) w u same fine =
      recheck-Diagnosed rows n id name r t before w u fine
  after_heal-Diagnosed rows n id name r t before (bad e) w u same failed = record {
    healthy_left = λ e. absurd (cc);
    unhealthy_healed = λ e f. cc;
    failed_same = λ e. (refl, same);
    checked_again = λ e. absurd (cc);
    healed = λ e. absurd (cc);
    not_healed = λ e. failed;
  }

  diagnose_container-Diagnosed :
      (rows : List Row) (n : ℕ) (id name : Text) (r : WorkspaceRecord) (t : DiagnosisTimeouts)
      (w : World State)
      → IsQuiet rows n w
      → Post (Diagnosed h name rows n) (diagnose_container h id name r t w)
  unfolding diagnose_container
  diagnose_container-Diagnosed rows n id name r t w q =
      Post->>= (λ _. IsQuiet rows n) (Diagnosed h name rows n) (snapshot h id name r t.health_check)
        _ w
        (Post-of_Keeps (IsQuiet rows n) (snapshot h id name r t.health_check) w
          (snapshot-Quiet id name r t.health_check rows n) q)
        λ before w1 q1. elim (Bool-cases (is_unhealthy before)) [
          | inl u ↦
              rw (u, not, if◌then◌else◌)
                (Post->>= (λ healed w2. (w2.db.rows ≡ rows) × HealedIf name healed)
                  (Diagnosed h name rows n) (attempt (heal h name))
                  (after_heal h id name r t before) w1 (healed-If rows name w1 q1.same_rows)
                  λ healed w2 (same, outcome).
                    after_heal-Diagnosed rows n id name r t before healed w2 u same outcome)
          | inr fine ↦
              rw (fine, not, if◌then◌else◌)
                (record {
                  healthy_left = λ e. (refl, q1);
                  unhealthy_healed = λ e. absurd (cc);
                  failed_same = λ e. absurd (cc);
                  checked_again = λ e. absurd (cc);
                  healed = λ e. absurd (cc);
                  not_healed = λ e. absurd (cc);
                })
        ]

  -- What is reported is of the container that the record names.
  abbrev pub Reported :
      List Row → ℕ → Option WorkspaceRecord → DiagnosisReport → World State → Type 0
  Reported rows n found report w =
      (r : WorkspaceRecord) × (name : Text) × (found ≡ some r)
      × (r.container_name ≡ some name)
      × Diagnosed h name rows n report w

  diagnose_named-Reported :
      (rows : List Row) (n : ℕ) (id : Text) (t : DiagnosisTimeouts) (r : WorkspaceRecord)
      (name : Option Text) (w : World State)
      → r.container_name ≡ name
      → IsQuiet rows n w
      → Post (Reported rows n (some r)) (diagnose_named h id t r name w)
  diagnose_named-Reported rows n id t r none w named q = tt
  diagnose_named-Reported rows n id t r (some name) w named q =
      Post-mono (Diagnosed h name rows n) (Reported rows n (some r))
        (diagnose_named h id t r (some name) w)
        (Post-map_err (Diagnosed h name rows n) other (diagnose_container h id name r t) w
          (diagnose_container-Diagnosed rows n id name r t w q))
        (λ report w' d. (r, name, refl, named, d))

  diagnose_found-Reported :
      (rows : List Row) (n : ℕ) (id : Text) (t : DiagnosisTimeouts) (found : Option WorkspaceRecord)
      (w : World State)
      → IsQuiet rows n w
      → Post (Reported rows n found) (diagnose_found h id t found w)
  diagnose_found-Reported rows n id t none w q = tt
  diagnose_found-Reported rows n id t (some r) w q =
      diagnose_named-Reported rows n id t r r.container_name w refl q

  -- A diagnosis that reports, on a database that answers, is of the container that the workspace's
  -- first row names: a workspace found healthy is left untouched, with no change to the table or to
  -- any container; one found unhealthy is never reported untouched; one is reported as restarted
  -- only where the stop and then the start of that container went well, and there is a second
  -- snapshot then; and as failed to restart only where the stop or the start failed, and there is no
  -- second snapshot and the table is unchanged.
  pub diagnose_workspace-Diagnosed :
      (id : Text) (t : DiagnosisTimeouts) (w w' : World State) (report : DiagnosisReport)
      → Answers w.db
      → diagnose_workspace h id t w ≡ ok report w'
      → Reported w.db.rows
          (mutations w.log)
          (Option.map record_from_row (find? (has_id id) w.db.rows))
          report
          w'
  unfolding diagnose_workspace
  diagnose_workspace-Diagnosed id t w w' report a e =
      let found = Option.map record_from_row (find? (has_id id) w.db.rows) in
      Post_of_ok (Reported w.db.rows (mutations w.log) found)
        (diagnose_found-Reported w.db.rows (mutations w.log) id t found w
          (record { same_rows = refl; same_count = refl }))
        (rw (find_by_workspace_id_of_Answers id w.db a, ◌>>=◌, map_err, on_store) at e)
