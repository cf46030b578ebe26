-- ===== src/Workspaces/Lifecycle/Outcomes.antt =====
-- What creation returns and leaves behind where the database answers.
use Prim.Native.Nat.{ℕ, zero, suc, ◌+◌}
use mathlib.Core.Path.{ap, subst₂, ◌≡◌, refl, ◌∙◌}
use mathlib.Core.Logic.{inl, inr}
use mathlib.Core.Bool.{false}
use mathlib.Core.Option.{none, some}
use aglack.Prelude.Tests.{leb, Bool-cases, Option-cases}
use aglack.Prelude.Lists.{find?, find?-update_where, any, any-of-find?}
use aglack.Prelude.Text.{Text}
use aglack.Prelude.Exec.{Run, ok, err, pure, ◌>>=◌, ignore, Run-cases, good}
use aglack.Workspaces.Db.{has_key}
use aglack.Workspaces.Rows.{
  Row, WorkspaceRecord, record_from_row, ready, from_db_str-as_db_str, status_eq, status_of_eq,
}
use aglack.Workspaces.Writes.{mark_failed, set_ready}
use aglack.Workspaces.Writes.Outcomes.{
  Answers, find_of_Answers, mark_ready_of_Answers, begin_creation_of_free,
}
use aglack.Workspaces.Host.{CreateWorkspaceError, Host, LaunchedContainer, World, WorldM, on_store}
use aglack.Workspaces.Lifecycle.{
  LaunchRetryPolicy, production, LoopEnd, returned, broke, after_launch, round, launch_loop,
  conclude, launch_and_record, resume, begin, create_workspace,
}
use aglack.Workspaces.Lifecycle.Retry.{launched_world, round_of_ok, round_of_err}
use aglack.Workspaces.Rows.{from_db_str}

-- The key's row reads as ready, and `r` is its record.
pub record IsDone (key : Text) (r : WorkspaceRecord) {S : Type 0} (w : World S) : Type 0 where
  pub answers : Answers w.db
  pub row : Row
  pub found : find? (has_key key) w.db.rows ≡ some row
  pub same : record_from_row row ≡ r
  pub is_ready : r.status ≡ ready

abbrev LoopPost : Text → {S : Type 0} → Run (World S) CreateWorkspaceError LoopEnd → Type 0
LoopPost key (ok (returned r) w) = IsDone key r w
LoopPost key (ok (broke e) w) = Answers w.db
LoopPost key (err e w) = Unit

module _ (h : Host) where
  open h use {State, launch}

  good-post :
      (policy : LaunchRetryPolicy) (key : Text) (attempts : ℕ)
      (again : CreateWorkspaceError → WorldM State LoopEnd) (c : LaunchedContainer)
      (w : World State)
      → Answers w.db
      → LoopPost key (after_launch h policy key attempts again (good c) w)
  good-post policy key attempts again c w a =
      rw
        (
          mark_ready_of_Answers key c.container_name c.wrapper_port c.desktop_port c.browser_port
              w.db a,
          LoopPost,
          ◌>>=◌,
          on_store,
        )
        (elim (Option-cases (find? (has_key key) w.db.rows)) [
          | inl e ↦ rw (e, LoopPost, ◌>>=◌, on_store) tt
          | inr (row, e) ↦
              rw (e, LoopPost, ◌>>=◌, on_store)
                (record {
                  answers = a;
                  row = set_ready c.container_name c.wrapper_port c.desktop_port c.browser_port row;
                  found =
                      find?-update_where (has_key key)
                        (set_ready c.container_name c.wrapper_port c.desktop_port c.browser_port)
                        w.db.rows (λ x. refl)
                      ∙ rw e;
                  same = refl;
                  is_ready = from_db_str-as_db_str ready;
                })
        ])

  round-post :
      (policy : LaunchRetryPolicy) (key id : Text) (attempts : ℕ)
      (again : CreateWorkspaceError → WorldM State LoopEnd)
      → ((e : CreateWorkspaceError) (w : World State) → Answers w.db → LoopPost key (again e w))
      → (w : World State) → Answers w.db
      → LoopPost key (round h policy key id attempts again w)
  round-post policy key id attempts again k w a = elim (Run-cases (launch id w.host)) [
    | inl (c, host, e) ↦
        rw (round_of_ok h policy key id attempts again w e)
          (good-post policy key attempts again c (launched_world h id w host) a)
    | inr (x, host, e) ↦
        rw (round_of_err h policy key id attempts again w e)
          (elim (Bool-cases (leb policy.max_attempts (attempts + 1))) [
            | inl last ↦ rw last a
            | inr more ↦ rw more (k x _ a)
          ])
  ]

  loop-post :
      (policy : LaunchRetryPolicy) (key id : Text) (fuel attempts : ℕ) (w : World State)
      → Answers w.db
      → LoopPost key (launch_loop h policy key id fuel attempts w)
  unfolding launch_loop
  loop-post policy key id zero attempts w a =
      round-post policy key id attempts (λ e. pure (broke e)) (λ e w' a'. a') w a
  loop-post policy key id (suc fuel) attempts w a =
      round-post policy key id attempts (λ e. launch_loop h policy key id fuel (attempts + 1))
        (λ e w' a'. loop-post policy key id fuel (attempts + 1) w' a') w a

  conclude_broke :
      (key : Text) (x : CreateWorkspaceError) (v w : World State) {r : WorkspaceRecord}
      → conclude h key (broke x) v ≡ ok r w
      → ⊥
  conclude_broke key x v w e' = elim (Run-cases (mark_failed key v.db)) [
    | inl (a, db, e) ↦ cc (rw (e, ◌>>=◌, ignore, on_store) at e')
    | inr (y, db, e) ↦ cc (rw (e, ◌>>=◌, ignore, on_store) at e')
  ]

  -- Where the launch succeeds in the end, the record that is returned is the key's row, read as
  -- ready.
  pub launch_and_record-IsDone :
      (key id : Text) (w w' : World State) (r : WorkspaceRecord)
      → Answers w.db
      → launch_and_record h key id w ≡ ok r w'
      → IsDone key r w'
  unfolding launch_and_record
  launch_and_record-IsDone key id w w' r a e =
      concluded (launch_loop h production key id 3 0 w) (loop-post production key id 3 0 w a) e
    where
      concluded :
          (run : Run (World State) CreateWorkspaceError LoopEnd)
          → LoopPost key run
          → elim run [ ok end v ↦ conclude h key end v | err x v ↦ err x v ] ≡ ok r w'
          → IsDone key r w'
      concluded (ok (returned r') v) post e' =
          let p : r' ≡ r = cc in let q : v ≡ w' = cc in subst₂ (λ a b. IsDone key a b) p q post
      concluded (ok (broke x) v) post e' = absurd (conclude_broke key x v w' e')
      concluded (err x v) post e' = absurd (cc)

  resume-IsDone :
      (key : Text) (row : Row) (w w' : World State) (r : WorkspaceRecord)
      → Answers w.db
      → find? (has_key key) w.db.rows ≡ some row
      → resume h key (record_from_row row) w ≡ ok r w'
      → IsDone key r w'
  resume-IsDone key row w w' r a found e =
      elim (Bool-cases (status_eq (from_db_str row.status) ready)) [
        | inl is ↦
            let now : ◌≡◌ {A = Run (World State) CreateWorkspaceError WorkspaceRecord}
                (ok (record_from_row row) w) (ok r w') =
              rw is at e in
            let p : record_from_row row ≡ r = cc in
            let q : w ≡ w' = cc in
            subst₂ (λ a b. IsDone key a b) p q
              (record {
                answers = a;
                row = row;
                found = found;
                same = refl;
                is_ready = status_of_eq (from_db_str row.status) is;
              })
        | inr isnt ↦ launch_and_record-IsDone key row.workspace_id w w' r a (rw isnt at e)
      ]

  begin-IsDone :
      (key new_id : Text) (w w' : World State) (r : WorkspaceRecord)
      → Answers w.db
      → find? (has_key key) w.db.rows ≡ none
      → begin h key new_id w ≡ ok r w'
      → IsDone key r w'
  begin-IsDone key new_id w w' r a missing e =
      let free : any (has_key key) w.db.rows ≡ false =
        any-of-find? (has_key key) w.db.rows missing in
      launch_and_record-IsDone key new_id _ w' r a
        (rw (begin_creation_of_free key new_id w.db a free, ◌>>=◌, on_store) at e)

  -- Where the database answers, a creation that succeeds leaves a row of that key that reads as
  -- ready, and returns its record.
  pub create_workspace-IsDone :
      (key new_id : Text) (w w' : World State) (r : WorkspaceRecord)
      → Answers w.db
      → create_workspace h key new_id w ≡ ok r w'
      → IsDone key r w'
  unfolding create_workspace
  create_workspace-IsDone key new_id w w' r a e =
      let step = rw (find_of_Answers key w.db a, ◌>>=◌, on_store) at e in
      elim (Option-cases (find? (has_key key) w.db.rows)) [
        | inl missing ↦ begin-IsDone key new_id w w' r a missing (rw missing at step)
        | inr (row, found) ↦ resume-IsDone key row w w' r a found (rw found at step)
      ]

  -- A key whose row reads as ready: the record comes back, and nothing is launched or changed.
  pub create_workspace_of_ready :
      (key new_id : Text) (w : World State) (r : WorkspaceRecord)
      → IsDone key r w
      → create_workspace h key new_id w ≡ ok r w
  unfolding create_workspace
  create_workspace_of_ready key new_id w r d =
      let is : (record_from_row d.row).status ≡ ready = ap (λ x. x.status) d.same ∙ d.is_ready in
      rw (find_of_Answers key w.db d.answers, ◌>>=◌, on_store) (rw d.found (rw is (cc d.same)))

  -- Creation is idempotent: after one that succeeded on a database that answers, another request with
  -- the same key returns the same record, launches nothing and changes nothing.
  pub create_workspace_idempotent :
      (key new_id other_id : Text) (w w' : World State) (r : WorkspaceRecord)
      → Answers w.db
      → create_workspace h key new_id w ≡ ok r w'
      → create_workspace h key other_id w' ≡ ok r w'
  create_workspace_idempotent key new_id other_id w w' r a e =
      create_workspace_of_ready key other_id w' r (create_workspace-IsDone key new_id w w' r a e)
