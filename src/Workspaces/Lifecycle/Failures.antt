-- ===== src/Workspaces/Lifecycle/Failures.antt =====
-- Launches that fail, and creations that another request has begun.
use aglack.Workspaces.Lifecycle.{production}
use mathlib.Core.Path.{◌≡◌, refl}
use mathlib.Core.Path.{◌∙◌}
use mathlib.Core.Logic.{inr}
use mathlib.Core.Logic.{inl}
use mathlib.Core.List.{◌∷◌}
use mathlib.Core.List.{◌++◌}
use mathlib.Core.List.{[]}
use mathlib.Core.List.{List}
use mathlib.Core.Bool.{true}
use mathlib.Core.Bool.{false}
use aglack.Workspaces.Writes.Outcomes.{Answers}
use aglack.Workspaces.Writes.{set_failed}
use aglack.Workspaces.Lifecycle.Retry.{round_of_err}
use aglack.Workspaces.Lifecycle.{round}
use aglack.Workspaces.Lifecycle.{launch_loop}
use aglack.Workspaces.Lifecycle.{launch_and_record}
use aglack.Workspaces.Lifecycle.{delay_for}
use aglack.Workspaces.Lifecycle.{LoopEnd}
use aglack.Workspaces.Host.{on_store}
use aglack.Workspaces.Host.{WorldM}
use aglack.Workspaces.Host.{World}
use aglack.Workspaces.Host.{Host}
use aglack.Workspaces.Host.{Event}
use aglack.Workspaces.Host.{CreateWorkspaceError}
use aglack.Workspaces.Db.{has_key}
use aglack.Prelude.Text.{Text}
use aglack.Prelude.Tests.{leb}
use aglack.Prelude.Lists.{update_where}
use aglack.Prelude.Exec.{◌>>=◌}
use Prim.Native.Nat.{◌+◌}
use Prim.Native.Nat.{ℕ}
use aglack.Workspaces.Host.{launches}
use aglack.Prelude.Exec.{err}
use aglack.Workspaces.Host.{sleeps}
use aglack.Prelude.Exec.{ok}
use aglack.Workspaces.Lifecycle.{broke}
use mathlib.Core.List.{append_assoc}
use aglack.Workspaces.Writes.Outcomes.{mark_failed_rows}
use aglack.Workspaces.Writes.{mark_failed}
use aglack.Prelude.Exec.{ignore}
use aglack.Prelude.Exec.{Run-cases}
use aglack.Workspaces.Lifecycle.{conclude}

module _ (h : Host) where
  open h use {State, launch}

  -- A host whose next three launches of `id` fail.
  pub record FailsThrice (id : Text) (s : State) (e : CreateWorkspaceError) (s3 : State)
      : Type 0 where
    pub e1 : CreateWorkspaceError
    pub s1 : State
    pub e2 : CreateWorkspaceError
    pub s2 : State
    pub first : launch id s ≡ err e1 s1
    pub second : launch id s1 ≡ err e2 s2
    pub third : launch id s2 ≡ err e s3

  abbrev pub retry_log : Text → List Event
  retry_log id = launches id ∷ sleeps 200 ∷ launches id ∷ sleeps 400 ∷ launches id ∷ []

  round_again :
      (key id : Text) (attempts : ℕ) (again : CreateWorkspaceError → WorldM State LoopEnd)
      (w : World State) {x : CreateWorkspaceError} {host : State}
      → launch id w.host ≡ err x host
      → leb production.max_attempts (attempts + 1) ≡ false
      → round h production key id attempts again w
        ≡ again x (record w {
          host = host;
          log = (w.log ++ launches id ∷ []) ++ sleeps (delay_for production attempts) ∷ [];
        })
  round_again key id attempts again w e more =
      round_of_err h production key id attempts again w e ∙ rw more

  round_last :
      (key id : Text) (attempts : ℕ) (again : CreateWorkspaceError → WorldM State LoopEnd)
      (w : World State) {x : CreateWorkspaceError} {host : State}
      → launch id w.host ≡ err x host
      → leb production.max_attempts (attempts + 1) ≡ true
      → round h production key id attempts again w
        ≡ ok (broke x) (record w { host = host; log = w.log ++ launches id ∷ [] })
  round_last key id attempts again w e last =
      round_of_err h production key id attempts again w e ∙ rw last

  throw_after_mark :
      (key : Text) (e : CreateWorkspaceError) (w : World State)
      → Answers w.db
      → conclude h key (broke e) w
        ≡ err e (record w {
          db = record w.db { rows = update_where (has_key key) set_failed w.db.rows };
        })
  throw_after_mark key e w a = elim (Run-cases (mark_failed key w.db)) [
    | inl (r, db, m) ↦
        let same : db ≡ record w.db { rows = update_where (has_key key) set_failed w.db.rows } =
          rw m at (mark_failed_rows key w.db a) in
        rw (m, ◌>>=◌, ignore, on_store) (cc same)
    | inr (x, db, m) ↦
        let same : db ≡ record w.db { rows = update_where (has_key key) set_failed w.db.rows } =
          rw m at (mark_failed_rows key w.db a) in
        rw (m, ◌>>=◌, ignore, on_store) (cc same)
  ]

  -- Three launches that fail, on a database that answers: the error is the last one, the waits between
  -- them are 200 and 400 ms, nothing else is called, and the key's rows are marked failed.
  pub launch_and_record_exhausted :
      (key id : Text) (w : World State) (e : CreateWorkspaceError) (s3 : State)
      → Answers w.db
      → FailsThrice id w.host e s3
      → launch_and_record h key id w
        ≡ err e (record w {
          db = record w.db { rows = update_where (has_key key) set_failed w.db.rows };
          host = s3;
          log = w.log ++ retry_log id;
        })
  unfolding launch_and_record launch_loop delay_for
  launch_and_record_exhausted key id w e s3 a f =
      let w1 : World State = record w {
        host = f.s1;
        log = (w.log ++ launches id ∷ []) ++ sleeps 200 ∷ [];
      } in
      let w2 : World State = record w {
        host = f.s2;
        log = (w1.log ++ launches id ∷ []) ++ sleeps 400 ∷ [];
      } in
      let w3 : World State = record w { host = s3; log = w2.log ++ launches id ∷ [] } in
      let ends : launch_loop h production key id 3 0 w ≡ ok (broke e) w3 =
        round_again key id 0 (λ x. launch_loop h production key id 2 1) w f.first refl
        ∙ round_again key id 1 (λ x. launch_loop h production key id 1 2) w1 f.second refl
        ∙ round_last key id 2 (λ x. launch_loop h production key id 0 3) w2 f.third refl in
      rw (ends, ◌>>=◌) (throw_after_mark key e w3 a ∙ (simp append_assoc))
