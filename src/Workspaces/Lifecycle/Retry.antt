-- ===== src/Workspaces/Lifecycle/Retry.antt =====
-- How often `launch_and_record` launches, and what it leaves behind.
use Prim.Native.Nat.{ℕ, zero, suc, ◌+◌, ◌≤◌}
use mathlib.Core.Path.{◌≡◌}
use mathlib.Core.Logic.{inl, inr}
use mathlib.Core.Bool.{false}
use mathlib.Core.List.{List, [], ◌∷◌, ◌++◌}
use native.Mathlib.Omega.{arith}
use aglack.Prelude.Tests.{leb, Bool-cases}
use aglack.Prelude.Text.{Text}
use aglack.Prelude.Exec.{ignore, ok, err, pure, ◌>>=◌, final, attempt, Run-cases}
use aglack.Workspaces.Db.{StoreM}
use aglack.Workspaces.Writes.{mark_ready}
use aglack.Workspaces.Host.{
  CreateWorkspaceError, Host, LaunchedContainer, Event, launches, removes, inspects, stops, starts,
  sleeps, World, WorldM, on_store, call,
}
use aglack.Workspaces.Lifecycle.{
  LaunchRetryPolicy, delay_for, LoopEnd, broke, after_launch, round, launch_loop,
}
use aglack.Prelude.Exec.{ignore, good}
use aglack.Prelude.Exec.{ignore, bad}
use aglack.Workspaces.Lifecycle.{launch_and_record}
use aglack.Workspaces.Lifecycle.{conclude}
use aglack.Workspaces.Lifecycle.{returned}
use aglack.Workspaces.Lifecycle.{mark_failed}
use aglack.Workspaces.Lifecycle.{production}

abbrev pub count_launches : List Event → ℕ
count_launches [] = 0
count_launches (launches id ∷ es) = suc (count_launches es)
count_launches (_ ∷ es) = count_launches es

pub count_launches-append :
    (es fs : List Event) → count_launches (es ++ fs) ≡ count_launches es + count_launches fs
count_launches-append [] fs = omega arith
count_launches-append (launches id ∷ es) fs = omega (arith, count_launches-append es fs)
count_launches-append (removes id ∷ es) fs = count_launches-append es fs
count_launches-append (inspects id ∷ es) fs = count_launches-append es fs
count_launches-append (stops id ∷ es) fs = count_launches-append es fs
count_launches-append (starts id ∷ es) fs = count_launches-append es fs
count_launches-append (sleeps ms ∷ es) fs = count_launches-append es fs

pub log-on_store : {S A : Type 0} (m : StoreM A) (w : World S) → (final (on_store m w)).log ≡ w.log
log-on_store m w = elim (Run-cases (m w.db)) [
  | inl (a, db, e) ↦ rw (e, on_store)
  | inr (x, db, e) ↦ rw (e, on_store)
]

module _ (h : Host) where
  open h use {State, launch}

  -- The world after one launch.
  abbrev pub launched_world : Text → World State → State → World State
  launched_world id w host = record w { host = host; log = w.log ++ launches id ∷ [] }

  pub round_of_ok :
      (policy : LaunchRetryPolicy) (key id : Text) (attempts : ℕ)
      (again : CreateWorkspaceError → WorldM State LoopEnd) (w : World State)
      {c : LaunchedContainer} {host : State}
      → launch id w.host ≡ ok c host
      → round h policy key id attempts again w
        ≡ after_launch h policy key attempts again (good c) (launched_world id w host)
  unfolding round
  round_of_ok policy key id attempts again w e = rw (e, call, attempt, ◌>>=◌)

  pub round_of_err :
      (policy : LaunchRetryPolicy) (key id : Text) (attempts : ℕ)
      (again : CreateWorkspaceError → WorldM State LoopEnd) (w : World State)
      {x : CreateWorkspaceError} {host : State}
      → launch id w.host ≡ err x host
      → round h policy key id attempts again w
        ≡ after_launch h policy key attempts again (bad x) (launched_world id w host)
  unfolding round
  round_of_err policy key id attempts again w e = rw (e, call, attempt, ◌>>=◌)

  after_good-log :
      (policy : LaunchRetryPolicy) (key : Text) (attempts : ℕ)
      (again : CreateWorkspaceError → WorldM State LoopEnd) (c : LaunchedContainer)
      (w : World State)
      → (final (after_launch h policy key attempts again (good c) w)).log ≡ w.log
  after_good-log policy key attempts again c w =
      elim (Run-cases
        (mark_ready key c.container_name c.wrapper_port c.desktop_port c.browser_port w.db)) [
          | inl (a, db, e) ↦ rw (e, final, on_store, ◌>>=◌)
          | inr (x, db, e) ↦ rw (e, final, on_store, ◌>>=◌)
        ]

  round-count :
      (policy : LaunchRetryPolicy) (key id : Text) (attempts n : ℕ)
      (again : CreateWorkspaceError → WorldM State LoopEnd)
      → ((e : CreateWorkspaceError) (w : World State)
          → leb policy.max_attempts (attempts + 1) ≡ false
          → count_launches (final (again e w)).log ≤ count_launches w.log + n)
      → (w : World State)
      → count_launches (final (round h policy key id attempts again w)).log
        ≤ count_launches w.log + suc n
  round-count policy key id attempts n again k w = elim (Run-cases (launch id w.host)) [
    | inl (c, host, e) ↦ rw (round_of_ok policy key id attempts again w e) (
        rw (after_good-log policy key attempts again c (launched_world id w host))
          (omega (arith, count_launches-append w.log (launches id ∷ []))))
    | inr (x, host, e) ↦
        rw (round_of_err policy key id attempts again w e)
          (elim (Bool-cases (leb policy.max_attempts (attempts + 1))) [
            | inl last ↦ rw last (omega (arith, count_launches-append w.log (launches id ∷ [])))
            | inr more ↦ rw more (
                omega (
                  arith,
                  k x
                      (record w {
                        host = host;
                        log =
                            (w.log ++ launches id ∷ []) ++ sleeps (delay_for policy attempts) ∷ [];
                      })
                      more,
                  count_launches-append w.log (launches id ∷ []),
                  count_launches-append (w.log ++ launches id ∷ [])
                      (sleeps (delay_for policy attempts) ∷ []),
                ))
          ])
  ]

  loop-count :
      (policy : LaunchRetryPolicy) (key id : Text) (fuel attempts n : ℕ)
      → policy.max_attempts ≤ attempts + suc n
      → (w : World State)
      → count_launches (final (launch_loop h policy key id fuel attempts w)).log
        ≤ count_launches w.log + suc n
  unfolding launch_loop
  loop-count policy key id zero attempts n enough w =
      round-count policy key id attempts n (λ e. pure (broke e)) (λ e w' more. omega arith) w
  loop-count policy key id (suc fuel) attempts zero enough w =
      round-count policy key id attempts zero (λ e. launch_loop h policy key id fuel (attempts + 1))
        (λ e w' more. absurd (ground (arith, more))) w
  loop-count policy key id (suc fuel) attempts (suc n) enough w =
      round-count policy key id attempts (suc n)
        (λ e. launch_loop h policy key id fuel (attempts + 1))
        (λ e w' more. loop-count policy key id fuel (attempts + 1) n (omega arith) w') w

  -- One call of `launch_and_record` launches at most three times, whatever the
  -- host and the database answer.
  pub launch_and_record_bounded :
      (key id : Text) (w : World State)
      → count_launches (final (launch_and_record h key id w)).log ≤ count_launches w.log + 3
  unfolding launch_and_record
  launch_and_record_bounded key id w = elim (Run-cases (launch_loop h production key id 3 0 w)) [
    | inl (end, w', e) ↦
        rw (e, ◌>>=◌)
          (conclude_count end w' (rw e at (loop-count production key id 3 0 2 (omega arith) w)))
    | inr (x, w', e) ↦ rw (e, ◌>>=◌) (rw e at (loop-count production key id 3 0 2 (omega arith) w))
  ]
    where
      conclude_count :
          (end : LoopEnd) (w' : World State)
          → count_launches w'.log ≤ count_launches w.log + 3
          → count_launches (final (conclude h key end w')).log ≤ count_launches w.log + 3
      conclude_count (returned r) w' b = b
      conclude_count (broke x) w' b = elim (Run-cases (mark_failed key w'.db)) [
        | inl (a, db, e) ↦ rw (e, ◌>>=◌, ignore, on_store) b
        | inr (y, db, e) ↦ rw (e, ◌>>=◌, ignore, on_store) b
      ]
