-- ===== src/Workspaces/Watch/Laws.antt =====
-- When the watcher acts.
use mathlib.Core.Path.{◌≡◌, refl}
use aglack.Workspaces.Host.{Host}
use aglack.Workspaces.Watch.{poll}
use aglack.Workspaces.Watch.{ℕ}
use aglack.Workspaces.Watch.{Option}
use aglack.Workspaces.Watch.{Bool}
use mathlib.Core.Logic.{◌≢◌, ◌⊎◌, inl, inr}
use aglack.Prelude.Exec.{Run, ok, ◌>>=◌, ◌>>◌}
use aglack.Workspaces.Host.{CreateWorkspaceError}
use aglack.Workspaces.Watch.{some}
use aglack.Workspaces.Watch.{false}
use mathlib.Core.Option.{none}
use mathlib.Core.Bool.{true}
use aglack.Workspaces.Watch.{recovered}
use aglack.Workspaces.Quiet.{probe-Quiet}
use aglack.Workspaces.Quiet.{Quiet}
use aglack.Workspaces.Quiet.{IsQuiet}
use aglack.Workspaces.Host.{probe}
use aglack.Prelude.Tests.{if◌then◌else◌}
use aglack.Prelude.Keeps.{Keeps->>=}
use native.Mathlib.Omega.{arith}
use mathlib.Core.List.{◌∷◌}
use mathlib.Core.List.{[]}
use aglack.Workspaces.Quiet.{mutations-append}
use aglack.Workspaces.Host.{sleeps}
use aglack.Workspaces.Quiet.{mutations}
use aglack.Workspaces.Host.{World}
use aglack.Prelude.Exec.{final}

module _ (h : Host) where
  open h use {State}

  poll-Quiet :
      (interval : ℕ) (last : Option Bool) → last ≢ some false → Quiet (poll h interval last)
  unfolding poll
  poll-Quiet interval last up rows n =
      Keeps->>= (IsQuiet rows n) (probe h.daemon_reachable) _
        (probe-Quiet h.daemon_reachable rows n)
        λ reachable.
          rw (not_recovered last reachable up, if◌then◌else◌)
            (λ w q. record {
              same_rows = q.same_rows;
              same_count =
                  omega (arith, mutations-append w.log (sleeps interval ∷ []), q.same_count);
            })
    where
      not_recovered :
          (last : Option Bool) (reachable : Bool)
          → last ≢ some false
          → recovered h last reachable ≡ false
      not_recovered none reachable up = refl
      not_recovered (some true) reachable up = refl
      not_recovered (some false) reachable up = absurd (up refl)

  -- The daemon was not seen down in the round before, or is still down in this one.
  abbrev pub Unrecovered : Option Bool → World State → Type 0
  Unrecovered last w =
      (last ≢ some false)
      ⊎ ((w' : World State) × (◌≡◌ {A = Run (World State) CreateWorkspaceError Bool}
            (probe h.daemon_reachable w) (ok false w')))

  still_down :
      (interval : ℕ) (last : Option Bool) (w w' : World State)
      → ◌≡◌ {A = Run (World State) CreateWorkspaceError Bool}
          (probe h.daemon_reachable w)
          (ok false w')
      → IsQuiet w.db.rows (mutations w.log) w'
      → IsQuiet w.db.rows (mutations w.log) (final (poll h interval last w))
  unfolding poll
  still_down interval last w w' e q =
      rw (poll, e, ◌>>=◌, ◌>>◌, unmoved last)
        (record {
          same_rows = q.same_rows;
          same_count = omega (arith, mutations-append w'.log (sleeps interval ∷ []), q.same_count);
        })
    where
      unmoved : (last : Option Bool) → recovered h last false ≡ false
      unmoved none = refl
      unmoved (some true) = refl
      unmoved (some false) = refl

  -- A round changes neither the table nor a container where the last answer was not "down", whatever
  -- it sees now, nor where the daemon is still down now: the watcher acts only when it sees the
  -- daemon come back. So does its first round.
  pub poll-IsQuiet_unless_recovered :
      (interval : ℕ) (last : Option Bool) (w : World State)
      → Unrecovered last w
      → IsQuiet w.db.rows (mutations w.log) (final (poll h interval last w))
  poll-IsQuiet_unless_recovered interval last w (inl up) =
      poll-Quiet interval last up w.db.rows (mutations w.log) w
        (record { same_rows = refl; same_count = refl })
  poll-IsQuiet_unless_recovered interval last w (inr (w', e)) = still_down interval last w w' e (
      rw e at (
        probe-Quiet h.daemon_reachable w.db.rows (mutations w.log) w
          (record { same_rows = refl; same_count = refl })))
