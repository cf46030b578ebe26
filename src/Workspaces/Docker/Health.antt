-- ===== src/Workspaces/Docker/Health.antt =====
-- workspaces/container/health.rs: waiting for the wrapper and the desktop, and one look at each.
use Prim.Native.Nat.{ℕ, zero, suc, ◌+◌, ◌/◌}
use mathlib.Core.Bool.{Bool, true, false, ◌&&◌}
use mathlib.Core.Option.{Option, none, some}
use mathlib.Core.List.{◌++◌}
use aglack.Prelude.Tests.{leb}
use aglack.Prelude.Text.{Text, codes}
use aglack.Prelude.Decimal.{to_text}
use aglack.Prelude.Exec.{Run, ok, err, Exec}
use aglack.Workspaces.Host.{CreateWorkspaceError, container}
use aglack.Workspaces.Docker.{Machine, desktop_subpath}

-- `StatusCode::is_success`
abbrev pub is_success : ℕ → Bool
is_success status = leb 200 status && leb status 299

abbrev pub port_url : Text → ℕ → Text → Text
port_url host port path = codes "http://" ++ (host ++ (codes ":" ++ (to_text port ++ path)))

abbrev pub wrapper_url : Text → ℕ → Text
wrapper_url host port = port_url host port (codes "/api/wrapper/v1/health")

abbrev pub desktop_url : Text → Text → ℕ → Text
desktop_url host id port = port_url host port (desktop_subpath id)

abbrev pub localhost : Text
localhost = codes "127.0.0.1"

-- `poll_interval`, in milliseconds.
abbrev pub poll_interval : ℕ
poll_interval = 500

abbrev pub answer : {S E : Type 0} → Run S E ℕ → Bool × S
answer (ok status s) = (is_success status, s)
answer (err e s) = (false, s)

module _ (m : Machine) where
  open m use {State, now, sleep, http_get, http_get_within}

  -- The `loop` of both waits, with fuel for `fuel` rounds; `none` where it is used up.
  unfoldable pub poll_until :
      ℕ
      → Text
      → ℕ
      → CreateWorkspaceError
      → State
      → Option (Run State CreateWorkspaceError (Unit {0}))
  poll_until zero url deadline late s = none
  poll_until (suc fuel) url deadline late s =
      let (healthy, asked) = answer (http_get url s) in
      elim healthy [
        | true ↦ some (ok tt asked)
        | false ↦ elim (leb deadline (now asked)) [
          | true ↦ some (err late asked)
          | false ↦ poll_until fuel url deadline late (sleep poll_interval asked)
        ]
      ]

  -- Rounds that are enough for a timeout.
  abbrev pub rounds : ℕ → ℕ
  rounds timeout = suc (timeout / 500 + 1)

  abbrev pub ended :
      CreateWorkspaceError
      → State
      → Option (Run State CreateWorkspaceError (Unit {0}))
      → Run State CreateWorkspaceError (Unit {0})
  ended late s (some run) = run
  ended late s none = err late s

  unfoldable pub wait_until :
      Text → ℕ → CreateWorkspaceError → Exec State CreateWorkspaceError (Unit {0})
  unfolding poll_until
  wait_until url timeout late s =
      ended late s (poll_until (rounds timeout) url (now s + timeout) late s)

  abbrev pub late : Text → Text → Text → ℕ → CreateWorkspaceError
  late what url not_yet timeout =
      container (what ++ (codes " at " ++ (url ++ (not_yet ++ (to_text timeout ++ codes "ms")))))

  unfoldable pub wait_for_wrapper_ready_at :
      Text → ℕ → ℕ → Exec State CreateWorkspaceError (Unit {0})
  unfolding wait_until
  wait_for_wrapper_ready_at host port timeout =
      let url = wrapper_url host port in
      wait_until url timeout
        (late (codes "wrapper") url (codes " did not become healthy within ") timeout)

  unfoldable pub wait_for_desktop_ready_at :
      Text → Text → ℕ → ℕ → Exec State CreateWorkspaceError (Unit {0})
  unfolding wait_until
  wait_for_desktop_ready_at host id port timeout =
      let url = desktop_url host id port in
      wait_until url timeout
        (late (codes "desktop") url (codes " did not become ready within ") timeout)

  unfoldable pub check_wrapper_health_at : Text → ℕ → ℕ → State → Bool × State
  check_wrapper_health_at host port timeout s =
      answer (http_get_within timeout (wrapper_url host port) s)

  unfoldable pub check_desktop_health_at : Text → Text → ℕ → ℕ → State → Bool × State
  check_desktop_health_at host id port timeout s =
      answer (http_get_within timeout (desktop_url host id port) s)
