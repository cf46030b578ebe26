-- ===== src/Workspaces/Docker/Examples.antt =====
-- A machine whose wrapper answers after a second, and the launcher on it.
use mathlib.Core.Logic.{inl, inr}
use aglack.Prelude.Tests.{Bool-cases}
use aglack.Workspaces.Host.{CreateWorkspaceError}
use aglack.Workspaces.Docker.{pick_free_port, run_docker}
use aglack.Workspaces.Docker.Health.{wait_for_wrapper_ready_at, wait_for_desktop_ready_at, answer}
use Prim.Native.Nat.{ℕ, ◌≤◌, ◌+◌}
use mathlib.Core.Path.{◌≡◌, refl}
use mathlib.Core.Bool.{true, false}
use mathlib.Core.Option.{some, none}
use mathlib.Core.List.{[]}
use native.Mathlib.Omega.{arith}
use aglack.Prelude.Tests.{if◌then◌else◌, leb}
use aglack.Prelude.Text.{Text, codes}
use aglack.Prelude.Exec.{ok, err, good}
use aglack.Prelude.Ends.{Ends}
use aglack.Workspaces.Host.{container}
use aglack.Workspaces.Docker.{Machine, inspect_container_state}
use aglack.Workspaces.Docker.Health.{poll_until, wait_until, wrapper_url, localhost}
use aglack.Workspaces.Docker.Launcher.{DockerCliLauncher, launch}
use aglack.Workspaces.Docker.Waiting.{Ticks, FailsLate, wait_until_Ends}
use aglack.Workspaces.Docker.Observed.{observed}
use aglack.Workspaces.Docker.Order.{launch-Logged, CompleteLaunch, FailedLaunch}

-- Its state is the clock.
abbrev tiny : Machine
tiny = record {
  State = ℕ;
  Listener = ℕ;
  TempFile = Unit {0};
  docker = λ args s. ok (record { success = true; stdout = []; stderr = [] }) s;
  bind = λ s. ok 40000 s;
  local_port = λ listener s. ok 40000 s;
  http_get = λ url s. if leb 1000 s then ok 200 s else err [] s;
  http_get_within = λ timeout url s. ok 200 s;
  now = λ s. s;
  sleep = λ ms s. s + ms;
  tempfile = λ s. ok tt s;
  write_file = λ file text s. ok tt s;
  path_str = λ file. some (codes "/tmp/boot.sh");
  parse_json = λ text. good (record { running = true; exit_code = some 0; oom_killed = false });
  url_host = λ url. none;
}

abbrev launcher : DockerCliLauncher
launcher = record {
  image_tag = codes "image";
  allowed_origins = [];
  workspace_default_path = [];
  frontend_origin = [];
  gateway_internal_url = [];
  memory_limit = codes "4g";
  shm_size = codes "1g";
  browser_idle_timeout_minutes = codes "4";
}

abbrev script : DockerCliLauncher → Text → Text
script self id = codes "exit 0"

asks_keeps_clock : (url : Text) (s : ℕ) → s ≤ (answer (tiny.http_get url s)).1
asks_keeps_clock url s = elim (Bool-cases (leb 1000 s)) [
  | inl e ↦ rw e (omega arith)
  | inr e ↦ rw e (omega arith)
]

tiny-Ticks : Ticks tiny
tiny-Ticks = record { asks = λ url s. asks_keeps_clock url s; sleeps = λ ms s. omega arith }

abbrev id : Text
id = codes "w1"

launches_example :
    launch tiny script launcher id 0
    ≡ ok
        (record {
          container_name = codes "hermes-ws-w1";
          wrapper_port = 40000;
          desktop_port = 40000;
          browser_port = 40000;
        })
        1000
unfolding launch pick_free_port run_docker wait_for_wrapper_ready_at wait_for_desktop_ready_at
launches_example = refl

inspects_example :
    inspect_container_state tiny (codes "c") 5
    ≡ ok (record { running = true; exit_code = none; oom_killed = false }) 5
unfolding inspect_container_state
inspects_example = refl

abbrev late : CreateWorkspaceError
late = container (codes "too late")

wait_until_Ends_example :
    (poll_until tiny 70 (wrapper_url localhost 40000) 30000 late 0
      ≡ some (wait_until tiny (wrapper_url localhost 40000) 30000 late 0))
    × FailsLate tiny 30000 (wait_until tiny (wrapper_url localhost 40000) 30000 late 0)
wait_until_Ends_example =
    wait_until_Ends tiny tiny-Ticks (wrapper_url localhost 40000) 30000 late 70 0 (omega arith)

launch-Logged_example :
    Ends
      (λ c w. CompleteLaunch launcher id c w.1)
      (λ e w. FailedLaunch launcher id w.1)
      (launch (observed tiny) script launcher id (0, []))
launch-Logged_example = launch-Logged tiny script launcher id 0
