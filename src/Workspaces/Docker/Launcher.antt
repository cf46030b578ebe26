-- ===== src/Workspaces/Docker/Launcher.antt =====
-- workspaces/container/docker_launcher.rs: `DockerCliLauncher`, with `deliver_boot_script` of
-- boot_script.rs, as an implementation of the interface `Host`. The text of the boot script is a
-- parameter: any text.
use Prim.Native.Nat.{ℕ}
use mathlib.Core.Option.{Option, none, some}
use mathlib.Core.List.{List, [], ◌∷◌, ◌++◌}
use aglack.Prelude.Tests.{if◌then◌else◌}
use aglack.Prelude.Text.{Text, codes}
use aglack.Prelude.Decimal.{to_text}
use aglack.Prelude.Strings.{trim}
use aglack.Prelude.Exec.{
  Exec, Run, ok, Result, good, bad, pure, throw, ◌>>=◌, ◌>>◌, map_err, attempt, ignore,
}
use aglack.Workspaces.Host.{CreateWorkspaceError, container, LaunchedContainer, Host}
use aglack.Workspaces.Docker.{
  Machine, contains, no_such_container, failure, output_of, pick_free_port, run_docker,
  docker_daemon_reachable, inspect_container_state, desktop_subfolder_env_arg,
}
use aglack.Workspaces.Docker.Health.{
  localhost, wait_for_wrapper_ready_at, wait_for_desktop_ready_at, check_wrapper_health_at,
  check_desktop_health_at,
}

pub record DockerCliLauncher : Type 0 where
  pub image_tag : Text
  pub allowed_origins : Text
  pub workspace_default_path : Text
  pub frontend_origin : Text
  pub gateway_internal_url : Text
  pub memory_limit : Text
  pub shm_size : Text
  pub browser_idle_timeout_minutes : Text

abbrev pub or_empty : Option Text → Text
or_empty (some s) = s
or_empty none = []

abbrev pub or_localhost : Option Text → Text
or_localhost (some s) = s
or_localhost none = localhost

abbrev pub container_name : Text → Text
container_name id = codes "hermes-ws-" ++ id

abbrev pub rm_args : Text → List Text
rm_args name = codes "rm" ∷ codes "-f" ∷ name ∷ []

abbrev pub start_args : Text → List Text
start_args name = codes "start" ∷ name ∷ []

abbrev pub cp_args : Text → Text → List Text
cp_args name path =
    codes "cp" ∷ path ∷ (name ++ codes ":/custom-cont-init.d/hermes-webui-wrapper-boot.sh") ∷ []

abbrev pub create_args : DockerCliLauncher → Text → ℕ → ℕ → ℕ → List Text
create_args self id wrapper desktop browser =
    codes "create"
    ∷ codes "--name"
    ∷ container_name id
    ∷ codes "--memory"
    ∷ self.memory_limit
    ∷ codes "--shm-size"
    ∷ self.shm_size
    ∷ codes "-p"
    ∷ (to_text wrapper ++ codes ":8787")
    ∷ codes "-p"
    ∷ (to_text desktop ++ codes ":3000")
    ∷ codes "-p"
    ∷ (codes "127.0.0.1:" ++ (to_text browser ++ codes ":9400"))
    ∷ codes "-e"
    ∷ desktop_subfolder_env_arg id
    ∷ self.image_tag
    ∷ []

module _ (m : Machine) (wrapper_boot_script : DockerCliLauncher → Text → Text) where
  open m use {State, TempFile, docker, tempfile, write_file, path_str, url_host}

  abbrev pub new_file : Exec State CreateWorkspaceError TempFile
  new_file =
      map_err (λ e. container (codes "failed to create temp boot script file: " ++ e)) tempfile

  abbrev pub write_script :
      DockerCliLauncher → Text → TempFile → Exec State CreateWorkspaceError (Unit {0})
  write_script self id tmp_file =
      map_err (λ e. container (codes "failed to write boot script: " ++ e))
        (write_file tmp_file (wrapper_boot_script self id))

  abbrev pub fill_and_copy :
      DockerCliLauncher → Text → Text → TempFile → Exec State CreateWorkspaceError (Unit {0})
  fill_and_copy self name id tmp_file = do
    write_script self id tmp_file
    run_docker m name (cp_args name (or_empty (path_str tmp_file)))

  unfoldable pub deliver_boot_script :
      DockerCliLauncher → Text → Text → Exec State CreateWorkspaceError (Unit {0})
  deliver_boot_script self name id = do tmp_file ← new_file; fill_and_copy self name id tmp_file

  -- `docker rm -f` and `docker stop`: a container that is gone already is a success.
  abbrev pub tolerant : Text → Text → List Text → Exec State CreateWorkspaceError (Unit {0})
  tolerant what name args = do
    output ← output_of m what name args
    if output.success
        then pure tt
        else (if contains no_such_container output.stderr
            then pure tt
            else throw (failure (what ++ codes " failed") name (trim output.stderr)))

  unfoldable pub remove : Text → Exec State CreateWorkspaceError (Unit {0})
  remove name = tolerant (codes "`docker rm -f`") name (rm_args name)

  unfoldable pub stop : Text → Exec State CreateWorkspaceError (Unit {0})
  stop name = tolerant (codes "`docker stop`") name (codes "stop" ∷ name ∷ [])

  unfoldable pub start_existing : Text → Exec State CreateWorkspaceError (Unit {0})
  start_existing name = run_docker m name (start_args name)

  abbrev pub wait_ready :
      DockerCliLauncher → Text → ℕ → ℕ → Exec State CreateWorkspaceError (Unit {0})
  wait_ready self id wrapper_port desktop_port =
      let health_host = or_localhost (url_host self.gateway_internal_url) in
      wait_for_wrapper_ready_at m health_host wrapper_port 30000
      >> wait_for_desktop_ready_at m health_host id desktop_port 15000

  abbrev pub start_and_wait :
      DockerCliLauncher → Text → ℕ → ℕ → Exec State CreateWorkspaceError (Unit {0})
  start_and_wait self id wrapper_port desktop_port = do
    run_docker m (container_name id) (start_args (container_name id))
    wait_ready self id wrapper_port desktop_port

  -- The `async` block of `launch`, behind `docker create`.
  unfoldable pub boot :
      DockerCliLauncher → Text → ℕ → ℕ → Exec State CreateWorkspaceError (Unit {0})
  unfolding deliver_boot_script
  boot self id wrapper_port desktop_port = do
    deliver_boot_script self (container_name id) id
    start_and_wait self id wrapper_port desktop_port

  -- `if let Err(err) = launch_result`, and the `Ok` behind it.
  abbrev pub settle :
      Text
      → LaunchedContainer
      → Result CreateWorkspaceError (Unit {0})
      → Exec State CreateWorkspaceError LaunchedContainer
  settle name launched (bad e) = do ignore (remove name); throw e
  settle name launched (good _) = pure launched

  -- The host's ports: of the wrapper, the desktop and the browser daemon.
  unfoldable pub pick_ports : Exec State CreateWorkspaceError (ℕ × ℕ × ℕ)
  pick_ports = do
    wrapper_port ← pick_free_port m
    desktop_port ← pick_free_port m
    browser_port ← pick_free_port m
    pure (wrapper_port, desktop_port, browser_port)

  abbrev pub launched_at : Text → ℕ → ℕ → ℕ → LaunchedContainer
  launched_at id wrapper_port desktop_port browser_port = record {
    container_name = container_name id;
    wrapper_port = wrapper_port;
    desktop_port = desktop_port;
    browser_port = browser_port;
  }

  abbrev pub boot_or_remove :
      DockerCliLauncher → Text → ℕ → ℕ → ℕ → Exec State CreateWorkspaceError LaunchedContainer
  boot_or_remove self id wrapper desktop browser = do
    launch_result ← attempt (boot self id wrapper desktop)
    settle (container_name id) (launched_at id wrapper desktop browser) launch_result

  abbrev pub create_and_boot :
      DockerCliLauncher → Text → ℕ × ℕ × ℕ → Exec State CreateWorkspaceError LaunchedContainer
  create_and_boot self id (wrapper, desktop, browser) = do
    run_docker m (container_name id) (create_args self id wrapper desktop browser)
    boot_or_remove self id wrapper desktop browser

  unfoldable pub launch :
      DockerCliLauncher → Text → Exec State CreateWorkspaceError LaunchedContainer
  unfolding boot remove pick_ports
  launch self id = do
    ignore (docker (rm_args (container_name id)))
    ports ← pick_ports
    create_and_boot self id ports

  abbrev pub answered : {A : Type 0} → A × State → Run State CreateWorkspaceError A
  answered (a, s) = ok a s

  -- `impl ContainerLauncher for DockerCliLauncher`, with the checks of health.rs at
  -- `target_host` (`workspace_target_host()`) and its waits at 127.0.0.1, as their callers say.
  abbrev pub docker_host : DockerCliLauncher → Text → Host
  docker_host self target_host = record {
    State = State;
    launch = launch self;
    remove = remove;
    inspect = inspect_container_state m;
    stop = stop;
    start_existing = start_existing;
    daemon_reachable = λ s. answered (docker_daemon_reachable m s);
    check_wrapper =
        λ port timeout s. answered (check_wrapper_health_at m target_host port timeout s);
    check_desktop =
        λ id port timeout s. answered (check_desktop_health_at m target_host id port timeout s);
    wait_wrapper = wait_for_wrapper_ready_at m localhost;
    wait_desktop = wait_for_desktop_ready_at m localhost;
  }
