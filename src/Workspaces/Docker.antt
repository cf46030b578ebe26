-- ===== src/Workspaces/Docker.antt =====
-- workspaces/container: the machine that the gateway runs on, and what docker_cli.rs, inspect.rs and
-- desktop.rs make of it. The `docker` command, sockets, HTTP, the clock, temporary files and the
-- JSON and URL parsers are fields of `Machine`; an error is the text that it is shown as.
pub mod Health
pub mod Launcher
pub mod Waiting
pub mod Observed
pub mod Boot
pub mod Order
pub mod Examples
use Prim.Native.Nat.{ℕ}
use mathlib.Core.Bool.{Bool, true, false, not}
use mathlib.Core.Option.{Option, none, some}
use mathlib.Core.List.{List, [], ◌∷◌, ◌++◌}
use aglack.Prelude.Tests.{if◌then◌else◌}
use aglack.Prelude.Lists.{is_some}
use aglack.Prelude.Text.{Text, codes}
use aglack.Prelude.Strings.{split_once, trim, join}
use aglack.Prelude.Exec.{Exec, ok, err, Result, good, bad, pure, throw, ◌>>=◌, map_err}
use aglack.Workspaces.Host.{CreateWorkspaceError, container, ContainerState}

pub record Output : Type 0 where
  pub success : Bool
  pub stdout : Text
  pub stderr : Text

-- A missing field is `false` or `none`, as `#[serde(default)]` says.
pub record DockerInspectState : Type 0 where
  pub running : Bool
  pub exit_code : Option ℕ
  pub oom_killed : Bool

pub record Machine : Type 1 where
  pub State : Type 0
  pub Listener : Type 0
  pub TempFile : Type 0
  -- `Command::new("docker").args(…).output()`
  pub docker : List Text → Exec State Text Output
  -- `TcpListener::bind("127.0.0.1:0")` and the port of its `local_addr()`
  pub bind : Exec State Text Listener
  pub local_port : Listener → Exec State Text ℕ
  -- `client.get(url).send()`: the status, or any failure
  pub http_get : Text → Exec State Text ℕ
  -- the same under `tokio::time::timeout`, in milliseconds
  pub http_get_within : ℕ → Text → Exec State Text ℕ
  -- `Instant::now()` in milliseconds, and `tokio::time::sleep`
  pub now : State → ℕ
  pub sleep : ℕ → State → State
  pub tempfile : Exec State Text TempFile
  pub write_file : TempFile → Text → Exec State Text (Unit {0})
  -- `path().to_str()`
  pub path_str : TempFile → Option Text
  -- `serde_json::from_slice::<DockerInspectState>`
  pub parse_json : Text → Result Text DockerInspectState
  -- `Url::parse(…).ok()` and its `host_str()`
  pub url_host : Text → Option Text

-- `str::contains`
abbrev pub contains : Text → Text → Bool
contains p s = is_some (split_once p s)

abbrev pub no_such_container : Text
no_such_container = codes "No such container"

-- The text of a container error: `what` failed for a container, with a detail.
abbrev pub failure : Text → Text → Text → CreateWorkspaceError
failure what name detail =
    container (what ++ (codes " for container " ++ (name ++ (codes ": " ++ detail))))

abbrev pub quoted : List Text → Text
quoted args = codes "`docker " ++ (join (codes " ") args ++ codes "`")

-- desktop.rs
unfoldable pub desktop_subpath : Text → Text
desktop_subpath id = codes "/workspaces/" ++ (id ++ codes "/desktop/")

unfoldable pub desktop_subfolder_env_arg : Text → Text
unfolding desktop_subpath
desktop_subfolder_env_arg id = codes "SUBFOLDER=" ++ desktop_subpath id

module _ (m : Machine) where
  open m use {State, docker, bind, local_port, parse_json}

  -- docker_cli.rs
  unfoldable pub pick_free_port : Exec State CreateWorkspaceError ℕ
  pick_free_port = do
    listener ← map_err (λ e. container (codes "failed to pick a free host port: " ++ e)) bind
    map_err (λ e. container (codes "failed to read back picked host port: " ++ e))
        (local_port listener)

  unfoldable pub docker_daemon_reachable : State → Bool × State
  docker_daemon_reachable s = elim (docker (codes "info" ∷ []) s) [
    | ok output s' ↦ (output.success, s')
    | err e s' ↦ (false, s')
  ]

  -- The command, where it could be run.
  abbrev pub output_of : Text → Text → List Text → Exec State CreateWorkspaceError Output
  output_of what name args = map_err (failure (codes "failed to run " ++ what) name) (docker args)

  unfoldable pub run_docker : Text → List Text → Exec State CreateWorkspaceError (Unit {0})
  run_docker name args = do
    output ← output_of (quoted args) name args
    if not output.success
        then throw (failure (quoted args ++ codes " failed") name (trim output.stderr))
        else pure tt

  abbrev state_of_json :
      Text → Result Text DockerInspectState → Exec State CreateWorkspaceError ContainerState
  state_of_json name (bad e) =
      throw (failure (codes "failed to parse `docker inspect` output") name e)
  state_of_json name (good parsed) = pure (record {
    running = parsed.running;
    exit_code = if parsed.running then none else parsed.exit_code;
    oom_killed = parsed.oom_killed;
  })

  unfoldable pub parse_container_state_json :
      Text → Text → Exec State CreateWorkspaceError ContainerState
  parse_container_state_json raw_stdout name = state_of_json name (parse_json raw_stdout)

  unfoldable pub inspect_container_state : Text → Exec State CreateWorkspaceError ContainerState
  unfolding parse_container_state_json
  inspect_container_state name = do
    output ←
        output_of (codes "`docker inspect`") name
          (codes "inspect" ∷ codes "--format" ∷ codes "{{json .State}}" ∷ name ∷ [])
    if not output.success
        then (if contains no_such_container output.stderr
            then pure (record { running = false; exit_code = none; oom_killed = false })
            else throw (failure (codes "`docker inspect` failed") name (trim output.stderr)))
        else parse_container_state_json output.stdout name
