-- ===== src/Workspaces/Host.antt =====
-- What the workspaces feature works on: the store, and the host. The host is an interface: the trait
-- `ContainerLauncher` (workspaces/container/mod.rs) and the HTTP checks of
-- workspaces/container/health.rs, each an action on a state of the host's own that may fail.
-- The log lists every call of the launcher and every sleep, in order.
use Prim.Native.Nat.{ℕ}
use mathlib.Core.Bool.{Bool}
use mathlib.Core.Option.{Option}
use mathlib.Core.List.{List, [], ◌∷◌, ◌++◌}
use aglack.Prelude.Text.{Text}
use aglack.Prelude.Exec.{ok, err, Exec}
use aglack.Workspaces.Db.{SqlxError, Db, StoreM}

pub data CreateWorkspaceError : Type 0 where
  store : SqlxError → CreateWorkspaceError
  container : Text → CreateWorkspaceError

pub record LaunchedContainer : Type 0 where
  pub container_name : Text
  pub wrapper_port : ℕ
  pub desktop_port : ℕ
  pub browser_port : ℕ

-- `exit_code` is an `i64` that is only shown; it is kept as the number that Docker prints.
pub record ContainerState : Type 0 where
  pub running : Bool
  pub exit_code : Option ℕ
  pub oom_killed : Bool

pub record Host : Type 1 where
  pub State : Type 0
  pub launch : Text → Exec State CreateWorkspaceError LaunchedContainer
  pub remove : Text → Exec State CreateWorkspaceError (Unit {0})
  pub inspect : Text → Exec State CreateWorkspaceError ContainerState
  pub stop : Text → Exec State CreateWorkspaceError (Unit {0})
  pub start_existing : Text → Exec State CreateWorkspaceError (Unit {0})
  pub daemon_reachable : Exec State CreateWorkspaceError Bool
  -- `check_wrapper_health_at`, `check_desktop_health_at`: a port (and a workspace) and a timeout in
  -- milliseconds; `wait_for_wrapper_ready`, `wait_for_desktop_ready` fail when the time is over.
  pub check_wrapper : ℕ → ℕ → Exec State CreateWorkspaceError Bool
  pub check_desktop : Text → ℕ → ℕ → Exec State CreateWorkspaceError Bool
  pub wait_wrapper : ℕ → ℕ → Exec State CreateWorkspaceError (Unit {0})
  pub wait_desktop : Text → ℕ → ℕ → Exec State CreateWorkspaceError (Unit {0})

pub data Event : Type 0 where
  launches : Text → Event
  removes : Text → Event
  inspects : Text → Event
  stops : Text → Event
  starts : Text → Event
  sleeps : ℕ → Event

pub record World (S : Type 0) : Type 0 where
  pub db : Db
  pub host : S
  pub log : List Event

abbrev pub WorldM : Type 0 → Type 0 → Type 0
WorldM S A = Exec (World S) CreateWorkspaceError A

-- A store call with `?`: `From<sqlx::Error>` wraps its error.
abbrev pub on_store : {S A : Type 0} → StoreM A → WorldM S A
on_store m w = elim (m w.db) [
  | ok a db ↦ ok a (record w { db = db })
  | err e db ↦ err (store e) (record w { db = db })
]

-- A call of the host that is logged, and one that is not (an HTTP check).
abbrev pub call : {S A : Type 0} → Event → Exec S CreateWorkspaceError A → WorldM S A
call event m w = elim (m w.host) [
  | ok a host ↦ ok a (record w { host = host; log = w.log ++ event ∷ [] })
  | err e host ↦ err e (record w { host = host; log = w.log ++ event ∷ [] })
]

abbrev pub probe : {S A : Type 0} → Exec S CreateWorkspaceError A → WorldM S A
probe m w = elim (m w.host) [
  | ok a host ↦ ok a (record w { host = host })
  | err e host ↦ err e (record w { host = host })
]

abbrev pub sleep : {S : Type 0} → ℕ → WorldM S (Unit {0})
sleep ms w = ok tt (record w { log = w.log ++ sleeps ms ∷ [] })
