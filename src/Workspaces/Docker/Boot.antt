-- ===== src/Workspaces/Docker/Boot.antt =====
-- The commands of a boot: of `launch` behind `docker create`.
use Prim.Native.Nat.{ℕ}
use mathlib.Core.Path.{◌≡◌, ◌∙◌, sym}
use mathlib.Core.Bool.{Bool, true, false}
use mathlib.Core.List.{List, [], ◌∷◌, ◌++◌, append-nil, append_assoc}
use aglack.Prelude.Text.{Text}
use aglack.Prelude.Ends.{Ends, Ends->>=, Ends-mono}
use aglack.Workspaces.Docker.{Machine, run_docker}
use aglack.Workspaces.Docker.Observed.{
  Log, M, S, Quiet, run_docker-Logged, unlogged-map_err-Quiet, wait_for_wrapper_ready_at-Quiet,
  wait_for_desktop_ready_at-Quiet,
}
use aglack.Workspaces.Docker.Health.{wait_for_wrapper_ready_at, wait_for_desktop_ready_at}
use aglack.Workspaces.Docker.Launcher.{
  DockerCliLauncher, boot, start_args, cp_args, container_name, deliver_boot_script, or_empty,
  or_localhost, new_file, write_script, fill_and_copy, wait_ready, start_and_wait,
}

-- The commands of a boot that failed.
pub data FailedBoot (name : Text) : Log → Type 0 where
  no_script : FailedBoot name []
  not_copied : (path : Text) → FailedBoot name ((cp_args name path, false) ∷ [])
  not_started :
      (path : Text) → FailedBoot name ((cp_args name path, true) ∷ (start_args name, false) ∷ [])
  not_ready :
      (path : Text) → FailedBoot name ((cp_args name path, true) ∷ (start_args name, true) ∷ [])

module _ (m : Machine) (script : DockerCliLauncher → Text → Text) where
  abbrev Copied : Text → Log → S m → Type 0
  Copied name log w = (path : Text) × (w.1 ≡ log ++ (cp_args name path, true) ∷ [])

  abbrev pub Booted : Text → Log → S m → Type 0
  Booted name log w =
      (path : Text) × (w.1 ≡ log ++ (cp_args name path, true) ∷ (start_args name, true) ∷ [])

  abbrev pub Unbooted : Text → Log → S m → Type 0
  Unbooted name log w = (commands : Log) × FailedBoot name commands × (w.1 ≡ log ++ commands)

  unchanged : (name : Text) (log : Log) (w : S m) → w.1 ≡ log → Unbooted name log w
  unchanged name log w e = ([], no_script, e ∙ sym (append-nil log))

  fill_and_copy-Logged :
      (self : DockerCliLauncher) (name id : Text) (file : m.TempFile) (w : S m) (log : Log)
      → w.1 ≡ log
      → Ends
          (λ _. Copied name log)
          (λ _. Unbooted name log)
          (fill_and_copy (M m) script self name id file w)
  fill_and_copy-Logged self name id file w log e =
      let path = or_empty (m.path_str file) in
      Ends->>= (λ _ w. w.1 ≡ log) (λ _ w. w.1 ≡ log) (λ _. Copied name log) (λ _. Unbooted name log)
        (write_script (M m) script self id file) (λ _. run_docker (M m) name (cp_args name path)) w
        (unlogged-map_err-Quiet m _ (m.write_file file (script self id)) w log e)
        (λ _ w' e'.
          Ends-mono _ _ (λ _. Copied name log) (λ _. Unbooted name log) _
            (run_docker-Logged m name (cp_args name path) w' log e') (λ _ w3 e3. (path, e3))
            (λ _ w3 e3. (_, not_copied path, e3)))
        (λ _ w' e'. unchanged name log w' e')

  deliver_boot_script-Logged :
      (self : DockerCliLauncher) (name id : Text) (w : S m) (log : Log)
      → w.1 ≡ log
      → Ends
          (λ _. Copied name log)
          (λ _. Unbooted name log)
          (deliver_boot_script (M m) script self name id w)
  unfolding deliver_boot_script
  deliver_boot_script-Logged self name id w log e =
      Ends->>= (λ _ w. w.1 ≡ log) (λ _ w. w.1 ≡ log) (λ _. Copied name log) (λ _. Unbooted name log)
        (new_file (M m) script) (fill_and_copy (M m) script self name id) w
        (unlogged-map_err-Quiet m _ m.tempfile w log e)
        (λ file w' e'. fill_and_copy-Logged self name id file w' log e')
        (λ _ w' e'. unchanged name log w' e')

  wait_ready-Quiet :
      (self : DockerCliLauncher) (id : Text) (wrapper desktop : ℕ) (w : S m) (log : Log)
      → w.1 ≡ log
      → Quiet log (wait_ready (M m) script self id wrapper desktop w)
  wait_ready-Quiet self id wrapper desktop w log e =
      let host = or_localhost (m.url_host self.gateway_internal_url) in
      Ends->>= (λ _ w. w.1 ≡ log) (λ _ w. w.1 ≡ log) (λ _ w. w.1 ≡ log) (λ _ w. w.1 ≡ log)
        (wait_for_wrapper_ready_at (M m) host wrapper 30000)
        (λ _. wait_for_desktop_ready_at (M m) host id desktop 15000) w
        (wait_for_wrapper_ready_at-Quiet m host wrapper 30000 w log e)
        (λ _ w' e'. wait_for_desktop_ready_at-Quiet m host id desktop 15000 w' log e')
        (λ _ w' e'. e')

  start_and_wait-Logged :
      (self : DockerCliLauncher) (id : Text) (wrapper desktop : ℕ) (w : S m) (log : Log)
      → Copied (container_name id) log w
      → Ends
          (λ _. Booted (container_name id) log)
          (λ _. Unbooted (container_name id) log)
          (start_and_wait (M m) script self id wrapper desktop w)
  start_and_wait-Logged self id wrapper desktop w log (path, e) =
      let name = container_name id in
      let copied : List Text × Bool = (cp_args name path, true) in
      let after : Log = log ++ copied ∷ (start_args name, true) ∷ [] in
      Ends->>= (λ _ w. w.1 ≡ after) (λ _. Unbooted name log) (λ _. Booted name log)
        (λ _. Unbooted name log) (run_docker (M m) name (start_args name))
        (λ _. wait_ready (M m) script self id wrapper desktop) w
        (Ends-mono _ _ (λ _ w. w.1 ≡ after) (λ _. Unbooted name log) _
          (run_docker-Logged m name (start_args name) w (log ++ copied ∷ []) e)
          (λ _ w' e'. e' ∙ append_assoc log (copied ∷ []) _)
          (λ _ w' e'. (_, not_started path, e' ∙ append_assoc log (copied ∷ []) _)))
        (λ _ w' e'.
          Ends-mono _ _ (λ _. Booted name log) (λ _. Unbooted name log) _
            (wait_ready-Quiet self id wrapper desktop w' after e') (λ _ w3 e3. (path, e3))
            (λ _ w3 e3. (_, not_ready path, e3)))
        (λ _ w' u. u)

  pub boot-Logged :
      (self : DockerCliLauncher) (id : Text) (wrapper desktop : ℕ) (w : S m) (log : Log)
      → w.1 ≡ log
      → Ends
          (λ _. Booted (container_name id) log)
          (λ _. Unbooted (container_name id) log)
          (boot (M m) script self id wrapper desktop w)
  unfolding boot
  boot-Logged self id wrapper desktop w log e =
      Ends->>= (λ _. Copied (container_name id) log) (λ _. Unbooted (container_name id) log)
        (λ _. Booted (container_name id) log) (λ _. Unbooted (container_name id) log)
        (deliver_boot_script (M m) script self (container_name id) id)
        (λ _. start_and_wait (M m) script self id wrapper desktop) w
        (deliver_boot_script-Logged self (container_name id) id w log e)
        (λ _ w' c. start_and_wait-Logged self id wrapper desktop w' log c) (λ _ w' u. u)
