-- ===== src/Workspaces/Docker/Order.antt =====
-- The order of the `docker` commands of a launch.
use Prim.Native.Nat.{ℕ}
use mathlib.Core.Path.{◌≡◌, refl}
use mathlib.Core.Logic.{inl, inr}
use mathlib.Core.Bool.{Bool, true, false}
use mathlib.Core.List.{List, [], ◌∷◌, ◌++◌}
use aglack.Prelude.Tests.{Bool-cases}
use aglack.Prelude.Text.{Text, codes}
use aglack.Prelude.Decimal.{to_text}
use aglack.Prelude.Exec.{ok, bad, Run-cases, ◌>>=◌, map_err, ignore, final, pure}
use aglack.Prelude.Ends.{Ends, Ends->>=, Ends-attempt}
use aglack.Workspaces.Host.{CreateWorkspaceError, LaunchedContainer}
use aglack.Workspaces.Docker.{
  Machine, desktop_subfolder_env_arg, run_docker, pick_free_port, contains, no_such_container,
}
use aglack.Workspaces.Docker.Observed.{
  Log, M, S, Quiet, logged, run_docker-Logged, pick_free_port-Quiet,
}
use aglack.Workspaces.Docker.Launcher.{
  DockerCliLauncher, launch, boot, settle, rm_args, start_args, cp_args, container_name,
  create_args, pick_ports, launched_at, boot_or_remove, create_and_boot, remove, tolerant,
}
use aglack.Workspaces.Docker.Boot.{FailedBoot, Unbooted, boot-Logged}

-- The arguments hold the flag with this value.
abbrev pub Passes : Text → Text → List Text → Type 0
Passes flag value args =
    (before : List Text) × (after : List Text) × (args ≡ before ++ flag ∷ value ∷ after)

-- `docker create` of the workspace's container from the launcher's image: its ports 8787 and 3000 are
-- published at ports of the host, its port 9400 at a port of 127.0.0.1 only, and its memory is
-- limited.
pub record Creates (self : DockerCliLauncher) (id : Text) (wrapper desktop browser : ℕ)
    (args : List Text) : Type 0 where
  pub rest : List Text
  pub command : args ≡ codes "create" ∷ rest
  pub named : Passes (codes "--name") (codes "hermes-ws-" ++ id) args
  pub limited : Passes (codes "--memory") self.memory_limit args
  pub wrapper_published : Passes (codes "-p") (to_text wrapper ++ codes ":8787") args
  pub desktop_published : Passes (codes "-p") (to_text desktop ++ codes ":3000") args
  pub browser_published :
      Passes (codes "-p") (codes "127.0.0.1:" ++ (to_text browser ++ codes ":9400")) args
  pub options : List Text
  pub image_last : args ≡ options ++ self.image_tag ∷ []

create_args-Creates :
    (self : DockerCliLauncher) (id : Text) (wrapper desktop browser : ℕ)
    → Creates self id wrapper desktop browser (create_args self id wrapper desktop browser)
create_args-Creates self id wrapper desktop browser =
    let memory = codes "--memory" ∷ self.memory_limit ∷ [] in
    let shm = codes "--shm-size" ∷ self.shm_size ∷ [] in
    let head = codes "create" ∷ codes "--name" ∷ container_name id ∷ [] in
    let wrapped = codes "-p" ∷ (to_text wrapper ++ codes ":8787") ∷ [] in
    let shown = codes "-p" ∷ (to_text desktop ++ codes ":3000") ∷ [] in
    let browsed = codes "-p" ∷ (codes "127.0.0.1:" ++ (to_text browser ++ codes ":9400")) ∷ [] in
    let subfolder = codes "-e" ∷ desktop_subfolder_env_arg id ∷ [] in
    record {
      rest = _;
      command = refl;
      named = (codes "create" ∷ [], _, refl);
      limited = (head, _, refl);
      wrapper_published = (head ++ (memory ++ shm), _, refl);
      desktop_published = (head ++ (memory ++ (shm ++ wrapped)), _, refl);
      browser_published = (head ++ (memory ++ (shm ++ (wrapped ++ shown))), _, refl);
      options = head ++ (memory ++ (shm ++ (wrapped ++ (shown ++ (browsed ++ subfolder)))));
      image_last = refl;
    }

-- The commands of a launch that failed.
pub data FailedLaunch (self : DockerCliLauncher) (id : Text) : Log → Type 0 where
  no_port : (gone : Bool) → FailedLaunch self id ((rm_args (container_name id), gone) ∷ [])
  not_created :
      (gone : Bool) (wrapper desktop browser : ℕ)
      → FailedLaunch self id (
          (rm_args (container_name id), gone)
          ∷ (create_args self id wrapper desktop browser, false)
          ∷ [])
  undone :
      (gone : Bool) (wrapper desktop browser : ℕ) (commands : Log) (removed : Bool)
      → FailedBoot (container_name id) commands
      → FailedLaunch self id (
          (rm_args (container_name id), gone)
          ∷ (create_args self id wrapper desktop browser, true)
          ∷ (commands ++ (rm_args (container_name id), removed) ∷ []))

-- The commands of a launch that succeeded.
abbrev pub CompleteLaunch : DockerCliLauncher → Text → LaunchedContainer → Log → Type 0
CompleteLaunch self id c log =
    (swept : Bool) × (path : Text) × (args : List Text) × Creates self id c.wrapper_port
      c.desktop_port c.browser_port args
    × (c.container_name ≡ container_name id)
    × (log
        ≡ (rm_args (container_name id), swept)
          ∷ (args, true)
          ∷ (cp_args (container_name id) path, true)
          ∷ (start_args (container_name id), true)
          ∷ [])

module _ (m : Machine) (script : DockerCliLauncher → Text → Text) where
  pick_ports-Quiet : (w : S m) (log : Log) → w.1 ≡ log → Quiet log (pick_ports (M m) script w)
  unfolding pick_ports
  pick_ports-Quiet w log e =
      Ends->>= (λ _ w. w.1 ≡ log) (λ _ w. w.1 ≡ log) (λ _ w. w.1 ≡ log) (λ _ w. w.1 ≡ log)
        (pick_free_port (M m))
        (λ wrapper. pick_free_port (M m) >>= λ desktop.
          pick_free_port (M m) >>= λ browser. pure (wrapper, desktop, browser))
        w (pick_free_port-Quiet m w log e)
        (λ wrapper w1 e1.
          Ends->>= (λ _ w. w.1 ≡ log) (λ _ w. w.1 ≡ log) (λ _ w. w.1 ≡ log) (λ _ w. w.1 ≡ log)
            (pick_free_port (M m))
            (λ desktop. pick_free_port (M m) >>= λ browser. pure (wrapper, desktop, browser)) w1
            (pick_free_port-Quiet m w1 log e1)
            (λ desktop w2 e2.
              Ends->>= (λ _ w. w.1 ≡ log) (λ _ w. w.1 ≡ log) (λ _ w. w.1 ≡ log) (λ _ w. w.1 ≡ log)
                (pick_free_port (M m)) (λ browser. pure (wrapper, desktop, browser)) w2
                (pick_free_port-Quiet m w2 log e2) (λ browser w3 e3. e3) (λ _ w3 e3. e3))
            (λ _ w2 e2. e2))
        (λ _ w1 e1. e1)

  removed-Logged :
      (name : Text) (w : S m) (log : Log)
      → w.1 ≡ log
      → (removed : Bool) × ((final (remove (M m) script name w)).1
          ≡ log ++ (rm_args name, removed) ∷ [])
  unfolding remove
  removed-Logged name (s, l) log same = elim (Run-cases (m.docker (rm_args name) s)) [
    | inl (output, s', e) ↦ (
      output.success,
      elim (Bool-cases output.success) [
        | inl done ↦ rw (remove, tolerant, ◌>>=◌, map_err, logged, e, done, final) (rw same)
        | inr failed ↦ elim (Bool-cases (contains no_such_container output.stderr)) [
          | inl gone ↦
              rw (remove, tolerant, ◌>>=◌, map_err, logged, e, failed, gone, final) (rw same)
          | inr there ↦
              rw (remove, tolerant, ◌>>=◌, map_err, logged, e, failed, there, final) (rw same)
        ]
      ],
    )
    | inr (x, s', e) ↦ (false, rw (remove, tolerant, ◌>>=◌, map_err, logged, e, final) (rw same))
  ]

  module _ (self : DockerCliLauncher) (id : Text) where
    abbrev Complete : LaunchedContainer → S m → Type 0
    Complete c w = CompleteLaunch self id c w.1

    abbrev Failed : CreateWorkspaceError → S m → Type 0
    Failed e w = FailedLaunch self id w.1

    settle_bad-Logged :
        (gone : Bool) (wrapper desktop browser : ℕ) (c : LaunchedContainer)
        (e : CreateWorkspaceError) (w : S m)
        → Unbooted m script
            (container_name id)
            ((rm_args (container_name id), gone)
              ∷ (create_args self id wrapper desktop browser, true)
              ∷ [])
            w
        → Ends Complete Failed (settle (M m) script (container_name id) c (bad e) w)
    settle_bad-Logged gone wrapper desktop browser c e w (commands, boots, same) =
        let (removed, after) = removed-Logged (container_name id) w _ same in
        let failed : FailedLaunch self id (final (remove (M m) script (container_name id) w)).1 =
          rw after (undone gone wrapper desktop browser commands removed boots) in
        elim (Run-cases (remove (M m) script (container_name id) w)) [
          | inl (u, w', f) ↦ rw (settle, ◌>>=◌, ignore, f, Ends) (rw f at failed)
          | inr (x, w', f) ↦ rw (settle, ◌>>=◌, ignore, f, Ends) (rw f at failed)
        ]

    boot_or_remove-Logged :
        (gone : Bool) (wrapper desktop browser : ℕ) (w : S m)
        → w.1
          ≡ (rm_args (container_name id), gone)
            ∷ (create_args self id wrapper desktop browser, true)
            ∷ []
        → Ends Complete Failed (boot_or_remove (M m) script self id wrapper desktop browser w)
    boot_or_remove-Logged gone wrapper desktop browser w e =
        let c = launched_at (M m) script id wrapper desktop browser in
        Ends-attempt _ _ Complete Failed (boot (M m) script self id wrapper desktop)
          (settle (M m) script (container_name id) c) w
          (boot-Logged m script self id wrapper desktop w _ e)
          (λ _ w' (path, e').
            (gone, path, _, create_args-Creates self id wrapper desktop browser, refl, e'))
          (λ x w' u. settle_bad-Logged gone wrapper desktop browser c x w' u)

    create_and_boot-Logged :
        (gone : Bool) (ports : ℕ × ℕ × ℕ) (w : S m)
        → w.1 ≡ (rm_args (container_name id), gone) ∷ []
        → Ends Complete Failed (create_and_boot (M m) script self id ports w)
    create_and_boot-Logged gone (wrapper, desktop, browser) w e =
        let args = create_args self id wrapper desktop browser in
        let swept : List Text × Bool = (rm_args (container_name id), gone) in
        Ends->>= (λ _ w. w.1 ≡ swept ∷ (args, true) ∷ []) (λ _ w. w.1 ≡ swept ∷ (args, false) ∷ [])
          Complete Failed (run_docker (M m) (container_name id) args)
          (λ _. boot_or_remove (M m) script self id wrapper desktop browser) w
          (run_docker-Logged m (container_name id) args w (swept ∷ []) e)
          (λ _ w' e'. boot_or_remove-Logged gone wrapper desktop browser w' e')
          (λ _ w' e'. rw e' (not_created gone wrapper desktop browser))

    swept-Logged :
        (s : m.State)
        → (gone : Bool) × (w : S m) × (ignore {F = CreateWorkspaceError}
              ((M m).docker (rm_args (container_name id)))
              (s, [])
            ≡ ok tt w)
          × (w.1 ≡ (rm_args (container_name id), gone) ∷ [])
    swept-Logged s = elim (Run-cases (m.docker (rm_args (container_name id)) s)) [
      | inl (output, s', e) ↦ (
        output.success,
        (s', (rm_args (container_name id), output.success) ∷ []),
        rw (ignore, logged, e) refl,
        refl,
      )
      | inr (x, s', e) ↦ (
        false,
        (s', (rm_args (container_name id), false) ∷ []),
        rw (ignore, logged, e) refl,
        refl,
      )
    ]

    -- The commands of a launch, in order, with whether each succeeded. A launch that succeeds has
    -- tried to sweep the name with `rm -f`, and then, each with success, created the container with
    -- the ports that it reports published (the browser's at 127.0.0.1 only), copied the boot script
    -- in and only then started it. A launch
    -- that fails has stopped before `create`, or at a `create` that failed, or, wherever it failed
    -- behind a `create` that succeeded, its last command is the removal of the container.
    pub launch-Logged : (s : m.State) → Ends Complete Failed (launch (M m) script self id (s, []))
    unfolding launch
    launch-Logged s =
        let (gone, w, runs, e) = swept-Logged s in
        rw (launch, ◌>>=◌, runs)
          (Ends->>= (λ _ w. w.1 ≡ (rm_args (container_name id), gone) ∷ [])
            (λ _ w. w.1 ≡ (rm_args (container_name id), gone) ∷ []) Complete Failed
            (pick_ports (M m) script) (create_and_boot (M m) script self id) w
            (pick_ports-Quiet w _ e) (λ ports w' e'. create_and_boot-Logged gone ports w' e')
            (λ _ w' e'. rw e' (no_port gone)))
