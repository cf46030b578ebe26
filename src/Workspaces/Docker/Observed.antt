-- ===== src/Workspaces/Docker/Observed.antt =====
-- A machine that keeps a log of the `docker` commands, for the order of those of a launch.
use Prim.Native.Nat.{ℕ, zero, suc, ◌+◌}
use mathlib.Core.Path.{◌≡◌, refl}
use mathlib.Core.Logic.{inl, inr}
use mathlib.Core.Bool.{Bool, true, false}
use mathlib.Core.List.{List, [], ◌∷◌, ◌++◌}
use aglack.Prelude.Tests.{Bool-cases, leb}
use aglack.Prelude.Text.{Text}
use aglack.Prelude.Exec.{Run, ok, err, Exec, Run-cases, ◌>>=◌, map_err}
use aglack.Prelude.Ends.{Ends, Ends-map_err}
use aglack.Workspaces.Host.{CreateWorkspaceError}
use aglack.Workspaces.Docker.{Machine, Output, run_docker, pick_free_port}
use aglack.Workspaces.Docker.Health.{
  poll_until, wait_until, wait_for_wrapper_ready_at, wait_for_desktop_ready_at, answer, ended,
  rounds,
}

-- A command with whether it was run and succeeded.
abbrev pub Log : Type 0
Log = List (List Text × Bool)

abbrev pub unlogged : {S E A : Type 0} → Exec S E A → Exec (S × Log) E A
unlogged m (s, log) = elim (m s) [ ok a s' ↦ ok a (s', log) | err e s' ↦ err e (s', log) ]

abbrev pub logged : {S E : Type 0} → List Text → Exec S E Output → Exec (S × Log) E Output
logged args m (s, log) = elim (m s) [
  | ok output s' ↦ ok output (s', log ++ (args, output.success) ∷ [])
  | err e s' ↦ err e (s', log ++ (args, false) ∷ [])
]

abbrev pub observed : Machine → Machine
observed m = record {
  State = m.State × Log;
  Listener = m.Listener;
  TempFile = m.TempFile;
  docker = λ args. logged args (m.docker args);
  bind = unlogged m.bind;
  local_port = λ listener. unlogged (m.local_port listener);
  http_get = λ url. unlogged (m.http_get url);
  http_get_within = λ timeout url. unlogged (m.http_get_within timeout url);
  now = λ w. m.now w.0;
  sleep = λ ms w. (m.sleep ms w.0, w.1);
  tempfile = unlogged m.tempfile;
  write_file = λ file text. unlogged (m.write_file file text);
  path_str = m.path_str;
  parse_json = m.parse_json;
  url_host = m.url_host;
}

abbrev pub Quiet : {S E A : Type 0} → Log → Run (S × Log) E A → Type 0
Quiet log r = Ends (λ _ w. w.1 ≡ log) (λ _ w. w.1 ≡ log) r

unlogged-Quiet :
    {S E A : Type 0} (m : Exec S E A) (w : S × Log) (log : Log)
    → w.1 ≡ log
    → Quiet log (unlogged m w)
unlogged-Quiet m (s, l) log same = elim (Run-cases (m s)) [
  | inl (a, s', e) ↦ rw (unlogged, e, Ends) same
  | inr (x, s', e) ↦ rw (unlogged, e, Ends) same
]

module _ (m : Machine) where
  abbrev pub M : Machine
  M = observed m

  abbrev pub S : Type 0
  S = m.State × Log

  pub run_docker-Logged :
      (name : Text) (args : List Text) (w : S) (log : Log)
      → w.1 ≡ log
      → Ends
          (λ _ w'. w'.1 ≡ log ++ (args, true) ∷ [])
          (λ _ w'. w'.1 ≡ log ++ (args, false) ∷ [])
          (run_docker M name args w)
  unfolding run_docker
  run_docker-Logged name args (s, l) log same = elim (Run-cases (m.docker args s)) [
    | inl (output, s', e) ↦ elim (Bool-cases output.success) [
      | inl done ↦ rw (run_docker, ◌>>=◌, map_err, logged, e, done, Ends) (rw same)
      | inr failed ↦ rw (run_docker, ◌>>=◌, map_err, logged, e, failed, Ends) (rw same)
    ]
    | inr (x, s', e) ↦ rw (run_docker, ◌>>=◌, map_err, logged, e, Ends) (rw same)
  ]

  answer-Quiet : (url : Text) (w : S) → (answer (M.http_get url w)).1.1 ≡ w.1
  answer-Quiet url (s, log) = elim (Run-cases (m.http_get url s)) [
    | inl (a, s', e) ↦ rw (unlogged, e, answer) refl
    | inr (x, s', e) ↦ rw (unlogged, e, answer) refl
  ]

  poll_until-Quiet :
      (fuel : ℕ) (url : Text) (deadline : ℕ) (late : CreateWorkspaceError) (s0 w : S) (log : Log)
      → w.1 ≡ log
      → s0.1 ≡ log
      → Quiet log (ended M late s0 (poll_until M fuel url deadline late w))
  unfolding poll_until
  poll_until-Quiet zero url deadline late s0 w log e e0 = e0
  poll_until-Quiet (suc fuel) url deadline late s0 w log e e0 =
      let asked = answer (M.http_get url w) in
      elim (Bool-cases asked.0) [
        | inl healthy ↦ rw (poll_until, healthy, ended, Ends) (rw (answer-Quiet url w) e)
        | inr not_yet ↦ elim (Bool-cases (leb deadline (M.now asked.1))) [
          | inl over ↦ rw (poll_until, not_yet, over, ended, Ends) (rw (answer-Quiet url w) e)
          | inr early ↦
              rw (poll_until, not_yet, early)
                (poll_until-Quiet fuel url deadline late s0 (M.sleep 500 asked.1) log
                  (rw (answer-Quiet url w) e) e0)
        ]
      ]

  pub wait_until-Quiet :
      (url : Text) (timeout : ℕ) (late : CreateWorkspaceError) (w : S) (log : Log)
      → w.1 ≡ log
      → Quiet log (wait_until M url timeout late w)
  unfolding wait_until
  wait_until-Quiet url timeout late w log e =
      poll_until-Quiet (rounds M timeout) url (M.now w + timeout) late w w log e e

  pub unlogged-map_err-Quiet :
      {A : Type 0} (say : Text → CreateWorkspaceError) (act : Exec m.State Text A) (w : S)
      (log : Log)
      → w.1 ≡ log
      → Quiet log (map_err say (unlogged act) w)
  unlogged-map_err-Quiet say act w log same =
      Ends-map_err (λ _ w. w.1 ≡ log) (λ w. w.1 ≡ log) say (unlogged act) w
        (unlogged-Quiet act w log same)

  pub pick_free_port-Quiet : (w : S) (log : Log) → w.1 ≡ log → Quiet log (pick_free_port M w)
  unfolding pick_free_port
  pick_free_port-Quiet (s, l) log same = elim (Run-cases (m.bind s)) [
    | inl (listener, s', e) ↦
        rw (pick_free_port, ◌>>=◌, map_err, unlogged, e)
          (unlogged-map_err-Quiet _ (m.local_port listener) (s', l) log same)
    | inr (x, s', e) ↦ rw (pick_free_port, ◌>>=◌, map_err, unlogged, e, Ends) same
  ]

  pub wait_for_wrapper_ready_at-Quiet :
      (host : Text) (port timeout : ℕ) (w : S) (log : Log)
      → w.1 ≡ log
      → Quiet log (wait_for_wrapper_ready_at M host port timeout w)
  unfolding wait_for_wrapper_ready_at
  wait_for_wrapper_ready_at-Quiet host port timeout w log e = wait_until-Quiet _ timeout _ w log e

  pub wait_for_desktop_ready_at-Quiet :
      (host id : Text) (port timeout : ℕ) (w : S) (log : Log)
      → w.1 ≡ log
      → Quiet log (wait_for_desktop_ready_at M host id port timeout w)
  unfolding wait_for_desktop_ready_at
  wait_for_desktop_ready_at-Quiet host id port timeout w log e =
      wait_until-Quiet _ timeout _ w log e
