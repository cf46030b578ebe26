-- ===== src/Integrations/Rotation/Connections.antt =====
-- What is said of the connections only outlives a rotation.
use mathlib.Core.Path.{◌≡◌}
use mathlib.Core.Logic.{inl, inr}
use mathlib.Core.List.{List}
use aglack.Prelude.Text.{Text}
use aglack.Prelude.Exec.{final, Run-cases, ◌>>=◌, get_state, put_state}
use aglack.Prelude.Keeps.{Keeps}
use aglack.Integrations.Tokens.{
  TokenDb, WorkspaceRuntimeToken, token_statement, find_runtime_token, upsert_runtime_token,
}
use aglack.Integrations.Tokens.Lookups.{statement-SameTables}
use aglack.Integrations.Remote.{Outside}
use aglack.Integrations.Remote.Keeping.{KeepsTables}
use aglack.Integrations.Rotation.{rotate_workspace_token}
use aglack.Integrations.Rotation.Keeping.{rotate_workspace_token-KeepsTables}

module _ (P : TokenDb → Type 0)
    (kept : (db db' : TokenDb) → db'.connections ≡ db.connections → P db → P db') where
  pub find_runtime_token-Keeps : (id : Text) → Keeps P (find_runtime_token id)
  unfolding find_runtime_token
  find_runtime_token-Keeps id db p = elim (Run-cases (token_statement db)) [
    | inl (a, db', e) ↦
        rw (find_runtime_token, e, ◌>>=◌, get_state, final)
          (kept db _ (rw e at (statement-SameTables db)).1 p)
    | inr (x, db', e) ↦
        rw (find_runtime_token, e, ◌>>=◌, final) (kept db _ (rw e at (statement-SameTables db)).1 p)
  ]

  pub upsert_runtime_token-Keeps :
      (token : WorkspaceRuntimeToken) → Keeps P (upsert_runtime_token token)
  unfolding upsert_runtime_token
  upsert_runtime_token-Keeps token db p = elim (Run-cases (token_statement db)) [
    | inl (a, db', e) ↦
        rw (upsert_runtime_token, e, ◌>>=◌, get_state, put_state, final)
          (kept db _ (rw e at (statement-SameTables db)).1 p)
    | inr (x, db', e) ↦
        rw (upsert_runtime_token, e, ◌>>=◌, final)
          (kept db _ (rw e at (statement-SameTables db)).1 p)
  ]

  pub rotate-keeps_connections :
      (o : Outside) (id container_name : Text) (allowed : List Text)
      → KeepsTables P (rotate_workspace_token o id container_name allowed)
  rotate-keeps_connections =
      rotate_workspace_token-KeepsTables P find_runtime_token-Keeps upsert_runtime_token-Keeps
