-- ===== src/Integrations/Tokens.antt =====
-- integrations/store.rs: the database of `IntegrationStore`, its runtime tokens and audit trail.
pub mod Lookups
use Prim.Native.Nat.{ℕ}
use aglack.Integrations.Rows.{ConnectionRow}
use mathlib.Core.Bool.{Bool, true, false}
use mathlib.Core.Option.{Option}
use mathlib.Core.List.{List, [], ◌∷◌, ◌++◌}
use Prim.Native.String.{String}
use aglack.Workspaces.Db.{SqlxError, database}
use mathlib.Core.Bool.{not}
use aglack.Prelude.Text.{◌==◌}
use aglack.Prelude.Text.{Text}
use aglack.Prelude.Tests.{if◌then◌else◌}
use aglack.Prelude.Lists.{update_where}
use aglack.Prelude.Lists.{keep}
use aglack.Prelude.Lists.{find?}
use aglack.Prelude.Lists.{any}
use aglack.Prelude.Exec.{◌>>◌}
use aglack.Prelude.Exec.{◌>>=◌}
use aglack.Prelude.Exec.{put_state}
use aglack.Prelude.Exec.{pure}
use aglack.Prelude.Exec.{get_state}
use aglack.Prelude.Exec.{Exec}
use aglack.Prelude.Exec.{ok}
use aglack.Prelude.Exec.{err}

pub record WorkspaceRuntimeToken : Type 0 where
  pub workspace_id : Text
  pub openconnector_token_id : Text
  pub token_hash : Text
  pub openconnector_bearer : Text

-- A row of `integration_audit`, less its time and its detail, which is null everywhere here.
pub record AuditRow : Type 0 where
  pub workspace_id : Text
  pub provider_id : Option Text
  pub event : String
  pub success : Bool

-- What `IntegrationStore` works on; `now` is the clock, in seconds.
pub record TokenDb : Type 0 where
  pub tokens : List WorkspaceRuntimeToken
  pub connections : List ConnectionRow
  pub audits : List AuditRow
  pub faults : List Bool
  pub now : ℕ

abbrev pub TokenM : Type 0 → Type 0
TokenM A = Exec TokenDb SqlxError A

token_statement_with : List Bool → TokenM (Unit {0})
token_statement_with [] db = ok tt db
token_statement_with (true ∷ later) db = err database (record db { faults = later })
token_statement_with (false ∷ later) db = ok tt (record db { faults = later })

unfoldable pub token_statement : TokenM (Unit {0})
unfolding token_statement_with
token_statement db = token_statement_with db.faults db

abbrev pub is_for : Text → WorkspaceRuntimeToken → Bool
is_for id token = token.workspace_id == id

unfoldable pub find_runtime_token : Text → TokenM (Option WorkspaceRuntimeToken)
find_runtime_token id = do token_statement; db ← get_state; pure (find? (is_for id) db.tokens)

-- `INSERT … ON CONFLICT (workspace_id) DO UPDATE`.
abbrev pub upserted :
    WorkspaceRuntimeToken → List WorkspaceRuntimeToken → List WorkspaceRuntimeToken
upserted token tokens =
    if any (is_for token.workspace_id) tokens
    then update_where (is_for token.workspace_id) (λ old. token) tokens
    else tokens ++ token ∷ []

unfoldable pub upsert_runtime_token : WorkspaceRuntimeToken → TokenM (Unit {0})
upsert_runtime_token token = do
  token_statement
  db ← get_state
  put_state (record db { tokens = upserted token db.tokens })

unfoldable pub delete_runtime_token : Text → TokenM (Unit {0})
delete_runtime_token id = do
  token_statement
  db ← get_state
  put_state (record db { tokens = keep (λ token. not (is_for id token)) db.tokens })

unfoldable pub record_audit : Text → Option Text → String → Bool → TokenM (Unit {0})
record_audit id provider event success = do
  token_statement
  db ← get_state
  put_state (record db {
    audits =
        db.audits
        ++ record { workspace_id = id; provider_id = provider; event = event; success = success }
          ∷ [];
  })
