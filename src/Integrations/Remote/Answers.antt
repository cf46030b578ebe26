-- ===== src/Integrations/Remote/Answers.antt =====
-- A database that answers goes on answering.
use mathlib.Core.Logic.{inl, inr}
use mathlib.Core.Option.{Option}
use aglack.Prelude.Text.{Text}
use aglack.Prelude.Tests.{Bool-cases}
use aglack.Prelude.Exec.{final, ◌>>=◌, get_state, put_state}
use aglack.Prelude.Keeps.{Keeps}
use aglack.Integrations.Rows.{ConnectionStatus, ConnectionRow}
use aglack.Integrations.Tokens.{WorkspaceRuntimeToken, find_runtime_token, upsert_runtime_token}
use aglack.Integrations.Tokens.Lookups.{TokensAnswer, token_statement_of_Answers}
use aglack.Integrations.Connections.{
  list_connections, upsert_connection, id_taken, put_row, new_row,
}
use aglack.Integrations.Remote.{Gateway}
use aglack.Integrations.Remote.Quiet.{tables}

abbrev pub Answers : {S : Type 0} → Gateway S → Type 0
Answers g = TokensAnswer (tables g)

pub find_runtime_token-Answers : (id : Text) → Keeps TokensAnswer (find_runtime_token id)
unfolding find_runtime_token
find_runtime_token-Answers id db a =
    rw (find_runtime_token, ◌>>=◌, token_statement_of_Answers db a, get_state, final) a

pub upsert_runtime_token-Answers :
    (token : WorkspaceRuntimeToken) → Keeps TokensAnswer (upsert_runtime_token token)
unfolding upsert_runtime_token
upsert_runtime_token-Answers token db a =
    rw (upsert_runtime_token, ◌>>=◌, token_statement_of_Answers db a, get_state, put_state, final) a

pub list_connections-Answers : (id : Text) → Keeps TokensAnswer (list_connections id)
unfolding list_connections
list_connections-Answers id db a =
    rw (list_connections, ◌>>=◌, token_statement_of_Answers db a, get_state, final) a

put_row-Answers : (row : ConnectionRow) → Keeps TokensAnswer (put_row row)
put_row-Answers row db a = elim (Bool-cases (id_taken row db.connections)) [
  | inl taken ↦ rw (put_row, taken, final) a
  | inr free ↦ rw (put_row, free, put_state, final) a
]

pub upsert_connection-Answers :
    (id workspace provider name : Text) (connection : Option Text) (status : ConnectionStatus)
    (label : Option Text)
    → Keeps TokensAnswer (upsert_connection id workspace provider name connection status label)
unfolding upsert_connection
upsert_connection-Answers id workspace provider name connection status label db a =
    rw (upsert_connection, ◌>>=◌, token_statement_of_Answers db a, get_state)
      (put_row-Answers (new_row id workspace provider name connection status label db.now) db a)
