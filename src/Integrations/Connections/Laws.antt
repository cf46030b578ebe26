-- ===== src/Integrations/Connections/Laws.antt =====
-- What the statements on connections do to the tables.
use mathlib.Core.Path.{◌≡◌, refl, ap, ◌∙◌, sym}
use mathlib.Core.Logic.{inl, inr}
use mathlib.Core.Bool.{Bool}
use mathlib.Core.Option
use mathlib.Core.Option.{Option, none, some}
use mathlib.Core.List.{List, [], ◌∷◌, map}
use Prim.Native.String.{String}
use aglack.Prelude.Text.{Text, eq_refl}
use aglack.Prelude.Tests.{Bool-cases, Option-cases}
use aglack.Prelude.Decimal.{to_text}
use aglack.Prelude.Lists.{
  find?, any, keep, update_where, find?-update_where, find?-append, find?-of_any,
}
use aglack.Prelude.Exec.{final, Run-cases, ◌>>=◌, get_state, put_state, throw}
use aglack.Prelude.Post.{Post, Post-mono}
use aglack.Integrations.Rows.{
  ConnectionStatus, ConnectionRow, IntegrationConnection, as_db_str, errored, connection_from_row,
}
use aglack.Integrations.Tokens.{TokenDb, token_statement, record_audit}
use aglack.Integrations.Tokens.Lookups.{
  SameTables, statement-SameTables, TokensAnswer, token_statement_of_Answers,
}
use aglack.Integrations.Connections.{
  of_provider, of_workspace, by_provider, list_connections, overwrite, upserted_row, id_taken,
  upsert_connection, put_row, new_row, mark_error,
}

-- The connections of a workspace, in the order of the query.
abbrev pub listed : Text → List ConnectionRow → List IntegrationConnection
listed id rows = map connection_from_row (by_provider (keep (of_workspace id) rows))

pub list_connections-Post :
    (id : Text) (db : TokenDb)
    → Post (λ cs db'. (cs ≡ listed id db.connections) × SameTables db db') (list_connections id db)
unfolding list_connections
list_connections-Post id db = elim (Run-cases (token_statement db)) [
  | inl (a, db', e) ↦
      let same : SameTables db db' = rw e at (statement-SameTables db) in
      rw (list_connections, e, ◌>>=◌, Post) (ap (listed id) same.1, same)
  | inr (x, db', e) ↦ rw (list_connections, e, ◌>>=◌, Post) tt
]

pub record_audit-SameTables :
    (id : Text) (provider : Option Text) (event : String) (success : Bool) (db : TokenDb)
    → SameTables db (final (record_audit id provider event success db))
unfolding record_audit
record_audit-SameTables id provider event success db = elim (Run-cases (token_statement db)) [
  | inl (a, db', e) ↦
      rw (record_audit, e, ◌>>=◌, final, get_state, put_state) (rw e at (statement-SameTables db))
  | inr (x, db', e) ↦
      rw (record_audit, e, ◌>>=◌, final, get_state, put_state) (rw e at (statement-SameTables db))
]

-- The row of a workspace for a provider has this status and remote connection.
abbrev pub RowIs : Text → Text → ConnectionStatus → Option Text → TokenDb → Type 0
RowIs id provider status connection db =
    (row : ConnectionRow) × (find? (of_provider id provider) db.connections ≡ some row)
    × (row.status ≡ as_db_str status)
    × (row.openconnector_connection_id ≡ connection)

upserted-Row :
    (row : ConnectionRow) (rows : List ConnectionRow)
    → (row' : ConnectionRow) × (find?
          (of_provider row.workspace_id row.provider_id)
          (upserted_row row rows)
        ≡ some row')
      × (row'.status ≡ row.status)
      × (row'.openconnector_connection_id ≡ row.openconnector_connection_id)
upserted-Row row rows =
    let p = of_provider row.workspace_id row.provider_id in
    elim (Bool-cases (any p rows)) [
      | inl there ↦ elim (Option-cases (find? p rows)) [
        | inl missing ↦ absurd (find?-of_any p rows there missing)
        | inr (old, found) ↦ (
          overwrite row old,
          rw there (
              find?-update_where p (overwrite row) rows (λ x. refl)
              ∙ ap (Option.map (overwrite row)) found),
          refl,
          refl,
        )
      ]
      | inr free ↦ (
        row,
        rw free (
            rw (find?-append p rows (row ∷ []) free)
              (rw (eq_refl row.workspace_id, eq_refl row.provider_id) refl)),
        refl,
        refl,
      )
    ]

put_row-Post :
    (row : ConnectionRow) (status : ConnectionStatus) (db : TokenDb)
    → row.status ≡ as_db_str status
    → Post
        (λ _ db'.
          (db'.tokens ≡ db.tokens)
          × RowIs row.workspace_id row.provider_id status row.openconnector_connection_id db')
        (put_row row db)
put_row-Post row status db is =
    let (row', found, same, connection) = upserted-Row row db.connections in
    elim (Bool-cases (id_taken row db.connections)) [
      | inl taken ↦ rw (put_row, taken, throw, Post) tt
      | inr free ↦ rw (put_row, free, put_state, Post) (refl, (row', found, same ∙ is, connection))
    ]

pub upsert_connection-Post :
    (id workspace provider name : Text) (connection : Option Text) (status : ConnectionStatus)
    (label : Option Text) (db : TokenDb)
    → Post
        (λ _ db'. (db'.tokens ≡ db.tokens) × RowIs workspace provider status connection db')
        (upsert_connection id workspace provider name connection status label db)
unfolding upsert_connection
upsert_connection-Post id workspace provider name connection status label db =
    elim (Run-cases (token_statement db)) [
      | inl (a, db', e) ↦
          let same : SameTables db db' = rw e at (statement-SameTables db) in
          let row = new_row id workspace provider name connection status label db'.now in
          let carry : (u : Unit {0}) (db'' : TokenDb)
              → (db''.tokens ≡ db'.tokens) × RowIs workspace provider status connection db''
              → (db''.tokens ≡ db.tokens) × RowIs workspace provider status connection db'' =
            λ u db'' h. (h.0 ∙ same.0, h.1) in
          rw (upsert_connection, e, ◌>>=◌, get_state)
            (Post-mono
              (λ _ db''.
                (db''.tokens ≡ db'.tokens) × RowIs workspace provider status connection db'')
              (λ _ db''.
                (db''.tokens ≡ db.tokens) × RowIs workspace provider status connection db'')
              (put_row row db') (put_row-Post row status db' refl) carry)
      | inr (x, db', e) ↦ rw (upsert_connection, e, ◌>>=◌, Post) tt
    ]

-- Where the row exists, it says `error`.
abbrev pub ErrorRow : Text → Text → TokenDb → Type 0
ErrorRow id provider db =
    (row : ConnectionRow)
    → find? (of_provider id provider) db.connections ≡ some row
    → row.status ≡ as_db_str errored

pub mark_error-ErrorRow :
    (id provider reason : Text) (db : TokenDb)
    → TokensAnswer db
    → ErrorRow id provider (final (mark_error id provider reason db))
unfolding mark_error
mark_error-ErrorRow id provider reason db a row found =
    let mark : ConnectionRow → ConnectionRow = λ row. record row {
      status = as_db_str errored;
      last_error = some reason;
      updated_at = to_text db.now;
    } in
    let found' : find? (of_provider id provider)
          (update_where (of_provider id provider) mark db.connections)
        ≡ some row =
      rw (mark_error, token_statement_of_Answers db a, ◌>>=◌, get_state, put_state, final) at
        found in
    elim (Option-cases (find? (of_provider id provider) db.connections)) [
      | inl missing ↦ absurd (
          cc (
            missing,
            found',
            find?-update_where (of_provider id provider) mark db.connections (λ x. refl),
          ))
      | inr (old, e) ↦
          let same : ◌≡◌ {A = Option ConnectionRow} (some (mark old)) (some row) =
            sym (
              find?-update_where (of_provider id provider) mark db.connections (λ x. refl)
              ∙ ap (Option.map mark) e)
            ∙ found' in
          let r : mark old ≡ row = cc same in rw (← r) refl
    ]
