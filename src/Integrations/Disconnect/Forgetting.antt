-- ===== src/Integrations/Disconnect/Forgetting.antt =====
-- What forgetting a connection keeps: its row.
use mathlib.Core.Path.{◌≡◌, refl, ◌∙◌, sym, ap}
use mathlib.Core.Logic.{inl, inr}
use mathlib.Core.Bool.{Bool, true}
use mathlib.Core.Option
use mathlib.Core.Option.{Option, none, some}
use mathlib.Core.List.{List, [], ◌∷◌}
use Prim.Native.String.{String}
use aglack.Prelude.Text.{Text}
use aglack.Prelude.Decimal.{to_text}
use aglack.Prelude.Tests.{Option-cases}
use aglack.Prelude.Lists.{find?, find?-update_where}
use aglack.Prelude.Exec.{final, Run-cases, map_err, ignore, ◌>>=◌, ◌>>◌, get_state, put_state}
use aglack.Prelude.Post.{Post, Post->>=, Post-of_Keeps}
use aglack.Prelude.Keeps.{Keeps, Keeps->>=, Keeps-ignore, Keeps-attempt}
use aglack.Response.{Response, error, internal_server_error}
use aglack.Integrations.Rows.{ConnectionRow, as_db_str, disconnected}
use aglack.Integrations.Tokens.{
  TokenDb, WorkspaceRuntimeToken, token_statement, find_runtime_token, upsert_runtime_token,
  delete_runtime_token, record_audit,
}
use aglack.Integrations.Tokens.Lookups.{statement-SameTables}
use aglack.Integrations.Connections.{of_provider, mark_disconnected, list_connections}
use aglack.Integrations.Connections.Laws.{record_audit-SameTables}
use aglack.Integrations.Rows.{IntegrationConnection}
use aglack.Workspaces.Reads.{find_by_workspace_id}
use aglack.Integrations.Bearer.{on_tokens}
use aglack.Integrations.Remote.{
  Outside, Gateway, revokes, wipes, ask, in_store, in_integrations, in_workspaces, audit,
}
use aglack.Integrations.Remote.Keeping.{
  in_store-KeepsTables, in_workspaces-KeepsTables, ask-KeepsTables, stored-KeepsTables,
}
use aglack.Integrations.Rotation.{previous_token, rotate_workspace_token}
use aglack.Integrations.Rotation.Connections.{find_runtime_token-Keeps, upsert_runtime_token-Keeps}
use aglack.Integrations.Rotation.Keeping.{rotate_workspace_token-KeepsTables}
use aglack.Integrations.Connect.{connected_ids, connections_of, store_failed}
use aglack.Integrations.Disconnect.{
  container_found, drop_token, wipe, rotate_in, container_name_of, drop_and_wipe, narrow, mark,
  forget,
}
use aglack.Integrations.Remote.Quiet.{tables}
use aglack.Integrations.Remote.Keeping.{OnTables, KeepsTables}

-- Where the row exists, it says `disconnected`.
abbrev pub DisconnectedRow : Text → Text → TokenDb → Type 0
DisconnectedRow id provider db =
    (row : ConnectionRow)
    → find? (of_provider id provider) db.connections ≡ some row
    → row.status ≡ as_db_str disconnected

mark_disconnected-Row :
    (id provider : Text) (db : TokenDb)
    → Post (λ _ db'. DisconnectedRow id provider db') (mark_disconnected id provider db)
unfolding mark_disconnected
mark_disconnected-Row id provider db = elim (Run-cases (token_statement db)) [
  | inl (a, db', e) ↦
      rw (mark_disconnected, e, ◌>>=◌, get_state, put_state, Post)
        (λ row found.
          let mark : ConnectionRow → ConnectionRow =
            λ row. record row { status = as_db_str disconnected; updated_at = to_text db'.now } in
          let same =
            find?-update_where (of_provider id provider) mark db'.connections (λ x. refl) in
          elim (Option-cases (find? (of_provider id provider) db'.connections)) [
            | inl missing ↦ absurd (cc (missing, found, same))
            | inr (old, e) ↦
                let found' : ◌≡◌ {A = Option ConnectionRow} (some (mark old)) (some row) =
                  sym (same ∙ ap (Option.map mark) e) ∙ found in
                let r : mark old ≡ row = cc found' in rw (← r) refl
          ])
  | inr (x, db', e) ↦ rw (mark_disconnected, e, ◌>>=◌, Post) tt
]

module _ (id provider : Text) where
  abbrev P : TokenDb → Type 0
  P db = DisconnectedRow id provider db

  row_kept : (db db' : TokenDb) → db'.connections ≡ db.connections → P db → P db'
  row_kept db db' same p row found = p row (sym (ap (find? (of_provider id provider)) same) ∙ found)

  finds : (id' : Text) → Keeps P (find_runtime_token id')
  finds = find_runtime_token-Keeps P row_kept

  upserts : (token : WorkspaceRuntimeToken) → Keeps P (upsert_runtime_token token)
  upserts = upsert_runtime_token-Keeps P row_kept

  deletes_token : (id' : Text) → Keeps P (delete_runtime_token id')
  unfolding delete_runtime_token
  deletes_token id' db p = elim (Run-cases (token_statement db)) [
    | inl (a, db', e) ↦
        rw (delete_runtime_token, e, ◌>>=◌, get_state, put_state, final)
          (row_kept db db' (rw e at (statement-SameTables db)).1 p)
    | inr (x, db', e) ↦
        rw (delete_runtime_token, e, ◌>>=◌, final)
          (row_kept db db' (rw e at (statement-SameTables db)).1 p)
  ]

  lists : (id' : Text) → Keeps P (list_connections id')
  unfolding list_connections
  lists id' db p = elim (Run-cases (token_statement db)) [
    | inl (a, db', e) ↦
        rw (list_connections, e, ◌>>=◌, get_state, put_state, final)
          (row_kept db db' (rw e at (statement-SameTables db)).1 p)
    | inr (x, db', e) ↦
        rw (list_connections, e, ◌>>=◌, final)
          (row_kept db db' (rw e at (statement-SameTables db)).1 p)
  ]

  audits :
      (id' : Text) (provider' : Option Text) (event : String) (success : Bool)
      → Keeps P (record_audit id' provider' event success)
  audits id' provider' event success db p =
      row_kept db (final (record_audit id' provider' event success db))
        (record_audit-SameTables id' provider' event success db).1 p

  module _ (o : Outside) where
    drop_token-Keeps :
        (token : Option WorkspaceRuntimeToken) → KeepsTables P (drop_token o id token)
    drop_token-Keeps none = λ g p. p
    drop_token-Keeps (some token) =
        let revoke = o.revoke_runtime_token token.openconnector_token_id in
        let call = revokes token.openconnector_token_id in
        Keeps->>= (OnTables P) (ignore (ask call revoke))
          (λ _. ignore (in_store (delete_runtime_token id)))
          (Keeps-ignore (OnTables P) Response (ask call revoke) (ask-KeepsTables P call revoke))
          (λ _.
            Keeps-ignore (OnTables P) Response (in_store (delete_runtime_token id))
              (in_store-KeepsTables P (delete_runtime_token id) (deletes_token id)))

    wipe-Keeps : (name : Option Text) → KeepsTables P (wipe o name)
    wipe-Keeps none = λ g p. p
    wipe-Keeps (some name) =
        Keeps-ignore (OnTables P) Response (ask (wipes name) (o.remove_token_file name))
          (ask-KeepsTables P (wipes name) (o.remove_token_file name))

    rotate_in-Keeps :
        (ids : List Text) (name : Option Text) → KeepsTables P (rotate_in o id ids name)
    rotate_in-Keeps ids none = λ g p. p
    rotate_in-Keeps ids (some name) =
        Keeps-ignore (OnTables P) Response (rotate_workspace_token o id name ids)
          (rotate_workspace_token-KeepsTables P finds upserts o id name ids)

    container_name_of-Keeps : KeepsTables P (container_name_of o id)
    container_name_of-Keeps =
        Keeps-attempt (OnTables P) Response (in_workspaces (find_by_workspace_id id))
          (in_workspaces-KeepsTables P (find_by_workspace_id id))

    drop_and_wipe-Keeps :
        (token : Option WorkspaceRuntimeToken) → KeepsTables P (drop_and_wipe o id token)
    drop_and_wipe-Keeps token =
        Keeps->>= (OnTables P) (drop_token o id token)
          (λ _. container_name_of o id >>= λ found. wipe o (container_found found))
          (drop_token-Keeps token)
          (λ _.
            Keeps->>= (OnTables P) (container_name_of o id)
              (λ found. wipe o (container_found found)) container_name_of-Keeps
              (λ found. wipe-Keeps (container_found found)))

    narrow-Keeps : (ids : List Text) → KeepsTables P (narrow o id ids)
    narrow-Keeps [] =
        Keeps->>= (OnTables P) (previous_token o id) (drop_and_wipe o id)
          (stored-KeepsTables P (λ e. error internal_server_error "runtime_token_lookup_failed")
            (find_runtime_token id) (finds id))
          drop_and_wipe-Keeps
    narrow-Keeps (c ∷ cs) =
        Keeps->>= (OnTables P) (container_name_of o id)
          (λ found. rotate_in o id (c ∷ cs) (container_found found)) container_name_of-Keeps
          (λ found. rotate_in-Keeps (c ∷ cs) (container_found found))

    forgotten-Keeps :
        (remaining : List IntegrationConnection)
        → KeepsTables P
            (narrow o id (connected_ids remaining) >> audit id provider "disconnect" true)
    unfolding audit
    forgotten-Keeps remaining =
        let record' = record_audit id (some provider) "disconnect" true in
        Keeps->>= (OnTables P) (narrow o id (connected_ids remaining))
          (λ _. ignore (in_store record')) (narrow-Keeps (connected_ids remaining))
          (λ _.
            Keeps-ignore (OnTables P) Response (in_store record')
              (in_store-KeepsTables P record' (audits id (some provider) "disconnect" true)))

    mark-Post : (g : Gateway o.State) → Post (λ _ g'. P (tables g')) (mark o id provider g)
    mark-Post g = elim (Run-cases (mark_disconnected id provider (tables g))) [
      | inl (a, db, e) ↦
          rw (mark, map_err, in_store, in_integrations, on_tokens, e, Post)
            (rw e at (mark_disconnected-Row id provider (tables g)))
      | inr (x, db, e) ↦ rw (mark, map_err, in_store, in_integrations, on_tokens, e, Post) tt
    ]

    pub forget-Post : (g : Gateway o.State) → Post (λ _ g'. P (tables g')) (forget o id provider g)
    forget-Post g =
        let rest = λ (remaining : List IntegrationConnection).
          narrow o id (connected_ids remaining) >> audit id provider "disconnect" true in
        Post->>= (λ _ g'. P (tables g')) (λ _ g'. P (tables g')) (mark o id provider)
          (λ _. connections_of o id >>= rest) g (mark-Post g)
          (λ _ g' p.
            Post-of_Keeps (OnTables P) (connections_of o id >>= rest) g'
              (Keeps->>= (OnTables P) (connections_of o id) rest
                (stored-KeepsTables P store_failed (list_connections id) (lists id))
                forgotten-Keeps)
              p)
