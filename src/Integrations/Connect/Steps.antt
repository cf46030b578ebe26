-- ===== src/Integrations/Connect/Steps.antt =====
-- The steps of a connection that is finished.
use mathlib.Core.Path.{◌≡◌, refl, ◌∙◌, ap}
use mathlib.Core.Logic.{inl, inr}
use mathlib.Core.Option.{Option, none, some}
use mathlib.Core.List.{List}
use aglack.Prelude.Text.{Text}
use aglack.Prelude.Lists.{find?}
use aglack.Prelude.Exec.{Run, ok, err, Run-cases, map_err, ◌>>◌, ◌>>=◌}
use aglack.Prelude.Post.{Post, Post->>=, Post-mono}
use aglack.Prelude.Ends.{Ends}
use aglack.Response.{Response}
use aglack.Workspaces.Reads.{find_by_workspace_id}
use aglack.Integrations.Rows.{ConnectionStatus, IntegrationConnection, pending, connected}
use aglack.Integrations.Tokens.{TokenDb, is_for}
use aglack.Integrations.Tokens.Lookups.{SameTables}
use aglack.Integrations.Connections.{list_connections, upsert_connection, of_provider}
use aglack.Workspaces.Db.{Db, SqlxError}
use aglack.Workspaces.Rows.{WorkspaceRecord}
use aglack.Integrations.Rotation.Connections.{rotate-keeps_connections}
use aglack.Integrations.Connections.Laws.{
  listed, list_connections-Post, RowIs, upsert_connection-Post,
}
use aglack.Integrations.Sanitize.{workspace_connection_name}
use aglack.Integrations.Remote.{ConnectionSummary, Outside, Gateway, in_workspaces}
use aglack.Integrations.Remote.Quiet.{tables, stored-Ends}
use aglack.Integrations.Rotation.{rotate_workspace_token}
use aglack.Integrations.Rotation.Atomicity.{Stores, Rotated, rotate_workspace_token-Rotated}
use aglack.Integrations.Connect.{
  connected_ids, with_id, store_failed, write_row, rotate_for, connections_of, finish_in,
  find_record, container_of, finish_connection_inner,
}

-- The success of `Ends` is a postcondition.
Post-of_Ends :
    {S E A : Type 0} (P : A → S → Type 0) (Q : E → S → Type 0) (r : Run S E A)
    → Ends P Q r
    → Post P r
Post-of_Ends P Q (ok a s) p = p
Post-of_Ends P Q (err e s) q = tt

module _ (o : Outside) (id provider_id : Text) (summary : ConnectionSummary) where
  -- The ids that the token must allow: of what is connected, and of this connection.
  abbrev pub allowed : TokenDb → List Text
  allowed db = with_id summary.id (connected_ids (listed id db.connections))

  -- The workspace's row names this container.
  abbrev pub Contained : Gateway o.State → Text → Type 0
  Contained before container_name =
      (row : WorkspaceRecord) × (db : Db) × (◌≡◌ {A = Run Db SqlxError (Option WorkspaceRecord)}
        (find_by_workspace_id id before.workspaces) (ok (some row) db))
      × (row.container_name ≡ some container_name)

  -- `started` and `rotated` are the states before and after the rotation: the row is pending in
  -- both, and no call is made outside of the rotation.
  pub record Finished (before after : Gateway o.State) : Type 0 where
    pub container_name : Text
    pub contained : Contained before container_name
    pub started : Gateway o.State
    pub rotated : Gateway o.State
    pub rotates :
        ◌≡◌ {A = Run (Gateway o.State) Response (Unit {0})}
          (rotate_workspace_token o id container_name (allowed (tables before)) started)
          (ok tt rotated)
    pub delivers : Rotated o id container_name (allowed (tables before)) started rotated
    pub pending_before : RowIs id provider_id pending (some summary.id) (tables started)
    pub pending_after : RowIs id provider_id pending (some summary.id) (tables rotated)
    pub calls_before : started.calls ≡ before.calls
    pub calls_after : after.calls ≡ rotated.calls
    pub stores : Stores o id container_name (allowed (tables before)) delivers.token (tables after)
    pub row : RowIs id provider_id connected (some summary.id) (tables after)

  -- The calls and tokens are as they were, and the row has this status.
  abbrev Written : ConnectionStatus → Gateway o.State → Gateway o.State → Type 0
  Written status g g' =
      (g'.calls ≡ g.calls)
      × ((tables g').tokens ≡ (tables g).tokens)
      × RowIs id provider_id status (some summary.id) (tables g')

  write_row-Post :
      (status : ConnectionStatus) (label : Option Text) (g : Gateway o.State)
      → Post (λ _ g'. Written status g g') (write_row o id provider_id summary status label g)
  write_row-Post status label g =
      let (uuid, s) = o.new_uuid g.outside in
      let drawn : Gateway o.State = record g { outside = s } in
      let Q : Unit {0} → TokenDb → Type 0 = λ _ db.
        (db.tokens ≡ (tables g).tokens) × RowIs id provider_id status (some summary.id) db in
      let P : Unit {0} → Gateway o.State → Type 0 =
        λ u g'. (g'.calls ≡ g.calls) × Q u (tables g') in
      let R : Response → Gateway o.State → Type 0 = λ _ g'. g'.calls ≡ g.calls in
      let name = workspace_connection_name id in
      Post-mono P (λ _ g'. Written status g g') (write_row o id provider_id summary status label g)
        (Post-of_Ends P R (write_row o id provider_id summary status label g) (
          stored-Ends g.calls store_failed Q
            (upsert_connection uuid id provider_id name (some summary.id) status label) drawn refl
            (upsert_connection-Post uuid id provider_id name (some summary.id) status label
              (tables g))))
        (λ _ g' (c, h). (c, h.0, h.1))

  pending_kept :
      (db db' : TokenDb)
      → db'.connections ≡ db.connections
      → RowIs id provider_id pending (some summary.id) db
      → RowIs id provider_id pending (some summary.id) db'
  pending_kept db db' same (row, at, is, connection) =
      (row, ap (find? (of_provider id provider_id)) same ∙ at, is, connection)

  -- The record of a finished connection, from its three steps.
  compose_steps :
      (before : Gateway o.State) (container_name : Text) (ids : List Text)
      (g1 g2 g3 : Gateway o.State)
      → Contained before container_name
      → ids ≡ allowed (tables before)
      → g1.calls ≡ before.calls
      → RowIs id provider_id pending (some summary.id) (tables g1)
      → ◌≡◌ {A = Run (Gateway o.State) Response (Unit {0})}
          (rotate_workspace_token o id container_name ids g1)
          (ok tt g2)
      → Rotated o id container_name ids g1 g2
      → Written connected g2 g3
      → Finished before g3
  compose_steps before container_name ids g1 g2 g3 contained same calls1 row1 rotates rotated
        (calls3, tokens3, row3) =
      let done : Rotated o id container_name (allowed (tables before)) g1 g2 = rw same at rotated in
      let (encrypted, found) = done.stores in
      record {
        container_name = container_name;
        contained = contained;
        started = g1;
        rotated = g2;
        rotates = rw same at rotates;
        delivers = done;
        pending_before = row1;
        pending_after = rw rotates at (
            rotate-keeps_connections (RowIs id provider_id pending (some summary.id)) pending_kept o
              id container_name ids g1 row1);
        calls_before = calls1;
        calls_after = calls3;
        stores = (encrypted, ap (find? (is_for id)) tokens3 ∙ found);
        row = row3;
      }

  rotate_for-Post :
      (before : Gateway o.State) (container_name : Text) (connections : List IntegrationConnection)
      (g : Gateway o.State)
      → Contained before container_name
      → connections ≡ listed id (tables before).connections
      → g.calls ≡ before.calls
      → Post
          (λ _ after. Finished before after)
          (rotate_for o id provider_id summary container_name connections g)
  rotate_for-Post before container_name connections g contained same calls =
      let ids = with_id summary.id (connected_ids connections) in
      let Done : Unit {0} → Gateway o.State → Type 0 = λ _ after. Finished before after in
      let last = write_row o id provider_id summary connected (some summary.connection_name) in
      Post->>= (λ _ g1. Written pending g g1) Done (write_row o id provider_id summary pending none)
        (λ _. rotate_workspace_token o id container_name ids >> last) g
        (write_row-Post pending none g) (λ _ g1 (calls1, _, row1). rotated_then g1 calls1 row1)
    where
      ids_now : with_id summary.id (connected_ids connections) ≡ allowed (tables before)
      ids_now = ap (λ (cs : List IntegrationConnection). with_id summary.id (connected_ids cs)) same

      rotated_then :
          (g1 : Gateway o.State)
          → g1.calls ≡ g.calls
          → RowIs id provider_id pending (some summary.id) (tables g1)
          → Post
              (λ _ after. Finished before after)
              ((rotate_workspace_token o id container_name
                    (with_id summary.id (connected_ids connections))
                  >> write_row o id provider_id summary connected (some summary.connection_name))
                g1)
      rotated_then g1 calls1 row1 =
          let ids = with_id summary.id (connected_ids connections) in
          let last = write_row o id provider_id summary connected (some summary.connection_name) in
          elim (Run-cases (rotate_workspace_token o id container_name ids g1)) [
            | inl (u, g2, e) ↦
                let rotated : Rotated o id container_name ids g1 g2 =
                  rw (e, Ends) at (rotate_workspace_token-Rotated o id container_name ids g1) in
                rw (e, ◌>>◌, ◌>>=◌)
                  (Post-mono (λ _ g3. Written connected g2 g3) (λ _ after. Finished before after)
                    (last g2) (write_row-Post connected (some summary.connection_name) g2)
                    (λ _ g3 written.
                      compose_steps before container_name ids g1 g2 g3 contained ids_now
                        (calls1 ∙ calls) row1 e rotated written))
            | inr (x, g2, e) ↦ rw (e, ◌>>◌, ◌>>=◌, Post) tt
          ]

  -- What the record that is found says.
  abbrev Read : Gateway o.State → Option WorkspaceRecord → Gateway o.State → Type 0
  Read before found g =
      (g.calls ≡ before.calls)
      × (tables g ≡ tables before)
      × ((container_name : Text)
          → container_of found ≡ some container_name
          → Contained before container_name)

  names_container :
      (before : Gateway o.State) (found : Option WorkspaceRecord) (db : Db)
      → ◌≡◌ {A = Run Db SqlxError (Option WorkspaceRecord)}
          (find_by_workspace_id id before.workspaces)
          (ok found db)
      → (container_name : Text) → container_of found ≡ some container_name
      → Contained before container_name
  names_container before none db e container_name names = absurd (cc names)
  names_container before (some row) db e container_name names = (row, db, e, names)

  find_record-Post : (g : Gateway o.State) → Post (λ found g'. Read g found g') (find_record o id g)
  find_record-Post g = elim (Run-cases (find_by_workspace_id id g.workspaces)) [
    | inl (found, db, e) ↦
        rw (find_record, map_err, in_workspaces, e, Post) (refl, refl, names_container g found db e)
    | inr (x, db, e) ↦ rw (find_record, map_err, in_workspaces, e, Post) tt
  ]

  finish_in-Post :
      (before : Gateway o.State) (container_name : Option Text) (g : Gateway o.State)
      → g.calls ≡ before.calls
      → tables g ≡ tables before
      → ((name : Text) → container_name ≡ some name → Contained before name)
      → Post
          (λ _ after. Finished before after)
          (finish_in o id provider_id summary container_name g)
  finish_in-Post before none g calls same contained = tt
  finish_in-Post before (some container_name) g calls same contained =
      Post->>=
        (λ connections g1.
          (g1.calls ≡ before.calls) × (connections ≡ listed id (tables before).connections))
        (λ _ after. Finished before after) (connections_of o id)
        (rotate_for o id provider_id summary container_name) g
        (Post-of_Ends
          (λ connections g1.
            (g1.calls ≡ before.calls) × (connections ≡ listed id (tables before).connections))
          (λ _ g1. g1.calls ≡ before.calls) (connections_of o id g)
          (stored-Ends before.calls store_failed
            (λ connections _. connections ≡ listed id (tables before).connections)
            (list_connections id) g calls
            (Post-mono
              (λ cs db'. (cs ≡ listed id (tables g).connections) × SameTables (tables g) db')
              (λ cs _. cs ≡ listed id (tables before).connections) (list_connections id (tables g))
              (list_connections-Post id (tables g))
              (λ cs db' (e, _). e ∙ ap (λ (db : TokenDb). listed id db.connections) same))))
        (λ connections g1 (calls1, is).
          rotate_for-Post before container_name connections g1 (contained container_name refl) is
            calls1)

  pub finish_connection_inner-Post :
      (before : Gateway o.State)
      → Post
          (λ _ after. Finished before after)
          (finish_connection_inner o id provider_id summary before)
  unfolding finish_connection_inner
  finish_connection_inner-Post before =
      Post->>= (λ found g. Read before found g) (λ _ after. Finished before after)
        (find_record o id) (λ record'. finish_in o id provider_id summary (container_of record'))
        before (find_record-Post before)
        (λ record' g (calls, same, contained).
          finish_in-Post before (container_of record') g calls same contained)
