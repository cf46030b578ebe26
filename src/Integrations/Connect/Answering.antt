-- ===== src/Integrations/Connect/Answering.antt =====
-- A finish leaves a database that answers answering.
use mathlib.Core.Option.{Option, none, some}
use mathlib.Core.List.{List}
use aglack.Prelude.Text.{Text}
use aglack.Prelude.Exec.{◌>>◌}
use aglack.Prelude.Keeps.{Keeps->>=, Keeps-map_err}
use aglack.Response.{error, internal_server_error}
use aglack.Integrations.Rows.{ConnectionStatus, IntegrationConnection, pending, connected}
use aglack.Integrations.Connections.{list_connections, upsert_connection}
use aglack.Workspaces.Reads.{find_by_workspace_id}
use aglack.Integrations.Sanitize.{workspace_connection_name}
use aglack.Integrations.Remote.{ConnectionSummary, Outside, in_workspaces}
use aglack.Integrations.Remote.Answers.{
  find_runtime_token-Answers, upsert_runtime_token-Answers, list_connections-Answers,
  upsert_connection-Answers,
}
use aglack.Integrations.Tokens.Lookups.{TokensAnswer}
use aglack.Integrations.Rotation.Keeping.{rotate_workspace_token-KeepsTables}
use aglack.Integrations.Rotation.{rotate_workspace_token}
use aglack.Integrations.Connect.{
  connected_ids, with_id, store_failed, write_row, rotate_for, connections_of, finish_in,
  find_record, container_of, finish_connection_inner,
}
use aglack.Integrations.Remote.Keeping.{
  OnTables, KeepsTables, in_workspaces-KeepsTables, stored-KeepsTables,
}

module _ (o : Outside) (id provider_id : Text) (summary : ConnectionSummary) where
  write_row-Answers :
      (status : ConnectionStatus) (label : Option Text)
      → KeepsTables TokensAnswer (write_row o id provider_id summary status label)
  write_row-Answers status label g a =
      let (uuid, s) = o.new_uuid g.outside in
      let name = workspace_connection_name id in
      stored-KeepsTables TokensAnswer store_failed
        (upsert_connection uuid id provider_id name (some summary.id) status label)
        ((upsert_connection-Answers uuid id provider_id name (some summary.id) status label))
        (record g { outside = s }) a

  rotate_for-Answers :
      (container_name : Text) (connections : List IntegrationConnection)
      → KeepsTables TokensAnswer (rotate_for o id provider_id summary container_name connections)
  rotate_for-Answers container_name connections =
      let ids = with_id summary.id (connected_ids connections) in
      let last = write_row o id provider_id summary connected (some summary.connection_name) in
      Keeps->>= (OnTables TokensAnswer) (write_row o id provider_id summary pending none)
        (λ _. rotate_workspace_token o id container_name ids >> last)
        (write_row-Answers pending none)
        (λ _.
          Keeps->>= (OnTables TokensAnswer) (rotate_workspace_token o id container_name ids)
            (λ _. last)
            (rotate_workspace_token-KeepsTables TokensAnswer find_runtime_token-Answers
              upsert_runtime_token-Answers o id container_name ids)
            (λ _. write_row-Answers connected (some summary.connection_name)))

  finish_in-Answers :
      (container_name : Option Text)
      → KeepsTables TokensAnswer (finish_in o id provider_id summary container_name)
  finish_in-Answers none = λ g a. a
  finish_in-Answers (some container_name) =
      Keeps->>= (OnTables TokensAnswer) (connections_of o id)
        (rotate_for o id provider_id summary container_name)
        (stored-KeepsTables TokensAnswer store_failed (list_connections id)
          (list_connections-Answers id))
        (rotate_for-Answers container_name)

  pub finish_connection_inner-Answers :
      KeepsTables TokensAnswer (finish_connection_inner o id provider_id summary)
  unfolding finish_connection_inner
  finish_connection_inner-Answers =
      Keeps->>= (OnTables TokensAnswer) (find_record o id)
        (λ record'. finish_in o id provider_id summary (container_of record'))
        (Keeps-map_err (OnTables TokensAnswer)
          (λ e. error internal_server_error "workspace_lookup_failed")
          (in_workspaces (find_by_workspace_id id))
          (in_workspaces-KeepsTables TokensAnswer (find_by_workspace_id id)))
        (λ record'. finish_in-Answers (container_of record'))
