-- ===== src/Integrations/Rotation/Keeping.antt =====
-- A rotation keeps what the statements on tokens keep.
use mathlib.Core.Option.{Option, none, some}
use mathlib.Core.List.{List}
use mathlib.Core.Logic.{inl, inr}
use aglack.Prelude.Text.{Text, ◌==◌}
use aglack.Prelude.Tests.{Bool-cases}
use aglack.Prelude.Exec.{pure, map_err, ◌>>◌}
use aglack.Prelude.Keeps.{Keeps, Keeps->>=, Keeps-map_err, Keeps-ignore, Keeps-pure}
use aglack.Response.{Response, error, internal_server_error}
use aglack.Integrations.Tokens.{WorkspaceRuntimeToken, find_runtime_token, upsert_runtime_token}
use aglack.Integrations.Remote.{RuntimeToken, Outside, creates, delivers, revokes, ask}
use aglack.Integrations.Rotation.{
  IntegrationsTokenError, token_name, stored_token, store_and_deliver, encrypt_bearer, store_token,
  deliver, create_token, issue, into_response, token_delivery_failed, token_encryption_failed,
  runtime_token_store_failed, open_connector, issue_and_deliver_runtime_token, retire,
  issue_and_retire, previous_token, rotate_workspace_token,
}
use aglack.Integrations.Connect.{}
use aglack.Integrations.Remote.Keeping.{
  OnTables, KeepsTables, ask-KeepsTables, stored-KeepsTables, asked-KeepsTables, looked-KeepsTables,
}
use aglack.Integrations.Tokens.{TokenDb}

module _ (P : TokenDb → Type 0) (finds : (id : Text) → Keeps P (find_runtime_token id))
    (upserts : (token : WorkspaceRuntimeToken) → Keeps P (upsert_runtime_token token)) (o : Outside)
    (id : Text) where
  deliver-KeepsTables :
      (container_name : Text) (token : RuntimeToken)
      → KeepsTables P (deliver o container_name token)
  deliver-KeepsTables container_name token =
      let call = delivers container_name token.bearer in
      Keeps->>= (OnTables P)
        (map_err token_delivery_failed
          (ask call (o.deliver_token_file container_name token.bearer)))
        (λ _. pure token.openconnector_token_id)
        (asked-KeepsTables P token_delivery_failed call
          (o.deliver_token_file container_name token.bearer))
        (λ _. Keeps-pure (OnTables P) IntegrationsTokenError token.openconnector_token_id)

  store_and_deliver-KeepsTables :
      (container_name : Text) (token : RuntimeToken)
      → KeepsTables P (store_and_deliver o id container_name token)
  store_and_deliver-KeepsTables container_name token =
      Keeps->>= (OnTables P) (encrypt_bearer o token)
        (λ encrypted. store_token o id token encrypted >> deliver o container_name token)
        (looked-KeepsTables P token_encryption_failed (o.encrypt token.bearer))
        (λ encrypted.
          Keeps->>= (OnTables P) (store_token o id token encrypted)
            (λ _. deliver o container_name token)
            (stored-KeepsTables P runtime_token_store_failed
              (upsert_runtime_token (stored_token o id token encrypted))
              (upserts (stored_token o id token encrypted)))
            (λ _. deliver-KeepsTables container_name token))

  issue-KeepsTables :
      (container_name : Text) (allowed : List Text)
      → KeepsTables P (issue o id container_name allowed)
  unfolding issue_and_deliver_runtime_token
  issue-KeepsTables container_name allowed =
      Keeps-map_err (OnTables P) into_response
        (issue_and_deliver_runtime_token o id container_name allowed)
        (Keeps->>= (OnTables P) (create_token o id allowed) (store_and_deliver o id container_name)
          (asked-KeepsTables P open_connector (creates (token_name id) allowed)
            (o.create_runtime_token (token_name id) allowed))
          (store_and_deliver-KeepsTables container_name))

  retire-KeepsTables :
      (new_id : Text) (previous : Option WorkspaceRuntimeToken)
      → KeepsTables P (retire o new_id previous)
  retire-KeepsTables new_id none g a = a
  retire-KeepsTables new_id (some previous) g a =
      elim (Bool-cases (previous.openconnector_token_id == new_id)) [
        | inl equal ↦ rw equal a
        | inr other ↦ rw other (
            Keeps-ignore (OnTables P) Response
              (ask (revokes previous.openconnector_token_id)
                (o.revoke_runtime_token previous.openconnector_token_id))
              (ask-KeepsTables P (revokes previous.openconnector_token_id)
                (o.revoke_runtime_token previous.openconnector_token_id))
              g a)
      ]

  pub rotate_workspace_token-KeepsTables :
      (container_name : Text) (allowed : List Text)
      → KeepsTables P (rotate_workspace_token o id container_name allowed)
  unfolding rotate_workspace_token
  rotate_workspace_token-KeepsTables container_name allowed =
      Keeps->>= (OnTables P) (previous_token o id) (issue_and_retire o id container_name allowed)
        (stored-KeepsTables P (λ e. error internal_server_error "runtime_token_lookup_failed")
          (find_runtime_token id) (finds id))
        (λ previous.
          Keeps->>= (OnTables P) (issue o id container_name allowed)
            (λ new_id. retire o new_id previous) (issue-KeepsTables container_name allowed)
            (λ new_id. retire-KeepsTables new_id previous))
