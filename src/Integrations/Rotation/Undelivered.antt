-- ===== src/Integrations/Rotation/Undelivered.antt =====
-- A rotation whose delivery fails.
use mathlib.Core.Path.{◌≡◌, refl}
use mathlib.Core.Bool.{true, false}
use mathlib.Core.Option.{some}
use mathlib.Core.List.{List, [], ◌∷◌, ◌++◌}
use aglack.Prelude.Text.{Text}
use aglack.Prelude.Lists.{find?}
use aglack.Prelude.Exec.{ok, err, map_err, ◌>>=◌, ◌>>◌, get_state, put_state}
use aglack.Response.{error, internal_server_error}
use aglack.Integrations.Tokens.{is_for, upsert_runtime_token, upserted}
use aglack.Integrations.Tokens.Lookups.{
  token_statement_of_Answers, find_runtime_token_of_Answers, find?-upserted,
}
use aglack.Integrations.Bearer.{on_tokens}
use aglack.Integrations.Remote.{
  RuntimeToken, Outside, Gateway, creates, delivers, look, ask, in_store, in_integrations,
}
use aglack.Integrations.Remote.Quiet.{tables}
use aglack.Integrations.Remote.Answers.{Answers}
use aglack.Integrations.Rotation.{
  token_name, stored_token, store_and_deliver, encrypt_bearer, store_token, deliver, create_token,
  issue, issue_and_deliver_runtime_token, issue_and_retire, previous_token, rotate_workspace_token,
}

-- Where a token is created but its delivery to the container fails, the rotation fails, and the
-- store holds the new token already: the hash that the workspace's bearer is checked against is that
-- of a bearer that the container never received, and no longer that of the one it has.
pub rotate_workspace_token_undelivered :
    (o : Outside) (id container_name : Text) (allowed : List Text) (before : Gateway o.State)
    (token : RuntimeToken) (encrypted reason : Text) (s1 s2 s3 : o.State)
    → Answers before
    → o.create_runtime_token (token_name id) allowed before.outside ≡ ok token s1
    → o.encrypt token.bearer s1 ≡ ok encrypted s2
    → o.deliver_token_file container_name token.bearer s2 ≡ err reason s3
    → (after : Gateway o.State) × (rotate_workspace_token o id container_name allowed before
        ≡ err (error internal_server_error "integrations_token_delivery_failed") after)
      × (find? (is_for id) (tables after).tokens ≡ some (stored_token o id token encrypted))
unfolding rotate_workspace_token issue_and_deliver_runtime_token upsert_runtime_token
rotate_workspace_token_undelivered o id container_name allowed before token encrypted reason s1 s2
      s3 answers created encrypts fails =
    let stored = stored_token o id token encrypted in
    let after : Gateway o.State = record before {
      integrations = record before.integrations {
        store = record (tables before) { tokens = upserted stored (tables before).tokens };
      };
      outside = s3;
      calls =
          (before.calls ++ (creates (token_name id) allowed, true) ∷ [])
          ++ (delivers container_name token.bearer, false) ∷ [];
    } in
    (
      after,
      rw
          (
            rotate_workspace_token,
            previous_token,
            issue_and_retire,
            issue,
            issue_and_deliver_runtime_token,
            create_token,
            store_and_deliver,
            encrypt_bearer,
            store_token,
            deliver,
            ◌>>=◌,
            ◌>>◌,
            map_err,
            in_store,
            in_integrations,
            on_tokens,
            find_runtime_token_of_Answers id (tables before) answers,
            ask,
            created,
            look,
            encrypts,
            upsert_runtime_token,
            token_statement_of_Answers (tables before) answers,
            get_state,
            put_state,
            fails,
          )
          refl,
      find?-upserted (stored_token o id token encrypted) (tables before).tokens,
    )
