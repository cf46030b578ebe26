-- ===== src/Integrations/Disconnect/Outcome.antt =====
-- A connection that was disconnected is not shown as connected.
use mathlib.Core.Path.{◌≡◌}
use mathlib.Core.Logic.{inl, inr}
use mathlib.Core.Bool.{false}
use mathlib.Core.Option.{some}
use mathlib.Core.List.{List}
use aglack.Prelude.Text.{Text, ◌==◌, eq_iff}
use aglack.Prelude.Tests.{Option-cases}
use aglack.Prelude.Lists.{find?-passes}
use aglack.Prelude.Exec.{Result, good, bad, ok, attempt, throw}
use aglack.Prelude.Post.{Post, Post->>=, Post_of_ok, Post-any, Post-mono}
use aglack.Workspaces.Resolve.{resolve_existing_workspace}
use aglack.Integrations.Sanitize.{Provider, workspace_connection_name}
use aglack.Integrations.Remote.{
  OpenConnectorError, Outside, Gateway, deletes, ask, in_workspaces, audit, remote_error,
}
use aglack.Integrations.Remote.Quiet.{tables}
use aglack.Integrations.Connect.{find_provider}
use aglack.Integrations.Disconnect.{after_delete, disconnect_from, disconnect_integration_route}
use aglack.Integrations.Disconnect.Forgetting.{DisconnectedRow, forget-Post}

module _ (o : Outside) (id : Text) where
  abbrev Gone : Text → Gateway o.State → Type 0
  Gone provider g = DisconnectedRow id provider (tables g)

  after_delete-Post :
      (provider : Text) (deleted : Result OpenConnectorError (Unit {0})) (g : Gateway o.State)
      → Post (λ _ g'. Gone provider g') (after_delete o id provider deleted g)
  after_delete-Post provider (good _) g = forget-Post id provider o g
  after_delete-Post provider (bad e) g =
      Post->>= (λ _ _. Unit {0}) (λ _ g'. Gone provider g') (audit id provider "disconnect" false)
        (λ _. throw (remote_error e)) g (Post-any _) (λ _ _ _. tt)

  disconnect_from-Post :
      (provider : Provider) (g : Gateway o.State)
      → Post (λ _ g'. Gone provider.id g') (disconnect_from o id (some provider) g)
  disconnect_from-Post provider g =
      let name = workspace_connection_name id in
      let service = provider.openconnector_service in
      Post->>= (λ _ _. Unit {0}) (λ _ g'. Gone provider.id g')
        (attempt (ask (deletes service name) (o.delete_connection service name)))
        (after_delete o id provider.id) g (Post-any _)
        (λ deleted g' _. after_delete-Post provider.id deleted g')

  -- Where a disconnect succeeds, the workspace's row for that provider, where there is one, says
  -- `disconnected`, whatever happened to the workspace's token behind that.
  pub disconnect_integration_route-Disconnected :
      (providers : List Provider) (provider_id : Text) (before after : Gateway o.State)
      → disconnect_integration_route o providers id provider_id before ≡ ok tt after
      → DisconnectedRow id provider_id (tables after)
  unfolding disconnect_integration_route
  disconnect_integration_route-Disconnected providers provider_id before after e =
      let found = find_provider o providers provider_id in
      Post_of_ok (λ _ g'. Gone provider_id g')
        (Post->>= (λ _ _. Unit {0}) (λ _ g'. Gone provider_id g')
          (in_workspaces (resolve_existing_workspace id)) (λ _. disconnect_from o id found) before
          (Post-any _)
          (λ _ g _. elim (Option-cases found) [
            | inl none_there ↦ rw none_there tt
            | inr (provider, is) ↦
                let same : provider.id ≡ provider_id =
                  (eq_iff provider.id provider_id).0
                    (find?-passes (λ p. p.id == provider_id) providers is) in
                rw is (
                  Post-mono (λ _ g'. Gone provider.id g') (λ _ g'. Gone provider_id g')
                    (disconnect_from o id (some provider) g) (disconnect_from-Post provider g)
                    (λ _ g' gone. rw same at gone))
          ]))
        e
