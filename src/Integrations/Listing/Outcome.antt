-- ===== src/Integrations/Listing/Outcome.antt =====
-- What the list of a workspace's integrations holds, whatever the remote side answers.
use mathlib.Core.Path.{◌≡◌, refl, ap, ◌∙◌, subst, sym}
use mathlib.Core.Logic.{◌⊎◌, inl, inr}
use mathlib.Core.List.{List, ◌++◌}
use aglack.Prelude.Text.{Text}
use aglack.Prelude.Lists.{All}
use aglack.Prelude.Exec.{Run, err, map_err, Run-cases}
use aglack.Prelude.Ends.{Ends, Ends->>=, Ends-mono}
use aglack.Response.{Response, error, internal_server_error}
use aglack.Workspaces.Db.{Db, SqlxError}
use aglack.Integrations.Tokens.{TokenDb}
use aglack.Workspaces.Resolve.{resolve_existing_workspace}
use aglack.Integrations.Rows.{IntegrationConnection}
use aglack.Integrations.Bearer.{on_tokens}
use aglack.Integrations.Connections.{list_connections}
use aglack.Integrations.Connections.Laws.{listed, list_connections-Post}
use aglack.Integrations.Sanitize.{Provider}
use aglack.Integrations.Remote.{
  ConnectionSummary, Outside, Gateway, in_workspaces, in_store, in_integrations, look,
}
use aglack.Integrations.Remote.Quiet.{tables}
use aglack.Integrations.Listing.{
  ConnectionSummaryOut, local_entries, discovered_entries, entries_with, with_remote, or_empty,
  list_failed, list_integrations_route,
}
use aglack.Integrations.Listing.Entries.{
  Never, Yields, attempt-Yields, ids, providers_of, ids-append, IsNew, AllNew, local_entries-ids,
  discovered-IsNew,
}

-- The entries of the rows that the workspace has, in their order, and then those of providers of the
-- registry that have no row.
abbrev pub Listed : List Provider → List IntegrationConnection → List ConnectionSummaryOut → Type 0
Listed providers connections entries =
    (found : List Text) × (ids entries ≡ providers_of connections ++ found)
    × All (IsNew (providers_of connections) providers) found

-- The list fails only where the workspace cannot be resolved or the statement that reads its rows
-- fails.
abbrev pub Excuse : {S : Type 0} → Text → Gateway S → Response → Type 0
Excuse id g e =
    ((db : Db) × (◌≡◌ {A = Run Db Response (Unit {0})} (resolve_existing_workspace id g.workspaces)
        (err e db)))
    ⊎ ((x : SqlxError) × (db : TokenDb) × (e
          ≡ error internal_server_error "integrations_list_failed")
        × (◌≡◌ {A = Run TokenDb SqlxError (List IntegrationConnection)}
            (list_connections id (tables g)) (err x db)))

module _ (o : Outside) (providers : List Provider) (id : Text) where
  resolved :
      (g : Gateway o.State)
      → Ends
          (λ _ g'. tables g' ≡ tables g)
          (λ e _. Excuse id g e)
          (in_workspaces (resolve_existing_workspace id) g)
  resolved g = elim (Run-cases (resolve_existing_workspace id g.workspaces)) [
    | inl (a, db, e) ↦ rw (in_workspaces, e, Ends) refl
    | inr (x, db, e) ↦ rw (in_workspaces, e, Ends) (inl (db, e))
  ]

  rows_read :
      (g g' : Gateway o.State)
      → tables g' ≡ tables g
      → Ends
          (λ cs _. cs ≡ listed id (tables g).connections)
          (λ e _. Excuse id g e)
          (map_err list_failed (in_store (list_connections id)) g')
  rows_read g g' same = elim (Run-cases (list_connections id (tables g'))) [
    | inl (cs, db, e) ↦
        let read : cs ≡ listed id (tables g').connections =
          (rw e at (list_connections-Post id (tables g'))).0 in
        rw (map_err, in_store, in_integrations, on_tokens, e, Ends)
          (read ∙ ap (λ (db : TokenDb). listed id db.connections) same)
    | inr (x, db, e) ↦
        rw (map_err, in_store, in_integrations, on_tokens, e, Ends)
          (inr (x, db, refl, ap (list_connections id) (sym same) ∙ e))
  ]

  both :
      (cs : List IntegrationConnection) (remote : List ConnectionSummary) (g : Gateway o.State)
      → Yields (Listed providers cs) (entries_with o providers id cs remote g)
  both cs remote g =
      Ends->>= (λ es _. ids es ≡ providers_of cs) Never (λ es _. Listed providers cs es) Never
        (local_entries o providers id cs) _ g (local_entries-ids o providers id cs g)
        (λ es g' are.
          Ends->>= (λ found _. AllNew (providers_of cs) providers found) Never
            (λ all _. Listed providers cs all) Never
            (discovered_entries o id (providers_of cs) remote providers) _ g'
            (discovered-IsNew o id (providers_of cs) remote providers g')
            (λ found g'' new. (ids found, ids-append es found ∙ ap (λ n. n ++ ids found) are, new))
            (λ _ _ never. never))
        (λ _ _ never. never)

  -- The list has one entry for each row of the workspace, in the order of the rows, and behind them
  -- entries of providers of the registry that have no row, whatever the remote side answers; it fails
  -- only where the workspace cannot be resolved, with that error, or where the statement that reads
  -- its rows fails.
  pub list_integrations_route-Listed :
      (g : Gateway o.State)
      → Ends
          (λ entries _. Listed providers (listed id (tables g).connections) entries)
          (λ e _. Excuse id g e)
          (list_integrations_route o providers id g)
  unfolding list_integrations_route
  list_integrations_route-Listed g =
      Ends->>= (λ _ g'. tables g' ≡ tables g) (λ e _. Excuse id g e)
        (λ es _. Listed providers (listed id (tables g).connections) es) (λ e _. Excuse id g e)
        (in_workspaces (resolve_existing_workspace id)) _ g (resolved g)
        (λ _ g' same.
          Ends->>= (λ cs _. cs ≡ listed id (tables g).connections) (λ e _. Excuse id g e)
            (λ es _. Listed providers (listed id (tables g).connections) es) (λ e _. Excuse id g e)
            (map_err list_failed (in_store (list_connections id))) _ g' (rows_read g g' same)
            (λ cs g'' are.
              Ends-mono (λ es _. Listed providers cs es) Never
                (λ es _. Listed providers (listed id (tables g).connections) es)
                (λ e _. Excuse id g e) (with_remote o providers id cs g'')
                (attempt-Yields (Listed providers cs) (look o.list_remote) _ g''
                  (λ r g3. both cs (or_empty r) g3))
                (λ es _ h. subst (λ rows. Listed providers rows es) are h)
                (λ _ _ never. absurd never))
            (λ _ _ x. x))
        (λ _ _ x. x)
