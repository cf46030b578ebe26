-- ===== src/Integrations/McpRoute/Tenancy.antt =====
-- What a container can have forwarded.
use mathlib.Core.Path.{◌≡◌, refl, sym}
use mathlib.Core.Logic.{◌⊎◌, inl, inr}
use mathlib.Core.Bool.{Bool, true, false}
use mathlib.Core.Option.{Option, none, some}
use mathlib.Core.List.{List, [], ◌∷◌, ◌++◌}
use aglack.Prelude.Text.{Text}
use aglack.Prelude.Lists.{find?}
use aglack.Prelude.Exec.{Result, good, bad, Run-cases, ◌>>=◌, ◌>>◌}
use aglack.Prelude.Ends.{Ends, Ends->>=, Ends-mono}
use aglack.Response.{Response, error, internal_server_error}
use aglack.Integrations.Json.{Value, null, boolean, number, string, array, object}
use aglack.Integrations.Sanitize.{Provider, sanitize_request}
use aglack.Integrations.Sanitize.Isolation.{Sanitized, sanitize_request-Sanitized}
use aglack.Integrations.Tokens.{
  WorkspaceRuntimeToken, TokenDb, is_for, find_runtime_token, token_statement,
}
use aglack.Prelude.Post.{Post}
use aglack.Prelude.Exec.{Result-cases}
use aglack.Integrations.Bearer.{require_workspace_bearer}
use aglack.Integrations.Bearer.Verified.{Verified, require_workspace_bearer-Verified}
use aglack.Integrations.Remote.{Outside, forwards, Gateway, in_integrations, remote_error}
use aglack.Integrations.Remote.Quiet.{Gives, tables, stored-Ends, ask-Ends}
use aglack.Integrations.McpRoute.{
  authenticate, forward, forward_as, current_token, send, sanitize_and_send, integration_mcp_route,
}

module _ (o : Outside) (from_slice : Text → Option Value) (providers : List Provider)
    (id : Text) where
  -- One request was forwarded, for this workspace only: its parameters name the workspace's own
  -- connection, and its bearer is the decrypted one of a token that is stored for the workspace.
  pub record Forwarded (bearer : Text) (sanitized : Value) (success : Bool)
      (before after : Gateway o.State) : Type 0 where
    pub token : WorkspaceRuntimeToken
    pub own : find? (is_for id) (tables after).tokens ≡ some token
    pub decrypted : o.decrypt token.openconnector_bearer ≡ good bearer
    pub isolated : Sanitized id providers sanitized
    pub calls : after.calls ≡ before.calls ++ (forwards bearer sanitized, success) ∷ []

  -- One request was forwarded with success, and this value came back.
  abbrev pub Answered : Gateway o.State → Value → Gateway o.State → Type 0
  Answered before value after =
      (bearer : Text) × (sanitized : Value) × Forwarded bearer sanitized true before after
      × Gives (o.forward_mcp bearer sanitized) value

  -- Nothing was called, or one request was forwarded and failed.
  abbrev pub Refused : Gateway o.State → Gateway o.State → Type 0
  Refused before after =
      (after.calls ≡ before.calls)
      ⊎ ((bearer : Text) × (sanitized : Value) × Forwarded bearer sanitized false before after)

  forward-Ends :
      (before g : Gateway o.State) (token : WorkspaceRuntimeToken) (bearer : Text)
      (sanitized : Value)
      → g.calls ≡ before.calls
      → find? (is_for id) (tables g).tokens ≡ some token
      → o.decrypt token.openconnector_bearer ≡ good bearer
      → Sanitized id providers sanitized
      → Ends
          (λ value after. Answered before value after)
          (λ _ after. Refused before after)
          (forward o from_slice providers bearer sanitized g)
  forward-Ends before g token bearer sanitized calls own decrypted isolated =
      let Own : TokenDb → Type 0 = λ db. find? (is_for id) db.tokens ≡ some token in
      let call = forwards bearer sanitized in
      let made : (success : Bool) (after : Gateway o.State)
          → after.calls ≡ before.calls ++ (call, success) ∷ []
          → Own (tables after)
          → Forwarded bearer sanitized success before after =
        λ success after c own'. record {
          token = token;
          own = own';
          decrypted = decrypted;
          isolated = isolated;
          calls = c;
        } in
      Ends-mono
        (λ value after.
          (after.calls ≡ before.calls ++ (call, true) ∷ [])
          × Own (tables after)
          × Gives (o.forward_mcp bearer sanitized) value)
        (λ _ after. (after.calls ≡ before.calls ++ (call, false) ∷ []) × Own (tables after))
        (λ value after. Answered before value after) (λ _ after. Refused before after)
        (forward o from_slice providers bearer sanitized g)
        (ask-Ends before.calls remote_error Own call (o.forward_mcp bearer sanitized) g calls own)
        (λ value after (c, own', gives). (bearer, sanitized, made true after c own', gives))
        (λ _ after (c, own'). inr (bearer, sanitized, made false after c own'))

  forward_as-Ends :
      (before g : Gateway o.State) (found : Option WorkspaceRuntimeToken) (sanitized : Value)
      → g.calls ≡ before.calls
      → found ≡ find? (is_for id) (tables g).tokens
      → Sanitized id providers sanitized
      → Ends
          (λ value after. Answered before value after)
          (λ _ after. Refused before after)
          (forward_as o from_slice providers sanitized found g)
  forward_as-Ends before g none sanitized calls own isolated = inl calls
  forward_as-Ends before g (some token) sanitized calls own isolated =
      elim (Result-cases (o.decrypt token.openconnector_bearer)) [
        | inl (bearer, e) ↦
            rw e (forward-Ends before g token bearer sanitized calls (sym own) e isolated)
        | inr (x, e) ↦ rw e (inl calls)
      ]

  read_token-Post :
      (db : TokenDb)
      → Post (λ token db'. token ≡ find? (is_for id) db'.tokens) (find_runtime_token id db)
  unfolding find_runtime_token
  read_token-Post db = elim (Run-cases (token_statement db)) [
    | inl (a, db', e) ↦ rw (find_runtime_token, e, ◌>>=◌, Post) refl
    | inr (x, db', e) ↦ rw (find_runtime_token, e, ◌>>=◌, Post) tt
  ]

  send-Ends :
      (before g : Gateway o.State) (request : Value) (r : Result Response Value)
      → g.calls ≡ before.calls
      → sanitize_request id providers request ≡ r
      → Ends
          (λ value after. Answered before value after)
          (λ _ after. Refused before after)
          (send o from_slice providers id r g)
  send-Ends before g request (bad response) calls e = inl calls
  send-Ends before g request (good sanitized) calls e =
      Ends->>=
        (λ token g'. (g'.calls ≡ before.calls) × (token ≡ find? (is_for id) (tables g').tokens))
        (λ _ g'. g'.calls ≡ before.calls) (λ value after. Answered before value after)
        (λ _ after. Refused before after) (current_token o from_slice providers id)
        (forward_as o from_slice providers sanitized) g
        (stored-Ends before.calls (λ e. error internal_server_error "token_lookup_failed")
          (λ token db. token ≡ find? (is_for id) db.tokens) (find_runtime_token id) g calls
          (read_token-Post (tables g)))
        (λ token g' h.
          forward_as-Ends before g' token sanitized h.0 h.1
            (sanitize_request-Sanitized id providers request sanitized e))
        (λ _ g' h. inl h)

  sanitize_and_send-Ends :
      (before g : Gateway o.State) (request : Option Value)
      → g.calls ≡ before.calls
      → Ends
          (λ value after. Answered before value after)
          (λ _ after. Refused before after)
          (sanitize_and_send o from_slice providers id request g)
  sanitize_and_send-Ends before g none calls = inl calls
  sanitize_and_send-Ends before g (some (array items)) calls = inl calls
  sanitize_and_send-Ends before g (some null) calls = send-Ends before g null _ calls refl
  sanitize_and_send-Ends before g (some (boolean b)) calls =
      send-Ends before g (boolean b) _ calls refl
  sanitize_and_send-Ends before g (some (number n)) calls =
      send-Ends before g (number n) _ calls refl
  sanitize_and_send-Ends before g (some (string s)) calls =
      send-Ends before g (string s) _ calls refl
  sanitize_and_send-Ends before g (some (object fs)) calls =
      send-Ends before g (object fs) _ calls refl

  -- The whole of a workspace's access to OpenConnector. A request whose bearer does not pass the
  -- workspace's check is answered before anything is called. Whatever passes has at most one call
  -- made for it, the forwarding of a request that names no connection but the workspace's own and no
  -- tool or action that is refused, with the decrypted bearer of the token stored for that workspace.
  -- An answer other than an error is the value that this call returned, and the call succeeded;
  -- where the call failed, the answer is an error.
  pub integration_mcp_route-Tenant :
      (authorization : Option Text) (body : Text) (before : Gateway o.State)
      → Ends
          (λ value after.
            Verified o.sha256_hex id authorization before.integrations
            × Answered before value after)
          (λ _ after.
            (after.calls ≡ before.calls)
            ⊎ (Verified o.sha256_hex id authorization before.integrations × Refused before after))
          (integration_mcp_route o from_slice providers id authorization body before)
  unfolding integration_mcp_route
  integration_mcp_route-Tenant authorization body before =
      elim (Run-cases (
        require_workspace_bearer o.sha256_hex id authorization "mcp_proxy_invalid_bearer"
          before.integrations)) [
            | inl (u, s, e) ↦
                let verified =
                  require_workspace_bearer-Verified o.sha256_hex id "mcp_proxy_invalid_bearer"
                    authorization before.integrations s e in
                let g : Gateway o.State = record before { integrations = s } in
                rw (integration_mcp_route, authenticate, in_integrations, ◌>>=◌, ◌>>◌, e)
                  (Ends-mono (λ value after. Answered before value after)
                    (λ _ after. Refused before after)
                    (λ value after.
                      Verified o.sha256_hex id authorization before.integrations
                      × Answered before value after)
                    (λ _ after.
                      (after.calls ≡ before.calls)
                      ⊎ (Verified o.sha256_hex id authorization before.integrations
                          × Refused before after))
                    (sanitize_and_send o from_slice providers id (from_slice body) g)
                    (sanitize_and_send-Ends before g (from_slice body) refl)
                    (λ value after f. (verified, f)) (λ _ after h. inr (verified, h)))
            | inr (x, s, e) ↦
                rw (integration_mcp_route, authenticate, in_integrations, ◌>>=◌, ◌>>◌, e, Ends)
                  (inl refl)
          ]
