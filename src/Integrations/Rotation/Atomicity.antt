-- ===== src/Integrations/Rotation/Atomicity.antt =====
-- A rotation revokes the old token last.
use mathlib.Core.Path.{◌≡◌, refl, ◌∙◌}
use mathlib.Core.Bool.{Bool, true, false}
use mathlib.Core.Option.{Option, none, some}
use mathlib.Core.Logic.{inl, inr}
use mathlib.Core.List.{List, [], ◌∷◌, ◌++◌, append_assoc, append-nil}
use mathlib.Core.Path.{sym}
use aglack.Prelude.Tests.{Bool-cases}
use aglack.Prelude.Text.{Text, ◌==◌}
use aglack.Prelude.Lists.{find?}
use aglack.Prelude.Exec.{pure, map_err, ◌>>◌}
use aglack.Prelude.Ends.{Ends, Ends->>=, Ends-mono, Ends-map_err}
use aglack.Response.{Response, error, internal_server_error}
use aglack.Integrations.Tokens.{
  WorkspaceRuntimeToken, is_for, upsert_runtime_token, find_runtime_token, TokenDb,
}
use aglack.Integrations.Tokens.Lookups.{upsert_runtime_token-Post, find_runtime_token-Post}
use aglack.Integrations.Remote.{
  RuntimeToken, Outside, Log, creates, revokes, delivers, Gateway, ask,
}
use aglack.Integrations.Remote.Quiet.{
  Gives, tables, stored-Ends, look-Ends, ask-Ends, ignored_ask-Ends,
}
use aglack.Integrations.Rotation.{
  token_name, stored_token, store_and_deliver, encrypt_bearer, store_token, deliver, create_token,
  issue, into_response, token_delivery_failed, token_encryption_failed, runtime_token_store_failed,
  open_connector, issue_and_deliver_runtime_token, retire, issue_and_retire, previous_token,
  rotate_workspace_token,
}

-- The calls of a rotation that failed: none of them revokes a token.
pub data FailedRotation (id container_name : Text) (allowed : List Text) : Log → Type 0 where
  not_started : FailedRotation id container_name allowed []
  not_created :
      FailedRotation id container_name allowed ((creates (token_name id) allowed, false) ∷ [])
  not_stored :
      FailedRotation id container_name allowed ((creates (token_name id) allowed, true) ∷ [])
  not_delivered :
      (bearer : Text)
      → FailedRotation id container_name allowed
          ((creates (token_name id) allowed, true) ∷ (delivers container_name bearer, false) ∷ [])

-- What is revoked in the end: the token that was stored before, where it is another one. The
-- revocation may fail.
pub data Retired (new_id : Text) : Option WorkspaceRuntimeToken → Log → Type 0 where
  nothing_stored : Retired new_id none []
  same_token :
      (previous : WorkspaceRuntimeToken)
      → (previous.openconnector_token_id == new_id) ≡ true
      → Retired new_id (some previous) []
  revoked :
      (previous : WorkspaceRuntimeToken) (done : Bool)
      → (previous.openconnector_token_id == new_id) ≡ false
      → Retired new_id (some previous) ((revokes previous.openconnector_token_id, done) ∷ [])

module _ (o : Outside) (id container_name : Text) (allowed : List Text) where
  -- The token that is stored is the one that was delivered.
  abbrev pub Stores : RuntimeToken → TokenDb → Type 0
  Stores token db =
      (encrypted : Text) × (find? (is_for id) db.tokens ≡ some (stored_token o id token encrypted))

  pub record Rotated (before after : Gateway o.State) : Type 0 where
    pub token : RuntimeToken
    pub retired : Log
    pub made : Gives (o.create_runtime_token (token_name id) allowed) token
    pub retires :
        Retired token.openconnector_token_id (find? (is_for id) (tables before).tokens) retired
    pub stores : Stores token (tables after)
    pub calls :
        after.calls
        ≡ before.calls
          ++ (creates (token_name id) allowed, true)
            ∷ (delivers container_name token.bearer, true)
            ∷ retired

  abbrev pub Unrotated : Log → Gateway o.State → Type 0
  Unrotated log after =
      (sent : Log) × FailedRotation id container_name allowed sent × (after.calls ≡ log ++ sent)

  abbrev Issued : Log → Text → Gateway o.State → Type 0
  Issued log new_id after =
      (token : RuntimeToken) × (token.openconnector_token_id ≡ new_id)
      × Stores token (tables after)
      × (after.calls
          ≡ log
            ++ (creates (token_name id) allowed, true)
              ∷ (delivers container_name token.bearer, true)
              ∷ [])
      × Gives (o.create_runtime_token (token_name id) allowed) token

  created : Log → Log
  created log = log ++ (creates (token_name id) allowed, true) ∷ []

  deliver-Ends :
      (token : RuntimeToken) (log : Log) (g : Gateway o.State)
      → g.calls ≡ created log
      → Stores token (tables g)
      → Gives (o.create_runtime_token (token_name id) allowed) token
      → Ends (Issued log) (λ _. Unrotated log) (deliver o container_name token g)
  unfolding created
  deliver-Ends token log g e stores made =
      let delivery = delivers container_name token.bearer in
      let all : (g' : Gateway o.State) (done : Bool)
          → g'.calls ≡ created log ++ (delivery, done) ∷ []
          → g'.calls ≡ log ++ (creates (token_name id) allowed, true) ∷ (delivery, done) ∷ [] =
        λ g' done e'.
          e'
          ∙ append_assoc log ((creates (token_name id) allowed, true) ∷ [])
              ((delivery, done) ∷ []) in
      Ends->>=
        (λ u g'.
          (g'.calls ≡ created log ++ (delivery, true) ∷ [])
          × Stores token (tables g')
          × Gives (o.deliver_token_file container_name token.bearer) u)
        (λ _ g'. (g'.calls ≡ created log ++ (delivery, false) ∷ []) × Stores token (tables g'))
        (Issued log) (λ _. Unrotated log)
        (map_err token_delivery_failed
          (ask delivery (o.deliver_token_file container_name token.bearer)))
        (λ _. pure token.openconnector_token_id) g
        (ask-Ends (created log) token_delivery_failed (Stores token) delivery
          (o.deliver_token_file container_name token.bearer) g e stores)
        (λ _ g' (e', s', _). (token, refl, s', all g' true e', made))
        (λ _ g' (e', s'). (_, not_delivered token.bearer, all g' false e'))

  store_and_deliver-Ends :
      (token : RuntimeToken) (log : Log) (g : Gateway o.State)
      → g.calls ≡ created log
      → Gives (o.create_runtime_token (token_name id) allowed) token
      → Ends (Issued log) (λ _. Unrotated log) (store_and_deliver o id container_name token g)
  unfolding created
  store_and_deliver-Ends token log g e made =
      Ends->>= (λ _ g'. (g'.calls ≡ created log) × Unit {0}) (λ _ g'. g'.calls ≡ created log)
        (Issued log) (λ _. Unrotated log) (encrypt_bearer o token)
        (λ encrypted. store_token o id token encrypted >> deliver o container_name token) g
        (look-Ends (created log) token_encryption_failed (λ _. Unit {0}) (o.encrypt token.bearer) g
          e tt)
        (λ encrypted g1 (e1, _).
          Ends->>=
            (λ _ g'.
              (g'.calls ≡ created log)
              × (find? (is_for id) (tables g').tokens ≡ some (stored_token o id token encrypted)))
            (λ _ g'. g'.calls ≡ created log) (Issued log) (λ _. Unrotated log)
            (store_token o id token encrypted) (λ _. deliver o container_name token) g1
            (stored-Ends (created log) runtime_token_store_failed _
              (upsert_runtime_token (stored_token o id token encrypted)) g1 e1
              (upsert_runtime_token-Post (stored_token o id token encrypted) (tables g1)))
            (λ _ g2 (e2, stores). deliver-Ends token log g2 e2 (encrypted, stores) made)
            (λ _ g2 e2. (_, not_stored, e2)))
        (λ _ g1 e1. (_, not_stored, e1))

  issue-Ends :
      (log : Log) (g : Gateway o.State)
      → g.calls ≡ log
      → Ends (Issued log) (λ _. Unrotated log) (issue o id container_name allowed g)
  unfolding issue_and_deliver_runtime_token created
  issue-Ends log g e =
      Ends-map_err (Issued log) (Unrotated log) into_response
        (issue_and_deliver_runtime_token o id container_name allowed) g
        (Ends->>=
          (λ token g'.
            (g'.calls ≡ created log)
            × Unit {0}
            × Gives (o.create_runtime_token (token_name id) allowed) token)
          (λ _ g'. (g'.calls ≡ log ++ (creates (token_name id) allowed, false) ∷ []) × Unit {0})
          (Issued log) (λ _. Unrotated log) (create_token o id allowed)
          (store_and_deliver o id container_name) g
          (ask-Ends log open_connector (λ _. Unit {0}) (creates (token_name id) allowed)
            (o.create_runtime_token (token_name id) allowed) g e tt)
          (λ token g1 (e1, _, made). store_and_deliver-Ends token log g1 e1 made)
          (λ _ g1 (e1, _). (_, not_created, e1)))

  module _ (before : Gateway o.State) where
    retire-Ends :
        (new_id : Text) (previous : Option WorkspaceRuntimeToken) (g : Gateway o.State)
        → previous ≡ find? (is_for id) (tables before).tokens
        → Issued before.calls new_id g
        → Ends (λ _. Rotated before) (λ _. Unrotated before.calls) (retire o new_id previous g)
    retire-Ends new_id none g same (token, is, stores, e, made) = record {
      token = token;
      retired = [];
      made = made;
      retires = rw (← same) nothing_stored;
      stores = stores;
      calls = e;
    }
    retire-Ends new_id (some previous) g same (token, is, stores, e, made) =
        elim (Bool-cases (previous.openconnector_token_id == new_id)) [
          | inl equal ↦ rw equal (record {
            token = token;
            retired = [];
            made = made;
            retires = rw (← same) (same_token previous (rw is equal));
            stores = stores;
            calls = e;
          })
          | inr other ↦ rw other (
              Ends-mono _ _ (λ _. Rotated before) (λ _. Unrotated before.calls) _
                (ignored_ask-Ends _ Response (Stores token)
                  (revokes previous.openconnector_token_id)
                  (o.revoke_runtime_token previous.openconnector_token_id) g e stores)
                (λ _ g' ((done, e'), s'). record {
                  token = token;
                  retired = (revokes previous.openconnector_token_id, done) ∷ [];
                  made = made;
                  retires = rw (← same) (revoked previous done (rw is other));
                  stores = s';
                  calls = e' ∙ append_assoc before.calls _ _;
                })
                (λ _ _ never. absurd never))
        ]

    -- A rotation revokes the old token last. When it succeeds, it has successfully created a token
    -- for exactly the allowed connections and successfully delivered the bearer of that token to the
    -- container, and only then asked to revoke the token that was stored before (if there was one,
    -- and it is another one), which alone may fail; the store then holds the hash of the bearer that
    -- was delivered. When it fails, no call has revoked anything.
    pub rotate_workspace_token-Rotated :
        Ends
          (λ _. Rotated before)
          (λ _. Unrotated before.calls)
          (rotate_workspace_token o id container_name allowed before)
    unfolding rotate_workspace_token
    rotate_workspace_token-Rotated =
        Ends->>=
          (λ previous g.
            (g.calls ≡ before.calls) × (previous ≡ find? (is_for id) (tables before).tokens))
          (λ _ g. g.calls ≡ before.calls) (λ _. Rotated before) (λ _. Unrotated before.calls)
          (previous_token o id) (issue_and_retire o id container_name allowed) before
          (stored-Ends before.calls (λ e. error internal_server_error "runtime_token_lookup_failed")
            (λ previous _. previous ≡ find? (is_for id) (tables before).tokens)
            (find_runtime_token id) before refl (find_runtime_token-Post id (tables before)))
          (λ previous g1 (e1, same).
            Ends->>= (Issued before.calls) (λ _. Unrotated before.calls) (λ _. Rotated before)
              (λ _. Unrotated before.calls) (issue o id container_name allowed)
              (λ new_id. retire o new_id previous) g1 (issue-Ends before.calls g1 e1)
              (λ new_id g2 issued. retire-Ends new_id previous g2 same issued) (λ _ g2 u. u))
          (λ _ g1 e1. ([], not_started, e1 ∙ sym (append-nil before.calls)))
