-- ===== src/Integrations/Bearer/Verified.antt =====
-- Which requests the bearer check lets through.
use mathlib.Core.Path.{◌≡◌, refl}
use mathlib.Core.Logic.{inl, inr}
use mathlib.Core.Bool.{Bool, true, false}
use mathlib.Core.Option.{Option, none, some}
use Prim.Native.String.{String}
use aglack.Integrations.Lockout.{locked, allowed}
use mathlib.Core.Path.{sym}
use aglack.Prelude.Text.{Text}
use aglack.Prelude.Tests.{Bool-cases}
use aglack.Prelude.Post.{Post_of_ok}
use aglack.Prelude.Post.{Post}
use aglack.Prelude.Lists.{find?}
use aglack.Prelude.Exec.{◌>>◌}
use aglack.Prelude.Exec.{◌>>=◌}
use aglack.Prelude.Exec.{ignore}
use aglack.Prelude.Exec.{attempt}
use aglack.Prelude.Exec.{Run-cases}
use aglack.Integrations.Tokens.{record_audit}
use aglack.Integrations.Tokens.{is_for}
use aglack.Integrations.Tokens.{find_runtime_token}
use aglack.Integrations.Tokens.{WorkspaceRuntimeToken}
use aglack.Integrations.Lockout.{check}
use aglack.Integrations.Lockout.{audit_due}
use aglack.Integrations.Lockout.{LockoutDecision}
use aglack.Integrations.Lockout.{Lockout}
use aglack.Integrations.Bearer.{require_workspace_bearer}
use aglack.Integrations.Bearer.{on_tokens}
use aglack.Integrations.Bearer.{hashes_match_constant_time}
use aglack.Integrations.Bearer.{extract_bearer}
use aglack.Integrations.Bearer.{bearer_is_plausibly_shaped}
use aglack.Integrations.Bearer.{IntegrationsState}
use aglack.Integrations.Tokens.Lookups.{find_runtime_token-Post}
use aglack.Integrations.Bearer.{ok}
use aglack.Integrations.Bearer.{check_record}
use aglack.Integrations.Bearer.{check_decision}
use aglack.Integrations.Bearer.{check_bearer}
use aglack.Integrations.Bearer.{good}
use aglack.Integrations.Bearer.{refuse}

module _ (sha256_hex : Text → Text) where
  -- The bearer has a plausible length, the workspace is not locked out, and the hash of the bearer
  -- is the one that the workspace's own token has.
  pub record Verified (id : Text) (authorization : Option Text) (s : IntegrationsState)
      : Type 0 where
    pub bearer : Text
    pub presented : extract_bearer authorization ≡ some bearer
    pub shaped : bearer_is_plausibly_shaped bearer ≡ true
    pub should_audit : Bool
    pub unlocked : (check s.now id s.lockout).0 ≡ allowed should_audit
    pub token : WorkspaceRuntimeToken
    pub stored : find? (is_for id) s.store.tokens ≡ some token
    pub matches : hashes_match_constant_time (sha256_hex bearer) token.token_hash ≡ true

  module _ (id : Text) (event : String) (authorization : Option Text) (s : IntegrationsState)
      (bearer : Text) (presented : extract_bearer authorization ≡ some bearer)
      (shaped : bearer_is_plausibly_shaped bearer ≡ true) where
    record-Post :
        (audit_due : Bool) (token : Option WorkspaceRuntimeToken) (s' : IntegrationsState)
        → (check s.now id s.lockout).0 ≡ allowed audit_due
        → token ≡ find? (is_for id) s.store.tokens
        → Post
            (λ _ _. Verified id authorization s)
            (check_record sha256_hex id bearer event audit_due (good token) s')
    record-Post audit_due none s' unlocked is = tt
    record-Post audit_due (some token) s' unlocked is =
        elim (Bool-cases (hashes_match_constant_time (sha256_hex bearer) token.token_hash)) [
          | inl same ↦ rw same (record {
            bearer = bearer;
            presented = presented;
            shaped = shaped;
            should_audit = audit_due;
            unlocked = unlocked;
            token = token;
            stored = sym is;
            matches = same;
          })
          | inr differs ↦ rw differs (refused audit_due)
        ]
      where
        refused : (due : Bool) → Post (λ _ _. Verified id authorization s) (refuse id event due s')
        refused true = elim (Run-cases (record_audit id none event false s'.store)) [
          | inl (a, db, e) ↦ rw (e, ◌>>=◌, ◌>>◌, ignore, on_tokens, Post) tt
          | inr (x, db, e) ↦ rw (e, ◌>>=◌, ◌>>◌, ignore, on_tokens, Post) tt
        ]
        refused false = tt

    decision-Post :
        (decision : LockoutDecision) (lockout : Lockout)
        → (check s.now id s.lockout).0 ≡ decision
        → Post
            (λ _ _. Verified id authorization s)
            (check_decision sha256_hex id bearer event decision (record s { lockout = lockout }))
    decision-Post locked lockout is = tt
    decision-Post (allowed due) lockout is = elim (Run-cases (find_runtime_token id s.store)) [
      | inl (token, db, e) ↦
          let stored : token ≡ find? (is_for id) s.store.tokens =
            rw (e, Post) at (find_runtime_token-Post id s.store) in
          rw (e, ◌>>=◌, attempt, on_tokens, Post)
            (record-Post due token (record s { lockout = lockout; store = db }) is stored)
      | inr (x, db, e) ↦ rw (e, ◌>>=◌, attempt, on_tokens, Post) tt
    ]

  bearer-Post :
      (id : Text) (event : String) (authorization bearer : Option Text) (s : IntegrationsState)
      → extract_bearer authorization ≡ bearer
      → Post (λ _ _. Verified id authorization s) (check_bearer sha256_hex id event bearer s)
  bearer-Post id event authorization none s presented = tt
  bearer-Post id event authorization (some bearer) s presented =
      elim (Bool-cases (bearer_is_plausibly_shaped bearer)) [
        | inl shaped ↦ rw shaped (
            decision-Post id event authorization s bearer presented shaped
              (check s.now id s.lockout).0 (check s.now id s.lockout).1 refl)
        | inr misshapen ↦ rw misshapen tt
      ]

  -- Only a request that presents the workspace's own bearer, while the workspace is not locked out,
  -- is let through, whatever the database answers and whichever audit rows fail to be written.
  pub require_workspace_bearer-Verified :
      (id : Text) (event : String) (authorization : Option Text) (s s' : IntegrationsState)
      → require_workspace_bearer sha256_hex id authorization event s ≡ ok tt s'
      → Verified id authorization s
  unfolding require_workspace_bearer
  require_workspace_bearer-Verified id event authorization s s' e =
      Post_of_ok (λ _ _. Verified id authorization s)
        (bearer-Post id event authorization (extract_bearer authorization) s refl) e
