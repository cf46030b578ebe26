-- ===== src/Integrations/Bearer/Guessing.antt =====
-- What wrong bearers lead to.
use Prim.Native.Nat.{ℕ, ◌-◌, ◌≤◌}
use mathlib.Core.Path.{◌≡◌}
use mathlib.Core.Bool.{Bool, true, false}
use mathlib.Core.Option.{Option, some}
use Prim.Native.String.{String}
use aglack.Response.{Response, error, unauthorized}
use aglack.Prelude.Text.{Text}
use aglack.Prelude.Maps.{get}
use aglack.Prelude.Lists.{find?}
use aglack.Prelude.Exec.{Run}
use aglack.Integrations.Tokens.Lookups.{TokensAnswer}
use aglack.Integrations.Tokens.{is_for}
use aglack.Integrations.Tokens.{WorkspaceRuntimeToken}
use aglack.Integrations.Lockout.{WorkspaceBearerFailures}
use aglack.Integrations.Bearer.{require_workspace_bearer}
use aglack.Integrations.Bearer.{hashes_match_constant_time}
use aglack.Integrations.Bearer.{extract_bearer}
use aglack.Integrations.Bearer.{bearer_is_plausibly_shaped}
use aglack.Integrations.Bearer.{IntegrationsState}
use aglack.Integrations.Bearer.{ok}
use aglack.Integrations.Bearer.{err}
use mathlib.Core.List.{◌∷◌}
use mathlib.Core.List.{[]}
use mathlib.Core.List.{List}
use aglack.Prelude.Exec.{final}

-- The workspace's token, and the state of its window: when it began and how many have failed.
pub record Watched (id : Text) (token : WorkspaceRuntimeToken) (start n : ℕ) (s : IntegrationsState)
    : Type 0 where
  pub answers : TokensAnswer s.store
  pub stored : find? (is_for id) s.store.tokens ≡ some token
  pub entry : WorkspaceBearerFailures
  pub found : get id s.lockout ≡ some entry
  pub started : entry.window_start ≡ start
  pub counted : entry.count ≡ n

-- A wrong guess is refused, and counted.
abbrev Refused :
    (id : Text) (token : WorkspaceRuntimeToken) (start n : ℕ)
    → Run IntegrationsState Response (Unit {0})
    → Type 0
Refused id token start n (ok a s) = ⊥
Refused id token start n (err e s) =
    (e ≡ error unauthorized "invalid_bearer") × Watched id token start n s

module _ (sha256_hex : Text → Text) (id : Text) (event : String) (token : WorkspaceRuntimeToken)
    (start : ℕ) where
  -- The header of a wrong guess: a plausible bearer with another hash.
  pub record Wrong (authorization : Option Text) : Type 0 where
    pub bearer : Text
    pub presented : extract_bearer authorization ≡ some bearer
    pub shaped : bearer_is_plausibly_shaped bearer ≡ true
    pub differs : hashes_match_constant_time (sha256_hex bearer) token.token_hash ≡ false

  -- Requests one after the other, each at its time.
  unfoldable pub attempts : List (ℕ × Option Text) → IntegrationsState → IntegrationsState
  attempts [] s = s
  attempts ((now, authorization) ∷ gs) s =
      attempts gs (
        final (require_workspace_bearer sha256_hex id authorization event (record s { now = now })))

  abbrev pub WrongInWindow : ℕ × Option Text → Type 0
  WrongInWindow g = Wrong g.1 × (g.0 - start ≤ 300000)
