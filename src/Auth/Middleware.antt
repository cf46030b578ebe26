-- ===== src/Auth/Middleware.antt =====
-- auth/middleware.rs `require_session`, and `read_session_cookie` of auth/route.rs. The cookie parser
-- and SHA-256 are third-party code and parameters.
pub mod Admission
use mathlib.Core.Bool.{Bool}
use mathlib.Core.Option
use mathlib.Core.Option.{Option, none, some}
use mathlib.Core.List.{List}
use mathlib.Core.Bool.{◌&&◌}
use mathlib.Core.Bool.{true}
use mathlib.Core.Bool.{false}
use aglack.Workspaces.Rows.{Row}
use aglack.Workspaces.Reads.{has_owner}
use aglack.Workspaces.Db.{query}
use aglack.Workspaces.Db.{has_id}
use aglack.Workspaces.Db.{StoreM}
use aglack.Workspaces.Db.{SqlxError}
use aglack.Workspaces.Db.{Db}
use aglack.Response.{unauthorized}
use aglack.Response.{not_found}
use aglack.Response.{internal_server_error}
use aglack.Response.{Response}
use aglack.Prelude.Text.{◌==◌}
use aglack.Prelude.Text.{codes}
use aglack.Prelude.Text.{Text}
use aglack.Prelude.Tests.{if◌then◌else◌}
use aglack.Prelude.Lists.{find?}
use aglack.Prelude.Lists.{any}
use aglack.Prelude.Exec.{◌>>◌}
use aglack.Prelude.Exec.{◌>>=◌}
use aglack.Prelude.Exec.{throw}
use aglack.Prelude.Exec.{pure}
use aglack.Prelude.Exec.{get_state}
use aglack.Prelude.Exec.{attempt}
use aglack.Prelude.Exec.{Result}
use aglack.Prelude.Exec.{Exec}
use aglack.Auth.Sessions.{user_for_token}
use aglack.Auth.Sessions.{SessionM}
use aglack.Auth.Sessions.{AuthenticatedUser}
use aglack.Auth.Sessions.{AuthDb}
use aglack.Auth.Paths.{workspace_id_from_path}
use aglack.Auth.Paths.{is_exempt}
use aglack.Response.{error}
use aglack.Prelude.Exec.{ok}
use aglack.Prelude.Exec.{good}
use aglack.Prelude.Exec.{err}
use aglack.Prelude.Exec.{bad}

-- The part of a request that the middleware reads. `cookie` is the `Cookie` header, if there is one
-- that `to_str` accepts.
pub record Request : Type 0 where
  pub path : Text
  pub cookie : Option Text

-- Sessions and workspaces are looked up in two pools.
pub record Gate : Type 0 where
  pub auth : AuthDb
  pub workspaces : Db

abbrev pub GateM : Type 0 → Type 0
GateM A = Exec Gate Response A

abbrev on_sessions : {A : Type 0} → SessionM A → Exec Gate SqlxError A
on_sessions m g = elim (m g.auth) [
  | ok a auth ↦ ok a (record g { auth = auth })
  | err e auth ↦ err e (record g { auth = auth })
]

abbrev on_workspaces : {A : Type 0} → StoreM A → Exec Gate SqlxError A
on_workspaces m g = elim (m g.workspaces) [
  | ok a db ↦ ok a (record g { workspaces = db })
  | err e db ↦ err e (record g { workspaces = db })
]

abbrev pub owned_by : Text → Text → Row → Bool
owned_by id sub row = has_id id row && has_owner sub row

-- `SELECT 1 FROM workspace_creations WHERE workspace_id = ? AND owner_google_sub = ?`
owns : Text → Text → StoreM Bool
owns id sub = do query; db ← get_state; pure (any (owned_by id sub) db.rows)

-- The `match owned`.
abbrev check_owned : Result SqlxError Bool → GateM (Unit {0})
check_owned (good true) = pure tt
check_owned (good false) = throw (error not_found "workspace_not_found")
check_owned (bad e) = throw (error internal_server_error "workspace_lookup_failed")

abbrev check_path : Option Text → AuthenticatedUser → GateM (Unit {0})
check_path none user = pure tt
check_path (some id) user = do
  owned ← attempt (on_workspaces (owns id user.google_sub))
  check_owned owned

-- The `match` on the session's user; the result is the user that the request carries on.
abbrev check_user :
    Text → Result SqlxError (Option AuthenticatedUser) → GateM (Option AuthenticatedUser)
check_user path (good none) = throw (error unauthorized "not_authenticated")
check_user path (bad e) = throw (error internal_server_error "session_lookup_failed")
check_user path (good (some user)) = do
  check_path (workspace_id_from_path path) user
  pure (some user)

-- `Cookie::split_parse`, less the cookies that do not parse, as names and values.
module _ (split_parse : Text → List (Text × Text)) (sha256_hex : Text → Text) where
  unfoldable pub read_session_cookie : Option Text → Option Text
  read_session_cookie none = none
  read_session_cookie (some raw) =
      Option.map (λ cookie. cookie.1)
        (find? (λ cookie. cookie.0 == codes "gw_session") (split_parse raw))

  abbrev check_token : Text → Option Text → GateM (Option AuthenticatedUser)
  check_token path none = throw (error unauthorized "not_authenticated")
  check_token path (some raw_token) = do
    user ← attempt (on_sessions (user_for_token (sha256_hex raw_token)))
    check_user path user

  -- Success is `next.run`, with the user that is put into the request's extensions; failure is the
  -- middleware's own answer.
  unfoldable pub require_session : Request → GateM (Option AuthenticatedUser)
  unfolding owns
  require_session request =
      if is_exempt request.path
      then pure none
      else check_token request.path (read_session_cookie request.cookie)
