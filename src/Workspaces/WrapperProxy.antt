-- ===== src/Workspaces/WrapperProxy.antt =====
-- workspaces/proxy/wrapper_prefix_proxy.rs, and the routes of commands_proxy.rs and onboarding_proxy.rs
-- that use it. The host of a workspace's ports is a parameter (it is read from the environment), and
-- so is the `path` that the router took from the request.
pub mod Targets
pub mod Examples
use mathlib.Core.Bool.{Bool, not}
use mathlib.Core.Option
use mathlib.Core.Option.{Option, none, some}
use mathlib.Core.List.{List, [], ◌∷◌, ◌++◌}
use Prim.Native.Nat.{ℕ}
use aglack.Prelude.Text.{Text, codes, ◌==◌}
use aglack.Prelude.Decimal.{to_text}
use aglack.Prelude.Tests.{if◌then◌else◌}
use aglack.Prelude.Lists.{keep}
use aglack.Prelude.Maps.{get}
use aglack.Prelude.Strings.{split_once}
use aglack.Prelude.Exec.{Exec, Result, ok, err, good, bad, throw}
use aglack.Response.{Response}
use aglack.Workspaces.Db.{Db}
use aglack.Workspaces.Resolve.{ReadyWorkspacePorts, resolve_ready_workspace}
use aglack.Workspaces.AgentCookie.{agent_in, inject_agent_cookie}
use aglack.Proxy.{Headers, Request, Upstream, Reply, forward_to}

abbrev after : Option (Text × Text) → Option Text
after none = none
after (some (path, query)) = some query

-- `req.uri().query()`
abbrev pub query_of : Request → Option Text
query_of req = elim req.path_and_query [
  | none ↦ none
  | some uri ↦ after (split_once (codes "?") uri)
]

abbrev or_nothing : Option Text → Text
or_nothing none = []
or_nothing (some query) = codes "?" ++ query

abbrev pub rewritten_path : Text → Text → Request → Text
rewritten_path namespace path req =
    if path == []
    then codes "/api/wrapper/v1/" ++ (namespace ++ or_nothing (query_of req))
    else codes "/api/wrapper/v1/"
      ++ (namespace ++ (codes "/" ++ (path ++ or_nothing (query_of req))))

abbrev pub workspace_target_addr : Text → ℕ → Text
workspace_target_addr host port = host ++ (codes ":" ++ to_text port)

-- `HeaderMap::insert`, which replaces every value of the name.
abbrev set_header : Text → Text → Headers → Headers
set_header name value headers =
    keep (λ (header : Text × Text). not (header.0 == name)) headers ++ (name, value) ∷ []

abbrev cookie_name : Text
cookie_name = codes "cookie"

abbrev readable : (Text → Option Text) → Option Text → Option Text
readable to_str none = none
readable to_str (some value) = to_str value

-- `to_str` is that of a header's value: nothing where it is not visible ASCII.
module _ (from_utf8_lossy : List ℕ → Text) (is_header_value : Text → Bool)
    (to_str : Text → Option Text) where
  abbrev put_cookie : Request → Result Response (Option Text) → Result Response Request
  put_cookie req (good none) = good req
  put_cookie req (good (some cookie)) =
      good (record req { headers = set_header cookie_name cookie req.headers })
  put_cookie req (bad e) = bad e

  abbrev inject_named : Request → Option Text → Result Response Request
  inject_named req none = good req
  inject_named req (some agent) = put_cookie req (
      inject_agent_cookie from_utf8_lossy is_header_value (query_of req)
        (readable to_str (get cookie_name req.headers)))

  -- `inject_agent_cookie` on the request.
  unfoldable pub inject_into : Request → Result Response Request
  unfolding inject_agent_cookie
  inject_into req = inject_named req (agent_in from_utf8_lossy (query_of req))

module _ (u : Upstream) (host id : Text) where
  abbrev forward_in :
      Text → Text → Request → ReadyWorkspacePorts → Exec (Db × u.State) Response Reply
  forward_in namespace path req ports (db, s) =
      let (reply, s') =
        forward_to u (workspace_target_addr host ports.wrapper_port) req
          (some (rewritten_path namespace path req)) s in
      ok reply (db, s')

  unfoldable pub forward_to_wrapper_namespace :
      Text → Text → Request → Exec (Db × u.State) Response Reply
  unfolding forward_to
  forward_to_wrapper_namespace namespace path req (db, s) = elim (resolve_ready_workspace id db) [
    | ok ports db' ↦ forward_in namespace path req ports (db', s)
    | err e db' ↦ err e (db', s)
  ]

  unfoldable pub onboarding_proxy_route : Text → Request → Exec (Db × u.State) Response Reply
  unfolding forward_to_wrapper_namespace
  onboarding_proxy_route path req = forward_to_wrapper_namespace (codes "onboarding") path req

  abbrev forward_injected : Text → Result Response Request → Exec (Db × u.State) Response Reply
  forward_injected path (bad e) = throw e
  forward_injected path (good req) = forward_to_wrapper_namespace (codes "commands") path req

  unfoldable pub commands_proxy :
      (from_utf8_lossy : List ℕ → Text) (is_header_value : Text → Bool)
      (to_str : Text → Option Text)
      → Text
      → Request
      → Exec (Db × u.State) Response Reply
  unfolding inject_into forward_to_wrapper_namespace
  commands_proxy from_utf8_lossy is_header_value to_str path req =
      forward_injected path (inject_into from_utf8_lossy is_header_value to_str req)
