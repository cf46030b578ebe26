-- ===== src/Auth/Tests.antt =====
-- The theorems of the paths, the sessions and the middleware at work on one user and one workspace.
use aglack.Workspaces.Db.{query}
use aglack.Prelude.Strings.{split}
use aglack.Auth.Middleware.{read_session_cookie}
use aglack.Prelude.Strings.{split_once}
use aglack.Auth.Paths.{is_workspace_browser_path}
use aglack.Prelude.Strings.{ends_with}
use aglack.Prelude.Strings.{starts_with}
use aglack.Auth.Sessions.{statement}
use mathlib.Core.Path.{◌≡◌, refl}
use mathlib.Core.Option.{some}
use mathlib.Core.Bool.{true}
use aglack.Prelude.Text.{codes}
use aglack.Auth.Paths.{workspace_id_from_path, is_exempt}
use mathlib.Core.Option.{none}
use mathlib.Core.List.{◌∷◌}
use mathlib.Core.List.{[]}
use mathlib.Core.List.{List}
use aglack.Prelude.Text.{◌==◌}
use aglack.Prelude.Text.{Text}
use aglack.Prelude.Tests.{if◌then◌else◌}
use aglack.Prelude.Decimal.{to_text}
use aglack.Prelude.Decimal.{text_lt}
use aglack.Auth.Sessions.Lifecycle.{create_then_user_for_token}
use aglack.Prelude.Ends.{Ends}
use aglack.Auth.Sessions.{user_for_token}
use aglack.Auth.Sessions.{prune_expired}
use aglack.Auth.Sessions.{delete}
use aglack.Auth.Sessions.{create}
use aglack.Auth.Sessions.{AuthenticatedUser}
use aglack.Auth.Sessions.{AuthDb}
use aglack.Auth.Middleware.Admission.{require_session_of_Admitted}
use aglack.Auth.Middleware.Admission.{require_session-Admitted}
use aglack.Auth.Middleware.Admission.{Admitted}
use aglack.Auth.Middleware.{require_session}
use aglack.Auth.Middleware.{Request}
use aglack.Auth.Middleware.{Gate}
use aglack.Workspaces.Db.{unique_violation}
use aglack.Prelude.Exec.{ok}
use aglack.Prelude.Exec.{err}
use aglack.Auth.Middleware.Admission.{session}
use aglack.Auth.Middleware.Admission.{owned}

-- A cookie header with the session's cookie only, and a hash that is not one.
abbrev whole_cookie : Text → List (Text × Text)
whole_cookie raw = (codes "gw_session", raw) ∷ []

abbrev plain : Text → Text
plain raw = raw

abbrev no_users : AuthDb
no_users = record { users = []; sessions = []; faults = []; now = 1700000000 }

abbrev alice : AuthenticatedUser
alice = record { google_sub = codes "sub-a"; email = codes "a@x" }

abbrev logged_in : AuthDb
logged_in = record {
  users =
      record {
        google_sub = codes "sub-a";
        email = codes "a@x";
        email_verified = true;
        created_at = codes "1700000000";
      }
      ∷ [];
  sessions =
      record {
        token_hash = codes "t";
        created_at = codes "1700000000";
        expires_at = codes "1700043200";
        google_sub = some (codes "sub-a");
      }
      ∷ [];
  faults = [];
  now = 1700000000;
}

login :
    create (codes "t") (codes "1700043200") (codes "sub-a") (codes "a@x") no_users ≡ ok tt logged_in
unfolding create statement to_text
login = refl

create_then_user_for_token_example :
    user_for_token (codes "t") logged_in
    ≡ ok (if text_lt (to_text 1700000000) (codes "1700043200") then some alice else none) logged_in
create_then_user_for_token_example =
    create_then_user_for_token (codes "t") (codes "1700043200") (codes "sub-a") (codes "a@x")
      1700000000 no_users logged_in refl login

taken :
    create (codes "t") (codes "1700043200") (codes "sub-b") (codes "b@x") logged_in
    ≡ err unique_violation logged_in
unfolding create statement ◌==◌
taken = refl

logged_out : delete (codes "t") logged_in ≡ ok tt (record logged_in { sessions = [] })
unfolding delete statement ◌==◌
logged_out = refl

found : user_for_token (codes "t") logged_in ≡ ok (some alice) logged_in
unfolding user_for_token statement ◌==◌ text_lt to_text
found = refl

pruned : prune_expired logged_in ≡ ok tt logged_in
unfolding prune_expired statement text_lt to_text
pruned = refl

abbrev gate : Gate
gate = record {
  auth = logged_in;
  workspaces = record {
    rows =
        record {
          idempotency_key = codes "demo";
          workspace_id = codes "w1";
          status = "ready";
          container_name = none;
          created_at = codes "1700000000";
          host_port = none;
          desktop_port = none;
          browser_port = none;
          owner_google_sub = some (codes "sub-a");
        }
        ∷ [];
    faults = [];
    now = 1700000000;
  };
}

abbrev request : Request
request = record { path = codes "/workspaces/w1/chat"; cookie = some (codes "t") }

let_through : require_session whole_cookie plain request gate ≡ ok (some alice) gate
unfolding require_session is_exempt starts_with ◌==◌ ends_with is_workspace_browser_path split_once
    read_session_cookie user_for_token statement text_lt to_text workspace_id_from_path split query
let_through = refl

require_session-Admitted_example : Admitted whole_cookie plain request gate (some alice)
require_session-Admitted_example =
    require_session-Admitted whole_cookie plain request gate gate (some alice) let_through

admitted : Admitted whole_cookie plain request gate (some alice)
unfolding require_session is_exempt starts_with ◌==◌ ends_with is_workspace_browser_path split_once
    read_session_cookie text_lt to_text workspace_id_from_path split
admitted = session refl refl refl (owned refl)

require_session_of_Admitted_example :
    require_session whole_cookie plain request gate ≡ ok (some alice) gate
require_session_of_Admitted_example =
    require_session_of_Admitted whole_cookie plain request gate (some alice) refl refl admitted
