-- ===== src/Auth/Login/Examples.antt =====
-- A login with a Google that knows one code, and its logout.
use aglack.Prelude.Decimal.{to_text}
use aglack.Auth.Sessions.{prune_expired}
use aglack.Prelude.Maps.{get}
use Prim.Native.Nat.{◌≤◌}
use native.Mathlib.Omega.{arith}
use mathlib.Core.Path.{◌≡◌, refl}
use mathlib.Core.Bool.{true}
use mathlib.Core.Option.{Option, none, some}
use mathlib.Core.List.{[], ◌∷◌}
use aglack.Prelude.Exec.{ok, final}
use aglack.Prelude.Text.{Text, codes, ◌==◌}
use aglack.Prelude.Lists.{length}
use aglack.Response.{error, unauthorized}
use aglack.Auth.Sessions.{statement, create}
use aglack.Auth.Login.{
  AuthState, GoogleUser, GoogleCallback, to_frontend, google_start_route, google_callback_route,
  logout_route, me_route,
}
use aglack.Auth.Login.States.{UsesUp, google_callback_route-Vouched, google_start_route_bounded}
use aglack.Auth.Login.Replay.{failure, google_callback_route_once}
use aglack.Auth.Login.Logout.{logout_route_ends_session}

abbrev plain : Text → Text
plain raw = raw

abbrev exchange : Text → Option Text
exchange code = some code

abbrev userinfo : Text → Option GoogleUser
userinfo token = some (record { sub = codes "sub-a"; email = codes "a@x"; email_verified = true })

abbrev begun : AuthState
begun = record {
  sessions = record { users = []; sessions = []; faults = []; now = 7 };
  pending_oauth_states = (codes "st", 1000) ∷ [];
  instant = 5000;
}

abbrev callback : GoogleCallback
callback = record { code = some (codes "c"); oauth_state = some (codes "st"); denial = none }

abbrev logged_in : AuthState
logged_in = record {
  sessions = record {
    users =
        record {
          google_sub = codes "sub-a";
          email = codes "a@x";
          email_verified = true;
          created_at = codes "7";
        }
        ∷ [];
    sessions =
        record {
          token_hash = codes "t";
          created_at = codes "7";
          expires_at = codes "43207";
          google_sub = some (codes "sub-a");
        }
        ∷ [];
    faults = [];
    now = 7;
  };
  pending_oauth_states = [];
  instant = 5000;
}

succeeds :
    google_callback_route plain exchange userinfo (codes "t") callback begun
    ≡ ok (to_frontend (codes "t") 43200) logged_in
unfolding google_callback_route get ◌==◌ prune_expired statement create to_text
succeeds = refl

google_callback_route-Vouched_example : UsesUp plain exchange userinfo callback begun logged_in
google_callback_route-Vouched_example =
    google_callback_route-Vouched plain exchange userinfo (codes "t") callback begun logged_in
      (to_frontend (codes "t") 43200) succeeds

google_callback_route_once_example :
    failure (
      google_callback_route plain exchange userinfo
        (codes "u")
        (record { code = some (codes "d"); oauth_state = some (codes "st"); denial = none })
        (final (
          google_callback_route plain exchange userinfo
            (codes "t")
            (record { code = some (codes "c"); oauth_state = some (codes "st"); denial = none })
            begun)))
    ≡ some (error unauthorized "oauth_state_invalid")
google_callback_route_once_example =
    google_callback_route_once plain exchange userinfo (codes "st") (codes "t") (codes "c")
      (codes "u") (codes "d") begun

google_start_route_bounded_example :
    length (final (google_start_route true (codes "st2") begun)).pending_oauth_states ≤ 1024
google_start_route_bounded_example =
    google_start_route_bounded true (codes "st2") begun (ground arith)

logout_route_ends_session_example :
    failure
      (me_route plain (some (codes "t")) (final (logout_route plain (some (codes "t")) logged_in)))
    ≡ some (error unauthorized "not_authenticated")
logout_route_ends_session_example = logout_route_ends_session plain (codes "t") logged_in refl
