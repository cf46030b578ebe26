-- ===== src/Auth/Login/Logout.antt =====
-- A logout ends the session on the server, not only in the browser.
use mathlib.Core.Path.{◌≡◌, refl}
use mathlib.Core.Bool.{false, not}
use mathlib.Core.Option.{some}
use aglack.Prelude.Exec.{ok, final, ◌>>=◌, ignore, attempt}
use aglack.Prelude.Text.{Text}
use aglack.Prelude.Lists.{keep, find?-keep-none}
use aglack.Response.{error, unauthorized}
use aglack.Auth.Login.{AuthState, on_store, logout_route, me_route}
use aglack.Auth.Login.Replay.{failure}
use aglack.Auth.Sessions.{AuthDb, has_token, delete, is_valid}
use aglack.Auth.Sessions.Lifecycle.{SessionsAnswer, statement_of_Answers}

abbrev without : Text → AuthDb → AuthDb
without token db = record db {
  sessions = keep (λ session. not (has_token token session)) db.sessions;
}

delete_of_Answers :
    (token : Text) (db : AuthDb) → SessionsAnswer db → delete token db ≡ ok tt (without token db)
unfolding delete
delete_of_Answers token db a = rw (statement_of_Answers db a, ◌>>=◌)

is_valid_of_deleted :
    (token : Text) (db : AuthDb)
    → SessionsAnswer db
    → is_valid token (without token db) ≡ ok false (without token db)
unfolding is_valid
is_valid_of_deleted token db a =
    rw (statement_of_Answers (without token db) a, ◌>>=◌)
      (rw (
        find?-keep-none (has_token token) (λ session. not (has_token token session))
          (λ session e. rw e) db.sessions))

-- After a logout, whoever still has the cookie is not authenticated by it, where the database
-- answers.
pub logout_route_ends_session :
    (sha256_hex : Text → Text) (raw_token : Text) (s : AuthState)
    → SessionsAnswer s.sessions
    → failure
        (me_route sha256_hex (some raw_token) (final (logout_route sha256_hex (some raw_token) s)))
      ≡ some (error unauthorized "not_authenticated")
unfolding logout_route me_route
logout_route_ends_session sha256_hex raw_token s a =
    rw (delete_of_Answers (sha256_hex raw_token) s.sessions a, ◌>>=◌, ignore, on_store)
      (rw (is_valid_of_deleted (sha256_hex raw_token) s.sessions a, ◌>>=◌, attempt, on_store) refl)
