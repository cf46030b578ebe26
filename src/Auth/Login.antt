-- ===== src/Auth/Login.antt =====
-- auth/route.rs: login with Google, logout and `me`. The two requests to Google are parameters, as are
-- SHA-256 and the cookie parser; a UUID that the code draws is an argument.
pub mod States
pub mod Replay
pub mod Logout
pub mod Examples
use Prim.Native.Nat.{ℕ, ◌+◌, ◌-◌}
use mathlib.Core.Bool.{Bool, true, false, not, ◌||◌}
use mathlib.Core.Option
use mathlib.Core.Option.{Option, none, some}
use mathlib.Core.List.{List, [], ◌∷◌}
use aglack.Response.{
  Response, error, bad_request, unauthorized, too_many_requests, internal_server_error, bad_gateway,
}
use aglack.Workspaces.Db.{SqlxError}
use aglack.Prelude.Text.{◌==◌}
use aglack.Prelude.Text.{Text}
use aglack.Prelude.Tests.{leb}
use aglack.Prelude.Tests.{if◌then◌else◌}
use aglack.Prelude.Maps.{insert}
use aglack.Prelude.Maps.{get}
use aglack.Prelude.Lists.{length}
use aglack.Prelude.Lists.{keep}
use aglack.Prelude.Lists.{is_some}
use aglack.Prelude.Exec.{◌>>◌}
use aglack.Prelude.Exec.{◌>>=◌}
use aglack.Prelude.Exec.{throw}
use aglack.Prelude.Exec.{pure}
use aglack.Prelude.Exec.{ignore}
use aglack.Prelude.Exec.{attempt}
use aglack.Prelude.Exec.{Result}
use aglack.Prelude.Exec.{Exec}
use aglack.Prelude.Decimal.{to_text}
use aglack.Auth.Sessions.{prune_expired}
use aglack.Auth.Sessions.{is_valid}
use aglack.Auth.Sessions.{delete}
use aglack.Auth.Sessions.{create}
use aglack.Auth.Sessions.{SessionM}
use aglack.Auth.Sessions.{AuthDb}
use aglack.Prelude.Exec.{ok}
use aglack.Prelude.Exec.{good}
use aglack.Prelude.Exec.{err}
use aglack.Prelude.Exec.{bad}

abbrev pub session_lifetime_secs : ℕ
session_lifetime_secs = 43200

-- In milliseconds.
abbrev pub oauth_state_lifetime : ℕ
oauth_state_lifetime = 600000

abbrev pub max_pending_oauth_states : ℕ
max_pending_oauth_states = 1024

-- Less the configuration. `instant` is the monotonic clock in milliseconds; the database has the other clock.
pub record AuthState : Type 0 where
  pub sessions : AuthDb
  pub pending_oauth_states : List (Text × ℕ)
  pub instant : ℕ

pub record GoogleUser : Type 0 where
  pub sub : Text
  pub email : Text
  pub email_verified : Bool

-- The query's `code`, `state` and `error`.
pub record GoogleCallback : Type 0 where
  pub code : Option Text
  pub oauth_state : Option Text
  pub denial : Option Text

-- What a route answers if it is not an error: a redirect to Google that carries a state, one to the
-- frontend that sets the session's cookie, or a success with or without the cookie's removal.
pub data AuthReply : Type 0 where
  to_google : (oauth_state : Text) → AuthReply
  to_frontend : (session : Text) (max_age_secs : ℕ) → AuthReply
  logged_out authenticated : AuthReply

abbrev pub AuthM : Type 0 → Type 0
AuthM A = Exec AuthState Response A

abbrev pub on_store : {A : Type 0} → SessionM A → Exec AuthState SqlxError A
on_store m s = elim (m s.sessions) [
  | ok a db ↦ ok a (record s { sessions = db })
  | err e db ↦ err e (record s { sessions = db })
]

abbrev pub is_fresh : ℕ → ℕ → Bool
is_fresh instant created = leb (instant - created) oauth_state_lifetime

-- `retain`
abbrev pub retained : AuthState → List (Text × ℕ)
retained s = keep (λ entry. is_fresh s.instant entry.1) s.pending_oauth_states

-- `url_parses`: the configured authorize URL is one.
unfoldable pub google_start_route : Bool → Text → AuthM AuthReply
google_start_route url_parses oauth_state s =
    if leb max_pending_oauth_states (length (retained s))
    then err (error too_many_requests "oauth_start_rate_limited")
        (record s { pending_oauth_states = retained s })
    else (let s' : AuthState = record s {
      pending_oauth_states = insert oauth_state s.instant (retained s);
    } in
        if url_parses
        then ok (to_google oauth_state) s'
        else err (error internal_server_error "oauth_config_invalid") s')

abbrev pub fresh_at : ℕ → Option ℕ → Bool
fresh_at instant none = false
fresh_at instant (some created) = is_fresh instant created

-- `remove`, and whether what was removed is fresh.
abbrev pub take_state : Text → AuthM Bool
take_state oauth_state s =
    ok (fresh_at s.instant (get oauth_state s.pending_oauth_states)) (record s {
      pending_oauth_states = keep (λ entry. not (entry.0 == oauth_state)) s.pending_oauth_states;
    })

abbrev is_empty : Text → Bool
is_empty [] = true
is_empty (c ∷ s) = false

abbrev pub unverified : GoogleUser → Bool
unverified user = not user.email_verified || is_empty user.sub || is_empty user.email

-- The response, or the error, of the session's creation.
abbrev after_create : Text → Result SqlxError (Unit {0}) → AuthM AuthReply
after_create raw_token (good done) = pure (to_frontend raw_token session_lifetime_secs)
after_create raw_token (bad e) = throw (error internal_server_error "session_store_failed")

abbrev or_fails : {A : Type 0} → Response → Option A → AuthM A
or_fails response none = throw response
or_fails response (some a) = pure a

abbrev get_now : AuthM ℕ
get_now s = ok s.sessions.now s

module _ (sha256_hex : Text → Text) where
  -- From a verified user to a session.
  log_in : Text → GoogleUser → AuthM AuthReply
  log_in raw_token user = do
    ignore (on_store prune_expired)
    now ← get_now
    created ← attempt (
        on_store (
          create (sha256_hex raw_token) (to_text (now + session_lifetime_secs)) user.sub
            user.email))
    after_create raw_token created

  abbrev check_google_user : Text → GoogleUser → AuthM AuthReply
  check_google_user raw_token user =
      if unverified user
      then throw (error unauthorized "google_email_unverified")
      else log_in raw_token user

  -- `exchange` is the token that Google gives for a code, `userinfo` what it says of a token's owner;
  -- `none` is every way in which the request, its status or its body can be wrong.
  module _ (exchange : Text → Option Text) (userinfo : Text → Option GoogleUser) where
    abbrev ask_google : Text → Text → AuthM AuthReply
    ask_google raw_token code = do
      token ← or_fails (error bad_gateway "oauth_exchange_failed") (exchange code)
      user ← or_fails (error bad_gateway "oauth_userinfo_failed") (userinfo token)
      check_google_user raw_token user

    abbrev with_parameters : Text → Option Text → Option Text → AuthM AuthReply
    with_parameters raw_token (some code) (some oauth_state) = do
      fresh ← take_state oauth_state
      if fresh then ask_google raw_token code else throw (error unauthorized "oauth_state_invalid")
    with_parameters raw_token _ _ = throw (error bad_request "oauth_callback_invalid")

    unfoldable pub google_callback_route : Text → GoogleCallback → AuthM AuthReply
    unfolding log_in
    google_callback_route raw_token callback =
        if is_some callback.denial
        then throw (error unauthorized "oauth_denied")
        else with_parameters raw_token callback.code callback.oauth_state

-- `raw_token` is what `read_session_cookie` finds.
module _ (sha256_hex : Text → Text) where
  abbrev delete_session : Option Text → AuthM (Unit {0})
  delete_session none = pure tt
  delete_session (some raw_token) = ignore (on_store (delete (sha256_hex raw_token)))

  unfoldable pub logout_route : Option Text → AuthM AuthReply
  logout_route raw_token = do delete_session raw_token; pure logged_out

  abbrev after_is_valid : Result SqlxError Bool → AuthM AuthReply
  after_is_valid (good true) = pure authenticated
  after_is_valid _ = throw (error unauthorized "not_authenticated")

  unfoldable pub me_route : Option Text → AuthM AuthReply
  me_route none = throw (error unauthorized "not_authenticated")
  me_route (some raw_token) = do
    valid ← attempt (on_store (is_valid (sha256_hex raw_token)))
    after_is_valid valid
