-- ===== src/Auth/Sessions.antt =====
-- auth/store.rs: `SessionStore`, over the tables `gateway_users` and `gateway_sessions` (migrations
-- 0006, 0010). As for the workspaces, a statement is its list operation, and `faults` says which
-- statements fail.

pub mod Lifecycle
pub mod Ending
use Prim.Native.Nat.{ℕ}
use mathlib.Core.Bool.{Bool, true, false}
use mathlib.Core.Option
use mathlib.Core.Option.{Option, none, some}
use mathlib.Core.List.{List, [], ◌∷◌, ◌++◌}
use mathlib.Core.Bool.{◌&&◌}
use mathlib.Core.Bool.{not}
use aglack.Workspaces.Db.{SqlxError}
use aglack.Prelude.Text.{◌==◌}
use aglack.Prelude.Text.{Text}
use aglack.Prelude.Tests.{if◌then◌else◌}
use aglack.Prelude.Lists.{update_where}
use aglack.Prelude.Lists.{keep}
use aglack.Prelude.Lists.{find?}
use aglack.Prelude.Lists.{any}
use aglack.Prelude.Exec.{◌>>◌}
use aglack.Prelude.Exec.{◌>>=◌}
use aglack.Prelude.Exec.{throw}
use aglack.Prelude.Exec.{put_state}
use aglack.Prelude.Exec.{pure}
use aglack.Prelude.Exec.{get_state}
use aglack.Prelude.Exec.{Exec}
use aglack.Prelude.Decimal.{to_text}
use aglack.Prelude.Decimal.{text_lt}
use aglack.Workspaces.Db.{unique_violation}
use aglack.Prelude.Exec.{ok}
use aglack.Prelude.Exec.{err}
use aglack.Workspaces.Db.{database}

pub record User : Type 0 where
  pub google_sub : Text
  pub email : Text
  pub email_verified : Bool
  pub created_at : Text

-- `google_sub` is null in the rows that are older than its column.
pub record Session : Type 0 where
  pub token_hash : Text
  pub created_at : Text
  pub expires_at : Text
  pub google_sub : Option Text

pub record AuthDb : Type 0 where
  pub users : List User
  pub sessions : List Session
  pub faults : List Bool
  pub now : ℕ

pub record AuthenticatedUser : Type 0 where
  pub google_sub : Text
  pub email : Text

abbrev pub SessionM : Type 0 → Type 0
SessionM A = Exec AuthDb SqlxError A

statement_with : List Bool → SessionM (Unit {0})
statement_with [] db = ok tt db
statement_with (true ∷ later) db = err database (record db { faults = later })
statement_with (false ∷ later) db = ok tt (record db { faults = later })

unfoldable pub statement : SessionM (Unit {0})
unfolding statement_with
statement db = statement_with db.faults db

-- A transaction that is dropped before its `commit` is rolled back.
abbrev pub transaction : {A : Type 0} → SessionM A → SessionM A
transaction m db = elim (m db) [
  | ok a db' ↦ ok a db'
  | err e db' ↦ err e (record db { faults = db'.faults })
]

abbrev pub has_sub : Text → User → Bool
has_sub sub user = user.google_sub == sub

abbrev pub has_token : Text → Session → Bool
has_token token session = session.token_hash == token

-- `INSERT … ON CONFLICT(google_sub) DO UPDATE`.
abbrev pub upsert : Text → Text → Text → List User → List User
upsert sub email now users =
    if any (has_sub sub) users
    then update_where (has_sub sub) (λ user. record user { email = email; email_verified = true })
        users
    else users
      ++ record { google_sub = sub; email = email; email_verified = true; created_at = now } ∷ []

abbrev pub new_session : Text → Text → Text → Text → Session
new_session token now expires sub = record {
  token_hash = token;
  created_at = now;
  expires_at = expires;
  google_sub = some sub;
}

upsert_user : Text → Text → SessionM (Unit {0})
upsert_user sub email = do
  statement
  db ← get_state
  put_state (record db { users = upsert sub email (to_text db.now) db.users })

-- The primary key refuses a token that has a session.
insert_session : Text → Text → Text → SessionM (Unit {0})
insert_session token expires sub = do
  statement
  db ← get_state
  if any (has_token token) db.sessions
      then throw unique_violation
      else put_state (record db {
        sessions = db.sessions ++ new_session token (to_text db.now) expires sub ∷ [];
      })

-- `begin` and `commit` are statements too.
unfoldable pub create : Text → Text → Text → Text → SessionM (Unit {0})
unfolding upsert_user insert_session
create token expires sub email =
    transaction do statement; upsert_user sub email; insert_session token expires sub; statement

-- `expires_at > now()`
abbrev pub is_live : ℕ → Session → Bool
is_live now session = text_lt (to_text now) session.expires_at

abbrev valid_at : ℕ → Option Session → Bool
valid_at now none = false
valid_at now (some session) = is_live now session

unfoldable pub is_valid : Text → SessionM Bool
is_valid token = do
  statement
  db ← get_state
  pure (valid_at db.now (find? (has_token token) db.sessions))

abbrev pub user_of : User → AuthenticatedUser
user_of user = record { google_sub = user.google_sub; email = user.email }

-- The `JOIN`: a null `google_sub` equals no user's.
abbrev pub user_with : List User → Option Text → Option AuthenticatedUser
user_with users none = none
user_with users (some sub) = Option.map user_of (find? (has_sub sub) users)

abbrev pub joined : List User → Option Session → Option AuthenticatedUser
joined users none = none
joined users (some session) = user_with users session.google_sub

-- At most one session has the token, as it is the primary key.
abbrev pub lookup : Text → AuthDb → Option AuthenticatedUser
lookup token db =
    joined db.users
      (find? (λ session. has_token token session && is_live db.now session) db.sessions)

unfoldable pub user_for_token : Text → SessionM (Option AuthenticatedUser)
user_for_token token = do statement; db ← get_state; pure (lookup token db)

unfoldable pub delete : Text → SessionM (Unit {0})
delete token = do
  statement
  db ← get_state
  put_state (record db { sessions = keep (λ session. not (has_token token session)) db.sessions })

-- `WHERE expires_at <= now`
unfoldable pub prune_expired : SessionM (Unit {0})
prune_expired = do
  statement
  db ← get_state
  put_state (record db { sessions = keep (λ session. is_live db.now session) db.sessions })
