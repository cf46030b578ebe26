-- ===== src/Auth/Sessions/Lifecycle.antt =====
-- A session from its creation to its end.
use mathlib.Core.Path.{◌≡◌, refl, ◌∙◌}
use mathlib.Core.Logic.{inl, inr}
use mathlib.Core.Option
use mathlib.Core.Option.{Option, none, some}
use mathlib.Core.List.{List, [], ◌∷◌, ◌++◌}
use Prim.Native.Nat.{ℕ}
use aglack.Workspaces.Db.{SqlxError}
use aglack.Prelude.Text.{Text}
use aglack.Prelude.Exec.{◌>>=◌}
use aglack.Prelude.Exec.{Run-cases}
use aglack.Prelude.Exec.{Run}
use aglack.Auth.Sessions.{user_for_token}
use aglack.Auth.Sessions.{transaction}
use aglack.Auth.Sessions.{statement}
use aglack.Auth.Sessions.{lookup}
use aglack.Auth.Sessions.{create}
use aglack.Auth.Sessions.{AuthDb}
use aglack.Auth.Sessions.{ok}
use aglack.Auth.Sessions.{err}
use mathlib.Core.Path.{sym}
use aglack.Prelude.Ends.{Ends}
use mathlib.Core.Bool.{◌&&◌}
use mathlib.Core.Bool.{true}
use mathlib.Core.Bool.{false}
use mathlib.Core.Bool.{Bool}
use aglack.Prelude.Text.{eq_refl}
use aglack.Prelude.Text.{eq_iff}
use aglack.Prelude.Tests.{if◌then◌else◌}
use aglack.Prelude.Tests.{Option-cases}
use aglack.Prelude.Tests.{Bool-cases}
use aglack.Prelude.Lists.{find?-update_where}
use aglack.Prelude.Lists.{find?-of_any}
use aglack.Prelude.Lists.{find?-append}
use aglack.Prelude.Lists.{find?}
use aglack.Prelude.Lists.{any-and}
use aglack.Prelude.Lists.{any}
use aglack.Prelude.Lists.{All-find?}
use aglack.Prelude.Lists.{All}
use aglack.Prelude.Exec.{◌>>◌}
use aglack.Prelude.Decimal.{to_text}
use aglack.Prelude.Decimal.{text_lt}
use aglack.Auth.Sessions.{user_of}
use aglack.Auth.Sessions.{upsert}
use aglack.Auth.Sessions.{new_session}
use aglack.Auth.Sessions.{is_live}
use aglack.Auth.Sessions.{has_token}
use aglack.Auth.Sessions.{has_sub}
use aglack.Auth.Sessions.{User}
use aglack.Auth.Sessions.{Session}
use aglack.Auth.Sessions.{upsert_user}
use aglack.Auth.Sessions.{unique_violation}
use aglack.Auth.Sessions.{insert_session}
use mathlib.Core.Path.{ap}
use aglack.Prelude.Post.{Post}
use aglack.Prelude.Exec.{final}
use aglack.Auth.Sessions.{statement_with}

-- The database answers every statement from here on.
abbrev pub SessionsAnswer : AuthDb → Type 0
SessionsAnswer db = db.faults ≡ []

pub statement_of_Answers : (db : AuthDb) → SessionsAnswer db → statement db ≡ ok tt db
unfolding statement
statement_of_Answers db a = rw a

tables-statement_with :
    (fs : List Bool) (db : AuthDb)
    → final (statement_with fs db) ≡ record db { faults = (final (statement_with fs db)).faults }
unfolding statement_with
tables-statement_with [] db = refl
tables-statement_with (true ∷ later) db = refl
tables-statement_with (false ∷ later) db = refl

-- What a lookup returns where it succeeds, whatever else the database does.
pub user_for_token-Post :
    (token : Text) (db : AuthDb) → Post (λ user _. user ≡ lookup token db) (user_for_token token db)
unfolding user_for_token statement
user_for_token-Post token db = elim (Run-cases (statement db)) [
  | inl (a, db', e) ↦
      let same : db' ≡ record db { faults = db'.faults } =
        rw e at (tables-statement_with db.faults db) in
      rw (e, ◌>>=◌, Post) (ap (lookup token) same)
  | inr (x, db', e) ↦ rw (e, ◌>>=◌, Post) tt
]

pub user_for_token_of_Answers :
    (token : Text) (db : AuthDb)
    → SessionsAnswer db
    → user_for_token token db ≡ ok (lookup token db) db
unfolding user_for_token
user_for_token_of_Answers token db a = rw (statement_of_Answers db a, ◌>>=◌)

-- The tables after a creation: both rows are there.
abbrev pub BothWritten : Text → Text → Text → Text → AuthDb → AuthDb → Type 0
BothWritten token expires sub email db db' =
    (db'.users ≡ upsert sub email (to_text db.now) db.users)
    × (db'.sessions ≡ db.sessions ++ new_session token (to_text db.now) expires sub ∷ [])
    × (any (has_token token) db.sessions ≡ false)

abbrev pub Unwritten : AuthDb → AuthDb → Type 0
Unwritten db db' = (db'.users ≡ db.users) × (db'.sessions ≡ db.sessions) × (db'.now ≡ db.now)

-- The user that a login leaves behind.
upsert-user_of :
    (sub email now : Text) (users : List User)
    → Option.map user_of (find? (has_sub sub) (upsert sub email now users))
      ≡ some (record { google_sub = sub; email = email })
upsert-user_of sub email now users = elim (Bool-cases (any (has_sub sub) users)) [
  | inl known ↦ rw known (
      rw
        (find?-update_where (has_sub sub)
          (λ user. record user { email = email; email_verified = true }) users (λ x. refl))
        (elim (Option-cases (find? (has_sub sub) users)) [
          | inl missing ↦ absurd (find?-of_any (has_sub sub) users known missing)
          | inr (user, found) ↦
              let is = (All-find? (λ _. Unit {0}) (has_sub sub) users found (all_unit users)).1 in
              let same : user.google_sub ≡ sub = (eq_iff user.google_sub sub).0 is in
              rw found (rw same refl)
        ]))
  | inr new ↦ rw new (rw (find?-append (has_sub sub) users _ new) (rw (eq_refl sub) refl))
]
  where
    all_unit : (xs : List User) → All (λ _. Unit {0}) xs
    all_unit [] = tt
    all_unit (x ∷ xs) = (tt, all_unit xs)

-- The tables after a creation that succeeds.
abbrev created : Text → Text → Text → Text → AuthDb → AuthDb
created token expires sub email db = record db {
  users = upsert sub email (to_text db.now) db.users;
  sessions = db.sessions ++ new_session token (to_text db.now) expires sub ∷ [];
}

upsert_user_of_Answers :
    (sub email : Text) (db : AuthDb)
    → SessionsAnswer db
    → upsert_user sub email db
      ≡ ok tt (record db { users = upsert sub email (to_text db.now) db.users })
unfolding upsert_user
upsert_user_of_Answers sub email db a = rw (statement_of_Answers db a, ◌>>=◌)

insert_session_of_Answers :
    (token expires sub : Text) (db : AuthDb)
    → SessionsAnswer db
    → insert_session token expires sub db ≡ (
        if any (has_token token) db.sessions
        then err unique_violation db
        else ok tt (record db {
          sessions = db.sessions ++ new_session token (to_text db.now) expires sub ∷ [];
        }))
unfolding insert_session
insert_session_of_Answers token expires sub db a =
    rw (statement_of_Answers db a, ◌>>=◌)
      (elim (Bool-cases (any (has_token token) db.sessions)) [
        | inl taken ↦ rw taken
        | inr free ↦ rw free
      ])

create_of_Answers :
    (token expires sub email : Text) (db : AuthDb)
    → SessionsAnswer db
    → create token expires sub email db ≡ (
        if any (has_token token) db.sessions
        then err unique_violation db
        else ok tt (created token expires sub email db))
unfolding create
create_of_Answers token expires sub email db a =
    let mid : AuthDb = record db { users = upsert sub email (to_text db.now) db.users } in
    let inserts = insert_session_of_Answers token expires sub mid a in
    rw (statement_of_Answers db a, ◌>>=◌, ◌>>◌, transaction)
      (rw (upsert_user_of_Answers sub email db a, ◌>>=◌, ◌>>◌, transaction)
        (elim (Bool-cases (any (has_token token) db.sessions)) [
          | inl taken ↦ rw (rw taken at inserts, taken, ◌>>=◌, ◌>>◌, transaction)
          | inr free ↦
              rw (rw free at inserts, free, ◌>>=◌, ◌>>◌, transaction)
                (rw (
                  statement_of_Answers (created token expires sub email db) a,
                  ◌>>=◌,
                  ◌>>◌,
                  transaction,
                ))
        ]))

lookup_of_created :
    (token expires sub email : Text) (db : AuthDb) (t : ℕ)
    → any (has_token token) db.sessions ≡ false
    → lookup token (record (created token expires sub email db) { now = t }) ≡ (
        if text_lt (to_text t) expires
        then some (record { google_sub = sub; email = email })
        else none)
lookup_of_created token expires sub email db t free =
    let p : Session → Bool = λ session. has_token token session && is_live t session in
    let new = new_session token (to_text db.now) expires sub in
    rw
      (find?-append p db.sessions (new ∷ [])
        (any-and (has_token token) (is_live t) db.sessions free))
      (rw (eq_refl token) (elim (Bool-cases (text_lt (to_text t) expires)) [
        | inl live ↦ rw live (upsert-user_of sub email (to_text db.now) db.users)
        | inr over ↦ rw over
      ]))

-- A session that was created, at a database that answers, is its user's at every later clock before
-- `expires`, with the email of this login, and nobody's from `expires` on (clocks and `expires`
-- compare as the strings that the table holds).
pub create_then_user_for_token :
    (token expires sub email : Text) (t : ℕ) (db db' : AuthDb)
    → SessionsAnswer db
    → create token expires sub email db ≡ ok tt db'
    → user_for_token token (record db' { now = t })
      ≡ ok
          (if text_lt (to_text t) expires
            then some (record { google_sub = sub; email = email })
            else none)
          (record db' { now = t })
create_then_user_for_token token expires sub email t db db' a e =
    elim (Bool-cases (any (has_token token) db.sessions)) [
      | inl taken ↦
          absurd (cc (rw taken at (sym (create_of_Answers token expires sub email db a) ∙ e)))
      | inr free ↦
          let done : ◌≡◌ {A = Run AuthDb SqlxError (Unit {0})}
              (ok tt (created token expires sub email db)) (ok tt db') =
            rw free at (sym (create_of_Answers token expires sub email db a) ∙ e) in
          let same : created token expires sub email db ≡ db' = cc in
          rw (← same) (
            user_for_token_of_Answers token
              (record (created token expires sub email db) { now = t }) a
            ∙ rw (lookup_of_created token expires sub email db t free))
    ]
