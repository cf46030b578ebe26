-- ===== src/Auth/Sessions/Ending.antt =====
-- How a session ends: by a logout, or by its time.
use mathlib.Core.Path.{◌≡◌, ◌∙◌}
use mathlib.Core.Logic.{inl, inr}
use mathlib.Core.Option.{Option, none}
use aglack.Workspaces.Db.{SqlxError}
use aglack.Prelude.Text.{Text}
use aglack.Prelude.Exec.{◌>>=◌}
use aglack.Prelude.Exec.{Run}
use aglack.Auth.Sessions.{user_for_token}
use aglack.Auth.Sessions.{lookup}
use aglack.Auth.Sessions.{AuthDb}
use aglack.Auth.Sessions.{ok}
use mathlib.Core.Path.{sym}
use mathlib.Core.Bool.{◌&&◌}
use mathlib.Core.Bool.{Bool}
use aglack.Prelude.Text.{eq_iff}
use aglack.Prelude.Tests.{if◌then◌else◌}
use aglack.Prelude.Tests.{Bool-cases}
use aglack.Auth.Sessions.{is_live}
use aglack.Auth.Sessions.{has_token}
use aglack.Auth.Sessions.{Session}
use native.Mathlib.Omega.{arith}
use mathlib.Core.Bool.{not}
use aglack.Prelude.Text.{◌==◌}
use aglack.Prelude.Lists.{keep}
use aglack.Prelude.Lists.{find?-keep-none}
use aglack.Prelude.Lists.{find?-keep}
use aglack.Auth.Sessions.{prune_expired}
use aglack.Auth.Sessions.{delete}
use aglack.Auth.Sessions.{AuthenticatedUser}
use aglack.Auth.Sessions.Lifecycle.{SessionsAnswer, statement_of_Answers, user_for_token_of_Answers}

-- Logging out ends the session that it names and no other: whatever a token gave before, it gives
-- nothing if it is the deleted one, and the same as before if it is not.
pub delete_then_user_for_token :
    (token other : Text) (db db' : AuthDb) (user : Option AuthenticatedUser)
    → SessionsAnswer db
    → delete token db ≡ ok tt db'
    → user_for_token other db ≡ ok user db
    → user_for_token other db' ≡ ok (if other == token then none else user) db'
unfolding delete
delete_then_user_for_token token other db db' user a e before =
    let kept : AuthDb = record db {
      sessions = keep (λ session. not (has_token token session)) db.sessions;
    } in
    let done : ◌≡◌ {A = Run AuthDb SqlxError (Unit {0})} (ok tt kept) (ok tt db') =
      rw (statement_of_Answers db a, ◌>>=◌) at e in
    let same : kept ≡ db' = cc in
    let looked : ◌≡◌ {A = Run AuthDb SqlxError (Option AuthenticatedUser)} (ok (lookup other db) db)
        (ok user db) =
      sym (user_for_token_of_Answers other db a) ∙ before in
    let is_user : lookup other db ≡ user = cc in
    let p : Session → Bool = λ session. has_token other session && is_live db.now session in
    rw (← same) (
      user_for_token_of_Answers other kept a ∙ (elim (Bool-cases (other == token)) [
        | inl is ↦
            rw
              (find?-keep-none p (λ session. not (has_token token session))
                (λ session h. ground (
                  arith,
                  eq_iff session.token_hash token,
                  eq_iff session.token_hash other,
                  eq_iff other token,
                ))
                db.sessions)
              (rw is)
        | inr isnt ↦
            rw
              (find?-keep p (λ session. not (has_token token session))
                (λ session h. ground (
                  arith,
                  isnt,
                  eq_iff session.token_hash token,
                  eq_iff session.token_hash other,
                  eq_iff other token,
                ))
                db.sessions)
              (rw isnt (cc is_user))
      ]))

-- Pruning is invisible: it drops only sessions that would not be found any more.
pub prune_then_user_for_token :
    (token : Text) (db db' : AuthDb) (user : Option AuthenticatedUser)
    → SessionsAnswer db
    → prune_expired db ≡ ok tt db'
    → user_for_token token db ≡ ok user db
    → user_for_token token db' ≡ ok user db'
unfolding prune_expired
prune_then_user_for_token token db db' user a e before =
    let kept : AuthDb = record db {
      sessions = keep (λ session. is_live db.now session) db.sessions;
    } in
    let done : ◌≡◌ {A = Run AuthDb SqlxError (Unit {0})} (ok tt kept) (ok tt db') =
      rw (statement_of_Answers db a, ◌>>=◌) at e in
    let same : kept ≡ db' = cc in
    let looked : ◌≡◌ {A = Run AuthDb SqlxError (Option AuthenticatedUser)} (ok (lookup token db) db)
        (ok user db) =
      sym (user_for_token_of_Answers token db a) ∙ before in
    let is_user : lookup token db ≡ user = cc in
    let p : Session → Bool = λ session. has_token token session && is_live db.now session in
    rw (← same) (
      user_for_token_of_Answers token kept a
      ∙ rw
          (find?-keep p (λ session. is_live db.now session) (λ session h. ground (arith, h))
            db.sessions)
          (cc is_user))
