-- ===== src/Auth/Middleware/Admission.antt =====
-- Which requests `require_session` lets through.
use mathlib.Core.Path.{◌≡◌, refl}
use mathlib.Core.Logic.{inl, inr}
use mathlib.Core.Bool.{Bool, true, false}
use mathlib.Core.Option.{Option, none, some}
use mathlib.Core.List.{List}
use mathlib.Core.Path.{sym}
use mathlib.Core.Path.{subst}
use mathlib.Core.Path.{ap}
use aglack.Workspaces.Rows.{Row}
use aglack.Workspaces.Db.{rows-query}
use aglack.Workspaces.Db.{query}
use aglack.Workspaces.Db.{Db}
use aglack.Response.{Response}
use aglack.Prelude.Text.{Text}
use aglack.Prelude.Tests.{Bool-cases}
use aglack.Prelude.Post.{Post_of_ok}
use aglack.Prelude.Post.{Post->>=}
use aglack.Prelude.Post.{Post}
use aglack.Prelude.Lists.{any}
use aglack.Prelude.Exec.{◌>>=◌}
use aglack.Prelude.Exec.{pure}
use aglack.Prelude.Exec.{attempt}
use aglack.Prelude.Exec.{Run-cases}
use aglack.Prelude.Exec.{Run}
use aglack.Auth.Sessions.Lifecycle.{user_for_token-Post}
use aglack.Auth.Sessions.{user_for_token}
use aglack.Auth.Sessions.{lookup}
use aglack.Auth.Sessions.{AuthenticatedUser}
use aglack.Auth.Sessions.{AuthDb}
use aglack.Auth.Paths.{workspace_id_from_path}
use aglack.Auth.Paths.{is_exempt}
use aglack.Auth.Middleware.{require_session}
use aglack.Auth.Middleware.{read_session_cookie}
use aglack.Auth.Middleware.{owned_by}
use aglack.Auth.Middleware.{Request}
use aglack.Auth.Middleware.{Gate}
use aglack.Auth.Middleware.{owns}
use aglack.Auth.Middleware.{ok}
use aglack.Auth.Middleware.{check_token}
use aglack.Auth.Middleware.{check_path}
use aglack.Auth.Middleware.{check_user}
use aglack.Auth.Middleware.{check_owned}
use aglack.Auth.Middleware.{good}
use aglack.Auth.Middleware.{on_workspaces}
use aglack.Auth.Middleware.{on_sessions}
use aglack.Workspaces.Writes.Outcomes.{query_of_Answers}
use aglack.Workspaces.Writes.Outcomes.{Answers}
use aglack.Auth.Sessions.Lifecycle.{user_for_token_of_Answers}
use aglack.Auth.Sessions.Lifecycle.{SessionsAnswer}

-- The path names no workspace, or one that a row gives to the user.
pub data MayUse (rows : List Row) (sub : Text) : Option Text → Type 0 where
  no_workspace : MayUse rows sub none
  owned : {id : Text} → any (owned_by id sub) rows ≡ true → MayUse rows sub (some id)

module _ (split_parse : Text → List (Text × Text)) (sha256_hex : Text → Text) where
  -- A request is let through without a user where its path is exempt, and else with the user of the
  -- live session that its cookie names, who may use the path's workspace.
  pub data Admitted (request : Request) (g : Gate) : Option AuthenticatedUser → Type 0 where
    exempt : is_exempt request.path ≡ true → Admitted request g none
    session :
        {raw_token : Text} {user : AuthenticatedUser}
        → is_exempt request.path ≡ false
        → read_session_cookie split_parse sha256_hex request.cookie ≡ some raw_token
        → lookup (sha256_hex raw_token) g.auth ≡ some user
        → MayUse g.workspaces.rows user.google_sub (workspace_id_from_path request.path)
        → Admitted request g (some user)

  owns-Post :
      (id sub : Text) (db : Db)
      → Post (λ found _. found ≡ any (owned_by id sub) db.rows) (owns id sub db)
  unfolding owns
  owns-Post id sub db = elim (Run-cases (query db)) [
    | inl (a, db', e) ↦ rw (e, ◌>>=◌, Post) (ap (any (owned_by id sub)) (rw e at (rows-query db)))
    | inr (x, db', e) ↦ rw (e, ◌>>=◌, Post) tt
  ]

  check_path-Post :
      (path : Option Text) (user : AuthenticatedUser) (g : Gate)
      → Post (λ _ _. MayUse g.workspaces.rows user.google_sub path) (check_path path user g)
  check_path-Post none user g = no_workspace
  check_path-Post (some id) user g = elim (Run-cases (owns id user.google_sub g.workspaces)) [
    | inl (found, db, e) ↦
        let is : found ≡ any (owned_by id user.google_sub) g.workspaces.rows =
          rw (e, Post) at (owns-Post id user.google_sub g.workspaces) in
        rw (e, ◌>>=◌, attempt, on_workspaces, Post) (by_found found db is)
    | inr (x, db, e) ↦ rw (e, ◌>>=◌, attempt, on_workspaces, Post) tt
  ]
    where
      by_found :
          (found : Bool) (db : Db)
          → found ≡ any (owned_by id user.google_sub) g.workspaces.rows
          → Post
              (λ _ _. MayUse g.workspaces.rows user.google_sub (some id))
              (check_owned (good found) (record g { workspaces = db }))
      by_found true db is = owned (sym is)
      by_found false db is = tt

  check_token-Post :
      (request : Request) (raw : Option Text) (g : Gate)
      → is_exempt request.path ≡ false
      → read_session_cookie split_parse sha256_hex request.cookie ≡ raw
      → Post
          (λ user _. Admitted request g user)
          (check_token split_parse sha256_hex request.path raw g)
  check_token-Post request none g guarded cookie = tt
  check_token-Post request (some raw) g guarded cookie =
      elim (Run-cases (user_for_token (sha256_hex raw) g.auth)) [
        | inl (user, auth, e) ↦
            let is : user ≡ lookup (sha256_hex raw) g.auth =
              rw (e, Post) at (user_for_token-Post (sha256_hex raw) g.auth) in
            rw (e, ◌>>=◌, attempt, on_sessions, Post) (by_user user auth is)
        | inr (x, auth, e) ↦ rw (e, ◌>>=◌, attempt, on_sessions, Post) tt
      ]
    where
      by_user :
          (user : Option AuthenticatedUser) (auth : AuthDb)
          → user ≡ lookup (sha256_hex raw) g.auth
          → Post
              (λ user _. Admitted request g user)
              (check_user request.path (good user) (record g { auth = auth }))
      by_user none auth is = tt
      by_user (some user) auth is =
          let path = workspace_id_from_path request.path in
          Post->>= (λ _ _. MayUse g.workspaces.rows user.google_sub path)
            (λ user _. Admitted request g user) (check_path path user) (λ _. pure (some user))
            (record g { auth = auth }) (check_path-Post path user (record g { auth = auth }))
            (λ _ _ may. session guarded cookie (sym is) may)

  -- A request that reaches the handlers is one whose path is exempt, or one whose session cookie
  -- names a live session, with that session's user, and whose path names no workspace or one that
  -- the user owns. This holds whatever the two databases answer.
  pub require_session-Admitted :
      (request : Request) (g g' : Gate) (user : Option AuthenticatedUser)
      → require_session split_parse sha256_hex request g ≡ ok user g'
      → Admitted request g user
  unfolding require_session
  require_session-Admitted request g g' user e = elim (Bool-cases (is_exempt request.path)) [
    | inl free ↦
        let done : ◌≡◌ {A = Run Gate Response (Option AuthenticatedUser)} (ok none g) (ok user g') =
          rw free at e in
        let is : none ≡ user = cc in subst (Admitted request g) is (exempt free)
    | inr guarded ↦
        Post_of_ok (λ user _. Admitted request g user)
          (check_token-Post request (read_session_cookie split_parse sha256_hex request.cookie) g
            guarded refl)
          (rw guarded at e)
  ]

  owns_of_Answers :
      (id sub : Text) (db : Db)
      → Answers db
      → owns id sub db ≡ ok (any (owned_by id sub) db.rows) db
  unfolding owns
  owns_of_Answers id sub db a = rw (query_of_Answers db a, ◌>>=◌)

  check_path_of_MayUse :
      (path : Option Text) (user : AuthenticatedUser) (g : Gate)
      → Answers g.workspaces
      → MayUse g.workspaces.rows user.google_sub path
      → check_path path user g ≡ ok tt g
  check_path_of_MayUse none user g a no_workspace = refl
  check_path_of_MayUse (some id) user g a (owned is) =
      rw (owns_of_Answers id user.google_sub g.workspaces a, ◌>>=◌, attempt, on_workspaces)
        (rw is refl)

  -- Where both databases answer, no request that may pass is turned away, and both tables stay as
  -- they are.
  pub require_session_of_Admitted :
      (request : Request) (g : Gate) (user : Option AuthenticatedUser)
      → SessionsAnswer g.auth
      → Answers g.workspaces
      → Admitted request g user
      → require_session split_parse sha256_hex request g ≡ ok user g
  unfolding require_session
  require_session_of_Admitted request g user a b (exempt free) = rw free refl
  require_session_of_Admitted request g user a b
        (session {raw_token = raw} {user = u} guarded cookie live may) =
      rw guarded (
        rw cookie (
          rw (user_for_token_of_Answers (sha256_hex raw) g.auth a, ◌>>=◌, attempt, on_sessions)
            (rw live (
              rw (check_path_of_MayUse (workspace_id_from_path request.path) u g b may, ◌>>=◌)
                refl))))
