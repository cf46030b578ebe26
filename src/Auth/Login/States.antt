-- ===== src/Auth/Login/States.antt =====
-- What a login needs, and what a logout ends.
use Prim.Native.Nat.{◌≤◌}
use mathlib.Core.Path.{◌≡◌, refl}
use mathlib.Core.Logic.{inl, inr}
use mathlib.Core.Bool.{Bool, true, false}
use mathlib.Core.Option.{Option, none, some}
use native.Mathlib.Omega.{arith}
use aglack.Response.{Response}
use aglack.Prelude.Text.{Text}
use aglack.Prelude.Tests.{leb}
use aglack.Prelude.Tests.{Option-cases}
use aglack.Prelude.Tests.{Bool-cases}
use aglack.Prelude.Post.{Post}
use aglack.Prelude.Maps.{length-insert}
use aglack.Prelude.Maps.{get}
use aglack.Prelude.Lists.{length-keep}
use aglack.Prelude.Lists.{length}
use aglack.Prelude.Exec.{◌>>=◌}
use aglack.Prelude.Exec.{final}
use aglack.Prelude.Exec.{Run}
use aglack.Auth.Login.{unverified}
use aglack.Auth.Login.{retained}
use aglack.Auth.Login.{is_fresh}
use aglack.Auth.Login.{google_start_route}
use aglack.Auth.Login.{fresh_at}
use aglack.Auth.Login.{GoogleUser}
use aglack.Auth.Login.{GoogleCallback}
use aglack.Auth.Login.{AuthState}
use aglack.Auth.Login.{AuthReply}
use aglack.Auth.Login.{ask_google}
use aglack.Auth.Login.{log_in}
use aglack.Auth.Login.{ok}
use aglack.Auth.Login.{err}
use aglack.Auth.Login.{or_fails}
use aglack.Prelude.Post.{Post_of_ok}
use aglack.Auth.Login.{google_callback_route}
use aglack.Auth.Login.{with_parameters}
use aglack.Auth.Login.Replay.{callback-IsGone}

-- However many logins are begun and not finished, at most 1024 states are kept.
pub google_start_route_bounded :
    (url_parses : Bool) (oauth_state : Text) (s : AuthState)
    → length s.pending_oauth_states ≤ 1024
    → length (final (google_start_route url_parses oauth_state s)).pending_oauth_states ≤ 1024
unfolding google_start_route
google_start_route_bounded url_parses oauth_state s few =
    let fewer = length-keep (λ entry. is_fresh s.instant entry.1) s.pending_oauth_states in
    elim (Bool-cases (leb 1024 (length (retained s)))) [
      | inl full ↦ rw full (omega (arith, few, fewer))
      | inr room ↦
          let less : length (retained s) ≤ 1023 = ground (arith, room) in
          let grown = length-insert oauth_state s.instant (retained s) in
          elim (Bool-cases url_parses) [
            | inl e ↦ rw (room, e) (omega (arith, less, grown))
            | inr e ↦ rw (room, e) (omega (arith, less, grown))
          ]
    ]

module _ (sha256_hex : Text → Text) (exchange : Text → Option Text)
    (userinfo : Text → Option GoogleUser) where
  -- The state is pending, for at most ten minutes, and Google vouches, for the code, for a user
  -- with a verified email.
  pub record Vouched (callback : GoogleCallback) (s : AuthState) : Type 0 where
    pub oauth_state : Text
    pub has_state : callback.oauth_state ≡ some oauth_state
    pub fresh : fresh_at s.instant (get oauth_state s.pending_oauth_states) ≡ true
    pub code : Text
    pub has_code : callback.code ≡ some code
    pub token : Text
    pub exchanged : exchange code ≡ some token
    pub user : GoogleUser
    pub known : userinfo token ≡ some user
    pub verified : unverified user ≡ false

  ask_google-Post :
      (raw_token code : Text) (s : AuthState) (P : Type 0)
      → ((token : Text) (user : GoogleUser)
          → exchange code ≡ some token
          → userinfo token ≡ some user
          → unverified user ≡ false
          → P)
      → Post (λ _ _. P) (ask_google sha256_hex exchange userinfo raw_token code s)
  ask_google-Post raw_token code s P k = elim (Option-cases (exchange code)) [
    | inl e ↦ rw (e, ◌>>=◌, or_fails, Post) tt
    | inr (token, e) ↦ elim (Option-cases (userinfo token)) [
      | inl f ↦ rw (e, ◌>>=◌, or_fails, Post) (rw (f, ◌>>=◌, or_fails, Post) tt)
      | inr (user, f) ↦ elim (Bool-cases (unverified user)) [
        | inl g ↦ rw (e, ◌>>=◌, or_fails, Post) (rw (f, ◌>>=◌, or_fails, Post) (rw (g, Post) tt))
        | inr g ↦
            rw (e, ◌>>=◌, or_fails, Post)
              (rw (f, ◌>>=◌, or_fails, Post) (rw (g, Post) (always token user e f g)))
      ]
    ]
  ]
    where
      always :
          (token : Text) (user : GoogleUser)
          → exchange code ≡ some token
          → userinfo token ≡ some user
          → unverified user ≡ false
          → Post (λ _ _. P) (log_in sha256_hex raw_token user s)
      always token user e f g = by_run (log_in sha256_hex raw_token user s)
        where
          by_run : (r : Run AuthState Response AuthReply) → Post (λ _ _. P) r
          by_run (ok reply s') = k token user e f g
          by_run (err response s') = tt

  with_parameters-Post :
      (raw_token : Text) (callback : GoogleCallback) (code oauth_state : Option Text)
      (s : AuthState)
      → callback.code ≡ code
      → callback.oauth_state ≡ oauth_state
      → Post
          (λ _ _. Vouched callback s)
          (with_parameters sha256_hex exchange userinfo raw_token code oauth_state s)
  with_parameters-Post raw_token callback none oauth_state s has_code has_state = tt
  with_parameters-Post raw_token callback (some code) none s has_code has_state = tt
  with_parameters-Post raw_token callback (some code) (some oauth_state) s has_code has_state =
      elim (Bool-cases (fresh_at s.instant (get oauth_state s.pending_oauth_states))) [
        | inl is ↦ rw is (
            ask_google-Post raw_token code _ (Vouched callback s) λ token user e f g. record {
              oauth_state = oauth_state;
              has_state = has_state;
              fresh = is;
              code = code;
              has_code = has_code;
              token = token;
              exchanged = e;
              user = user;
              known = f;
              verified = g;
            })
        | inr isnt ↦ rw isnt tt
      ]

  -- Whose state was pending, and whose is no more.
  abbrev pub UsesUp : GoogleCallback → AuthState → AuthState → Type 0
  UsesUp callback s s' =
      (v : Vouched callback s) × (get v.oauth_state s'.pending_oauth_states ≡ none)

  asked_as :
      (callback : GoogleCallback) (s : AuthState) (v : Vouched callback s)
      → callback.denial ≡ none
      → record { code = some v.code; oauth_state = some v.oauth_state; denial = none } ≡ callback
  asked_as callback s v undenied = rw (← v.has_code, ← v.has_state, ← undenied) refl

  gone_after :
      (raw_token : Text) (callback : GoogleCallback) (s s' : AuthState) (reply : AuthReply)
      (v : Vouched callback s)
      → callback.denial ≡ none
      → google_callback_route sha256_hex exchange userinfo raw_token callback s ≡ ok reply s'
      → get v.oauth_state s'.pending_oauth_states ≡ none
  gone_after raw_token callback s s' reply v undenied e =
      rw (asked_as callback s v undenied, e) at
        (callback-IsGone sha256_hex exchange userinfo v.oauth_state raw_token v.code s)

  -- A callback that answers with a redirect and not with an error is one whose state was pending,
  -- entered at most ten minutes before, and is pending no more, and for whose code Google vouches for
  -- a user with an id and a verified email.
  pub google_callback_route-Vouched :
      (raw_token : Text) (callback : GoogleCallback) (s s' : AuthState) (reply : AuthReply)
      → google_callback_route sha256_hex exchange userinfo raw_token callback s ≡ ok reply s'
      → UsesUp callback s s'
  unfolding google_callback_route
  google_callback_route-Vouched raw_token callback s s' reply e =
      elim (Option-cases callback.denial) [
        | inr (denial, denied) ↦ absurd (cc (rw denied at e))
        | inl undenied ↦
            let v : Vouched callback s =
              Post_of_ok (λ _ _. Vouched callback s)
                (with_parameters-Post raw_token callback callback.code callback.oauth_state s refl
                  refl)
                (rw undenied at e) in
            (v, gone_after raw_token callback s s' reply v undenied e)
      ]
