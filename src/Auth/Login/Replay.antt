-- ===== src/Auth/Login/Replay.antt =====
-- An OAuth state can be used once.
use Prim.Native.Nat.{ℕ, ◌+◌}
use mathlib.Core.Path.{◌≡◌, refl}
use mathlib.Core.Logic.{inl, inr}
use mathlib.Core.Bool.{not}
use mathlib.Core.Option.{Option, none, some}
use aglack.Response.{Response, error, unauthorized}
use aglack.Auth.Login.{on_store}
use aglack.Workspaces.Db.{SqlxError}
use aglack.Prelude.Text.{◌==◌}
use aglack.Prelude.Text.{Text}
use aglack.Prelude.Maps.{get-keep-not}
use aglack.Prelude.Maps.{get}
use aglack.Prelude.Lists.{keep}
use aglack.Prelude.Keeps.{Keeps-ignore}
use aglack.Prelude.Keeps.{Keeps-if}
use aglack.Prelude.Keeps.{Keeps-attempt}
use aglack.Prelude.Keeps.{Keeps->>=}
use aglack.Prelude.Keeps.{Keeps}
use aglack.Prelude.Exec.{◌>>=◌}
use aglack.Prelude.Exec.{throw}
use aglack.Prelude.Exec.{ignore}
use aglack.Prelude.Exec.{final}
use aglack.Prelude.Exec.{attempt}
use aglack.Prelude.Exec.{Run-cases}
use aglack.Prelude.Exec.{Run}
use aglack.Prelude.Exec.{Result}
use aglack.Prelude.Decimal.{to_text}
use aglack.Auth.Sessions.{prune_expired}
use aglack.Auth.Sessions.{create}
use aglack.Auth.Sessions.{SessionM}
use aglack.Auth.Login.{unverified}
use aglack.Auth.Login.{google_callback_route}
use aglack.Auth.Login.{fresh_at}
use aglack.Auth.Login.{GoogleUser}
use aglack.Auth.Login.{AuthState}
use aglack.Auth.Login.{AuthReply}
use aglack.Auth.Login.{AuthM}
use Prim.Native.Char.{code}
use aglack.Auth.Login.{ok}
use aglack.Auth.Login.{log_in}
use aglack.Auth.Login.{ask_google}
use aglack.Auth.Login.{or_fails}
use aglack.Auth.Login.{err}
use aglack.Auth.Login.{after_create}
use aglack.Auth.Login.{good}
use aglack.Auth.Login.{bad}
use aglack.Auth.Login.{get_now}

-- The error that a run ends with.
abbrev pub failure : {S E A : Type 0} → Run S E A → Option E
failure (ok a s) = none
failure (err e s) = some e

module _ (sha256_hex : Text → Text) (exchange : Text → Option Text)
    (userinfo : Text → Option GoogleUser) (oauth_state : Text) where
  -- The state is not, or no longer, waited for.
  abbrev IsGone : AuthState → Type 0
  IsGone s = get oauth_state s.pending_oauth_states ≡ none

  on_store-Keeps-IsGone : {A : Type 0} (m : SessionM A) → Keeps IsGone (on_store m)
  on_store-Keeps-IsGone m s gone = elim (Run-cases (m s.sessions)) [
    | inl (a, db, e) ↦ rw (e, on_store) gone
    | inr (x, db, e) ↦ rw (e, on_store) gone
  ]

  log_in-Keeps-IsGone :
      (raw_token : Text) (user : GoogleUser) → Keeps IsGone (log_in sha256_hex raw_token user)
  unfolding google_callback_route
  log_in-Keeps-IsGone raw_token user =
      Keeps->>= IsGone (ignore (on_store prune_expired)) (λ _. get_now >>= λ now. stores now)
        (Keeps-ignore IsGone Response (on_store prune_expired)
          (on_store-Keeps-IsGone prune_expired))
        λ _.
          Keeps->>= IsGone get_now stores (λ s gone. gone)
            λ now.
              Keeps->>= IsGone
                (attempt (
                  on_store
                    (create (sha256_hex raw_token) (to_text (now + 43200)) user.sub user.email)))
                (after_create raw_token)
                (Keeps-attempt IsGone Response
                  (on_store
                    (create (sha256_hex raw_token) (to_text (now + 43200)) user.sub user.email))
                  (on_store-Keeps-IsGone
                    (create (sha256_hex raw_token) (to_text (now + 43200)) user.sub user.email)))
                after_create-Keeps-IsGone
    where
      stores : ℕ → AuthM AuthReply
      stores now =
          attempt
            (on_store (create (sha256_hex raw_token) (to_text (now + 43200)) user.sub user.email))
          >>= after_create raw_token

      after_create-Keeps-IsGone :
          (created : Result SqlxError (Unit {0})) → Keeps IsGone (after_create raw_token created)
      after_create-Keeps-IsGone (good done) s gone = gone
      after_create-Keeps-IsGone (bad e) s gone = gone

  ask_google-Keeps-IsGone :
      (raw_token code : Text)
      → Keeps IsGone (ask_google sha256_hex exchange userinfo raw_token code)
  ask_google-Keeps-IsGone raw_token code =
      Keeps->>= IsGone (or_fails _ (exchange code)) _ (or_fails-Keeps-IsGone _ (exchange code))
        λ token.
          Keeps->>= IsGone (or_fails _ (userinfo token)) _
            (or_fails-Keeps-IsGone _ (userinfo token))
            λ user.
              Keeps-if IsGone (unverified user) (throw _) (log_in sha256_hex raw_token user)
                (λ s gone. gone) (log_in-Keeps-IsGone raw_token user)
    where
      or_fails-Keeps-IsGone :
          {A : Type 0} (response : Response) (a : Option A) → Keeps IsGone (or_fails response a)
      or_fails-Keeps-IsGone response none s gone = gone
      or_fails-Keeps-IsGone response (some a) s gone = gone

  pub callback-IsGone :
      (raw_token code : Text) (s : AuthState)
      → IsGone (
          final (
            google_callback_route sha256_hex exchange userinfo raw_token
              (record { code = some code; oauth_state = some oauth_state; denial = none })
              s))
  unfolding google_callback_route
  callback-IsGone raw_token code s =
      let taken : AuthState = record s {
        pending_oauth_states = keep (λ entry. not (entry.0 == oauth_state)) s.pending_oauth_states;
      } in
      Keeps-if IsGone (fresh_at s.instant (get oauth_state s.pending_oauth_states))
        (ask_google sha256_hex exchange userinfo raw_token code)
        (throw (error unauthorized "oauth_state_invalid")) (ask_google-Keeps-IsGone raw_token code)
        (λ s' gone. gone) taken (get-keep-not oauth_state s.pending_oauth_states)

  refused :
      (raw_token code : Text) (s : AuthState)
      → IsGone s
      → failure (
          google_callback_route sha256_hex exchange userinfo raw_token
            (record { code = some code; oauth_state = some oauth_state; denial = none })
            s)
        ≡ some (error unauthorized "oauth_state_invalid")
  unfolding google_callback_route
  refused raw_token code s gone = rw gone refl

  -- A callback that brings a code and a state and no `error` uses the state up, whether it succeeds or
  -- not: the next such callback with the same state, whichever its code, is refused as
  -- `oauth_state_invalid`.
  pub google_callback_route_once :
      (raw_token code other_token other_code : Text) (s : AuthState)
      → failure (
          google_callback_route sha256_hex exchange userinfo other_token
            (record { code = some other_code; oauth_state = some oauth_state; denial = none })
            (final (
              google_callback_route sha256_hex exchange userinfo raw_token
                (record { code = some code; oauth_state = some oauth_state; denial = none })
                s)))
        ≡ some (error unauthorized "oauth_state_invalid")
  google_callback_route_once raw_token code other_token other_code s =
      refused other_token other_code
        (final (
          google_callback_route sha256_hex exchange userinfo raw_token
            (record { code = some code; oauth_state = some oauth_state; denial = none }) s))
        (callback-IsGone raw_token code s)
