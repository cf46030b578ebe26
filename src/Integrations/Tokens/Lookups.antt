-- ===== src/Integrations/Tokens/Lookups.antt =====
-- What a lookup of a runtime token returns.
use mathlib.Core.Path.{◌≡◌, refl}
use mathlib.Core.Logic.{inl, inr}
use mathlib.Core.Bool.{Bool, true, false}
use mathlib.Core.Option.{Option}
use mathlib.Core.List.{List, [], ◌∷◌}
use Prim.Native.String.{String}
use mathlib.Core.Path.{ap}
use mathlib.Core.List.{◌++◌}
use aglack.Prelude.Text.{Text}
use aglack.Prelude.Post.{Post}
use aglack.Prelude.Lists.{find?}
use aglack.Prelude.Exec.{◌>>=◌}
use aglack.Prelude.Exec.{final}
use aglack.Prelude.Exec.{Run-cases}
use aglack.Integrations.Tokens.{token_statement}
use aglack.Integrations.Tokens.{record_audit}
use aglack.Integrations.Tokens.{is_for}
use aglack.Integrations.Tokens.{find_runtime_token}
use aglack.Integrations.Tokens.{TokenDb}
use aglack.Integrations.Tokens.{token_statement_with}
use aglack.Integrations.Tokens.{ok}
use mathlib.Core.Option.{some}
use aglack.Prelude.Text.{eq_refl}
use aglack.Prelude.Tests.{Bool-cases}
use aglack.Prelude.Lists.{update_where}
use aglack.Prelude.Lists.{find?-append}
use aglack.Prelude.Lists.{any}
use aglack.Integrations.Tokens.{upserted}
use aglack.Integrations.Tokens.{upsert_runtime_token}
use aglack.Integrations.Tokens.{WorkspaceRuntimeToken}

tokens-statement_with :
    (fs : List Bool) (db : TokenDb) → (final (token_statement_with fs db)).tokens ≡ db.tokens
unfolding token_statement_with
tokens-statement_with [] db = refl
tokens-statement_with (true ∷ later) db = refl
tokens-statement_with (false ∷ later) db = refl

pub find_runtime_token-Post :
    (id : Text) (db : TokenDb)
    → Post (λ token _. token ≡ find? (is_for id) db.tokens) (find_runtime_token id db)
unfolding find_runtime_token token_statement
find_runtime_token-Post id db = elim (Run-cases (token_statement db)) [
  | inl (a, db', e) ↦
      rw (e, ◌>>=◌, Post) (ap (find? (is_for id)) (rw e at (tokens-statement_with db.faults db)))
  | inr (x, db', e) ↦ rw (e, ◌>>=◌, Post) tt
]

-- The database answers every statement from here on.
abbrev pub TokensAnswer : TokenDb → Type 0
TokensAnswer db = db.faults ≡ []

pub find_runtime_token_of_Answers :
    (id : Text) (db : TokenDb)
    → TokensAnswer db
    → find_runtime_token id db ≡ ok (find? (is_for id) db.tokens) db
unfolding find_runtime_token token_statement
find_runtime_token_of_Answers id db a = rw (a, ◌>>=◌)

pub record_audit_of_Answers :
    (id : Text) (provider : Option Text) (event : String) (success : Bool) (db : TokenDb)
    → TokensAnswer db
    → record_audit id provider event success db
      ≡ ok tt (record db {
        audits =
            db.audits
            ++ record {
              workspace_id = id;
              provider_id = provider;
              event = event;
              success = success;
            }
              ∷ [];
      })
unfolding record_audit token_statement
record_audit_of_Answers id provider event success db a = rw (a, ◌>>=◌)

find?-replaced :
    (token : WorkspaceRuntimeToken) (tokens : List WorkspaceRuntimeToken)
    → any (is_for token.workspace_id) tokens ≡ true
    → find?
        (is_for token.workspace_id)
        (update_where (is_for token.workspace_id) (λ old. token) tokens)
      ≡ some token
find?-replaced token [] e = absurd (cc)
find?-replaced token (t ∷ ts) e = elim (Bool-cases (is_for token.workspace_id t)) [
  | inl is ↦ rw is (rw (eq_refl token.workspace_id) refl)
  | inr isnt ↦ rw isnt (rw isnt (find?-replaced token ts (rw isnt at e)))
]

pub find?-upserted :
    (token : WorkspaceRuntimeToken) (tokens : List WorkspaceRuntimeToken)
    → find? (is_for token.workspace_id) (upserted token tokens) ≡ some token
find?-upserted token tokens = elim (Bool-cases (any (is_for token.workspace_id) tokens)) [
  | inl e ↦ rw e (find?-replaced token tokens e)
  | inr e ↦
      rw
        (
          e,
          find?-append (is_for token.workspace_id) tokens (token ∷ []) e,
          eq_refl token.workspace_id,
        )
        refl
]

pub upsert_runtime_token-Post :
    (token : WorkspaceRuntimeToken) (db : TokenDb)
    → Post
        (λ _ db'. find? (is_for token.workspace_id) db'.tokens ≡ some token)
        (upsert_runtime_token token db)
unfolding upsert_runtime_token
upsert_runtime_token-Post token db = elim (Run-cases (token_statement db)) [
  | inl (a, db', e) ↦ rw (upsert_runtime_token, e, ◌>>=◌, Post) (find?-upserted token db'.tokens)
  | inr (x, db', e) ↦ rw (upsert_runtime_token, e, ◌>>=◌, Post) tt
]

-- Neither the tokens nor the connections have changed.
abbrev pub SameTables : TokenDb → TokenDb → Type 0
SameTables db db' = (db'.tokens ≡ db.tokens) × (db'.connections ≡ db.connections)

statement_with-SameTables :
    (fs : List Bool) (db : TokenDb) → SameTables db (final (token_statement_with fs db))
unfolding token_statement_with
statement_with-SameTables [] db = (refl, refl)
statement_with-SameTables (true ∷ later) db = (refl, refl)
statement_with-SameTables (false ∷ later) db = (refl, refl)

pub statement-SameTables : (db : TokenDb) → SameTables db (final (token_statement db))
unfolding token_statement
statement-SameTables db = statement_with-SameTables db.faults db

pub token_statement_of_Answers : (db : TokenDb) → TokensAnswer db → token_statement db ≡ ok tt db
unfolding token_statement
token_statement_of_Answers db a = rw a refl
