-- ===== src/Integrations/Remote/Keeping.antt =====
-- Steps that keep a predicate of the tables.
use mathlib.Core.Logic.{inl, inr}
use aglack.Prelude.Exec.{Exec, final, Run-cases, map_err}
use aglack.Prelude.Keeps.{Keeps, Keeps-map_err}
use aglack.Integrations.Tokens.{TokenDb, TokenM}
use aglack.Integrations.Connections.{}
use aglack.Integrations.Bearer.{on_tokens}
use aglack.Integrations.Remote.{
  Gateway, GatewayM, Call, in_store, in_integrations, in_workspaces, ask, look,
}
use aglack.Integrations.Remote.Quiet.{tables}
use aglack.Workspaces.Db.{Db, SqlxError}

module _ (P : TokenDb → Type 0) where
  abbrev pub OnTables : {S : Type 0} → Gateway S → Type 0
  OnTables g = P (tables g)

  abbrev pub KeepsTables : {S E A : Type 0} → GatewayM S E A → Type 0
  KeepsTables m = Keeps OnTables m

  pub in_store-KeepsTables :
      {S A : Type 0} (m : TokenM A) → Keeps P m → KeepsTables (in_store {S = S} m)
  in_store-KeepsTables m k g a = elim (Run-cases (m (tables g))) [
    | inl (x, db, e) ↦
        rw (in_store, in_integrations, on_tokens, e, final) (rw e at (k (tables g) a))
    | inr (x, db, e) ↦
        rw (in_store, in_integrations, on_tokens, e, final) (rw e at (k (tables g) a))
  ]

  pub in_workspaces-KeepsTables :
      {S E A : Type 0} (m : Exec Db E A) → KeepsTables (in_workspaces {S = S} m)
  in_workspaces-KeepsTables m g a = elim (Run-cases (m g.workspaces)) [
    | inl (x, db, e) ↦ rw (in_workspaces, e, final) a
    | inr (x, db, e) ↦ rw (in_workspaces, e, final) a
  ]

  pub ask-KeepsTables : {S E A : Type 0} (call : Call) (m : Exec S E A) → KeepsTables (ask call m)
  ask-KeepsTables call m g a = elim (Run-cases (m g.outside)) [
    | inl (x, db, e) ↦ rw (ask, e, final) a
    | inr (x, db, e) ↦ rw (ask, e, final) a
  ]

  pub look-KeepsTables : {S E A : Type 0} (m : Exec S E A) → KeepsTables (look m)
  look-KeepsTables m g a = elim (Run-cases (m g.outside)) [
    | inl (x, db, e) ↦ rw (look, e, final) a
    | inr (x, db, e) ↦ rw (look, e, final) a
  ]

  -- The same under `map_err`.
  pub stored-KeepsTables :
      {S F A : Type 0} (f : SqlxError → F) (m : TokenM A)
      → Keeps P m
      → KeepsTables (map_err f (in_store {S = S} m))
  stored-KeepsTables f m k = Keeps-map_err OnTables f (in_store m) (in_store-KeepsTables m k)

  pub asked-KeepsTables :
      {S E F A : Type 0} (f : E → F) (call : Call) (m : Exec S E A)
      → KeepsTables (map_err f (ask call m))
  asked-KeepsTables f call m = Keeps-map_err OnTables f (ask call m) (ask-KeepsTables call m)

  pub looked-KeepsTables :
      {S E F A : Type 0} (f : E → F) (m : Exec S E A) → KeepsTables (map_err f (look m))
  looked-KeepsTables f m = Keeps-map_err OnTables f (look m) (look-KeepsTables m)
