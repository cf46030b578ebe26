-- ===== src/Integrations/Remote/Quiet.antt =====
-- Steps that call nothing outside, and what a step of one part leaves alone.
use mathlib.Core.Path.{◌≡◌, refl}
use mathlib.Core.Logic.{inl, inr}
use mathlib.Core.List.{[], ◌∷◌, ◌++◌}
use aglack.Prelude.Exec.{Run, ok, Exec, Run-cases, map_err, ignore, final}
use aglack.Prelude.Ends.{Ends}
use aglack.Prelude.Post.{Post}
use aglack.Workspaces.Db.{SqlxError}
use aglack.Integrations.Tokens.{TokenM, TokenDb}
use aglack.Integrations.Bearer.{on_tokens}
use mathlib.Core.Bool.{Bool, true, false}
use aglack.Integrations.Remote.{Gateway, Call, Log, in_store, in_integrations, ask, look}

-- The database of the integrations.
abbrev pub tables : {S : Type 0} → Gateway S → TokenDb
tables g = g.integrations.store

-- In some state, the action returns this.
abbrev pub Gives : {S E A : Type 0} → Exec S E A → A → Type 0
Gives {S} {E} {A} m a = (s : S) × (s' : S) × (◌≡◌ {A = Run S E A} (m s) (ok a s'))

module _ {S : Type 0} (calls : Log) where
  abbrev pub NoCall : {E A : Type 0} → Run (Gateway S) E A → Type 0
  NoCall r = Ends (λ _ g. g.calls ≡ calls) (λ _ g. g.calls ≡ calls) r

  -- A statement of the store, whose error is turned into another.
  pub stored-Ends :
      {F A : Type 0} (f : SqlxError → F) (Q : A → TokenDb → Type 0) (m : TokenM A) (g : Gateway S)
      → g.calls ≡ calls
      → Post Q (m (tables g))
      → Ends
          (λ a g'. (g'.calls ≡ calls) × Q a (tables g'))
          (λ _ g'. g'.calls ≡ calls)
          (map_err f (in_store m) g)
  stored-Ends f Q m g e p = elim (Run-cases (m (tables g))) [
    | inl (a, db, h) ↦ rw (map_err, in_store, in_integrations, on_tokens, h, Ends) (e, rw h at p)
    | inr (x, db, h) ↦ rw (map_err, in_store, in_integrations, on_tokens, h, Ends) e
  ]

  -- A look at the outside changes neither the calls nor the tables.
  pub look-Ends :
      {E F A : Type 0} (f : E → F) (Q : TokenDb → Type 0) (m : Exec S E A) (g : Gateway S)
      → g.calls ≡ calls
      → Q (tables g)
      → Ends
          (λ _ g'. (g'.calls ≡ calls) × Q (tables g'))
          (λ _ g'. g'.calls ≡ calls)
          (map_err f (look m) g)
  look-Ends f Q m g e q = elim (Run-cases (m g.outside)) [
    | inl (a, s, h) ↦ rw (map_err, look, h, Ends) (e, q)
    | inr (x, s, h) ↦ rw (map_err, look, h, Ends) e
  ]

  -- A call is one more in the list, and leaves the tables alone.
  pub ask-Ends :
      {E F A : Type 0} (f : E → F) (Q : TokenDb → Type 0) (call : Call) (m : Exec S E A)
      (g : Gateway S)
      → g.calls ≡ calls
      → Q (tables g)
      → Ends
          (λ a g'. (g'.calls ≡ calls ++ (call, true) ∷ []) × Q (tables g') × Gives m a)
          (λ _ g'. (g'.calls ≡ calls ++ (call, false) ∷ []) × Q (tables g'))
          (map_err f (ask call m) g)
  ask-Ends f Q call m g e q = elim (Run-cases (m g.outside)) [
    | inl (a, s, h) ↦ rw (map_err, ask, h, Ends) (rw e refl, q, (g.outside, s, h))
    | inr (x, s, h) ↦ rw (map_err, ask, h, Ends) (rw e refl, q)
  ]

  pub ignored_ask-Ends :
      (F : Type 0) {E A : Type 0} (Q : TokenDb → Type 0) (call : Call) (m : Exec S E A)
      (g : Gateway S)
      → g.calls ≡ calls
      → Q (tables g)
      → Ends {E = F}
          (λ _ g'. ((done : Bool) × (g'.calls ≡ calls ++ (call, done) ∷ [])) × Q (tables g'))
          (λ _ _. ⊥)
          (ignore (ask call m) g)
  ignored_ask-Ends F Q call m g e q = elim (Run-cases (m g.outside)) [
    | inl (a, s, h) ↦ rw (ignore, ask, h, Ends) ((true, rw e refl), q)
    | inr (x, s, h) ↦ rw (ignore, ask, h, Ends) ((false, rw e refl), q)
  ]

-- A statement whose outcome is ignored.
pub ignored_store :
    (S F : Type 0) {A : Type 0} (m : TokenM A) (g : Gateway S)
    → (g' : Gateway S) × (◌≡◌ {A = Run (Gateway S) F (Unit {0})} (ignore (in_store m) g) (ok tt g'))
      × (g'.calls ≡ g.calls)
      × (tables g' ≡ final (m (tables g)))
ignored_store S F m g = elim (Run-cases (m (tables g))) [
  | inl (a, db, h) ↦ (
    record g { integrations = record g.integrations { store = db } },
    rw (ignore, in_store, in_integrations, on_tokens, h) refl,
    refl,
    rw h refl,
  )
  | inr (x, db, h) ↦ (
    record g { integrations = record g.integrations { store = db } },
    rw (ignore, in_store, in_integrations, on_tokens, h) refl,
    refl,
    rw h refl,
  )
]
