-- ===== src/Prelude/Ends.antt =====
-- What holds at both ends of an action: where it succeeds, and where it fails.
use mathlib.Core.Logic.{inl, inr}
use aglack.Prelude.Exec.{Run, ok, err, Exec, Result, good, bad, ◌>>=◌, Run-cases, map_err, attempt}

abbrev pub Ends : {S E A : Type 0} → (A → S → Type 0) → (E → S → Type 0) → Run S E A → Type 0
Ends P Q (ok a s) = P a s
Ends P Q (err e s) = Q e s

module _ {S E A : Type 0} (P : A → S → Type 0) (Q : E → S → Type 0) where
  pub Ends->>= :
      {B : Type 0} (P' : B → S → Type 0) (Q' : E → S → Type 0) (m : Exec S E A) (f : A → Exec S E B)
      (s : S)
      → Ends P Q (m s)
      → ((a : A) (s' : S) → P a s' → Ends P' Q' (f a s'))
      → ((e : E) (s' : S) → Q e s' → Q' e s')
      → Ends P' Q' ((m >>= f) s)
  Ends->>= P' Q' m f s p k l = elim (Run-cases (m s)) [
    | inl (a, s', e) ↦ rw (e, ◌>>=◌, Ends) (k a s' (rw e at p))
    | inr (x, s', e) ↦ rw (e, ◌>>=◌, Ends) (l x s' (rw e at p))
  ]

  pub Ends-mono :
      (P' : A → S → Type 0) (Q' : E → S → Type 0) (r : Run S E A)
      → Ends P Q r
      → ((a : A) (s' : S) → P a s' → P' a s')
      → ((e : E) (s' : S) → Q e s' → Q' e s')
      → Ends P' Q' r
  Ends-mono P' Q' (ok a s) p k l = k a s p
  Ends-mono P' Q' (err e s) q k l = l e s q

  pub Ends-attempt :
      {F B : Type 0} (P' : B → S → Type 0) (Q' : F → S → Type 0) (m : Exec S E A)
      (f : Result E A → Exec S F B) (s : S)
      → Ends P Q (m s)
      → ((a : A) (s' : S) → P a s' → Ends P' Q' (f (good a) s'))
      → ((e : E) (s' : S) → Q e s' → Ends P' Q' (f (bad e) s'))
      → Ends P' Q' ((attempt m >>= f) s)
  Ends-attempt P' Q' m f s p k l = elim (Run-cases (m s)) [
    | inl (a, s', e) ↦ rw (◌>>=◌, attempt, e, Ends) (k a s' (rw e at p))
    | inr (x, s', e) ↦ rw (◌>>=◌, attempt, e, Ends) (l x s' (rw e at p))
  ]

-- The errors of `map_err`, where the predicate reads the state only.
pub Ends-map_err :
    {S E F A : Type 0} (P : A → S → Type 0) (Q : S → Type 0) (f : E → F) (m : Exec S E A) (s : S)
    → Ends P (λ _. Q) (m s)
    → Ends P (λ _. Q) (map_err f m s)
Ends-map_err P Q f m s p = elim (Run-cases (m s)) [
  | inl (a, s', e) ↦ rw (e, map_err, Ends) (rw e at p)
  | inr (x, s', e) ↦ rw (e, map_err, Ends) (rw e at p)
]
