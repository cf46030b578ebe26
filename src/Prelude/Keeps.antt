-- ===== src/Prelude/Keeps.antt =====
-- Actions that keep a predicate of the state, whichever way they end.
use mathlib.Core.Path.{◌≡◌}
use mathlib.Core.Logic.{inl, inr}
use mathlib.Core.Bool.{Bool, true, false}
use aglack.Prelude.Tests.{if◌then◌else◌}
use aglack.Prelude.Exec.{ok, Exec, pure, throw, ◌>>=◌, attempt, ignore, map_err, final, Run-cases}

abbrev pub Keeps : {S E A : Type 0} → (S → Type 0) → Exec S E A → Type 0
Keeps {S} P m = (s : S) → P s → P (final (m s))

module _ {S : Type 0} (P : S → Type 0) where
  pub Keeps-pure : (E : Type 0) {A : Type 0} (a : A) → Keeps {E = E} P (pure a)
  Keeps-pure E a s h = h

  pub Keeps-throw : (A : Type 0) {E : Type 0} (e : E) → Keeps {A = A} P (throw e)
  Keeps-throw A e s h = h

  -- What follows may use that the first part succeeded, and from where.
  pub Keeps->>=_of_ok :
      {E A B : Type 0} (m : Exec S E A) (f : A → Exec S E B)
      → Keeps P m
      → ((s s' : S) (a : A) → m s ≡ ok a s' → P s' → P (final (f a s')))
      → Keeps P (m >>= f)
  Keeps->>=_of_ok m f k l s h = elim (Run-cases (m s)) [
    | inl (a, s', e) ↦ rw (e, ◌>>=◌) (l s s' a e (rw e at (k s h)))
    | inr (x, s', e) ↦ rw (e, ◌>>=◌) (rw e at (k s h))
  ]

  pub Keeps->>= :
      {E A B : Type 0} (m : Exec S E A) (f : A → Exec S E B)
      → Keeps P m
      → ((a : A) → Keeps P (f a))
      → Keeps P (m >>= f)
  Keeps->>= m f k l = Keeps->>=_of_ok m f k (λ s s' a e h. l a s' h)

  pub Keeps-attempt :
      (F : Type 0) {E A : Type 0} (m : Exec S E A) → Keeps P m → Keeps P (attempt {F = F} m)
  Keeps-attempt F m k s h = elim (Run-cases (m s)) [
    | inl (a, s', e) ↦ rw (e, attempt) (rw e at (k s h))
    | inr (x, s', e) ↦ rw (e, attempt) (rw e at (k s h))
  ]

  pub Keeps-ignore :
      (F : Type 0) {E A : Type 0} (m : Exec S E A) → Keeps P m → Keeps P (ignore {F = F} m)
  Keeps-ignore F m k s h = elim (Run-cases (m s)) [
    | inl (a, s', e) ↦ rw (e, ignore) (rw e at (k s h))
    | inr (x, s', e) ↦ rw (e, ignore) (rw e at (k s h))
  ]

  pub Keeps-map_err :
      {E F A : Type 0} (f : E → F) (m : Exec S E A) → Keeps P m → Keeps P (map_err f m)
  Keeps-map_err f m k s h = elim (Run-cases (m s)) [
    | inl (a, s', e) ↦ rw (e, map_err) (rw e at (k s h))
    | inr (x, s', e) ↦ rw (e, map_err) (rw e at (k s h))
  ]

  pub Keeps-if :
      {E A : Type 0} (b : Bool) (m n : Exec S E A)
      → Keeps P m
      → Keeps P n
      → Keeps P (if b then m else n)
  Keeps-if true m n k l = k
  Keeps-if false m n k l = l
