-- ===== src/Prelude/Exec.antt =====
-- Stateful code that can fail: the state is kept on the error path, as a mutation before the error
-- is. `attempt` is a `match` on a result, `ignore` is `let _ =`.
use mathlib.Core.Path.{◌≡◌, refl}
use mathlib.Core.Logic.{◌⊎◌, inl, inr}

pub data Run (S E A : Type 0) : Type 0 where
  ok : A → S → Run S E A
  err : E → S → Run S E A

pub data Result (E A : Type 0) : Type 0 where
  good : A → Result E A
  bad : E → Result E A

abbrev pub Exec : Type 0 → Type 0 → Type 0 → Type 0
Exec S E A = S → Run S E A

abbrev pub pure : {S E A : Type 0} → A → Exec S E A
pure a s = ok a s

abbrev pub throw : {S E A : Type 0} → E → Exec S E A
throw e s = err e s

infixl 5 ◌>>=◌ ◌>>◌
abbrev pub ◌>>=◌ : {S E A B : Type 0} → Exec S E A → (A → Exec S E B) → Exec S E B
◌>>=◌ m f s = elim (m s) [ ok a s' ↦ f a s' | err e s' ↦ err e s' ]

abbrev pub ◌>>◌ : {S E A B : Type 0} → Exec S E A → Exec S E B → Exec S E B
m >> k = m >>= λ _. k

abbrev pub get_state : {S E : Type 0} → Exec S E S
get_state s = ok s s

abbrev pub put_state : {S E : Type 0} → S → Exec S E (Unit {0})
put_state s' s = ok tt s'

abbrev pub attempt : {S E F A : Type 0} → Exec S E A → Exec S F (Result E A)
attempt m s = elim (m s) [ ok a s' ↦ ok (good a) s' | err e s' ↦ ok (bad e) s' ]

abbrev pub ignore : {S E F A : Type 0} → Exec S E A → Exec S F (Unit {0})
ignore m s = elim (m s) [ ok a s' ↦ ok tt s' | err e s' ↦ ok tt s' ]

-- `?` with a `From` conversion of the error.
abbrev pub map_err : {S E F A : Type 0} → (E → F) → Exec S E A → Exec S F A
map_err f m s = elim (m s) [ ok a s' ↦ ok a s' | err e s' ↦ err (f e) s' ]

abbrev pub final : {S E A : Type 0} → Run S E A → S
final (ok a s) = s
final (err e s) = s

pub Run-cases :
    {S E A : Type 0} (r : Run S E A)
    → ((a : A) × (s : S) × (r ≡ ok a s)) ⊎ ((e : E) × (s : S) × (r ≡ err e s))
Run-cases (ok a s) = inl (a, s, refl)
Run-cases (err e s) = inr (e, s, refl)

pub Result-cases :
    {E A : Type 0} (r : Result E A) → ((a : A) × (r ≡ good a)) ⊎ ((e : E) × (r ≡ bad e))
Result-cases (good a) = inl (a, refl)
Result-cases (bad e) = inr (e, refl)
