-- ===== src/Prelude/Post.antt =====
-- What holds where an action succeeds.
use mathlib.Core.Path.{◌≡◌}
use mathlib.Core.Logic.{inl, inr}
use aglack.Prelude.Exec.{Run, ok, err, Exec, ◌>>=◌, Run-cases, map_err}
use aglack.Prelude.Keeps.{Keeps}

abbrev pub Post : {S E A : Type 0} → (A → S → Type 0) → Run S E A → Type 0
Post Q (ok a s) = Q a s
Post Q (err e s) = Unit

pub Post_of_ok :
    {S E A : Type 0} (Q : A → S → Type 0) {r : Run S E A} {a : A} {s : S}
    → Post Q r
    → r ≡ ok a s
    → Q a s
Post_of_ok Q p e = rw e at p

pub Post->>= :
    {S E A B : Type 0} (R : A → S → Type 0) (Q : B → S → Type 0) (m : Exec S E A)
    (f : A → Exec S E B) (s : S)
    → Post R (m s)
    → ((a : A) (s' : S) → R a s' → Post Q (f a s'))
    → Post Q ((m >>= f) s)
Post->>= R Q m f s p k = elim (Run-cases (m s)) [
  | inl (a, s', e) ↦ rw (e, ◌>>=◌, Post) (k a s' (rw e at p))
  | inr (x, s', e) ↦ rw (e, ◌>>=◌, Post) tt
]

pub Post-map_err :
    {S E F A : Type 0} (Q : A → S → Type 0) (f : E → F) (m : Exec S E A) (s : S)
    → Post Q (m s)
    → Post Q (map_err f m s)
Post-map_err Q f m s p = elim (Run-cases (m s)) [
  | inl (a, s', e) ↦ rw (e, map_err, Post) (rw e at p)
  | inr (x, s', e) ↦ rw (e, map_err, Post) tt
]

pub Post-any : {S E A : Type 0} (r : Run S E A) → Post (λ _ _. Unit {0}) r
Post-any (ok a s) = tt
Post-any (err e s) = tt

pub Post-of_Keeps :
    {S E A : Type 0} (P : S → Type 0) (m : Exec S E A) (s : S)
    → Keeps P m
    → P s
    → Post (λ _. P) (m s)
Post-of_Keeps P m s k p = elim (Run-cases (m s)) [
  | inl (a, s', e) ↦ rw (e, Post) (rw e at (k s p))
  | inr (x, s', e) ↦ rw (e, Post) tt
]

pub Post-mono :
    {S E A : Type 0} (P Q : A → S → Type 0) (r : Run S E A)
    → Post P r
    → ((a : A) (s : S) → P a s → Q a s)
    → Post Q r
Post-mono P Q (ok a s) p k = k a s p
Post-mono P Q (err e s) p k = tt
