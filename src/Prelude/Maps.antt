-- ===== src/Prelude/Maps.antt =====
-- A map keyed by text, as an association list: `DashMap`, `HashMap`.
use aglack.Prelude.Lists.{keep, length}
use mathlib.Core.Bool.{not}
use Prim.Native.Nat.{◌+◌, ◌≤◌}
use native.Mathlib.Omega.{arith}
use mathlib.Core.Path.{◌≡◌, refl}
use mathlib.Core.Bool.{false}
use mathlib.Core.Option.{Option, none, some}
use mathlib.Core.List.{List, [], ◌∷◌}
use aglack.Prelude.Tests.{if◌then◌else◌, Bool-cases}
use aglack.Prelude.Text.{Text, ◌==◌, eq_iff, eq_refl}
use mathlib.Core.Logic.{inr}
use mathlib.Core.Logic.{inl}

module _ {ℓ} {A : Type ℓ} where
  unfoldable pub get : Text → List (Text × A) → Option A
  get key [] = none
  get key ((k, a) ∷ entries) = if k == key then some a else get key entries

  unfoldable pub insert : Text → A → List (Text × A) → List (Text × A)
  insert key a [] = (key, a) ∷ []
  insert key a ((k, b) ∷ entries) =
      let rest = insert key a entries in if k == key then (key, a) ∷ entries else (k, b) ∷ rest

  pub get-insert : (key : Text) (a : A) (m : List (Text × A)) → get key (insert key a m) ≡ some a
  unfolding get insert
  get-insert key a [] = rw (eq_refl key)
  get-insert key a ((k, b) ∷ entries) = elim (Bool-cases (k == key)) [
    | inl e ↦ rw (e, eq_refl key)
    | inr e ↦ rw e (rw e (get-insert key a entries))
  ]

  pub get-insert_other :
      (other key : Text) (a : A) (m : List (Text × A))
      → (key == other) ≡ false
      → get other (insert key a m) ≡ get other m
  unfolding get insert
  get-insert_other other key a [] e = rw e
  get-insert_other other key a ((k, b) ∷ entries) e = elim (Bool-cases (k == key)) [
    | inl is ↦ let same : k ≡ key = (eq_iff k key).0 is in rw is (rw same (rw e refl))
    | inr isnt ↦ rw isnt (elim (Bool-cases (k == other)) [
      | inl at_other ↦ rw at_other
      | inr past ↦ rw past (get-insert_other other key a entries e)
    ])
  ]

  pub get-keep-not :
      (key : Text) (m : List (Text × A)) → get key (keep (λ entry. not (entry.0 == key)) m) ≡ none
  unfolding get
  get-keep-not key [] = refl
  get-keep-not key ((k, a) ∷ entries) = elim (Bool-cases (k == key)) [
    | inl is ↦ rw is (get-keep-not key entries)
    | inr isnt ↦ rw isnt (rw isnt (get-keep-not key entries))
  ]

  pub length-insert :
      (key : Text) (a : A) (m : List (Text × A)) → length (insert key a m) ≤ length m + 1
  unfolding insert
  length-insert key a [] = omega arith
  length-insert key a ((k, b) ∷ entries) = elim (Bool-cases (k == key)) [
    | inl is ↦ rw is (omega arith)
    | inr isnt ↦ rw isnt (omega (arith, length-insert key a entries))
  ]
