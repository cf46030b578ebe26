-- ===== src/Prelude/Lists.antt =====
-- List operations over the native numbers, and predicates on every element.
use Prim.Native.Nat.{ℕ, zero, suc, ◌≤◌}
use mathlib.Core.Path.{◌≡◌}
use mathlib.Core.Bool.{Bool, true, false, ◌&&◌, ◌||◌}
use mathlib.Core.Option
use mathlib.Core.Option.{Option, none, some}
use mathlib.Core.List.{List, [], ◌∷◌, ◌++◌}
use native.Mathlib.Omega.{arith}
use aglack.Prelude.Tests.{if◌then◌else◌, Bool-cases}
use mathlib.Core.Logic.{inl, inr}
use mathlib.Core.Path.{◌∙◌}
use mathlib.Core.Path.{refl}
use mathlib.Core.Logic.{◌≢◌}

module _ {ℓ} {A : Type ℓ} where
  abbrev pub length : List A → ℕ
  length [] = 0
  length (x ∷ xs) = suc (length xs)

  abbrev pub all : (A → Bool) → List A → Bool
  all p [] = true
  all p (x ∷ xs) = p x && all p xs

  abbrev pub any : (A → Bool) → List A → Bool
  any p [] = false
  any p (x ∷ xs) = p x || any p xs

  -- The first element that passes the test: `Iterator::find`, and a query's `fetch_optional`.
  abbrev pub find? : (A → Bool) → List A → Option A
  find? p [] = none
  find? p (x ∷ xs) = if p x then some x else find? p xs

  -- The elements that pass the test, in order: `Iterator::filter`.
  abbrev pub keep : (A → Bool) → List A → List A
  keep p [] = []
  keep p (x ∷ xs) = let rest = keep p xs in if p x then x ∷ rest else rest

  abbrev pub take : ℕ → List A → List A
  take zero xs = []
  take (suc n) [] = []
  take (suc n) (x ∷ xs) = x ∷ take n xs

  abbrev pub drop : ℕ → List A → List A
  drop zero xs = xs
  drop (suc n) [] = []
  drop (suc n) (x ∷ xs) = drop n xs

  abbrev pub is_some : Option A → Bool
  is_some none = false
  is_some (some a) = true

  -- `xs` with `f` applied to the elements that pass the test: an `UPDATE … WHERE`.
  abbrev pub update_where : (A → Bool) → (A → A) → List A → List A
  update_where p f [] = []
  update_where p f (x ∷ xs) = (if p x then f x else x) ∷ update_where p f xs

module _ {ℓ κ} {A : Type ℓ} (P : A → Type κ) where
  abbrev pub All : List A → Type κ
  All [] = Unit
  All (x ∷ xs) = P x × All xs

  pub All-append : (xs ys : List A) → All xs → All ys → All (xs ++ ys)
  All-append [] ys _ k = k
  All-append (x ∷ xs) ys (p, h) k = (p, All-append xs ys h k)

  pub All-keep : (p : A → Bool) (xs : List A) → All xs → All (keep p xs)
  All-keep p [] _ = tt
  All-keep p (x ∷ xs) (q, h) = elim (Bool-cases (p x)) [
    | inl e ↦ rw e (q, All-keep p xs h)
    | inr e ↦ rw e (All-keep p xs h)
  ]

  pub All-find? :
      (p : A → Bool) (xs : List A) {x : A} → find? p xs ≡ some x → All xs → P x × (p x ≡ true)
  All-find? p [] e _ = absurd (cc)
  All-find? p (y ∷ ys) {x} e (q, h) = elim (Bool-cases (p y)) [
    | inl t ↦ let same : y ≡ x = ground (arith, t) in rw (← same) (q, t)
    | inr f ↦ All-find? p ys (rw f at e) h
  ]

  pub All-update_where :
      (p : A → Bool) (f : A → A) (xs : List A)
      → ((x : A) → P x → P (f x))
      → All xs
      → All (update_where p f xs)
  All-update_where p f [] k _ = tt
  All-update_where p f (x ∷ xs) k (q, h) = elim (Bool-cases (p x)) [
    | inl e ↦ rw e (k x q, All-update_where p f xs k h)
    | inr e ↦ rw e (q, All-update_where p f xs k h)
  ]

-- An update that keeps the test finds the updated element.
pub find?-update_where {ℓ} :
    {A : Type ℓ} (p : A → Bool) (f : A → A) (xs : List A)
    → ((x : A) → p (f x) ≡ p x)
    → find? p (update_where p f xs) ≡ Option.map f (find? p xs)
find?-update_where p f [] k = refl
find?-update_where p f (x ∷ xs) k = elim (Bool-cases (p x)) [
  | inl e ↦ rw e (rw (k x ∙ e))
  | inr e ↦ rw e (rw e (find?-update_where p f xs k))
]

pub any-of-find? {ℓ} :
    {A : Type ℓ} (p : A → Bool) (xs : List A) → find? p xs ≡ none → any p xs ≡ false
any-of-find? p [] e = refl
any-of-find? p (x ∷ xs) e = elim (Bool-cases (p x)) [
  | inl t ↦ absurd (cc (rw t at e))
  | inr f ↦ rw f (any-of-find? p xs (rw f at e))
]

module _ {ℓ} {A : Type ℓ} (p : A → Bool) where
  -- Dropping elements that the test fails anyway, or all that it could find.
  pub find?-keep :
      (q : A → Bool)
      → ((x : A) → p x ≡ true → q x ≡ true)
      → (xs : List A) → find? p (keep q xs) ≡ find? p xs
  find?-keep q k [] = refl
  find?-keep q k (x ∷ xs) = elim (Bool-cases (p x)) [
    | inl e ↦ rw (k x e, e)
    | inr e ↦ elim (Bool-cases (q x)) [
      | inl f ↦ rw f (rw e (find?-keep q k xs))
      | inr f ↦ rw f (rw e (find?-keep q k xs))
    ]
  ]

  pub find?-keep-none :
      (q : A → Bool)
      → ((x : A) → p x ≡ true → q x ≡ false)
      → (xs : List A) → find? p (keep q xs) ≡ none
  find?-keep-none q k [] = refl
  find?-keep-none q k (x ∷ xs) = elim (Bool-cases (q x)) [
    | inl f ↦ elim (Bool-cases (p x)) [
      | inl e ↦ absurd (cc (k x e))
      | inr e ↦ rw f (rw e (find?-keep-none q k xs))
    ]
    | inr f ↦ rw f (find?-keep-none q k xs)
  ]

  pub find?-append : (xs ys : List A) → any p xs ≡ false → find? p (xs ++ ys) ≡ find? p ys
  find?-append [] ys e = refl
  find?-append (x ∷ xs) ys e = elim (Bool-cases (p x)) [
    | inl is ↦ absurd (ground arith)
    | inr isnt ↦ rw isnt (find?-append xs ys (rw isnt at e))
  ]

  pub any-and : (q : A → Bool) (xs : List A) → any p xs ≡ false → any (λ x. p x && q x) xs ≡ false
  any-and q [] e = refl
  any-and q (x ∷ xs) e = elim (Bool-cases (p x)) [
    | inl is ↦ absurd (ground arith)
    | inr isnt ↦ rw isnt (any-and q xs (rw isnt at e))
  ]

  pub find?-of_any : (xs : List A) → any p xs ≡ true → find? p xs ≢ none
  find?-of_any xs e f = cc (any-of-find? p xs f)

pub length-keep {ℓ} : {A : Type ℓ} (p : A → Bool) (xs : List A) → length (keep p xs) ≤ length xs
length-keep p [] = omega arith
length-keep p (x ∷ xs) = elim (Bool-cases (p x)) [
  | inl e ↦ rw e (omega (arith, length-keep p xs))
  | inr e ↦ rw e (omega (arith, length-keep p xs))
]

pub find?-passes {ℓ} :
    {A : Type ℓ} (p : A → Bool) (xs : List A) {x : A} → find? p xs ≡ some x → p x ≡ true
find?-passes p [] e = absurd (cc)
find?-passes p (y ∷ ys) {x} e = elim (Bool-cases (p y)) [
  | inl t ↦ let same : y ≡ x = ground (arith, t) in rw (← same) t
  | inr f ↦ find?-passes p ys (rw f at e)
]
