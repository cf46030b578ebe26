-- ===== src/Prelude/Pieces.antt =====
-- The trimmed parts of a text between the separators, as a header with a list of values is read.
use Prim.Native.Nat.{ℕ}
use mathlib.Core.Path.{◌≡◌, refl, sym, ap, ◌∙◌}
use mathlib.Core.Logic.{inl, inr}
use mathlib.Core.Bool.{true, false}
use native.Mathlib.Omega.{arith}
use mathlib.Core.List.{
  List, [], ◌∷◌, ◌++◌, map, reverse, reverse-cons, reverse-append, reverse-reverse, append_assoc,
}
use aglack.Prelude.Text.{Text}
use aglack.Prelude.Tests.{nat_eq, Bool-cases}
use aglack.Prelude.Lists.{All, All-append}
use aglack.Prelude.Strings.{
  split, split_whole, split-Lacks, Lacks, is_whitespace, trim_start, trim, join,
}

abbrev pub trim_end : Text → Text
trim_end s = reverse (trim_start (reverse s))

trim_start-snoc :
    (s : Text) (c : ℕ) → is_whitespace c ≡ false → trim_start (s ++ c ∷ []) ≡ trim_start s ++ c ∷ []
unfolding trim_start
trim_start-snoc [] c e = rw e refl
trim_start-snoc (d ∷ s) c e = elim (Bool-cases (is_whitespace d)) [
  | inl space ↦ rw space (trim_start-snoc s c e)
  | inr other ↦ rw other refl
]

pub trim_end-cons : (c : ℕ) (s : Text) → is_whitespace c ≡ false → trim_end (c ∷ s) ≡ c ∷ trim_end s
trim_end-cons c s e =
    ap (λ r. reverse (trim_start r)) (reverse-cons c s)
    ∙ ap reverse (trim_start-snoc (reverse s) c e)
    ∙ reverse-append (trim_start (reverse s)) (c ∷ [])

trim_start_twice : (s : Text) → trim_start (trim_start s) ≡ trim_start s
unfolding trim_start
trim_start_twice [] = refl
trim_start_twice (c ∷ s) = elim (Bool-cases (is_whitespace c)) [
  | inl space ↦ rw space (trim_start_twice s)
  | inr other ↦ let once : trim_start (c ∷ s) ≡ c ∷ s = rw other refl in ap trim_start once
]

trim_end_twice : (s : Text) → trim_end (trim_end s) ≡ trim_end s
trim_end_twice s =
    ap (λ r. reverse (trim_start r)) (reverse-reverse (trim_start (reverse s)))
    ∙ ap reverse (trim_start_twice (reverse s))

-- What follows leading white space starts with no white space.
trim_start-trim_end : (s : Text) → trim_start (trim_end (trim_start s)) ≡ trim_end (trim_start s)
unfolding trim_start
trim_start-trim_end [] = refl
trim_start-trim_end (c ∷ s) = elim (Bool-cases (is_whitespace c)) [
  | inl space ↦ rw space (trim_start-trim_end s)
  | inr other ↦
      let kept : trim_end (c ∷ s) ≡ c ∷ trim_end s = trim_end-cons c s other in
      let starts : trim_start (c ∷ trim_end s) ≡ c ∷ trim_end s = rw other refl in
      rw other (ap trim_start kept ∙ starts ∙ sym kept)
]

pub trim_twice : (s : Text) → trim (trim s) ≡ trim s
unfolding trim
trim_twice s = ap trim_end (trim_start-trim_end s) ∙ trim_end_twice (trim_start s)

-- Trimming keeps what holds of every character.
module _ (P : ℕ → Type 0) where
  trim_start-All : (s : Text) → All P s → All P (trim_start s)
  unfolding trim_start
  trim_start-All [] _ = tt
  trim_start-All (c ∷ s) (p, h) = elim (Bool-cases (is_whitespace c)) [
    | inl space ↦ rw space (trim_start-All s h)
    | inr other ↦ rw other (p, h)
  ]

  reverse-All : (s : Text) → All P s → All P (reverse s)
  reverse-All [] _ = tt
  reverse-All (c ∷ s) (p, h) =
      rw (reverse-cons c s) (All-append P (reverse s) (c ∷ []) (reverse-All s h) (p, tt))

  pub trim-All : (s : Text) → All P s → All P (trim s)
  unfolding trim
  trim-All s h = reverse-All _ (trim_start-All _ (reverse-All _ (trim_start-All s h)))

-- The trimmed parts.
unfoldable pub parts : ℕ → Text → List Text
parts sep s = map trim (split sep s)

split-append : (sep : ℕ) (s t : Text) → Lacks sep s → split sep (s ++ sep ∷ t) ≡ s ∷ split sep t
unfolding split
split-append sep [] t _ = ground arith
split-append sep (c ∷ s) t (p, h) = rw (p, split-append sep s t h) refl

split-cons : (sep : ℕ) (s : Text) → (p : Text) × (ps : List Text) × (split sep s ≡ p ∷ ps)
unfolding split
split-cons sep [] = ([], [], refl)
split-cons sep (c ∷ s) = elim (Bool-cases (nat_eq c sep)) [
  | inl e ↦ ([], split sep s, rw e refl)
  | inr e ↦ let (p, ps, h) = split-cons sep s in (c ∷ p, ps, rw (e, h) refl)
]

trim-space : (c : ℕ) (s : Text) → is_whitespace c ≡ true → trim (c ∷ s) ≡ trim s
unfolding trim trim_start
trim-space c s space = rw space refl

-- Leading spaces are not seen.
parts-space :
    (sep c : ℕ) (s : Text)
    → is_whitespace c ≡ true
    → nat_eq c sep ≡ false
    → parts sep (c ∷ s) ≡ parts sep s
unfolding parts split
parts-space sep c s space other =
    let (p, ps, h) = split-cons sep s in
    rw (other, h) (ap (λ q. q ∷ map trim ps) (trim-space c p space))

module _ (sep : ℕ) (sep_other : nat_eq 32 sep ≡ false) where
  abbrev pub IsPart : Text → Type 0
  IsPart s = Lacks sep s × (trim s ≡ s)

  parts-append : (s t : Text) → IsPart s → parts sep (s ++ sep ∷ 32 ∷ t) ≡ s ∷ parts sep t
  unfolding parts is_whitespace
  parts-append s t (lacks, trimmed) =
      ap (map trim) (split-append sep s (32 ∷ t) lacks)
      ∙ ap (λ q. q ∷ parts sep (32 ∷ t)) trimmed
      ∙ ap (λ ps. s ∷ ps) (parts-space sep 32 t refl sep_other)

  pub parts-whole : (s : Text) → IsPart s → parts sep s ≡ s ∷ []
  unfolding parts
  parts-whole s (lacks, trimmed) = rw (split_whole sep s lacks, trimmed) refl

  pub parts-join :
      (s : Text) (ss : List Text) (t : Text)
      → All IsPart (s ∷ ss)
      → parts sep (join (sep ∷ 32 ∷ []) (s ∷ ss) ++ sep ∷ 32 ∷ t) ≡ s ∷ (ss ++ parts sep t)
  unfolding join
  parts-join s [] t (is, _) = parts-append s t is
  parts-join s (s' ∷ ss) t (is, are) =
      let others = join (sep ∷ 32 ∷ []) (s' ∷ ss) in
      ap (parts sep) (append_assoc s (sep ∷ 32 ∷ others) (sep ∷ 32 ∷ t))
      ∙ parts-append s (others ++ sep ∷ 32 ∷ t) is
      ∙ ap (λ ps. s ∷ ps) (parts-join s' ss t are)

  trims-IsPart : (ss : List Text) → All (Lacks sep) ss → All IsPart (map trim ss)
  trims-IsPart [] _ = tt
  trims-IsPart (s ∷ ss) (h, hs) =
      ((trim-All (λ c. nat_eq c sep ≡ false) s h, trim_twice s), trims-IsPart ss hs)

  pub parts-IsPart : (s : Text) → All IsPart (parts sep s)
  unfolding parts
  parts-IsPart s = trims-IsPart (split sep s) (split-Lacks sep s)
