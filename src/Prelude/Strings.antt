-- ===== src/Prelude/Strings.antt =====
-- The functions of Rust's `str` that the gateway walks its texts with.
use Prim.Native.Nat.{ℕ}
use mathlib.Core.Path.{◌≡◌, refl}
use native.Mathlib.Omega.{arith}
use mathlib.Core.Option.{some}
use mathlib.Core.Option.{none}
use mathlib.Core.Option.{Option}
use mathlib.Core.List.{◌∷◌}
use mathlib.Core.List.{◌++◌}
use mathlib.Core.List.{reverse}
use mathlib.Core.List.{map}
use mathlib.Core.List.{[]}
use mathlib.Core.List.{List}
use mathlib.Core.Bool.{◌||◌}
use mathlib.Core.Bool.{◌&&◌}
use mathlib.Core.Bool.{true}
use mathlib.Core.Bool.{Bool}
use aglack.Prelude.Text.{◌==◌}
use aglack.Prelude.Text.{Text}
use aglack.Prelude.Tests.{nat_eq}
use aglack.Prelude.Tests.{leb}
use aglack.Prelude.Tests.{if◌then◌else◌}
use aglack.Prelude.Lists.{is_some}
use Prim.Native.Nat.{◌+◌}
use mathlib.Core.Logic.{inr}
use mathlib.Core.Logic.{inl}
use mathlib.Core.Bool.{false}
use aglack.Prelude.Tests.{Option-cases}
use aglack.Prelude.Tests.{Bool-cases}
use aglack.Prelude.Lists.{All}

-- `str::strip_prefix`
unfoldable pub strip_prefix : Text → Text → Option Text
strip_prefix [] s = some s
strip_prefix (p ∷ ps) [] = none
strip_prefix (p ∷ ps) (c ∷ s) = if nat_eq p c then strip_prefix ps s else none

-- `str::starts_with`
unfoldable pub starts_with : Text → Text → Bool
unfolding strip_prefix
starts_with p s = is_some (strip_prefix p s)

-- `str::ends_with`
unfoldable pub ends_with : Text → Text → Bool
unfolding ◌==◌
ends_with p [] = p == []
ends_with p (c ∷ s) = p == (c ∷ s) || ends_with p s

abbrev cons_first : ℕ → Option (Text × Text) → Option (Text × Text)
cons_first c none = none
cons_first c (some (before, after)) = some (c ∷ before, after)

-- The rest of a search that has not matched here.
abbrev once_or : Option Text → Option (Text × Text) → Option (Text × Text)
once_or (some after) later = some ([], after)
once_or none later = later

-- `str::split_once`, at the first occurrence of the pattern.
unfoldable pub split_once : Text → Text → Option (Text × Text)
split_once p [] = once_or (strip_prefix p []) none
split_once p (c ∷ s) = once_or (strip_prefix p (c ∷ s)) (cons_first c (split_once p s))

abbrev cons_head : ℕ → List Text → List Text
cons_head c [] = (c ∷ []) ∷ []
cons_head c (s ∷ rest) = (c ∷ s) ∷ rest

-- `str::split` at a character.
unfoldable pub split : ℕ → Text → List Text
split sep [] = [] ∷ []
split sep (c ∷ s) = if nat_eq c sep then [] ∷ split sep s else cons_head c (split sep s)

-- `char::is_whitespace`
unfoldable pub is_whitespace : ℕ → Bool
is_whitespace c =
    (leb 9 c && leb c 13)
    || nat_eq c 32
    || nat_eq c 0x85
    || nat_eq c 0xA0
    || nat_eq c 0x1680
    || (leb 0x2000 c && leb c 0x200A)
    || nat_eq c 0x2028
    || nat_eq c 0x2029
    || nat_eq c 0x202F
    || nat_eq c 0x205F
    || nat_eq c 0x3000

unfoldable pub trim_start : Text → Text
trim_start [] = []
trim_start (c ∷ s) = if is_whitespace c then trim_start s else c ∷ s

-- `str::trim`
unfoldable pub trim : Text → Text
unfolding trim_start is_whitespace
trim s = reverse (trim_start (reverse (trim_start s)))

-- `[_]::join`
unfoldable pub join : Text → List Text → Text
join sep [] = []
join sep (s ∷ []) = s
join sep (s ∷ t ∷ rest) = s ++ (sep ++ join sep (t ∷ rest))

-- `u8::to_ascii_lowercase` on each character.
unfoldable pub to_ascii_lowercase : Text → Text
to_ascii_lowercase = map (λ c. if leb b'A' c && leb c b'Z' then c + 32 else c)

-- No character of the text is the separator.
abbrev pub Lacks : ℕ → Text → Type 0
Lacks sep s = All (λ c. nat_eq c sep ≡ false) s

abbrev pub first_part : List Text → Option Text
first_part [] = none
first_part (s ∷ rest) = some s

cons_head-first :
    (c : ℕ) (parts : List Text) (s : Text)
    → first_part parts ≡ some s
    → first_part (cons_head c parts) ≡ some (c ∷ s)
cons_head-first c [] s e = absurd (cc)
cons_head-first c (t ∷ rest) s e = cc e

cons_head-Lacks :
    (sep c : ℕ) (parts : List Text)
    → nat_eq c sep ≡ false
    → All (Lacks sep) parts
    → All (Lacks sep) (cons_head c parts)
cons_head-Lacks sep c [] e h = ((e, tt), tt)
cons_head-Lacks sep c (t ∷ rest) e (h, hs) = ((e, h), hs)

pub strip_prefix-append : (p s : Text) → strip_prefix p (p ++ s) ≡ some s
unfolding strip_prefix
strip_prefix-append [] s = refl
strip_prefix-append (c ∷ p) s = ground (arith, strip_prefix-append p s)

pub starts_with-append : (p s : Text) → starts_with p (p ++ s) ≡ true
unfolding starts_with
starts_with-append p s = rw (strip_prefix-append p s)

split_once_here :
    (p s : Text) {rest : Text} → strip_prefix p s ≡ some rest → is_some (split_once p s) ≡ true
unfolding split_once
split_once_here p [] e = rw e
split_once_here p (c ∷ s) e = rw e

is_some-cons_first :
    (c : ℕ) (o : Option (Text × Text)) → is_some o ≡ true → is_some (cons_first c o) ≡ true
is_some-cons_first c (some parts) e = refl
is_some-cons_first c none e = e

-- A text that holds the pattern is split.
pub split_once-append : (p s t : Text) → is_some (split_once p (s ++ (p ++ t))) ≡ true
unfolding split_once
split_once-append p [] t = split_once_here p (p ++ t) (strip_prefix-append p t)
split_once-append p (c ∷ s) t = elim (Option-cases (strip_prefix p (c ∷ (s ++ (p ++ t))))) [
  | inl e ↦ rw e (is_some-cons_first c _ (split_once-append p s t))
  | inr (rest, e) ↦ rw e
]

-- The first part of a split is what stands before the separator.
pub split-first :
    (sep : ℕ) (s t : Text) → Lacks sep s → first_part (split sep (s ++ sep ∷ t)) ≡ some s
unfolding split
split-first sep [] t _ = ground arith
split-first sep (c ∷ s) t (p, h) =
    rw p (cons_head-first c (split sep (s ++ sep ∷ t)) s (split-first sep s t h))

pub split_whole : (sep : ℕ) (s : Text) → Lacks sep s → split sep s ≡ s ∷ []
unfolding split
split_whole sep [] _ = refl
split_whole sep (c ∷ s) (p, h) = rw p (rw (split_whole sep s h))

-- No part of a split holds the separator.
pub split-Lacks : (sep : ℕ) (s : Text) → All (Lacks sep) (split sep s)
unfolding split
split-Lacks sep [] = (tt, tt)
split-Lacks sep (c ∷ s) = elim (Bool-cases (nat_eq c sep)) [
  | inl e ↦ rw e (tt, split-Lacks sep s)
  | inr e ↦ rw e (cons_head-Lacks sep c (split sep s) e (split-Lacks sep s))
]
