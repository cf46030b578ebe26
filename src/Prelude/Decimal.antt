-- ===== src/Prelude/Decimal.antt =====
-- `u64::to_string` of a clock's seconds, and the byte order that SQLite and Rust's `str` compare
-- such strings by.
use Prim.Native.Nat.{ℕ, zero, suc, ◌+◌, ◌/◌, ◌%◌}
use mathlib.Core.Bool.{Bool, true, false, ◌||◌, ◌&&◌}
use mathlib.Core.List.{[], ◌∷◌, ◌++◌}
use aglack.Prelude.Tests.{ltb, nat_eq, if◌then◌else◌}
use aglack.Prelude.Text.{Text}

-- The digits of `n`, most significant first, for `n < 10 ^ fuel`.
digits_from : ℕ → ℕ → Text
digits_from zero n = []
digits_from (suc fuel) n =
    let upper = digits_from fuel (n / 10) in
    if ltb n 10 then (n + 48) ∷ [] else upper ++ (n % 10 + 48) ∷ []

-- A `u64` has at most 20 digits.
unfoldable pub to_text : ℕ → Text
unfolding digits_from
to_text n = digits_from 20 n

-- `a < b` on strings.
unfoldable pub text_lt : Text → Text → Bool
text_lt [] [] = false
text_lt [] (b ∷ bs) = true
text_lt (a ∷ as') [] = false
text_lt (a ∷ as') (b ∷ bs) = ltb a b || (nat_eq a b && text_lt as' bs)
