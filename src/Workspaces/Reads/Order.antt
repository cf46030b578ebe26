-- ===== src/Workspaces/Reads/Order.antt =====
-- A listing holds rows of the table only, in another order.
use Prim.Native.Nat.{ℕ, zero, suc, ◌≤◌}
use mathlib.Core.Path.{◌≡◌}
use mathlib.Core.Logic.{inl, inr}
use mathlib.Core.Bool.{Bool, true}
use mathlib.Core.List.{List, [], ◌∷◌, reverse, reverse_aux}
use native.Mathlib.Omega.{arith}
use aglack.Prelude.Tests.{Bool-cases}
use aglack.Prelude.Lists.{All, keep, take, drop, length}
use aglack.Prelude.Decimal.{text_lt}
use aglack.Workspaces.Rows.{Row}
use aglack.Workspaces.Reads.{place, newest}

module _ (P : Row → Type 0) where
  All-place : (row : Row) (rows : List Row) → P row → All P rows → All P (place row rows)
  unfolding place
  All-place row [] p _ = (p, tt)
  All-place row (r ∷ rows) p (q, qs) = elim (Bool-cases (text_lt row.created_at r.created_at)) [
    | inl later ↦ rw later (q, All-place row rows p qs)
    | inr first ↦ rw first (p, (q, qs))
  ]

  pub All-newest : (rows : List Row) → All P rows → All P (newest rows)
  unfolding newest
  All-newest [] _ = tt
  All-newest (row ∷ rows) (p, ps) = All-place row (newest rows) p (All-newest rows ps)

  pub All-take : (n : ℕ) (rows : List Row) → All P rows → All P (take n rows)
  All-take zero rows _ = tt
  All-take (suc n) [] _ = tt
  All-take (suc n) (row ∷ rows) (p, ps) = (p, All-take n rows ps)

  pub All-drop : (n : ℕ) (rows : List Row) → All P rows → All P (drop n rows)
  All-drop zero rows ps = ps
  All-drop (suc n) [] ps = ps
  All-drop (suc n) (row ∷ rows) (p, ps) = All-drop n rows ps

  All-reverse_aux : (rows done : List Row) → All P rows → All P done → All P (reverse_aux rows done)
  All-reverse_aux [] done _ d = d
  All-reverse_aux (row ∷ rows) done (p, ps) d = All-reverse_aux rows (row ∷ done) ps (p, d)

  pub All-reverse : (rows : List Row) → All P rows → All P (reverse rows)
  All-reverse rows ps = All-reverse_aux rows [] ps tt

pub All-kept : (p : Row → Bool) (rows : List Row) → All (λ row. p row ≡ true) (keep p rows)
All-kept p [] = tt
All-kept p (row ∷ rows) = elim (Bool-cases (p row)) [
  | inl e ↦ rw e (e, All-kept p rows)
  | inr e ↦ rw e (All-kept p rows)
]

pub length-take : (n : ℕ) (rows : List Row) → length (take n rows) ≤ n
length-take zero rows = omega arith
length-take (suc n) [] = omega arith
length-take (suc n) (row ∷ rows) = omega (arith, length-take n rows)
