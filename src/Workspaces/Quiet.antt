-- ===== src/Workspaces/Quiet.antt =====
-- Actions that change neither the table nor a container.
use Prim.Native.Nat.{ℕ, suc, ◌+◌}
use mathlib.Core.Path.{◌≡◌}
use mathlib.Core.Logic.{inl, inr}
use mathlib.Core.List.{List, [], ◌∷◌, ◌++◌}
use native.Mathlib.Omega.{arith}
use aglack.Prelude.Exec.{Exec, Run-cases}
use aglack.Prelude.Keeps.{Keeps}
use aglack.Workspaces.Rows.{Row}
use aglack.Workspaces.Host.{
  CreateWorkspaceError, Event, launches, removes, inspects, stops, starts, sleeps, World, call,
  probe,
}

-- How many of the calls made a container, or stopped, started or removed one.
abbrev pub mutations : List Event → ℕ
mutations [] = 0
mutations (launches id ∷ es) = suc (mutations es)
mutations (removes name ∷ es) = suc (mutations es)
mutations (inspects name ∷ es) = mutations es
mutations (stops name ∷ es) = suc (mutations es)
mutations (starts name ∷ es) = suc (mutations es)
mutations (sleeps ms ∷ es) = mutations es

pub mutations-append : (es fs : List Event) → mutations (es ++ fs) ≡ mutations es + mutations fs
mutations-append [] fs = omega arith
mutations-append (launches id ∷ es) fs = omega (arith, mutations-append es fs)
mutations-append (removes name ∷ es) fs = omega (arith, mutations-append es fs)
mutations-append (inspects name ∷ es) fs = mutations-append es fs
mutations-append (stops name ∷ es) fs = omega (arith, mutations-append es fs)
mutations-append (starts name ∷ es) fs = omega (arith, mutations-append es fs)
mutations-append (sleeps ms ∷ es) fs = mutations-append es fs

-- The table is `rows`, and `n` calls have changed containers.
pub record IsQuiet (rows : List Row) (n : ℕ) {S : Type 0} (w : World S) : Type 0 where
  pub same_rows : w.db.rows ≡ rows
  pub same_count : mutations w.log ≡ n

abbrev pub Quiet : {S E A : Type 0} → Exec (World S) E A → Type 0
Quiet m = (rows : List Row) (n : ℕ) → Keeps (IsQuiet rows n) m

pub probe-Quiet : {S A : Type 0} (m : Exec S CreateWorkspaceError A) → Quiet (probe m)
probe-Quiet m rows n w q = elim (Run-cases (m w.host)) [
  | inl (a, host, e) ↦ rw (e, probe) (record { same_rows = q.same_rows; same_count = q.same_count })
  | inr (x, host, e) ↦ rw (e, probe) (record { same_rows = q.same_rows; same_count = q.same_count })
]

pub call-Quiet :
    {S A : Type 0} (event : Event) (m : Exec S CreateWorkspaceError A)
    → mutations (event ∷ []) ≡ 0
    → Quiet (call event m)
call-Quiet event m none_more rows n w q =
    let count : mutations (w.log ++ event ∷ []) ≡ n =
      omega (arith, mutations-append w.log (event ∷ []), none_more, q.same_count) in
    elim (Run-cases (m w.host)) [
      | inl (a, host, e) ↦ rw (e, call) (record { same_rows = q.same_rows; same_count = count })
      | inr (x, host, e) ↦ rw (e, call) (record { same_rows = q.same_rows; same_count = count })
    ]
