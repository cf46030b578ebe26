-- ===== src/Workspaces/Docker/Waiting.antt =====
-- Waiting for a container ends.
use Prim.Native.Nat.{ℕ, zero, suc, ◌+◌, ◌*◌, ◌/◌, ◌≤◌}
use mathlib.Core.Path.{◌≡◌, refl, ap}
use mathlib.Core.Logic.{inl, inr}
use mathlib.Core.Option.{Option, some}
use native.Mathlib.Omega.{arith}
use aglack.Prelude.Tests.{leb, Bool-cases}
use aglack.Prelude.Text.{Text}
use aglack.Prelude.Exec.{Run, ok, err}
use aglack.Workspaces.Host.{CreateWorkspaceError}
use aglack.Workspaces.Docker.{Machine}
use aglack.Workspaces.Docker.Health.{answer, poll_until, ended, wait_until, poll_interval}

-- `Instant` never goes back, and a sleep lasts as long as it is asked to.
pub record Ticks (m : Machine) : Type 0 where
  pub asks : (url : Text) (s : m.State) → m.now s ≤ m.now (answer (m.http_get url s)).1
  pub sleeps : (ms : ℕ) (s : m.State) → m.now s + ms ≤ m.now (m.sleep ms s)

-- A loop that ends, and that fails behind its deadline only.
abbrev pub FailsLate : (m : Machine) → ℕ → Run m.State CreateWorkspaceError (Unit {0}) → Type 0
FailsLate m deadline (ok a s) = Unit
FailsLate m deadline (err e s) = deadline ≤ m.now s

abbrev pub SameLoop :
    (m : Machine)
    → ℕ
    → Option (Run m.State CreateWorkspaceError (Unit {0}))
    → Option (Run m.State CreateWorkspaceError (Unit {0}))
    → Type 0
SameLoop m deadline few many =
    (run : Run m.State CreateWorkspaceError (Unit {0})) × (few ≡ some run)
    × (many ≡ some run)
    × FailsLate m deadline run

module _ (m : Machine) (ticks : Ticks m) (url : Text) (deadline : ℕ)
    (late : CreateWorkspaceError) where
  poll_until_ends :
      (fuel n : ℕ) (s : m.State)
      → deadline ≤ m.now s + 500 * fuel
      → fuel ≤ n
      → SameLoop m deadline
          (poll_until m (suc fuel) url deadline late s)
          (poll_until m (suc n) url deadline late s)
  unfolding poll_until
  poll_until_ends zero n s bound le =
      let asked = answer (m.http_get url s) in
      elim (Bool-cases asked.0) [
        | inl healthy ↦ rw (poll_until, healthy) (ok tt asked.1, refl, refl, tt)
        | inr not_yet ↦ elim (Bool-cases (leb deadline (m.now asked.1))) [
          | inl over ↦
              rw (poll_until, not_yet, over)
                (err late asked.1, refl, refl, omega (arith, bound, ticks.asks url s))
          | inr early ↦ absurd (ground (arith, early, bound, ticks.asks url s))
        ]
      ]
  poll_until_ends (suc fuel) zero s bound le = absurd (omega arith)
  poll_until_ends (suc fuel) (suc n) s bound le =
      let asked = answer (m.http_get url s) in
      elim (Bool-cases asked.0) [
        | inl healthy ↦ rw (poll_until, healthy) (ok tt asked.1, refl, refl, tt)
        | inr not_yet ↦ elim (Bool-cases (leb deadline (m.now asked.1))) [
          | inl over ↦
              rw (poll_until, not_yet, over) (err late asked.1, refl, refl, ground (arith, over))
          | inr early ↦
              rw (poll_until, not_yet, early)
                (poll_until_ends fuel n (m.sleep poll_interval asked.1)
                  (omega (arith, bound, ticks.asks url s, ticks.sleeps poll_interval asked.1))
                  (omega arith))
        ]
      ]

module _ (m : Machine) (ticks : Ticks m) (url : Text) (timeout : ℕ)
    (late : CreateWorkspaceError) where
  -- Waiting ends: for any number of rounds from `timeout / 500 + 2` on, the loop with that many
  -- rounds returns, always with the same result, which is the result of the wait; and the wait fails
  -- only when the timeout is over. The clock does not go back, and a sleep lasts as long as asked.
  pub wait_until_Ends :
      (n : ℕ) (s : m.State)
      → timeout / 500 + 2 ≤ n
      → (poll_until m n url (m.now s + timeout) late s ≡ some (wait_until m url timeout late s))
        × FailsLate m (m.now s + timeout) (wait_until m url timeout late s)
  unfolding wait_until
  wait_until_Ends zero s le = absurd (omega arith)
  wait_until_Ends (suc n) s le =
      let (run, few, many, fails) =
        poll_until_ends m ticks url (m.now s + timeout) late (timeout / 500 + 1) n s (omega arith)
          (omega arith) in
      let same : wait_until m url timeout late s ≡ run = ap (ended m late s) few in
      rw same (many, fails)
