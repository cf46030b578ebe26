-- ===== src/Integrations/Lockout/Throttling.antt =====
-- When a workspace is locked out, and for how long.
use Prim.Native.Nat.{ℕ, ◌+◌, ◌-◌, ◌^◌, ◌<◌, ◌≤◌}
use mathlib.Core.Path.{◌≡◌, refl}
use mathlib.Core.Bool.{Bool, true, false}
use mathlib.Core.Option.{some}
use mathlib.Core.List.{List, [], ◌∷◌}
use native.Mathlib.Omega.{arith}
use mathlib.Core.Path.{◌∙◌}
use aglack.Prelude.Text.{◌==◌}
use aglack.Prelude.Text.{Text}
use aglack.Prelude.Maps.{get-insert_other}
use aglack.Prelude.Maps.{get-insert}
use aglack.Prelude.Maps.{get}
use aglack.Prelude.Lists.{length}
use aglack.Integrations.Lockout.{renewed}
use aglack.Integrations.Lockout.{record_success}
use aglack.Integrations.Lockout.{record_failure}
use aglack.Integrations.Lockout.{marked}
use aglack.Integrations.Lockout.{default}
use aglack.Integrations.Lockout.{decide}
use aglack.Integrations.Lockout.{check}
use aglack.Integrations.Lockout.{WorkspaceBearerFailures}
use aglack.Integrations.Lockout.{Lockout}
use Prim.Native.Nat.{◌%◌}
use aglack.Integrations.Lockout.{locked}
use aglack.Integrations.Lockout.{allowed}

-- Failures of one workspace, each with its time and whether it was audited.
abbrev pub record_failures : Text → List (ℕ × Bool) → Lockout → Lockout
record_failures id [] w = w
record_failures id ((at_time, audited) ∷ fs) w =
    record_failures id fs (record_failure at_time id audited w)

check_of_entry :
    (now : ℕ) (id : Text) (w : Lockout) (entry : WorkspaceBearerFailures)
    → get id w ≡ some entry
    → (check now id w).0 ≡ decide now (renewed now entry)
unfolding check
check_of_entry now id w entry e = rw e refl

pub get-record_failure :
    (now : ℕ) (id : Text) (audited : Bool) (w : Lockout) (entry : WorkspaceBearerFailures)
    → get id w ≡ some entry
    → get id (record_failure now id audited w)
      ≡ some (record entry {
        count = (entry.count + 1) % 2 ^ 32;
        last_audited = marked now audited entry.last_audited;
      })
unfolding record_failure
get-record_failure now id audited w entry e = rw e (get-insert id _ w)

-- Ten failures in a window lock the workspace for the rest of the window, however they are spread
-- over it and whichever of them were audited. The count stays below the bound of its type.
pub check_after_failures :
    (id : Text) (fs : List (ℕ × Bool)) (now : ℕ) (w : Lockout) (entry : WorkspaceBearerFailures)
    → get id w ≡ some entry
    → now - entry.window_start ≤ 300000
    → 10 ≤ entry.count + length fs
    → entry.count + length fs < 2 ^ 32
    → (check now id (record_failures id fs w)).0 ≡ locked
check_after_failures id [] now w entry e in_window many fits =
    check_of_entry now id w entry e ∙ ground (arith, in_window, many)
check_after_failures id ((at_time, audited) ∷ fs) now w entry e in_window many fits =
    check_after_failures id fs now (record_failure at_time id audited w)
      (record entry {
        count = (entry.count + 1) % 2 ^ 32;
        last_audited = marked at_time audited entry.last_audited;
      })
      (get-record_failure at_time id audited w entry e) in_window (omega (arith, many, fits))
      (omega (arith, fits))

-- When the window is over, the next check lets the workspace through again, with a fresh entry.
pub check_after_window :
    (id : Text) (now : ℕ) (w : Lockout) (entry : WorkspaceBearerFailures)
    → get id w ≡ some entry
    → 300000 < now - entry.window_start
    → ((check now id w).0 ≡ allowed true) × (get id (check now id w).1 ≡ some (default now))
unfolding check
check_after_window id now w entry e over =
    let reset : renewed now entry ≡ default now = ground (arith, over) in
    (rw e (rw reset refl), rw e (rw reset (get-insert id (default now) w)))

-- What the routes do with the lockout.
pub data LockoutStep : Type 0 where
  checks : LockoutStep
  fails : (did_audit : Bool) → LockoutStep
  succeeds : LockoutStep

unfoldable pub step : ℕ → Text → LockoutStep → Lockout → Lockout
step now id checks w = (check now id w).1
step now id (fails did_audit) w = record_failure now id did_audit w
step now id succeeds w = record_success now id w

-- No workspace can lock another one out, or free it: whatever happens to one, every check of
-- another decides as it would have.
pub step_isolated :
    (id other : Text) (now later : ℕ) (s : LockoutStep) (w : Lockout)
    → (id == other) ≡ false
    → (check later other (step now id s w)).0 ≡ (check later other w).0
unfolding step check record_failure record_success
step_isolated id other now later checks w apart = rw (get-insert_other other id _ w apart) refl
step_isolated id other now later (fails did_audit) w apart =
    rw (get-insert_other other id _ w apart) refl
step_isolated id other now later succeeds w apart = rw (get-insert_other other id _ w apart) refl
