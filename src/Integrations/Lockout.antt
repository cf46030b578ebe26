-- ===== src/Integrations/Lockout.antt =====
-- integrations/mcp_proxy.rs: `McpBearerLockout`, which throttles guesses of a workspace's bearer.
-- Times are milliseconds of one monotonic clock.
pub mod Throttling
use Prim.Native.Nat.{ℕ, ◌+◌, ◌-◌, ◌%◌, ◌^◌}
use mathlib.Core.Bool.{Bool, true, false}
use mathlib.Core.Option.{Option, none, some}
use mathlib.Core.List.{List}
use aglack.Prelude.Text.{Text}
use aglack.Prelude.Tests.{ltb}
use aglack.Prelude.Tests.{leb}
use aglack.Prelude.Tests.{if◌then◌else◌}
use aglack.Prelude.Maps.{insert}
use aglack.Prelude.Maps.{get}

pub record WorkspaceBearerFailures : Type 0 where
  pub count : ℕ
  pub window_start : ℕ
  pub last_audited : Option ℕ

abbrev pub max_bearer_failures_per_window : ℕ
max_bearer_failures_per_window = 10

abbrev pub bearer_lockout_window : ℕ
bearer_lockout_window = 300000

abbrev pub invalid_bearer_audit_interval : ℕ
invalid_bearer_audit_interval = 60000

abbrev pub default : ℕ → WorkspaceBearerFailures
default now = record { count = 0; window_start = now; last_audited = none }

abbrev pub Lockout : Type 0
Lockout = List (Text × WorkspaceBearerFailures)

pub data LockoutDecision : Type 0 where
  locked : LockoutDecision
  allowed : (should_audit_on_failure : Bool) → LockoutDecision

-- `entry(..).or_default()`
abbrev pub or_default : ℕ → Option WorkspaceBearerFailures → WorkspaceBearerFailures
or_default now none = default now
or_default now (some entry) = entry

-- An entry whose window is over starts again. `elapsed` stops at 0, as `-` does.
abbrev pub renewed : ℕ → WorkspaceBearerFailures → WorkspaceBearerFailures
renewed now entry =
    if ltb bearer_lockout_window (now - entry.window_start) then default now else entry

abbrev pub audit_due : ℕ → Option ℕ → Bool
audit_due now none = true
audit_due now (some last) = leb invalid_bearer_audit_interval (now - last)

abbrev pub decide : ℕ → WorkspaceBearerFailures → LockoutDecision
decide now entry =
    if leb max_bearer_failures_per_window entry.count
    then locked
    else allowed (audit_due now entry.last_audited)

-- The entry as `check` leaves it, then the decision that it gives.
unfoldable pub check : ℕ → Text → Lockout → LockoutDecision × Lockout
check now id workspaces =
    let entry = renewed now (or_default now (get id workspaces)) in
    (decide now entry, insert id entry workspaces)

abbrev pub marked : ℕ → Bool → Option ℕ → Option ℕ
marked now true last = some now
marked now false last = last

-- `count` is a `u32`.
unfoldable pub record_failure : ℕ → Text → Bool → Lockout → Lockout
record_failure now id did_audit workspaces =
    let entry = or_default now (get id workspaces) in
    insert id
      (record entry {
        count = (entry.count + 1) % 2 ^ 32;
        last_audited = marked now did_audit entry.last_audited;
      })
      workspaces

unfoldable pub record_success : ℕ → Text → Lockout → Lockout
record_success now id workspaces = insert id (default now) workspaces
