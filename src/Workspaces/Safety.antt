-- ===== src/Workspaces/Safety.antt =====
-- The table stays valid through store calls and host calls.
use Prim.Native.Nat.{◌<◌, ◌^◌}
use mathlib.Core.Path.{◌≡◌}
use mathlib.Core.Logic.{inl, inr}
use aglack.Prelude.Text.{Text}
use aglack.Prelude.Exec.{◌>>=◌, ok, Exec, Run-cases}
use aglack.Prelude.Keeps.{Keeps->>=, Keeps}
use aglack.Workspaces.Db.{StoreM}
use aglack.Workspaces.Invariant.{IsValid}
use aglack.Workspaces.Writes.{}
use aglack.Workspaces.Writes.Validity.{KeepsValid}
use aglack.Workspaces.Host.{
  CreateWorkspaceError, Host, LaunchedContainer, Event, World, on_store, call, probe,
}
use aglack.Workspaces.Host.{WorldM}

abbrev pub WorldIsValid : {S : Type 0} → World S → Type 0
WorldIsValid w = IsValid w.db.rows

abbrev pub Safe : {S E A : Type 0} → Exec (World S) E A → Type 0
Safe m = Keeps WorldIsValid m

pub on_store-Safe : {S A : Type 0} (m : StoreM A) → KeepsValid m → Safe (on_store {S = S} m)
on_store-Safe m k w v = elim (Run-cases (m w.db)) [
  | inl (a, db, e) ↦ rw (e, on_store) (rw e at (k w.db v))
  | inr (x, db, e) ↦ rw (e, on_store) (rw e at (k w.db v))
]

-- A store call, and what follows it.
pub then_store-Safe :
    {S A B : Type 0} (m : StoreM A) (f : A → WorldM S B)
    → KeepsValid m
    → ((a : A) → Safe (f a))
    → Safe (on_store m >>= f)
then_store-Safe m f k next = Keeps->>= WorldIsValid (on_store m) f (on_store-Safe m k) next

pub call-Safe :
    {S A : Type 0} (event : Event) (m : Exec S CreateWorkspaceError A) → Safe (call event m)
call-Safe event m w v = elim (Run-cases (m w.host)) [
  | inl (a, host, e) ↦ rw (e, call) v
  | inr (x, host, e) ↦ rw (e, call) v
]

pub probe-Safe : {S A : Type 0} (m : Exec S CreateWorkspaceError A) → Safe (probe m)
probe-Safe m w v = elim (Run-cases (m w.host)) [
  | inl (a, host, e) ↦ rw (e, probe) v
  | inr (x, host, e) ↦ rw (e, probe) v
]

-- The ports of a launched container are `u16`s, as the type of `LaunchedContainer` says.
pub record HasPorts (c : LaunchedContainer) : Type 0 where
  pub wrapper_fits : c.wrapper_port < 2 ^ 16
  pub desktop_fits : c.desktop_port < 2 ^ 16
  pub browser_fits : c.browser_port < 2 ^ 16

abbrev pub LaunchesPorts : Host → Type 0
LaunchesPorts h =
    (id : Text) (s s' : h.State) (c : LaunchedContainer) → h.launch id s ≡ ok c s' → HasPorts c
