-- ===== src/Workspaces/Db.antt =====
-- workspaces/store.rs: `WorkspaceStore` over the table of `Rows`. An SQL statement is the list
-- operation that it stands for; whether the database answers is the environment's choice, the list
-- `faults` with one entry for each statement to come (true: the statement fails and changes
-- nothing; past its end every statement succeeds). `now` is the clock, in seconds.
use Prim.Native.Nat.{ℕ}
use mathlib.Core.Bool.{Bool, true, false}
use mathlib.Core.List.{List, [], ◌∷◌}
use aglack.Prelude.Text.{Text, ◌==◌}
use mathlib.Core.Path.{◌≡◌}
use native.Mathlib.Omega.{arith}
use aglack.Prelude.Exec.{final, ok, err, Exec}
use aglack.Workspaces.Rows.{Row}

pub data SqlxError : Type 0 where
  database unique_violation row_not_found : SqlxError

pub record Db : Type 0 where
  pub rows : List Row
  pub faults : List Bool
  pub now : ℕ

abbrev pub StoreM : Type 0 → Type 0
StoreM A = Exec Db SqlxError A

-- One statement reaches the database.
query_with : List Bool → StoreM (Unit {0})
query_with [] db = ok tt db
query_with (true ∷ later) db = err database (record db { faults = later })
query_with (false ∷ later) db = ok tt (record db { faults = later })

unfoldable pub query : StoreM (Unit {0})
unfolding query_with
query db = query_with db.faults db

unfoldable pub set_rows : (List Row → List Row) → StoreM (Unit {0})
set_rows f db = ok tt (record db { rows = f db.rows })

abbrev pub has_key : Text → Row → Bool
has_key key row = row.idempotency_key == key

abbrev pub has_id : Text → Row → Bool
has_id id row = row.workspace_id == id

-- A statement that fails, and one that is only counted, change no row.
pub rows-query : (db : Db) → (final (query db)).rows ≡ db.rows
unfolding query
rows-query db = ground arith
