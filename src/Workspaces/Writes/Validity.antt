-- ===== src/Workspaces/Writes/Validity.antt =====
-- Every statement of workspaces/store.rs keeps the table valid, whether the database answers or not.
use Prim.Native.Nat.{ℕ, ◌<◌, ◌^◌}
use mathlib.Core.Path.{◌≡◌, refl}
use mathlib.Core.Logic.{inl, inr}
use mathlib.Core.Bool.{Bool, not}
use mathlib.Core.Option.{Option, none, some}
use mathlib.Core.List.{List}
use aglack.Prelude.Tests.{Bool-cases}
use aglack.Prelude.Lists.{any, update_where}
use aglack.Prelude.Text.{Text}
use aglack.Prelude.Decimal.{to_text}
use aglack.Prelude.Exec.{◌>>=◌, Result, good, bad, ◌>>◌, get_state, attempt}
use aglack.Prelude.Keeps.{Keeps, Keeps->>=, Keeps-attempt}
use aglack.Workspaces.Rows.{Row, WorkspaceRecord}
use aglack.Workspaces.Db.{
  SqlxError, unique_violation, Db, StoreM, query, rows-query, set_rows, has_key, has_id,
}
use aglack.Workspaces.Reads.{find, find_by_workspace_id, list_ready_with_container}
use aglack.Workspaces.Invariant.{
  IsValid, IsSound, set_owner-IsSound, append-IsValid, keep-IsValid, update_where-IsValid,
  new_row-IsSound, set_ready-IsSound, set_failed-IsSound,
}
use aglack.Workspaces.Writes.{
  or_not_found, insert_row, new_row, claim, set_ready, set_failed, begin_creation, mark_ready,
  mark_failed, delete_by_workspace_id, mark_ready_by_workspace_id, mark_failed_by_workspace_id,
  set_owner,
}

abbrev pub DbIsValid : Db → Type 0
DbIsValid db = IsValid db.rows

abbrev pub KeepsValid : {A : Type 0} → StoreM A → Type 0
KeepsValid m = Keeps DbIsValid m

query-keeps : KeepsValid query
query-keeps db v = rw (rows-query db) v

get_state-keeps : KeepsValid get_state
get_state-keeps db v = v

set_rows-keeps :
    (f : List Row → List Row)
    → ((rows : List Row) → IsValid rows → IsValid (f rows))
    → KeepsValid (set_rows f)
unfolding set_rows
set_rows-keeps f k db v = k db.rows v

-- A statement that reads: whatever it computes from the state, the rows stay.
pub find-keeps : (key : Text) → KeepsValid (find key)
unfolding find
find-keeps key = Keeps->>= DbIsValid query _ query-keeps λ _ db v. v

pub find_by_workspace_id-keeps : (id : Text) → KeepsValid (find_by_workspace_id id)
unfolding find_by_workspace_id
find_by_workspace_id-keeps id = Keeps->>= DbIsValid query _ query-keeps λ _ db v. v

pub list_ready_with_container-keeps : KeepsValid list_ready_with_container
unfolding list_ready_with_container
list_ready_with_container-keeps = Keeps->>= DbIsValid query _ query-keeps λ _ db v. v

or_not_found-keeps : (found : Option WorkspaceRecord) → KeepsValid (or_not_found found)
unfolding or_not_found
or_not_found-keeps none db v = v
or_not_found-keeps (some r) db v = v

insert_row-keeps : (key id now : Text) → KeepsValid (insert_row (new_row key id now))
unfolding insert_row set_rows
insert_row-keeps key id now = Keeps->>= DbIsValid query _ query-keeps λ _ db v.
    elim (Bool-cases (any (has_key key) db.rows)) [
      | inl e ↦ rw e v
      | inr e ↦ rw e (append-IsValid (new_row key id now) db.rows (new_row-IsSound key id now) e v)
    ]

claim-keeps : (key id : Text) (r : Result SqlxError (Unit {0})) → KeepsValid (claim key id r)
unfolding claim
claim-keeps key id (good done) db v = v
claim-keeps key id (bad unique_violation) db v =
    Keeps->>= DbIsValid (find key) or_not_found (find-keeps key) or_not_found-keeps db v
claim-keeps key id (bad _) db v = v

pub begin_creation-keeps : (key id : Text) → KeepsValid (begin_creation key id)
unfolding begin_creation
begin_creation-keeps key id db v =
    Keeps->>= DbIsValid (attempt (insert_row (new_row key id (to_text db.now)))) (claim key id)
      (Keeps-attempt DbIsValid SqlxError (insert_row (new_row key id (to_text db.now)))
        (insert_row-keeps key id (to_text db.now)))
      (claim-keeps key id) db v

mark_all :
    {A : Type 0} (p : Row → Bool) (f : Row → Row) (then' : StoreM A)
    → ((row : Row) → (f row).idempotency_key ≡ row.idempotency_key)
    → ((row : Row) → IsSound row → IsSound (f row))
    → KeepsValid then'
    → KeepsValid (do query; set_rows (update_where p f); then')
mark_all p f then' same k next = Keeps->>= DbIsValid query _ query-keeps λ _.
    Keeps->>= DbIsValid (set_rows (update_where p f)) _
      (set_rows-keeps _ (λ rows v. update_where-IsValid p f same rows k v)) (λ _. next)

module _ (container : Text) (p q r : ℕ) (p_fits : p < 2 ^ 16) (q_fits : q < 2 ^ 16)
    (r_fits : r < 2 ^ 16) where
  pub mark_ready-keeps : (key : Text) → KeepsValid (mark_ready key container p q r)
  unfolding mark_ready
  mark_ready-keeps key =
      mark_all (has_key key) (set_ready container p q r) (find key >>= or_not_found) (λ row. refl)
        (λ row s. set_ready-IsSound container p q r row p_fits q_fits r_fits s)
        (Keeps->>= DbIsValid (find key) or_not_found (find-keeps key) or_not_found-keeps)

  pub mark_ready_by_workspace_id-keeps :
      (id : Text) → KeepsValid (mark_ready_by_workspace_id id container p q r)
  unfolding mark_ready_by_workspace_id
  mark_ready_by_workspace_id-keeps id =
      mark_all (has_id id) (set_ready container p q r) (find_by_workspace_id id) (λ row. refl)
        (λ row s. set_ready-IsSound container p q r row p_fits q_fits r_fits s)
        (find_by_workspace_id-keeps id)

pub mark_failed-keeps : (key : Text) → KeepsValid (mark_failed key)
unfolding mark_failed
mark_failed-keeps key =
    mark_all (has_key key) set_failed (find key >>= or_not_found) (λ row. refl) set_failed-IsSound
      (Keeps->>= DbIsValid (find key) or_not_found (find-keeps key) or_not_found-keeps)

pub mark_failed_by_workspace_id-keeps : (id : Text) → KeepsValid (mark_failed_by_workspace_id id)
unfolding mark_failed_by_workspace_id
mark_failed_by_workspace_id-keeps id =
    mark_all (has_id id) set_failed (find_by_workspace_id id) (λ row. refl) set_failed-IsSound
      (find_by_workspace_id-keeps id)

pub set_owner-keeps : (id owner : Text) → KeepsValid (set_owner id owner)
unfolding set_owner
set_owner-keeps id owner = Keeps->>= DbIsValid query _ query-keeps λ _. set_rows-keeps _ (λ rows v.
    update_where-IsValid (has_id id) _ (λ row. refl) rows (λ row s. set_owner-IsSound owner row s)
      v)

pub delete_by_workspace_id-keeps : (id : Text) → KeepsValid (delete_by_workspace_id id)
unfolding delete_by_workspace_id set_rows
delete_by_workspace_id-keeps id =
    Keeps->>= DbIsValid query _ query-keeps
      λ _ db v. keep-IsValid (λ row. not (has_id id row)) db.rows v
