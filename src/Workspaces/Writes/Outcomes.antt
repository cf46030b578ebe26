-- ===== src/Workspaces/Writes/Outcomes.antt =====
-- What the statements return and leave behind where the database answers.
use mathlib.Core.Path.{◌≡◌, refl}
use mathlib.Core.Logic.{inl, inr}
use mathlib.Core.Bool.{not, true, false}
use mathlib.Core.Option
use mathlib.Core.Option.{Option, none, some}
use mathlib.Core.List.{◌++◌, [], ◌∷◌, ◌++◌}
use Prim.Native.Nat.{ℕ}
use aglack.Prelude.Tests.{if◌then◌else◌, Bool-cases}
use aglack.Prelude.Lists.{keep, any, find?, update_where, find?-update_where}
use aglack.Prelude.Text.{Text}
use aglack.Prelude.Decimal.{to_text}
use aglack.Prelude.Exec.{attempt, Run, ok, err, final}
use aglack.Workspaces.Rows.{WorkspaceRecord, record_from_row}
use aglack.Workspaces.Db.{
  unique_violation, SqlxError, row_not_found, Db, query, set_rows, has_key, has_id,
}
use aglack.Workspaces.Reads.{find, find_by_workspace_id}
use aglack.Workspaces.Writes.{
  insert_row, new_row, set_ready, set_failed, begin_creation, mark_ready, mark_failed,
  delete_by_workspace_id,
}
use aglack.Prelude.Exec.{attempt, ◌>>=◌}
use aglack.Prelude.Tests.{Option-cases}
use native.Mathlib.Omega.{arith}
use mathlib.Core.Path.{◌∙◌}
use mathlib.Core.Path.{sym}
use mathlib.Core.Path.{subst₂}
use mathlib.Core.List.{List}
use aglack.Workspaces.Rows.{Row}
use aglack.Prelude.Text.{eq_refl}

-- The database answers every statement from here on.
abbrev pub Answers : Db → Type 0
Answers db = db.faults ≡ []

pub query_of_Answers : (db : Db) → Answers db → query db ≡ ok tt db
unfolding query
query_of_Answers db a = rw a

pub find_of_Answers :
    (key : Text) (db : Db)
    → Answers db
    → find key db ≡ ok (Option.map record_from_row (find? (has_key key) db.rows)) db
unfolding find
find_of_Answers key db a = rw (query_of_Answers db a, ◌>>=◌)

pub find_by_workspace_id_of_Answers :
    (id : Text) (db : Db)
    → Answers db
    → find_by_workspace_id id db ≡ ok (Option.map record_from_row (find? (has_id id) db.rows)) db
unfolding find_by_workspace_id
find_by_workspace_id_of_Answers id db a = rw (query_of_Answers db a, ◌>>=◌)

abbrev pub or_not_found_at : Option WorkspaceRecord → Db → Run Db SqlxError WorkspaceRecord
or_not_found_at none db = err row_not_found db
or_not_found_at (some r) db = ok r db

pub mark_ready_of_Answers :
    (key container : Text) (p q r : ℕ) (db : Db)
    → Answers db
    → mark_ready key container p q r db
      ≡ or_not_found_at
          (Option.map
            (λ row. record_from_row (set_ready container p q r row))
            (find? (has_key key) db.rows))
          (record db { rows = update_where (has_key key) (set_ready container p q r) db.rows })
unfolding mark_ready
mark_ready_of_Answers key container p q r db a =
    let db' : Db = record db {
      rows = update_where (has_key key) (set_ready container p q r) db.rows;
    } in
    rw (query_of_Answers db a, ◌>>=◌)
      (rw (find_of_Answers key db' a, ◌>>=◌)
        (rw (find?-update_where (has_key key) (set_ready container p q r) db.rows (λ x. refl))
          (elim (Option-cases (find? (has_key key) db.rows)) [
            | inl e ↦ rw e
            | inr (row, e) ↦ rw e
          ])))

pub mark_failed_rows :
    (key : Text) (db : Db)
    → Answers db
    → final (mark_failed key db)
      ≡ record db { rows = update_where (has_key key) set_failed db.rows }
unfolding mark_failed
mark_failed_rows key db a =
    let db' : Db = record db { rows = update_where (has_key key) set_failed db.rows } in
    rw (query_of_Answers db a, ◌>>=◌)
      (rw (find_of_Answers key db' a, ◌>>=◌)
        (rw (find?-update_where (has_key key) set_failed db.rows (λ x. refl))
          (elim (Option-cases (find? (has_key key) db.rows)) [
            | inl e ↦ rw e
            | inr (row, e) ↦ rw e
          ])))

-- Deleting a workspace drops every row with its id, keeps the others, and says whether there was one.
pub delete_of_Answers :
    (id : Text) (db : Db)
    → Answers db
    → delete_by_workspace_id id db
      ≡ ok
          (any (has_id id) db.rows)
          (record db { rows = keep (λ row. not (has_id id row)) db.rows })
unfolding delete_by_workspace_id
delete_of_Answers id db a = rw (query_of_Answers db a, ◌>>=◌)

insert_of_Answers :
    (key id now : Text) (db : Db)
    → Answers db
    → insert_row (new_row key id now) db ≡ (
        if any (has_key key) db.rows
        then err unique_violation db
        else ok tt (record db { rows = db.rows ++ new_row key id now ∷ [] }))
unfolding insert_row set_rows
insert_of_Answers key id now db a =
    rw (query_of_Answers db a, ◌>>=◌)
      (elim (Bool-cases (any (has_key key) db.rows)) [ inl e ↦ rw e | inr e ↦ rw e ])

-- A key that has a row already is not claimed again: the row's record comes back, whoever made it
-- and in whatever state, and the table is as it was.
pub begin_creation_of_taken :
    (key id : Text) (db : Db)
    → Answers db
    → any (has_key key) db.rows ≡ true
    → begin_creation key id db
      ≡ or_not_found_at (Option.map record_from_row (find? (has_key key) db.rows)) db
unfolding begin_creation
begin_creation_of_taken key id db a taken =
    rw (insert_of_Answers key id (to_text db.now) db a, ◌>>=◌, attempt)
      (rw taken (
        rw (find_of_Answers key db a, ◌>>=◌)
          (elim (Option-cases (find? (has_key key) db.rows)) [
            | inl e ↦ rw e
            | inr (row, e) ↦ rw e
          ])))

-- A key without a row gets exactly one, at the end, with the caller's workspace id.
pub begin_creation_of_free :
    (key id : Text) (db : Db)
    → Answers db
    → any (has_key key) db.rows ≡ false
    → begin_creation key id db
      ≡ ok
          (record_from_row (new_row key id []))
          (record db { rows = db.rows ++ new_row key id (to_text db.now) ∷ [] })
unfolding begin_creation
begin_creation_of_free key id db a free =
    rw (insert_of_Answers key id (to_text db.now) db a, ◌>>=◌, attempt) (rw free)

find?-append_new :
    (key id now : Text) (rows : List Row)
    → any (has_key key) rows ≡ false
    → (find? (has_key key) (rows ++ new_row key id now ∷ []) ≡ some (new_row key id now))
      × (any (has_key key) (rows ++ new_row key id now ∷ []) ≡ true)
find?-append_new key id now [] e = let same = eq_refl key in (rw same, rw same)
find?-append_new key id now (row ∷ rows) e = elim (Bool-cases (has_key key row)) [
  | inl is ↦ absurd (ground arith)
  | inr isnt ↦ rw isnt (find?-append_new key id now rows (rw isnt at e))
]

-- Of two claims of a key the second changes nothing and gets the record that the first one got,
-- with the workspace id of whoever came first, whether the key was free before the first or not.
pub begin_creation_idempotent :
    (key id other_id : Text) (db db' : Db) (r : WorkspaceRecord)
    → Answers db
    → begin_creation key id db ≡ ok r db'
    → begin_creation key other_id db' ≡ ok r db'
begin_creation_idempotent key id other_id db db' r a e =
    elim (Bool-cases (any (has_key key) db.rows)) [
      | inl taken ↦ elim (Option-cases (find? (has_key key) db.rows)) [
        | inl missing ↦
            absurd (cc (rw missing at (sym (begin_creation_of_taken key id db a taken) ∙ e)))
        | inr (row, found) ↦
            let first : ◌≡◌ {A = Run Db SqlxError WorkspaceRecord} (ok (record_from_row row) db)
                (ok r db') =
              rw found at (sym (begin_creation_of_taken key id db a taken) ∙ e) in
            let p : record_from_row row ≡ r = cc in
            let q : db ≡ db' = cc in
            subst₂ (λ x y. begin_creation key other_id y ≡ ok x y) p q
              (begin_creation_of_taken key other_id db a taken ∙ rw found)
      ]
      | inr free ↦
          let first = sym (begin_creation_of_free key id db a free) ∙ e in
          let new : Db = record db { rows = db.rows ++ new_row key id (to_text db.now) ∷ [] } in
          let at_new = find?-append_new key id (to_text db.now) db.rows free in
          let p : record_from_row (new_row key id []) ≡ r = cc in
          let q : new ≡ db' = cc in
          subst₂ (λ x y. begin_creation key other_id y ≡ ok x y) p q
            (begin_creation_of_taken key other_id new a at_new.1 ∙ rw at_new.0)
    ]
