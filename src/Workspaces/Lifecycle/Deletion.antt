-- ===== src/Workspaces/Lifecycle/Deletion.antt =====
-- What deletion does, in which order, on every branch.
use mathlib.Core.Path.{◌≡◌}
use mathlib.Core.Option.{some}
use mathlib.Core.Option.{none}
use mathlib.Core.List.{◌∷◌}
use mathlib.Core.List.{◌++◌}
use mathlib.Core.List.{[]}
use mathlib.Core.Bool.{not}
use aglack.Workspaces.Writes.Outcomes.{find_by_workspace_id_of_Answers}
use aglack.Workspaces.Writes.Outcomes.{delete_of_Answers}
use aglack.Workspaces.Writes.Outcomes.{Answers}
use aglack.Workspaces.Rows.{record_from_row}
use aglack.Workspaces.Rows.{Row}
use aglack.Workspaces.Lifecycle.{delete_workspace}
use aglack.Workspaces.Host.{on_store}
use aglack.Workspaces.Host.{call}
use aglack.Workspaces.Host.{World}
use aglack.Workspaces.Host.{Host}
use aglack.Workspaces.Host.{CreateWorkspaceError}
use aglack.Workspaces.Db.{has_id}
use aglack.Prelude.Text.{Text}
use aglack.Prelude.Lists.{keep}
use aglack.Prelude.Lists.{find?}
use aglack.Prelude.Exec.{◌>>=◌}
use aglack.Prelude.Exec.{ok}
use aglack.Prelude.Exec.{err}
use aglack.Workspaces.Host.{removes}
use mathlib.Core.Path.{refl}
use mathlib.Core.Option.{Option}
use mathlib.Core.Logic.{inr}
use mathlib.Core.Logic.{inl}
use mathlib.Core.List.{List}
use mathlib.Core.Bool.{Bool}
use aglack.Workspaces.Rows.{WorkspaceRecord}
use aglack.Prelude.Tests.{Option-cases}
use aglack.Prelude.Tests.{Bool-cases}
use aglack.Prelude.Exec.{Run-cases}
use aglack.Prelude.Exec.{Run}

-- The container is removed, and the rows with the id are dropped; the record is the first of them.
abbrev pub after_delete : {S : Type 0} → Text → World S → World S
after_delete id w = record w {
  db = record w.db { rows = keep (λ row. not (has_id id row)) w.db.rows };
}

module _ (h : Host) where
  open h use {State, remove}

  -- An id that no row has: nothing happens.
  delete_of_missing :
      (id : Text) (w : World State)
      → Answers w.db
      → find? (has_id id) w.db.rows ≡ none
      → delete_workspace h id w ≡ ok none w
  unfolding delete_workspace
  delete_of_missing id w a missing =
      rw (find_by_workspace_id_of_Answers id w.db a, ◌>>=◌, on_store) (rw missing)

  -- A workspace that never had a container: its rows go, and no container is touched.
  delete_of_bare :
      (id : Text) (w : World State) (row : Row)
      → Answers w.db
      → find? (has_id id) w.db.rows ≡ some row
      → row.container_name ≡ none
      → delete_workspace h id w ≡ ok (some (record_from_row row)) (after_delete id w)
  unfolding delete_workspace
  delete_of_bare id w row a found bare =
      rw (find_by_workspace_id_of_Answers id w.db a, ◌>>=◌, on_store)
        (rw found (rw bare (rw (delete_of_Answers id w.db a, ◌>>=◌, on_store))))

  -- Docker refuses: the error is returned, and the row is still there for a retry.
  delete_of_stuck :
      (id name : Text) (w : World State) (row : Row) (e : CreateWorkspaceError) (host : State)
      → Answers w.db
      → find? (has_id id) w.db.rows ≡ some row
      → row.container_name ≡ some name
      → remove name w.host ≡ err e host
      → delete_workspace h id w ≡ err e (record w { host = host; log = w.log ++ removes name ∷ [] })
  unfolding delete_workspace
  delete_of_stuck id name w row e host a found named refused =
      rw (find_by_workspace_id_of_Answers id w.db a, ◌>>=◌, on_store)
        (rw found (rw named (rw (refused, call, ◌>>=◌))))

  -- Docker removes the container: then, and only then, the rows with the id go.
  delete_of_removed :
      (id name : Text) (w : World State) (row : Row) (host : State)
      → Answers w.db
      → find? (has_id id) w.db.rows ≡ some row
      → row.container_name ≡ some name
      → remove name w.host ≡ ok tt host
      → delete_workspace h id w
        ≡ ok
            (some (record_from_row row))
            (after_delete id (record w { host = host; log = w.log ++ removes name ∷ [] }))
  unfolding delete_workspace
  delete_of_removed id name w row host a found named removed =
      rw (find_by_workspace_id_of_Answers id w.db a, ◌>>=◌, on_store)
        (rw found (
          rw named (rw (removed, call, ◌>>=◌) (rw (delete_of_Answers id w.db a, ◌>>=◌, on_store)))))

  -- What the first row with the id and Docker's answer decide.
  pub data Deletion (id : Text) (w : World State)
      : Option Row → Run (World State) CreateWorkspaceError (Option WorkspaceRecord) → Type 0 where
    missing : Deletion id w none (ok none w)
    bare :
        {row : Row}
        → row.container_name ≡ none
        → Deletion id w (some row) (ok (some (record_from_row row)) (after_delete id w))
    stuck :
        {row : Row} {name : Text} {e : CreateWorkspaceError} {host : State}
        → row.container_name ≡ some name
        → remove name w.host ≡ err e host
        → Deletion id w
            (some row)
            (err e (record w { host = host; log = w.log ++ removes name ∷ [] }))
    removed :
        {row : Row} {name : Text} {host : State}
        → row.container_name ≡ some name
        → remove name w.host ≡ ok tt host
        → Deletion id w (some row) (
            ok
              (some (record_from_row row))
              (after_delete id (record w { host = host; log = w.log ++ removes name ∷ [] })))

  -- With a database that answers, deleting a workspace does one of four things. Where no row has the
  -- id, nothing. Where the row has no container, its rows go. Where Docker refuses to remove the
  -- container, its error is returned and no row goes. Where Docker removes it, the rows go after it.
  pub delete_workspace-Deletion :
      (id : Text) (w : World State)
      → Answers w.db
      → Deletion id w (find? (has_id id) w.db.rows) (delete_workspace h id w)
  delete_workspace-Deletion id w a = elim (Option-cases (find? (has_id id) w.db.rows)) [
    | inl gone ↦ rw (gone, delete_of_missing id w a gone) missing
    | inr (row, found) ↦ elim (Option-cases row.container_name) [
      | inl none' ↦ rw (found, delete_of_bare id w row a found none') (bare none')
      | inr (name, named) ↦ elim (Run-cases (remove name w.host)) [
        | inl (done, host, e) ↦
            rw (found, delete_of_removed id name w row host a found named e) (removed named e)
        | inr (x, host, e) ↦
            rw (found, delete_of_stuck id name w row x host a found named e) (stuck named e)
      ]
    ]
  ]

find?-keep-not {ℓ} :
    {A : Type ℓ} (p : A → Bool) (xs : List A) → find? p (keep (λ x. not (p x)) xs) ≡ none
find?-keep-not p [] = refl
find?-keep-not p (x ∷ xs) = elim (Bool-cases (p x)) [
  | inl e ↦ rw e (find?-keep-not p xs)
  | inr e ↦ rw e (rw e (find?-keep-not p xs))
]

-- After a deletion no row has the id, so that a second deletion finds nothing.
pub find?-after_delete :
    {S : Type 0} (id : Text) (w : World S) → find? (has_id id) (after_delete id w).db.rows ≡ none
find?-after_delete id w = find?-keep-not (has_id id) w.db.rows
