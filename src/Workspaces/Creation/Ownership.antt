-- ===== src/Workspaces/Creation/Ownership.antt =====
-- Whose a created workspace is.
use mathlib.Core.Path.{◌≡◌, refl}
use mathlib.Core.Logic.{inl, inr}
use mathlib.Core.Bool.{Bool, not, ◌&&◌}
use mathlib.Core.Option.{Option, none, some}
use mathlib.Core.List.{List, [], ◌∷◌}
use aglack.Prelude.Tests.{Bool-cases}
use aglack.Prelude.Text.{Text, eq_refl}
use aglack.Prelude.Strings.{trim}
use aglack.Prelude.Lists.{find?, update_where}
use aglack.Prelude.Exec.{Result, good, bad, ok, pure, ◌>>=◌, ◌>>◌, attempt, Run-cases}
use aglack.Prelude.Post.{Post, Post->>=, Post-any, Post_of_ok}
use aglack.Workspaces.Rows.{Row, WorkspaceRecord}
use aglack.Workspaces.Db.{Db, query, has_id}
use aglack.Workspaces.Reads.{find, has_owner}
use aglack.Workspaces.Writes.{set_owner}
use aglack.Workspaces.Host.{CreateWorkspaceError, store, container, Host, World, on_store}
use aglack.Workspaces.Lifecycle.{create_workspace}
use aglack.Workspaces.Creation.{
  CreateWorkspaceData, create_workspace_route_inner, unless_taken, after_creation, assign, is_empty,
  is_taken, data_of,
}

-- A row of the workspace that is not the user's.
abbrev pub is_foreign : Text → Text → Row → Bool
is_foreign id sub row = has_id id row && not (has_owner sub row)

abbrev AllOwned : Text → Text → List Row → Type 0
AllOwned id sub rows = find? (is_foreign id sub) rows ≡ none

owned-update_where :
    (id sub : Text) (rows : List Row)
    → AllOwned id sub
        (update_where (has_id id) (λ row. record row { owner_google_sub = some sub }) rows)
owned-update_where id sub [] = refl
owned-update_where id sub (row ∷ rows) = elim (Bool-cases (has_id id row)) [
  | inl is ↦ rw is (rw is (rw (eq_refl sub) (owned-update_where id sub rows)))
  | inr isnt ↦ rw isnt (rw isnt (owned-update_where id sub rows))
]

set_owner-Post :
    (id sub : Text) (db : Db) → Post (λ _ db'. AllOwned id sub db'.rows) (set_owner id sub db)
unfolding set_owner
set_owner-Post id sub db = elim (Run-cases (query db)) [
  | inl (a, db', e) ↦ rw (e, ◌>>=◌, ◌>>◌, Post) (owned-update_where id sub db'.rows)
  | inr (x, db', e) ↦ rw (e, ◌>>=◌, ◌>>◌, Post) tt
]

assign-Post :
    {S : Type 0} (sub : Text) (r : WorkspaceRecord) (w : World S)
    → Post (λ _ w'. AllOwned r.workspace_id sub w'.db.rows) (assign (some sub) r w)
assign-Post sub r w = elim (Run-cases (set_owner r.workspace_id sub w.db)) [
  | inl (a, db, e) ↦
      rw (e, ◌>>=◌, attempt, on_store, Post)
        (rw (e, Post) at (set_owner-Post r.workspace_id sub w.db))
  | inr (x, db, e) ↦ rw (e, ◌>>=◌, attempt, on_store, Post) tt
]

after_creation-Post :
    {S : Type 0} (sub : Text) (created : Result CreateWorkspaceError WorkspaceRecord) (w : World S)
    → Post
        (λ made w'. AllOwned made.workspace_id sub w'.db.rows)
        (after_creation (some sub) created w)
after_creation-Post sub (good r) w =
    Post->>= (λ _ w'. AllOwned r.workspace_id sub w'.db.rows)
      (λ made w'. AllOwned made.workspace_id sub w'.db.rows) (assign (some sub) r)
      (λ _. pure (data_of r)) w (assign-Post sub r w) (λ _ w' owned. owned)
after_creation-Post sub (bad (store e)) w = tt
after_creation-Post sub (bad (container message)) w = tt

module _ (h : Host) where
  open h use {State}

  unless_taken-Post :
      (name new_id sub : Text) (existing : Result CreateWorkspaceError (Option WorkspaceRecord))
      (w : World State)
      → Post
          (λ made w'. AllOwned made.workspace_id sub w'.db.rows)
          (unless_taken h name new_id (some sub) existing w)
  unless_taken-Post name new_id sub (bad e) w = tt
  unless_taken-Post name new_id sub (good existing) w = elim (Bool-cases (is_taken existing)) [
    | inl taken ↦ rw taken tt
    | inr free ↦ rw free (
        Post->>= (λ _ _. Unit {0}) (λ made w'. AllOwned made.workspace_id sub w'.db.rows)
          (attempt (create_workspace h name new_id)) (after_creation (some sub)) w (Post-any _)
          (λ created w' _. after_creation-Post sub created w'))
  ]

  -- A creation that a user asked for and that succeeded leaves the workspace that it names to that
  -- user: no row of that id has another owner, or none.
  pub create_workspace_route-owned :
      (name new_id sub : Text) (w w' : World State) (made : CreateWorkspaceData)
      → create_workspace_route_inner h name new_id (some sub) w ≡ ok made w'
      → find? (is_foreign made.workspace_id sub) w'.db.rows ≡ none
  unfolding create_workspace_route_inner
  create_workspace_route-owned name new_id sub w w' made e =
      elim (Bool-cases (is_empty (trim name))) [
        | inl blank ↦ absurd (cc (rw blank at e))
        | inr given ↦
            Post_of_ok (λ made w1. AllOwned made.workspace_id sub w1.db.rows)
              (Post->>= (λ _ _. Unit {0}) (λ made w1. AllOwned made.workspace_id sub w1.db.rows)
                (attempt (on_store (find (trim name))))
                (unless_taken h (trim name) new_id (some sub)) w (Post-any _)
                (λ existing w1 _. unless_taken-Post (trim name) new_id sub existing w1))
              (rw given at e)
      ]
