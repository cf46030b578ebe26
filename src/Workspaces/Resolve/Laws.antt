-- ===== src/Workspaces/Resolve/Laws.antt =====
-- What a proxy route may rely on when it resolves a workspace.
use Prim.Native.Nat.{ℕ}
use mathlib.Core.Path.{◌≡◌}
use mathlib.Core.Option.{Option, none, some}
use aglack.Prelude.Exec.{Run, ok, err}
use aglack.Response.{Response, error, not_found, conflict}
use aglack.Workspaces.Rows.{Row, ready, from_db_str}
use aglack.Workspaces.Db.{Db}
use aglack.Workspaces.Resolve.{ReadyWorkspacePorts}
use mathlib.Core.Logic.{◌≢◌}
use aglack.Workspaces.Resolve.{resolve_ready_workspace}
use aglack.Workspaces.Resolve.{ports_of}
use Prim.Native.Nat.{◌<◌}
use aglack.Workspaces.Resolve.{Text}
use aglack.Prelude.Lists.{is_some}
use Prim.Native.Nat.{◌^◌}
use aglack.Workspaces.Writes.Validity.{DbIsValid}
use aglack.Workspaces.Writes.Outcomes.{Answers}
use aglack.Workspaces.Resolve.{as_u16}
use mathlib.Core.Bool.{true}
use native.Mathlib.Omega.{arith}
use aglack.Workspaces.Invariant.{Fits}
use aglack.Prelude.Lists.{find?}
use aglack.Workspaces.Db.{has_id}
use aglack.Workspaces.Writes.Outcomes.{find_by_workspace_id_of_Answers}
use aglack.Prelude.Exec.{◌>>=◌}
use aglack.Prelude.Exec.{attempt}
use aglack.Prelude.Tests.{Option-cases}
use mathlib.Core.Logic.{inl}
use mathlib.Core.Logic.{inr}
use aglack.Prelude.Tests.{Bool-cases}
use aglack.Workspaces.Resolve.{status_eq}
use mathlib.Core.Path.{refl}
use aglack.Workspaces.Rows.{status_of_eq}
use aglack.Workspaces.Invariant.{IsSound}
use aglack.Prelude.Lists.{All-find?}

-- What the first row with the id decides: the answer 404 or 409, or the ports.
pub data Resolved (db : Db) : Option Row → Run Db Response ReadyWorkspacePorts → Type 0 where
  unknown : Resolved db none (err (error not_found "workspace_not_found") db)
  not_ready :
      {row : Row}
      → from_db_str row.status ≢ ready
      → Resolved db (some row) (err (error conflict "workspace_not_ready") db)
  forwarded :
      {row : Row} {wrapper desktop browser : ℕ}
      → from_db_str row.status ≡ ready
      → row.host_port ≡ some wrapper
      → row.desktop_port ≡ some desktop
      → row.browser_port ≡ some browser
      → Resolved db (some row) (
          ok (record { wrapper_port = wrapper; desktop_port = desktop; browser_port = browser }) db)

fits_as_u16 : (n : ℕ) → n < 2 ^ 16 → as_u16 n ≡ n
fits_as_u16 n h = omega arith

ports_of-Resolved :
    (db : Db) (row : Row) (p q r : Option ℕ)
    → from_db_str row.status ≡ ready
    → row.host_port ≡ p
    → row.desktop_port ≡ q
    → row.browser_port ≡ r
    → is_some p ≡ true
    → is_some q ≡ true
    → is_some r ≡ true
    → Fits p
    → Fits q
    → Fits r
    → Resolved db (some row) (ports_of p q r db)
unfolding ports_of
ports_of-Resolved db row (some p) (some q) (some r) is ep eq er hp hq hr fp fq fr =
    rw (fits_as_u16 p fp, fits_as_u16 q fq, fits_as_u16 r fr) (forwarded is ep eq er)
ports_of-Resolved db row none q r is ep eq er hp hq hr fp fq fr = absurd (cc)
ports_of-Resolved db row (some p) none r is ep eq er hp hq hr fp fq fr = absurd (cc)
ports_of-Resolved db row (some p) (some q) none is ep eq er hp hq hr fp fq fr = absurd (cc)

-- On a valid table, with a database that answers, resolving an id gives 404 where no row has the
-- id, 409 where the first such row does not read as ready, and else exactly the three ports that the
-- row holds: the 500 for a missing port does not occur, and the cast to `u16` loses nothing.
pub resolve_ready_workspace-Resolved :
    (id : Text) (db : Db)
    → DbIsValid db
    → Answers db
    → Resolved db (find? (has_id id) db.rows) (resolve_ready_workspace id db)
unfolding resolve_ready_workspace
resolve_ready_workspace-Resolved id db v a =
    rw (find_by_workspace_id_of_Answers id db a, ◌>>=◌, attempt)
      (elim (Option-cases (find? (has_id id) db.rows)) [
        | inl missing ↦ rw missing unknown
        | inr (row, found) ↦
            rw found (elim (Bool-cases (status_eq (from_db_str row.status) ready)) [
              | inl is ↦
                  let s = (All-find? IsSound (has_id id) db.rows found v.sound).0 in
                  let e = status_of_eq (from_db_str row.status) is in
                  rw is (
                    ports_of-Resolved db row row.host_port row.desktop_port row.browser_port e refl
                      refl refl (s.host_set e) (s.desktop_set e) (s.browser_set e) s.host_fits
                      s.desktop_fits s.browser_fits)
              | inr isnt ↦ rw isnt (not_ready (λ e. cc (rw e at isnt)))
            ])
      ])
