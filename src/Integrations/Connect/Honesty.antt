-- ===== src/Integrations/Connect/Honesty.antt =====
-- A connection is shown as connected only when its workspace holds a token for it.
use mathlib.Core.Path.{◌≡◌, refl, ◌∙◌, sym, ap}
use mathlib.Core.Logic.{inl, inr}
use mathlib.Core.Option.{some}
use aglack.Prelude.Text.{Text}
use aglack.Prelude.Lists.{find?}
use aglack.Prelude.Exec.{Run, ok, err, Run-cases, attempt, ◌>>=◌}
use aglack.Response.{Response}
use aglack.Integrations.Tokens.{record_audit}
use aglack.Integrations.Tokens.Lookups.{SameTables}
use Prim.Native.String.{String}
use mathlib.Core.Bool.{Bool, true, false}
use aglack.Integrations.Connect.Answering.{finish_connection_inner-Answers}
use aglack.Integrations.Remote.Answers.{Answers}
use aglack.Integrations.Connections.Laws.{ErrorRow, mark_error-ErrorRow}
use aglack.Integrations.Connect.{finishing_failed}
use aglack.Prelude.Exec.{throw}
use aglack.Integrations.Connections.{mark_error}
use aglack.Integrations.Connections.{of_provider}
use aglack.Integrations.Connections.Laws.{record_audit-SameTables}
use aglack.Integrations.Remote.{ConnectionSummary, Outside, Gateway, audit}
use aglack.Integrations.Remote.Quiet.{tables, ignored_store}
use aglack.Integrations.Rotation.Atomicity.{}
use aglack.Integrations.Connect.{finish_connection_inner, conclude, finish_connection}

module _ (o : Outside) (id provider_id : Text) (summary : ConnectionSummary) where
  audited :
      (event : String) (success : Bool) (g : Gateway o.State)
      → (g' : Gateway o.State) × (◌≡◌ {A = Run (Gateway o.State) Response (Unit {0})}
          (audit id provider_id event success g)
          (ok tt g'))
        × (g'.calls ≡ g.calls)
        × SameTables (tables g) (tables g')
  unfolding audit
  audited event success g =
      let (g', runs, calls, same) =
        ignored_store o.State Response (record_audit id (some provider_id) event success) g in
      (
        g',
        runs,
        calls,
        rw same (record_audit-SameTables id (some provider_id) event success (tables g)),
      )

  -- The two statements behind a failure.
  refused :
      (before : Gateway o.State) (x : Response) (g : Gateway o.State)
      → finish_connection_inner o id provider_id summary before ≡ err x g
      → (g' : Gateway o.State) × (finish_connection o id provider_id summary before ≡ err x g')
        × (g'.calls ≡ g.calls)
        × (Answers g → ErrorRow id provider_id (tables g'))
  unfolding finish_connection
  refused before x g h =
      let mark = mark_error id provider_id finishing_failed in
      let (g1, marks, calls1, same1) = ignored_store o.State Response mark g in
      let (g2, audits, calls2, same2) = audited "connect_finished" false g1 in
      (
        g2,
        rw (finish_connection, attempt, h, ◌>>=◌, conclude, marks, audits, throw) refl,
        calls2 ∙ calls1,
        λ answers row found.
            let marked : ErrorRow id provider_id (tables g1) =
              rw same1 (mark_error-ErrorRow id provider_id finishing_failed (tables g) answers) in
            marked row (sym (ap (find? (of_provider id provider_id)) same2.1) ∙ found),
      )

  -- A finish that fails, with a database that answers, never leaves the connection shown as
  -- connected: its row, where there is one, says `error`, even where it was connected before.
  pub finish_connection-ErrorRow :
      (before after : Gateway o.State) (x : Response)
      → Answers before
      → finish_connection o id provider_id summary before ≡ err x after
      → ErrorRow id provider_id (tables after)
  unfolding finish_connection
  finish_connection-ErrorRow before after x answers e =
      elim (Run-cases (finish_connection_inner o id provider_id summary before)) [
        | inl (u, g, h) ↦
            let (g', runs, _, _) = audited "connect_finished" true g in
            let never : ◌≡◌ {A = Run (Gateway o.State) Response (Unit {0})} (ok tt g')
                (err x after) =
              rw (finish_connection, attempt, h, ◌>>=◌, conclude, runs) at e in
            absurd (cc never)
        | inr (y, g, h) ↦
            let (g', fails, calls, row) = refused before y g h in
            let ends : ◌≡◌ {A = Run (Gateway o.State) Response (Unit {0})} (err y g')
                (err x after) =
              sym fails ∙ e in
            let same : g' ≡ after = cc ends in
            let still : Answers g =
              rw h at (finish_connection_inner-Answers o id provider_id summary before answers) in
            rw (← same) (row still)
      ]
