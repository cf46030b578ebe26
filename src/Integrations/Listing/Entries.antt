-- ===== src/Integrations/Listing/Entries.antt =====
-- The two loops that make the list of a workspace's integrations.
use mathlib.Core.Path.{◌≡◌, refl, ap}
use mathlib.Core.Logic.{inl, inr}
use mathlib.Core.Bool.{Bool, true, false, ◌||◌}
use mathlib.Core.Option.{Option, none, some}
use mathlib.Core.List.{List, [], ◌∷◌, ◌++◌, map}
use Prim.Native.Nat.{ℕ}
use aglack.Prelude.Text.{Text, eq_refl, ◌==◌}
use aglack.Prelude.Tests.{if◌then◌else◌, Bool-cases}
use aglack.Prelude.Lists.{All, any, find?}
use aglack.Prelude.Exec.{
  Run, Exec, Result, good, bad, pure, attempt, ignore, Run-cases, ◌>>=◌, ◌>>◌,
}
use aglack.Prelude.Ends.{Ends, Ends->>=, Ends-mono}
use aglack.Response.{Response}
use aglack.Integrations.Rows.{IntegrationConnection, pending, errored, status_eq}
use aglack.Integrations.Connections.{mark_error}
use aglack.Integrations.Sanitize.{Provider, contains, workspace_connection_name}
use aglack.Integrations.Remote.{ConnectionSummary, Outside, Gateway, GatewayM, in_store, look}
use aglack.Integrations.Remote.Quiet.{tables}
use aglack.Integrations.Connect.{finish_connection, find_provider}
use aglack.Integrations.Listing.{
  ConnectionSummaryOut, is_configured, as_stored, finished_entry, clock, shown, timed_out, flat,
  finish_and_summarize, expire, reconcile_found, reconcile_with, reconcile_pending_connection,
  local_entry, local_entries, found_entry, discovered_entries, pending_row_is_expired,
}

abbrev pub Never : {A S : Type 0} → A → S → Type 0
Never _ _ = ⊥

-- The action succeeds, with a result of which this holds.
abbrev pub Yields : {S E A : Type 0} → (A → Type 0) → Run S E A → Type 0
Yields P r = Ends (λ a _. P a) Never r

pub attempt-Yields :
    {S E F A B : Type 0} (P : B → Type 0) (m : Exec S E A) (f : Result E A → Exec S F B) (s : S)
    → ((r : Result E A) (s' : S) → Yields P (f r s'))
    → Yields P ((attempt m >>= f) s)
attempt-Yields P m f s k = elim (Run-cases (m s)) [
  | inl (a, s', e) ↦ rw (◌>>=◌, attempt, e, Ends) (k (good a) s')
  | inr (x, s', e) ↦ rw (◌>>=◌, attempt, e, Ends) (k (bad x) s')
]

ignore-Yields :
    {S E F A B : Type 0} (P : B → Type 0) (m : Exec S E A) (f : Exec S F B) (s : S)
    → ((s' : S) → Yields P (f s'))
    → Yields P ((ignore m >> f) s)
ignore-Yields P m f s k = elim (Run-cases (m s)) [
  | inl (a, s', e) ↦ rw (◌>>=◌, ignore, e, Ends) (k s')
  | inr (x, s', e) ↦ rw (◌>>=◌, ignore, e, Ends) (k s')
]

either-Yields :
    {S E A : Type 0} (P : A → Type 0) (b : Bool) (m n : Exec S E A) (s : S)
    → Yields P (m s)
    → Yields P (n s)
    → Yields P ((if b then m else n) s)
either-Yields P true m n s p q = p
either-Yields P false m n s p q = q

abbrev pub ids : List ConnectionSummaryOut → List Text
ids entries = map (λ e. e.provider_id) entries

abbrev pub providers_of : List IntegrationConnection → List Text
providers_of cs = map (λ c. c.provider_id) cs

-- A provider of the registry that has no row.
abbrev pub IsNew : List Text → List Provider → Text → Type 0
IsNew known providers provider_id =
    (contains known provider_id ≡ false)
    × (any (λ (p : Provider). p.id == provider_id) providers ≡ true)

or_true : (a : Bool) {b : Bool} → b ≡ true → (a || b) ≡ true
or_true true e = refl
or_true false e = e

abbrev pub AllNew : List Text → List Provider → List ConnectionSummaryOut → Type 0
AllNew known providers entries = All (IsNew known providers) (ids entries)

still-IsNew :
    (known : List Text) (p : Provider) (ps : List Provider) (names : List Text)
    → All (IsNew known ps) names
    → All (IsNew known (p ∷ ps)) names
still-IsNew known p ps [] _ = tt
still-IsNew known p ps (name ∷ names) ((new, registered), h) =
    ((new, or_true _ registered), still-IsNew known p ps names h)

pub ids-append : (xs ys : List ConnectionSummaryOut) → ids (xs ++ ys) ≡ ids xs ++ ids ys
ids-append [] ys = refl
ids-append (x ∷ xs) ys = ap (λ names. x.provider_id ∷ names) (ids-append xs ys)

module _ (o : Outside) where
  abbrev IsFor : Text → ConnectionSummaryOut → Type 0
  IsFor provider_id entry = entry.provider_id ≡ provider_id

  finished-IsFor :
      (provider_id : Text) (summary : ConnectionSummary) (r : Result Response (Unit {0}))
      → IsFor provider_id (finished_entry provider_id summary r)
  finished-IsFor provider_id summary (good _) = refl
  finished-IsFor provider_id summary (bad _) = refl

  finish-IsFor :
      (id provider_id : Text) (summary : ConnectionSummary) (g : Gateway o.State)
      → Yields (IsFor provider_id) (finish_and_summarize o id provider_id summary g)
  unfolding finish_and_summarize
  finish-IsFor id provider_id summary g =
      attempt-Yields (IsFor provider_id) (finish_connection o id provider_id summary) _ g
        (λ r g'. finished-IsFor provider_id summary r)

  expire-IsFor :
      (id : Text) (c : IntegrationConnection) (now : ℕ) (g : Gateway o.State)
      → Yields (IsFor c.provider_id) (expire o id c now g)
  expire-IsFor id c now g =
      either-Yields (IsFor c.provider_id) (pending_row_is_expired now c.updated_at) _ _ g
        (ignore-Yields (IsFor c.provider_id) (in_store (mark_error id c.provider_id timed_out))
          (pure (shown c.provider_id errored (some timed_out))) g (λ g'. refl))
        refl

  reconcile_found-IsFor :
      (id : Text) (c : IntegrationConnection) (found : Option ConnectionSummary)
      (g : Gateway o.State)
      → Yields (IsFor c.provider_id) (reconcile_found o id c found g)
  reconcile_found-IsFor id c none g = expire-IsFor id c (tables g).now g
  reconcile_found-IsFor id c (some summary) g =
      either-Yields (IsFor c.provider_id) summary.configured
        (finish_and_summarize o id c.provider_id summary) (clock o >>= expire o id c) g
        (finish-IsFor id c.provider_id summary g) (expire-IsFor id c (tables g).now g)

  reconcile_with-IsFor :
      (id : Text) (c : IntegrationConnection) (provider : Option Provider) (g : Gateway o.State)
      → Yields (IsFor c.provider_id) (reconcile_with o id c provider g)
  reconcile_with-IsFor id c none g = refl
  reconcile_with-IsFor id c (some provider) g =
      attempt-Yields (IsFor c.provider_id)
        (look (o.find_remote provider.openconnector_service c.connection_name)) _ g
        (λ r g'. reconcile_found-IsFor id c (flat r) g')

  module _ (providers : List Provider) (id : Text) where
    local_entry-IsFor :
        (c : IntegrationConnection) (g : Gateway o.State)
        → Yields (IsFor c.provider_id) (local_entry o providers id c g)
    unfolding reconcile_pending_connection
    local_entry-IsFor c g =
        either-Yields (IsFor c.provider_id) (status_eq c.status pending)
          (reconcile_pending_connection o providers id c) (pure (as_stored c)) g
          (reconcile_with-IsFor id c (find_provider o providers c.provider_id) g) refl

    -- One entry for each row, in the order of the rows.
    pub local_entries-ids :
        (cs : List IntegrationConnection) (g : Gateway o.State)
        → Yields (λ entries. ids entries ≡ providers_of cs) (local_entries o providers id cs g)
    unfolding local_entries
    local_entries-ids [] g = refl
    local_entries-ids (c ∷ cs) g =
        Ends->>= (λ e _. IsFor c.provider_id e) Never (λ es _. ids es ≡ providers_of (c ∷ cs)) Never
          (local_entry o providers id c) _ g (local_entry-IsFor c g)
          (λ e g' is.
            Ends->>= (λ es _. ids es ≡ providers_of cs) Never
              (λ es _. ids es ≡ providers_of (c ∷ cs)) Never (local_entries o providers id cs) _ g'
              (local_entries-ids cs g') (λ es g'' are. rw (is, are) refl) (λ _ _ never. never))
          (λ _ _ never. never)

  found-IsNew :
      (id : Text) (known : List Text) (p : Provider) (ps : List Provider)
      (live : Option ConnectionSummary)
      (later : GatewayM o.State Response (List ConnectionSummaryOut)) (g : Gateway o.State)
      → contains known p.id ≡ false
      → ((g' : Gateway o.State) → Yields (AllNew known ps) (later g'))
      → Yields (AllNew known (p ∷ ps)) (found_entry o id p live later g)
  found-IsNew id known p ps none later g new rest =
      Ends-mono (λ es _. AllNew known ps es) Never (λ es _. AllNew known (p ∷ ps) es) Never
        (later g) (rest g) (λ es _ h. still-IsNew known p ps (ids es) h) (λ _ _ never. never)
  found-IsNew id known p ps (some summary) later g new rest =
      Ends->>= (λ e _. IsFor p.id e) Never (λ es _. AllNew known (p ∷ ps) es) Never
        (finish_and_summarize o id p.id summary) _ g (finish-IsFor id p.id summary g)
        (λ e g' is.
          Ends->>= (λ es _. AllNew known ps es) Never (λ es _. AllNew known (p ∷ ps) es) Never later
            _ g' (rest g')
            (λ es g'' h.
              ((rw is new, rw (is, eq_refl p.id) refl), still-IsNew known p ps (ids es) h))
            (λ _ _ never. never))
        (λ _ _ never. never)

  pub discovered-IsNew :
      (id : Text) (known : List Text) (remote : List ConnectionSummary) (providers : List Provider)
      (g : Gateway o.State)
      → Yields (AllNew known providers) (discovered_entries o id known remote providers g)
  unfolding discovered_entries
  discovered-IsNew id known remote [] g = tt
  discovered-IsNew id known remote (p ∷ ps) g = elim (Bool-cases (contains known p.id)) [
    | inl e ↦ rw e (
        Ends-mono (λ es _. AllNew known ps es) Never (λ es _. AllNew known (p ∷ ps) es) Never
          (discovered_entries o id known remote ps g) (discovered-IsNew id known remote ps g)
          (λ es _ h. still-IsNew known p ps (ids es) h) (λ _ _ never. never))
    | inr e ↦ rw e (
        found-IsNew id known p ps (find? (is_configured (workspace_connection_name id) p) remote)
          (discovered_entries o id known remote ps) g e
          (λ g'. discovered-IsNew id known remote ps g'))
  ]
