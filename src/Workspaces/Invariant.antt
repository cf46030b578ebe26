-- ===== src/Workspaces/Invariant.antt =====
-- What holds of the rows of `workspace_creations` between any two statements.
use Prim.Native.Nat.{ℕ, ◌<◌, ◌^◌}
use mathlib.Core.Path.{◌≡◌, refl}
use mathlib.Core.Logic.{inl, inr}
use mathlib.Core.Bool.{Bool, true, false}
use mathlib.Core.Option.{Option, none, some}
use mathlib.Core.List.{List, [], ◌∷◌, ◌++◌}
use native.Mathlib.Omega.{arith}
use aglack.Prelude.Tests.{Bool-cases}
use aglack.Prelude.Lists.{
  is_some, any, keep, update_where, All, All-append, All-keep, All-update_where,
}
use aglack.Prelude.Text.{Text, eq_iff}
use aglack.Workspaces.Rows.{Row, ready, from_db_str}
use aglack.Workspaces.Db.{has_key}
use aglack.Workspaces.Writes.{new_row, set_ready, set_failed}

-- A port as the column holds it: null, or the number of a `u16`.
abbrev pub Fits : Option ℕ → Type 0
Fits none = Unit
Fits (some p) = p < 2 ^ 16

-- A row that reads as ready has a container and all three ports.
pub record IsSound (row : Row) : Type 0 where
  pub container_set : from_db_str row.status ≡ ready → is_some row.container_name ≡ true
  pub host_set : from_db_str row.status ≡ ready → is_some row.host_port ≡ true
  pub desktop_set : from_db_str row.status ≡ ready → is_some row.desktop_port ≡ true
  pub browser_set : from_db_str row.status ≡ ready → is_some row.browser_port ≡ true
  pub host_fits : Fits row.host_port
  pub desktop_fits : Fits row.desktop_port
  pub browser_fits : Fits row.browser_port

abbrev pub DistinctKeys : List Row → Type 0
DistinctKeys [] = Unit
DistinctKeys (row ∷ rows) =
    All (λ r. has_key row.idempotency_key r ≡ false) rows × DistinctKeys rows

pub record IsValid (rows : List Row) : Type 0 where
  pub sound : All IsSound rows
  pub distinct : DistinctKeys rows

pub set_ready-IsSound :
    (c : Text) (p q r : ℕ) (row : Row)
    → p < 2 ^ 16
    → q < 2 ^ 16
    → r < 2 ^ 16
    → IsSound row
    → IsSound (set_ready c p q r row)
set_ready-IsSound c p q r row hp hq hr h = record {
  container_set = λ _. refl;
  host_set = λ _. refl;
  desktop_set = λ _. refl;
  browser_set = λ _. refl;
  host_fits = hp;
  desktop_fits = hq;
  browser_fits = hr;
}

pub set_failed-IsSound : (row : Row) → IsSound row → IsSound (set_failed row)
unfolding from_db_str
set_failed-IsSound row h = record {
  container_set = λ e. absurd (cc);
  host_set = λ e. absurd (cc);
  desktop_set = λ e. absurd (cc);
  browser_set = λ e. absurd (cc);
  host_fits = h.host_fits;
  desktop_fits = h.desktop_fits;
  browser_fits = h.browser_fits;
}

pub new_row-IsSound : (key id now : Text) → IsSound (new_row key id now)
unfolding from_db_str
new_row-IsSound key id now = record {
  container_set = λ e. absurd (cc);
  host_set = λ e. absurd (cc);
  desktop_set = λ e. absurd (cc);
  browser_set = λ e. absurd (cc);
  host_fits = tt;
  desktop_fits = tt;
  browser_fits = tt;
}

pub set_owner-IsSound :
    (owner : Text) (row : Row)
    → IsSound row
    → IsSound (record row { owner_google_sub = some owner })
set_owner-IsSound owner row h = record {
  container_set = h.container_set;
  host_set = h.host_set;
  desktop_set = h.desktop_set;
  browser_set = h.browser_set;
  host_fits = h.host_fits;
  desktop_fits = h.desktop_fits;
  browser_fits = h.browser_fits;
}

-- An `UPDATE` that leaves the key alone.
module _ (p : Row → Bool) (f : Row → Row)
    (same_key : (row : Row) → (f row).idempotency_key ≡ row.idempotency_key) where
  fresh-update_where :
      (key : Text) (rows : List Row)
      → All (λ r. has_key key r ≡ false) rows
      → All (λ r. has_key key r ≡ false) (update_where p f rows)
  fresh-update_where key rows =
      All-update_where (λ r. has_key key r ≡ false) p f rows (λ r e. rw (same_key r) e)

  DistinctKeys-update_where :
      (rows : List Row) → DistinctKeys rows → DistinctKeys (update_where p f rows)
  DistinctKeys-update_where [] _ = tt
  DistinctKeys-update_where (row ∷ rows) (fresh, d) = elim (Bool-cases (p row)) [
    | inl e ↦
        rw (e, same_key row)
          (fresh-update_where row.idempotency_key rows fresh, DistinctKeys-update_where rows d)
    | inr e ↦
        rw e (fresh-update_where row.idempotency_key rows fresh, DistinctKeys-update_where rows d)
  ]

  pub update_where-IsValid :
      (rows : List Row)
      → ((row : Row) → IsSound row → IsSound (f row))
      → IsValid rows
      → IsValid (update_where p f rows)
  update_where-IsValid rows k v = record {
    sound = All-update_where IsSound p f rows k v.sound;
    distinct = DistinctKeys-update_where rows v.distinct;
  }

DistinctKeys-keep :
    (p : Row → Bool) (rows : List Row) → DistinctKeys rows → DistinctKeys (keep p rows)
DistinctKeys-keep p [] _ = tt
DistinctKeys-keep p (row ∷ rows) (fresh, d) = elim (Bool-cases (p row)) [
  | inl e ↦ rw e (
    All-keep (λ r. has_key row.idempotency_key r ≡ false) p rows fresh,
    DistinctKeys-keep p rows d,
  )
  | inr e ↦ rw e (DistinctKeys-keep p rows d)
]

pub keep-IsValid : (p : Row → Bool) (rows : List Row) → IsValid rows → IsValid (keep p rows)
keep-IsValid p rows v = record {
  sound = All-keep IsSound p rows v.sound;
  distinct = DistinctKeys-keep p rows v.distinct;
}

-- `INSERT` of a row whose key no row has.
DistinctKeys-append :
    (row : Row) (rows : List Row)
    → any (has_key row.idempotency_key) rows ≡ false
    → DistinctKeys rows
    → DistinctKeys (rows ++ row ∷ [])
DistinctKeys-append row [] e d = (tt, tt)
DistinctKeys-append row (r ∷ rows) e (fresh, d) =
    let apart : has_key r.idempotency_key row ≡ false = ground (
      arith,
      eq_iff row.idempotency_key r.idempotency_key,
      eq_iff r.idempotency_key row.idempotency_key,
    ) in
    (
      All-append (λ x. has_key r.idempotency_key x ≡ false) rows (row ∷ []) fresh (apart, tt),
      DistinctKeys-append row rows (ground arith) d,
    )

pub append-IsValid :
    (row : Row) (rows : List Row)
    → IsSound row
    → any (has_key row.idempotency_key) rows ≡ false
    → IsValid rows
    → IsValid (rows ++ row ∷ [])
append-IsValid row rows s e v = record {
  sound = All-append IsSound rows (row ∷ []) v.sound (s, tt);
  distinct = DistinctKeys-append row rows e v.distinct;
}
