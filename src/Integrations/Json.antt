-- ===== src/Integrations/Json.antt =====
-- JSON values, as `serde_json::Value` is used by the MCP proxy. A map's fields are listed; `insert`
-- replaces the field of that key, so that an operation never makes a key double. A number is kept as
-- its text.
use mathlib.Core.Path.{◌≡◌, refl}
use mathlib.Core.Bool.{Bool, false}
use mathlib.Core.Option.{Option, none, some}
use mathlib.Core.Path.{◌∙◌}
use mathlib.Core.Logic.{inr}
use mathlib.Core.Logic.{inl}
use aglack.Prelude.Text.{◌==◌}
use aglack.Prelude.Text.{eq_refl}
use aglack.Prelude.Text.{eq_iff}
use aglack.Prelude.Text.{Text}
use aglack.Prelude.Tests.{if◌then◌else◌}
use aglack.Prelude.Tests.{Bool-cases}

mutual
  pub data Value : Type 0 where
    null : Value
    boolean : Bool → Value
    number : Text → Value
    string : Text → Value
    array : Items → Value
    object : Fields → Value

  pub data Items : Type 0 where
    no_items : Items
    item : Value → Items → Items

  pub data Fields : Type 0 where
    no_fields : Fields
    field : Text → Value → Fields → Fields

unfoldable pub get_field : Text → Fields → Option Value
get_field key no_fields = none
get_field key (field k v fs) = if k == key then some v else get_field key fs

unfoldable pub insert_field : Text → Value → Fields → Fields
insert_field key v no_fields = field key v no_fields
insert_field key v (field k u fs) =
    let rest = insert_field key v fs in if k == key then field key v fs else field k u rest

unfoldable pub remove_field : Text → Fields → Fields
remove_field key no_fields = no_fields
remove_field key (field k v fs) =
    let rest = remove_field key fs in if k == key then rest else field k v rest

abbrev pub as_str : Option Value → Option Text
as_str (some (string s)) = some s
as_str _ = none

abbrev pub as_object : Option Value → Option Fields
as_object (some (object fs)) = some fs
as_object _ = none

pub get-insert_field :
    (key : Text) (v : Value) (fs : Fields) → get_field key (insert_field key v fs) ≡ some v
unfolding get_field insert_field
get-insert_field key v no_fields = rw (eq_refl key)
get-insert_field key v (field k u fs) = elim (Bool-cases (k == key)) [
  | inl e ↦ rw (e, eq_refl key)
  | inr e ↦ rw e (rw e (get-insert_field key v fs))
]

pub get-insert_field_other :
    (other key : Text) (v : Value) (fs : Fields)
    → (key == other) ≡ false
    → get_field other (insert_field key v fs) ≡ get_field other fs
unfolding get_field insert_field
get-insert_field_other other key v no_fields e = rw e
get-insert_field_other other key v (field k u fs) e = elim (Bool-cases (k == key)) [
  | inl is ↦ let same : k ≡ key = (eq_iff k key).0 is in rw is (rw same (rw e refl))
  | inr isnt ↦ rw isnt (elim (Bool-cases (k == other)) [
    | inl at_other ↦ rw at_other
    | inr past ↦ rw past (get-insert_field_other other key v fs e)
  ])
]

pub get-remove_field : (key : Text) (fs : Fields) → get_field key (remove_field key fs) ≡ none
unfolding get_field remove_field
get-remove_field key no_fields = refl
get-remove_field key (field k v fs) = elim (Bool-cases (k == key)) [
  | inl e ↦ rw e (get-remove_field key fs)
  | inr e ↦ rw e (rw e (get-remove_field key fs))
]

pub get-remove_field_other :
    (other key : Text) (fs : Fields)
    → (key == other) ≡ false
    → get_field other (remove_field key fs) ≡ get_field other fs
unfolding get_field remove_field
get-remove_field_other other key no_fields e = refl
get-remove_field_other other key (field k v fs) e = elim (Bool-cases (k == key)) [
  | inl is ↦
      let same : k ≡ key = (eq_iff k key).0 is in
      rw is (get-remove_field_other other key fs e ∙ rw same (rw e refl))
  | inr isnt ↦ rw isnt (elim (Bool-cases (k == other)) [
    | inl at_other ↦ rw at_other
    | inr past ↦ rw past (get-remove_field_other other key fs e)
  ])
]
