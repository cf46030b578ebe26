-- ===== src/Integrations/Providers.antt =====
-- integrations/providers.rs: the checks of `load_providers` on a registry that was read and parsed.
pub mod Registry
use mathlib.Core.Bool.{Bool, true, false}
use mathlib.Core.List.{List, [], ◌∷◌}
use aglack.Prelude.Tests.{if◌then◌else◌}
use aglack.Prelude.Text.{Text}
use aglack.Prelude.Strings.{trim}
use aglack.Prelude.Exec.{Result, good, bad}
use aglack.Integrations.Sanitize.{Provider, contains}

-- The three messages of a `ProvidersError` that are not about the file.
pub data ProvidersError : Type 0 where
  empty_id empty_openconnector_service duplicate_id : ProvidersError

abbrev is_empty : Text → Bool
is_empty [] = true
is_empty (c ∷ s) = false

abbrev pub is_blank : Text → Bool
is_blank s = is_empty (trim s)

-- The `for` loop; `seen` is the set of ids.
check_each : List Text → List Provider → Result ProvidersError (Unit {0})
check_each seen [] = good tt
check_each seen (p ∷ ps) =
    let rest = check_each (p.id ∷ seen) ps in
    if is_blank p.id
    then bad empty_id
    else if is_blank p.openconnector_service
    then bad empty_openconnector_service
    else if contains seen p.id
    then bad duplicate_id
    else rest

abbrev checked :
    List Provider → Result ProvidersError (Unit {0}) → Result ProvidersError (List Provider)
checked ps (good done) = good ps
checked ps (bad e) = bad e

unfoldable pub load_providers : List Provider → Result ProvidersError (List Provider)
unfolding check_each
load_providers parsed = checked parsed (check_each [] parsed)
