-- ===== src/Integrations/Providers/Registry.antt =====
-- Which registries are accepted.
use mathlib.Core.Path.{◌≡◌, refl}
use mathlib.Core.Logic.{inl, inr, ◌↔◌}
use mathlib.Core.Bool.{false}
use mathlib.Core.List.{List, [], ◌∷◌}
use native.Mathlib.Omega.{arith}
use aglack.Prelude.Tests.{Bool-cases}
use aglack.Prelude.Text.{Text, ◌==◌}
use aglack.Prelude.Lists.{All}
use aglack.Prelude.Exec.{Result, good, bad}
use aglack.Integrations.Sanitize.{Provider, contains}
use aglack.Integrations.Providers.{ProvidersError, is_blank, check_each, checked, load_providers}

abbrev pub IsNamed : Provider → Type 0
IsNamed p = (is_blank p.id ≡ false) × (is_blank p.openconnector_service ≡ false)

-- No two providers have the same id.
abbrev pub DistinctIds : List Provider → Type 0
DistinctIds [] = Unit
DistinctIds (p ∷ ps) = All (λ q. (p.id == q.id) ≡ false) ps × DistinctIds ps

abbrev Fresh : List Text → Provider → Type 0
Fresh seen p = contains seen p.id ≡ false

Fresh-cons :
    (id : Text) (seen : List Text) (ps : List Provider)
    → All (Fresh (id ∷ seen)) ps
    → All (λ q. (id == q.id) ≡ false) ps × All (Fresh seen) ps
Fresh-cons id seen [] _ = (tt, tt)
Fresh-cons id seen (q ∷ ps) (f, fs) =
    let (apart, fresh) = Fresh-cons id seen ps fs in
    ((ground (arith, f), apart), (ground (arith, f), fresh))

cons-Fresh :
    (id : Text) (seen : List Text) (ps : List Provider)
    → All (λ q. (id == q.id) ≡ false) ps
    → All (Fresh seen) ps
    → All (Fresh (id ∷ seen)) ps
cons-Fresh id seen [] _ _ = tt
cons-Fresh id seen (q ∷ ps) (a, apart) (f, fresh) =
    (ground (arith, a, f), cons-Fresh id seen ps apart fresh)

accepted :
    (seen : List Text) (ps : List Provider)
    → check_each seen ps ≡ good tt
    → All IsNamed ps × All (Fresh seen) ps × DistinctIds ps
unfolding check_each
accepted seen [] e = (tt, tt, tt)
accepted seen (p ∷ ps) e = elim (Bool-cases (is_blank p.id)) [
  | inl blank ↦ absurd (cc (rw blank at e))
  | inr named ↦ elim (Bool-cases (is_blank p.openconnector_service)) [
    | inl blank ↦ absurd (cc (rw blank at (rw named at e)))
    | inr served ↦ elim (Bool-cases (contains seen p.id)) [
      | inl again ↦ absurd (cc (rw again at (rw served at (rw named at e))))
      | inr fresh ↦
          let rest = accepted (p.id ∷ seen) ps (rw fresh at (rw served at (rw named at e))) in
          let split = Fresh-cons p.id seen ps rest.1 in
          (((named, served), rest.0), (fresh, split.1), (split.0, rest.2))
    ]
  ]
]

accepts :
    (seen : List Text) (ps : List Provider)
    → All IsNamed ps
    → All (Fresh seen) ps
    → DistinctIds ps
    → check_each seen ps ≡ good tt
unfolding check_each
accepts seen [] _ _ _ = refl
accepts seen (p ∷ ps) ((named, served), n) (fresh, f) (apart, d) =
    rw named (rw served (rw fresh (accepts (p.id ∷ seen) ps n (cons-Fresh p.id seen ps apart f) d)))

unseen : (ps : List Provider) → All (Fresh []) ps
unseen [] = tt
unseen (p ∷ ps) = (refl, unseen ps)

-- A parsed registry is accepted, as it is, exactly where every provider has an id and a service that
-- are not blank, and no two have the same id.
pub load_providers_iff :
    (ps : List Provider) → (load_providers ps ≡ good ps) ↔ (All IsNamed ps × DistinctIds ps)
unfolding load_providers
load_providers_iff ps =
    (only_if (check_each [] ps) refl, λ v. rw (accepts [] ps v.0 (unseen ps) v.1) refl)
  where
    only_if :
        (r : Result ProvidersError (Unit {0}))
        → check_each [] ps ≡ r
        → checked ps r ≡ good ps
        → All IsNamed ps × DistinctIds ps
    only_if (good done) e _ = let all = accepted [] ps e in (all.0, all.2)
    only_if (bad x) e f = absurd (cc)
