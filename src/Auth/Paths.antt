-- ===== src/Auth/Paths.antt =====
-- auth/middleware.rs: the path tests. Paths are the percent-encoded `uri().path()`.
use mathlib.Core.Path.{◌≡◌, refl}
use mathlib.Core.Option.{some}
use mathlib.Core.Option.{none}
use mathlib.Core.Option.{Option}
use mathlib.Core.List.{◌∷◌}
use mathlib.Core.List.{◌++◌}
use mathlib.Core.List.{[]}
use mathlib.Core.Bool.{◌||◌}
use mathlib.Core.Bool.{◌&&◌}
use mathlib.Core.Bool.{true}
use mathlib.Core.Bool.{false}
use mathlib.Core.Bool.{Bool}
use aglack.Prelude.Text.{◌==◌}
use aglack.Prelude.Text.{codes}
use aglack.Prelude.Text.{Text}
use aglack.Prelude.Strings.{strip_prefix}
use aglack.Prelude.Strings.{starts_with}
use aglack.Prelude.Strings.{split_once}
use aglack.Prelude.Strings.{split}
use aglack.Prelude.Strings.{first_part}
use aglack.Prelude.Strings.{ends_with}
use aglack.Prelude.Strings.{Lacks}
use aglack.Prelude.Lists.{is_some}
use Prim.Native.Nat.{ℕ}
use native.Mathlib.Omega.{arith}
use aglack.Prelude.Strings.{strip_prefix-append}
use aglack.Prelude.Strings.{starts_with-append}
use aglack.Prelude.Strings.{split_once-append}
use aglack.Prelude.Strings.{split-first}

-- `is_some_and(|rest| rest.split_once("/browser/").is_some())`
abbrev holds_browser : Option Text → Bool
holds_browser none = false
holds_browser (some rest) = is_some (split_once (codes "/browser/") rest)

unfoldable pub is_workspace_browser_path : Text → Bool
is_workspace_browser_path path =
    starts_with (codes "/workspaces/") path
    && holds_browser (strip_prefix (codes "/workspaces/") path)

unfoldable pub is_exempt : Text → Bool
is_exempt path =
    starts_with (codes "/auth/") path
    || path == codes "/oauth/callback"
    || (starts_with (codes "/workspaces/") path && ends_with (codes "/mcp") path)
    || is_workspace_browser_path path

-- `.filter(|id| !id.is_empty())`
abbrev nonempty : Option Text → Option Text
nonempty none = none
nonempty (some []) = none
nonempty (some (c ∷ s)) = some (c ∷ s)

abbrev first_segment : Option Text → Option Text
first_segment none = none
first_segment (some rest) = first_part (split b'/' rest)

-- `find_map` over the two prefixes.
abbrev or_else : Option Text → Option Text → Option Text
or_else none b = b
or_else (some a) b = some a

unfoldable pub workspace_id_from_path : Text → Option Text
workspace_id_from_path path = nonempty (
    first_segment (
      or_else (strip_prefix (codes "/workspaces/") path)
        (strip_prefix (codes "/api/workspaces/") path)))

api_is_not :
    (path : Text) → strip_prefix (codes "/workspaces/") (codes "/api/workspaces/" ++ path) ≡ none
unfolding strip_prefix
api_is_not path = refl

-- A workspace's id is read back from its route, under both prefixes.
pub workspace_id_from_path_of_route :
    (c : ℕ) (id rest : Text)
    → Lacks b'/' (c ∷ id)
    → (workspace_id_from_path (codes "/workspaces/" ++ ((c ∷ id) ++ b'/' ∷ rest)) ≡ some (c ∷ id))
      × (workspace_id_from_path (codes "/api/workspaces/" ++ ((c ∷ id) ++ b'/' ∷ rest))
          ≡ some (c ∷ id))
unfolding workspace_id_from_path
workspace_id_from_path_of_route c id rest h =
    let parts = split-first b'/' (c ∷ id) rest h in
    let path : Text = (c ∷ id) ++ b'/' ∷ rest in
    (
      rw (strip_prefix-append (codes "/workspaces/") path) (rw parts),
      rw (strip_prefix-append (codes "/api/workspaces/") path, api_is_not path) (rw parts),
    )

browser_path :
    (before after : Text)
    → is_workspace_browser_path (codes "/workspaces/" ++ (before ++ (codes "/browser/" ++ after)))
      ≡ true
unfolding is_workspace_browser_path
browser_path before after =
    let rest : Text = before ++ (codes "/browser/" ++ after) in
    rw (starts_with-append (codes "/workspaces/") rest) (
      rw (strip_prefix-append (codes "/workspaces/") rest)
        (split_once-append (codes "/browser/") before after))

-- The exemption for the browser route reaches further than the route: a path under `/workspaces/` is
-- exempt as soon as `/browser/` stands anywhere behind the prefix, also deep in another route.
pub is_exempt_of_browser :
    (before after : Text)
    → is_exempt (codes "/workspaces/" ++ (before ++ (codes "/browser/" ++ after))) ≡ true
unfolding is_exempt
is_exempt_of_browser before after = ground (arith, browser_path before after)
