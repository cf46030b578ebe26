-- ===== src/Workspaces/AgentCookie.antt =====
-- workspaces/proxy/agent_cookie.rs: the `agent` parameter of a query, which becomes the cookie that
-- names the profile. Queries are ASCII, so that bytes and code points are the same there. What
-- `HeaderValue::from_str` accepts and `String::from_utf8_lossy` returns are parameters.
pub mod Decoding
pub mod Injection
pub mod Examples
use Prim.Native.Nat.{ℕ, zero, suc, ◌+◌, ◌*◌}
use mathlib.Core.Bool.{Bool, true, false, ◌&&◌, ◌||◌, not}
use mathlib.Core.Option
use mathlib.Core.Option.{Option, none, some}
use mathlib.Core.List.{List, [], ◌∷◌, ◌++◌, map}
use aglack.Prelude.Text.{Text, codes, ◌==◌}
use aglack.Prelude.Tests.{if◌then◌else◌, nat_eq, leb, ltb}
use aglack.Prelude.Lists.{all, drop, keep, length}
use aglack.Prelude.Strings.{split, split_once, trim, join}
use aglack.Prelude.Exec.{Result, good, bad}
use aglack.Response.{Response, error, bad_request}
use aglack.Integrations.Bearer.{to_digit}

abbrev pub head? : List ℕ → Option ℕ
head? [] = none
head? (b ∷ bs) = some b

-- `bytes[i]`
abbrev pub byte_at : List ℕ → ℕ → Option ℕ
byte_at bytes i = head? (drop i bytes)

abbrev two_digits : Option ℕ → Option ℕ → Option ℕ
two_digits (some high) (some low) = some (high * 16 + low)
two_digits _ _ = none

-- `u8::from_str_radix(h, 16)` on a text of two bytes: a `+` may stand before the digits.
unfoldable pub from_hex : ℕ → ℕ → Option ℕ
from_hex a b = if nat_eq a b'+' then to_digit b else two_digits (to_digit a) (to_digit b)

abbrev pub hex_of : Option ℕ → Option ℕ → Option ℕ
hex_of (some a) (some b) = from_hex a b
hex_of _ _ = none

-- The byte that the loop pushes at `i`, where it stands on `b`, and how far it goes.
abbrev pub unescape : List ℕ → ℕ → ℕ → ℕ × ℕ
unescape bytes i b =
    if nat_eq b b'+'
    then (32, 1)
    else if nat_eq b b'%' && ltb (i + 2) (length bytes)
    then elim (hex_of (byte_at bytes (i + 1)) (byte_at bytes (i + 2))) [
      | some byte ↦ (byte, 3)
      | none ↦ (b, 1)
    ]
    else (b, 1)

-- The `while` loop with fuel for its rounds; `none` where it is used up.
unfoldable pub decode_loop : ℕ → List ℕ → ℕ → List ℕ → Option (List ℕ)
decode_loop zero bytes i out = none
decode_loop (suc fuel) bytes i out = elim (byte_at bytes i) [
  | none ↦ some out
  | some b ↦
      let (byte, step) = unescape bytes i b in decode_loop fuel bytes (i + step) (out ++ byte ∷ [])
]

abbrev pub decoded : Option (List ℕ) → List ℕ
decoded (some out) = out
decoded none = []

abbrev pub is_agent_char : ℕ → Bool
is_agent_char c =
    (leb b'0' c && leb c b'9')
    || (leb b'A' c && leb c b'Z')
    || (leb b'a' c && leb c b'z')
    || nat_eq c b'-'
    || nat_eq c b'_'
    || nat_eq c b'.'

abbrev pub is_valid_agent_name : Text → Bool
is_valid_agent_name name = not (name == []) && all is_agent_char name

abbrev pub profile_cookie_name : Text
profile_cookie_name = codes "hermes_profile"

abbrev pub is_other : Option (Text × Text) → Bool
is_other none = true
is_other (some (name, value)) = not (trim name == profile_cookie_name)

-- The two filters.
abbrev pub is_kept : Text → Bool
is_kept pair = not (pair == []) && is_other (split_once (codes "=") pair)

abbrev pub injected : Text → Text
injected agent = profile_cookie_name ++ (codes "=" ++ agent)

abbrev pub kept_pairs : Text → List Text
kept_pairs existing = keep is_kept (map trim (split b';' existing))

abbrev pub with_injected : List Text → Text → Text
with_injected [] agent = injected agent
with_injected (pair ∷ pairs) agent =
    join (codes "; ") (pair ∷ pairs) ++ (codes "; " ++ injected agent)

-- `existing` is the text of the first `Cookie` header, where there is one and it is readable.
unfoldable pub merge_cookie_header : Option Text → Text → Text
merge_cookie_header none agent = injected agent
merge_cookie_header (some existing) agent = with_injected (kept_pairs existing) agent

module _ (from_utf8_lossy : List ℕ → Text) where
  unfoldable pub percent_decode : Text → Text
  unfolding decode_loop
  percent_decode value = from_utf8_lossy (decoded (decode_loop (suc (length value)) value 0 []))

  abbrev agent_of : Option (Text × Text) → Option Text
  agent_of none = none
  agent_of (some (key, value)) = if key == codes "agent" then some (percent_decode value) else none

  abbrev or_later : Option Text → Option Text → Option Text
  or_later (some a) later = some a
  or_later none later = later

  -- `find_map`
  first_agent : List Text → Option Text
  unfolding percent_decode
  first_agent [] = none
  first_agent (pair ∷ pairs) = or_later (agent_of (split_once (codes "=") pair)) (first_agent pairs)

  unfoldable pub extract_agent_param : Text → Option Text
  unfolding first_agent
  extract_agent_param query = first_agent (split b'&' query)

  abbrev pub agent_in : Option Text → Option Text
  agent_in none = none
  agent_in (some query) = extract_agent_param query

module _ (from_utf8_lossy : List ℕ → Text) (is_header_value : Text → Bool) where
  abbrev set_cookie : Option Text → Text → Result Response (Option Text)
  set_cookie cookie agent =
      if not (is_valid_agent_name agent)
      then bad (error bad_request "invalid_agent")
      else if is_header_value (merge_cookie_header cookie agent)
      then good (some (merge_cookie_header cookie agent))
      else bad (error bad_request "invalid_agent")

  abbrev set_agent : Option Text → Option Text → Result Response (Option Text)
  set_agent cookie none = good cookie
  set_agent cookie (some agent) = set_cookie cookie agent

  -- From the query and the `Cookie` header to the `Cookie` header of the request that goes on.
  unfoldable pub inject_agent_cookie : Option Text → Option Text → Result Response (Option Text)
  unfolding extract_agent_param merge_cookie_header
  inject_agent_cookie query cookie = set_agent cookie (agent_in from_utf8_lossy query)
