-- ===== src/Workspaces/AgentCookie/Examples.antt =====
-- A query that names an agent, with an escape in it, and a request that brings two cookies.
use Prim.Native.Nat.{ℕ}
use mathlib.Core.Path.{◌≡◌, refl}
use mathlib.Core.Bool.{true}
use mathlib.Core.Option.{some}
use mathlib.Core.List.{List, [], ◌∷◌}
use aglack.Prelude.Text.{Text, codes, ◌==◌}
use aglack.Prelude.Strings.{split_once, strip_prefix, split, trim, join}
use aglack.Prelude.Exec.{good}
use aglack.Workspaces.AgentCookie.{
  inject_agent_cookie, extract_agent_param, percent_decode, decode_loop, from_hex, agent_in,
}
use aglack.Workspaces.AgentCookie.Decoding.{decode, percent_decode-decode}
use aglack.Workspaces.AgentCookie.Injection.{Injected, inject_agent_cookie-Injected}

abbrev as_it_is : List ℕ → Text
as_it_is bytes = bytes

abbrev query : Text
query = codes "lang=de&agent=my%2Dbot"

abbrev cookie : Text
cookie = codes "hermes_profile=old; theme=dark"

abbrev header : Text
header = codes "theme=dark; hermes_profile=my-bot"

names_agent : agent_in as_it_is (some query) ≡ some (codes "my-bot")
unfolding extract_agent_param percent_decode decode_loop from_hex split split_once strip_prefix ◌==◌
names_agent = refl

goes_on : inject_agent_cookie as_it_is (λ _. true) (some query) (some cookie) ≡ good (some header)
unfolding inject_agent_cookie split split_once strip_prefix ◌==◌ from_hex trim join
goes_on = refl

-- `%+5` is read as one byte.
reads_sign : decode (codes "%+5") ≡ 5 ∷ []
unfolding decode from_hex
reads_sign = refl

inject_agent_cookie-Injected_example : Injected (some cookie) (codes "my-bot") header
inject_agent_cookie-Injected_example =
    inject_agent_cookie-Injected as_it_is (λ _. true) (some query) (some cookie) (codes "my-bot")
      header names_agent goes_on

percent_decode-decode_example :
    (decode_loop 4 (codes "%+5") 0 [] ≡ some (decode (codes "%+5")))
    × (percent_decode as_it_is (codes "%+5") ≡ as_it_is (decode (codes "%+5")))
percent_decode-decode_example = percent_decode-decode as_it_is (codes "%+5")
