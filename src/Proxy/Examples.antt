-- ===== src/Proxy/Examples.antt =====
-- A backend that sets two cookies, and one request to it.
use aglack.Proxy.{is_hop_by_hop}
use aglack.Prelude.Text.{◌==◌}
use mathlib.Core.Path.{◌≡◌, refl}
use mathlib.Core.Option.{none, some}
use mathlib.Core.List.{[], ◌∷◌}
use Prim.Native.Nat.{ℕ, suc}
use aglack.Prelude.Text.{codes}
use aglack.Prelude.Exec.{ok}
use aglack.Proxy.{Request, UpstreamResponse, Upstream, Reply, relayed, forward_to}
use aglack.Proxy.Filtering.{Relayed, forward_to-Relayed}

-- Its state counts the requests.
abbrev backend : Upstream
backend = record {
  State = ℕ;
  parse_uri = λ uri. some uri;
  send = λ req s.
      ok
        (record {
          status = 200;
          headers =
              (codes "set-cookie", codes "a=1")
              ∷ (codes "connection", codes "close")
              ∷ (codes "set-cookie", codes "b=2")
              ∷ [];
          body = [];
        })
        (suc s);
}

abbrev request : Request
request = record {
  method = codes "GET";
  path_and_query = some (codes "/a?b");
  headers = (codes "host", codes "gateway") ∷ (codes "accept", codes "*/*") ∷ [];
  body = some [];
}

-- Of the two cookies the second is left.
abbrev answer : UpstreamResponse
answer = record { status = 200; headers = (codes "set-cookie", codes "b=2") ∷ []; body = [] }

relays :
    ◌≡◌ {A = Reply × ℕ}
      (forward_to backend (codes "127.0.0.1:1") request none 0)
      (relayed answer, 1)
unfolding forward_to ◌==◌ is_hop_by_hop
relays = refl

forward_to-Relayed_example : Relayed backend (codes "127.0.0.1:1") request none 0 1 answer
forward_to-Relayed_example =
    forward_to-Relayed backend (codes "127.0.0.1:1") request none 0 1 answer relays
