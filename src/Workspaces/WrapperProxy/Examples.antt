-- ===== src/Workspaces/WrapperProxy/Examples.antt =====
-- A request to the commands of a workspace that is ready.
use Prim.Native.Nat.{ℕ, suc}
use mathlib.Core.Option.{some}
use mathlib.Core.List.{List, []}
use aglack.Prelude.Text.{Text, codes}
use aglack.Prelude.Exec.{ok}
use aglack.Response.{Response}
use aglack.Workspaces.Db.{Db}
use aglack.Proxy.{Request, UpstreamResponse, Upstream}

abbrev as_it_is : List ℕ → Text
as_it_is bytes = bytes

abbrev answer : UpstreamResponse
answer = record { status = 200; headers = []; body = [] }

-- Its state counts the requests.
abbrev wrapper : Upstream
wrapper = record { State = ℕ; parse_uri = λ uri. some uri; send = λ req s. ok answer (suc s) }

abbrev request : Request
request = record {
  method = codes "GET";
  path_and_query = some (codes "/workspaces/w1/commands/list?agent=bot");
  headers = [];
  body = some [];
}
