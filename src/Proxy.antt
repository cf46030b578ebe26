-- ===== src/Proxy.antt =====
-- proxy/forward.rs: `forward_to`, by which every proxy route reaches a backend. The HTTP client and the
-- URI parser are an interface: `parse_uri` is `parse` with the `to_string` of what it returns, which is
-- not always the text that was parsed (a fragment is dropped). Header names are lower case, as `HeaderName` keeps them; a request's
-- or an answer's headers are listed with their repetitions.
pub mod Filtering
pub mod Examples
use mathlib.Core.Bool.{Bool, true, false, ◌||◌}
use mathlib.Core.Option.{Option, none, some}
use mathlib.Core.List.{List, [], ◌∷◌, ◌++◌}
use Prim.Native.Nat.{ℕ}
use aglack.Prelude.Text.{Text, codes, ◌==◌}
use aglack.Prelude.Tests.{if◌then◌else◌}
use aglack.Prelude.Lists.{any}
use aglack.Prelude.Maps.{insert}
use aglack.Prelude.Exec.{Exec, ok, err}
use aglack.Response.{StatusCode, bad_request, bad_gateway}

abbrev pub Headers : Type 0
Headers = List (Text × Text)

-- `body` is nothing where reading it fails.
pub record Request : Type 0 where
  pub method : Text
  pub path_and_query : Option Text
  pub headers : Headers
  pub body : Option (List ℕ)

pub record UpstreamRequest : Type 0 where
  pub method : Text
  pub uri : Text
  pub headers : Headers
  pub body : List ℕ

pub record UpstreamResponse : Type 0 where
  pub status : StatusCode
  pub headers : Headers
  pub body : List ℕ

pub record Upstream : Type 1 where
  pub State : Type 0
  pub parse_uri : Text → Option Text
  pub send : UpstreamRequest → Exec State Text UpstreamResponse

-- A plain text of the gateway's own, or the backend's answer.
pub data Reply : Type 0 where
  plain : StatusCode → Reply
  relayed : UpstreamResponse → Reply

abbrev pub hop_by_hop_headers : List Text
hop_by_hop_headers =
    codes "connection"
    ∷ codes "proxy-authenticate"
    ∷ codes "proxy-authorization"
    ∷ codes "te"
    ∷ codes "trailer"
    ∷ codes "upgrade"
    ∷ []

unfoldable pub is_hop_by_hop : Text → Bool
unfolding ◌==◌
is_hop_by_hop name = any (λ h. h == name) hop_by_hop_headers || (name == codes "keep-alive")

-- What the loop over a request's headers leaves out, and that over an answer's.
abbrev pub skipped_in_request : Text → Bool
skipped_in_request name =
    (name == codes "host") || (name == codes "content-length") || is_hop_by_hop name

abbrev pub skipped_in_response : Text → Bool
skipped_in_response name =
    (name == codes "content-length") || (name == codes "transfer-encoding") || is_hop_by_hop name

-- The loops: `insert` replaces what is there of that name.
unfoldable pub copy_headers : (Text → Bool) → Headers → Headers → Headers
unfolding insert
copy_headers skips copied [] = copied
copy_headers skips copied ((name, value) ∷ headers) =
    copy_headers skips (if skips name then copied else insert name value copied) headers

abbrev or_root : Option Text → Text
or_root none = codes "/"
or_root (some path) = path

abbrev pub path_of : Option Text → Request → Text
path_of (some rewritten) req = rewritten
path_of none req = or_root req.path_and_query

-- The text that is parsed.
abbrev pub target_uri : Text → Option Text → Request → Text
target_uri target_addr rewrite_path req =
    codes "http://" ++ (target_addr ++ path_of rewrite_path req)

module _ (u : Upstream) where
  open u use {State, parse_uri, send}

  abbrev pub relay : UpstreamResponse → Reply
  relay upstream_response = relayed (record upstream_response {
    headers = copy_headers skipped_in_response [] upstream_response.headers;
  })

  abbrev pub upstream_request : Text → Request → List ℕ → UpstreamRequest
  upstream_request uri req body = record {
    method = req.method;
    uri = uri;
    headers = copy_headers skipped_in_request [] req.headers;
    body = body;
  }

  abbrev pub send_with : Text → Request → Option (List ℕ) → State → Reply × State
  send_with uri req none s = (plain bad_request, s)
  send_with uri req (some body) s = elim (send (upstream_request uri req body) s) [
    | ok upstream_response s' ↦ (relay upstream_response, s')
    | err e s' ↦ (plain bad_gateway, s')
  ]

  abbrev pub send_to : Option Text → Request → State → Reply × State
  send_to none req s = (plain bad_gateway, s)
  send_to (some uri) req s = send_with uri req req.body s

  unfoldable pub forward_to : Text → Request → Option Text → State → Reply × State
  unfolding copy_headers
  forward_to target_addr req rewrite_path s =
      send_to (parse_uri (target_uri target_addr rewrite_path req)) req s
