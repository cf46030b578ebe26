-- ===== src/Proxy/Filtering.antt =====
-- The headers that cross the proxy.
use mathlib.Core.Path.{◌≡◌, refl, ap, ◌∙◌}
use mathlib.Core.Logic.{inl, inr}
use mathlib.Core.Bool.{Bool, true, false}
use mathlib.Core.Option.{Option, none, some}
use mathlib.Core.List.{List, [], ◌∷◌}
use Prim.Native.Nat.{ℕ}
use aglack.Prelude.Text.{Text, ◌==◌, eq_iff}
use aglack.Prelude.Tests.{if◌then◌else◌, Bool-cases, Option-cases}
use aglack.Prelude.Maps.{get, insert, get-insert, get-insert_other}
use aglack.Prelude.Exec.{ok, Run-cases}
use aglack.Proxy.{
  Headers, Request, UpstreamRequest, UpstreamResponse, Upstream, Reply, plain, relayed,
  skipped_in_request, skipped_in_response, copy_headers, target_uri, relay, upstream_request,
  send_with, forward_to,
}
use aglack.Response.{bad_gateway, bad_request}

-- The last value of a name, and `before` where there is none.
abbrev pub last_value : Text → Option Text → Headers → Option Text
last_value name before [] = before
last_value name before ((n, value) ∷ headers) =
    last_value name (if n == name then some value else before) headers

-- A name is left out, or has the last of its values.
abbrev pub filtered : (Text → Bool) → Text → Headers → Option Text
filtered skips name headers = if skips name then none else last_value name none headers

module _ (skips : Text → Bool) (name : Text) where
  differs : (n : Text) → skips name ≡ true → skips n ≡ false → (n == name) ≡ false
  differs n skip e = elim (Bool-cases (n == name)) [
    | inl is ↦
        let same : n ≡ name = (eq_iff n name).0 is in
        let both : skips n ≡ skips name = ap skips same in absurd (cc both)
    | inr isnt ↦ isnt
  ]

  copied-skipped :
      (headers copied : Headers)
      → skips name ≡ true
      → get name (copy_headers skips copied headers) ≡ get name copied
  unfolding copy_headers
  copied-skipped [] copied skip = refl
  copied-skipped ((n, value) ∷ headers) copied skip = elim (Bool-cases (skips n)) [
    | inl e ↦ rw e (copied-skipped headers copied skip)
    | inr e ↦ rw e (
        copied-skipped headers (insert n value copied) skip
        ∙ get-insert_other name n value copied (differs n skip e))
  ]

  copied-last :
      (headers copied : Headers)
      → skips name ≡ false
      → get name (copy_headers skips copied headers) ≡ last_value name (get name copied) headers
  unfolding copy_headers
  copied-last [] copied passes = refl
  copied-last ((n, value) ∷ headers) copied passes = elim (Bool-cases (n == name)) [
    | inl is ↦
        let same : n ≡ name = (eq_iff n name).0 is in
        let goes : skips n ≡ false = ap skips same ∙ passes in
        let put : get name (insert n value copied) ≡ some value =
          rw same (get-insert name value copied) in
        rw (is, goes)
          (copied-last headers (insert n value copied) passes
            ∙ ap (λ before. last_value name before headers) put)
    | inr isnt ↦ elim (Bool-cases (skips n)) [
      | inl e ↦ rw (isnt, e) (copied-last headers copied passes)
      | inr e ↦
          rw (isnt, e)
            (copied-last headers (insert n value copied) passes
              ∙ ap (λ before. last_value name before headers)
                  (get-insert_other name n value copied isnt))
    ]
  ]

  copy_headers-filtered :
      (headers : Headers) → get name (copy_headers skips [] headers) ≡ filtered skips name headers
  unfolding get
  copy_headers-filtered headers = elim (Bool-cases (skips name)) [
    | inl e ↦ rw e (copied-skipped headers [] e)
    | inr e ↦ rw e (copied-last headers [] e)
  ]

module _ (u : Upstream) where
  -- One request was sent, and its answer is what was relayed.
  pub record Relayed (target_addr : Text) (req : Request) (rewrite_path : Option Text)
      (s s' : u.State) (answer : UpstreamResponse) : Type 0 where
    pub sent : UpstreamRequest
    pub received : UpstreamResponse
    pub runs : u.send sent s ≡ ok received s'
    pub to : u.parse_uri (target_uri target_addr rewrite_path req) ≡ some sent.uri
    pub method : sent.method ≡ req.method
    pub body : some sent.body ≡ req.body
    pub status : answer.status ≡ received.status
    pub answer_body : answer.body ≡ received.body
    pub request_headers :
        (name : Text) → get name sent.headers ≡ filtered skipped_in_request name req.headers
    pub response_headers :
        (name : Text) → get name answer.headers ≡ filtered skipped_in_response name received.headers

  send_with-Relayed :
      (target_addr : Text) (req : Request) (rewrite_path : Option Text) (uri : Text)
      (body : Option (List ℕ)) (s s' : u.State) (answer : UpstreamResponse)
      → u.parse_uri (target_uri target_addr rewrite_path req) ≡ some uri
      → body ≡ req.body
      → ◌≡◌ {A = Reply × u.State} (send_with u uri req body s) (relayed answer, s')
      → Relayed target_addr req rewrite_path s s' answer
  send_with-Relayed target_addr req rewrite_path uri none s s' answer parsed same e =
      let replies : ◌≡◌ {A = Reply} (plain bad_request) (relayed answer) =
        ap (λ (p : Reply × u.State). p.0) e in
      absurd (cc replies)
  send_with-Relayed target_addr req rewrite_path uri (some body) s s' answer parsed same e =
      elim (Run-cases (u.send (upstream_request u uri req body) s)) [
        | inl (received, s1, runs) ↦
            let copy : UpstreamResponse = record received {
              headers = copy_headers skipped_in_response [] received.headers;
            } in
            let pair : ◌≡◌ {A = Reply × u.State} (relayed copy, s1) (relayed answer, s') =
              rw (send_with, runs, relay) at e in
            let states : s1 ≡ s' = ap (λ (p : Reply × u.State). p.1) pair in
            let replies : ◌≡◌ {A = Reply} (relayed copy) (relayed answer) =
              ap (λ (p : Reply × u.State). p.0) pair in
            let whole : copy ≡ answer = cc replies in
            rw (← whole, ← states)
              (record {
                sent = upstream_request u uri req body;
                received = received;
                runs = runs;
                to = parsed;
                method = refl;
                body = same;
                status = refl;
                answer_body = refl;
                request_headers = λ name. copy_headers-filtered skipped_in_request name req.headers;
                response_headers =
                    λ name. copy_headers-filtered skipped_in_response name received.headers;
              })
        | inr (x, s1, runs) ↦
            let pair : ◌≡◌ {A = Reply × u.State} (plain bad_gateway, s1) (relayed answer, s') =
              rw (send_with, runs) at e in
            let replies : ◌≡◌ {A = Reply} (plain bad_gateway) (relayed answer) =
              ap (λ (p : Reply × u.State). p.0) pair in
            absurd (cc replies)
      ]

  -- A backend's answer that is relayed: one request was sent, to the URI that the target's text
  -- parses to and with the method and body that came in, and the answer's status and body are as received. For every name of a header,
  -- the request that is sent has none where it is `host`, `content-length` or of one hop only, and
  -- the last value that came in otherwise; and the answer that is relayed has none where it is
  -- `content-length`, `transfer-encoding` or of one hop only, and the last value received otherwise.
  pub forward_to-Relayed :
      (target_addr : Text) (req : Request) (rewrite_path : Option Text) (s s' : u.State)
      (answer : UpstreamResponse)
      → ◌≡◌ {A = Reply × u.State} (forward_to u target_addr req rewrite_path s) (relayed answer, s')
      → Relayed target_addr req rewrite_path s s' answer
  unfolding forward_to
  forward_to-Relayed target_addr req rewrite_path s s' answer e =
      elim (Option-cases (u.parse_uri (target_uri target_addr rewrite_path req))) [
        | inl isnt ↦
            let pair : ◌≡◌ {A = Reply × u.State} (plain bad_gateway, s) (relayed answer, s') =
              rw (forward_to, isnt) at e in
            let replies : ◌≡◌ {A = Reply} (plain bad_gateway) (relayed answer) =
              ap (λ (p : Reply × u.State). p.0) pair in
            absurd (cc replies)
        | inr (uri, is) ↦
            send_with-Relayed target_addr req rewrite_path uri req.body s s' answer is refl
              (rw (forward_to, is) at e)
      ]
