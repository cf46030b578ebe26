-- ===== src/Response.antt =====
-- response.rs: the envelope of every answer that the gateway itself makes. An answer is its status
-- and, for an error, its stable code; `message` is free text that callers must not match on, and
-- the payload of a success is the handler's result. Both are left out.
use Prim.Native.Nat.{ℕ}
use Prim.Native.String.{String}

abbrev pub StatusCode : Type 0
StatusCode = ℕ

abbrev pub ok_status : StatusCode
ok_status = 200

abbrev pub bad_request : StatusCode
bad_request = 400

abbrev pub unauthorized : StatusCode
unauthorized = 401

abbrev pub forbidden : StatusCode
forbidden = 403

abbrev pub not_found : StatusCode
not_found = 404

abbrev pub conflict : StatusCode
conflict = 409

abbrev pub too_many_requests : StatusCode
too_many_requests = 429

abbrev pub internal_server_error : StatusCode
internal_server_error = 500

abbrev pub bad_gateway : StatusCode
bad_gateway = 502

pub data Response : Type 0 where
  success : StatusCode → Response
  error : StatusCode → String → Response
