-- ===== src/Integrations/Bearer.antt =====
-- integrations/mcp_proxy.rs: how a workspace container proves who it is, by the bearer of its
-- runtime token. SHA-256 is third-party code and a parameter. Header values are ASCII, so that
-- bytes and code points are the same here; where a stored hash is not ASCII, neither reading of it
-- decodes.

pub mod Verified
pub mod Guessing
use Prim.Native.Nat.{ℕ, ◌+◌, ◌-◌, ◌*◌}
use mathlib.Core.Bool.{Bool, false, ◌&&◌}
use mathlib.Core.Option
use mathlib.Core.Option.{Option, none, some}
use mathlib.Core.List.{List, [], ◌∷◌}
use Prim.Native.String.{String}
use aglack.Response.{Response, error, unauthorized, too_many_requests, internal_server_error}
use aglack.Workspaces.Db.{SqlxError}
use aglack.Prelude.Text.{◌==◌}
use aglack.Prelude.Text.{codes}
use aglack.Prelude.Text.{Text}
use aglack.Prelude.Tests.{nat_eq}
use aglack.Prelude.Tests.{leb}
use aglack.Prelude.Tests.{if◌then◌else◌}
use aglack.Prelude.Strings.{trim}
use aglack.Prelude.Strings.{strip_prefix}
use aglack.Prelude.Lists.{length}
use aglack.Prelude.Exec.{◌>>◌}
use aglack.Prelude.Exec.{◌>>=◌}
use aglack.Prelude.Exec.{throw}
use aglack.Prelude.Exec.{pure}
use aglack.Prelude.Exec.{ignore}
use aglack.Prelude.Exec.{attempt}
use aglack.Prelude.Exec.{Result}
use aglack.Prelude.Exec.{Exec}
use aglack.Integrations.Tokens.{record_audit}
use aglack.Integrations.Tokens.{find_runtime_token}
use aglack.Integrations.Tokens.{WorkspaceRuntimeToken}
use aglack.Integrations.Tokens.{TokenM}
use aglack.Integrations.Tokens.{TokenDb}
use aglack.Integrations.Lockout.{locked, record_success}
use aglack.Integrations.Lockout.{record_failure}
use aglack.Integrations.Lockout.{check}
use aglack.Integrations.Lockout.{LockoutDecision}
use aglack.Integrations.Lockout.{Lockout}
use aglack.Prelude.Exec.{ok}
use aglack.Prelude.Exec.{good}
use aglack.Integrations.Lockout.{allowed}
use aglack.Prelude.Exec.{err}
use aglack.Prelude.Exec.{bad}
use mathlib.Core.List.{map}

-- `headers.get(AUTHORIZATION)?.to_str().ok()?` is the argument.
unfoldable pub extract_bearer : Option Text → Option Text
extract_bearer none = none
extract_bearer (some raw) = Option.map trim (strip_prefix (codes "Bearer ") raw)

abbrev pub bearer_is_plausibly_shaped : Text → Bool
bearer_is_plausibly_shaped bearer = leb 20 (length bearer) && leb (length bearer) 512

-- `char::to_digit(16)`
abbrev pub to_digit : ℕ → Option ℕ
to_digit c =
    if leb b'0' c && leb c b'9'
    then some (c - b'0')
    else if leb b'a' c && leb c b'f'
    then some (c - b'a' + 10)
    else if leb b'A' c && leb c b'F'
    then some (c - b'A' + 10)
    else none

abbrev byte_of : Option ℕ → Option ℕ → Option (List ℕ) → Option (List ℕ)
byte_of (some hi) (some lo) (some rest) = some ((hi * 16 + lo) ∷ rest)
byte_of _ _ _ = none

-- The bytes of an even number of hex digits.
decode_pairs : Text → Option (List ℕ)
decode_pairs [] = some []
decode_pairs (c ∷ []) = none
decode_pairs (c ∷ d ∷ hex) = byte_of (to_digit c) (to_digit d) (decode_pairs hex)

unfoldable pub decode_sha256_hex : Text → Option (List ℕ)
unfolding decode_pairs
decode_sha256_hex hex = if nat_eq (length hex) 64 then decode_pairs hex else none

abbrev both_match : Option (List ℕ) → Option (List ℕ) → Bool
both_match (some computed) (some stored) = computed == stored
both_match _ _ = false

unfoldable pub hashes_match_constant_time : Text → Text → Bool
hashes_match_constant_time computed_hash stored_hash =
    both_match (decode_sha256_hex computed_hash) (decode_sha256_hex stored_hash)

-- What the bearer check works on.
pub record IntegrationsState : Type 0 where
  pub lockout : Lockout
  pub store : TokenDb
  pub now : ℕ

abbrev pub IntegrationsM : Type 0 → Type 0
IntegrationsM A = Exec IntegrationsState Response A

abbrev pub on_tokens : {A : Type 0} → TokenM A → Exec IntegrationsState SqlxError A
on_tokens m s = elim (m s.store) [
  | ok a store ↦ ok a (record s { store = store })
  | err e store ↦ err e (record s { store = store })
]

abbrev with_lockout : (ℕ → Lockout → Lockout) → IntegrationsM (Unit {0})
with_lockout f s = ok tt (record s { lockout = f s.now s.lockout })

abbrev check_lockout : Text → IntegrationsM LockoutDecision
check_lockout id s =
    let (decision, lockout) = check s.now id s.lockout in
    ok decision (record s { lockout = lockout })

-- `audit`, whose failure is only logged.
abbrev audit : Text → String → IntegrationsM (Unit {0})
audit id event = ignore (on_tokens (record_audit id none event false))

abbrev refuse : Text → String → Bool → IntegrationsM (Unit {0})
refuse id event should_audit = do
  let nothing : IntegrationsM (Unit {0}) = pure tt
  if should_audit then audit id event else nothing
  with_lockout (λ now. record_failure now id should_audit)
  throw (error unauthorized "invalid_bearer")

module _ (sha256_hex : Text → Text) where
  abbrev check_hash : Text → Text → String → Bool → WorkspaceRuntimeToken → IntegrationsM (Unit {0})
  check_hash id bearer event should_audit token =
      if hashes_match_constant_time (sha256_hex bearer) token.token_hash
      then with_lockout (λ now. record_success now id)
      else refuse id event should_audit

  abbrev check_record :
      Text
      → Text
      → String
      → Bool
      → Result SqlxError (Option WorkspaceRuntimeToken)
      → IntegrationsM (Unit {0})
  check_record id bearer event should_audit (good (some token)) =
      check_hash id bearer event should_audit token
  check_record id bearer event should_audit (good none) = do
    with_lockout (λ now. record_failure now id false)
    throw (error unauthorized "unknown_workspace_token")
  check_record id bearer event should_audit (bad e) =
      throw (error internal_server_error "token_lookup_failed")

  abbrev check_decision : Text → Text → String → LockoutDecision → IntegrationsM (Unit {0})
  check_decision id bearer event locked = throw (error too_many_requests "too_many_attempts")
  check_decision id bearer event (allowed should_audit) = do
    found ← attempt (on_tokens (find_runtime_token id))
    check_record id bearer event should_audit found

  abbrev check_bearer : Text → String → Option Text → IntegrationsM (Unit {0})
  check_bearer id event none = throw (error unauthorized "missing_bearer")
  check_bearer id event (some bearer) =
      if bearer_is_plausibly_shaped bearer
      then (do decision ← check_lockout id; check_decision id bearer event decision)
      else throw (error unauthorized "invalid_bearer")

  -- `audit_event` names the route in the audit trail.
  unfoldable pub require_workspace_bearer : Text → Option Text → String → IntegrationsM (Unit {0})
  require_workspace_bearer id authorization audit_event =
      check_bearer id audit_event (extract_bearer authorization)
