-- ===== src/Workspaces/AgentCookie/Injection.antt =====
-- What a backend reads in the header that goes on.
use Prim.Native.Nat.{ℕ}
use mathlib.Core.Path.{◌≡◌, refl, ap, ◌∙◌}
use mathlib.Core.Logic.{inl, inr}
use mathlib.Core.Bool.{Bool, true, false, ◌&&◌, not}
use mathlib.Core.Option.{Option, none, some}
use mathlib.Core.List.{List, [], ◌∷◌, ◌++◌, append-nil}
use native.Mathlib.Omega.{arith}
use aglack.Prelude.Text.{Text, codes, ◌==◌}
use aglack.Prelude.Tests.{nat_eq, Bool-cases}
use aglack.Prelude.Lists.{All, All-keep, all, keep}
use aglack.Prelude.Strings.{Lacks, is_whitespace, trim, trim_start, split_once, strip_prefix}
use aglack.Prelude.Pieces.{
  parts, parts-join, parts-whole, parts-IsPart, IsPart, trim_end, trim_end-cons,
}
use aglack.Prelude.Exec.{good}
use aglack.Workspaces.AgentCookie.{
  is_agent_char, is_valid_agent_name, is_other, is_kept, injected, kept_pairs, with_injected,
  merge_cookie_header, agent_in, inject_agent_cookie,
}

-- Neither white space nor the end of a cookie.
abbrev is_plain : ℕ → Bool
is_plain c = not (is_whitespace c) && not (nat_eq c b';')

agent_char_plain : (c : ℕ) → is_agent_char c ≡ true → is_plain c ≡ true
unfolding is_whitespace
agent_char_plain c e = ground arith

and_both : (a b : Bool) → (a && b) ≡ true → (a ≡ true) × (b ≡ true)
and_both true b e = (refl, e)
and_both false b e = absurd (cc e)

agent_plain : (agent : Text) → all is_agent_char agent ≡ true → all is_plain agent ≡ true
agent_plain [] _ = refl
agent_plain (c ∷ agent) e =
    let (head, tail) = and_both (is_agent_char c) (all is_agent_char agent) e in
    rw (agent_char_plain c head) (agent_plain agent tail)

plain_char : (c : ℕ) → is_plain c ≡ true → (is_whitespace c ≡ false) × (nat_eq c b';' ≡ false)
plain_char c e = ground arith

plain-Lacks : (s : Text) → all is_plain s ≡ true → Lacks b';' s
plain-Lacks [] _ = tt
plain-Lacks (c ∷ s) e =
    let (head, tail) = and_both (is_plain c) (all is_plain s) e in
    ((plain_char c head).1, plain-Lacks s tail)

plain-trim_end : (s : Text) → all is_plain s ≡ true → trim_end s ≡ s
unfolding trim_start
plain-trim_end [] _ = refl
plain-trim_end (c ∷ s) e =
    let (head, tail) = and_both (is_plain c) (all is_plain s) e in
    trim_end-cons c s ((plain_char c head).0) ∙ ap (λ r. c ∷ r) (plain-trim_end s tail)

plain-trim : (s : Text) → all is_plain s ≡ true → trim s ≡ s
unfolding trim trim_start
plain-trim [] _ = refl
plain-trim (c ∷ s) e =
    let (head, tail) = and_both (is_plain c) (all is_plain s) e in
    rw ((plain_char c head).0) (plain-trim_end (c ∷ s) e)

injected-IsPart :
    (agent : Text) → is_valid_agent_name agent ≡ true → IsPart b';' refl (injected agent)
unfolding is_whitespace
injected-IsPart agent valid =
    let (_, chars) = and_both (not (agent == [])) (all is_agent_char agent) valid in
    let plain : all is_plain (injected agent) ≡ true = agent_plain agent chars in
    (plain-Lacks (injected agent) plain, plain-trim (injected agent) plain)

-- The cookies that name the profile.
abbrev pub names_profile : Text → Bool
names_profile pair = not (is_other (split_once (codes "=") pair))

-- The cookies of a header but those.
abbrev pub others_of : Option Text → List Text
others_of none = []
others_of (some existing) = keep is_kept (parts b';' existing)

-- A header from which a backend reads one profile, and the other cookies that were there.
pub record Injected (existing : Option Text) (agent header : Text) : Type 0 where
  pub safe : is_valid_agent_name agent ≡ true
  pub profile : keep names_profile (parts b';' header) ≡ injected agent ∷ []
  pub others : keep is_kept (parts b';' header) ≡ others_of existing

keep-append : (p : Text → Bool) (xs ys : List Text) → keep p (xs ++ ys) ≡ keep p xs ++ keep p ys
keep-append p [] ys = refl
keep-append p (x ∷ xs) ys = elim (Bool-cases (p x)) [
  | inl e ↦ rw e (ap (λ zs. x ∷ zs) (keep-append p xs ys))
  | inr e ↦ rw e (keep-append p xs ys)
]

keep_twice : (p : Text → Bool) (xs : List Text) → keep p (keep p xs) ≡ keep p xs
keep_twice p [] = refl
keep_twice p (x ∷ xs) = elim (Bool-cases (p x)) [
  | inl e ↦
      let again : keep p (x ∷ keep p xs) ≡ x ∷ keep p xs =
        rw e (ap (λ zs. x ∷ zs) (keep_twice p xs)) in
      rw e again
  | inr e ↦ rw e (keep_twice p xs)
]

kept_other : (pair : Text) → is_kept pair ≡ true → names_profile pair ≡ false
kept_other pair e = let (_, other) = and_both (not (pair == [])) _ e in ap not other

keep_other : (xs : List Text) → keep names_profile (keep is_kept xs) ≡ []
keep_other [] = refl
keep_other (x ∷ xs) = elim (Bool-cases (is_kept x)) [
  | inl e ↦
      let none_later : keep names_profile (x ∷ keep is_kept xs) ≡ [] =
        rw (kept_other x e) (keep_other xs) in
      rw e none_later
  | inr e ↦ rw e (keep_other xs)
]

with_injected-parts :
    (pairs : List Text) (agent : Text)
    → All (IsPart b';' refl) pairs
    → is_valid_agent_name agent ≡ true
    → parts b';' (with_injected pairs agent) ≡ pairs ++ injected agent ∷ []
with_injected-parts [] agent _ valid =
    parts-whole b';' refl (injected agent) (injected-IsPart agent valid)
with_injected-parts (pair ∷ pairs) agent are valid =
    let alone : parts b';' (injected agent) ≡ injected agent ∷ [] =
      parts-whole b';' refl (injected agent) (injected-IsPart agent valid) in
    parts-join b';' refl pair pairs (injected agent) are ∙ ap (λ ps. pair ∷ (pairs ++ ps)) alone

merged_parts :
    (existing : Option Text) (agent : Text)
    → is_valid_agent_name agent ≡ true
    → parts b';' (merge_cookie_header existing agent) ≡ others_of existing ++ injected agent ∷ []
unfolding merge_cookie_header parts
merged_parts none agent valid = with_injected-parts [] agent tt valid
merged_parts (some existing) agent valid =
    with_injected-parts (kept_pairs existing) agent
      (All-keep (IsPart b';' refl) is_kept (parts b';' existing) (parts-IsPart b';' refl existing))
      valid

injected_other : (agent : Text) → is_other (split_once (codes "=") (injected agent)) ≡ false
unfolding split_once strip_prefix trim trim_start is_whitespace ◌==◌
injected_other agent = refl

injected_kept : (agent : Text) → is_kept (injected agent) ≡ false
unfolding ◌==◌
injected_kept agent = injected_other agent

others_profile : (existing : Option Text) → keep names_profile (others_of existing) ≡ []
others_profile none = refl
others_profile (some existing) = keep_other (parts b';' existing)

others_twice : (existing : Option Text) → keep is_kept (others_of existing) ≡ others_of existing
others_twice none = refl
others_twice (some existing) = keep_twice is_kept (parts b';' existing)

merge_cookie_header-Injected :
    (existing : Option Text) (agent : Text)
    → is_valid_agent_name agent ≡ true
    → Injected existing agent (merge_cookie_header existing agent)
merge_cookie_header-Injected existing agent valid =
    let merged = merged_parts existing agent valid in
    let named : names_profile (injected agent) ≡ true = ap not (injected_other agent) in
    let split_by = λ (p : Text → Bool).
      ap (keep p) merged ∙ keep-append p (others_of existing) (injected agent ∷ []) in
    record {
      safe = valid;
      profile = split_by names_profile ∙ rw (others_profile existing, named) refl;
      others =
          split_by is_kept
          ∙ rw (others_twice existing, injected_kept agent) (append-nil (others_of existing));
    }

module _ (from_utf8_lossy : List ℕ → Text) (is_header_value : Text → Bool) where
  -- Where the query names an agent and the request goes on, the agent's name is of the allowed
  -- characters; in the header that goes on, read as trimmed parts between semicolons, exactly one
  -- cookie names the profile, and it names this agent; and the other cookies of the incoming header
  -- are there unchanged and in their order.
  pub inject_agent_cookie-Injected :
      (query cookie : Option Text) (agent header : Text)
      → agent_in from_utf8_lossy query ≡ some agent
      → inject_agent_cookie from_utf8_lossy is_header_value query cookie ≡ good (some header)
      → Injected cookie agent header
  unfolding inject_agent_cookie
  inject_agent_cookie-Injected query cookie agent header named goes_on =
      elim (Bool-cases (is_valid_agent_name agent)) [
        | inl valid ↦ elim (Bool-cases (is_header_value (merge_cookie_header cookie agent))) [
          | inl accepted ↦
              let same : merge_cookie_header cookie agent ≡ header =
                cc (rw (named, valid, accepted) at goes_on) in
              rw same at (merge_cookie_header-Injected cookie agent valid)
          | inr refused ↦ absurd (cc (rw (named, valid, refused) at goes_on))
        ]
        | inr invalid ↦ absurd (cc (rw (named, invalid) at goes_on))
      ]
