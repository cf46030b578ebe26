-- ===== src/Workspaces/AgentCookie/Decoding.antt =====
-- The decoding loop, and what it decodes.
use Prim.Native.Nat.{ℕ, zero, suc, ◌+◌, ◌<◌, ◌≤◌}
use mathlib.Core.Path.{◌≡◌, refl, sym, ap, ◌∙◌}
use mathlib.Core.Logic.{inl, inr}
use mathlib.Core.Bool.{true, false}
use mathlib.Core.Option.{none, some}
use mathlib.Core.List.{List, [], ◌∷◌, ◌++◌, append_assoc, append-nil}
use native.Mathlib.Omega.{arith}
use aglack.Prelude.Tests.{if◌then◌else◌, nat_eq, ltb, Bool-cases, Option-cases}
use aglack.Prelude.Text.{Text}
use aglack.Prelude.Lists.{drop, length}
use aglack.Workspaces.AgentCookie.{
  head?, byte_at, from_hex, unescape, decode_loop, decoded, percent_decode,
}

-- A `+` stands for a space.
abbrev plain : ℕ → ℕ
plain b = if nat_eq b b'+' then 32 else b

-- The decoded text: `%` and two digits stand for a byte, and a `%` without them for itself.
unfoldable pub decode : List ℕ → List ℕ
unfolding from_hex
decode [] = []
decode (b ∷ []) = plain b ∷ []
decode (b ∷ c ∷ []) = plain b ∷ plain c ∷ []
decode (b ∷ c ∷ d ∷ rest) =
    let later = decode (c ∷ d ∷ rest) in
    let behind = decode rest in
    if nat_eq b b'+'
    then 32 ∷ later
    else if nat_eq b b'%'
    then elim (from_hex c d) [ some byte ↦ byte ∷ behind | none ↦ b ∷ later ]
    else b ∷ later

-- What the loop does at a `b` with `rest` behind it.
abbrev here : ℕ → List ℕ → ℕ × ℕ
here b (c ∷ d ∷ rest) =
    if nat_eq b b'+'
    then (32, 1)
    else if nat_eq b b'%'
    then elim (from_hex c d) [ some byte ↦ (byte, 3) | none ↦ (b, 1) ]
    else (b, 1)
here b _ = (plain b, 1)

drop_twice : (i k : ℕ) (xs : List ℕ) → drop (i + k) xs ≡ drop k (drop i xs)
drop_twice zero k xs = let same : 0 + k ≡ k = omega arith in ap (λ n. drop n xs) same
drop_twice (suc i) zero [] = let same : suc i + 0 ≡ suc i = omega arith in ap (λ n. drop n []) same
drop_twice (suc i) (suc k) [] =
    let same : suc i + suc k ≡ suc (i + suc k) = omega arith in ap (λ n. drop n []) same
drop_twice (suc i) k (x ∷ xs) =
    let same : suc i + k ≡ suc (i + k) = omega arith in
    ap (λ n. drop n (x ∷ xs)) same ∙ drop_twice i k xs

length-drop :
    (i : ℕ) (xs : List ℕ) {b : ℕ} {rest : List ℕ}
    → drop i xs ≡ b ∷ rest
    → length xs ≡ i + suc (length rest)
length-drop zero xs {b = b} {rest = rest} e =
    let same : length xs ≡ length (b ∷ rest) = ap length e in omega (arith, same)
length-drop (suc i) [] e = absurd (cc e)
length-drop (suc i) (x ∷ xs) e = omega (arith, length-drop i xs e)

byte_at-drop :
    (i k : ℕ) (bytes : List ℕ) {r : List ℕ}
    → drop i bytes ≡ r
    → byte_at bytes (i + k) ≡ head? (drop k r)
byte_at-drop i k bytes e = ap head? (drop_twice i k bytes ∙ ap (drop k) e)

test_beyond : (i n m : ℕ) → m ≤ i + 2 → n ≡ m → ltb (i + 2) n ≡ false
test_beyond i n m le e = ground arith

test_within : (i n m : ℕ) → m ≡ i + 3 + n → ltb (i + 2) m ≡ true
test_within i n m e = ground arith

-- A percent sign with fewer than two bytes behind it stands for itself.
unescape-end :
    (bytes : List ℕ) (i b : ℕ)
    → ltb (i + 2) (length bytes) ≡ false
    → unescape bytes i b ≡ (plain b, 1)
unescape-end bytes i b e = elim (Bool-cases (nat_eq b b'+')) [
  | inl plus ↦ rw plus refl
  | inr other ↦ elim (Bool-cases (nat_eq b b'%')) [
    | inl percent ↦ rw (other, percent, e) refl
    | inr neither ↦ rw (other, neither) refl
  ]
]

-- What the loop does is what stands there.
unescape-here :
    (bytes : List ℕ) (i b : ℕ) (rest : List ℕ)
    → drop i bytes ≡ b ∷ rest
    → unescape bytes i b ≡ here b rest
unescape-here bytes i b [] e =
    unescape-end bytes i b
      (test_beyond i (length bytes) (i + 1) (omega arith) (length-drop i bytes e))
unescape-here bytes i b (c ∷ []) e =
    unescape-end bytes i b
      (test_beyond i (length bytes) (i + 2) (omega arith) (length-drop i bytes e))
unescape-here bytes i b (c ∷ d ∷ rest) e =
    let size : length bytes ≡ i + 3 + length rest = omega (arith, length-drop i bytes e) in
    let within : ltb (i + 2) (length bytes) ≡ true =
      test_within i (length rest) (length bytes) size in
    let first : byte_at bytes (i + 1) ≡ some c = byte_at-drop i 1 bytes e in
    let second : byte_at bytes (i + 2) ≡ some d = byte_at-drop i 2 bytes e in
    elim (Bool-cases (nat_eq b b'%')) [
      | inl percent ↦ rw (within, first, second, percent) refl
      | inr other ↦ rw (within, first, second, other) refl
    ]

decode-here :
    (b : ℕ) (rest : List ℕ)
    → decode (b ∷ rest) ≡ (here b rest).0 ∷ decode (drop ((here b rest).1) (b ∷ rest))
unfolding decode
decode-here b [] = refl
decode-here b (c ∷ []) = refl
decode-here b (c ∷ d ∷ rest) = elim (Bool-cases (nat_eq b b'+')) [
  | inl plus ↦ rw plus refl
  | inr other ↦ elim (Bool-cases (nat_eq b b'%')) [
    | inl percent ↦ elim (Option-cases (from_hex c d)) [
      | inl not_hex ↦ rw (other, percent, not_hex) refl
      | inr (byte, hex) ↦ rw (other, percent, hex) refl
    ]
    | inr neither ↦ rw (other, neither) refl
  ]
]

here-shorter : (b : ℕ) (rest : List ℕ) → length (drop ((here b rest).1) (b ∷ rest)) ≤ length rest
here-shorter b [] = omega arith
here-shorter b (c ∷ []) = omega arith
here-shorter b (c ∷ d ∷ rest) = ground arith

decode_loop-end :
    (fuel : ℕ) (bytes : List ℕ) (i : ℕ) (out : List ℕ)
    → drop i bytes ≡ []
    → decode_loop (suc fuel) bytes i out ≡ some out
unfolding decode_loop
decode_loop-end fuel bytes i out e =
    let at : byte_at bytes i ≡ none = ap head? e in rw (at, decode_loop) refl

decode_loop-round :
    (fuel : ℕ) (bytes : List ℕ) (i b : ℕ) (out rest : List ℕ)
    → drop i bytes ≡ b ∷ rest
    → decode_loop (suc fuel) bytes i out
      ≡ decode_loop fuel bytes (i + (here b rest).1) (out ++ (here b rest).0 ∷ [])
unfolding decode_loop
decode_loop-round fuel bytes i b out rest e =
    let at : byte_at bytes i ≡ some b = ap head? e in
    rw (at, unescape-here bytes i b rest e, decode_loop) refl

-- With fuel for the bytes that are left, the loop appends what they decode to.
pub decode_loop-decode :
    (fuel : ℕ) (bytes : List ℕ) (i : ℕ) (out r : List ℕ)
    → drop i bytes ≡ r
    → length r < fuel
    → decode_loop fuel bytes i out ≡ some (out ++ decode r)
unfolding decode
decode_loop-decode zero bytes i out r e enough = absurd (omega (arith, enough))
decode_loop-decode (suc fuel) bytes i out [] e enough =
    decode_loop-end fuel bytes i out e ∙ ap some (sym (append-nil out))
decode_loop-decode (suc fuel) bytes i out (b ∷ rest) e enough =
    let step = (here b rest).1 in
    let put = out ++ (here b rest).0 ∷ [] in
    let next : drop (i + step) bytes ≡ drop step (b ∷ rest) =
      drop_twice i step bytes ∙ ap (drop step) e in
    let fits : length (drop step (b ∷ rest)) < fuel = omega (arith, enough, here-shorter b rest) in
    decode_loop-round fuel bytes i b out rest e
    ∙ decode_loop-decode fuel bytes (i + step) put (drop step (b ∷ rest)) next fits
    ∙ ap some (append_assoc out _ _ ∙ ap (λ r. out ++ r) (sym (decode-here b rest)))

-- The loop over a text ends within one round more than the text is long and returns the decoded
-- text, and `percent_decode` is that text made valid UTF-8.
pub percent_decode-decode :
    (from_utf8_lossy : List ℕ → Text) (value : Text)
    → (decode_loop (suc (length value)) value 0 [] ≡ some (decode value))
      × (percent_decode from_utf8_lossy value ≡ from_utf8_lossy (decode value))
unfolding percent_decode
percent_decode-decode from_utf8_lossy value =
    let ends : decode_loop (suc (length value)) value 0 [] ≡ some (decode value) =
      decode_loop-decode (suc (length value)) value 0 [] value refl (omega arith) in
    (ends, ap (λ r. from_utf8_lossy (decoded r)) ends)
