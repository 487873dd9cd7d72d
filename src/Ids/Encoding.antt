-- ===== src/Ids/Encoding.antt =====
-- Canonical components can be told apart: the encoding is injective, also where several are joined.
use mathlib.Core.Path.{sym, ◌∙◌}
use mathlib.Core.List.{append_assoc}
use ferris_agent_bridge.Base.{
  ℕ, zero, suc, ◌/◌, ◌%◌, ◌<◌, ◌≡◌, refl, ◌≢◌, [], ◌∷◌, ◌++◌, All, arith, length,
}
use ferris_agent_bridge.Base.Text.{Text}
use ferris_agent_bridge.Ids.{hex_digit, hex_from, lower_hex, hex_bytes, encode_canonical_component}

-- Bytes, as every `String` has them.
abbrev pub IsBytes : Text → Type 0
IsBytes = All (λ b. b < 256)

abbrev pub NoUnderscore : Text → Type 0
NoUnderscore = All (λ b. b ≢ b'_')

hex_digit-ne : (d : ℕ) → d < 16 → hex_digit d ≢ b'_'
unfolding hex_digit
hex_digit-ne d h = ground arith

hex_digit-injective : (d e : ℕ) → hex_digit d ≡ hex_digit e → d < 16 → e < 16 → d ≡ e
unfolding hex_digit
hex_digit-injective d e h = ground arith

hex_from-NoUnderscore :
    (fuel n : ℕ) (acc : Text) → NoUnderscore acc → NoUnderscore (hex_from fuel n acc)
unfolding hex_from
hex_from-NoUnderscore zero n acc h = h
hex_from-NoUnderscore (suc fuel) n acc h = ground (
  arith,
  hex_digit-ne (n % 16) (omega arith),
  hex_from-NoUnderscore fuel (n / 16) (hex_digit (n % 16) ∷ acc)
      (hex_digit-ne (n % 16) (omega arith), h),
)

hex_bytes-NoUnderscore : (s : Text) → IsBytes s → NoUnderscore (hex_bytes s)
unfolding hex_bytes
hex_bytes-NoUnderscore [] h = tt
hex_bytes-NoUnderscore (b ∷ s) h = (
  hex_digit-ne (b / 16) (omega (arith, h.0)),
  (hex_digit-ne (b % 16) (omega arith), hex_bytes-NoUnderscore s h.1),
)

hex_bytes-injective : (s t : Text) → IsBytes s → IsBytes t → hex_bytes s ≡ hex_bytes t → s ≡ t
unfolding hex_bytes
hex_bytes-injective [] [] h k e = refl
hex_bytes-injective [] (b ∷ t) h k e = cc
hex_bytes-injective (a ∷ s) [] h k e = cc
hex_bytes-injective (a ∷ s) (b ∷ t) h k e = ground (
  arith,
  hex_digit-injective (a / 16) (b / 16),
  hex_digit-injective (a % 16) (b % 16),
  hex_bytes-injective s t h.1 k.1,
)

-- Two texts that are cut at their first underscore have equal parts.
split_underscore :
    (xs xs' : Text) {ys ys' : Text}
    → NoUnderscore xs
    → NoUnderscore xs'
    → xs ++ b'_' ∷ ys ≡ xs' ++ b'_' ∷ ys'
    → (xs ≡ xs') × (ys ≡ ys')
split_underscore [] [] h h' e = (refl, cc)
split_underscore [] (x ∷ xs') h h' e = absurd (h'.0 (cc))
split_underscore (x ∷ xs) [] h h' e = absurd (h.0 (cc))
split_underscore (x ∷ xs) (x' ∷ xs') {ys} {ys'} h h' e =
    let rest : (xs ≡ xs') × (ys ≡ ys') = split_underscore xs xs' h.1 h'.1 (cc) in
    (cc rest.0, rest.1)

lower_hex-NoUnderscore : (n : ℕ) → NoUnderscore (lower_hex n)
unfolding lower_hex
lower_hex-NoUnderscore n = hex_from-NoUnderscore 16 n [] tt

-- The last component of an identifier.
pub encode-injective_end :
    (s t : Text)
    → IsBytes s
    → IsBytes t
    → encode_canonical_component s ≡ encode_canonical_component t
    → s ≡ t
unfolding encode_canonical_component
encode-injective_end s t h k e =
    hex_bytes-injective s t h k
      (split_underscore (lower_hex (length s)) (lower_hex (length t))
        (lower_hex-NoUnderscore (length s)) (lower_hex-NoUnderscore (length t)) e).1

-- An encoded component holds one underscore, so a separator after it is found again.
pub encode-injective :
    (s t : Text) {rest rest' : Text}
    → IsBytes s
    → IsBytes t
    → encode_canonical_component s ++ b'_' ∷ rest ≡ encode_canonical_component t ++ b'_' ∷ rest'
    → (s ≡ t) × (rest ≡ rest')
unfolding encode_canonical_component
encode-injective s t {rest} {rest'} h k e =
    let cut =
      split_underscore (lower_hex (length s)) (lower_hex (length t))
        {ys = hex_bytes s ++ b'_' ∷ rest} {ys' = hex_bytes t ++ b'_' ∷ rest'}
        (lower_hex-NoUnderscore (length s)) (lower_hex-NoUnderscore (length t))
        (sym (append_assoc (lower_hex (length s)) (b'_' ∷ hex_bytes s) (b'_' ∷ rest))
          ∙ e
          ∙ append_assoc (lower_hex (length t)) (b'_' ∷ hex_bytes t) (b'_' ∷ rest')) in
    let (payload, tail) =
      split_underscore (hex_bytes s) (hex_bytes t) (hex_bytes-NoUnderscore s h)
        (hex_bytes-NoUnderscore t k) cut.1 in
    (hex_bytes-injective s t h k payload, tail)
