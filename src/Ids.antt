-- ===== src/Ids.antt =====
-- Identifier rules: `is_valid_id` (runtime/run.rs, session.rs, outbox.rs), the test
-- `str::trim().is_empty()`, and `encode_canonical_component` (runtime/session.rs, event.rs).
pub mod Encoding
use ferris_agent_bridge.Base.{
  ℕ, zero, suc, ◌+◌, ◌/◌, ◌%◌, Bool, true, false, ◌&&◌, ◌||◌, not, Option, none, some, List, [],
  ◌∷◌, ◌++◌, ltb, leb, ◌==◌, nat_partial_eq, if◌then◌else◌, length,
}
use ferris_agent_bridge.Base.Text.{Text, codes}

pub is_ascii_alphanumeric : ℕ → Bool
is_ascii_alphanumeric b =
    (leb b'0' b && leb b b'9') || (leb b'a' b && leb b b'z') || (leb b'A' b && leb b b'Z')

pub is_id_byte : ℕ → Bool
unfolding is_ascii_alphanumeric
is_id_byte b = is_ascii_alphanumeric b || b == b'_' || b == b'-' || b == b'.' || b == b':'

pub all_id_bytes : Text → Bool
unfolding is_id_byte
all_id_bytes [] = true
all_id_bytes (b ∷ s) = is_id_byte b && all_id_bytes s

pub is_empty : Text → Bool
is_empty [] = true
is_empty (b ∷ s) = false

unfoldable pub is_valid_id : Text → Bool
unfolding is_empty all_id_bytes
is_valid_id s = not (is_empty s) && all_id_bytes s

-- The bytes read of a white-space character that is not complete yet.
pub data Pending : Type 0 where
  start c2 e1 e1_9a e2 e2_80 e2_81 e3 e3_80 : Pending

then_if : Bool → Pending → Option Pending
then_if true p = some p
then_if false p = none

-- One byte of `char::is_whitespace` on UTF-8: `none` where the character is no white space.
next : Pending → ℕ → Option Pending
unfolding then_if
next start b =
    if (leb 9 b && leb b 13) || b == 32
    then some start
    else if b == 0xc2
    then some c2
    else if b == 0xe1
    then some e1
    else if b == 0xe2
    then some e2
    else then_if (b == 0xe3) e3
next c2 b = then_if (b == 0x85 || b == 0xa0) start
next e1 b = then_if (b == 0x9a) e1_9a
next e1_9a b = then_if (b == 0x80) start
next e2 b = if b == 0x80 then some e2_80 else then_if (b == 0x81) e2_81
next e2_80 b = then_if ((leb 0x80 b && leb b 0x8a) || b == 0xa8 || b == 0xa9 || b == 0xaf) start
next e2_81 b = then_if (b == 0x9f) start
next e3 b = then_if (b == 0x80) e3_80
next e3_80 b = then_if (b == 0x80) start

at_start : Pending → Bool
at_start start = true
at_start _ = false

blank_from : Pending → Text → Bool
unfolding next at_start
blank_from p [] = at_start p
blank_from p (b ∷ s) = elim (next p b) [ none ↦ false | some q ↦ blank_from q s ]

-- `s.trim().is_empty()`
unfoldable pub is_blank : Text → Bool
unfolding blank_from
is_blank s = blank_from start s

pub hex_digit : ℕ → ℕ
hex_digit d = if ltb d 10 then 48 + d else 87 + d

hex_from : ℕ → ℕ → Text → Text
unfolding hex_digit
hex_from zero n acc = acc
hex_from (suc fuel) n acc =
    let acc' = hex_digit (n % 16) ∷ acc in
    let rest = hex_from fuel (n / 16) acc' in if n / 16 == 0 then acc' else rest

-- `{:x}` of a usize, which has 16 digits at most.
pub lower_hex : ℕ → Text
unfolding hex_from
lower_hex n = hex_from 16 n []

pub hex_bytes : Text → Text
unfolding hex_digit
hex_bytes [] = []
hex_bytes (b ∷ s) = hex_digit (b / 16) ∷ hex_digit (b % 16) ∷ hex_bytes s

unfoldable pub encode_canonical_component : Text → Text
unfolding lower_hex hex_bytes
encode_canonical_component value = lower_hex (length value) ++ b'_' ∷ hex_bytes value

-- `OutboundDeliveryId` of runtime/outbox.rs, which runs and deliveries both name.
abbrev pub OutboundDeliveryId : Type 0
OutboundDeliveryId = Text
