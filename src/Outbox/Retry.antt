-- ===== src/Outbox/Retry.antt =====
-- runtime/outbox/retry.rs: when a delivery is tried (again).
use ferris_agent_bridge.Base.{
  ℕ, ◌+◌, ◌-◌, ◌*◌, ◌^◌, min, Bool, false, Option, none, some, Result, ok, ◌>>◌, fail_if, ltb, leb,
  ◌==◌, nat_partial_eq, if◌then◌else◌,
}
use ferris_agent_bridge.Outbox.{
  OutboundDeliveryRecord, pending, delivering, delivered, failed, uncertain,
}

pub data Error : Type 0 where
  max_attempts_zero initial_delay_zero max_delay_too_small : Error

pub record OutboundRetryPolicy : Type 0 where
  pub max_attempts : ℕ  -- u32
  pub initial_retry_delay_secs : ℕ  -- u64
  pub max_retry_delay_secs : ℕ  -- u64

unfoldable pub new : ℕ → ℕ → ℕ → Result Error OutboundRetryPolicy
new max_attempts initial_retry_delay_secs max_retry_delay_secs = do
  fail_if (max_attempts == 0) max_attempts_zero
  fail_if (initial_retry_delay_secs == 0) initial_delay_zero
  fail_if (ltb max_retry_delay_secs initial_retry_delay_secs) max_delay_too_small
  ok (record {
    max_attempts = max_attempts;
    initial_retry_delay_secs = initial_retry_delay_secs;
    max_retry_delay_secs = max_retry_delay_secs;
  })

unfoldable pub default : OutboundRetryPolicy
default = record { max_attempts = 3; initial_retry_delay_secs = 1; max_retry_delay_secs = 60 }

-- u64 arithmetic that stops at the greatest value.
abbrev pub u64_max : ℕ
u64_max = 18446744073709551615

unfoldable pub saturating_add : ℕ → ℕ → ℕ
saturating_add a b = min (a + b) u64_max

unfoldable pub saturating_mul : ℕ → ℕ → ℕ
saturating_mul a b = min (a * b) u64_max

-- `1_u64.checked_shl(exponent).unwrap_or(u64::MAX)`: the shift is refused from 64 on.
unfoldable pub shifted_one : ℕ → ℕ
shifted_one exponent = if ltb exponent 64 then 2 ^ exponent else u64_max

unfoldable pub retry_delay_secs : OutboundRetryPolicy → ℕ → ℕ
unfolding saturating_mul shifted_one
retry_delay_secs p completed_attempts =
    let exponent = completed_attempts - 1 in
    min (saturating_mul p.initial_retry_delay_secs (shifted_one exponent)) p.max_retry_delay_secs

unfoldable pub next_attempt_at_unix : OutboundRetryPolicy → OutboundDeliveryRecord → Option ℕ
unfolding saturating_add
next_attempt_at_unix p d = elim d.status [
  | pending ↦ some d.updated_at_unix
  | failed ↦
      if ltb d.delivery_attempts p.max_attempts
      then some (saturating_add d.updated_at_unix (retry_delay_secs p d.delivery_attempts))
      else none
  | delivering ↦ none
  | delivered ↦ none
  | uncertain ↦ none
]

unfoldable pub is_due : OutboundRetryPolicy → OutboundDeliveryRecord → ℕ → Bool
unfolding next_attempt_at_unix
is_due p d now_unix = elim (next_attempt_at_unix p d) [ none ↦ false | some t ↦ leb t now_unix ]
