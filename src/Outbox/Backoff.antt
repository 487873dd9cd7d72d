-- ===== src/Outbox/Backoff.antt =====
-- The retry delays are capped exponential backoff, and the attempts of a delivery are bounded.
use ferris_agent_bridge.Base.{
  ℕ, ◌+◌, ◌-◌, ◌*◌, ◌^◌, min, ◌≤◌, ◌<◌, ◌≡◌, true, none, ok, arith, ltb, Bool-cases, inl, inr,
  not_ltb→le, ◌⊎◌, ◌↔◌, max,
}
use native.Mathlib.Nat.{pow-le-pow_right}
use ferris_agent_bridge.Outbox.{
  OutboundDeliveryRecord, pending, delivering, failed, begin_delivery, u32_max,
}
use ferris_agent_bridge.Outbox.Valid.{IsValid}
use ferris_agent_bridge.Outbox.Retry.{
  OutboundRetryPolicy, new, u64_max, saturating_add, shifted_one, retry_delay_secs, is_due,
}

-- What `OutboundRetryPolicy::new` checks, and that a u64 holds the longest delay.
pub record IsPolicy (p : OutboundRetryPolicy) : Type 0 where
  pub attempts : 0 < p.max_attempts
  pub initial : 0 < p.initial_retry_delay_secs
  pub capped : p.initial_retry_delay_secs ≤ p.max_retry_delay_secs
  pub word : p.max_retry_delay_secs ≤ u64_max

new-IsPolicy : (n i m : ℕ) {p : OutboundRetryPolicy} → m ≤ u64_max → new n i m ≡ ok p → IsPolicy p
unfolding new
new-IsPolicy n i m w h = ground arith

-- A shift that a u64 refuses would have been longer than every delay.
long_shift : (e : ℕ) → 64 ≤ e → u64_max < 2 ^ e
long_shift e h = omega (arith, pow-le-pow_right {n = 2} (omega arith) {i = 64} {j = e} h)

scaled-le : (i x : ℕ) → 0 < i → x ≤ i * x
scaled-le i x h = grind arith

scaled-le-scaled : (i x y : ℕ) → x ≤ y → i * x ≤ i * y
scaled-le-scaled i x y h = grind arith

capped_product :
    (i m e : ℕ) → 0 < i → m ≤ u64_max → min (min (i * shifted_one e) u64_max) m ≡ min (i * 2 ^ e) m
unfolding shifted_one
capped_product i m e hi hm = elim (Bool-cases (ltb e 64)) [
  | inl short ↦ rw short (omega arith)
  | inr long ↦ rw long (
      omega (
        arith,
        long_shift e (not_ltb→le e 64 long),
        scaled-le i (2 ^ e) hi,
        scaled-le i u64_max hi,
      ))
]

-- The saturating arithmetic computes the exact capped exponential backoff: after k attempts the
-- delay is the initial delay times 2 to the power k - 1, or the longest delay if that is less.
pub retry_delay_exact :
    (p : OutboundRetryPolicy) (k : ℕ)
    → IsPolicy p
    → retry_delay_secs p k ≡ min (p.initial_retry_delay_secs * 2 ^ (k - 1)) p.max_retry_delay_secs
unfolding retry_delay_secs
retry_delay_exact p k v =
    capped_product p.initial_retry_delay_secs p.max_retry_delay_secs (k - 1) v.initial v.word

-- The delay stays between the initial and the longest one, and never falls as attempts add up.
pub retry_delay_bounds :
    (p : OutboundRetryPolicy) (j k : ℕ)
    → IsPolicy p
    → j ≤ k
    → (p.initial_retry_delay_secs ≤ retry_delay_secs p j)
      × (retry_delay_secs p j ≤ retry_delay_secs p k)
      × (retry_delay_secs p k ≤ p.max_retry_delay_secs)
retry_delay_bounds p j k v h =
    let exact_j = retry_delay_exact p j v in
    let exact_k = retry_delay_exact p k v in
    let grows = pow-le-pow_right {n = 2} (omega arith) {i = j - 1} {j = k - 1} (omega arith) in
    let once = pow-le-pow_right {n = 2} (omega arith) {i = 0} {j = j - 1} (omega arith) in
    let i = p.initial_retry_delay_secs in
    let low = scaled-le-scaled i 1 (2 ^ (j - 1)) once in
    let high = scaled-le-scaled i (2 ^ (j - 1)) (2 ^ (k - 1)) grows in omega arith

-- Due at once while pending; due after the backoff while failed with attempts left; never due
-- in any other state.
abbrev pub DueAt : OutboundRetryPolicy → OutboundDeliveryRecord → ℕ → Type 0
DueAt p d now =
    ((d.status ≡ pending) × (d.updated_at_unix ≤ now))
    ⊎ ((d.status ≡ failed)
        × (d.delivery_attempts < p.max_attempts)
        × (min (d.updated_at_unix + retry_delay_secs p d.delivery_attempts) u64_max ≤ now))

-- `is_due` answers yes exactly for a pending delivery from its last update on, and for a failed one
-- with attempts left from its last update plus the retry delay on, at most the largest u64.
pub is_due_iff :
    (p : OutboundRetryPolicy) (d : OutboundDeliveryRecord) (now : ℕ)
    → (is_due p d now ≡ true) ↔ DueAt p d now
unfolding is_due saturating_add
is_due_iff p d now = (λ h. ground arith, λ h. ground arith)

-- A delivery that is due can be begun at once, and then has used no more than the policy's attempts.
pub due_begins :
    (p : OutboundRetryPolicy) (d : OutboundDeliveryRecord) (now : ℕ)
    → IsPolicy p
    → p.max_attempts ≤ u32_max
    → IsValid d
    → d.updated_at_unix ≤ u64_max
    → is_due p d now ≡ true
    → (d' : OutboundDeliveryRecord) × (begin_delivery d now ≡ ok d')
      × (d'.delivery_attempts ≤ p.max_attempts)
unfolding begin_delivery
due_begins p d now policy small v w due =
    let at = (is_due_iff p d now).0 due in
    (
      record d {
        status = delivering;
        delivery_attempts = d.delivery_attempts + 1;
        delivered_at_unix = none;
        last_error = none;
        updated_at_unix = max d.updated_at_unix now;
      },
      ground (arith, at),
      ground (arith, at),
    )
