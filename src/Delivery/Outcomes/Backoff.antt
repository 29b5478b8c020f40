-- ===== src/Delivery/Outcomes/Backoff.antt =====
-- src/db/repositories/user_actor_delivery_outcomes.py: the delay before a retry.
use discord_fediverse_bridge.Base.{ℕ, zero, suc, ◌+◌, ◌-◌, ◌≤◌, ◌<◌, ◌≡◌, ◌^◌, min, arith, refl}
use discord_fediverse_bridge.Delivery.Outcomes.{backoff_seconds}

power_le : (k n : ℕ) → n + k ≡ 7 → (1 ≤ 2 ^ n) × (2 ^ n ≤ 128)
power_le zero n e = let last : n ≡ 7 = omega (arith, e) in rw last (omega arith, omega arith)
power_le (suc k) n e =
    let (low, high) = power_le k (suc n) (omega (arith, e)) in
    (omega (arith, low), omega (arith, high))

-- The delay doubles with each of the first eight attempts and is 256 seconds
-- from then on: the bound of 300 seconds is never reached.
pub backoff_seconds_doubles :
    (n : ℕ)
    → (n < 8 → backoff_seconds (suc n) ≡ backoff_seconds n + backoff_seconds n)
      × (8 ≤ n → backoff_seconds n ≡ 256)
unfolding backoff_seconds
backoff_seconds_doubles n = (
  λ h.
      let (low, high) = power_le (7 - n) n (omega (arith, h)) in
      let here : min n 8 ≡ n = omega (arith, h) in
      let there : min (suc n) 8 ≡ suc n = omega (arith, h) in
      rw here rw there omega (arith, low, high),
  λ h. let capped : min n 8 ≡ 8 = omega (arith, h) in rw capped refl,
)
