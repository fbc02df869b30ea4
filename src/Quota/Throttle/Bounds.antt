-- ===== src/Quota/Throttle/Bounds.antt =====
-- The range of the quota test and of the percentage (src/internal/mgr/traffic.go, panel.go).
use lxc_hosting.Base.{
  ℕ, ◌*◌, ◌/◌, ◌+◌, ◌^◌, ◌≤◌, ◌<◌, true, none, some, ◌≡◌, ◌↔◌, arith, ltb, if◌then◌else◌,
}
use lxc_hosting.Std.Int64.{modulus, min_negative}
use lxc_hosting.Quota.Throttle.{should_throttle, traffic_pct}

-- A quota below 2 ^ 34 GiB throttles exactly the users who have used that many bytes; 0 throttles
-- nobody.
pub should_throttle_iff :
    (used quota_gb : ℕ)
    → quota_gb < 2 ^ 34
    → (should_throttle used quota_gb ≡ true) ↔ ((0 < quota_gb) × (quota_gb * 2 ^ 30 ≤ used))
unfolding should_throttle
should_throttle_iff used quota_gb h = ground arith

-- More traffic never lifts the throttle.
pub should_throttle_mono :
    (used more quota_gb : ℕ)
    → should_throttle used quota_gb ≡ true
    → should_throttle (used + more) quota_gb ≡ true
unfolding should_throttle
should_throttle_mono used more quota_gb h = ground arith

hundred_le_div : (a q : ℕ) → 0 < q → 100 * q ≤ a → 100 ≤ a / q
hundred_le_div a q h k = grind arith

hundred_le_mul : (a q : ℕ) → 0 < q → 100 ≤ a / q → 100 * q ≤ a
hundred_le_mul a q h k = grind arith

-- Below the wrap-around the percentage is there, it is at most 100, and it is 100 as soon as the
-- user is throttled.
pub traffic_pct_bounds :
    (used quota_gb : ℕ)
    → 0 < quota_gb
    → quota_gb < 2 ^ 34
    → used * 100 < modulus
    → (p : ℕ) × (traffic_pct used quota_gb ≡ some p)
      × (p ≤ 100)
      × ((should_throttle used quota_gb ≡ true) ↔ (p ≡ 100))
unfolding should_throttle traffic_pct
traffic_pct_bounds used quota_gb h k u =
    let q = quota_gb * 2 ^ 30 in
    let pct = used * 100 / q in
    (
      (if ltb 100 pct then 100 else pct),
      ground arith,
      ground arith,
      (
        (λ t. ground (arith, hundred_le_div (used * 100) q)),
        (λ e. ground (arith, hundred_le_mul (used * 100) q)),
      ),
    )

-- A quota that is a multiple of 2 ^ 34 GiB shifts to 0 bytes: everybody who has it is throttled
-- from the first byte on, and the user's page divides by zero.
pub quota_shifted_out :
    (used n : ℕ)
    → 0 < n
    → n * 2 ^ 34 < min_negative
    → (should_throttle used (n * 2 ^ 34) ≡ true) × (traffic_pct used (n * 2 ^ 34) ≡ none)
unfolding should_throttle traffic_pct
quota_shifted_out used n h k = ground arith
