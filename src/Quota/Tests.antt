-- ===== src/Quota/Tests.antt =====
-- Quotas as the admin enters them.
use lxc_hosting.Base.{
  ◌⊎◌, codes, leb, if◌then◌else◌, ℕ, ◌<◌, ◌≤◌, ◌%◌, ◌*◌, ◌^◌, ◌≡◌, ◌↔◌, refl, true, none, some,
  arith,
}
use lxc_hosting.Std.Int64.{min_negative, modulus, int_lt, max_int, wrap}
use lxc_hosting.Std.Strings.{trim_space}
use lxc_hosting.Std.Strconv.{itoa, value, all_digits}
use lxc_hosting.Quota.Sizes.{mem_unit, parse_mem, parse_mem_strict, at_least}
use lxc_hosting.Quota.Sizes.Limits.{parse_mem-strict}
use lxc_hosting.Quota.Cpu.{parse_cpu, validate_cpu, format_cpu, ok}
use lxc_hosting.Quota.Cpu.RoundTrip.{parse_cpu-format_cpu, parse_cpu-whole, parse_cpu-wraps}
use lxc_hosting.Quota.Throttle.{should_throttle, traffic_pct}
use lxc_hosting.Quota.Throttle.Bounds.{should_throttle_iff, traffic_pct_bounds, quota_shifted_out}

parse_cpu-format_cpu_example : parse_cpu (format_cpu 5) ≡ ok 5
unfolding validate_cpu int_lt
parse_cpu-format_cpu_example = parse_cpu-format_cpu 5 (omega arith) refl

parse_cpu-whole_example : (parse_cpu (itoa 12) ≡ ok 120) × (validate_cpu 120 ≡ ok tt)
parse_cpu-whole_example = parse_cpu-whole 12 (omega arith) (omega arith)

parse_cpu-wraps_example :
    (parse_cpu (itoa 1844674407370955162) ≡ ok (18446744073709551620 % modulus))
    × (18446744073709551620 % modulus < 18446744073709551620)
    × ((validate_cpu (18446744073709551620 % modulus) ≡ ok tt)
        ↔ ((1 ≤ 4) × (4 < min_negative) × ((4 < 10) ⊎ (18446744073709551620 % modulus % 10 ≡ 0))))
parse_cpu-wraps_example = parse_cpu-wraps 1844674407370955162 (omega arith) (omega arith)

should_throttle_iff_example :
    (should_throttle 1073741824 1 ≡ true) ↔ ((0 < 1) × (1 * 2 ^ 30 ≤ 1073741824))
should_throttle_iff_example = should_throttle_iff 1073741824 1 (omega arith)

traffic_pct_bounds_example :
    (p : ℕ) × (traffic_pct 5368709120 10 ≡ some p)
    × (p ≤ 100)
    × ((should_throttle 5368709120 10 ≡ true) ↔ (p ≡ 100))
traffic_pct_bounds_example =
    traffic_pct_bounds 5368709120 10 (omega arith) (omega arith) (omega arith)

quota_shifted_out_example :
    (should_throttle 1 (1 * 2 ^ 34) ≡ true) × (traffic_pct 1 (1 * 2 ^ 34) ≡ none)
quota_shifted_out_example = quota_shifted_out 1 1 (omega arith) (omega arith)

-- 2 ^ 63 MiB
parse_mem-strict_example :
    (parse_mem (codes "9223372036854775808") ≡ (
      if leb (value 0 (codes "9223372036854775808")) max_int
      then parse_mem_strict (codes "9223372036854775808")
      else none))
    × (parse_mem_strict (codes "9223372036854775808")
        ≡ at_least 64 (
            wrap (
              (if leb (value 0 (codes "9223372036854775808")) max_int
                then value 0 (codes "9223372036854775808")
                else max_int)
              * 1)))
unfolding mem_unit trim_space all_digits
parse_mem-strict_example =
    parse_mem-strict (codes "9223372036854775808")
      (record { digits = codes "9223372036854775808"; mult = 1 }) refl refl
