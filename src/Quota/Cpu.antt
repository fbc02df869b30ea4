-- ===== src/Quota/Cpu.antt =====
-- CPU quotas in tenths of a core: parsing, validation, display (src/internal/mgr/cpu.go), and the
-- LXD keys that they are mapped to (src/internal/lx/lx.go, cpuLimitConfig).
pub mod RoundTrip
use lxc_hosting.Base.{
  ℕ, ◌*◌, ◌/◌, ◌%◌, ◌-◌, Bool, true, false, ◌&&◌, List, [], ◌∷◌, ◌++◌, ltb, leb, ◌==◌,
  if◌then◌else◌, not, Text, codes, Option, none, some,
}
use lxc_hosting.Std.Int64.{int_lt, wrap, min_negative}
use lxc_hosting.Std.Strconv.{atoi, itoa, all_digits}
use lxc_hosting.Std.Strings.{trim_space}

pub data CpuError : Type 0 where
  empty_input below_one_core not_a_quota below_tenth fractional_cores : CpuError

pub data CpuResult {ℓ} (A : Type ℓ) : Type ℓ where
  ok : A → CpuResult A
  err : CpuError → CpuResult A

-- `^\d+$`
unfoldable pub cpu_int_re : Text → Bool
unfolding all_digits
cpu_int_re [] = false
cpu_int_re (c ∷ s) = all_digits (c ∷ s)

-- `^0?\.([1-9])$`, with the group that it captures
unfoldable pub cpu_frac_re : Text → Option ℕ
cpu_frac_re (d ∷ t ∷ []) = if d == b'.' && leb b'1' t && leb t b'9' then some t else none
cpu_frac_re (z ∷ d ∷ t ∷ []) =
    if z == b'0' && d == b'.' && leb b'1' t && leb t b'9' then some t else none
cpu_frac_re _ = none

abbrev pub parse_frac : Option ℕ → CpuResult ℕ
parse_frac none = err not_a_quota
parse_frac (some t) = ok (t - b'0')

abbrev pub parse_trimmed : Text → CpuResult ℕ
parse_trimmed [] = err empty_input
parse_trimmed (c ∷ s) =
    if cpu_int_re (c ∷ s)
    then (let n = (atoi (c ∷ s)).number in
        if int_lt n 1 then err below_one_core else ok (wrap (n * 10)))
    else parse_frac (cpu_frac_re (c ∷ s))

-- The error of `Atoi` is dropped, as in the source.
unfoldable pub parse_cpu : Text → CpuResult ℕ
unfolding cpu_int_re cpu_frac_re
parse_cpu s = parse_trimmed (trim_space s)

unfoldable pub validate_cpu : ℕ → CpuResult (Unit {0})
validate_cpu tenths =
    if int_lt tenths 1
    then err below_tenth
    else if int_lt tenths 10
    then ok tt
    else if not (tenths % 10 == 0)
    then err fractional_cores
    else ok tt

unfoldable pub format_cpu : ℕ → Text
format_cpu tenths = if tenths % 10 == 0 then itoa (tenths / 10) else codes "0." ++ itoa tenths

-- The values of `limits.cpu` and `limits.cpu.allowance`.
pub record CpuLimits : Type 0 where
  pub limits_cpu : Text
  pub allowance : Text

unfoldable pub cpu_limit_config : ℕ → CpuLimits
cpu_limit_config tenths =
    if not (tenths % 10 == 0)
    then record { limits_cpu = codes "1"; allowance = itoa (tenths * 10) ++ codes "ms/100ms" }
    else record { limits_cpu = itoa (tenths / 10); allowance = [] }
