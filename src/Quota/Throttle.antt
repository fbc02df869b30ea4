-- ===== src/Quota/Throttle.antt =====
-- The monthly traffic quota: its entry and its test (src/internal/mgr/traffic.go), and the
-- percentage that the user panel shows (src/internal/panel/panel.go, buildData).
pub mod Bounds
use lxc_hosting.Base.{
  ℕ, ◌*◌, ◌/◌, ◌%◌, ◌^◌, ◌≤◌, Bool, true, false, ◌||◌, [], ◌∷◌, ltb, leb, ◌==◌, if◌then◌else◌, Text,
  Option, none, some,
}
use lxc_hosting.Std.Int64.{int_lt, wrap, modulus, min_negative}
use lxc_hosting.Std.Strconv.{atoi}
use lxc_hosting.Std.Strings.{trim_space}

abbrev pub gib : ℕ
gib = 2 ^ 30

-- `uint64(quotaGB) << 30`
abbrev pub quota_bytes : ℕ → ℕ
quota_bytes quota_gb = wrap (quota_gb * gib)

unfoldable pub should_throttle : ℕ → ℕ → Bool
should_throttle used quota_gb =
    if quota_gb == 0 || leb min_negative quota_gb then false else leb (quota_bytes quota_gb) used

abbrev pub parse_gb_trimmed : Text → Option ℕ
parse_gb_trimmed [] = some 0
parse_gb_trimmed (c ∷ s) =
    let r = atoi (c ∷ s) in if r.failed || int_lt r.number 0 then none else some r.number

-- `none` is the error "bandwidth quota must be a non-negative integer".
unfoldable pub parse_traffic_gb : Text → Option ℕ
unfolding int_lt
parse_traffic_gb s = parse_gb_trimmed (trim_space s)

-- `used * 100 / quota`, clamped to 100; `none` is a division by zero, where the handler panics.
unfoldable pub traffic_pct : ℕ → ℕ → Option ℕ
traffic_pct used quota_gb =
    if quota_bytes quota_gb == 0
    then none
    else (let pct = wrap (used * 100) / quota_bytes quota_gb in
        some (if ltb 100 pct then 100 else pct))
