-- ===== src/Panels/AdminPanel/Units.antt =====
-- Amounts on the dashboard (src/internal/admin/handlers.go: humanBytes, formatUptime). The text of a
-- quotient with one decimal place, strconv.FormatFloat, is an argument.
use lxc_hosting.Base.{
  ℕ, zero, suc, ◌+◌, ◌*◌, ◌/◌, ◌%◌, ◌^◌, ◌≤◌, ◌<◌, ◌++◌, ltb, leb, ◌==◌, if◌then◌else◌, Text, codes,
  Option, none, some, arith,
}
use lxc_hosting.Std.Strconv.{itoa}
use lxc_hosting.Std.Int64.{wrap}

-- `for n := b / unit; n >= unit; n /= unit { div *= unit; exp++ }`, the divisor and the exponent;
-- `none` means that the fuel ran out.
unfoldable pub unit_loop : ℕ → ℕ → ℕ → ℕ → Option (ℕ × ℕ)
unit_loop zero n div exp = none
unit_loop (suc fuel) n div exp =
    let rest = unit_loop fuel (n / 1024) (wrap (div * 1024)) (exp + 1) in
    if leb 1024 n then rest else some (div, exp)

abbrev pub unit_of : ℕ → Option (ℕ × ℕ)
unit_of b = unit_loop 6 (b / 1024) 1024 0

-- `"KMGTPE"[exp : exp+1]`; `none` is a panic.
abbrev pub letter_of : ℕ → Option Text
letter_of exp =
    if exp == 0
    then some (codes "K")
    else if exp == 1
    then some (codes "M")
    else if exp == 2
    then some (codes "G")
    else if exp == 3
    then some (codes "T")
    else if exp == 4
    then some (codes "P")
    else if exp == 5
    then some (codes "E")
    else none

abbrev with_letter : (ℕ → ℕ → Text) → ℕ → ℕ → Option Text → Option Text
with_letter format_float b div none = none
with_letter format_float b div (some letter) =
    some (format_float b div ++ (codes " " ++ (letter ++ codes "iB")))

abbrev in_units : (ℕ → ℕ → Text) → ℕ → Option (ℕ × ℕ) → Option Text
in_units format_float b none = none
in_units format_float b (some (div, exp)) = with_letter format_float b div (letter_of exp)

-- humanBytes, for a count that is not negative
unfoldable pub human_bytes : (ℕ → ℕ → Text) → ℕ → Option Text
unfolding unit_loop
human_bytes format_float b =
    if ltb b 1024 then some (itoa b ++ codes " B") else in_units format_float b (unit_of b)

-- The divisor is at most the count and more than a 1024th of it, and the unit has a letter.
abbrev pub Fits : ℕ → Option (ℕ × ℕ) → Type 0
Fits b none = ⊥
Fits b (some (div, exp)) = (div ≤ b) × (b < div * 1024) × (exp < 6)

-- The loop ends after at most six tests for every int64 from 1024 on, and what it ends with fits.
pub unit_of-Fits : (b : ℕ) → 1024 ≤ b → b < 2 ^ 63 → Fits b (unit_of b)
unfolding unit_loop
unit_of-Fits b l u = ground arith

-- the hours and the minutes of a number of minutes
abbrev hours_and_minutes : ℕ → Text
hours_and_minutes m = itoa (m / 60 % 24) ++ (codes "h " ++ (itoa (m % 60) ++ codes "m"))

-- `d.Round(time.Minute)` in whole minutes, for nanoseconds
abbrev minute : ℕ
minute = 60000000000

abbrev rounded : ℕ → ℕ
rounded d = if ltb (2 * (d % minute)) minute then d / minute else d / minute + 1

-- formatUptime, for a duration that is not negative
unfoldable pub format_uptime : ℕ → Text
format_uptime d =
    if d == 0
    then codes "-"
    else (let m = rounded d in
        if ltb 0 (m / 1440)
        then itoa (m / 1440) ++ (codes "d " ++ hours_and_minutes m)
        else hours_and_minutes m)
