-- ===== src/Quota/Sizes.antt =====
-- Memory and disk sizes as they are typed: parseMem of the admin panel
-- (src/internal/admin/handlers.go), parseMemStrict and parseDiskStrict of the command line
-- (src/main.go).
pub mod Limits
use mathlib.Core.List.{reverse}
use lxc_hosting.Base.{
  ℕ, ◌*◌, Bool, true, false, not, ◌&&◌, ◌||◌, List, [], ◌∷◌, ◌==◌, if◌then◌else◌, Text, Option,
  none, some,
}
use lxc_hosting.Std.Int64.{int_lt, wrap}
use lxc_hosting.Std.Strconv.{is_digit, all_digits, Atoi, atoi}
use lxc_hosting.Std.Strings.{trim_space}

abbrev pub at_least : ℕ → ℕ → Option ℕ
at_least low n = if int_lt n low then none else some n

-- The digits and the multiplier of a memory size, from its reversed text.
pub record Scaled : Type 0 where
  pub digits : Text
  pub mult : ℕ

unfoldable pub mem_unit : Text → Option Scaled
mem_unit [] = none
mem_unit (last ∷ front) =
    if is_digit last
    then some (record { digits = reverse (last ∷ front); mult = 1 })
    else if last == b'M' || last == b'm'
    then some (record { digits = reverse front; mult = 1 })
    else if last == b'G' || last == b'g'
    then some (record { digits = reverse front; mult = 1024 })
    else none

abbrev pub mem_number : Option Scaled → Option ℕ
mem_number none = none
mem_number (some t) =
    let r = atoi t.digits in if r.failed then none else at_least 64 (wrap (r.number * t.mult))

-- parseMem; `none` is an error.
unfoldable pub parse_mem : Text → Option ℕ
unfolding mem_unit
parse_mem s = mem_number (mem_unit (reverse (trim_space s)))

-- `^[0-9]+$`
abbrev pub re_int : Text → Bool
re_int [] = false
re_int (c ∷ s) = all_digits (c ∷ s)

-- The error of Atoi is ignored.
abbrev pub mem_strict_number : Option Scaled → Option ℕ
mem_strict_number none = none
mem_strict_number (some t) =
    if not (re_int t.digits) then none else at_least 64 (wrap ((atoi t.digits).number * t.mult))

-- parseMemStrict
unfoldable pub parse_mem_strict : Text → Option ℕ
unfolding mem_unit
parse_mem_strict s = mem_strict_number (mem_unit (reverse (trim_space s)))

abbrev pub disk_digits : Text → Text
disk_digits [] = []
disk_digits (last ∷ front) =
    if last == b'G' || last == b'g' then reverse front else reverse (last ∷ front)

abbrev pub disk_number : Text → Option ℕ
disk_number digits = if not (re_int digits) then none else at_least 1 (atoi digits).number

-- parseDiskStrict
unfoldable pub parse_disk_strict : Text → Option ℕ
parse_disk_strict s = disk_number (disk_digits (reverse (trim_space s)))
