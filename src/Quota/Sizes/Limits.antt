-- ===== src/Quota/Sizes/Limits.antt =====
-- Memory sizes of the admin panel and of the command line, where they are digits with a unit
-- (src/internal/admin/handlers.go, parseMem; src/main.go, parseMemStrict).
use mathlib.Core.List.{reverse}
use lxc_hosting.Base.{
  ◌≡◌, ◌*◌, refl, true, false, [], ◌∷◌, leb, if◌then◌else◌, Text, none, some, Bool-cases, inl, inr,
  arith,
}
use lxc_hosting.Std.Int64.{max_int, wrap}
use lxc_hosting.Std.Strconv.{all_digits, value, atoi}
use lxc_hosting.Std.Strings.{trim_space}
use lxc_hosting.Quota.Sizes.{Scaled, at_least, mem_unit, re_int, parse_mem, parse_mem_strict}

-- digits are read as their value, or as the largest int with an error
atoi-re_int :
    (s : Text)
    → re_int s ≡ true
    → atoi s ≡ (
        if leb (value 0 s) max_int
        then record { number = value 0 s; failed = false }
        else record { number = max_int; failed = true })
unfolding atoi all_digits
atoi-re_int [] h = absurd (cc h)
atoi-re_int (c ∷ s) h = ground arith

-- On digits with a unit the command line accepts what the admin panel accepts, and, where the digits
-- spell more than 2 ^ 63 - 1, it goes on with 2 ^ 63 - 1, which the admin panel refuses.
pub parse_mem-strict :
    (s : Text) (t : Scaled)
    → mem_unit (reverse (trim_space s)) ≡ some t
    → re_int t.digits ≡ true
    → (parse_mem s ≡ (if leb (value 0 t.digits) max_int then parse_mem_strict s else none))
      × (parse_mem_strict s
          ≡ at_least 64 (
              wrap
                ((if leb (value 0 t.digits) max_int then value 0 t.digits else max_int) * t.mult)))
unfolding parse_mem parse_mem_strict
parse_mem-strict s t u h = elim (Bool-cases (leb (value 0 t.digits) max_int)) [
  | inl e ↦ rw (u, h, atoi-re_int t.digits h, e) (refl, refl)
  | inr e ↦ rw (u, h, atoi-re_int t.digits h, e) (refl, refl)
]
