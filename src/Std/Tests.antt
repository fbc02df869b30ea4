-- ===== src/Std/Tests.antt =====
-- Tests of the standard library's functions as they are modelled.
use lxc_hosting.Base.{◌≡◌, refl, true, false, ◌-◌, codes}
use lxc_hosting.Std.Int64.{modulus}
use lxc_hosting.Std.Strconv.{atoi, itoa}
use lxc_hosting.Std.Strings.{trim_space}

atoi_tests :
    (atoi (codes "2000") ≡ record { number = 2000; failed = false })
    × ((atoi (codes "12x")).failed ≡ true)
    × ((atoi (codes "-1")).number ≡ modulus - 1)
    × (itoa 8443 ≡ codes "8443")
unfolding atoi itoa
atoi_tests = (refl, refl, refl, refl)

trim_test : trim_space (codes "  a b ") ≡ codes "a b"
unfolding trim_space
trim_test = refl
