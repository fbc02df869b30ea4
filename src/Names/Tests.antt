-- ===== src/Names/Tests.antt =====
-- User names and domains.
use lxc_hosting.Base.{ℕ, ◌≡◌, ◌↔◌, refl, true, codes, arith}
use lxc_hosting.Std.Strings.{trim_space}
use lxc_hosting.Names.{validate_name, normalize_domain, sanitize_domain, ok, to_lower, trim_dot}
use lxc_hosting.Names.Accepted.{IsName, validate_name_iff}
use lxc_hosting.Names.Domains.{IsDomain, normalize_domain_iff, sanitize_domain_inj}

validate_name_iff_example : (validate_name (codes "alice-2") ≡ true) ↔ IsName (codes "alice-2")
validate_name_iff_example = validate_name_iff (codes "alice-2")

abbrev same : ℕ → ℕ
same c = c

normalize_domain_iff_example :
    (normalize_domain same (codes " WWW.Example.com. ") ≡ ok (codes "www.example.com")) ↔ (
      (codes "www.example.com" ≡ trim_dot (trim_space (to_lower same (codes " WWW.Example.com. "))))
      × IsDomain (codes "www.example.com"))
normalize_domain_iff_example =
    normalize_domain_iff same (codes " WWW.Example.com. ") (codes "www.example.com")

sanitize_domain_inj_example : codes "a.b" ≡ codes "a.b"
unfolding sanitize_domain
sanitize_domain_inj_example =
    sanitize_domain_inj (codes "a.b") (codes "a.b") (ground arith) (ground arith) refl
