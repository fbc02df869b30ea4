-- ===== src/Config/Paths.antt =====
-- What the checks of the panel paths promise.
use lxc_hosting.Base.{◌≡◌, ◌≤◌, ◌⊎◌, ◌↔◌, refl, false, [], ◌∷◌, Text, text_eq_iff, arith}
use lxc_hosting.Std.Strings.{byte_length}
use lxc_hosting.Config.{Panel, ok, is_set, validate_paths}

-- each path is absent or has at least 10 bytes, and two that are there differ
abbrev pub IsSafe : Panel → Type 0
IsSafe p =
    ((p.url_path ≡ []) ⊎ (10 ≤ byte_length p.url_path))
    × ((p.admin_path ≡ []) ⊎ (10 ≤ byte_length p.admin_path))
    × (p.url_path ≡ p.admin_path → p.url_path ≡ [])

is_set_iff : (t : Text) → (is_set t ≡ false) ↔ (t ≡ [])
is_set_iff [] = (λ e. refl, λ e. refl)
is_set_iff (c ∷ t) = (λ e. absurd (cc e), λ e. absurd (cc e))

-- Paths are accepted exactly if each of them is empty or has at least ten bytes, and they are not
-- the same path unless both are empty.
pub validate_paths-IsSafe : (p : Panel) → (validate_paths p ≡ ok) ↔ IsSafe p
unfolding validate_paths
validate_paths-IsSafe p =
    let u = is_set_iff p.url_path in
    let a = is_set_iff p.admin_path in
    let e = text_eq_iff p.url_path p.admin_path in
    (
      λ q. ground (arith, u.0, u.1, a.0, a.1, e.0, e.1, q),
      λ q. ground (arith, u.0, u.1, a.0, a.1, e.0, e.1, q),
    )
