-- ===== src/Names.antt =====
-- User names and domain names: what is accepted, and what it is turned into
-- (src/internal/mgr/mgr.go: ValidateName, normalizeDomain; src/internal/tfx/tfx.go: sanitizeDomain).
pub mod Accepted
pub mod Domains
mod Tests
use lxc_hosting.Base.{
  ℕ, ◌+◌, Bool, true, false, ◌&&◌, ◌||◌, List, [], ◌∷◌, ltb, leb, ◌==◌, if◌then◌else◌, Text, codes,
  Option, none, some, map,
}
use mathlib.Core.List.{reverse}
use lxc_hosting.Std.Strings.{trim_space, byte_length}

abbrev pub is_lower : ℕ → Bool
is_lower c = leb b'a' c && leb c b'z'

abbrev pub is_alnum : ℕ → Bool
is_alnum c = is_lower c || (leb b'0' c && leb c b'9')

-- `[a-z0-9-]`
abbrev pub is_name_char : ℕ → Bool
is_name_char c = is_alnum c || c == b'-'

-- `([a-z0-9-]*[a-z0-9])?$`, behind the first letter
unfoldable pub name_tail : Text → Bool
name_tail [] = true
name_tail (c ∷ []) = is_alnum c
name_tail (c ∷ d ∷ s) = is_name_char c && name_tail (d ∷ s)

-- `^[a-z]([a-z0-9-]*[a-z0-9])?$`
unfoldable pub name_re : Text → Bool
unfolding name_tail
name_re [] = false
name_re (c ∷ s) = is_lower c && name_tail s

-- `true` is the answer nil, `false` the error "invalid name".
unfoldable pub validate_name : Text → Bool
unfolding name_re byte_length
validate_name name = if ltb 63 (byte_length name) then false else name_re name

-- strings.ToLower: ASCII here; what it does to other characters is a parameter.
abbrev pub to_lower : (ℕ → ℕ) → Text → Text
to_lower lower_other =
    map λ c. if leb b'A' c && leb c b'Z' then c + 32 else if ltb c 0x80 then c else lower_other c

-- `strings.TrimSuffix(d, ".")`, on the reversed text
abbrev pub drop_dot : Text → Text
drop_dot [] = []
drop_dot (c ∷ s) = if c == b'.' then s else c ∷ s

abbrev pub trim_dot : Text → Text
trim_dot d = reverse (drop_dot (reverse d))

-- `[a-z0-9.-]*`
unfoldable pub domain_tail : Text → Bool
domain_tail [] = true
domain_tail (c ∷ s) = (is_name_char c || c == b'.') && domain_tail s

-- `^[a-z0-9][a-z0-9.-]*$`
unfoldable pub domain_re : Text → Bool
unfolding domain_tail
domain_re [] = false
domain_re (c ∷ s) = is_alnum c && domain_tail s

unfoldable pub ends_with_letter : Text → Bool
ends_with_letter [] = false
ends_with_letter (c ∷ []) = is_lower c
ends_with_letter (c ∷ d ∷ s) = ends_with_letter (d ∷ s)

pub data DomainError : Type 0 where
  domain_empty domain_too_long bad_characters bad_last : DomainError

pub data DomainResult : Type 0 where
  ok : Text → DomainResult
  err : DomainError → DomainResult

unfoldable pub check_domain : Text → DomainResult
unfolding domain_re ends_with_letter byte_length
check_domain [] = err domain_empty
check_domain (c ∷ s) =
    if ltb 253 (byte_length (c ∷ s))
    then err domain_too_long
    else if domain_re (c ∷ s)
    then (if ends_with_letter (c ∷ s) then ok (c ∷ s) else err bad_last)
    else err bad_characters

unfoldable pub normalize_domain : (ℕ → ℕ) → Text → DomainResult
unfolding check_domain trim_space
normalize_domain lower_other d = check_domain (trim_dot (trim_space (to_lower lower_other d)))

-- The name of a domain's routers and services in the traefik file.
unfoldable pub sanitize_domain : Text → Text
sanitize_domain [] = []
sanitize_domain (r ∷ d) = (if r == b'.' then b'_' else r) ∷ sanitize_domain d
