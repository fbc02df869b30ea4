-- ===== src/Names/Domains.antt =====
-- The form of normalized domains and of their traefik names (mgr.go, src/internal/tfx/tfx.go).
use mathlib.Core.List.{reverse, reverse-cons, reverse-append, reverse-reverse}
use lxc_hosting.Base.{
  ℕ, ◌≤◌, true, [], ◌∷◌, ◌++◌, ◌==◌, if◌then◌else◌, Text, ◌≡◌, ◌⊎◌, ◌↔◌, arith, refl, ap, ap₂, sym,
  ◌∙◌, All, length,
}
use lxc_hosting.Std.Strings.{byte_length, trim_space, trim_space-Clean, Clean, is_space}
use lxc_hosting.Names.{
  domain_tail, domain_re, ends_with_letter, check_domain, ok, to_lower, drop_dot, trim_dot,
  normalize_domain, sanitize_domain,
}
use lxc_hosting.Names.Accepted.{IsLower, IsNameChar, last}

abbrev pub IsDomainChar : ℕ → Type 0
IsDomainChar c = IsNameChar c ⊎ (c ≡ b'.')

-- a letter or a digit first
abbrev pub StartsAlnum : Text → Type 0
StartsAlnum [] = ⊥
StartsAlnum (c ∷ s) = IsLower c ⊎ ((b'0' ≤ c) × (c ≤ b'9'))

-- Letters, digits, hyphens and dots only; at most 253 of them; a letter or a digit first, a letter
-- last.
pub record IsDomain (d : Text) : Type 0 where
  pub chars : All IsDomainChar d
  pub fits : length d ≤ 253
  pub alnum_first : StartsAlnum d
  pub letter_last : IsLower (last 0 d)

tail_chars : (s : Text) → domain_tail s ≡ true → All IsDomainChar s × (byte_length s ≡ length s)
unfolding domain_tail byte_length
tail_chars [] h = (tt, refl)
tail_chars (c ∷ s) h =
    let r = tail_chars s (ground arith) in ((ground arith, r.0), ground (arith, r.1))

letter_last : (d : ℕ) (s : Text) → ends_with_letter s ≡ true → IsLower (last d s)
unfolding ends_with_letter
letter_last d [] h = absurd (cc)
letter_last d (c ∷ []) h = ground arith
letter_last d (c ∷ e ∷ s) h = letter_last c (e ∷ s) h

check_domain_eq : (d e : Text) → check_domain d ≡ ok e → e ≡ d
unfolding check_domain
check_domain_eq [] e h = cc
check_domain_eq (c ∷ s) e h = ground arith

check_domain-IsDomain : (d : Text) → check_domain d ≡ ok d → IsDomain d
unfolding check_domain domain_re byte_length
check_domain-IsDomain [] h = cc
check_domain-IsDomain (c ∷ s) h =
    let r = tail_chars s (ground arith) in
    record {
      chars = (ground arith, r.0);
      fits = ground (arith, r.1);
      alnum_first = ground arith;
      letter_last = letter_last 0 (c ∷ s) (ground arith);
    }

chars_tail : (s : Text) → All IsDomainChar s → (domain_tail s ≡ true) × (byte_length s ≡ length s)
unfolding domain_tail byte_length
chars_tail [] h = (refl, refl)
chars_tail (c ∷ s) h = let r = chars_tail s h.1 in (ground (arith, r.0), ground (arith, r.1))

last_letter : (d c : ℕ) (s : Text) → IsLower (last d (c ∷ s)) → ends_with_letter (c ∷ s) ≡ true
unfolding ends_with_letter
last_letter d c [] h = ground arith
last_letter d c (e ∷ s) h = last_letter c e s h

IsDomain-check_domain : (d : Text) → IsDomain d → check_domain d ≡ ok d
unfolding check_domain domain_re byte_length
IsDomain-check_domain [] h = absurd (h.alnum_first)
IsDomain-check_domain (c ∷ s) h =
    let r = chars_tail s h.chars.1 in
    let l = last_letter 0 c s h.letter_last in
    let first = h.alnum_first in
    let fits = h.fits in let char = h.chars.0 in ground (arith, r.0, r.1, l, first, fits, char)

normalize_domain-IsDomain :
    (lower_other : ℕ → ℕ) (d e : Text) → normalize_domain lower_other d ≡ ok e → IsDomain e
unfolding normalize_domain
normalize_domain-IsDomain lower_other d e h =
    let p = check_domain_eq (trim_dot (trim_space (to_lower lower_other d))) e h in
    check_domain-IsDomain e (rw (← p) at h)

-- A domain is normalized to `e` without an error exactly if `e` is the domain in lower case without
-- the spaces around it and without one dot behind it, consists of lower case letters, digits, hyphens
-- and dots, at most 253 of them, starts with a letter or a digit, and ends with a letter.
pub normalize_domain_iff :
    (lower_other : ℕ → ℕ) (d e : Text)
    → (normalize_domain lower_other d ≡ ok e)
      ↔ ((e ≡ trim_dot (trim_space (to_lower lower_other d))) × IsDomain e)
unfolding normalize_domain
normalize_domain_iff lower_other d e = (
  (λ h. (
    check_domain_eq (trim_dot (trim_space (to_lower lower_other d))) e h,
    normalize_domain-IsDomain lower_other d e h,
  )),
  (λ h. ap check_domain (sym h.0) ∙ IsDomain-check_domain e h.1),
)

to_lower_id : (lower_other : ℕ → ℕ) (d : Text) → All IsDomainChar d → to_lower lower_other d ≡ d
to_lower_id lower_other [] h = refl
to_lower_id lower_other (c ∷ d) h = ap₂ ◌∷◌ (ground arith) (to_lower_id lower_other d h.1)

chars-Clean : (d : Text) → All IsDomainChar d → Clean d
unfolding is_space
chars-Clean [] h = tt
chars-Clean (c ∷ d) h = (ground arith, chars-Clean d h.1)

split_last : (c : ℕ) (s : Text) → (init : Text) × (c ∷ s ≡ init ++ last c s ∷ [])
split_last c [] = ([], refl)
split_last c (d ∷ s) = let r = split_last d s in (c ∷ r.0, ap (λ l. c ∷ l) r.1)

keep_letter : (l : ℕ) (s : Text) → IsLower l → drop_dot (l ∷ s) ≡ l ∷ s
keep_letter l s h = ground arith

trim_dot-snoc : (init : Text) (l : ℕ) → IsLower l → trim_dot (init ++ l ∷ []) ≡ init ++ l ∷ []
trim_dot-snoc init l h = rw (reverse-append init (l ∷ [])) (
    ap reverse (keep_letter l (reverse init) h)
    ∙ reverse-cons l (reverse init)
    ∙ ap (λ t. t ++ l ∷ []) (reverse-reverse init))

trim_dot_id : (d : Text) → IsLower (last 0 d) → trim_dot d ≡ d
trim_dot_id [] h = absurd (omega arith)
trim_dot_id (c ∷ s) h =
    let (init, e) = split_last c s in ap trim_dot e ∙ trim_dot-snoc init (last c s) h ∙ sym e

-- Normalizing a normalized domain changes nothing.
pub normalize_domain_idem :
    (lower_other : ℕ → ℕ) (d e : Text)
    → normalize_domain lower_other d ≡ ok e
    → normalize_domain lower_other e ≡ ok e
unfolding normalize_domain
normalize_domain_idem lower_other d e h =
    let f = normalize_domain-IsDomain lower_other d e h in
    let p = check_domain_eq (trim_dot (trim_space (to_lower lower_other d))) e h in
    rw
      (
        to_lower_id lower_other e f.chars,
        trim_space-Clean e (chars-Clean e f.chars),
        trim_dot_id e f.letter_last,
      )
      (rw (← p) at h)

sanitize_chars :
    (a b : ℕ)
    → IsDomainChar a
    → IsDomainChar b
    → (if a == b'.' then b'_' else a) ≡ (if b == b'.' then b'_' else b)
    → a ≡ b
sanitize_chars a b ha hb h = ground arith

-- Different domains have different traefik names.
pub sanitize_domain_inj :
    (d e : Text)
    → All IsDomainChar d
    → All IsDomainChar e
    → sanitize_domain d ≡ sanitize_domain e
    → d ≡ e
unfolding sanitize_domain
sanitize_domain_inj [] [] hd he h = refl
sanitize_domain_inj [] (b ∷ e) hd he h = cc
sanitize_domain_inj (a ∷ d) [] hd he h = cc
sanitize_domain_inj (a ∷ d) (b ∷ e) hd he h =
    ap₂ ◌∷◌ (sanitize_chars a b hd.0 he.0 (cc)) (sanitize_domain_inj d e hd.1 he.1 (cc))
