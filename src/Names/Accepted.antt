-- ===== src/Names/Accepted.antt =====
-- The user names that are accepted, in words of their characters.
use lxc_hosting.Base.{
  ℕ, ◌+◌, ◌≤◌, true, [], ◌∷◌, Text, ◌≡◌, ◌≢◌, ◌↔◌, ◌⊎◌, arith, refl, ap₂, ◌∙◌, All, length,
}
use lxc_hosting.Std.Strings.{byte_width, byte_length}
use lxc_hosting.Names.{is_name_char, name_tail, name_re, validate_name}

abbrev pub IsLower : ℕ → Type 0
IsLower c = (b'a' ≤ c) × (c ≤ b'z')

abbrev pub IsNameChar : ℕ → Type 0
IsNameChar c = IsLower c ⊎ ((b'0' ≤ c) × (c ≤ b'9')) ⊎ (c ≡ b'-')

-- the last character, or the given one of the empty text
abbrev pub last : ℕ → Text → ℕ
last d [] = d
last d (c ∷ s) = last c s

-- A name as LXD wants it: a letter first, then letters, digits and hyphens, no hyphen last, and at
-- most 63 characters.
abbrev pub IsName : Text → Type 0
IsName [] = ⊥
IsName (c ∷ s) = IsLower c × All IsNameChar s × (last c s ≢ b'-') × (length (c ∷ s) ≤ 63)

byte_of : (c : ℕ) → is_name_char c ≡ true → byte_width c ≡ 1
byte_of c h = ground arith

tail_sound :
    (d : ℕ) (s : Text)
    → d ≢ b'-'
    → name_tail s ≡ true
    → All IsNameChar s × (last d s ≢ b'-') × (byte_length s ≡ length s)
unfolding name_tail byte_length
tail_sound d [] n h = (tt, n, refl)
tail_sound d (c ∷ []) n h = ground arith
tail_sound d (c ∷ e ∷ s) n h =
    let r = tail_sound d (e ∷ s) n (ground arith) in
    ((ground arith, r.0), r.1, ap₂ (◌+◌) (byte_of c (ground arith)) r.2 ∙ ground arith)

tail_complete : (d : ℕ) (s : Text) → All IsNameChar s → last d s ≢ b'-' → name_tail s ≡ true
unfolding name_tail
tail_complete d [] h n = refl
tail_complete d (c ∷ []) h n = ground arith
tail_complete d (c ∷ e ∷ s) h n = ground (arith, tail_complete c (e ∷ s) h.1 n)

name_re_sound : (name : Text) → name_re name ≡ true → byte_length name ≤ 63 → IsName name
unfolding name_re byte_length
name_re_sound [] h k = cc
name_re_sound (c ∷ s) h k =
    let r = tail_sound c s (ground arith) (ground arith) in
    (ground arith, r.0, r.1, ground (arith, r.2))

name_re_complete : (name : Text) → IsName name → (name_re name ≡ true) × (byte_length name ≤ 63)
unfolding name_re byte_length
name_re_complete [] h = absurd h
name_re_complete (c ∷ s) h =
    let t = tail_complete c s h.1 h.2 in
    (ground (arith, t), ground (arith, tail_sound c s (ground arith) t))

-- A user name is accepted exactly if it is a letter followed by letters, digits and hyphens, does
-- not end in a hyphen, and has at most 63 characters, all of them in lower case.
pub validate_name_iff : (name : Text) → (validate_name name ≡ true) ↔ IsName name
unfolding validate_name
validate_name_iff name = (
  (λ h. name_re_sound name (ground arith) (ground arith)),
  (λ h. ground (arith, name_re_complete name h)),
)
