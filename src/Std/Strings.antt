-- ===== src/Std/Strings.antt =====
-- strings.TrimSpace, strings.ToLower and the byte length of a string of code points.
use lxc_hosting.Base.{
  ℕ, ◌+◌, ◌≡◌, refl, Bool, false, ◌&&◌, ◌||◌, [], ◌∷◌, ltb, leb, ◌==◌, if◌then◌else◌, Text, All,
  All-append, false, All,
}
use mathlib.Core.List.{reverse, reverse-cons, reverse-reverse}

-- unicode.IsSpace
unfoldable pub is_space : ℕ → Bool
is_space c =
    (leb 9 c && leb c 13)
    || c == 32
    || c == 0x85
    || c == 0xa0
    || c == 0x1680
    || (leb 0x2000 c && leb c 0x200a)
    || c == 0x2028
    || c == 0x2029
    || c == 0x202f
    || c == 0x205f
    || c == 0x3000

unfoldable pub trim_left : Text → Text
unfolding is_space
trim_left [] = []
trim_left (c ∷ s) = if is_space c then trim_left s else c ∷ s

unfoldable pub trim_space : Text → Text
unfolding trim_left
trim_space s = reverse (trim_left (reverse (trim_left s)))

abbrev pub byte_width : ℕ → ℕ
byte_width c = if ltb c 0x80 then 1 else if ltb c 0x800 then 2 else if ltb c 0x10000 then 3 else 4

-- the length in bytes of the UTF-8 encoding, as `len` counts it
unfoldable pub byte_length : Text → ℕ
byte_length [] = 0
byte_length (c ∷ s) = byte_width c + byte_length s

-- no character of the text is white space
abbrev pub Clean : Text → Type 0
Clean = All (λ c. is_space c ≡ false)

trim_left-Clean : (s : Text) → Clean s → trim_left s ≡ s
unfolding trim_left
trim_left-Clean [] h = refl
trim_left-Clean (c ∷ s) h = rw h.0

reverse-Clean : (s : Text) → Clean s → Clean (reverse s)
reverse-Clean [] h = tt
reverse-Clean (c ∷ s) h =
    rw (reverse-cons c s)
      (All-append (λ x. is_space x ≡ false) (reverse s) (c ∷ []) (reverse-Clean s h.1) (h.0, tt))

-- Trimming leaves a text without white space as it is.
pub trim_space-Clean : (s : Text) → Clean s → trim_space s ≡ s
unfolding trim_space
trim_space-Clean s h =
    rw (trim_left-Clean s h, trim_left-Clean (reverse s) (reverse-Clean s h), reverse-reverse s)
