-- ===== src/Std/Strconv.antt =====
-- strconv.Itoa on non-negative numbers and strconv.Atoi, with Atoi's clamping on overflow.
use lxc_hosting.Base.{
  ℕ, zero, suc, ◌+◌, ◌-◌, ◌*◌, ◌/◌, ◌%◌, ◌<◌, ◌≤◌, ◌≡◌, ◌≢◌, refl, Bool, true, false, ◌&&◌, [], ◌∷◌,
  arith, ltb, leb, ◌==◌, if◌then◌else◌, Text,
}
use lxc_hosting.Std.Int64.{max_int, min_negative, modulus}

abbrev pub is_digit : ℕ → Bool
is_digit c = leb b'0' c && leb c b'9'

abbrev pub IsDigit : ℕ → Type 0
IsDigit c = (b'0' ≤ c) × (c ≤ b'9')

-- the number that digits spell behind `n`
unfoldable pub value : ℕ → Text → ℕ
value n [] = n
value n (c ∷ s) = value (n * 10 + (c - b'0')) s

unfoldable pub all_digits : Text → Bool
all_digits [] = true
all_digits (c ∷ s) = is_digit c && all_digits s

-- The fuel bounds the number of digits.
unfoldable pub emit : ℕ → ℕ → Text → Text
emit zero n out = out
emit (suc f) n out =
    let rest = emit f (n / 10) ((b'0' + n % 10) ∷ out) in
    if ltb n 10 then (b'0' + n % 10) ∷ out else rest

unfoldable pub itoa : ℕ → Text
unfolding emit
itoa n = emit (suc n) n []

-- Atoi of an unsigned run of digits: on overflow the largest int and an error.
pub record Atoi : Type 0 where
  pub number : ℕ
  pub failed : Bool

-- without a sign, `limit` is the largest absolute value
abbrev atoi_abs : ℕ → Text → Atoi
atoi_abs limit [] = record { number = 0; failed = true }
atoi_abs limit (c ∷ s) =
    if all_digits (c ∷ s)
    then (if leb (value 0 (c ∷ s)) limit
        then record { number = value 0 (c ∷ s); failed = false }
        else record { number = limit; failed = true })
    else record { number = 0; failed = true }

abbrev negate : Atoi → Atoi
negate r = record r { number = (modulus - r.number) % modulus }

unfoldable pub atoi : Text → Atoi
unfolding all_digits value
atoi [] = record { number = 0; failed = true }
atoi (c ∷ s) =
    if c == b'+'
    then atoi_abs max_int s
    else if c == b'-'
    then negate (atoi_abs min_negative s)
    else atoi_abs max_int (c ∷ s)

emit_value : (f n : ℕ) (out : Text) → n < f → value 0 (emit f n out) ≡ value n out
unfolding emit value
emit_value zero n out h = elim h [ ]
emit_value (suc f) n out h = ground (arith, emit_value f (n / 10) ((b'0' + n % 10) ∷ out))

emit_digits : (f n : ℕ) (out : Text) → all_digits out ≡ true → all_digits (emit f n out) ≡ true
unfolding emit all_digits
emit_digits zero n out h = h
emit_digits (suc f) n out h = ground (arith, emit_digits f (n / 10) ((b'0' + n % 10) ∷ out))

emit_ne : (f n : ℕ) (out : Text) → out ≢ [] → emit f n out ≢ []
unfolding emit
emit_ne zero n out h = h
emit_ne (suc f) n out h = ground (arith, emit_ne f (n / 10) ((b'0' + n % 10) ∷ out))

-- The text of a number spells it in digits only.
pub value-itoa : (n : ℕ) → value 0 (itoa n) ≡ n
unfolding itoa value
value-itoa n = emit_value (suc n) n [] (omega arith)

pub itoa-digits : (n : ℕ) → all_digits (itoa n) ≡ true
unfolding itoa all_digits
itoa-digits n = emit_digits (suc n) n [] refl

pub itoa-ne-nil : (n : ℕ) → itoa n ≢ []
unfolding itoa
itoa-ne-nil n = ground (arith, emit_ne n (n / 10) ((b'0' + n % 10) ∷ []))

-- Digits in range are read as the number that they spell, without an error.
pub atoi-digits :
    (s : Text)
    → s ≢ []
    → all_digits s ≡ true
    → value 0 s ≤ max_int
    → atoi s ≡ record { number = value 0 s; failed = false }
unfolding atoi all_digits value
atoi-digits [] n h k = absurd (n refl)
atoi-digits (c ∷ s) n h k = ground arith

pub le-value : (n : ℕ) (s : Text) → n ≤ value n s
unfolding value
le-value n [] = omega arith
le-value n (c ∷ s) = omega (arith, le-value (n * 10 + (c - b'0')) s)
