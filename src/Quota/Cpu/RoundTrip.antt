-- ===== src/Quota/Cpu/RoundTrip.antt =====
-- ParseCPU on what FormatCPU and Itoa print (src/internal/mgr/cpu.go).
use lxc_hosting.Base.{
  ◌↔◌, ◌⊎◌, ℕ, ◌*◌, ◌/◌, ◌%◌, ◌+◌, ◌≤◌, ◌<◌, true, [], ◌∷◌, ◌++◌, ◌==◌, Text, codes, ◌≡◌, ◌≢◌, refl,
  arith, ap, ◌∙◌, Bool-cases, inl, inr,
}
use lxc_hosting.Std.Int64.{int_lt, wrap, min_negative, max_int, modulus}
use lxc_hosting.Std.Strconv.{
  atoi-digits, itoa, itoa-ne-nil, itoa-digits, value-itoa, all_digits, value,
}
use lxc_hosting.Std.Strings.{Clean, trim_space-Clean, is_space}
use lxc_hosting.Quota.Cpu.{
  ok, parse_cpu, parse_trimmed, validate_cpu, format_cpu, cpu_int_re, cpu_frac_re,
}

parse_trimmed-digits :
    (s : Text)
    → s ≢ []
    → all_digits s ≡ true
    → 0 < value 0 s
    → value 0 s ≤ max_int
    → parse_trimmed s ≡ ok (wrap (value 0 s * 10))
parse_trimmed-digits [] n d p h = absurd (n refl)
parse_trimmed-digits (c ∷ s) n d p h =
    unfold cpu_int_re int_lt in rw (d, atoi-digits (c ∷ s) n d h) (ground arith)

digits-Clean : (s : Text) → all_digits s ≡ true → Clean s
unfolding all_digits is_space
digits-Clean [] h = tt
digits-Clean (c ∷ s) h = (ground arith, digits-Clean s (ground arith))

-- A number of whole cores is read as ten times as many tenths.
parse_cpu-itoa : (n : ℕ) → 0 < n → n ≤ max_int → parse_cpu (itoa n) ≡ ok (wrap (n * 10))
parse_cpu-itoa n p h =
    unfold parse_cpu in
    rw (trim_space-Clean (itoa n) (digits-Clean (itoa n) (itoa-digits n))) (
      parse_trimmed-digits (itoa n) (itoa-ne-nil n) (itoa-digits n) (omega (arith, value-itoa n))
        (omega (arith, value-itoa n))
      ∙ ap (λ v. ok (wrap (v * 10))) (value-itoa n))

parse_cpu-fraction : (t : ℕ) → 0 < t → t < 10 → parse_cpu (codes "0." ++ (b'0' + t) ∷ []) ≡ ok t
parse_cpu-fraction t p h =
    unfold parse_cpu in
    rw (trim_space-Clean (b'0' ∷ b'.' ∷ (b'0' + t) ∷ []) (unfold is_space in ground arith))
      (unfold cpu_int_re cpu_frac_re all_digits in ground arith)

itoa-digit : (t : ℕ) → t < 10 → itoa t ≡ (b'0' + t) ∷ []
unfolding itoa
itoa-digit t h = ground arith

-- The display form of a valid quota parses back to the quota.
pub parse_cpu-format_cpu :
    (t : ℕ) → t < min_negative → validate_cpu t ≡ ok tt → parse_cpu (format_cpu t) ≡ ok t
unfolding format_cpu validate_cpu int_lt
parse_cpu-format_cpu t h v = elim (Bool-cases (t % 10 == 0)) [
  | inl e ↦
      rw e (parse_cpu-itoa (t / 10) (ground arith) (omega arith) ∙ ap (λ x. ok x) (ground arith))
  | inr e ↦ rw (e, itoa-digit t (ground arith)) (parse_cpu-fraction t (ground arith) (ground arith))
]

-- A whole number of cores whose tenths fit in 63 bits is read exactly, and the result is valid.
pub parse_cpu-whole :
    (n : ℕ)
    → 0 < n
    → n * 10 < min_negative
    → (parse_cpu (itoa n) ≡ ok (n * 10)) × (validate_cpu (n * 10) ≡ ok tt)
unfolding validate_cpu int_lt
parse_cpu-whole n p h =
    (parse_cpu-itoa n p (omega arith) ∙ ap (λ x. ok x) (omega arith), ground arith)

-- A number of cores of at most 2 ^ 63 - 1 whose tenths do not fit in 64 bits is parsed without an
-- error, as its tenths mod 2 ^ 64, which is a smaller number; ValidateCPU accepts it exactly if that
-- number, as an int64, is 1 to 9 or a positive multiple of ten.
pub parse_cpu-wraps :
    (n : ℕ)
    → modulus ≤ n * 10
    → n ≤ max_int
    → let t = n * 10 % modulus in
      (parse_cpu (itoa n) ≡ ok t)
      × (t < n * 10)
      × ((validate_cpu t ≡ ok tt) ↔ ((1 ≤ t) × (t < min_negative) × ((t < 10) ⊎ (t % 10 ≡ 0))))
unfolding validate_cpu int_lt
parse_cpu-wraps n p h =
    (parse_cpu-itoa n (omega arith) h, omega arith, (ground arith, ground arith))
