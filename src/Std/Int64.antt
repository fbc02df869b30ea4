-- ===== src/Std/Int64.antt =====
-- Go's int and int64 as bit patterns: a number below 2 ^ 64, negative from 2 ^ 63 on.
use lxc_hosting.Base.{ℕ, ◌+◌, ◌-◌, ◌%◌, ◌^◌, ◌<◌, ◌≡◌, Bool, true, false, arith, ltb}

abbrev pub modulus : ℕ
modulus = 2 ^ 64

abbrev pub min_negative : ℕ
min_negative = 2 ^ 63

abbrev pub max_int : ℕ
max_int = 2 ^ 63 - 1

abbrev pub wrap : ℕ → ℕ
wrap n = n % modulus

-- a signed `<`, by shifting both sides up by 2 ^ 63
unfoldable pub int_lt : ℕ → ℕ → Bool
int_lt a b = ltb ((a + min_negative) % modulus) ((b + min_negative) % modulus)

-- On numbers that are not negative it is the order of ℕ.
pub int_lt-ltb : (a b : ℕ) → a < min_negative → b < min_negative → int_lt a b ≡ ltb a b
unfolding int_lt
int_lt-ltb a b h k = ground arith

pub int_lt_irrefl : (a : ℕ) → int_lt a a ≡ false
unfolding int_lt
int_lt_irrefl a = ground arith

pub int_lt_trans : (a b c : ℕ) → int_lt a b ≡ true → int_lt b c ≡ true → int_lt a c ≡ true
unfolding int_lt
int_lt_trans a b c h k = ground arith

pub int_lt_asym : (a b : ℕ) → int_lt a b ≡ true → int_lt b a ≡ true → ⊥
unfolding int_lt
int_lt_asym a b h k = ground arith

-- Two ints of which neither is the smaller one are the same.
pub int_lt_connex :
    (a b : ℕ) → a < modulus → b < modulus → int_lt a b ≡ false → int_lt b a ≡ false → a ≡ b
unfolding int_lt
int_lt_connex a b ha hb h k = ground arith
