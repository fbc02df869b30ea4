-- ===== src/Version/Order.antt =====
-- The order of versions (src/internal/ver/ver.go).
use lxc_hosting.Base.{
  ℕ, ◌+◌, ◌-◌, ◌*◌, ◌<◌, ◌≡◌, ◌≢◌, refl, Bool, true, false, ◌||◌, [], ◌∷◌, ◌++◌, ltb, if◌then◌else◌,
  arith, Text, codes, ap, ◌∙◌, List-cases, inl, inr,
}
use mathlib.Core.List.{append-nil}
use lxc_hosting.Std.Int64.{modulus, min_negative, wrap, int_lt_trans, int_lt_asym, int_lt-ltb}
use lxc_hosting.Std.Strconv.{
  all_digits, value, le-value, itoa, itoa-digits, itoa-ne-nil, value-itoa,
}
use lxc_hosting.Version.{Parts, parts, parts_loop, set_part, parts_lt, sem_ver_lt, blocked}

abbrev pub InRange : Parts → Type 0
InRange p = (p.major < modulus) × (p.minor < modulus) × (p.patch < modulus)

parts_loop-InRange :
    (v : Text) (out : Parts) (cur idx : ℕ)
    → InRange out
    → cur < modulus
    → InRange (parts_loop v out cur idx)
unfolding parts_loop
parts_loop-InRange [] out cur idx h k = ground arith
parts_loop-InRange (r ∷ v) out cur idx h k = ground (
  arith,
  parts_loop-InRange v (set_part out idx cur) 0 (idx + 1),
  parts_loop-InRange v out 0 idx h,
  parts_loop-InRange v out (wrap (cur * 10 + (r - b'0'))) idx h,
)

pub parts-InRange : (v : Text) → InRange (parts v)
unfolding parts
parts-InRange v = parts_loop-InRange v _ 0 0 (omega arith) (omega arith)

parts_lt_trans :
    (a b c : Parts)
    → InRange a
    → InRange b
    → InRange c
    → parts_lt a b ≡ true
    → parts_lt b c ≡ true
    → parts_lt a c ≡ true
parts_lt_trans a b c ha hb hc h k = ground (
  arith,
  int_lt_trans a.major b.major c.major,
  int_lt_trans a.minor b.minor c.minor,
  int_lt_trans a.patch b.patch c.patch,
  int_lt_asym a.major b.major,
  int_lt_asym a.minor b.minor,
  int_lt_asym a.patch b.patch,
)

-- No version is older than itself.
pub sem_ver_lt_irrefl : (a : Text) → sem_ver_lt a a ≡ false
unfolding sem_ver_lt
sem_ver_lt_irrefl a = ground arith

-- "Older than" is transitive.
pub sem_ver_lt_trans :
    (a b c : Text) → sem_ver_lt a b ≡ true → sem_ver_lt b c ≡ true → sem_ver_lt a c ≡ true
sem_ver_lt_trans a b c h k =
    unfold sem_ver_lt in
    parts_lt_trans (parts a) (parts b) (parts c) (parts-InRange a) (parts-InRange b)
      (parts-InRange c) h k

loop_digits :
    (ds rest : Text) (out : Parts) (cur idx : ℕ)
    → all_digits ds ≡ true
    → value cur ds < modulus
    → parts_loop (ds ++ rest) out cur idx ≡ parts_loop rest out (value cur ds) idx
unfolding parts_loop all_digits value
loop_digits [] rest out cur idx h k = refl
loop_digits (d ∷ ds) rest out cur idx h k = ground (
  arith,
  le-value (cur * 10 + (d - b'0')) ds,
  loop_digits ds rest out (cur * 10 + (d - b'0')) idx,
)

-- `major.minor.patch`, each in decimal
abbrev pub render : ℕ → ℕ → ℕ → Text
render a b c = itoa a ++ (b'.' ∷ (itoa b ++ (b'.' ∷ itoa c)))

pub parts-render :
    (a b c : ℕ)
    → a < modulus
    → b < modulus
    → c < modulus
    → parts (render a b c) ≡ record { major = a; minor = b; patch = c }
unfolding parts
parts-render a b c ha hb hc =
    rw
      (loop_digits (itoa a) (b'.' ∷ (itoa b ++ (b'.' ∷ itoa c))) _ 0 0 (itoa-digits a)
        (omega (arith, value-itoa a)))
      (unfold parts_loop in
        rw
          (loop_digits (itoa b) (b'.' ∷ itoa c) _ 0 1 (itoa-digits b) (omega (arith, value-itoa b)))
          (unfold parts_loop in
            rw (← append-nil (itoa c)) (
              rw (loop_digits (itoa c) [] _ 0 2 (itoa-digits c) (omega (arith, value-itoa c)))
                (unfold parts_loop in rw (value-itoa a, value-itoa b, value-itoa c)))))

-- The order of the numbers, segment by segment.
abbrev pub lex_lt : Parts → Parts → Bool
lex_lt a b =
    if ltb a.major b.major
    then true
    else if ltb b.major a.major
    then false
    else if ltb a.minor b.minor
    then true
    else if ltb b.minor a.minor
    then false
    else ltb a.patch b.patch

-- Written out in decimal, versions compare as their numbers do, segment by segment.
pub sem_ver_lt-render :
    (a b c d e f : ℕ)
    → a < min_negative
    → b < min_negative
    → c < min_negative
    → d < min_negative
    → e < min_negative
    → f < min_negative
    → sem_ver_lt (render a b c) (render d e f)
      ≡ lex_lt
          (record { major = a; minor = b; patch = c })
          (record { major = d; minor = e; patch = f })
sem_ver_lt-render a b c d e f ha hb hc hd he hf =
    unfold sem_ver_lt in
    rw
      (
        parts-render a b c (omega arith) (omega arith) (omega arith),
        parts-render d e f (omega arith) (omega arith) (omega arith),
        int_lt-ltb a d ha hd,
        int_lt-ltb b e hb he,
        int_lt-ltb c f hc hf,
      )
      (ground arith)

render-head :
    (a b c : ℕ) (P : Bool)
    → (sem_ver_lt (render a b c) (codes "0.3.0") ≡ P)
    → blocked (render a b c) ≡ P
unfolding blocked
render-head a b c P h = elim (List-cases (itoa a)) [
  | inl e ↦ absurd (itoa-ne-nil a e)
  | inr (x, xs, e) ↦ rw e (rw e at h)
]

-- A leading "v", or any other character that is no digit and no dot, changes nothing.
pub parts-prefix :
    (r : ℕ) (v : Text) → r ≢ b'.' → (ltb r b'0' || ltb b'9' r) ≡ true → parts (r ∷ v) ≡ parts v
unfolding parts
parts-prefix r v h k = ground arith

prefix-head : (v : Text) → blocked (b'v' ∷ v) ≡ sem_ver_lt v (codes "0.3.0")
unfolding blocked sem_ver_lt
prefix-head v =
    ap (λ p. parts_lt p (parts (codes "0.3.0"))) (parts-prefix b'v' v (omega arith) (ground arith))

-- A version that is written as three decimal numbers below 2 ^ 63 with dots between them, with or
-- without a "v" before it, is refused for adoption exactly if its numbers are below 0, 3, 0, compared
-- segment by segment.
pub blocked-render :
    (a b c : ℕ)
    → a < min_negative
    → b < min_negative
    → c < min_negative
    → let older =
        lex_lt
          (record { major = a; minor = b; patch = c })
          (record { major = 0; minor = 3; patch = 0 }) in
      (blocked (render a b c) ≡ older) × (blocked (b'v' ∷ render a b c) ≡ older)
unfolding itoa
blocked-render a b c ha hb hc =
    let r = sem_ver_lt-render a b c 0 3 0 ha hb hc (omega arith) (omega arith) (omega arith) in
    (render-head a b c _ r, prefix-head (render a b c) ∙ r)
