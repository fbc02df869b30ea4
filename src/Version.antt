-- ===== src/Version.antt =====
-- Release versions and the adoption guard (src/internal/ver/ver.go).
pub mod Order
mod Tests
use lxc_hosting.Base.{
  ℕ, suc, ◌+◌, ◌-◌, ◌*◌, ◌<◌, Bool, true, false, ◌||◌, List, [], ◌∷◌, ltb, ◌==◌, if◌then◌else◌, not,
  Text, codes,
}
use lxc_hosting.Std.Int64.{modulus, int_lt, wrap}

-- `[3]int`
pub record Parts : Type 0 where
  pub major : ℕ
  pub minor : ℕ
  pub patch : ℕ

abbrev pub min_adoptable : Text
min_adoptable = codes "0.3.0"

-- `out[idx] = cur`, guarded by `idx < 3`
abbrev pub set_part : Parts → ℕ → ℕ → Parts
set_part out idx cur =
    if idx == 0
    then record out { major = cur }
    else if idx == 1
    then record out { minor = cur }
    else if idx == 2
    then record out { patch = cur }
    else out

unfoldable pub parts_loop : Text → Parts → ℕ → ℕ → Parts
parts_loop [] out cur idx = set_part out idx cur
parts_loop (r ∷ v) out cur idx =
    if r == b'.'
    then parts_loop v (set_part out idx cur) 0 (idx + 1)
    else parts_loop v out (if ltb r b'0' || ltb b'9' r then 0 else wrap (cur * 10 + (r - b'0'))) idx

unfoldable pub parts : Text → Parts
unfolding parts_loop
parts v = parts_loop v (record { major = 0; minor = 0; patch = 0 }) 0 0

-- The loop over the three segments.
abbrev pub parts_lt : Parts → Parts → Bool
parts_lt a b =
    if not (a.major == b.major)
    then int_lt a.major b.major
    else if not (a.minor == b.minor)
    then int_lt a.minor b.minor
    else if not (a.patch == b.patch)
    then int_lt a.patch b.patch
    else false

unfoldable pub sem_ver_lt : Text → Text → Bool
unfolding parts
sem_ver_lt a b = parts_lt (parts a) (parts b)

unfoldable pub blocked : Text → Bool
unfolding sem_ver_lt
blocked [] = true
blocked (c ∷ s) = sem_ver_lt (c ∷ s) min_adoptable
