-- ===== src/Address/Pool.antt =====
-- Picking a free index (src/internal/db/user.go, NextFreeIdx) and a free SSH port
-- (src/internal/mgr/mgr.go, allocSSHPort). What crypto/rand draws is a parameter: any number, of
-- which `rand.Int` returns the remainder, or a failure.
pub mod Free
use lxc_hosting.Base.{
  ℕ, zero, suc, ◌+◌, ◌-◌, ◌*◌, ◌%◌, ◌≤◌, Bool, true, false, ◌&&◌, ◌||◌, List, [], ◌∷◌, ltb, leb,
  ◌==◌, if◌then◌else◌, not, Option, none, some, length, get_elem?,
}
use lxc_hosting.Address.Ports.{ssh_port_base, ssh_port_count, max_users}

pub data PoolError : Type 0 where
  user_limit no_random pool_exhausted no_free_port : PoolError

pub data PoolResult : Type 0 where
  ok : ℕ → PoolResult
  err : PoolError → PoolResult

unfoldable pub is_used : ℕ → List ℕ → Bool
is_used x [] = false
is_used x (y ∷ used) = x == y || is_used x used

-- The map that the rows are collected in: `used[p] = true`.
unfoldable pub collect : List ℕ → List ℕ
unfolding is_used
collect [] = []
collect (x ∷ xs) = let rest = collect xs in if is_used x rest then rest else x ∷ rest

-- The loop `for i := 1; i <= MaxUsers; i++`, with `n` rounds left.
unfoldable pub free_from : ℕ → ℕ → List ℕ → List ℕ
unfolding is_used
free_from zero i used = []
free_from (suc n) i used =
    let rest = free_from n (i + 1) used in if is_used i used then rest else i ∷ rest

abbrev pub pick : Option ℕ → PoolResult
pick none = err no_random
pick (some i) = ok i

unfoldable pub draw_from : List ℕ → Option ℕ → PoolResult
draw_from [] random = err user_limit
draw_from (i ∷ free) none = err no_random
draw_from (i ∷ free) (some r) = pick (get_elem? (i ∷ free) (r % length (i ∷ free)))

unfoldable pub next_free_idx : List ℕ → Option ℕ → PoolResult
unfolding draw_from
next_free_idx idxs random = draw_from (free_from max_users 1 idxs) random

-- The 32 random picks; `none` where none of them was free or the generator failed.
unfoldable pub random_port : ℕ → ℕ → List ℕ → (ℕ → Option ℕ) → Option ℕ
unfolding is_used
random_port zero i used random = none
random_port (suc n) i used random = elim (random i) [
  | none ↦ none
  | some r ↦
      let p = ssh_port_base + r % ssh_port_count in
      let rest = random_port n (i + 1) used random in if is_used p used then rest else some p
]

-- The loop over the range from the lowest port.
unfoldable pub lowest_port : ℕ → ℕ → List ℕ → Option ℕ
unfolding is_used
lowest_port zero p used = none
lowest_port (suc n) p used =
    let rest = lowest_port n (p + 1) used in if is_used p used then rest else some p

abbrev pub or_lowest : Option ℕ → Option ℕ → PoolResult
or_lowest (some p) _ = ok p
or_lowest none (some p) = ok p
or_lowest none none = err no_free_port

unfoldable pub alloc_ssh_port : List ℕ → (ℕ → Option ℕ) → PoolResult
alloc_ssh_port ports random =
    let used = collect ports in
    if leb ssh_port_count (length used)
    then err pool_exhausted
    else or_lowest (random_port 32 0 used random) (lowest_port ssh_port_count ssh_port_base used)
