-- ===== src/Address/Tests.antt =====
-- Users 3 and 200, and an IPv6 prefix of the documentation range.
use lxc_hosting.Base.{
  has_row, ℕ, ◌+◌, ◌<◌, ◌≤◌, ◌≡◌, refl, Bool, true, false, List, [], ◌∷◌, Text, text_eq, codes,
  Option, none, some, take, drop, length, arith,
}
use lxc_hosting.Address.Ports.{
  v4, Ipv4, container_ip, ssh_port_base, ssh_port_count, user_port_base, max_users,
}
use lxc_hosting.Address.Ports.Disjoint.{blocks_disjoint, block_range, IsHost, container_ip_inj}
use lxc_hosting.Address.Ports
use lxc_hosting.Address.Pool.{
  is_used, collect, next_free_idx, free_from, random_port, alloc_ssh_port,
}
use lxc_hosting.Address.Pool.Free.{
  next_free_idx-IsFree, alloc_ssh_port-IsFree, alloc_ssh_port-total,
}
use lxc_hosting.Address.Pool
use lxc_hosting.Address.Ipv6.{
  add_bytes, block_collides, block_taken, Address, add_host_offset, bridge_gateway, pick_gateway,
  ipv6_block,
}
use lxc_hosting.Address.Ipv6.Offset.{host, le_value, add_host_offset_sum, bridge_gateway-first}
use lxc_hosting.Address.Ipv6.Blocks.{Verdict, block_collides-apart}

abbrev user3 : ℕ
user3 = 3

blocks_disjoint_example : user3 ≡ 3
blocks_disjoint_example =
    blocks_disjoint user3 3 10250 (omega arith) (omega arith) (omega arith) (omega arith)

block_range_example : (user_port_base ≤ 29999) × (29999 < ssh_port_base)
block_range_example = block_range 200 29999 (omega arith) (omega arith) (omega arith)

container_ip_inj_example :
    (x : Ipv4) × (y : Ipv4) × (container_ip (v4 10 0 100 0 24) user3 ≡ Ports.ok x)
    × (container_ip (v4 10 0 100 0 24) 200 ≡ Ports.ok y)
    × IsHost 10 0 100 x
    × IsHost 10 0 100 y
    × (x ≡ y → user3 ≡ 200)
container_ip_inj_example =
    container_ip_inj 10 0 100 0 user3 200 (omega arith) (omega arith) (omega arith) (omega arith)

abbrev idxs : List ℕ
idxs = 1 ∷ 2 ∷ 4 ∷ []

next_free_idx-IsFree_example : (1 ≤ 5) × (5 ≤ max_users) × (is_used 5 idxs ≡ false)
unfolding next_free_idx free_from
next_free_idx-IsFree_example = next_free_idx-IsFree idxs (some 1) 5 refl

abbrev ports : List ℕ
ports = 30000 ∷ 30007 ∷ []

abbrev seven : ℕ → Option ℕ
seven i = some (7 + i)

alloc_ssh_port-IsFree_example :
    (ssh_port_base ≤ 30008)
    × (30008 < ssh_port_base + ssh_port_count)
    × (is_used 30008 ports ≡ false)
unfolding alloc_ssh_port collect random_port
alloc_ssh_port-IsFree_example = alloc_ssh_port-IsFree ports seven 30008 refl

abbrev broken : ℕ → Option ℕ
broken i = none

alloc_ssh_port-total_example : (p : ℕ) × (alloc_ssh_port ports broken ≡ Pool.ok p)
unfolding collect
alloc_ssh_port-total_example = alloc_ssh_port-total ports broken (omega arith)

abbrev doc : Address
doc = 32 ∷ 1 ∷ 13 ∷ 184 ∷ 0 ∷ 0 ∷ 0 ∷ 0 ∷ 0 ∷ 0 ∷ 0 ∷ 0 ∷ 0 ∷ 0 ∷ 0 ∷ 0 ∷ []

add_host_offset_sum_example :
    (host (add_host_offset doc 700) ≡ host doc + 700)
    × (take 8 (add_host_offset doc 700) ≡ take 8 doc)
unfolding le_value
add_host_offset_sum_example = add_host_offset_sum doc 700 (ground arith) (omega arith)

-- The first address is the host's own.
abbrev taken : Address → Bool
taken a = text_eq (drop 15 a) (1 ∷ [])

abbrev second : Address
second = 32 ∷ 1 ∷ 13 ∷ 184 ∷ 0 ∷ 0 ∷ 0 ∷ 0 ∷ 0 ∷ 0 ∷ 0 ∷ 0 ∷ 0 ∷ 0 ∷ 0 ∷ 2 ∷ []

bridge_gateway-first_example :
    (j : ℕ) × (1 ≤ j)
    × (j < 65536)
    × (second ≡ add_host_offset doc j)
    × (taken second ≡ false)
    × ((i : ℕ) → 1 ≤ i → i < j → taken (add_host_offset doc i) ≡ true)
unfolding bridge_gateway pick_gateway add_host_offset text_eq
bridge_gateway-first_example = bridge_gateway-first doc second taken refl

-- a hash of four bytes: the length of the name, and three constants
abbrev hash : Text → List ℕ
hash t = length t ∷ 1 ∷ 2 ∷ 3 ∷ []

abbrev four : (t : Text) → (w x y z : ℕ) × (rest : List ℕ) × (hash t ≡ w ∷ x ∷ y ∷ z ∷ rest)
four t = (length t, 1, 2, 3, [], refl)

block_collides-apart_example :
    Verdict 32 1 13 184 0 0 0 0 0 0 hash four
      (add_host_offset doc 1)
      (codes "alice" ∷ [])
      (codes "bob")
      false
unfolding block_collides block_taken ipv6_block add_host_offset add_bytes text_eq has_row
block_collides-apart_example =
    block_collides-apart 32 1 13 184 0 0 0 0 0 0 hash four (add_host_offset doc 1)
      (codes "alice" ∷ []) (codes "bob")
