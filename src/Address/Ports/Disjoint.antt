-- ===== src/Address/Ports/Disjoint.antt =====
-- The port blocks and addresses of different users (src/internal/cfg/cfg.go, mgr.go).
use lxc_hosting.Base.{ℕ, ◌+◌, ◌≤◌, ◌<◌, ◌≡◌, ap, arith}
use lxc_hosting.Address.Ports.{
  ssh_port_base, user_port_base, ports_per_user, max_users, start_port, v4, Ipv4, ok, container_ip,
}

-- the port is one that is forwarded to the user with that index
abbrev pub InBlock : ℕ → ℕ → Type 0
InBlock idx p = (start_port idx ≤ p) × (p < start_port idx + ports_per_user)

-- The blocks of two indexes have no port in common.
pub blocks_disjoint : (i j p : ℕ) → 1 ≤ i → 1 ≤ j → InBlock i p → InBlock j p → i ≡ j
blocks_disjoint i j p hi hj h k = omega arith

-- Every block lies in 10000..29999, below the SSH ports.
pub block_range :
    (i p : ℕ) → 1 ≤ i → i ≤ max_users → InBlock i p → (user_port_base ≤ p) × (p < ssh_port_base)
block_range i p hi hj h = omega arith

-- In a /24 every index in 1..200 has an address.
pub container_ip_total :
    (a b c d i : ℕ)
    → 1 ≤ i
    → i ≤ max_users
    → container_ip (v4 a b c d 24) i ≡ ok (record { a = a; b = b; c = c; d = i + 1 })
unfolding container_ip
container_ip_total a b c d i h k = ground arith

-- the address is one of the /24 with those three bytes, and not its network address, its gateway (.1)
-- or its broadcast address
abbrev pub IsHost : ℕ → ℕ → ℕ → Ipv4 → Type 0
IsHost a b c x = (x.a ≡ a) × (x.b ≡ b) × (x.c ≡ c) × (2 ≤ x.d) × (x.d ≤ 254)

-- In a /24, two indexes in 1..200 have addresses of the subnet that are neither its network address,
-- its gateway (.1) nor its broadcast address, and they have the same one only if they are the same.
pub container_ip_inj :
    (a b c d i j : ℕ)
    → 1 ≤ i
    → i ≤ max_users
    → 1 ≤ j
    → j ≤ max_users
    → (x : Ipv4) × (y : Ipv4) × (container_ip (v4 a b c d 24) i ≡ ok x)
      × (container_ip (v4 a b c d 24) j ≡ ok y)
      × IsHost a b c x
      × IsHost a b c y
      × (x ≡ y → i ≡ j)
container_ip_inj a b c d i j hi ki hj kj = (
  record { a = a; b = b; c = c; d = i + 1 },
  record { a = a; b = b; c = c; d = j + 1 },
  container_ip_total a b c d i hi ki,
  container_ip_total a b c d j hj kj,
  omega arith,
  omega arith,
  λ e. ground (arith, ap (λ (z : Ipv4). z.d) e),
)
