-- ===== src/Address/Ports.antt =====
-- The port scheme and the container's IPv4 (src/internal/cfg/cfg.go, src/internal/mgr/mgr.go:
-- UserPorts, UserPortsShort, ContainerIP).
pub mod Disjoint
use lxc_hosting.Base.{
  ℕ, ◌+◌, ◌-◌, ◌*◌, ◌/◌, ◌%◌, ◌≤◌, Bool, true, false, ◌&&◌, ◌||◌, List, [], ◌∷◌, ◌++◌, ltb, leb,
  ◌==◌, if◌then◌else◌, not, Text, codes, Option, none, some,
}
use lxc_hosting.Std.Strconv.{itoa}

abbrev pub ssh_port_base : ℕ
ssh_port_base = 30000

abbrev pub ssh_port_count : ℕ
ssh_port_count = 2000

abbrev pub user_port_base : ℕ
user_port_base = 10000

abbrev pub ports_per_user : ℕ
ports_per_user = 100

abbrev pub max_users : ℕ
max_users = 200

-- `cfg.UserPortBase + (idx-1)*cfg.PortsPerUser`, for idx ≥ 1
abbrev pub start_port : ℕ → ℕ
start_port idx = user_port_base + (idx - 1) * ports_per_user

unfoldable pub user_ports : ℕ → ℕ → Text
user_ports start per_user =
    if ltb per_user 1
    then []
    else (let end = start + per_user - 1 in
        if start == end then itoa start else itoa start ++ (b'-' ∷ itoa end))

unfoldable pub user_ports_short : ℕ → Text
user_ports_short start = itoa (start / 100) ++ codes "xx"

-- What net.ParseCIDR makes of a subnet: nothing, an IPv4 network with its prefix length, or one
-- that is not IPv4.
pub data Subnet : Type 0 where
  unparsed : Subnet
  v4 : ℕ → ℕ → ℕ → ℕ → ℕ → Subnet
  not_v4 : Subnet

-- Dotted IPv4 addresses are kept as their four bytes.
pub record Ipv4 : Type 0 where
  pub a : ℕ
  pub b : ℕ
  pub c : ℕ
  pub d : ℕ

pub data IpError : Type 0 where
  bad_cidr bad_family bad_length bad_idx : IpError

pub data IpResult : Type 0 where
  ok : Ipv4 → IpResult
  err : IpError → IpResult

unfoldable pub container_ip : Subnet → ℕ → IpResult
container_ip unparsed idx = err bad_cidr
container_ip not_v4 idx = err bad_family
container_ip (v4 a b c d ones) idx =
    if not (ones == 24)
    then err bad_length
    else if ltb idx 1 || ltb max_users idx
    then err bad_idx
    else ok (record { a = a; b = b; c = c; d = (idx + 1) % 256 })
