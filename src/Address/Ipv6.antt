-- ===== src/Address/Ipv6.antt =====
-- The IPv6 scheme (src/internal/mgr/ipv6.go): the /112 block of a name, its primary address, and
-- the bridge's gateway. An address is the list of its 16 bytes. SHA-256 is a parameter, and so are
-- the addresses that the host sees in use.
pub mod Offset
pub mod Blocks
use mathlib.Core.List.{reverse}
use lxc_hosting.Base.{
  ℕ, zero, suc, ◌+◌, ◌*◌, ◌/◌, ◌%◌, Bool, true, false, List, [], ◌∷◌, ◌++◌, ltb, ◌==◌,
  if◌then◌else◌, Option, none, some, take, drop, Text, text_eq,
}

abbrev pub Address : Type 0
Address = List ℕ

-- The loop of addHostOffset, from the last byte on.
unfoldable pub add_bytes : List ℕ → ℕ → List ℕ
add_bytes [] k = []
add_bytes (b ∷ bs) k =
    let v = b + k % 256 in
    let rest = add_bytes bs (k / 256 + (if ltb 255 v then 1 else 0)) in
    if k == 0 then b ∷ bs else (v % 256) ∷ rest

unfoldable pub add_host_offset : Address → ℕ → Address
unfolding add_bytes
add_host_offset ip k = take 8 ip ++ reverse (add_bytes (reverse (drop 8 ip)) k)

abbrev pub bridge_prefix_len : ℕ → ℕ
bridge_prefix_len ones = if ltb ones 64 then 64 else ones

-- `for k := uint64(1); k < 1<<16; k++`, with `n` rounds left; `none` is "no free gateway address".
unfoldable pub pick_gateway : ℕ → ℕ → Address → (Address → Bool) → Option Address
pick_gateway zero k base in_use = none
pick_gateway (suc n) k base in_use =
    let rest = pick_gateway n (k + 1) base in_use in
    if in_use (add_host_offset base k) then rest else some (add_host_offset base k)

unfoldable pub bridge_gateway : Address → (Address → Bool) → Option Address
bridge_gateway network in_use = pick_gateway 65535 1 network in_use

module _ (hash : Text → List ℕ) where
  -- `copy(block[10:14], h[:4])` over the network's bytes
  unfoldable pub ipv6_block : Address → Text → Address
  ipv6_block network name = take 10 network ++ (take 4 (hash name) ++ drop 14 network)

  unfoldable pub ipv6_addr : Address → Text → Address
  unfolding ipv6_block add_host_offset
  ipv6_addr network name = add_host_offset (ipv6_block network name) 1

-- `block.Contains(ip)` for a /112: the first 14 bytes agree.
abbrev pub block_contains : Address → Address → Bool
block_contains block ip = text_eq (take 14 block) (take 14 ip)

-- `b != nil && b.IP.String() == blockStr`: addresses have the same text exactly if their bytes agree.
abbrev pub same_block : Address → Option Address → Bool
same_block block none = false
same_block block (some b) = text_eq b block

-- The loop of checkIPv6BlockCollision over the names of the users.
unfoldable pub block_taken : (Text → Option Address) → Text → Address → List Text → Bool
block_taken block_of name block [] = false
block_taken block_of name block (u ∷ us) =
    let rest = block_taken block_of name block us in
    if text_eq u name then rest else if same_block block (block_of u) then true else rest

abbrev pub has_gateway : Address → Option Address → Bool
has_gateway block none = false
has_gateway block (some gateway) = block_contains block gateway

abbrev pub collides_with :
    (Text → Option Address) → Option Address → List Text → Text → Option Address → Bool
collides_with block_of gateway names name none = false
collides_with block_of gateway names name (some block) =
    if block_taken block_of name block names then true else has_gateway block gateway

-- checkIPv6BlockCollision: `true` is an error. A name has no block where IPv6 is disabled or its prefix
-- is refused, and there is no gateway where the search for one fails.
unfoldable pub block_collides : (Text → Option Address) → Option Address → List Text → Text → Bool
unfolding block_taken
block_collides block_of gateway names name =
    collides_with block_of gateway names name (block_of name)
