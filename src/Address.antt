-- ===== src/Address.antt =====
-- The addresses and ports that a user gets: IPv4 and ports from the index, IPv6 from the name.
pub mod Ports
pub mod Pool
pub mod Ipv6
mod Tests
