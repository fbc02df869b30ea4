-- ===== src/Config.antt =====
-- The secret panel paths, the address that is shown, the gateway and the private ranges
-- (src/internal/cfg/cfg.go). What net.ParseCIDR and net.ParseIP make of a text are arguments.
pub mod Paths
pub mod Registry
pub mod Commands
pub mod Snapshot
mod Tests
use lxc_hosting.Base.{
  ℕ, ◌/◌, Bool, true, false, not, ◌&&◌, ◌||◌, List, [], ◌∷◌, ltb, leb, ◌==◌, if◌then◌else◌, Text,
  text_eq, Option, none, some,
}
use lxc_hosting.Std.Strings.{byte_length}
use lxc_hosting.Address.Ports.{Subnet, unparsed, v4, not_v4, Ipv4}

pub record Panel : Type 0 where
  pub url_path : Text
  pub admin_path : Text
  pub public_ip : Text
  pub display_ip : Text

pub data PathError : Type 0 where
  url_short admin_short same_path : PathError

pub data PathResult : Type 0 where
  ok : PathResult
  err : PathError → PathResult

abbrev pub is_set : Text → Bool
is_set [] = false
is_set (c ∷ t) = true

unfoldable pub validate_paths : Panel → PathResult
validate_paths p =
    if not (is_set p.url_path) && not (is_set p.admin_path)
    then ok
    else if is_set p.url_path && ltb (byte_length p.url_path) 10
    then err url_short
    else if is_set p.admin_path && ltb (byte_length p.admin_path) 10
    then err admin_short
    else if is_set p.url_path && (is_set p.admin_path && text_eq p.url_path p.admin_path)
    then err same_path
    else ok

-- The two texts are what pw.URLSafe(10) and pw.URLSafe(12) draw.
unfoldable pub ensure_paths : Text → Text → Panel → Panel
ensure_paths url admin p =
    if not (is_set p.url_path) && not (is_set p.admin_path)
    then record p { url_path = url; admin_path = admin }
    else p

unfoldable pub shown_ip : Panel → Text
shown_ip p = if is_set p.display_ip then p.display_ip else p.public_ip

-- An IPv4 network has its address masked to the prefix.
unfoldable pub gateway_from_subnet : Subnet → Option Ipv4
gateway_from_subnet unparsed = none
gateway_from_subnet not_v4 = none
gateway_from_subnet (v4 a b c d ones) = some (record { a = a; b = b; c = c; d = 1 })

-- RFC 1918, loopback, link-local and 100.64.0.0/10; `none` is a text that is no IPv4 address.
unfoldable pub is_private_ipv4 : Option Ipv4 → Bool
is_private_ipv4 none = false
is_private_ipv4 (some ip) =
    ip.a == 10
    || (ip.a == 172 && ip.b / 16 == 1)
    || (ip.a == 192 && ip.b == 168)
    || ip.a == 127
    || (ip.a == 169 && ip.b == 254)
    || (ip.a == 100 && ip.b / 64 == 1)
