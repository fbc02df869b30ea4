-- ===== src/Config/Registry/Assign.antt =====
-- How a value is checked and stored under its key (src/internal/cfg/registry.go, Assign;
-- src/internal/cfg/cfg.go, IPv6Network).
use lxc_hosting.Base.{
  ℕ, Bool, true, false, not, ◌&&◌, ◌||◌, [], ◌∷◌, ltb, leb, ◌==◌, if◌then◌else◌, Text, text_eq,
  codes, Option, none, some,
}
use lxc_hosting.Std.Int64.{int_lt}
use lxc_hosting.Std.Strconv.{Atoi, atoi}
use lxc_hosting.Std.Strings.{trim_space, byte_length}
use lxc_hosting.Names.{to_lower, is_alnum}
use lxc_hosting.Config.{is_set}
use lxc_hosting.Config.Registry.{
  File, Cidr, Net, Key, panel_listen, panel_cert, panel_key, panel_db, panel_public_ip,
  panel_display_ip, panel_session_days, panel_url_path, panel_admin_url_path, net_v4_forward,
  net_ext_if, net_ipv6_subnet, lxd_image, lxd_image_fallback, lxd_socket,
}

-- `[A-Za-z0-9_-]`, and secretPathRe
abbrev pub is_path_char : ℕ → Bool
is_path_char c = is_alnum c || (leb b'A' c && leb c b'Z') || c == b'_' || c == b'-'

unfoldable pub path_chars : Text → Bool
path_chars [] = true
path_chars (c ∷ s) = is_path_char c && path_chars s

-- setSecretPath, on the trimmed value: an error or none
abbrev secret_path_ok : Text → Text → Bool
secret_path_ok v other =
    is_set v
    && not (ltb (byte_length v) 10)
    && path_chars v
    && not (is_set other && text_eq v other)

unfoldable pub set_secret_path : Text → Text → Bool
unfolding path_chars
set_secret_path v other = secret_path_ok (trim_space v) other

-- IPv6Network: whether the prefix of the configuration is accepted
abbrev cidr_ok : Option Cidr → Bool
cidr_ok none = false
cidr_ok (some n) = not n.is_v4 && not n.is_special && not (ltb 80 n.ones)

abbrev has_slash : Text → Bool
has_slash [] = false
has_slash (c ∷ s) = c == b'/' || has_slash s

unfoldable pub ipv6_network_ok : Net → Text → Bool
ipv6_network_ok net s = is_set s && has_slash s && cidr_ok (net.parse_cidr s)

abbrev bool_word : Text → Option Bool
bool_word t =
    if text_eq t (codes "1")
      || text_eq t (codes "true")
      || text_eq t (codes "yes")
      || text_eq t (codes "on")
    then some true
    else if text_eq t (codes "0")
        || text_eq t (codes "false")
        || text_eq t (codes "no")
        || text_eq t (codes "off")
    then some false
    else none

-- parseBool
unfoldable pub parse_bool : (ℕ → ℕ) → Text → Option Bool
parse_bool lower_other v = bool_word (to_lower lower_other (trim_space v))

abbrev pub when_ok : Bool → File → Option File
when_ok true c = some c
when_ok false c = none

-- nonEmpty
abbrev non_empty : Text → (Text → File) → Option File
non_empty [] set = none
non_empty (c ∷ v) set = some (set (c ∷ v))

-- an address, or nothing for the empty text and for AUTO
abbrev ip_or_auto : Net → Text → (Text → File) → Option File
ip_or_auto net v set =
    if not (is_set v) || text_eq v (codes "AUTO")
    then some (set [])
    else when_ok (net.is_ip v) (set v)

abbrev days_of : File → Atoi → Option File
days_of c n =
    if n.failed
    then none
    else if int_lt 0 n.number
    then some (record c { session_days = n.number })
    else none

abbrev admin_path_of : File → Text → Option File
admin_path_of c [] = some (record c { admin_path = [] })
admin_path_of c (d ∷ v) =
    when_ok (set_secret_path (d ∷ v) c.url_path) (record c { admin_path = d ∷ v })

abbrev ipv6_subnet_of : Net → File → Text → Option File
ipv6_subnet_of net c [] = some (record c { ipv6_subnet = [] })
ipv6_subnet_of net c (d ∷ v) =
    when_ok (ipv6_network_ok net (d ∷ v)) (record c { ipv6_subnet = d ∷ v })

abbrev v4_forward_of : File → Option Bool → Option File
v4_forward_of c none = none
v4_forward_of c (some b) = some (record c { v4_forward = b })

-- Assign; `none` is an error, which leaves the configuration as it is. The path of the user panel is
-- checked without the spaces around it, and kept with them.
unfoldable pub assign : Net → File → Key → Text → Option File
unfolding set_secret_path ipv6_network_ok parse_bool
assign net c panel_listen v = when_ok (net.is_host_port v) (record c { listen = v })
assign net c panel_cert v = non_empty (trim_space v) (λ t. record c { cert = t })
assign net c panel_key v = non_empty (trim_space v) (λ t. record c { key = t })
assign net c panel_db v = non_empty (trim_space v) (λ t. record c { db = t })
assign net c panel_public_ip v = ip_or_auto net (trim_space v) (λ t. record c { public_ip = t })
assign net c panel_display_ip v = ip_or_auto net (trim_space v) (λ t. record c { display_ip = t })
assign net c panel_session_days v = days_of c (atoi (trim_space v))
assign net c panel_url_path v = when_ok (set_secret_path v c.admin_path) (record c { url_path = v })
assign net c panel_admin_url_path v = admin_path_of c (trim_space v)
assign net c net_v4_forward v = v4_forward_of c (parse_bool net.lower_other v)
assign net c net_ext_if v = non_empty (trim_space v) (λ t. record c { ext_if = t })
assign net c net_ipv6_subnet v = ipv6_subnet_of net c (trim_space v)
assign net c lxd_image v = non_empty (trim_space v) (λ t. record c { image = t })
assign net c lxd_image_fallback v = non_empty (trim_space v) (λ t. record c { image_fallback = t })
assign net c lxd_socket v = non_empty (trim_space v) (λ t. record c { socket = t })
assign net c _ v = none
