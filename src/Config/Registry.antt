-- ===== src/Config/Registry.antt =====
-- The registry of configuration keys (src/internal/cfg/registry.go): who may change a key, how a
-- change takes effect, and how a value is read. net.SplitHostPort, net.ParseIP and net.ParseCIDR are
-- arguments.
pub mod Assign
use lxc_hosting.Base.{
  ℕ, Bool, true, false, not, ◌&&◌, ◌||◌, List, [], ◌∷◌, ltb, leb, ◌==◌, if◌then◌else◌, Text,
  text_eq, codes, Option, none, some, first_where,
}
use lxc_hosting.Std.Int64.{int_lt}
use lxc_hosting.Std.Strconv.{Atoi, atoi, itoa}
use lxc_hosting.Std.Strings.{trim_space, byte_length}
use lxc_hosting.Names.{to_lower, is_alnum}
use lxc_hosting.Config.{is_set}

-- the configuration file
pub record File : Type 0 where
  pub listen : Text
  pub cert : Text
  pub key : Text
  pub db : Text
  pub public_ip : Text
  pub display_ip : Text
  pub session_days : ℕ
  pub url_path : Text
  pub admin_path : Text
  pub subnet : Text
  pub gateway : Text
  pub v4_forward : Bool
  pub ext_if : Text
  pub ipv6_subnet : Text
  pub image : Text
  pub image_fallback : Text
  pub pool : Text
  pub bridge : Text
  pub socket : Text
  pub installed_version : Text
  pub uninstalled_version : Text

-- an IPv6 or IPv4 network, as the checks of IPv6Network read it
pub record Cidr : Type 0 where
  pub is_v4 : Bool
  pub is_special : Bool
  pub ones : ℕ

pub record Net : Type 0 where
  pub is_host_port : Text → Bool
  pub is_ip : Text → Bool
  pub parse_cidr : Text → Option Cidr
  pub lower_other : ℕ → ℕ

pub data Key : Type 0 where
  panel_listen panel_cert panel_key panel_db panel_public_ip panel_display_ip : Key
  panel_session_days panel_url_path panel_admin_url_path panel_admin_pass_hash : Key
  net_subnet net_gateway net_v4_forward net_ext_if net_ipv6_subnet : Key
  lxd_image lxd_image_fallback lxd_pool lxd_bridge lxd_socket : Key
  installed_version_key uninstalled_version_key : Key

pub data FieldKind : Type 0 where
  immutable operator runtime auto special : FieldKind

pub data Apply : Type 0 where
  restart install immediate next_add never : Apply

pub data Editable : Type 0 where
  yes_always only_when_empty not_at_all : Editable

-- Fields, in their order
abbrev pub fields : List Key
fields =
    panel_listen ∷ panel_cert ∷ panel_key ∷ panel_db ∷ panel_public_ip ∷ panel_display_ip
    ∷ panel_session_days ∷ panel_url_path ∷ panel_admin_url_path ∷ panel_admin_pass_hash
    ∷ net_subnet ∷ net_gateway ∷ net_v4_forward ∷ net_ext_if ∷ net_ipv6_subnet ∷ lxd_image
    ∷ lxd_image_fallback ∷ lxd_pool ∷ lxd_bridge ∷ lxd_socket ∷ installed_version_key
    ∷ uninstalled_version_key ∷ []

unfoldable pub name_of : Key → Text
name_of panel_listen = codes "panel.listen"
name_of panel_cert = codes "panel.cert"
name_of panel_key = codes "panel.key"
name_of panel_db = codes "panel.db"
name_of panel_public_ip = codes "panel.public_ip"
name_of panel_display_ip = codes "panel.display_ip"
name_of panel_session_days = codes "panel.session_days"
name_of panel_url_path = codes "panel.url_path"
name_of panel_admin_url_path = codes "panel.admin_url_path"
name_of panel_admin_pass_hash = codes "panel.admin_pass_hash"
name_of net_subnet = codes "net.subnet"
name_of net_gateway = codes "net.gateway"
name_of net_v4_forward = codes "net.v4_forward"
name_of net_ext_if = codes "net.ext_if"
name_of net_ipv6_subnet = codes "net.ipv6_subnet"
name_of lxd_image = codes "lxd.image"
name_of lxd_image_fallback = codes "lxd.image_fallback"
name_of lxd_pool = codes "lxd.pool"
name_of lxd_bridge = codes "lxd.bridge"
name_of lxd_socket = codes "lxd.socket"
name_of installed_version_key = codes "installed_version"
name_of uninstalled_version_key = codes "uninstalled_version"

unfoldable pub kind_of : Key → FieldKind
kind_of panel_url_path = immutable
kind_of panel_admin_pass_hash = special
kind_of net_subnet = immutable
kind_of net_gateway = immutable
kind_of net_v4_forward = runtime
kind_of lxd_pool = immutable
kind_of lxd_bridge = immutable
kind_of installed_version_key = auto
kind_of uninstalled_version_key = auto
kind_of _ = operator

unfoldable pub apply_of : Key → Apply
apply_of panel_listen = restart
apply_of panel_cert = restart
apply_of panel_key = restart
apply_of panel_db = install
apply_of panel_public_ip = install
apply_of panel_display_ip = restart
apply_of panel_session_days = restart
apply_of panel_url_path = restart
apply_of panel_admin_url_path = restart
apply_of net_v4_forward = immediate
apply_of net_ext_if = install
apply_of net_ipv6_subnet = install
apply_of lxd_image = next_add
apply_of lxd_image_fallback = next_add
apply_of lxd_socket = restart
apply_of _ = never

abbrev editable_kind : Key → FieldKind → Editable
editable_kind k operator = yes_always
editable_kind k runtime = yes_always
editable_kind panel_url_path immutable = only_when_empty
editable_kind panel_admin_url_path immutable = only_when_empty
editable_kind _ _ = not_at_all

-- Editable
unfoldable pub editable : Key → Editable
unfolding kind_of
editable k = editable_kind k (kind_of k)

abbrev or_disabled : Text → Text
or_disabled [] = codes "disabled"
or_disabled (c ∷ t) = c ∷ t

abbrev bool_text : Bool → Text
bool_text true = codes "true"
bool_text false = codes "false"

-- Get; FieldValue on a key
unfoldable pub field_value : File → Key → Text
field_value c panel_listen = c.listen
field_value c panel_cert = c.cert
field_value c panel_key = c.key
field_value c panel_db = c.db
field_value c panel_public_ip = c.public_ip
field_value c panel_display_ip = c.display_ip
field_value c panel_session_days = itoa c.session_days
field_value c panel_url_path = c.url_path
field_value c panel_admin_url_path = or_disabled c.admin_path
field_value c panel_admin_pass_hash = codes "(in database, via `vps admin-passwd`)"
field_value c net_subnet = c.subnet
field_value c net_gateway = c.gateway
field_value c net_v4_forward = bool_text c.v4_forward
field_value c net_ext_if = c.ext_if
field_value c net_ipv6_subnet = or_disabled c.ipv6_subnet
field_value c lxd_image = c.image
field_value c lxd_image_fallback = c.image_fallback
field_value c lxd_pool = c.pool
field_value c lxd_bridge = c.bridge
field_value c lxd_socket = c.socket
field_value c installed_version_key = c.installed_version
field_value c uninstalled_version_key = c.uninstalled_version

-- FieldFor
unfoldable pub field_for : Text → Option Key
unfolding name_of
field_for key = first_where (λ k. text_eq (name_of k) key) fields
