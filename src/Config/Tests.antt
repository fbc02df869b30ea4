-- ===== src/Config/Tests.antt =====
-- Panel paths and addresses, and the user panel enabled with `vps config set`.
use lxc_hosting.Base.{
  ◌≡◌, ◌⊎◌, ◌↔◌, refl, true, false, none, some, List, [], ◌∷◌, if◌then◌else◌, Text, text_eq, codes,
}
use lxc_hosting.Config.{Panel, ok, validate_paths, is_private_ipv4}
use lxc_hosting.Config.Paths.{IsSafe, validate_paths-IsSafe}
use lxc_hosting.Config.Registry.{File, Net, panel_url_path}
use lxc_hosting.Config.Commands.{World, config_set}
use lxc_hosting.Config.Snapshot.{immutable_snapshot, verify_immutable, intact, changed}
use lxc_hosting.Config.Snapshot.Drift.{config_set-drift}

abbrev user_only : Panel
user_only = record {
  url_path = codes "s3cretpath";
  admin_path = [];
  public_ip = codes "192.0.2.1";
  display_ip = [];
}

validate_paths-IsSafe_example : (validate_paths user_only ≡ ok) ↔ IsSafe user_only
validate_paths-IsSafe_example = validate_paths-IsSafe user_only

private_tests :
    (is_private_ipv4 (some (record { a = 100; b = 64; c = 0; d = 1 })) ≡ true)
    × (is_private_ipv4 (some (record { a = 172; b = 32; c = 0; d = 1 })) ≡ false)
unfolding is_private_ipv4
private_tests = (refl, refl)

-- the panel as `vps install` leaves it with the user panel off
abbrev installed_file : File
installed_file = record {
  listen = codes ":8443";
  cert = codes "cert.pem";
  key = codes "key.pem";
  db = codes "vps.db";
  public_ip = [];
  display_ip = [];
  session_days = 7;
  url_path = [];
  admin_path = codes "admin-path-0";
  subnet = codes "10.10.0.0/16";
  gateway = codes "10.10.0.1";
  v4_forward = true;
  ext_if = codes "eth0";
  ipv6_subnet = [];
  image = codes "debian/13";
  image_fallback = codes "debian/12";
  pool = codes "default";
  bridge = codes "lxdbr0";
  socket = codes "unix.socket";
  installed_version = codes "v1.0.0";
  uninstalled_version = [];
}

abbrev plain_net : Net
plain_net = record {
  is_host_port = λ _. true;
  is_ip = λ _. true;
  parse_cidr = λ _. none;
  lower_other = λ c. c;
}

abbrev quiet_world : World
quiet_world = record {
  is_tty = false;
  typed = none;
  confirmed = none;
  can_save = true;
  port_free = λ _. true;
  panel_restarts = true;
  install_succeeds = true;
  refresh_succeeds = true;
}

abbrev enable_args : List Text
enable_args = codes "panel.url_path" ∷ codes "user-path-0" ∷ []

abbrev enabled_file : File
enabled_file = (config_set plain_net quiet_world installed_file enable_args).1

config_set-drift_example :
    (verify_immutable enabled_file (some (immutable_snapshot installed_file)) ≡ (
      if text_eq enabled_file.url_path installed_file.url_path
      then intact
      else changed (panel_url_path ∷ [])))
    × ((enabled_file.url_path ≡ installed_file.url_path) ⊎ (installed_file.url_path ≡ []))
config_set-drift_example = config_set-drift plain_net quiet_world installed_file enable_args
