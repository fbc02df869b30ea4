-- ===== src/Mgr/Scripts.antt =====
-- The script that Provision runs in a container (src/internal/mgr/mgr.go).
use lxc_hosting.Base.{[], ◌∷◌, Text, codes, Option, none, some}
use lxc_hosting.Host.Files.{concat}
use lxc_hosting.Web.Requests.{cut_prefix}

-- rootPassScript
unfoldable pub root_pass_script : Text → Text
root_pass_script pass = concat (codes "printf 'root:" ∷ pass ∷ codes "\\n' | chpasswd\n" ∷ [])

-- `hostSetup`
unfoldable pub host_setup : Text → Text
host_setup host = concat (
    codes "\nVPSMGR_HOST='"
    ∷ host
    ∷ codes "'\nprintf '%s\\n' \"$VPSMGR_HOST\" > /etc/hostname\n"
    ∷ codes "hostname \"$VPSMGR_HOST\" 2>/dev/null || true\n"
    ∷ codes "hostnamectl set-hostname \"$VPSMGR_HOST\" 2>/dev/null || true\n"
    ∷ codes
        "sed -i \"s/^127\\.0\\.1\\.1.*/127.0.1.1 $VPSMGR_HOST/\" /etc/hosts 2>/dev/null || true\n"
    ∷ codes "mkdir -p /etc/cloud/cloud.cfg.d\n"
    ∷ codes "printf 'preserve_hostname: true\\n' > /etc/cloud/cloud.cfg.d/99-vpsmgr-hostname.cfg\n"
    ∷ [])

abbrev start_sshd : Text
start_sshd = concat (
    codes "\nif command -v sshd >/dev/null 2>&1; then\n"
    ∷ codes "  systemctl is-active sshd >/dev/null 2>&1 || systemctl start sshd >/dev/null 2>&1"
    ∷ codes " || systemctl start ssh >/dev/null 2>&1 || true\n"
    ∷ codes
        "  systemctl enable sshd >/dev/null 2>&1 || systemctl enable ssh >/dev/null 2>&1 || true\nfi"
    ∷ [])

abbrev install_sshd : Text
install_sshd = concat (
    codes "\nexport DEBIAN_FRONTEND=noninteractive\n"
    ∷ codes "if ! command -v sshd >/dev/null 2>&1; then\n"
    ∷ codes "  apt-get update -qq\n  apt-get install -y -qq openssh-server\nfi\n"
    ∷ codes "mkdir -p /etc/ssh/sshd_config.d\n"
    ∷ codes "printf 'PermitRootLogin yes\\nPasswordAuthentication yes\\n'"
    ∷ codes " > /etc/ssh/sshd_config.d/99-vpsmgr.conf\n"
    ∷ codes "systemctl enable ssh >/dev/null 2>&1 || true\nsystemctl restart ssh"
    ∷ [])

-- A prebuilt image has its sshd already.
abbrev sshd_script : Option Text → Text
sshd_script (some alias) = start_sshd
sshd_script none = install_sshd

-- the script for a hostname, an image and a root password
unfoldable pub provision_script : Text → Text → Text → Text
unfolding root_pass_script host_setup
provision_script host image pass = concat (
    host_setup host ∷ root_pass_script pass ∷ sshd_script (cut_prefix (codes "vpsmgr/") image) ∷ [])
