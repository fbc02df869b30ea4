-- ===== src/Host/Files.antt =====
-- The traefik files of domains (src/internal/tfx/tfx.go) and the nft files of users
-- (src/internal/fw/fw.go).
use lxc_hosting.Base.{
  ℕ, ◌+◌, ◌-◌, Bool, true, false, List, [], ◌∷◌, ◌++◌, if◌then◌else◌, Text, text_eq, codes, ◌||◌,
}
use lxc_hosting.Std.Strconv.{itoa}
use lxc_hosting.Names.{sanitize_domain}
use lxc_hosting.Host.{Calls, Removal, removed, not_exist, failed, on_success}

abbrev pub banner : Text
banner =
    codes
      "# Managed by vpsmgr — generated file, do not edit by hand.\n# Changes are overwritten on the next write; use the panel / `vps` CLI instead.\n"

unfoldable pub file_path : Text → Text → Text
file_path dir domain = dir ++ (b'/' ∷ (domain ++ codes ".yaml"))

abbrev pub concat : List Text → Text
concat [] = []
concat (t ∷ ts) = t ++ concat ts

unfoldable pub site_text : Text → Text → Bool → Text
site_text domain ip proxy_protocol =
    let san = sanitize_domain domain in
    concat (
      banner
      ∷ codes "http:\n  routers:\n    u-"
      ∷ san
      ∷ codes ":\n      rule: \"Host(`"
      ∷ domain
      ∷ codes "`)\"\n      entryPoints: [web]\n      service: s-"
      ∷ san
      ∷ codes "\n"
      ∷ codes "  services:\n    s-"
      ∷ san
      ∷ codes ":\n      loadBalancer:\n        servers: [{ url: \"http://"
      ∷ ip
      ∷ codes ":80\" }]\n"
      ∷ codes "tcp:\n  routers:\n    t-"
      ∷ san
      ∷ codes ":\n      rule: \"HostSNI(`"
      ∷ domain
      ∷ codes
          "`)\"\n      entryPoints: [websecure]\n      tls: { passthrough: true }\n      service: t-"
      ∷ san
      ∷ codes "\n"
      ∷ codes "  services:\n    t-"
      ∷ san
      ∷ codes ":\n      loadBalancer:\n        servers: [{ address: \""
      ∷ ip
      ∷ codes ":443\" }]\n"
      ∷ (if proxy_protocol then codes "        proxyProtocol:\n          version: 2\n" else [])
      ∷ [])

abbrev pub is_gone : {S : Type 0} → Removal × S → Bool × S
is_gone (removed, s) = (true, s)
is_gone (not_exist, s) = (true, s)
is_gone (failed, s) = (false, s)

unfoldable pub nft_rule : Text → Text → Text → Text
nft_rule chain match target =
    codes "add rule inet vpsmgr "
    ++ (chain ++ (match ++ (codes " dnat ip to " ++ (target ++ codes "\n"))))

-- the three rules of one chain: SSH, the ports over TCP, the ports over UDP
unfoldable pub nft_rules : Text → Text → ℕ → ℕ → ℕ → Text
unfolding nft_rule
nft_rules chain ip ssh_port start_port last =
    let ports = itoa start_port ++ (b'-' ∷ itoa last) in
    nft_rule chain (codes "tcp dport " ++ itoa ssh_port) (ip ++ codes ":22")
    ++ (nft_rule chain (codes "tcp dport " ++ ports) ip
        ++ nft_rule chain (codes "udp dport " ++ ports) ip)

-- the rules for connections that start on the host, only for a public address
unfoldable pub output_rules : Text → Text → ℕ → ℕ → ℕ → Text
unfolding nft_rules
output_rules public_ip ip ssh_port start_port last =
    if text_eq public_ip [] || text_eq public_ip (codes "127.0.0.1")
    then []
    else nft_rules (codes "output ip daddr " ++ (public_ip ++ codes " ")) ip ssh_port start_port
        last

unfoldable pub user_rules : Text → Text → ℕ → ℕ → ℕ → Text
unfolding nft_rules output_rules
user_rules public_ip ip ssh_port start_port per_user =
    let last = start_port + per_user - 1 in
    banner
    ++ (nft_rules (codes "prerouting ") ip ssh_port start_port last
        ++ output_rules public_ip ip ssh_port start_port last)

unfoldable pub user_file : Text → Text → Text
user_file dir name = dir ++ (codes "/user-" ++ (name ++ codes ".nft"))

module _ {S : Type 0} (h : Calls S) (dir : Text) where
  unfoldable pub write_domain : Text → Text → Bool → S → Bool × S
  write_domain domain ip proxy_protocol s =
      let tmp = file_path dir domain ++ codes ".tmp" in
      on_success (h.write_file tmp (site_text domain ip proxy_protocol) s)
        (h.rename tmp (file_path dir domain)) (λ s'. (false, s'))

  unfoldable pub remove_domain : Text → S → Bool × S
  remove_domain domain s = is_gone (h.remove_file (file_path dir domain) s)

  unfoldable pub write_user : Text → Text → Text → ℕ → ℕ → ℕ → S → Bool × S
  write_user public_ip name ip ssh_port start_port per_user =
      h.write_file (user_file dir name) (user_rules public_ip ip ssh_port start_port per_user)

  unfoldable pub remove_user : Text → S → Bool × S
  remove_user name s = is_gone (h.remove_file (user_file dir name) s)
