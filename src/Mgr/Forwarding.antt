-- ===== src/Mgr/Forwarding.antt =====
-- ApplyV4State and ApplyTraefikState (src/internal/mgr/mgr.go): the policy for inbound IPv4 in the
-- rules of all users, in the settings and in the traefik service.
use lxc_hosting.Base.{Bool, true, false, List, [], ◌∷◌, if◌then◌else◌, codes}
use lxc_hosting.Address.Ports.{ports_per_user}
use lxc_hosting.Db.{User, Db}
use lxc_hosting.Db.Users.{list_users}
use lxc_hosting.Db.Settings.{set_setting, setting_v4_forward}
use lxc_hosting.Host.{Calls, on_success}
use lxc_hosting.Host.Files.{write_user, remove_user}
use lxc_hosting.Mgr.{Config, State, Done, ok, err, call_failed}
use lxc_hosting.Mgr.Domains.{dotted, sync_all_domains}

module _ {S : Type 0} (h : Calls S) (cfg : Config) where
  -- The loop over the users, which stops at the first error.
  unfoldable pub apply_rules : List User → S → Bool × S
  apply_rules [] s = (true, s)
  apply_rules (u ∷ us) s =
      on_success
        (if cfg.v4_forward
          then write_user h cfg.nft_dir cfg.public_ip u.name (dotted u.ip) u.ssh_port u.start_port
              ports_per_user s
          else remove_user h cfg.nft_dir u.name s)
        (apply_rules us) (λ s'. (false, s'))

  unfoldable pub apply_traefik_state : Db → S → Bool × S
  apply_traefik_state db s =
      if cfg.v4_forward
      then on_success (h.systemctl (codes "enable") (codes "traefik.service") s)
          (sync_all_domains h cfg (λ c. c) db) (λ s'. (false, s'))
      else h.systemctl (codes "disable") (codes "traefik.service") s

  abbrev applied : State S → Db → Bool × S → Done × State S
  applied m db (true, s) = (ok tt, record m { db = db; sys = s })
  applied m db (false, s) = (err call_failed, record m { db = db; sys = s })

  unfoldable pub apply_v4_state : State S → Done × State S
  unfolding apply_rules apply_traefik_state
  apply_v4_state m =
      on_success (apply_rules (list_users m.db) m.sys)
        (λ s1.
          on_success (h.nft_reload s1)
            (λ s2.
              (let db =
                  set_setting m.db setting_v4_forward
                    (if cfg.v4_forward then codes "true" else codes "false") in
                applied m db (apply_traefik_state db s2)))
            (λ s2. applied m m.db (false, s2)))
        (λ s1. applied m m.db (false, s1))
