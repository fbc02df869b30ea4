-- ===== src/Mgr/Accounts.antt =====
-- Add with its cleanup, Del and Reinstall (src/internal/mgr/mgr.go). Passwords, their hashes, random
-- draws and time stamps are arguments, and so is the IPv6 addressing.
pub mod Undone
pub mod Gone
use lxc_hosting.Base.{
  ℕ, Bool, true, false, not, ◌||◌, List, [], ◌∷◌, ltb, if◌then◌else◌, Text, text_eq, Option, none,
  some, Map, map,
}
use lxc_hosting.Names.{validate_name}
use lxc_hosting.Quota.Cpu.{validate_cpu, CpuResult}
use lxc_hosting.Quota.Cpu
use lxc_hosting.Address.Ports.{Ipv4, IpResult, container_ip, start_port, ports_per_user}
use lxc_hosting.Address.Ports
use lxc_hosting.Address.Pool.{PoolResult, alloc_ssh_port}
use lxc_hosting.Address.Pool
use lxc_hosting.Address.Ipv6.{Address, block_collides}
use lxc_hosting.Db.{User, Domain, Db, DbResult, no_rows}
use lxc_hosting.Db
use lxc_hosting.Db.Users.{
  list_users, get_user_by_name, create_user, delete_user, update_traffic_quota, pick_idx,
  used_ssh_ports,
}
use lxc_hosting.Db.Domains.{list_domains}
use lxc_hosting.Db.Sessions.{delete_sessions_for_user}
use lxc_hosting.Host.{Calls, on_success}
use lxc_hosting.Host.Lx.{launch, delete_container}
use lxc_hosting.Host.Files.{write_user, remove_user, remove_domain}
use lxc_hosting.Mgr.{
  Config, State, MgrError, Outcome, Done, ok, err, db_error, cpu_error, ip_error, pool_error,
  bad_name, bad_memory, bad_disk, user_exists, pool_full, conflict, bad_image, call_failed,
}
use lxc_hosting.Mgr.Domains.{dotted}
use lxc_hosting.Mgr.Scripts.{provision_script}
use lxc_hosting.Mgr.Limits.{drop_name}

-- What is drawn or computed outside for one creation: the random index, the random ports, the
-- password and its hash, the random hostname, the IPv6 address and block of the name as texts, the
-- block of every name, the gateway of the bridge, and the time.
pub record Draws : Type 0 where
  pub idx : Option ℕ
  pub ports : ℕ → Option ℕ
  pub hash : Text
  pub pass : Text
  pub host : Text
  pub ipv6 : Text
  pub block : Text
  pub block_of : Text → Option Address
  pub gateway : Option Address
  pub now : Text

pub record AddOptions : Type 0 where
  pub cpu : ℕ
  pub mem_mb : ℕ
  pub disk_gb : ℕ
  pub traffic_gb : ℕ

-- an instance of the name, or one with the address
unfoldable pub lxd_conflict : Text → Text → Map Text → Bool
lxd_conflict name ip [] = false
lxd_conflict name ip ((n, v) ∷ ips) =
    let rest = lxd_conflict name ip ips in text_eq n name || text_eq v ip || rest

module _ {S : Type 0} (h : Calls S) (cfg : Config) where
  abbrev pub image_name : S → Text × S
  image_name s =
      let r = h.image_exists cfg.image s in ((if r.0 then cfg.image else cfg.image_fallback), r.1)

  -- The rollback of a creation; `created` is the id of a row that is there already.
  unfoldable pub cleanup : Text → Option ℕ → Db → S → Db × S
  cleanup name created db s =
      let s1 = h.unwire_ipv6 name s in
      let s2 = (delete_container h name s1).1 in
      let s3 = (remove_user h cfg.nft_dir name s2).1 in
      let s4 = (h.nft_reload s3).1 in
      elim created [ none ↦ (db, s4) | some id ↦ (delete_user db id, s4) ]

  abbrev pub cleaned : State S → MgrError → Db × S → Outcome User × State S
  cleaned m e (db, s) = (err e, record m { db = db; sys = s })

  abbrev pub give_up : State S → Text → Option ℕ → Db → MgrError → S → Outcome User × State S
  give_up m name created db e s = cleaned m e (cleanup name created db s)

  -- behind CreateUser: the traffic quota, the nft rules and their reload
  abbrev pub add_rules :
      State S → Text → AddOptions → DbResult (User × Db) → S → Outcome User × State S
  add_rules m name opt (Db.err e) s = give_up m name none m.db (db_error e) s
  add_rules m name opt (Db.ok (u, db1)) s =
      let db2 =
        (if ltb 0 opt.traffic_gb then update_traffic_quota db1 u.id opt.traffic_gb else db1) in
      let written =
        (if cfg.v4_forward
          then write_user h cfg.nft_dir cfg.public_ip name (dotted u.ip) u.ssh_port u.start_port
              ports_per_user s
          else (true, s)) in
      on_success written
        (λ s1.
          on_success (h.nft_reload s1) (λ s2. (ok u, record m { db = db2; sys = s2 }))
            (give_up m name (some u.id) db2 call_failed))
        (give_up m name (some u.id) db2 call_failed)

  -- from Launch on
  abbrev pub add_launch :
      State S → Text → AddOptions → Draws → ℕ → Ipv4 → ℕ → Text → S → Outcome User × State S
  add_launch m name opt d idx ip ssh_port image s =
      on_success
        (launch h cfg.pool cfg.bridge name image (dotted ip) d.ipv6 d.block opt.cpu opt.mem_mb
          opt.disk_gb s)
        (λ s1.
          on_success (h.exec_sh name (provision_script d.host image d.pass) s1)
            (λ s2.
              on_success (h.wire_ipv6 name s2)
                (λ s3.
                  on_success (h.configure_ipv6 name s3)
                    (add_rules m name opt (
                      create_user m.db name d.hash ip idx ssh_port (start_port idx) opt.cpu
                        opt.mem_mb opt.disk_gb d.now))
                    (give_up m name none m.db call_failed))
                (give_up m name none m.db call_failed))
            (give_up m name none m.db call_failed))
        (λ s1. (err call_failed, record m { sys = s1 }))

  abbrev pub add_conflict :
      State S
      → Text
      → AddOptions
      → Draws
      → ℕ
      → Ipv4
      → ℕ
      → Text
      → Option (Map Text) × S
      → Outcome User × State S
  add_conflict m name opt d idx ip ssh_port image (none, s) =
      (err call_failed, record m { sys = s })
  add_conflict m name opt d idx ip ssh_port image (some ips, s) =
      if lxd_conflict name (dotted ip) ips
      then (err conflict, record m { sys = s })
      else add_launch m name opt d idx ip ssh_port image s

  abbrev pub add_port :
      State S
      → Text
      → AddOptions
      → Draws
      → ℕ
      → Text
      → S
      → Ipv4
      → PoolResult
      → Outcome User × State S
  add_port m name opt d idx image s ip (Pool.err e) = (err (pool_error e), record m { sys = s })
  add_port m name opt d idx image s ip (Pool.ok ssh_port) =
      if block_collides d.block_of d.gateway (map (λ u. u.name) (list_users m.db)) name
      then (err conflict, record m { sys = s })
      else add_conflict m name opt d idx ip ssh_port image (h.instance_static_ips s)

  abbrev pub add_ip :
      State S → Text → AddOptions → Draws → ℕ → Text × S → IpResult → Outcome User × State S
  add_ip m name opt d idx (image, s) (Ports.err e) = (err (ip_error e), record m { sys = s })
  add_ip m name opt d idx (image, s) (Ports.ok ip) =
      add_port m name opt d idx image s ip (alloc_ssh_port (used_ssh_ports m.db) d.ports)

  abbrev pub add_idx : State S → Text → AddOptions → Draws → PoolResult → Outcome User × State S
  add_idx m name opt d (Pool.err e) = (err (pool_error e), m)
  add_idx m name opt d (Pool.ok idx) =
      on_success (h.pool_has_room m.sys)
        (λ s. add_ip m name opt d idx (image_name s) (container_ip cfg.subnet idx))
        (λ s. (err pool_full, record m { sys = s }))

  abbrev pub add_new : State S → Text → AddOptions → Draws → DbResult User → Outcome User × State S
  add_new m name opt d (Db.ok u) = (err user_exists, m)
  add_new m name opt d (Db.err e) = add_idx m name opt d (pick_idx m.db d.idx)

  abbrev pub add_checked :
      State S → Text → AddOptions → Draws → CpuResult (Unit {0}) → Outcome User × State S
  add_checked m name opt d (Cpu.err e) = (err (cpu_error e), m)
  add_checked m name opt d (Cpu.ok _) =
      if ltb opt.mem_mb 64
      then (err bad_memory, m)
      else if ltb opt.disk_gb 1
      then (err bad_disk, m)
      else add_new m name opt d (get_user_by_name m.db name)

  unfoldable pub add : State S → Text → AddOptions → Draws → Outcome User × State S
  unfolding cleanup
  add m name opt d =
      if not (validate_name name)
      then (err bad_name, m)
      else add_checked m name opt d (validate_cpu opt.cpu)

  -- Errors of these removals are only warned about.
  unfoldable pub remove_domains : List Domain → S → S
  remove_domains [] s = s
  remove_domains (d ∷ ds) s = remove_domains ds (remove_domain h cfg.traefik_dir d.domain s).1

  abbrev pub dropped : Text → Option (List Text) → Option (List Text)
  dropped name none = none
  dropped name (some names) = some (drop_name names name)

  abbrev pub del_found : State S → Text → DbResult User → Done × State S
  del_found m name (Db.err e) = (err (db_error e), m)
  del_found m name (Db.ok u) =
      on_success (delete_container h name m.sys)
        (λ s.
          (let s1 = (remove_user h cfg.nft_dir name (h.unwire_ipv6 name s)).1 in
            let s2 = (h.nft_reload s1).1 in
            (
              ok tt,
              record m {
                db = delete_sessions_for_user (delete_user m.db u.id) u.id;
                sys = remove_domains (list_domains m.db u.id) s2;
                throttled = dropped name m.throttled;
              },
            )))
        (λ s. (err call_failed, record m { sys = s }))

  unfoldable pub del : State S → Text → Done × State S
  unfolding remove_domains
  del m name =
      if not (validate_name name)
      then (err bad_name, m)
      else del_found m name (get_user_by_name m.db name)

  -- what follows the delivery of the init script, whose error is only warned about
  abbrev after_script : State S → User → S → Done × State S
  after_script m u s = elim u.init_script [
    | [] ↦ (ok tt, record m { sys = s })
    | c ∷ t ↦ (ok tt, record m { sys = (h.run_init_script u.name (c ∷ t) s).1 })
  ]

  abbrev reinstall_launch : State S → User → Draws → Text → S → Done × State S
  reinstall_launch m u d image s =
      let stop : S → Done × State S = λ s'. (err call_failed, record m { sys = s' }) in
      on_success
        (launch h cfg.pool cfg.bridge u.name image (dotted u.ip) d.ipv6 d.block u.cpu u.mem_mb
          u.disk_gb s)
        (λ s1.
          on_success (h.exec_sh u.name (provision_script d.host image d.pass) s1)
            (λ s2.
              on_success (h.wire_ipv6 u.name s2)
                (λ s3. on_success (h.configure_ipv6 u.name s3) (after_script m u) stop) stop)
            stop)
        stop

  -- the default image or its fallback, or a picked image that must be there
  abbrev with_image : State S → User → Draws → Text → S → Done × State S
  with_image m u d image s =
      if text_eq image [] || text_eq image cfg.image
      then (let r = image_name s in reinstall_launch m u d r.0 r.1)
      else on_success (h.image_exists image s) (reinstall_launch m u d image)
          (λ s'. (err bad_image, record m { sys = s' }))

  abbrev reinstall_found : State S → Draws → Text → DbResult User → Done × State S
  reinstall_found m d image (Db.err e) = (err (db_error e), m)
  reinstall_found m d image (Db.ok u) =
      on_success (delete_container h u.name m.sys) (with_image m u d image)
        (λ s. (err call_failed, record m { sys = s }))

  unfoldable pub reinstall : State S → Text → Text → Draws → Done × State S
  reinstall m name image d = reinstall_found m d image (get_user_by_name m.db name)
