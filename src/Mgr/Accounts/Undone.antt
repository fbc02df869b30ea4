-- ===== src/Mgr/Accounts/Undone.antt =====
-- The rows behind an Add (src/internal/mgr/mgr.go), whatever call of the host fails.
use lxc_hosting.Base.{
  map, ℕ, ◌≡◌, refl, subst, Bool, true, false, not, [], ltb, Text, has_row, Bool-cases, inl, inr,
  Map, if◌then◌else◌, Option, none, some,
}
use lxc_hosting.Names.{validate_name}
use lxc_hosting.Quota.Cpu.{CpuResult, validate_cpu}
use lxc_hosting.Quota.Cpu
use lxc_hosting.Address.Ports.{Ipv4, IpResult, container_ip, start_port, ports_per_user}
use lxc_hosting.Address.Ports
use lxc_hosting.Address.Pool.{PoolResult, alloc_ssh_port}
use lxc_hosting.Address.Pool
use lxc_hosting.Address.Ipv6.{block_collides}
use lxc_hosting.Db.Users.{list_users}
use lxc_hosting.Db.{User, Db, DbResult, no_rows}
use lxc_hosting.Db
use lxc_hosting.Db.Users.{clashes, create_user, get_user_by_name, pick_idx, used_ssh_ports}
use lxc_hosting.Db.Users.Cascade.{create_user-found}
use lxc_hosting.Db.Users.Inserted.{
  SameRows, SameRows-refl, with_quota, inserted, insert_user-inserted, rows_back, stored,
}
use lxc_hosting.Db.Valid.{IsValid}
use lxc_hosting.Host.{Calls, on_success}
use lxc_hosting.Host.Lx.{launch}
use lxc_hosting.Host.Files.{write_user}
use lxc_hosting.Mgr.{
  Config, State, MgrError, Outcome, ok, err, db_error, call_failed, conflict, pool_full,
}
use lxc_hosting.Mgr.Domains.{dotted}
use lxc_hosting.Mgr.Scripts.{provision_script}
use lxc_hosting.Mgr.Accounts.{
  Draws, AddOptions, lxd_conflict, image_name, cleanup, give_up, add_rules, add_launch,
  add_conflict, add_port, add_ip, add_idx, add_new, add_checked, add,
}

module _ {S : Type 0} (h : Calls S) (cfg : Config) where
  -- The row of a new user: the name was free, and is found now with the quotas that were asked for;
  -- its index, SSH port, port block and address are those that the free pools and the scheme give.
  pub record IsAdded (db db' : Db) (name : Text) (opt : AddOptions) (d : Draws) (u : User)
      : Type 0 where
    pub was_free : get_user_by_name db name ≡ Db.err no_rows
    pub is_there :
        get_user_by_name db' name ≡ Db.ok (record u { traffic_quota_gb = opt.traffic_gb })
    pub index : pick_idx db d.idx ≡ Pool.ok u.idx
    pub port : alloc_ssh_port (used_ssh_ports db) d.ports ≡ Pool.ok u.ssh_port
    pub ports : u.start_port ≡ start_port u.idx
    pub address : container_ip cfg.subnet u.idx ≡ Ports.ok u.ip
    pub quotas : (u.cpu ≡ opt.cpu) × (u.mem_mb ≡ opt.mem_mb) × (u.disk_gb ≡ opt.disk_gb)

  abbrev pub Settled : Db → Text → AddOptions → Draws → Outcome User × State S → Type 0
  Settled db name opt d (err e, m) = SameRows db m.db
  Settled db name opt d (ok u, m) = IsAdded db m.db name opt d u

  module _ (m : State S) (name : Text) (opt : AddOptions) (d : Draws) where
    abbrev Good : Outcome User × State S → Type 0
    Good r = Settled m.db name opt d r

    on_success-Good :
        (c : Bool × S) (good bad : S → Outcome User × State S)
        → ((s : S) → Good (good s))
        → ((s : S) → Good (bad s))
        → Good (on_success c good bad)
    on_success-Good (true, s) good bad k l = k s
    on_success-Good (false, s) good bad k l = l s

    unless-Good :
        (b : Bool) (e : MgrError) (s : S) (r : Outcome User × State S)
        → Good r
        → Good (if b then (err e, record m { sys = s }) else r)
    unless-Good true e s r k = SameRows-refl m.db
    unless-Good false e s r k = k

    give_up-Good : (e : MgrError) (s : S) → Good (give_up h cfg m name none m.db e s)
    unfolding cleanup
    give_up-Good e s = SameRows-refl m.db

    module _ (valid : IsValid m.db) (idx : ℕ) (ip : Ipv4) (ssh_port : ℕ) where
      abbrev row : User
      row = record {
        id = m.db.next_user;
        name = name;
        pass_hash = d.hash;
        idx = idx;
        ip = ip;
        ssh_port = ssh_port;
        start_port = start_port idx;
        init_script = [];
        cpu = opt.cpu;
        mem_mb = opt.mem_mb;
        disk_gb = opt.disk_gb;
        created_at = d.now;
        traffic_quota_gb = 0;
      }

      module _ (index : pick_idx m.db d.idx ≡ Pool.ok idx)
          (address : container_ip cfg.subnet idx ≡ Ports.ok ip)
          (port : alloc_ssh_port (used_ssh_ports m.db) d.ports ≡ Pool.ok ssh_port) where
        inserted-Good :
            (s : S)
            → has_row (clashes row) m.db.users ≡ false
            → get_user_by_name m.db name ≡ Db.err no_rows
            → Good (add_rules h cfg m name opt (Db.ok (row, inserted m.db row)) s)
        unfolding cleanup
        inserted-Good s n free =
            let back = rows_back m.db row opt.traffic_gb refl valid in
            let db2 = with_quota (inserted m.db row) row.id opt.traffic_gb in
            let finish : S → Outcome User × State S =
              λ s2. (ok row, record m { db = db2; sys = s2 }) in
            let take_back : S → Outcome User × State S =
              give_up h cfg m name (some row.id) db2 call_failed in
            let done : IsAdded m.db db2 name opt d row = record {
              was_free = free;
              is_there = stored m.db row opt.traffic_gb refl refl n valid;
              index = index;
              port = port;
              ports = refl;
              address = address;
              quotas = (refl, refl, refl);
            } in
            on_success-Good
              (if cfg.v4_forward
                then write_user h cfg.nft_dir cfg.public_ip name (dotted ip) ssh_port
                    (start_port idx) ports_per_user s
                else (true, s))
              (λ s1. on_success (h.nft_reload s1) finish take_back) take_back
              (λ s1. on_success-Good (h.nft_reload s1) finish take_back (λ s2. done) (λ s2. back))
              (λ s1. back)

        add_rules-Good :
            (s : S) (r : DbResult (User × Db))
            → create_user m.db name d.hash ip idx ssh_port
                (start_port idx)
                opt.cpu
                opt.mem_mb
                opt.disk_gb
                d.now
              ≡ r
            → Good (add_rules h cfg m name opt r s)
        unfolding create_user
        add_rules-Good s (Db.err e) q = give_up-Good (db_error e) s
        add_rules-Good s (Db.ok (u, db1)) q =
            let k = insert_user-inserted m.db db1 row u q in
            subst (λ x. Good (add_rules h cfg m name opt (Db.ok x) s)) (λ i. (k.0 i, k.1 i))
              (inserted-Good s k.2
                (create_user-found m.db db1 name d.hash ip idx ssh_port (start_port idx) opt.cpu
                  opt.mem_mb opt.disk_gb d.now u q).0)

        add_launch-Good :
            (image : Text) (s : S) → Good (add_launch h cfg m name opt d idx ip ssh_port image s)
        add_launch-Good image s =
            let create =
              create_user m.db name d.hash ip idx ssh_port (start_port idx) opt.cpu opt.mem_mb
                opt.disk_gb d.now in
            let bad : S → Outcome User × State S = give_up h cfg m name none m.db call_failed in
            let fine = give_up-Good call_failed in
            let rules : S → Outcome User × State S = add_rules h cfg m name opt create in
            let configure : S → Outcome User × State S =
              λ s3. on_success (h.configure_ipv6 name s3) rules bad in
            let wire : S → Outcome User × State S =
              λ s2. on_success (h.wire_ipv6 name s2) configure bad in
            let provision : S → Outcome User × State S = λ s1.
              on_success (h.exec_sh name (provision_script d.host image d.pass) s1) wire bad in
            on_success-Good
              (launch h cfg.pool cfg.bridge name image (dotted ip) d.ipv6 d.block opt.cpu opt.mem_mb
                opt.disk_gb s)
              provision (λ s1. (err call_failed, record m { sys = s1 }))
              (λ s1.
                on_success-Good (h.exec_sh name (provision_script d.host image d.pass) s1) wire bad
                  (λ s2.
                    on_success-Good (h.wire_ipv6 name s2) configure bad
                      (λ s3.
                        on_success-Good (h.configure_ipv6 name s3) rules bad
                          (λ s4. add_rules-Good s4 create refl) fine)
                      fine)
                  fine)
              (λ s1. SameRows-refl m.db)

        add_conflict-Good :
            (image : Text) (r : Option (Map Text) × S)
            → Good (add_conflict h cfg m name opt d idx ip ssh_port image r)
        add_conflict-Good image (none, s) = SameRows-refl m.db
        add_conflict-Good image (some ips, s) =
            unless-Good (lxd_conflict name (dotted ip) ips) conflict s
              (add_launch h cfg m name opt d idx ip ssh_port image s) (add_launch-Good image s)

    module _ (valid : IsValid m.db) where
      add_port-Good :
          (idx : ℕ) (image : Text) (s : S) (ip : Ipv4) (r : PoolResult)
          → pick_idx m.db d.idx ≡ Pool.ok idx
          → container_ip cfg.subnet idx ≡ Ports.ok ip
          → alloc_ssh_port (used_ssh_ports m.db) d.ports ≡ r
          → Good (add_port h cfg m name opt d idx image s ip r)
      add_port-Good idx image s ip (Pool.err e) a b c = SameRows-refl m.db
      add_port-Good idx image s ip (Pool.ok p) a b c =
          unless-Good
            (block_collides d.block_of d.gateway (map (λ u. u.name) (list_users m.db)) name)
            conflict s (add_conflict h cfg m name opt d idx ip p image (h.instance_static_ips s))
            (add_conflict-Good valid idx ip p a b c image (h.instance_static_ips s))

      add_ip-Good :
          (idx : ℕ) (image : Text × S) (r : IpResult)
          → pick_idx m.db d.idx ≡ Pool.ok idx
          → container_ip cfg.subnet idx ≡ r
          → Good (add_ip h cfg m name opt d idx image r)
      add_ip-Good idx (image, s) (Ports.err e) a b = SameRows-refl m.db
      add_ip-Good idx (image, s) (Ports.ok ip) a b =
          add_port-Good idx image s ip (alloc_ssh_port (used_ssh_ports m.db) d.ports) a b refl

      add_idx-Good :
          (r : PoolResult) → pick_idx m.db d.idx ≡ r → Good (add_idx h cfg m name opt d r)
      add_idx-Good (Pool.err e) a = SameRows-refl m.db
      add_idx-Good (Pool.ok idx) a =
          on_success-Good (h.pool_has_room m.sys)
            (λ s. add_ip h cfg m name opt d idx (image_name h cfg s) (container_ip cfg.subnet idx))
            (λ s. (err pool_full, record m { sys = s }))
            (λ s. add_ip-Good idx (image_name h cfg s) (container_ip cfg.subnet idx) a refl)
            (λ s. SameRows-refl m.db)

      add_new-Good : (r : DbResult User) → Good (add_new h cfg m name opt d r)
      add_new-Good (Db.ok u) = SameRows-refl m.db
      add_new-Good (Db.err e) = add_idx-Good (pick_idx m.db d.idx) refl

      add_checked-Good : (r : CpuResult (Unit {0})) → Good (add_checked h cfg m name opt d r)
      add_checked-Good (Cpu.err e) = SameRows-refl m.db
      add_checked-Good (Cpu.ok _) = elim (Bool-cases (ltb opt.mem_mb 64)) [
        | inl e ↦ rw e (SameRows-refl m.db)
        | inr e ↦ elim (Bool-cases (ltb opt.disk_gb 1)) [
          | inl f ↦ rw (e, f) (SameRows-refl m.db)
          | inr f ↦ rw (e, f) (add_new-Good (get_user_by_name m.db name))
        ]
      ]

      -- In a valid database, an Add that fails, at whatever call of the host, leaves every row of
      -- users, domains, sessions and traffic as it was. An Add that succeeds has stored one row under
      -- a name that was free, with the quotas that were asked for, and with the index, the SSH port,
      -- the port block and the address that the pools and the scheme give.
      pub add-Settled : Settled m.db name opt d (add h cfg m name opt d)
      unfolding add
      add-Settled = elim (Bool-cases (not (validate_name name))) [
        | inl e ↦ rw e (SameRows-refl m.db)
        | inr e ↦ rw e (add_checked-Good (validate_cpu opt.cpu))
      ]
