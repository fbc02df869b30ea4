-- ===== src/Mgr/Tests.antt =====
-- The manager on the host of the examples, with one user.
use lxc_hosting.Base.{
  ℕ, false, ◌≡◌, ◌∙◌, refl, sym, true, [], ◌∷◌, codes, text_eq, none, some, All, has_row,
  first_where, get, put, sort_by,
}
use lxc_hosting.Std.Strconv.{itoa, emit}
use lxc_hosting.Std.Int64.{int_lt}
use lxc_hosting.Quota.Cpu.{validate_cpu, cpu_limit_config}
use lxc_hosting.Quota.Throttle.{should_throttle}
use lxc_hosting.Db.{User, Db, empty_db}
use lxc_hosting.Db.Users.{create_user, insert_user, get_user_by_name, list_users}
use lxc_hosting.Db.Counters.{get_traffic}
use lxc_hosting.Db.Keeps.Steps.{Reach, here, next, users_insert, Reach-IsValid}
use lxc_hosting.Host.{Instance}
use lxc_hosting.Host.Lx.{set_cpu, set_mem, set_disk, nic_rate_limit, rate_of, ensure_nic_rate_limit}
use lxc_hosting.Mgr.{State, Config, ok, err, call_failed}
use lxc_hosting.Mgr.Domains.{bind, v4_forward_live}
use lxc_hosting.Db.Settings.{get_setting}
use lxc_hosting.Names.{normalize_domain}
use lxc_hosting.Db.Domains.{domain_exists, add_domain}
use lxc_hosting.Host.Files.{write_domain}
use lxc_hosting.Mgr.Domains.Undone.{bind-undone}
use lxc_hosting.Address.Ports.{v4}
use lxc_hosting.Host.{Calls}
use lxc_hosting.Mgr.Fake.{Lxd, fake, view, fake-IsLawful, fake-heard}
use lxc_hosting.Mgr.Accounts.{Draws, AddOptions, add, del}
use lxc_hosting.Mgr.Accounts.Gone.{Deleted, del-Deleted}
use lxc_hosting.Mgr.Accounts.Undone.{Settled, add-Settled}
use lxc_hosting.Mgr.Quotas.{update_quotas_live, apply_quotas}
use lxc_hosting.Mgr.Quotas.Agree.{Agrees, Rows, update_quotas_live-Agrees}
use lxc_hosting.Mgr.Limits.{is_throttled, over_quota, enforce_traffic_limits, is_in}

abbrev alice : User
alice = record {
  id = 1;
  name = codes "alice";
  pass_hash = codes "hash";
  idx = 1;
  ip = record { a = 10; b = 0; c = 100; d = 2 };
  ssh_port = 30001;
  start_port = 10000;
  init_script = [];
  cpu = 10;
  mem_mb = 512;
  disk_gb = 5;
  created_at = codes "now";
  traffic_quota_gb = 0;
}

abbrev db : Db
db = record empty_db { users = alice ∷ []; next_user = 2 }

db-Reach : Reach empty_db db
unfolding create_user insert_user has_row
db-Reach = next here (
    users_insert (codes "alice") (codes "hash") alice.ip 1 30001 10000 10 512 5 (codes "now") alice
      refl)

abbrev container : Instance
container = record {
  status = codes "Running";
  config = (codes "limits.cpu", codes "1") ∷ (codes "limits.memory", codes "512MiB") ∷ [];
  devices =
      (codes "eth0", (codes "name", codes "eth0") ∷ [])
      ∷ (codes "root", (codes "size", codes "5GiB") ∷ [])
      ∷ [];
}

abbrev state : State Lxd
state = record { db = db; sys = (codes "alice", container) ∷ []; throttled = none }

state-Agrees : All (Agrees fake view fake-IsLawful state.sys) state.db.users
unfolding get text_eq itoa emit cpu_limit_config
state-Agrees = (refl, tt)

quotas_test : (update_quotas_live fake state (codes "alice") 20 1024 10).0 ≡ ok tt
unfolding update_quotas_live apply_quotas get_user_by_name first_where text_eq validate_cpu int_lt
    set_cpu get set_mem put set_disk
quotas_test = refl

update_quotas_live-Agrees_example :
    Rows fake view fake-IsLawful db
      (get_user_by_name db (codes "alice"))
      20
      1024
      10
      (update_quotas_live fake state (codes "alice") 20 1024 10).0
      (update_quotas_live fake state (codes "alice") 20 1024 10).1.db
    × All
        (Agrees fake view fake-IsLawful
          (update_quotas_live fake state (codes "alice") 20 1024 10).1.sys)
        (update_quotas_live fake state (codes "alice") 20 1024 10).1.db.users
update_quotas_live-Agrees_example =
    update_quotas_live-Agrees fake view fake-IsLawful state (codes "alice") 20 1024 10
      (Reach-IsValid db-Reach) state-Agrees (λ e. absurd (cc (sym quotas_test ∙ e)))
      (fake-heard (update_quotas_live fake state (codes "alice") 20 1024 10).1.sys)

-- one GiB a month, of which alice has received two
abbrev busy_db : Db
busy_db = (record db {
  users = record alice { traffic_quota_gb = 1 } ∷ [];
  traffic =
      (record {
        user_id = 1;
        period = codes "2026-01";
        upload = 0;
        download = 2147483648;
        last_rx = 2147483648;
        last_tx = 0;
      })
      ∷ [];
})

abbrev busy : State Lxd
busy = record state { db = busy_db }

abbrev after : State Lxd
after = (enforce_traffic_limits fake busy).1

limits_test : enforce_traffic_limits fake busy ≡ (ok tt, after)
unfolding enforce_traffic_limits list_users sort_by over_quota should_throttle get_traffic
    first_where is_in has_row nic_rate_limit get text_eq rate_of ensure_nic_rate_limit
limits_test = refl

throttled_test : is_throttled after (codes "alice") ≡ true
unfolding enforce_traffic_limits list_users is_throttled sort_by over_quota should_throttle
    get_traffic first_where has_row nic_rate_limit get text_eq rate_of ensure_nic_rate_limit
throttled_test = refl

-- the host on which no file can be written
abbrev broken : Calls Lxd
broken = record fake { write_file = λ n t s. (false, s) }

abbrev cfg : Config
cfg = record {
  pool = codes "vpsmgr";
  bridge = codes "lxdbr0";
  image = codes "vpsmgr/debian-sshd";
  image_fallback = codes "images:debian/13";
  subnet = v4 10 0 100 0 24;
  v4_forward = true;
  public_ip = codes "192.0.2.1";
  traefik_dir = codes "/etc/traefik/dynamic";
  nft_dir = codes "/etc/vpsmgr/nftables.d";
}

abbrev same : ℕ → ℕ
same c = c

bind_test :
    (bind broken cfg same state (codes "alice") (codes "example.com") true (codes "now")).0
    ≡ err call_failed
unfolding bind v4_forward_live get_setting first_where get_user_by_name text_eq normalize_domain
    domain_exists has_row add_domain write_domain
bind_test = refl

bind-undone_example :
    (bind broken cfg same state
      (codes "alice")
      (codes "example.com")
      true
      (codes "now")).1.db.domains
    ≡ []
bind-undone_example =
    bind-undone broken cfg same state (codes "alice") (codes "example.com") true (codes "now")
      call_failed bind_test

abbrev draws : Draws
draws = record {
  idx = none;
  ports = λ i. some 7;
  hash = codes "hash";
  pass = codes "pass";
  host = codes "host";
  ipv6 = [];
  block = [];
  block_of = λ n. none;
  gateway = none;
  now = codes "now";
}

abbrev options : AddOptions
options = record { cpu = 10; mem_mb = 512; disk_gb = 5; traffic_gb = 100 }

-- the host on which the rules cannot be loaded
abbrev no_reload : Calls Lxd
no_reload = record fake { nft_reload = λ s. (false, s) }

add-Settled_example :
    Settled no_reload cfg db
      (codes "bob")
      options
      draws
      (add no_reload cfg state (codes "bob") options draws)
add-Settled_example =
    add-Settled no_reload cfg state (codes "bob") options draws (Reach-IsValid db-Reach)

del-Deleted_example : Deleted fake cfg state (codes "alice") (del fake cfg state (codes "alice"))
del-Deleted_example = del-Deleted fake cfg state (codes "alice") (Reach-IsValid db-Reach)
