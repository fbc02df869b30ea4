-- ===== src/Panels/Tests.antt =====
-- The panels on the host of the examples: one user with a session and a domain, and an admin with a
-- session.
use lxc_hosting.Base.{
  ◌≡◌, ◌⊎◌, ◌*◌, ◌+◌, refl, true, false, [], ◌∷◌, Text, text_eq, codes, none, some, get, has_row,
  first_where, arith,
}
use lxc_hosting.Address.Ports.{v4}
use lxc_hosting.Std.Time.{days_later}
use lxc_hosting.Std.Int64.{int_lt}
use lxc_hosting.Db.{User, Domain, Session, Db, empty_db}
use lxc_hosting.Db.Users.{create_user, insert_user, get_user_by_id}
use lxc_hosting.Db.Domains.{add_domain}
use lxc_hosting.Db.Sessions.{create_session, session_user}
use lxc_hosting.Db.Keeps.Steps.{
  Reach, here, next, users_insert, domains_insert, sessions_insert, Reach-IsValid,
}
use lxc_hosting.Db.Others.{SameOthers}
use lxc_hosting.Names.{normalize_domain}
use lxc_hosting.Web.AdminSessions.{new_session_store}
use lxc_hosting.Web.Limiter.{new_login_limiter}
use lxc_hosting.Mgr.{Config}
use lxc_hosting.Mgr.Fake.{Lxd, fake}
use lxc_hosting.Panels.{HttpRequest, Fresh, Site}
use lxc_hosting.Panels.UserPanel.Routes.{handler}
use lxc_hosting.Panels.UserPanel.Isolation.{handler-isolated}
use lxc_hosting.Panels.AdminPanel.Sites.{handle_domain_del}
use lxc_hosting.Panels.AdminPanel.Sites.Unlogged.{domain_del-unlogged}
use lxc_hosting.Panels.AdminPanel.Units.{Fits, unit_of, unit_of-Fits}
use lxc_hosting.Panels.Serve.{Serving, dispatch, user_part, admin_part}
use lxc_hosting.Panels.Serve.Gate.{Untouched, Cleared, dispatch-Cleared}

abbrev now : Text
now = codes "2026-01-01"

abbrev alice : User
alice = record {
  id = 1;
  name = codes "alice";
  pass_hash = codes "hash";
  idx = 1;
  ip = record { a = 10; b = 0; c = 100; d = 2 };
  ssh_port = 30001;
  start_port = 10000;
  init_script = [];
  cpu = 10;
  mem_mb = 512;
  disk_gb = 5;
  created_at = now;
  traffic_quota_gb = 0;
}

abbrev domain : Domain
domain = record {
  id = 1;
  user_id = 1;
  domain = codes "example.com";
  proxy_protocol = false;
  created_at = now;
  updated_at = now;
}

abbrev session : Session
session = record { token = codes "t0"; user_id = 1; expires_at = 1000 + 7 * 86400 }

abbrev db : Db
db = (record empty_db {
  users = alice ∷ [];
  next_user = 2;
  domains = domain ∷ [];
  next_domain = 2;
  sessions = session ∷ [];
})

db-Reach : Reach empty_db db
unfolding create_user insert_user add_domain create_session has_row text_eq days_later
db-Reach =
    next
      (next
        (next here (
          users_insert (codes "alice") (codes "hash") alice.ip 1 30001 10000 10 512 5 now alice
            refl))
        (domains_insert 1 (codes "example.com") false now domain refl))
      (sessions_insert 1 7 (codes "t0") 1000 session refl)

abbrev cfg : Config
cfg = record {
  pool = codes "vpsmgr";
  bridge = codes "lxdbr0";
  image = codes "vpsmgr/debian-sshd";
  image_fallback = codes "images:debian/13";
  subnet = v4 10 0 100 0 24;
  v4_forward = true;
  public_ip = codes "192.0.2.1";
  traefik_dir = codes "/etc/traefik/dynamic";
  nft_dir = codes "/etc/vpsmgr/nftables.d";
}

abbrev site : Site Lxd
site = record {
  calls = fake;
  cfg = cfg;
  url_path = codes "Ab1_cdEf-9x";
  admin_path = codes "Xy-9ab_cdEf";
  session_days = 3;
  display_ip = codes "192.0.2.1";
  lower_other = λ c. c;
  sprintf = λ t args. t;
  describe = λ e. codes "failed";
  format_gb = λ n. [];
  panel_url = λ p. p;
  ipv6 = λ n. [];
  ipv6_block = λ n. [];
  verify = λ h p. text_eq h p;
  hash = λ p. some p;
  managed_images = λ s. ([], s);
  moved = λ m p. none;
}

-- a POST of alice that stores a script
abbrev request : HttpRequest
request = record {
  head = record {
    method = codes "POST";
    sec_fetch_site = codes "same-origin";
    origin = [];
    host = [];
  };
  path = codes "/Ab1_cdEf-9x/init-script";
  cookies = (codes "vpsmgr_session", codes "t0") ∷ [];
  query = [];
  accept_language = [];
  form = some ((codes "script", codes "true") ∷ []);
  remote_addr = codes "192.0.2.7:4711";
  host_of_addr = some (codes "192.0.2.7");
}

abbrev fresh : Fresh
fresh = record {
  now = 2000;
  stamp = now;
  month = codes "2026-01";
  token = codes "t1";
  password = codes "secret";
  draws = record {
    idx = none;
    ports = λ n. none;
    hash = [];
    pass = codes "secret";
    host = codes "vps-00000000";
    ipv6 = [];
    block = [];
    block_of = λ n. none;
    gateway = none;
    now = now;
  };
}

abbrev serving : Serving Lxd
serving = record {
  mgr = record { db = db; sys = []; throttled = none };
  user_limiter = new_login_limiter;
  user_flash = [];
  admin_sessions = record (new_session_store 2048) { sessions = (codes "a0", 5000) ∷ [] };
  admin_limiter = new_login_limiter;
  admin_flash = [];
}

dispatch-Cleared_example :
    Untouched db (dispatch site request fresh serving).1.mgr.db ⊎ Cleared site request fresh serving
dispatch-Cleared_example = dispatch-Cleared site request fresh serving

handler-isolated_example : SameOthers 1 db (handler site request fresh (user_part serving)).1.mgr.db
unfolding get session_user first_where get_user_by_id text_eq int_lt
handler-isolated_example =
    handler-isolated site request fresh (user_part serving) (codes "t0") alice
      (Reach-IsValid db-Reach) refl refl

-- a deletion by the admin
abbrev deletion : HttpRequest
deletion = record request { form = some ((codes "domain", codes "example.com") ∷ []) }

domain_del-unlogged_example :
    (handle_domain_del site deletion fresh (admin_part serving)).1.mgr.db.audit_log ≡ []
unfolding normalize_domain
domain_del-unlogged_example =
    domain_del-unlogged site deletion fresh (admin_part serving) (tt, tt) (refl, tt)

unit_of-Fits_example : Fits 5000000 (unit_of 5000000)
unit_of-Fits_example = unit_of-Fits 5000000 (omega arith) (omega arith)
