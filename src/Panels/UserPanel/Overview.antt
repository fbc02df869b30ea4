-- ===== src/Panels/UserPanel/Overview.antt =====
-- The user's page (src/internal/panel/panel.go, buildData; handlers.go, handleOverview).
use lxc_hosting.Base.{ℕ, ◌+◌, [], ◌∷◌, ◌++◌, ltb, if◌then◌else◌, Text, codes, Option, none, some}
use lxc_hosting.Std.Strconv.{itoa}
use lxc_hosting.Std.Int64.{wrap}
use lxc_hosting.Quota.Cpu.{format_cpu}
use lxc_hosting.Quota.Throttle.{traffic_pct}
use lxc_hosting.Address.Ports.{user_ports, user_ports_short, ports_per_user}
use lxc_hosting.Db.{User}
use lxc_hosting.Db.Domains.{list_domains}
use lxc_hosting.Db.Counters.{get_traffic}
use lxc_hosting.Host.{Lookup, found, not_found, unreachable}
use lxc_hosting.Host.Files.{concat}
use lxc_hosting.Mgr.{State, call_failed}
use lxc_hosting.Mgr.Domains.{dotted, v4_forward_live}
use lxc_hosting.Mgr.Limits.{is_throttled}
use lxc_hosting.Mgr.Sampling.{up_down}
use lxc_hosting.Panels.{Site, Limited, Body, user_page, aborted, bare}
use lxc_hosting.Panels.UserPanel.{Handler}

module _ {S : Type 0} (site : Site S) where
  -- buildData: the state of the container, and the error of that call
  abbrev pub container_state : User → Lookup × S → Text × Text × Text × S
  container_state u (found it, s) = elim it.status [
    | [] ↦ ([], [], [], s)
    | c ∷ st ↦ (c ∷ st, dotted u.ip, [], s)
  ]
  container_state u (not_found, s) = ([], [], site.describe call_failed, s)
  container_state u (unreachable, s) = ([], [], site.describe call_failed, s)

  abbrev pub limited_by : State S → User → ℕ → Option ℕ → Option (Option Limited)
  limited_by m u used none = none
  limited_by m u used (some pct) = some (
      some (record {
        quota_gb = u.traffic_quota_gb;
        used = site.format_gb used;
        pct = pct;
        throttled = is_throttled m u.name;
      }))

  -- `none` is the panic of a division by zero.
  abbrev pub limited_of : State S → User → ℕ → Option (Option Limited)
  limited_of m u used =
      if ltb 0 u.traffic_quota_gb
      then limited_by m u used (traffic_pct used u.traffic_quota_gb)
      else some none

  abbrev pub page_of :
      State S → User → ℕ × ℕ → Text × Text × Text × S → Option (Option Limited) → Body × S
  page_of m u (up, down) (st, ip, e, s) none = (aborted, s)
  page_of m u (up, down) (st, ip, e, s) (some limited) = (
    user_page (record {
      user = u;
      state = st;
      ip = ip;
      shown_error = e;
      ports = user_ports u.start_port ports_per_user;
      ports_short = user_ports_short u.start_port;
      ssh = concat (codes "ssh -p " ∷ itoa u.ssh_port ∷ codes " root@" ∷ site.display_ip ∷ []);
      v4_forward = v4_forward_live site.cfg m.db;
      quota_cpu = format_cpu u.cpu;
      quota_mem = itoa u.mem_mb ++ codes " MiB";
      quota_disk = itoa u.disk_gb ++ codes " GiB";
      up = site.format_gb up;
      down = site.format_gb down;
      ipv6 = site.ipv6 u.name;
      ipv6_block = site.ipv6_block u.name;
      limited = limited;
      domains = list_domains m.db u.id;
    }),
    s,
  )

  unfoldable pub build_data : State S → User → Body × S
  build_data m u =
      let amounts = up_down (get_traffic m.db u.id) in
      page_of m u amounts (container_state u (site.calls.get_instance u.name m.sys))
        (limited_of m u (wrap (amounts.0 + amounts.1)))

  unfoldable pub handle_overview : Handler S
  unfolding build_data
  handle_overview r x u p =
      let (body, s) = build_data p.mgr u in
      (bare 200 body, record p { mgr = record p.mgr { sys = s } })
