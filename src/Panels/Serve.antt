-- ===== src/Panels/Serve.antt =====
-- `vps serve` (src/main.go: cmdServe with its dispatcher, blockUnadoptable, panelPath, pathUnder,
-- sampleTrafficLoop): both panels behind one listener, over one manager.
pub mod Gate
use lxc_hosting.Base.{
  Bool, true, false, not, ◌&&◌, ◌||◌, List, [], ◌∷◌, ◌++◌, if◌then◌else◌, Text, text_eq, codes,
  Option, none, some, Map,
}
use lxc_hosting.Version.{blocked}
use lxc_hosting.Config.{Panel, PathResult, validate_paths, is_set}
use lxc_hosting.Config
use lxc_hosting.Config.Registry.{File}
use lxc_hosting.Web.AdminSessions.{SessionStore}
use lxc_hosting.Web.Limiter.{LoginLimiter}
use lxc_hosting.Web.Flash.{FlashEntry}
use lxc_hosting.Web.Requests.{cut_prefix}
use lxc_hosting.Host.{Calls}
use lxc_hosting.Mgr.{State}
use lxc_hosting.Mgr.Limits.{enforce_traffic_limits}
use lxc_hosting.Mgr.Sampling.{sample_traffic}
use lxc_hosting.Panels.{HttpRequest, Fresh, Site, Answer, featureless404}
use lxc_hosting.Panels.UserPanel.{PanelState}
use lxc_hosting.Panels.UserPanel.Routes
use lxc_hosting.Panels.AdminPanel.{AdminState}
use lxc_hosting.Panels.AdminPanel.Routes as AdminRoutes

-- the manager, and what each panel keeps in memory
pub record Serving (S : Type 0) : Type 0 where
  pub mgr : State S
  pub user_limiter : LoginLimiter
  pub user_flash : Map FlashEntry
  pub admin_sessions : SessionStore
  pub admin_limiter : LoginLimiter
  pub admin_flash : Map FlashEntry

-- panelPath
abbrev pub panel_path : Text → Text
panel_path [] = []
panel_path (c ∷ url_path) = b'/' ∷ c ∷ url_path

abbrev slash_next : Option Text → Bool
slash_next none = false
slash_next (some rest) = true

-- pathUnder
unfoldable pub path_under : Text → Text → Bool
path_under path [] = false
path_under path (c ∷ prefix) =
    if text_eq (c ∷ prefix) (codes "/")
    then false
    else if text_eq path (c ∷ prefix)
    then true
    else slash_next (cut_prefix ((c ∷ prefix) ++ codes "/") path)

abbrev pub user_part : {S : Type 0} → Serving S → PanelState S
user_part v = record { mgr = v.mgr; limiter = v.user_limiter; flash = v.user_flash }

abbrev pub admin_part : {S : Type 0} → Serving S → AdminState S
admin_part v = record {
  mgr = v.mgr;
  sessions = v.admin_sessions;
  limiter = v.admin_limiter;
  flash = v.admin_flash;
}

abbrev pub with_user_part : {S : Type 0} → Serving S → Answer × PanelState S → Answer × Serving S
with_user_part v (a, p) =
    (a, record v { mgr = p.mgr; user_limiter = p.limiter; user_flash = p.flash })

abbrev pub with_admin_part : {S : Type 0} → Serving S → Answer × AdminState S → Answer × Serving S
with_admin_part v (a, p) = (
  a,
  record v {
    mgr = p.mgr;
    admin_sessions = p.sessions;
    admin_limiter = p.limiter;
    admin_flash = p.flash;
  },
)

module _ {S : Type 0} (site : Site S) where
  -- The user panel is asked first; a panel with no path is not there.
  unfoldable pub dispatch : HttpRequest → Fresh → Serving S → Answer × Serving S
  unfolding path_under
  dispatch r x v =
      if path_under r.path (panel_path site.url_path)
      then with_user_part v (Routes.handler site r x (user_part v))
      else if is_set site.admin_path && path_under r.path (b'/' ∷ site.admin_path)
      then with_admin_part v (AdminRoutes.handler site r x (admin_part v))
      else (featureless404, v)

-- One round of sampleTrafficLoop; the errors are only logged.
unfoldable pub sample_round : {S : Type 0} → Calls S → State S → Text → State S
sample_round h m month = (enforce_traffic_limits h (sample_traffic h m month).1).1

abbrev origin_of : File → Text
origin_of c = if is_set c.installed_version then c.installed_version else c.uninstalled_version

-- blockUnadoptable, for a binary of a version
unfoldable pub unadoptable : Text → File → Bool
unadoptable version c = if text_eq (origin_of c) version then false else blocked (origin_of c)

pub data Start : Type 0 where
  too_old bad_paths disabled listening : Start

abbrev when_valid : Panel → PathResult → Start
when_valid p (Config.err e) = bad_paths
when_valid p Config.ok =
    if not (is_set p.url_path) && not (is_set p.admin_path) then disabled else listening

-- what cmdServe decides before it listens
unfoldable pub start : Text → File → Start
unfolding unadoptable
start version c =
    let p : Panel = record {
      url_path = c.url_path;
      admin_path = c.admin_path;
      public_ip = c.public_ip;
      display_ip = c.display_ip;
    } in
    if unadoptable version c then too_old else when_valid p (validate_paths p)
