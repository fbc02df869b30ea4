-- ===== src/Panels/AdminPanel/Routes.antt =====
-- The routes of the admin panel, and what every request passes before them
-- (src/internal/admin/admin.go: Handler, requireAuth, requirePost).
use lxc_hosting.Base.{
  Bool, true, false, not, ◌&&◌, [], ◌∷◌, ◌++◌, if◌then◌else◌, Text, text_eq, codes, Option, none,
  some, Map, get,
}
use lxc_hosting.Web.AdminSessions.{SessionStore, valid}
use lxc_hosting.Web.Requests.{allowed, strip_prefix}
use lxc_hosting.Panels.{
  HttpRequest, Fresh, Site, nothing, Answer, bare, found_at, featureless404, with_cookie,
  no_session_cookie, value_of, with_lang,
}
use lxc_hosting.Panels.UserPanel.Routes.{is_post}
use lxc_hosting.Panels.AdminPanel.{
  AdminState, Handler, cookie_name, lang_cookie_name, prefix, lang, redirect, handle_login,
  handle_logout, handle_flash, handle_overview, handle_admin_pass,
}
use lxc_hosting.Panels.AdminPanel.Accounts.{
  handle_user_add, handle_user_del, handle_user_quota, handle_power, handle_reset_panel_pass,
}
use lxc_hosting.Panels.AdminPanel.Sites.{
  handle_domains, handle_domain_del, handle_domain_update, handle_audit, handle_audit_api,
}

-- the session of a cookie, and the store without it if it has expired
abbrev pub session_of : SessionStore → Option Text → Fresh → Bool × SessionStore
session_of s none x = (false, s)
session_of s (some token) x = valid s token x.now

module _ {S : Type 0} (site : Site S) where
  abbrev pub with_session :
      Handler S → HttpRequest → Fresh → AdminState S → Bool × SessionStore → Answer × AdminState S
  with_session next r x p (true, sessions) = next r x (record p { sessions = sessions })
  with_session next r x p (false, sessions) =
      let (a, q) =
        redirect site r x (record p { sessions = sessions }) (prefix site ++ codes "/login") [] in
      (with_cookie (no_session_cookie cookie_name (prefix site)) a, q)

  unfoldable pub require_auth : Handler S → Handler S
  require_auth next r x p =
      with_session next r x p (session_of p.sessions (get cookie_name r.cookies) x)

  abbrev pub require_post : Handler S → Handler S
  require_post next r x p = if is_post r then next r x p else (featureless404, p)

  abbrev pub all_routes : Map (Handler S)
  all_routes =
      (codes "/logout", require_post (handle_logout site))
      ∷ (codes "/domains", handle_domains site)
      ∷ (codes "/domain-del", require_post (handle_domain_del site))
      ∷ (codes "/domain-update", require_post (handle_domain_update site))
      ∷ (codes "/audit", handle_audit site)
      ∷ (codes "/audit/api", handle_audit_api site)
      ∷ (codes "/user-add", require_post (handle_user_add site))
      ∷ (codes "/user-del", require_post (handle_user_del site))
      ∷ (codes "/user-quota", require_post (handle_user_quota site))
      ∷ (codes "/power", require_post (handle_power site))
      ∷ (codes "/reset-panel-pass", require_post (handle_reset_panel_pass site))
      ∷ (codes "/admin-pass", require_post (handle_admin_pass site))
      ∷ (codes "/flash", require_post (handle_flash site))
      ∷ []

  -- "/" takes every path that has no route.
  abbrev pub behind_auth : Option (Handler S) → Handler S
  behind_auth none = handle_overview site
  behind_auth (some next) = next

  unfoldable pub routed : Text → Handler S
  unfolding require_auth
  routed path r x p =
      if text_eq path (codes "/login")
      then handle_login site r x p
      else require_auth (behind_auth (get path all_routes)) r x p

  abbrev pub mux : Text → HttpRequest → Fresh → AdminState S → Option Text → Answer × AdminState S
  mux path r x p (some location) = (record (found_at location) { status = 301 }, p)
  mux path r x p none = routed path r x p

  abbrev pub under_prefix : HttpRequest → Fresh → AdminState S → Option Text → Answer × AdminState S
  under_prefix r x p none = (featureless404, p)
  under_prefix r x p (some rest) =
      if is_post r && not (allowed r.head)
      then (bare 403 nothing, p)
      else with_lang lang_cookie_name (prefix site) (lang site r)
          (value_of (get (codes "lang") r.query)) (mux rest r x p (site.moved r.head.method rest))

  -- Handler
  unfoldable pub handler : Handler S
  unfolding routed
  handler r x p = under_prefix r x p (strip_prefix r.path (prefix site))
