-- ===== src/Panels/UserPanel/Routes.antt =====
-- The routes of the user panel, and what every request passes before them
-- (src/internal/panel/panel.go, Handler; src/internal/panel/handlers.go, requireAuth, requirePost).
use lxc_hosting.Base.{
  Bool, not, ◌&&◌, [], ◌∷◌, ◌++◌, if◌then◌else◌, Text, text_eq, codes, Option, none, some, Map, get,
}
use lxc_hosting.Db.{User, Db, DbResult}
use lxc_hosting.Db
use lxc_hosting.Db.Sessions.{session_user}
use lxc_hosting.Web.Requests.{allowed, strip_prefix}
use lxc_hosting.Panels.{
  HttpRequest, Fresh, Site, nothing, Answer, bare, found_at, featureless404, with_cookie,
  no_session_cookie, value_of, with_lang,
}
use lxc_hosting.Panels.UserPanel.{
  PanelState, cookie_name, lang_cookie_name, Handler, prefix, lang, redirect, handle_power,
  handle_reinstall, handle_panel_password, handle_root_reset, handle_domain_add, handle_domain_del,
  handle_domain_update, handle_init_script, handle_images,
}
use lxc_hosting.Panels.UserPanel.Login.{handle_flash, handle_login, handle_logout}
use lxc_hosting.Panels.UserPanel.Overview.{handle_overview}

abbrev pub is_post : HttpRequest → Bool
is_post r = text_eq r.head.method (codes "POST")

module _ {S : Type 0} (site : Site S) where
  -- a session that is not there, or has expired
  abbrev pub with_user :
      HttpRequest → Fresh → PanelState S → Handler S → DbResult User × Db → Answer × PanelState S
  with_user r x p next (Db.err e, db) =
      let (a, q) =
        redirect site r x (record p { mgr = record p.mgr { db = db } })
          (prefix site ++ codes "/login") [] in
      (with_cookie (no_session_cookie cookie_name (prefix site)) a, q)
  with_user r x p next (Db.ok u, db) = next r x u (record p { mgr = record p.mgr { db = db } })

  abbrev pub with_token :
      HttpRequest → Fresh → PanelState S → Handler S → Option Text → Answer × PanelState S
  with_token r x p next none = redirect site r x p (prefix site ++ codes "/login") []
  with_token r x p next (some token) = with_user r x p next (session_user p.mgr.db token x.now)

  unfoldable pub require_auth :
      Handler S → HttpRequest → Fresh → PanelState S → Answer × PanelState S
  require_auth next r x p = with_token r x p next (get cookie_name r.cookies)

  abbrev pub require_post : Handler S → Handler S
  require_post next r x u p = if is_post r then next r x u p else (featureless404, p)

  abbrev pub flash_handler : Handler S
  flash_handler r x u p = handle_flash site r p (get cookie_name r.cookies)

  -- the routes behind requireAuth(requirePost(...))
  abbrev pub post_routes : Map (Handler S)
  post_routes =
      (codes "/logout", handle_logout site)
      ∷ (codes "/power", handle_power site)
      ∷ (codes "/reinstall", handle_reinstall site)
      ∷ (codes "/password", handle_panel_password site)
      ∷ (codes "/root-reset", handle_root_reset site)
      ∷ (codes "/domain-add", handle_domain_add site)
      ∷ (codes "/domain-del", handle_domain_del site)
      ∷ (codes "/domain-update", handle_domain_update site)
      ∷ (codes "/init-script", handle_init_script site)
      ∷ (codes "/images", handle_images site)
      ∷ (codes "/flash", flash_handler)
      ∷ []

  -- "/" takes every path that has no route.
  abbrev pub behind_auth : Option (Handler S) → Handler S
  behind_auth none = handle_overview site
  behind_auth (some next) = require_post next

  unfoldable pub routed : Text → HttpRequest → Fresh → PanelState S → Answer × PanelState S
  unfolding require_auth
  routed path r x p =
      if text_eq path (codes "/login")
      then handle_login site r x p
      else require_auth (behind_auth (get path post_routes)) r x p

  -- mux.ServeHTTP
  abbrev pub mux : Text → HttpRequest → Fresh → PanelState S → Option Text → Answer × PanelState S
  mux path r x p (some location) = (record (found_at location) { status = 301 }, p)
  mux path r x p none = routed path r x p

  -- behind the prefix: the CSRF test, the language, the mux
  abbrev pub under_prefix : HttpRequest → Fresh → PanelState S → Option Text → Answer × PanelState S
  under_prefix r x p none = (featureless404, p)
  under_prefix r x p (some rest) =
      if is_post r && not (allowed r.head)
      then (bare 403 nothing, p)
      else with_lang lang_cookie_name (prefix site) (lang site r)
          (value_of (get (codes "lang") r.query)) (mux rest r x p (site.moved r.head.method rest))

  -- Handler
  unfoldable pub handler : HttpRequest → Fresh → PanelState S → Answer × PanelState S
  unfolding routed
  handler r x p = under_prefix r x p (strip_prefix r.path (prefix site))
