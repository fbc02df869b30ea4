-- ===== src/Panels/UserPanel/Login.antt =====
-- Signing in and out of the user panel, and its banners (src/internal/panel/handlers.go: handleLogin,
-- handleLogout, handleFlash).
use lxc_hosting.Base.{
  ◌*◌, Bool, true, false, List, [], ◌++◌, if◌then◌else◌, Text, text_eq, codes, Option, none, some,
  get,
}
use lxc_hosting.Db.{User, Domain, Session, Traffic, Db, DbResult}
use lxc_hosting.Db
use lxc_hosting.Db.Users.{get_user_by_name}
use lxc_hosting.Std.Time.{day_seconds}
use lxc_hosting.Db.Sessions.{create_session, delete_session}
use lxc_hosting.Web.Limiter.{prune, allowed}
use lxc_hosting.Web.Flash.{pop_flash}
use lxc_hosting.Mgr.{State}
use lxc_hosting.Panels.{
  HttpRequest, Fresh, Site, message, login_page, banner, Answer, bare, with_cookie, form_value,
  client_ip, session_cookie, no_session_cookie, with_form,
}
use lxc_hosting.Panels.UserPanel.{PanelState, cookie_name, Handler, prefix, say, redirect}

module _ {S : Type 0} (site : Site S) where
  abbrev pub handle_flash : HttpRequest → PanelState S → Option Text → Answer × PanelState S
  handle_flash r p none = (bare 401 (message []), p)
  handle_flash r p (some token) =
      let (e, items) = pop_flash p.flash token in
      (
        bare 200 (elim e [ none ↦ banner [] [] | some e' ↦ banner e'.msg e'.kind ]),
        record p { flash = items },
      )

  -- handleLogin: the form of a GET, and an attempt by POST
  abbrev pub login_session :
      HttpRequest → Fresh → PanelState S → DbResult (Session × Db) → Answer × PanelState S
  login_session r x p (Db.err e) =
      (bare 200 (login_page (say site r (codes "err_bad_login") [])), p)
  login_session r x p (Db.ok (sess, db)) =
      let (a, q) =
        redirect site r x (record p { mgr = record p.mgr { db = db } }) (prefix site) [] in
      (
        with_cookie
            (session_cookie cookie_name (prefix site) (site.session_days * day_seconds) sess.token)
            a,
        q,
      )

  abbrev pub login_checked :
      HttpRequest → Fresh → PanelState S → Text → DbResult User → Answer × PanelState S
  login_checked r x p pass (Db.err e) =
      (bare 200 (login_page (say site r (codes "err_bad_login") [])), p)
  login_checked r x p pass (Db.ok u) =
      if site.verify u.pass_hash pass
      then login_session r x p (create_session p.mgr.db u.id site.session_days x.token x.now)
      else (bare 200 (login_page (say site r (codes "err_bad_login") [])), p)

  abbrev pub login_form :
      HttpRequest → Fresh → PanelState S → Option (List (Text × Text)) → Answer × PanelState S
  login_form r x p form = with_form form p λ pairs.
      login_checked r x p (form_value pairs (codes "password"))
        (get_user_by_name p.mgr.db (form_value pairs (codes "username")))

  abbrev pub login_allowed : HttpRequest → Fresh → PanelState S → Bool → Answer × PanelState S
  login_allowed r x p false = (bare 429 (login_page (say site r (codes "err_too_many") [])), p)
  login_allowed r x p true = login_form r x p r.form

  unfoldable pub handle_login : HttpRequest → Fresh → PanelState S → Answer × PanelState S
  handle_login r x p =
      if text_eq r.head.method (codes "POST")
      then (let (passed, limiter) = allowed (prune p.limiter x.now) (client_ip r) x.now in
          login_allowed r x (record p { limiter = limiter }) passed)
      else (bare 200 (login_page []), p)

  abbrev pub without_session : State S → Option Text → State S
  without_session m none = m
  without_session m (some token) = record m { db = delete_session m.db token }

  unfoldable pub handle_logout : Handler S
  handle_logout r x u p =
      let m = without_session p.mgr (get cookie_name r.cookies) in
      let (a, q) = redirect site r x (record p { mgr = m }) (prefix site ++ codes "/login") [] in
      (with_cookie (no_session_cookie cookie_name (prefix site)) a, q)
