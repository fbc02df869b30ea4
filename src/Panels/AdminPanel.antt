-- ===== src/Panels/AdminPanel.antt =====
-- The admin panel (src/internal/admin/handlers.go, admin.go): its state, its redirects, the login,
-- the password and the dashboard.
pub mod Accounts
pub mod Sites
pub mod Routes
pub mod Gate
pub mod Units
use lxc_hosting.Base.{
  ℕ, ◌*◌, ◌/◌, Bool, true, false, not, ◌&&◌, List, [], ◌∷◌, ◌++◌, ltb, if◌then◌else◌, Text, text_eq,
  codes, Option, none, some, Map, get, length,
}
use lxc_hosting.Std.Strings.{byte_length}
use lxc_hosting.Address.Ports.{max_users}
use lxc_hosting.Db.{User, Db}
use lxc_hosting.Std.Time.{day_seconds}
use lxc_hosting.Db.Settings.{get_setting, set_setting}
use lxc_hosting.Db.Audit.{add_audit_log}
use lxc_hosting.Web.AdminSessions.{SessionStore, create, delete, clear_except}
use lxc_hosting.Web.Limiter.{LoginLimiter, prune, allowed}
use lxc_hosting.Web.Flash.{FlashEntry, pop_flash}
use lxc_hosting.Mgr.{State, MgrError, Outcome, ok, err}
use lxc_hosting.Mgr.Sampling.{UserStatus, batch_users}
use lxc_hosting.Panels.{
  HttpRequest, Fresh, Site, Body, message, login_page, banner, dashboard, Answer, bare, found_at,
  with_cookie, form_value, client_ip, flash_for, session_cookie, no_session_cookie, value_of,
  with_form, error_text,
}
use lxc_hosting.Panels.Lang.{request_lang, admin_catalog, tr}

-- Server, without what is read only
pub record AdminState (S : Type 0) : Type 0 where
  pub mgr : State S
  pub sessions : SessionStore
  pub limiter : LoginLimiter
  pub flash : Map FlashEntry

abbrev pub cookie_name : Text
cookie_name = codes "vpsmgr_admin_session"

abbrev pub lang_cookie_name : Text
lang_cookie_name = codes "vpsmgr_admin_lang"

abbrev pub setting_admin_pass_hash : Text
setting_admin_pass_hash = codes "admin_pass_hash"

abbrev pub Handler : Type 0 → Type 0
Handler S = HttpRequest → Fresh → AdminState S → Answer × AdminState S

-- How full the host is, in percent: at least 2 as soon as there is a user.
unfoldable pub capacity_pct : ℕ → ℕ
capacity_pct users =
    let pct = users * 100 / max_users in if ltb 0 users && ltb pct 2 then 2 else pct

module _ {S : Type 0} (site : Site S) where
  abbrev pub prefix : Text
  prefix = b'/' ∷ site.admin_path

  abbrev pub lang : HttpRequest → Text
  lang r =
      request_lang site.lower_other (value_of (get (codes "lang") r.query))
        (get lang_cookie_name r.cookies) r.accept_language

  -- t
  abbrev pub say : HttpRequest → Text → List Text → Text
  say r key args = tr site.sprintf admin_catalog (lang r) key args

  -- `redirect` with a toast, `redirectModal` with a modal
  abbrev pub redirect_as :
      Text → HttpRequest → Fresh → AdminState S → Text → Text → Answer × AdminState S
  redirect_as kind r x p path msg = (
    found_at path,
    record p { flash = flash_for p.flash (get cookie_name r.cookies) msg kind x.now },
  )

  abbrev pub redirect : HttpRequest → Fresh → AdminState S → Text → Text → Answer × AdminState S
  redirect = redirect_as (codes "toast")

  abbrev pub redirect_modal :
      HttpRequest → Fresh → AdminState S → Text → Text → Answer × AdminState S
  redirect_modal = redirect_as (codes "modal")

  abbrev pub home : HttpRequest → Fresh → AdminState S → Text → Answer × AdminState S
  home r x p msg = redirect r x p prefix msg

  abbrev pub failed_with :
      HttpRequest → Fresh → AdminState S → MgrError → State S → Answer × AdminState S
  failed_with r x p e m = home r x (record p { mgr = m }) (error_text (site.describe e))

  -- an entry of the audit log for an action of the admin on a user
  abbrev pub logged : State S → Text → Text → Text → State S
  logged m name action stamp = record m {
    db = add_audit_log m.db (codes "000+" ++ name) action stamp;
  }

  -- currentAdminHash; the empty text is no password yet.
  unfoldable pub current_admin_hash : Db → Text
  current_admin_hash db = value_of (get_setting db setting_admin_pass_hash)

  -- handleLogin
  abbrev pub login_as : HttpRequest → Fresh → AdminState S → Text → Text → Answer × AdminState S
  login_as r x p pass [] = (bare 200 (login_page (say r (codes "err_not_configured") [])), p)
  login_as r x p pass (c ∷ hash) =
      if not (site.verify (c ∷ hash) pass)
      then (bare 200 (login_page (say r (codes "err_bad_login") [])), p)
      else (let (a, q) =
            redirect r x (record p { sessions = create p.sessions site.session_days x.token x.now })
              prefix [] in
          (
            with_cookie
                (session_cookie cookie_name prefix (site.session_days * day_seconds) x.token) a,
            q,
          ))

  abbrev pub login_form :
      HttpRequest → Fresh → AdminState S → Option (List (Text × Text)) → Answer × AdminState S
  login_form r x p form =
      with_form form p
        λ pairs. login_as r x p (form_value pairs (codes "password")) (current_admin_hash p.mgr.db)

  abbrev pub login_allowed : HttpRequest → Fresh → AdminState S → Bool → Answer × AdminState S
  login_allowed r x p false = (bare 429 (login_page (say r (codes "err_too_many") [])), p)
  login_allowed r x p true = login_form r x p r.form

  unfoldable pub handle_login : Handler S
  unfolding current_admin_hash
  handle_login r x p =
      if text_eq r.head.method (codes "POST")
      then (let (passed, limiter) = allowed (prune p.limiter x.now) (client_ip r) x.now in
          login_allowed r x (record p { limiter = limiter }) passed)
      else (bare 200 (login_page []), p)

  abbrev pub without_session : SessionStore → Option Text → SessionStore
  without_session s none = s
  without_session s (some token) = delete s token

  unfoldable pub handle_logout : Handler S
  handle_logout r x p =
      let sessions = without_session p.sessions (get cookie_name r.cookies) in
      let (a, q) = redirect r x (record p { sessions = sessions }) (prefix ++ codes "/login") [] in
      (with_cookie (no_session_cookie cookie_name prefix) a, q)

  abbrev pub flash_of : AdminState S → Option Text → Answer × AdminState S
  flash_of p none = (bare 401 (message []), p)
  flash_of p (some token) =
      let (e, items) = pop_flash p.flash token in
      (
        bare 200 (elim e [ none ↦ banner [] [] | some e' ↦ banner e'.msg e'.kind ]),
        record p { flash = items },
      )

  unfoldable pub handle_flash : Handler S
  handle_flash r x p = flash_of p (get cookie_name r.cookies)

  -- loadUsers
  abbrev pub loaded : Outcome (List UserStatus) × State S → Body × State S
  loaded (err e, m) = (dashboard [] 0 (b' ' ∷ site.describe e), m)
  loaded (ok us, m) = (dashboard us (capacity_pct (length us)) [], m)

  -- The dashboard; it takes a sample of the traffic.
  unfoldable pub handle_overview : Handler S
  unfolding capacity_pct
  handle_overview r x p =
      let (body, m) = loaded (batch_users site.calls p.mgr x.month) in
      (bare 200 body, record p { mgr = m })

  abbrev pub kept_only : SessionStore → Option Text → SessionStore
  kept_only s none = s
  kept_only s (some token) = clear_except s token

  abbrev with_admin_hash : HttpRequest → Fresh → AdminState S → Option Text → Answer × AdminState S
  with_admin_hash r x p none = home r x p (error_text (site.describe MgrError.bad_password))
  with_admin_hash r x p (some hash) =
      home r x
        (record p {
          mgr = record p.mgr { db = set_setting p.mgr.db setting_admin_pass_hash hash };
          sessions = kept_only p.sessions (get cookie_name r.cookies);
        })
        (say r (codes "admin_pass_changed") [])

  unfoldable pub handle_admin_pass : Handler S
  handle_admin_pass r x p = with_form r.form p λ form.
      let pass = form_value form (codes "new_password") in
      if not (text_eq pass (form_value form (codes "confirm_password")))
      then home r x p (error_text (say r (codes "err_pass_mismatch") []))
      else if ltb (byte_length pass) 14
      then home r x p (error_text (say r (codes "err_pass_short") []))
      else with_admin_hash r x p (site.hash pass)
