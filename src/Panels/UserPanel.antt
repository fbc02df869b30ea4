-- ===== src/Panels/UserPanel.antt =====
-- The handlers of the user panel that act on the user of the request's session
-- (src/internal/panel/handlers.go, panel.go).
pub mod Login
pub mod Overview
pub mod Routes
pub mod Gate
pub mod Isolation
use lxc_hosting.Base.{
  ℕ, ◌+◌, ◌*◌, Bool, true, false, not, List, [], ◌∷◌, ◌++◌, ltb, ◌==◌, if◌then◌else◌, Text, text_eq,
  codes, Option, none, some, Map, get,
}
use lxc_hosting.Std.Strconv.{itoa}
use lxc_hosting.Std.Strings.{byte_length}
use lxc_hosting.Std.Int64.{wrap}
use lxc_hosting.Quota.Cpu.{format_cpu}
use lxc_hosting.Quota.Throttle.{traffic_pct}
use lxc_hosting.Address.Ports.{user_ports, user_ports_short, ports_per_user}
use lxc_hosting.Db.{User, Domain, Session, Traffic, Db, DbResult}
use lxc_hosting.Db
use lxc_hosting.Db.Users.{get_user_by_name}
use lxc_hosting.Db.Domains.{list_domains}
use lxc_hosting.Std.Time.{day_seconds}
use lxc_hosting.Db.Sessions.{create_session, delete_session}
use lxc_hosting.Db.Counters.{get_traffic}
use lxc_hosting.Db.Audit.{add_audit_log}
use lxc_hosting.Web.Limiter.{LoginLimiter, prune, allowed}
use lxc_hosting.Web.Flash.{FlashEntry, pop_flash}
use lxc_hosting.Host.{Lookup, found, not_found, unreachable}
use lxc_hosting.Host.Files.{concat}
use lxc_hosting.Mgr.{State, MgrError, Outcome, Done, ok, err, call_failed}
use lxc_hosting.Mgr.Quotas.{power, set_init_script}
use lxc_hosting.Mgr.Domains.{bind, unbind, set_protocol, dotted, v4_forward_live}
use lxc_hosting.Mgr.Limits.{is_in, is_throttled}
use lxc_hosting.Mgr.Accounts.{reinstall}
use lxc_hosting.Mgr.Sampling.{up_down}
use lxc_hosting.Mgr.Passwords.{change_panel_password, reset_root_password}
use lxc_hosting.Panels.{
  HttpRequest, Fresh, Site, Cookie, Limited, UserPage, Body, message, login_page, user_page, banner,
  images, aborted, Answer, bare, found_at, with_cookie, form_value, form_values, client_ip,
  flash_for, session_cookie, no_session_cookie, value_of, with_form, error_text,
}
use lxc_hosting.Panels.Lang.{request_lang, panel_catalog, tr}

-- Server, without what is read only
pub record PanelState (S : Type 0) : Type 0 where
  pub mgr : State S
  pub limiter : LoginLimiter
  pub flash : Map FlashEntry

abbrev pub cookie_name : Text
cookie_name = codes "vpsmgr_session"

abbrev pub lang_cookie_name : Text
lang_cookie_name = codes "vpsmgr_lang"

abbrev pub Handler : Type 0 → Type 0
Handler S = HttpRequest → Fresh → User → PanelState S → Answer × PanelState S

abbrev pub differs : Bool → Bool → Bool
differs true flag = not flag
differs false flag = flag

module _ {S : Type 0} (site : Site S) where
  abbrev pub prefix : Text
  prefix = b'/' ∷ site.url_path

  abbrev pub lang : HttpRequest → Text
  lang r =
      request_lang site.lower_other (value_of (get (codes "lang") r.query))
        (get lang_cookie_name r.cookies) r.accept_language

  -- t
  abbrev pub say : HttpRequest → Text → List Text → Text
  say r key args = tr site.sprintf panel_catalog (lang r) key args

  -- `redirect` with a toast, `redirectModal` with a modal
  abbrev pub redirect_as :
      Text → HttpRequest → Fresh → PanelState S → Text → Text → Answer × PanelState S
  redirect_as kind r x p path msg = (
    found_at path,
    record p { flash = flash_for p.flash (get cookie_name r.cookies) msg kind x.now },
  )

  abbrev pub redirect : HttpRequest → Fresh → PanelState S → Text → Text → Answer × PanelState S
  redirect = redirect_as (codes "toast")

  abbrev pub redirect_modal :
      HttpRequest → Fresh → PanelState S → Text → Text → Answer × PanelState S
  redirect_modal = redirect_as (codes "modal")

  -- a redirect to the overview with what an operation of the manager says
  abbrev pub home : HttpRequest → Fresh → PanelState S → Text → Answer × PanelState S
  home r x p msg = redirect r x p prefix msg

  abbrev pub failed_with :
      HttpRequest → Fresh → PanelState S → MgrError → State S → Answer × PanelState S
  failed_with r x p e m = home r x (record p { mgr = m }) (error_text (site.describe e))

  -- a success that is written to the audit log
  abbrev pub logged : State S → Text → Text → Text → State S
  logged m actor action stamp = record m { db = add_audit_log m.db actor action stamp }

  abbrev pub after_power :
      HttpRequest → Fresh → User → PanelState S → Text → Done × State S → Answer × PanelState S
  after_power r x u p action (err e, m) = failed_with r x p e m
  after_power r x u p action (ok _, m) =
      home r x (record p { mgr = logged m u.name (codes "power." ++ action) x.stamp })
        (codes "ok: " ++ action)

  unfoldable pub handle_power : Handler S
  handle_power r x u p = with_form r.form p λ form.
      let action = form_value form (codes "action") in
      after_power r x u p action (power site.calls p.mgr u.name action)

  abbrev pub after_reinstall :
      HttpRequest → Fresh → User → PanelState S → Done × State S → Answer × PanelState S
  after_reinstall r x u p (err e, m) = failed_with r x p e m
  after_reinstall r x u p (ok _, m) =
      redirect_modal r x (record p { mgr = logged m u.name (codes "reinstall") x.stamp }) prefix
        (say r (codes "reinstall_done") (x.draws.pass ∷ []))

  unfoldable pub handle_reinstall : Handler S
  handle_reinstall r x u p = with_form r.form p λ form.
      if text_eq (form_value form (codes "confirm")) (codes "1")
      then after_reinstall r x u p
          (reinstall site.calls site.cfg p.mgr u.name (form_value form (codes "image")) x.draws)
      else home r x p (codes "error: please confirm reinstall")

  -- an operation that says a fixed text on success
  abbrev pub after_change :
      HttpRequest → Fresh → PanelState S → Text → Done × State S → Answer × PanelState S
  after_change r x p msg (err e, m) = failed_with r x p e m
  after_change r x p msg (ok _, m) = home r x (record p { mgr = m }) msg

  -- the two tests of the form, and the change, which keeps the session of the request
  abbrev pub password_form :
      HttpRequest → Fresh → User → PanelState S → Text → Text → Answer × PanelState S
  password_form r x u p pass confirm =
      if not (text_eq pass confirm)
      then home r x p (error_text (say r (codes "err_pass_mismatch") []))
      else if ltb (byte_length pass) 14
      then home r x p (codes "error: panel password must be at least 14 characters")
      else after_change r x p (codes "ok: panel password changed")
          (change_panel_password site.hash p.mgr u.name pass (value_of (get cookie_name r.cookies)))

  unfoldable pub handle_panel_password : Handler S
  handle_panel_password r x u p = with_form r.form p λ form.
      password_form r x u p (form_value form (codes "new_password"))
        (form_value form (codes "confirm_password"))

  abbrev pub after_root_reset :
      HttpRequest → Fresh → User → PanelState S → Done × State S → Answer × PanelState S
  after_root_reset r x u p (err e, m) = failed_with r x p e m
  after_root_reset r x u p (ok _, m) =
      redirect_modal r x (record p { mgr = logged m u.name (codes "reset_root_password") x.stamp })
        prefix (say r (codes "new_root_password") (x.draws.pass ∷ []))

  unfoldable pub handle_root_reset : Handler S
  handle_root_reset r x u p =
      after_root_reset r x u p
        (reset_root_password site.calls site.cfg p.mgr u.name x.draws.host x.draws.pass)

  -- an operation on a domain, which is logged
  abbrev pub after_domain :
      HttpRequest → Fresh → User → PanelState S → Text → Done × State S → Answer × PanelState S
  after_domain r x u p msg (err e, m) = failed_with r x p e m
  after_domain r x u p msg (ok _, m) =
      home r x (record p { mgr = logged m u.name (codes "domain_update") x.stamp }) msg

  unfoldable pub handle_domain_add : Handler S
  handle_domain_add r x u p = with_form r.form p λ form.
      after_domain r x u p (codes "ok: domain added") (
        bind site.calls site.cfg site.lower_other p.mgr u.name (form_value form (codes "domain"))
          (text_eq (form_value form (codes "proxy_protocol")) (codes "1")) x.stamp)

  unfoldable pub handle_domain_del : Handler S
  handle_domain_del r x u p = with_form r.form p λ form.
      after_domain r x u p (codes "ok: domain removed") (
        unbind site.calls site.cfg site.lower_other p.mgr u.name (form_value form (codes "domain"))
          x.stamp)

  -- one round: it stops at an error
  abbrev pub continued :
      ℕ → Done × State S → (State S → Option MgrError × ℕ × State S) → Option MgrError × ℕ × State S
  continued changed (err e, m) rest = (some e, changed, m)
  continued changed (ok _, m) rest = rest m

  -- The loop of handleDomainUpdate, with the count of the changes.
  unfoldable pub set_protocols :
      Text → Text → List Text → List Domain → ℕ → State S → Option MgrError × ℕ × State S
  set_protocols name stamp checked [] changed m = (none, changed, m)
  set_protocols name stamp checked (d ∷ ds) changed m =
      let change = differs (is_in checked d.domain) d.proxy_protocol in
      let r : Done × State S =
        (if change
          then set_protocol site.calls site.cfg site.lower_other m name d.domain
              (is_in checked d.domain) stamp
          else (ok tt, m)) in
      continued changed r
        (set_protocols name stamp checked ds (if change then changed + 1 else changed))

  abbrev pub after_protocols :
      HttpRequest
      → Fresh
      → User
      → PanelState S
      → Option MgrError × ℕ × State S
      → Answer × PanelState S
  after_protocols r x u p (some e, changed, m) = failed_with r x p e m
  after_protocols r x u p (none, changed, m) =
      if changed == 0
      then home r x (record p { mgr = m }) (codes "ok: no changes")
      else home r x (record p { mgr = logged m u.name (codes "domain_update") x.stamp })
          (codes "ok: domain settings saved")

  unfoldable pub handle_domain_update : Handler S
  unfolding set_protocols
  handle_domain_update r x u p = with_form r.form p λ form. after_protocols r x u p (
      set_protocols u.name x.stamp (form_values form (codes "proto")) (list_domains p.mgr.db u.id) 0
        p.mgr)

  unfoldable pub handle_init_script : Handler S
  handle_init_script r x u p = with_form r.form p λ form.
      after_change r x p (codes "ok: init script saved")
        (set_init_script site.calls p.mgr u.name (form_value form (codes "script")))

  unfoldable pub handle_images : Handler S
  handle_images r x u p =
      let (names, s) = site.managed_images p.mgr.sys in
      (bare 200 (images names site.cfg.image), record p { mgr = record p.mgr { sys = s } })
