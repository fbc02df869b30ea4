-- ===== src/Panels/UserPanel/Isolation.antt =====
-- What a request of one user does to the rows of the others (src/internal/panel/panel.go, Handler).
pub mod Live
pub mod Handlers
use lxc_hosting.Base.{
  ℕ, ◌≡◌, ◌≢◌, refl, ap, sym, subst, ◌∙◌, Bool, true, false, not, ◌&&◌, ltb, List, [], ◌∷◌, ◌==◌,
  ◌⊎◌, if◌then◌else◌, Text, text_eq, text_eq_iff, text_eq_refl, codes, Option, none, some, Map, get,
  All, Unique, first_where, All-first_where, Bool-cases, inl, inr, arith,
}
use lxc_hosting.Std.Strings.{byte_length}
use lxc_hosting.Db.{User, Domain, Session, Db, DbResult}
use lxc_hosting.Db
use lxc_hosting.Db.Users.{get_user_by_name, get_user_by_id, or_no_rows, or_no_rows-ok}
use lxc_hosting.Db.Sessions.{session_user, check_expiry, delete_session}
use lxc_hosting.Db.Domains.{list_domains}
use lxc_hosting.Db.Audit.{add_audit_log}
use lxc_hosting.Db.Valid.{IsValid}
use lxc_hosting.Db.Others.{others, SameOthers, SameOthers_refl, SameOthers_trans}
use lxc_hosting.Mgr.{State, MgrError, Outcome, Done, ok, err}
use lxc_hosting.Mgr.Quotas.{power, set_init_script}
use lxc_hosting.Mgr.Domains.{bind, unbind, set_protocol}
use lxc_hosting.Mgr.Limits.{is_in}
use lxc_hosting.Mgr.Accounts.{reinstall}
use lxc_hosting.Mgr.Passwords.{change_panel_password, reset_root_password}
use lxc_hosting.Mgr.Others.{
  power-db, reset_root-db, reinstall-db, change_password-others, set_init_script-others,
  bind-others, unbind-others,
}
use lxc_hosting.Mgr.Others.Flags.{Ready, Kept, Kept-refl, Kept-trans, set_protocol-Kept}
use lxc_hosting.Panels.{
  HttpRequest, Fresh, Site, Answer, with_form, form_value, form_values, value_of,
}
use lxc_hosting.Panels.UserPanel.Routes.{flash_handler}
use lxc_hosting.Panels.UserPanel.{
  PanelState, Handler, cookie_name, differs, after_power, after_reinstall, after_change,
  after_root_reset, after_domain, after_protocols, set_protocols, handle_power, handle_reinstall,
  handle_panel_password, handle_root_reset, handle_domain_add, handle_domain_del,
  handle_domain_update, handle_init_script, handle_images,
}
use lxc_hosting.Panels.UserPanel.Login.{handle_logout, without_session, handle_flash}
use lxc_hosting.Panels.UserPanel.Overview.{handle_overview}
use lxc_hosting.Panels.{with_lang, bare, nothing}
use lxc_hosting.Web.Requests.{allowed, strip_prefix}
use lxc_hosting.Panels.UserPanel.{prefix, lang, lang_cookie_name}
use lxc_hosting.Panels.UserPanel.Login.{handle_login}
use lxc_hosting.Panels.UserPanel.Routes.{
  with_user, require_auth, is_post, require_post, post_routes, behind_auth, routed, mux,
  under_prefix, handler,
}
use lxc_hosting.Panels.UserPanel.Gate.{SameTables, handle_login-Kept}
use lxc_hosting.Panels.UserPanel.Isolation.Live.{session_user-Ready}
use lxc_hosting.Panels.UserPanel.Isolation.Handlers.{
  Same, Isolated, same_db, handle_power-Isolated, handle_reinstall-Isolated,
  handle_root_reset-Isolated, handle_domain_add-Isolated, handle_domain_del-Isolated,
  handle_init_script-Isolated, handle_images-Isolated, handle_overview-Isolated,
  handle_logout-Isolated, flash_handler-Isolated, handle_panel_password-Isolated,
  handle_domain_update-Isolated,
}

SameTables-others : (uid : ℕ) {a b : Db} → SameTables a b → SameOthers uid a b
SameTables-others uid {a} {b} h = record {
  same_users = ap (others (λ (u : User). u.id) uid) h.same_users;
  same_domains = ap (others (λ (d : Domain). d.user_id) uid) h.same_domains;
  same_traffic = h.same_traffic;
}

module _ {S : Type 0} (site : Site S) where
  abbrev AllIsolated : Map (Handler S) → Type 0
  AllIsolated = All (λ (e : Text × Handler S). Isolated site e.1)

  post_routes-Isolated : AllIsolated (post_routes site)
  post_routes-Isolated = (
    handle_logout-Isolated site,
    (
      handle_power-Isolated site,
      (
        handle_reinstall-Isolated site,
        (
          handle_panel_password-Isolated site,
          (
            handle_root_reset-Isolated site,
            (
              handle_domain_add-Isolated site,
              (
                handle_domain_del-Isolated site,
                (
                  handle_domain_update-Isolated site,
                  (
                    handle_init_script-Isolated site,
                    (handle_images-Isolated site, (flash_handler-Isolated site, tt)),
                  ),
                ),
              ),
            ),
          ),
        ),
      ),
    ),
  )

  require_post-Isolated :
      (next : Handler S) → Isolated site next → Isolated site (require_post site next)
  require_post-Isolated next h r x u p k = elim (Bool-cases (is_post r)) [
    | inl e ↦ rw e (h r x u p k)
    | inr e ↦ rw e (SameOthers_refl u.id p.mgr.db)
  ]

  behind_auth-Isolated :
      (path : Text) (routes : Map (Handler S))
      → AllIsolated routes
      → Isolated site (behind_auth site (get path routes))
  unfolding get
  behind_auth-Isolated path [] h = handle_overview-Isolated site
  behind_auth-Isolated path ((name, next) ∷ routes) h = elim (Bool-cases (text_eq name path)) [
    | inl e ↦ rw e (require_post-Isolated next h.0)
    | inr e ↦ rw e (behind_auth-Isolated path routes h.1)
  ]

  with_user-Same :
      (r : HttpRequest) (x : Fresh) (p : PanelState S) (next : Handler S) (token : Text) (u : User)
      → IsValid p.mgr.db
      → Isolated site next
      → (found : DbResult User × Db) → session_user p.mgr.db token x.now ≡ found
      → found.0 ≡ Db.ok u
      → Same site u.id p (with_user site r x p next found)
  with_user-Same r x p next token u v k (Db.err e, db) q f = absurd (cc f)
  with_user-Same r x p next token u v k (Db.ok w, db) q f =
      let is_u : w ≡ u = ground (arith, f) in
      let s = session_user-Ready p.mgr.db db token x.now w v q in
      subst (λ (n : ℕ). Same site n p (with_user site r x p next (Db.ok w, db)))
        (ap (λ (y : User). y.id) is_u)
        (SameOthers_trans (same_db w.id (sym s.0))
          (k r x w (record p { mgr = record p.mgr { db = db } }) (subst (Ready w) s.0 s.1)))

  routed-Same :
      (path : Text) (r : HttpRequest) (x : Fresh) (p : PanelState S) (token : Text) (u : User)
      → IsValid p.mgr.db
      → get cookie_name r.cookies ≡ some token
      → (session_user p.mgr.db token x.now).0 ≡ Db.ok u
      → Same site u.id p (routed site path r x p)
  unfolding routed require_auth
  routed-Same path r x p token u v c f = elim (Bool-cases (text_eq path (codes "/login"))) [
    | inl e ↦ rw e (SameTables-others u.id (handle_login-Kept site r x p))
    | inr e ↦
        rw (e, c)
          (with_user-Same r x p (behind_auth site (get path (post_routes site))) token u v
            (behind_auth-Isolated path (post_routes site) post_routes-Isolated)
            (session_user p.mgr.db token x.now) refl f)
  ]

  mux-Same :
      (path : Text) (r : HttpRequest) (x : Fresh) (p : PanelState S) (token : Text) (u : User)
      → IsValid p.mgr.db
      → get cookie_name r.cookies ≡ some token
      → (session_user p.mgr.db token x.now).0 ≡ Db.ok u
      → (moved : Option Text) → Same site u.id p (mux site path r x p moved)
  mux-Same path r x p token u v c f none = routed-Same path r x p token u v c f
  mux-Same path r x p token u v c f (some location) = SameOthers_refl u.id p.mgr.db

  with_lang-Same :
      (uid : ℕ) (p : PanelState S) (name path l query : Text) (q : Answer × PanelState S)
      → Same site uid p q
      → Same site uid p (with_lang name path l query q)
  with_lang-Same uid p name path l query (a, q) h = h

  under_prefix-Same :
      (r : HttpRequest) (x : Fresh) (p : PanelState S) (token : Text) (u : User)
      → IsValid p.mgr.db
      → get cookie_name r.cookies ≡ some token
      → (session_user p.mgr.db token x.now).0 ≡ Db.ok u
      → (rest : Option Text) → Same site u.id p (under_prefix site r x p rest)
  under_prefix-Same r x p token u v c f none = SameOthers_refl u.id p.mgr.db
  under_prefix-Same r x p token u v c f (some rest) =
      elim (Bool-cases (is_post r && not (allowed r.head))) [
        | inl e ↦ rw e (SameOthers_refl u.id p.mgr.db)
        | inr e ↦ rw e (
            with_lang-Same u.id p lang_cookie_name (prefix site) (lang site r)
              (value_of (get (codes "lang") r.query))
              (mux site rest r x p (site.moved r.head.method rest))
              (mux-Same rest r x p token u v c f (site.moved r.head.method rest)))
      ]

  -- In a valid database, a request with the session of a user leaves the rows of all other users
  -- and of their domains as they were, and all traffic, whatever the path and the form.
  pub handler-isolated :
      (r : HttpRequest) (x : Fresh) (p : PanelState S) (token : Text) (u : User)
      → IsValid p.mgr.db
      → get cookie_name r.cookies ≡ some token
      → (session_user p.mgr.db token x.now).0 ≡ Db.ok u
      → SameOthers u.id p.mgr.db (handler site r x p).1.mgr.db
  unfolding handler
  handler-isolated r x p token u v c f =
      under_prefix-Same r x p token u v c f (strip_prefix r.path (prefix site))
