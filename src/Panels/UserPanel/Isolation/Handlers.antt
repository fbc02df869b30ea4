-- ===== src/Panels/UserPanel/Isolation/Handlers.antt =====
-- Each handler of the user panel and the rows of the other users (src/internal/panel/handlers.go).
use lxc_hosting.Base.{
  ℕ, ◌+◌, ◌≡◌, refl, sym, subst, not, ltb, List, [], ◌∷◌, ◌==◌, Text, text_eq, codes, Option, none,
  some, get, Bool-cases, inl, inr,
}
use lxc_hosting.Std.Strings.{byte_length}
use lxc_hosting.Db.{User, Domain, Db}
use lxc_hosting.Db.Sessions.{delete_session}
use lxc_hosting.Db.Domains.{list_domains}
use lxc_hosting.Db.Audit.{add_audit_log}
use lxc_hosting.Db.Others.{SameOthers, SameOthers_refl, SameOthers_trans}
use lxc_hosting.Mgr.{State, MgrError, Done, ok, err}
use lxc_hosting.Mgr.Domains.{set_protocol}
use lxc_hosting.Mgr.Limits.{is_in}
use lxc_hosting.Mgr.Accounts.{reinstall}
use lxc_hosting.Mgr.Passwords.{change_panel_password}
use lxc_hosting.Mgr.Others.{
  power-db, reset_root-db, reinstall-db, change_password-others, set_init_script-others,
  bind-others, unbind-others,
}
use lxc_hosting.Mgr.Others.Flags.{Ready, Kept, Kept-refl, Kept-trans, set_protocol-Kept}
use lxc_hosting.Panels.{
  HttpRequest, Fresh, Site, Answer, with_form, form_value, form_values, value_of,
}
use lxc_hosting.Panels.UserPanel.Routes.{flash_handler}
use lxc_hosting.Panels.UserPanel.{
  PanelState, Handler, cookie_name, differs, continued, password_form, after_power, after_reinstall,
  after_change, after_root_reset, after_domain, after_protocols, set_protocols, handle_power,
  handle_reinstall, handle_panel_password, handle_root_reset, handle_domain_add, handle_domain_del,
  handle_domain_update, handle_init_script, handle_images,
}
use lxc_hosting.Panels.UserPanel.Login.{handle_logout, without_session, handle_flash}
use lxc_hosting.Panels.UserPanel.Overview.{handle_overview}

audit-others :
    (uid : ℕ) (db : Db) (actor action stamp : Text)
    → SameOthers uid db (add_audit_log db actor action stamp)
unfolding add_audit_log
audit-others uid db actor action stamp = record {
  same_users = refl;
  same_domains = refl;
  same_traffic = refl;
}

delete_session-others :
    (uid : ℕ) (db : Db) (token : Text) → SameOthers uid db (delete_session db token)
unfolding delete_session
delete_session-others uid db token = record {
  same_users = refl;
  same_domains = refl;
  same_traffic = refl;
}

pub same_db : (uid : ℕ) {a b : Db} → b ≡ a → SameOthers uid a b
same_db uid {a} e = subst (SameOthers uid a) (sym e) (SameOthers_refl uid a)

module _ {S : Type 0} (site : Site S) where
  abbrev pub Same : ℕ → PanelState S → Answer × PanelState S → Type 0
  Same uid p q = SameOthers uid p.mgr.db q.1.mgr.db

  -- A handler leaves the rows of others as they are.
  abbrev pub Isolated : Handler S → Type 0
  Isolated next =
      (r : HttpRequest) (x : Fresh) (u : User) (p : PanelState S)
      → Ready u p.mgr.db
      → Same u.id p (next r x u p)

  with_form-Same :
      (uid : ℕ) (p : PanelState S) (form : Option (List (Text × Text)))
      (handle : List (Text × Text) → Answer × PanelState S)
      → ((f : List (Text × Text)) → Same uid p (handle f))
      → Same uid p (with_form form p handle)
  with_form-Same uid p none handle k = SameOthers_refl _ _
  with_form-Same uid p (some form) handle k = k form

  after_power-Same :
      (r : HttpRequest) (x : Fresh) (u : User) (p : PanelState S) (action : Text)
      (out : Done × State S)
      → SameOthers u.id p.mgr.db out.1.db
      → Same u.id p (after_power site r x u p action out)
  after_power-Same r x u p action (err e, m) h = h
  after_power-Same r x u p action (ok _, m) h = SameOthers_trans h (audit-others u.id m.db _ _ _)

  after_reinstall-Same :
      (r : HttpRequest) (x : Fresh) (u : User) (p : PanelState S) (out : Done × State S)
      → SameOthers u.id p.mgr.db out.1.db
      → Same u.id p (after_reinstall site r x u p out)
  after_reinstall-Same r x u p (err e, m) h = h
  after_reinstall-Same r x u p (ok _, m) h = SameOthers_trans h (audit-others u.id m.db _ _ _)

  after_root_reset-Same :
      (r : HttpRequest) (x : Fresh) (u : User) (p : PanelState S) (out : Done × State S)
      → SameOthers u.id p.mgr.db out.1.db
      → Same u.id p (after_root_reset site r x u p out)
  after_root_reset-Same r x u p (err e, m) h = h
  after_root_reset-Same r x u p (ok _, m) h = SameOthers_trans h (audit-others u.id m.db _ _ _)

  after_domain-Same :
      (r : HttpRequest) (x : Fresh) (u : User) (p : PanelState S) (msg : Text)
      (out : Done × State S)
      → SameOthers u.id p.mgr.db out.1.db
      → Same u.id p (after_domain site r x u p msg out)
  after_domain-Same r x u p msg (err e, m) h = h
  after_domain-Same r x u p msg (ok _, m) h = SameOthers_trans h (audit-others u.id m.db _ _ _)

  after_change-Same :
      (uid : ℕ) (r : HttpRequest) (x : Fresh) (p : PanelState S) (msg : Text) (out : Done × State S)
      → SameOthers uid p.mgr.db out.1.db
      → Same uid p (after_change site r x p msg out)
  after_change-Same uid r x p msg (err e, m) h = h
  after_change-Same uid r x p msg (ok _, m) h = h

  pub handle_power-Isolated : Isolated (handle_power site)
  unfolding handle_power
  handle_power-Isolated r x u p k = with_form-Same u.id p r.form _ (λ f.
      after_power-Same r x u p _ _
        (same_db u.id (power-db site.calls site.cfg p.mgr u.name (form_value f (codes "action")))))

  pub handle_reinstall-Isolated : Isolated (handle_reinstall site)
  unfolding handle_reinstall
  handle_reinstall-Isolated r x u p k = with_form-Same u.id p r.form _ (λ f.
      elim (Bool-cases (text_eq (form_value f (codes "confirm")) (codes "1"))) [
        | inl e ↦ rw e (
            after_reinstall-Same r x u p
              (reinstall site.calls site.cfg p.mgr u.name (form_value f (codes "image")) x.draws)
              (same_db u.id (
                reinstall-db site.calls site.cfg p.mgr u.name (form_value f (codes "image"))
                  x.draws)))
        | inr e ↦ rw e (SameOthers_refl u.id p.mgr.db)
      ])

  pub handle_root_reset-Isolated : Isolated (handle_root_reset site)
  unfolding handle_root_reset
  handle_root_reset-Isolated r x u p k =
      after_root_reset-Same r x u p _
        (same_db u.id (reset_root-db site.calls site.cfg p.mgr u.name x.draws.host x.draws.pass))

  pub handle_domain_add-Isolated : Isolated (handle_domain_add site)
  unfolding handle_domain_add
  handle_domain_add-Isolated r x u p k = with_form-Same u.id p r.form _ (λ f.
      after_domain-Same r x u p _ _ (
        bind-others site.calls site.cfg site.lower_other p.mgr u (form_value f (codes "domain"))
          (text_eq (form_value f (codes "proxy_protocol")) (codes "1")) x.stamp k.owns))

  pub handle_domain_del-Isolated : Isolated (handle_domain_del site)
  unfolding handle_domain_del
  handle_domain_del-Isolated r x u p k = with_form-Same u.id p r.form _ (λ f.
      after_domain-Same r x u p _ _ (
        unbind-others site.calls site.cfg site.lower_other p.mgr u (form_value f (codes "domain"))
          x.stamp k.owns))

  pub handle_init_script-Isolated : Isolated (handle_init_script site)
  unfolding handle_init_script
  handle_init_script-Isolated r x u p k = with_form-Same u.id p r.form _ (λ f.
      after_change-Same u.id r x p _ _
        (set_init_script-others site.calls p.mgr u (form_value f (codes "script")) k.owns))

  pub handle_images-Isolated : Isolated (handle_images site)
  unfolding handle_images
  handle_images-Isolated r x u p k = SameOthers_refl _ _

  pub handle_overview-Isolated : Isolated (handle_overview site)
  unfolding handle_overview
  handle_overview-Isolated r x u p k = SameOthers_refl _ _

  logged_out :
      (uid : ℕ) (m : State S) (token : Option Text)
      → SameOthers uid m.db (without_session site m token).db
  logged_out uid m none = SameOthers_refl _ _
  logged_out uid m (some token) = delete_session-others uid m.db token

  pub handle_logout-Isolated : Isolated (handle_logout site)
  unfolding handle_logout
  handle_logout-Isolated r x u p k = logged_out u.id p.mgr (get cookie_name r.cookies)

  flash-Same :
      (uid : ℕ) (r : HttpRequest) (p : PanelState S) (token : Option Text)
      → Same uid p (handle_flash site r p token)
  flash-Same uid r p none = SameOthers_refl _ _
  flash-Same uid r p (some token) = SameOthers_refl _ _

  pub flash_handler-Isolated : Isolated (flash_handler site)
  flash_handler-Isolated r x u p k = flash-Same u.id r p (get cookie_name r.cookies)

  password_form-Same :
      (r : HttpRequest) (x : Fresh) (u : User) (p : PanelState S) (pass confirm : Text)
      → Ready u p.mgr.db
      → Same u.id p (password_form site r x u p pass confirm)
  password_form-Same r x u p pass confirm k = elim (Bool-cases (not (text_eq pass confirm))) [
    | inl e ↦ rw e (SameOthers_refl u.id p.mgr.db)
    | inr e ↦ elim (Bool-cases (ltb (byte_length pass) 14)) [
      | inl f ↦ rw (e, f) (SameOthers_refl u.id p.mgr.db)
      | inr f ↦
          rw (e, f)
            (after_change-Same u.id r x p (codes "ok: panel password changed")
              (change_panel_password site.hash p.mgr u.name pass
                (value_of (get cookie_name r.cookies)))
              (change_password-others site.hash p.mgr u pass (value_of (get cookie_name r.cookies))
                k.owns))
    ]
  ]

  pub handle_panel_password-Isolated : Isolated (handle_panel_password site)
  unfolding handle_panel_password
  handle_panel_password-Isolated r x u p k = with_form-Same u.id p r.form _ (λ f.
      password_form-Same r x u p (form_value f (codes "new_password"))
        (form_value f (codes "confirm_password")) k)

  continued-Kept :
      (u : User) (m : State S) (changed : ℕ) (out : Done × State S)
      (rest : State S → Option MgrError × ℕ × State S)
      → Kept u m.db out.1.db
      → ((m' : State S) → Ready u m'.db → Kept u m'.db (rest m').2.db)
      → Kept u m.db (continued site changed out rest).2.db
  continued-Kept u m changed (err e, m') rest h k = h
  continued-Kept u m changed (ok _, m') rest h k = Kept-trans h (k m' h.ready)

  -- each step of the loop keeps the user ready for the next one
  set_protocols-Kept :
      (u : User) (stamp : Text) (checked : List Text) (ds : List Domain) (changed : ℕ) (m : State S)
      → Ready u m.db
      → Kept u m.db (set_protocols site u.name stamp checked ds changed m).2.db
  unfolding set_protocols
  set_protocols-Kept u stamp checked [] changed m k = Kept-refl u m.db k
  set_protocols-Kept u stamp checked (d ∷ ds) changed m k =
      elim (Bool-cases (differs (is_in checked d.domain) d.proxy_protocol)) [
        | inl e ↦ rw e (
            continued-Kept u m changed
              (set_protocol site.calls site.cfg site.lower_other m u.name d.domain
                (is_in checked d.domain) stamp)
              (set_protocols site u.name stamp checked ds (changed + 1))
              (set_protocol-Kept site.calls site.cfg site.lower_other m u d.domain
                (is_in checked d.domain) stamp k)
              (set_protocols-Kept u stamp checked ds (changed + 1)))
        | inr e ↦ rw e (set_protocols-Kept u stamp checked ds changed m k)
      ]

  after_protocols-Same :
      (r : HttpRequest) (x : Fresh) (u : User) (p : PanelState S)
      (out : Option MgrError × ℕ × State S)
      → SameOthers u.id p.mgr.db out.2.db
      → Same u.id p (after_protocols site r x u p out)
  after_protocols-Same r x u p (some e, changed, m) h = h
  after_protocols-Same r x u p (none, changed, m) h = elim (Bool-cases (changed == 0)) [
    | inl e ↦ rw e h
    | inr e ↦ rw e (SameOthers_trans h (audit-others u.id m.db _ _ _))
  ]

  pub handle_domain_update-Isolated : Isolated (handle_domain_update site)
  unfolding handle_domain_update
  handle_domain_update-Isolated r x u p k =
      with_form-Same u.id p r.form
        (λ f. after_protocols site r x u p (
          set_protocols site u.name x.stamp (form_values f (codes "proto"))
            (list_domains p.mgr.db u.id) 0 p.mgr))
        (λ f.
          after_protocols-Same r x u p
            (set_protocols site u.name x.stamp (form_values f (codes "proto"))
              (list_domains p.mgr.db u.id) 0 p.mgr)
            (set_protocols-Kept u x.stamp (form_values f (codes "proto"))
              (list_domains p.mgr.db u.id) 0 p.mgr k).others)
