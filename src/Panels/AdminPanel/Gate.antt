-- ===== src/Panels/AdminPanel/Gate.antt =====
-- Which requests to the admin panel reach the tables of the database (src/internal/admin/admin.go:
-- Handler, requireAuth, requirePost; src/internal/admin/handlers.go: the handlers without requirePost).
use lxc_hosting.Base.{
  ◌≡◌, ◌⊎◌, inl, inr, refl, ap, Bool, true, false, not, ◌&&◌, List, [], ◌∷◌, if◌then◌else◌, Text,
  text_eq, codes, Option, none, some, Map, get, arith, Bool-cases, All,
}
use lxc_hosting.Web.AdminSessions.{SessionStore, valid}
use lxc_hosting.Web.Requests.{allowed, strip_prefix}
use lxc_hosting.Web.Limiter.{prune}
use lxc_hosting.Web.Limiter
use lxc_hosting.Mgr.{State, Outcome, ok, err}
use lxc_hosting.Mgr.Sampling.{UserStatus, batch_users}
use lxc_hosting.Mgr.Sampling.Kept.{SameButTraffic, same, batch_users-same}
use lxc_hosting.Panels.{
  HttpRequest, Fresh, Site, Answer, bare, nothing, value_of, with_lang, client_ip,
}
use lxc_hosting.Panels.UserPanel.Routes.{is_post}
use lxc_hosting.Panels.AdminPanel.{
  AdminState, Handler, cookie_name, lang_cookie_name, login_as, login_form, login_allowed,
  handle_login, handle_overview, prefix, lang, loaded, handle_logout, handle_admin_pass,
  handle_flash,
}
use lxc_hosting.Panels.AdminPanel.Accounts.{
  handle_user_add, handle_user_del, handle_user_quota, handle_power, handle_reset_panel_pass,
}
use lxc_hosting.Panels.AdminPanel.Sites.{
  handle_domain_del, handle_domain_update, handle_domains, handle_audit, handle_audit_api,
}
use lxc_hosting.Panels.AdminPanel.Routes.{
  session_of, with_session, require_auth, require_post, all_routes, behind_auth, routed, mux,
  under_prefix, handler,
}

module _ {S : Type 0} (site : Site S) where
  abbrev Kept : AdminState S → Answer × AdminState S → Type 0
  Kept p q = SameButTraffic p.mgr.db q.1.mgr.db

  loaded-same :
      (m : State S) (r : Outcome (List UserStatus) × State S)
      → SameButTraffic m.db r.1.db
      → SameButTraffic m.db (loaded site r).1.db
  loaded-same m (err e, m') h = h
  loaded-same m (ok us, m') h = h

  handle_overview-Kept :
      (r : HttpRequest) (x : Fresh) (p : AdminState S) → Kept p (handle_overview site r x p)
  unfolding handle_overview
  handle_overview-Kept r x p =
      loaded-same p.mgr (batch_users site.calls p.mgr x.month)
        (batch_users-same site.calls p.mgr x.month)

  login_as-Kept :
      (r : HttpRequest) (x : Fresh) (p : AdminState S) (pass hash : Text)
      → Kept p (login_as site r x p pass hash)
  login_as-Kept r x p pass [] = same _
  login_as-Kept r x p pass (c ∷ hash) = elim (Bool-cases (site.verify (c ∷ hash) pass)) [
    | inl e ↦ rw e (same p.mgr.db)
    | inr e ↦ rw e (same p.mgr.db)
  ]

  login_form-Kept :
      (r : HttpRequest) (x : Fresh) (p : AdminState S) (form : Option (List (Text × Text)))
      → Kept p (login_form site r x p form)
  login_form-Kept r x p none = same _
  login_form-Kept r x p (some form) = login_as-Kept r x p _ _

  login_allowed-Kept :
      (r : HttpRequest) (x : Fresh) (p : AdminState S) (passed : Bool)
      → Kept p (login_allowed site r x p passed)
  login_allowed-Kept r x p false = same _
  login_allowed-Kept r x p true = login_form-Kept r x p r.form

  handle_login-Kept :
      (r : HttpRequest) (x : Fresh) (p : AdminState S) → Kept p (handle_login site r x p)
  unfolding handle_login
  handle_login-Kept r x p = elim (Bool-cases (text_eq r.head.method (codes "POST"))) [
    | inl e ↦ rw e (
        login_allowed-Kept r x
          (record p { limiter = (Limiter.allowed (prune p.limiter x.now) (client_ip r) x.now).1 })
          (Limiter.allowed (prune p.limiter x.now) (client_ip r) x.now).0)
    | inr e ↦ rw e (same p.mgr.db)
  ]

  -- A handler that changes these tables only for a POST.
  abbrev PostOnly : Handler S → Type 0
  PostOnly next =
      (r : HttpRequest) (x : Fresh) (p : AdminState S) → Kept p (next r x p) ⊎ (is_post r ≡ true)

  require_post-PostOnly : (next : Handler S) → PostOnly (require_post site next)
  require_post-PostOnly next r x p = elim (Bool-cases (is_post r)) [
    | inl e ↦ inr e
    | inr e ↦ inl (rw e (same p.mgr.db))
  ]

  handle_domains-PostOnly : PostOnly (handle_domains site)
  unfolding handle_domains
  handle_domains-PostOnly r x p = inl (same _)

  handle_audit-PostOnly : PostOnly (handle_audit site)
  unfolding handle_audit
  handle_audit-PostOnly r x p = inl (same _)

  handle_audit_api-PostOnly : PostOnly (handle_audit_api site)
  unfolding handle_audit_api
  handle_audit_api-PostOnly r x p = inl (same _)

  abbrev AllPostOnly : Map (Handler S) → Type 0
  AllPostOnly routes = All (λ (e : Text × Handler S). PostOnly e.1) routes

  all_routes-PostOnly : AllPostOnly (all_routes site)
  all_routes-PostOnly = (
    require_post-PostOnly (handle_logout site),
    (
      handle_domains-PostOnly,
      (
        require_post-PostOnly (handle_domain_del site),
        (
          require_post-PostOnly (handle_domain_update site),
          (
            handle_audit-PostOnly,
            (
              handle_audit_api-PostOnly,
              (
                require_post-PostOnly (handle_user_add site),
                (
                  require_post-PostOnly (handle_user_del site),
                  (
                    require_post-PostOnly (handle_user_quota site),
                    (
                      require_post-PostOnly (handle_power site),
                      (
                        require_post-PostOnly (handle_reset_panel_pass site),
                        (
                          require_post-PostOnly (handle_admin_pass site),
                          (require_post-PostOnly (handle_flash site), tt),
                        ),
                      ),
                    ),
                  ),
                ),
              ),
            ),
          ),
        ),
      ),
    ),
  )

  behind_auth-PostOnly :
      (path : Text) (routes : Map (Handler S))
      → AllPostOnly routes
      → PostOnly (behind_auth site (get path routes))
  unfolding get
  behind_auth-PostOnly path [] h = λ r x p. inl (handle_overview-Kept r x p)
  behind_auth-PostOnly path ((name, next) ∷ routes) h = elim (Bool-cases (text_eq name path)) [
    | inl e ↦ rw e h.0
    | inr e ↦ rw e (behind_auth-PostOnly path routes h.1)
  ]

  -- the cookie is the token of a session that is kept
  abbrev pub HasSession : HttpRequest → Fresh → AdminState S → Type 0
  HasSession r x p =
      (token : Text) × (get cookie_name r.cookies ≡ some token)
      × ((valid p.sessions token x.now).0 ≡ true)

  -- What a request needs in order to change a table: it is a POST to a path under the prefix that
  -- passes the CSRF test, with a session.
  abbrev pub Authorized : HttpRequest → Fresh → AdminState S → Type 0
  Authorized r x p =
      ((rest : Text) × (strip_prefix r.path (prefix site) ≡ some rest))
      × (is_post r ≡ true)
      × (allowed r.head ≡ true)
      × HasSession r x p

  abbrev Live : HttpRequest → Fresh → AdminState S → Type 0
  Live r x p = (is_post r ≡ true) × HasSession r x p

  with_session-Live :
      (r : HttpRequest) (x : Fresh) (p : AdminState S) (next : Handler S)
      → PostOnly next
      → (cookie : Option Text) → get cookie_name r.cookies ≡ cookie
      → (found : Bool × SessionStore) → session_of p.sessions cookie x ≡ found
      → Kept p (with_session site next r x p found) ⊎ Live r x p
  with_session-Live r x p next k cookie c (false, sessions) q = inl (same _)
  with_session-Live r x p next k none c (true, sessions) q = absurd (cc (ap (λ z. z.0) q))
  with_session-Live r x p next k (some token) c (true, sessions) q =
      elim (k r x (record p { sessions = sessions })) [
        | inl kept ↦ inl kept
        | inr post ↦ inr (post, (token, c, ap (λ z. z.0) q))
      ]

  require_auth-Live :
      (r : HttpRequest) (x : Fresh) (p : AdminState S) (next : Handler S)
      → PostOnly next
      → Kept p (require_auth site next r x p) ⊎ Live r x p
  unfolding require_auth
  require_auth-Live r x p next k =
      with_session-Live r x p next k (get cookie_name r.cookies) refl
        (session_of p.sessions (get cookie_name r.cookies) x) refl

  routed-Live :
      (path : Text) (r : HttpRequest) (x : Fresh) (p : AdminState S)
      → Kept p (routed site path r x p) ⊎ Live r x p
  unfolding routed
  routed-Live path r x p = elim (Bool-cases (text_eq path (codes "/login"))) [
    | inl e ↦ inl (rw e (handle_login-Kept r x p))
    | inr e ↦ rw e (
        require_auth-Live r x p (behind_auth site (get path (all_routes site)))
          (behind_auth-PostOnly path (all_routes site) all_routes-PostOnly))
  ]

  mux-Live :
      (path : Text) (r : HttpRequest) (x : Fresh) (p : AdminState S) (moved : Option Text)
      → Kept p (mux site path r x p moved) ⊎ Live r x p
  mux-Live path r x p none = routed-Live path r x p
  mux-Live path r x p (some location) = inl (same _)

  gated :
      (r : HttpRequest) (x : Fresh) (p : AdminState S) (rest name path l query : Text)
      (q : Answer × AdminState S)
      → strip_prefix r.path (prefix site) ≡ some rest
      → Kept p q ⊎ Live r x p
      → (blocked : Bool) → (is_post r && not (allowed r.head)) ≡ blocked
      → Kept p (if blocked then (bare 403 nothing, p) else with_lang name path l query q)
        ⊎ Authorized r x p
  gated r x p rest name path l query q e k true b = inl (same _)
  gated r x p rest name path l query (a, q) e (inl kept) false b = inl kept
  gated r x p rest name path l query q e (inr (post, session)) false b =
      inr ((rest, e), post, ground arith, session)

  under_prefix-Authorized :
      (r : HttpRequest) (x : Fresh) (p : AdminState S) (rest : Option Text)
      → strip_prefix r.path (prefix site) ≡ rest
      → Kept p (under_prefix site r x p rest) ⊎ Authorized r x p
  under_prefix-Authorized r x p none e = inl (same _)
  under_prefix-Authorized r x p (some rest) e =
      gated r x p rest lang_cookie_name (prefix site) (lang site r)
        (value_of (get (codes "lang") r.query))
        (mux site rest r x p (site.moved r.head.method rest)) e (mux-Live rest r x p _) _ refl

  -- A request to the admin panel changes no table but the traffic, unless it is a POST under the
  -- secret prefix that passes the CSRF test and carries the token of a session that is kept.
  pub admin_handler-Authorized :
      (r : HttpRequest) (x : Fresh) (p : AdminState S)
      → SameButTraffic p.mgr.db (handler site r x p).1.mgr.db ⊎ Authorized r x p
  unfolding handler
  admin_handler-Authorized r x p = under_prefix-Authorized r x p _ refl
