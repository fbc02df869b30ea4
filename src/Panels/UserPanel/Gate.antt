-- ===== src/Panels/UserPanel/Gate.antt =====
-- Which requests reach the tables of the database (src/internal/panel/panel.go, Handler;
-- src/internal/panel/handlers.go, requireAuth, requirePost, handleLogin).
use lxc_hosting.Base.{
  ℕ, ◌≡◌, ◌⊎◌, inl, inr, refl, Bool, true, false, not, ◌&&◌, List, if◌then◌else◌, Text, text_eq,
  codes, Option, none, some, get, arith, ap, ◌∙◌, Bool-cases,
}
use lxc_hosting.Db.{User, Session, Db, DbResult}
use lxc_hosting.Db
use lxc_hosting.Db.Sessions.{session_user, create_session}
use lxc_hosting.Web.Requests.{allowed, strip_prefix}
use lxc_hosting.Web.Limiter.{prune}
use lxc_hosting.Web.Limiter
use lxc_hosting.Panels.{
  HttpRequest, Fresh, Site, Answer, bare, nothing, value_of, with_lang, client_ip,
}
use lxc_hosting.Panels.UserPanel.{PanelState, Handler, cookie_name, lang_cookie_name, prefix, lang}
use lxc_hosting.Panels.UserPanel.Login.{
  handle_login, login_allowed, login_checked, login_session, login_form,
}
use lxc_hosting.Panels.UserPanel.Overview.{handle_overview}
use lxc_hosting.Panels.UserPanel.Routes.{
  with_user, with_token, require_auth, post_routes, is_post, behind_auth, routed, mux, under_prefix,
  handler,
}

-- All tables but the sessions are the same.
pub record SameTables (db db' : Db) : Type 0 where
  pub same_users : db'.users ≡ db.users
  pub same_domains : db'.domains ≡ db.domains
  pub same_traffic : db'.traffic ≡ db.traffic
  pub same_audit : db'.audit_log ≡ db.audit_log
  pub same_settings : db'.settings ≡ db.settings

SameTables-refl : (db : Db) → SameTables db db
SameTables-refl db = record {
  same_users = refl;
  same_domains = refl;
  same_traffic = refl;
  same_audit = refl;
  same_settings = refl;
}

SameTables-trans : {a b c : Db} → SameTables a b → SameTables b c → SameTables a c
SameTables-trans h k = record {
  same_users = k.same_users ∙ h.same_users;
  same_domains = k.same_domains ∙ h.same_domains;
  same_traffic = k.same_traffic ∙ h.same_traffic;
  same_audit = k.same_audit ∙ h.same_audit;
  same_settings = k.same_settings ∙ h.same_settings;
}

session_user-SameTables :
    (db : Db) (token : Text) (now : ℕ) → SameTables db (session_user db token now).1
unfolding session_user
session_user-SameTables db token now = ground arith

module _ {S : Type 0} (site : Site S) where
  abbrev pub Kept : PanelState S → Answer × PanelState S → Type 0
  Kept p q = SameTables p.mgr.db q.1.mgr.db

  login_session-Kept :
      (r : HttpRequest) (x : Fresh) (p : PanelState S) (u : User)
      → Kept p
          (login_session site r x p (create_session p.mgr.db u.id site.session_days x.token x.now))
  unfolding create_session
  login_session-Kept r x p u = ground arith

  login_checked-Kept :
      (r : HttpRequest) (x : Fresh) (p : PanelState S) (pass : Text) (u : DbResult User)
      → Kept p (login_checked site r x p pass u)
  login_checked-Kept r x p pass (Db.err e) = SameTables-refl _
  login_checked-Kept r x p pass (Db.ok u) = elim (Bool-cases (site.verify u.pass_hash pass)) [
    | inl e ↦ rw e (login_session-Kept r x p u)
    | inr e ↦ rw e (SameTables-refl _)
  ]

  login_form-Kept :
      (r : HttpRequest) (x : Fresh) (p : PanelState S) (form : Option (List (Text × Text)))
      → Kept p (login_form site r x p form)
  login_form-Kept r x p none = SameTables-refl _
  login_form-Kept r x p (some form) = login_checked-Kept r x p _ _

  login_allowed-Kept :
      (r : HttpRequest) (x : Fresh) (p : PanelState S) (passed : Bool)
      → Kept p (login_allowed site r x p passed)
  login_allowed-Kept r x p false = SameTables-refl _
  login_allowed-Kept r x p true = login_form-Kept r x p r.form

  pub handle_login-Kept :
      (r : HttpRequest) (x : Fresh) (p : PanelState S) → Kept p (handle_login site r x p)
  unfolding handle_login
  handle_login-Kept r x p = elim (Bool-cases (text_eq r.head.method (codes "POST"))) [
    | inl e ↦ rw e (
        login_allowed-Kept r x
          (record p { limiter = (Limiter.allowed (prune p.limiter x.now) (client_ip r) x.now).1 })
          _)
    | inr e ↦ rw e (SameTables-refl _)
  ]

  -- the cookie is the token of a live session
  abbrev pub HasSession : HttpRequest → Fresh → PanelState S → Type 0
  HasSession r x p =
      (token : Text) × (u : User) × (get cookie_name r.cookies ≡ some token)
      × ((session_user p.mgr.db token x.now).0 ≡ Db.ok u)

  -- What a request needs in order to change a table: it is a POST to a path under the prefix that
  -- passes the CSRF test, with a live session.
  abbrev pub Authorized : HttpRequest → Fresh → PanelState S → Type 0
  Authorized r x p =
      ((rest : Text) × (strip_prefix r.path (prefix site) ≡ some rest))
      × (is_post r ≡ true)
      × (allowed r.head ≡ true)
      × HasSession r x p

  abbrev Live : HttpRequest → Fresh → PanelState S → Type 0
  Live r x p = (is_post r ≡ true) × HasSession r x p

  -- A handler that changes the tables only for a POST.
  abbrev PostOnly : Handler S → Type 0
  PostOnly next =
      (r : HttpRequest) (x : Fresh) (u : User) (p : PanelState S)
      → Kept p (next r x u p) ⊎ (is_post r ≡ true)

  behind_auth-PostOnly : (next : Option (Handler S)) → PostOnly (behind_auth site next)
  unfolding handle_overview
  behind_auth-PostOnly none r x u p = inl (SameTables-refl _)
  behind_auth-PostOnly (some next) r x u p = elim (Bool-cases (is_post r)) [
    | inl e ↦ inr e
    | inr e ↦ inl (rw e (SameTables-refl _))
  ]

  with_user-Live :
      (r : HttpRequest) (x : Fresh) (p : PanelState S) (next : Handler S)
      → PostOnly next
      → (token : Text) → get cookie_name r.cookies ≡ some token
      → (found : DbResult User × Db) → session_user p.mgr.db token x.now ≡ found
      → SameTables p.mgr.db found.1
      → Kept p (with_user site r x p next found) ⊎ Live r x p
  with_user-Live r x p next k token c (Db.err e, db) q same = inl same
  with_user-Live r x p next k token c (Db.ok u, db) q same =
      elim (k r x u (record p { mgr = record p.mgr { db = db } })) [
        | inl kept ↦ inl (SameTables-trans same kept)
        | inr post ↦ inr (post, (token, u, c, ap (λ z. z.0) q))
      ]

  with_token-Live :
      (r : HttpRequest) (x : Fresh) (p : PanelState S) (next : Handler S)
      → PostOnly next
      → (cookie : Option Text) → get cookie_name r.cookies ≡ cookie
      → Kept p (with_token site r x p next cookie) ⊎ Live r x p
  with_token-Live r x p next k none c = inl (SameTables-refl _)
  with_token-Live r x p next k (some token) c =
      with_user-Live r x p next k token c _ refl (session_user-SameTables p.mgr.db token x.now)

  require_auth-Live :
      (r : HttpRequest) (x : Fresh) (p : PanelState S) (next : Handler S)
      → PostOnly next
      → Kept p (require_auth site next r x p) ⊎ Live r x p
  unfolding require_auth
  require_auth-Live r x p next k = with_token-Live r x p next k (get cookie_name r.cookies) refl

  routed-Live :
      (path : Text) (r : HttpRequest) (x : Fresh) (p : PanelState S)
      → Kept p (routed site path r x p) ⊎ Live r x p
  unfolding routed
  routed-Live path r x p = elim (Bool-cases (text_eq path (codes "/login"))) [
    | inl e ↦ inl (rw e (handle_login-Kept r x p))
    | inr e ↦ rw e (
        require_auth-Live r x p (behind_auth site (get path (post_routes site)))
          (behind_auth-PostOnly (get path (post_routes site))))
  ]

  mux-Live :
      (path : Text) (r : HttpRequest) (x : Fresh) (p : PanelState S) (moved : Option Text)
      → Kept p (mux site path r x p moved) ⊎ Live r x p
  mux-Live path r x p none = routed-Live path r x p
  mux-Live path r x p (some location) = inl (SameTables-refl _)

  with_lang-Kept :
      (p : PanelState S) (name path l query : Text) (q : Answer × PanelState S)
      → Kept p q
      → Kept p (with_lang name path l query q)
  with_lang-Kept p name path l query (a, q) h = h

  gated :
      (r : HttpRequest) (x : Fresh) (p : PanelState S) (rest name path l query : Text)
      (q : Answer × PanelState S)
      → strip_prefix r.path (prefix site) ≡ some rest
      → Kept p q ⊎ Live r x p
      → (blocked : Bool) → (is_post r && not (allowed r.head)) ≡ blocked
      → Kept p (if blocked then (bare 403 nothing, p) else with_lang name path l query q)
        ⊎ Authorized r x p
  gated r x p rest name path l query q e k true b = inl (SameTables-refl _)
  gated r x p rest name path l query q e (inl kept) false b =
      inl (with_lang-Kept p name path l query q kept)
  gated r x p rest name path l query q e (inr (post, session)) false b =
      inr ((rest, e), post, ground arith, session)

  under_prefix-Authorized :
      (r : HttpRequest) (x : Fresh) (p : PanelState S) (rest : Option Text)
      → strip_prefix r.path (prefix site) ≡ rest
      → Kept p (under_prefix site r x p rest) ⊎ Authorized r x p
  under_prefix-Authorized r x p none e = inl (SameTables-refl _)
  under_prefix-Authorized r x p (some rest) e =
      gated r x p rest lang_cookie_name (prefix site) (lang site r)
        (value_of (get (codes "lang") r.query))
        (mux site rest r x p (site.moved r.head.method rest)) e (mux-Live rest r x p _) _ refl

  -- A request changes no table but the sessions, unless it is a POST under the secret prefix that
  -- passes the CSRF test and carries the token of a live session.
  pub handler-Authorized :
      (r : HttpRequest) (x : Fresh) (p : PanelState S)
      → SameTables p.mgr.db (handler site r x p).1.mgr.db ⊎ Authorized r x p
  unfolding handler
  handler-Authorized r x p = under_prefix-Authorized r x p _ refl
