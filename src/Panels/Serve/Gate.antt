-- ===== src/Panels/Serve/Gate.antt =====
-- Which requests to the listener reach the tables of the database (src/main.go, cmdServe).
use lxc_hosting.Base.{◌≡◌, ◌⊎◌, inl, inr, refl, ◌&&◌, Bool-cases, ◌∷◌}
use lxc_hosting.Config.{is_set}
use lxc_hosting.Db.{Db}
use lxc_hosting.Panels.{HttpRequest, Fresh, Site, Answer}
use lxc_hosting.Panels.UserPanel.{PanelState}
use lxc_hosting.Panels.AdminPanel.{AdminState}
use lxc_hosting.Panels.UserPanel.Routes
use lxc_hosting.Panels.UserPanel.Gate as UserGate
use lxc_hosting.Panels.UserPanel.Gate.{SameTables, handler-Authorized}
use lxc_hosting.Panels.AdminPanel.Routes as AdminRoutes
use lxc_hosting.Panels.AdminPanel.Gate as AdminGate
use lxc_hosting.Panels.AdminPanel.Gate.{admin_handler-Authorized}
use lxc_hosting.Mgr.Sampling.Kept.{SameButTraffic}
use lxc_hosting.Panels.Serve.{
  Serving, dispatch, path_under, panel_path, user_part, admin_part, with_user_part, with_admin_part,
}

-- Users, domains, the audit log and the settings are the same.
pub record Untouched (db db' : Db) : Type 0 where
  pub same_users : db'.users ≡ db.users
  pub same_domains : db'.domains ≡ db.domains
  pub same_audit : db'.audit_log ≡ db.audit_log
  pub same_settings : db'.settings ≡ db.settings

same : (db : Db) → Untouched db db
same db = record { same_users = refl; same_domains = refl; same_audit = refl; same_settings = refl }

from_user : {a b : Db} → SameTables a b → Untouched a b
from_user h = record {
  same_users = h.same_users;
  same_domains = h.same_domains;
  same_audit = h.same_audit;
  same_settings = h.same_settings;
}

from_admin : {a b : Db} → SameButTraffic a b → Untouched a b
from_admin h = record {
  same_users = h.same_users;
  same_domains = h.same_domains;
  same_audit = h.same_audit;
  same_settings = h.same_settings;
}

weaken : {A B C : Type 0} → A ⊎ B → (B → C) → A ⊎ C
weaken (inl a) f = inl a
weaken (inr b) f = inr (f b)

module _ {S : Type 0} (site : Site S) where
  user-Untouched :
      (v : Serving S) (q : Answer × PanelState S) {B : Type 0}
      → SameTables v.mgr.db q.1.mgr.db ⊎ B
      → Untouched v.mgr.db (with_user_part v q).1.mgr.db ⊎ B
  user-Untouched v (a, p) (inl h) = inl (from_user h)
  user-Untouched v (a, p) (inr b) = inr b

  admin-Untouched :
      (v : Serving S) (q : Answer × AdminState S) {B : Type 0}
      → SameButTraffic v.mgr.db q.1.mgr.db ⊎ B
      → Untouched v.mgr.db (with_admin_part v q).1.mgr.db ⊎ B
  admin-Untouched v (a, p) (inl h) = inl (from_admin h)
  admin-Untouched v (a, p) (inr b) = inr b

  abbrev pub Cleared : HttpRequest → Fresh → Serving S → Type 0
  Cleared r x v =
      UserGate.Authorized site r x (user_part v) ⊎ AdminGate.Authorized site r x (admin_part v)

  -- Whatever a request to the listener is, users, domains, audit log and settings stay as they are,
  -- unless it is a POST under a panel's secret prefix that passes the CSRF test and carries the
  -- token of a live session of that panel.
  pub dispatch-Cleared :
      (r : HttpRequest) (x : Fresh) (v : Serving S)
      → Untouched v.mgr.db (dispatch site r x v).1.mgr.db ⊎ Cleared r x v
  unfolding dispatch
  dispatch-Cleared r x v = elim (Bool-cases (path_under r.path (panel_path site.url_path))) [
    | inl e ↦ rw e (
        weaken
          (user-Untouched v (Routes.handler site r x (user_part v))
            (handler-Authorized site r x (user_part v)))
          inl)
    | inr e ↦
        elim (Bool-cases (is_set site.admin_path && path_under r.path (b'/' ∷ site.admin_path))) [
          | inl f ↦
              rw (e, f)
                (weaken
                  (admin-Untouched v (AdminRoutes.handler site r x (admin_part v))
                    (admin_handler-Authorized site r x (admin_part v)))
                  inr)
          | inr f ↦ rw (e, f) (inl (same v.mgr.db))
        ]
  ]
