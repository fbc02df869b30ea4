-- ===== src/Panels/AdminPanel/Sites/Unlogged.antt =====
-- The audit log behind handleDomainDel of the admin panel (src/internal/admin/handlers.go).
use lxc_hosting.Base.{◌≡◌, ◌∙◌, refl, List, Text, Option, none, some, Unique, codes}
use lxc_hosting.Db.{Domain, DbResult, no_rows}
use lxc_hosting.Db
use lxc_hosting.Db.Domains.{get_domain_by_domain}
use lxc_hosting.Mgr.{State, Done, ok, err}
use lxc_hosting.Mgr.Domains.{admin_unbind}
use lxc_hosting.Mgr.Domains.Gone.{Gone, AreNormal, admin_unbind-Gone}
use lxc_hosting.Panels.{HttpRequest, Fresh, Site, form_value, with_form}
use lxc_hosting.Panels.AdminPanel.{AdminState}
use lxc_hosting.Panels.AdminPanel.Sites.{log_domain, after_domain_del, handle_domain_del}

module _ {S : Type 0} (site : Site S) where
  log_domain-none :
      (m : State S) (stamp : Text) (d : DbResult Domain)
      → d ≡ Db.err no_rows
      → (log_domain site m stamp d).db.audit_log ≡ m.db.audit_log
  log_domain-none m stamp (Db.err e) q = refl
  log_domain-none m stamp (Db.ok d) q = absurd (cc q)

  after-unlogged :
      (r : HttpRequest) (x : Fresh) (p : AdminState S) (domain : Text) (out : Done × State S)
      → Gone site.calls site.cfg site.lower_other domain p.mgr out
      → (after_domain_del site r x p domain out).1.mgr.db.audit_log ≡ p.mgr.db.audit_log
  after-unlogged r x p domain (err e, m) g = g.0
  after-unlogged r x p domain (ok _, m) g =
      log_domain-none m x.stamp (get_domain_by_domain m.db domain) (g.1 refl) ∙ g.0

  form-unlogged :
      (r : HttpRequest) (x : Fresh) (p : AdminState S) (form : Option (List (Text × Text)))
      → Unique (λ (d : Domain). d.domain) p.mgr.db.domains
      → AreNormal site.calls site.cfg site.lower_other p.mgr.db.domains
      → (with_form form p λ f. after_domain_del site r x p (form_value f (codes "domain")) (
          admin_unbind site.calls site.cfg site.lower_other p.mgr
            (form_value f (codes "domain"))
            x.stamp)).1.mgr.db.audit_log
        ≡ p.mgr.db.audit_log
  form-unlogged r x p none u n = refl
  form-unlogged r x p (some form) u n =
      after-unlogged r x p (form_value form (codes "domain"))
        (admin_unbind site.calls site.cfg site.lower_other p.mgr (form_value form (codes "domain"))
          x.stamp)
        (admin_unbind-Gone site.calls site.cfg site.lower_other p.mgr
          (form_value form (codes "domain")) x.stamp u n)

  -- Where the domains are unique and in normal form, a deletion by the admin never reaches the
  -- audit log, whether it succeeds or not.
  pub domain_del-unlogged :
      (r : HttpRequest) (x : Fresh) (p : AdminState S)
      → Unique (λ (d : Domain). d.domain) p.mgr.db.domains
      → AreNormal site.calls site.cfg site.lower_other p.mgr.db.domains
      → (handle_domain_del site r x p).1.mgr.db.audit_log ≡ p.mgr.db.audit_log
  unfolding handle_domain_del
  domain_del-unlogged r x p u n = form-unlogged r x p r.form u n
