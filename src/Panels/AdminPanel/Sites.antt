-- ===== src/Panels/AdminPanel/Sites.antt =====
-- The admin's handlers for domains and for the audit log (src/internal/admin/handlers.go):
-- handleDomains, handleDomainDel, handleDomainUpdate, handleAudit and handleAuditAPI.
pub mod Unlogged
use lxc_hosting.Base.{
  ℕ, ◌+◌, Bool, true, false, ◌&&◌, List, [], ◌∷◌, ◌++◌, ◌==◌, if◌then◌else◌, Text, codes, Option,
  none, some, get, length,
}
use lxc_hosting.Std.Int64.{int_lt, wrap}
use lxc_hosting.Std.Strconv.{Atoi, atoi}
use lxc_hosting.Db.{User, Domain, Db, DbResult}
use lxc_hosting.Db
use lxc_hosting.Db.Users.{get_user_by_id}
use lxc_hosting.Db.Domains.{DomainView, list_all_domains, get_domain_by_domain}
use lxc_hosting.Db.Audit.{list_audit_log, audit_count}
use lxc_hosting.Mgr.{State, MgrError, Outcome, Done, ok, err}
use lxc_hosting.Mgr.Domains.{admin_set_protocol, admin_unbind}
use lxc_hosting.Mgr.Limits.{is_in}
use lxc_hosting.Panels.{
  HttpRequest, Fresh, Site, Body, domain_page, audit_page, audit_chunk, Answer, bare, form_value,
  form_values, value_of, with_form, error_text,
}
use lxc_hosting.Panels.UserPanel.{differs}
use lxc_hosting.Panels.AdminPanel.{AdminState, Handler, say, redirect, logged, prefix}

module _ {S : Type 0} (site : Site S) where
  abbrev pub to_domains : HttpRequest → Fresh → AdminState S → Text → Answer × AdminState S
  to_domains r x p msg = redirect site r x p (prefix site ++ codes "/domains") msg

  unfoldable pub handle_domains : Handler S
  handle_domains r x p = (bare 200 (domain_page (list_all_domains p.mgr.db)), p)

  -- the entry for the owner of a domain that is there
  abbrev pub log_owner : State S → Text → DbResult User → State S
  log_owner m stamp (Db.err e) = m
  log_owner m stamp (Db.ok u) = logged site m u.name (codes "domain_update") stamp

  abbrev pub log_domain : State S → Text → DbResult Domain → State S
  log_domain m stamp (Db.err e) = m
  log_domain m stamp (Db.ok d) = log_owner m stamp (get_user_by_id m.db d.user_id)

  abbrev pub after_domain_del :
      HttpRequest → Fresh → AdminState S → Text → Done × State S → Answer × AdminState S
  after_domain_del r x p domain (err e, m) =
      to_domains r x (record p { mgr = m }) (error_text (site.describe e))
  after_domain_del r x p domain (ok _, m) =
      to_domains r x (record p { mgr = log_domain m x.stamp (get_domain_by_domain m.db domain) })
        (say site r (codes "domain_deleted") (domain ∷ []))

  -- The domain is looked up for the log behind its deletion, as the source does.
  unfoldable pub handle_domain_del : Handler S
  handle_domain_del r x p = with_form r.form p λ form.
      let domain = form_value form (codes "domain") in
      after_domain_del r x p domain
        (admin_unbind site.calls site.cfg site.lower_other p.mgr domain x.stamp)

  -- The loop of handleDomainUpdate: it stops at the first error; each change is logged.
  unfoldable pub set_all_protocols :
      Text → List Text → List DomainView → ℕ → State S → Option MgrError × ℕ × State S
  set_all_protocols stamp checked [] changed m = (none, changed, m)
  set_all_protocols stamp checked (d ∷ ds) changed m =
      let change = differs (is_in checked d.domain) d.proxy_protocol in
      let r : Done × State S =
        (if change
          then admin_set_protocol site.calls site.cfg site.lower_other m d.domain
              (is_in checked d.domain) stamp
          else (ok tt, m)) in
      elim r.0 [
        | err e ↦ (some e, changed, r.1)
        | ok _ ↦
            set_all_protocols stamp checked ds (if change then changed + 1 else changed)
              (if change then logged site r.1 d.username (codes "domain_update") stamp else r.1)
      ]

  abbrev after_protocols :
      HttpRequest → Fresh → AdminState S → Option MgrError × ℕ × State S → Answer × AdminState S
  after_protocols r x p (some e, changed, m) =
      to_domains r x (record p { mgr = m }) (error_text (site.describe e))
  after_protocols r x p (none, changed, m) =
      to_domains r x (record p { mgr = m })
        (if changed == 0 then codes "ok: no changes" else say site r (codes "domains_updated") [])

  unfoldable pub handle_domain_update : Handler S
  unfolding set_all_protocols
  handle_domain_update r x p = with_form r.form p λ form. after_protocols r x p (
      set_all_protocols x.stamp (form_values form (codes "proto")) (list_all_domains p.mgr.db) 0
        p.mgr)

  unfoldable pub handle_audit : Handler S
  handle_audit r x p = (bare 200 audit_page, p)

-- a negative offset is 0, and the error of Atoi is ignored
abbrev pub audit_offset : Atoi → ℕ
audit_offset n = if int_lt n.number 0 then 0 else n.number

-- 500 rows, or what is asked for up to 1000
abbrev pub audit_limit : Atoi → ℕ
audit_limit n =
    if n.failed then 500 else if int_lt 0 n.number && int_lt n.number 1001 then n.number else 500

module _ {S : Type 0} (site : Site S) where
  unfoldable pub handle_audit_api : Handler S
  handle_audit_api r x p =
      let offset = audit_offset (atoi (value_of (get (codes "offset") r.query))) in
      let limit = audit_limit (atoi (value_of (get (codes "limit") r.query))) in
      let rows = list_audit_log p.mgr.db offset limit in
      let total = audit_count p.mgr.db in
      (bare 200 (audit_chunk rows (int_lt (wrap (offset + length rows)) total) total), p)
