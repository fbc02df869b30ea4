-- ===== src/Mgr/Domains/Gone.antt =====
-- The rows and the audit log behind AdminDelDomain (src/internal/mgr/mgr.go).
use lxc_hosting.Base.{
  ℕ, ◌≡◌, ◌≢◌, refl, subst, ap, sym, ◌∙◌, Bool, true, false, List, [], ◌∷◌, Text, text_eq,
  text_eq_iff, Option, none, some, has_row, first_where, delete_where, Bool-cases, inl, inr, arith,
  All, All-delete_where, Unique, first_where-All, All-first_where, first_where-true,
}
use lxc_hosting.Names.{DomainResult, normalize_domain}
use lxc_hosting.Names
use lxc_hosting.Db.{User, Domain, Db, DbResult, no_rows}
use lxc_hosting.Db
use lxc_hosting.Db.Users.{get_user_by_name, get_user_by_id, or_no_rows}
use lxc_hosting.Db.Domains.{owned, add_domain, delete_domain, get_domain, get_domain_by_domain}
use lxc_hosting.Host.{Calls}
use lxc_hosting.Host.Files.{remove_domain}
use lxc_hosting.Mgr.{Config, State, Done, ok}
use lxc_hosting.Mgr.Domains.{
  written, for_user, on_row, reinserted, without_row, as_owner, unbind, admin_unbind,
}

other-domain :
    (domain name : Text) (ds : List Domain)
    → name ≡ domain
    → All (λ (y : Domain). name ≢ y.domain) ds
    → All (λ (y : Domain). text_eq y.domain domain ≡ false) ds
other-domain domain name [] e h = tt
other-domain domain name (d ∷ ds) e h = (
  elim (Bool-cases (text_eq d.domain domain)) [
    | inl t ↦ absurd (h.0 (e ∙ sym ((text_eq_iff d.domain domain).0 t)))
    | inr f ↦ f
  ],
  other-domain domain name ds e h.1,
)

not_owned :
    (user_id : ℕ) (domain : Text) (ds : List Domain)
    → All (λ (y : Domain). text_eq y.domain domain ≡ false) ds
    → has_row (owned user_id domain) ds ≡ false
unfolding has_row
not_owned user_id domain [] h = refl
not_owned user_id domain (d ∷ ds) h = ground (arith, not_owned user_id domain ds h.1)

-- no row of the domain is left once the owner's row is deleted, as the domain is unique
deleted-none :
    (user_id : ℕ) (domain : Text) (ds : List Domain)
    → Unique (λ (d : Domain). d.domain) ds
    → has_row (owned user_id domain) ds ≡ true
    → first_where (λ (d : Domain). text_eq d.domain domain) (delete_where (owned user_id domain) ds)
      ≡ none
unfolding has_row delete_where first_where
deleted-none user_id domain [] u h = absurd (cc h)
deleted-none user_id domain (d ∷ ds) u h = elim (Bool-cases (text_eq d.domain domain)) [
  | inl t ↦
      let others = other-domain domain d.domain ds ((text_eq_iff d.domain domain).0 t) u.0 in
      ground (
        arith,
        not_owned user_id domain ds others,
        first_where-All (λ (y : Domain). text_eq y.domain domain)
            (delete_where (owned user_id domain) ds)
            (All-delete_where (λ (y : Domain). text_eq y.domain domain ≡ false)
              (owned user_id domain) ds others),
      )
  | inr t ↦ ground (arith, deleted-none user_id domain ds u.1)
]

delete_domain-gone :
    (db db' : Db) (user_id : ℕ) (domain : Text)
    → Unique (λ (d : Domain). d.domain) db.domains
    → delete_domain db user_id domain ≡ Db.ok db'
    → (db'.audit_log ≡ db.audit_log) × (get_domain_by_domain db' domain ≡ Db.err no_rows)
unfolding delete_domain get_domain_by_domain
delete_domain-gone db db' user_id domain u e =
    elim (Bool-cases (has_row (owned user_id domain) db.domains)) [
      | inl t ↦
          let left : Db = record db { domains = delete_where (owned user_id domain) db.domains } in
          let q : left ≡ db' = ground (arith, t, e) in
          (
            sym (ap (λ (x : Db). x.audit_log) q),
            subst
                (λ (x : Db).
                  or_no_rows (first_where (λ (d : Domain). text_eq d.domain domain) x.domains)
                  ≡ Db.err no_rows)
                q (ap or_no_rows (deleted-none user_id domain db.domains u t)),
          )
      | inr t ↦ absurd (cc (rw t at e))
    ]

module _ {S : Type 0} (h : Calls S) (cfg : Config) (lower_other : ℕ → ℕ) where
  reinserted-audit :
      (db : Db) (user_id : ℕ) (domain : Text) (on : Bool) (now : Text)
      → (reinserted h cfg lower_other db (add_domain db user_id domain on now)).audit_log
        ≡ db.audit_log
  unfolding add_domain
  reinserted-audit db user_id domain on now = ground arith

  -- The audit log is as before, and after a success there is no row of the domain any more.
  abbrev pub Gone : Text → State S → Done × State S → Type 0
  Gone domain m r =
      (r.1.db.audit_log ≡ m.db.audit_log)
      × (r.0 ≡ ok tt → get_domain_by_domain r.1.db domain ≡ Db.err no_rows)

  written-Gone :
      (m : State S) (domain : Text) (db undone : Db) (c : Bool × S)
      → db.audit_log ≡ m.db.audit_log
      → undone.audit_log ≡ m.db.audit_log
      → get_domain_by_domain db domain ≡ Db.err no_rows
      → Gone domain m (written h cfg lower_other m db undone c)
  written-Gone m domain db undone (true, s) a b g = (a, λ e. g)
  written-Gone m domain db undone (false, s) a b g = (b, λ e. absurd (cc e))

  without_row-Gone :
      (m : State S) (u : User) (domain : Text) (d : Domain) (now : Text)
      → Unique (λ (x : Domain). x.domain) m.db.domains
      → (r : DbResult Db) → delete_domain m.db u.id domain ≡ r
      → Gone domain m (without_row h cfg lower_other m u domain d now r)
  without_row-Gone m u domain d now k (Db.err e) q = (refl, λ e. absurd (cc e))
  without_row-Gone m u domain d now k (Db.ok db) q =
      let g = delete_domain-gone m.db db u.id domain k q in
      written-Gone m domain db
        (reinserted h cfg lower_other db (add_domain db u.id domain d.proxy_protocol now))
        (remove_domain h cfg.traefik_dir domain m.sys) g.0
        (reinserted-audit db u.id domain d.proxy_protocol now ∙ g.0) g.1

  on_row-Gone :
      (m : State S) (u : User) (domain now : Text)
      → Unique (λ (x : Domain). x.domain) m.db.domains
      → (r : DbResult Domain)
      → Gone domain m (
          on_row h cfg lower_other m domain r
            (λ e d. without_row h cfg lower_other m u e d now (delete_domain m.db u.id e)))
  on_row-Gone m u domain now k (Db.err e) = (refl, λ e. absurd (cc e))
  on_row-Gone m u domain now k (Db.ok d) =
      without_row-Gone m u domain d now k (delete_domain m.db u.id domain) refl

  unbind-Gone :
      (m : State S) (name domain now : Text)
      → Unique (λ (x : Domain). x.domain) m.db.domains
      → normalize_domain lower_other domain ≡ Names.ok domain
      → (r : DbResult User) → get_user_by_name m.db name ≡ r
      → Gone domain m (unbind h cfg lower_other m name domain now)
  unfolding unbind
  unbind-Gone m name domain now k n (Db.err e) q = rw q (refl, λ e. absurd (cc e))
  unbind-Gone m name domain now k n (Db.ok u) q =
      rw (q, n) (on_row-Gone m u domain now k (get_domain m.db u.id domain))

  -- the domains in the table are in normal form
  abbrev pub AreNormal : List Domain → Type 0
  AreNormal = All (λ (d : Domain). normalize_domain lower_other d.domain ≡ Names.ok d.domain)

  owner-Gone :
      (m : State S) (domain now : Text)
      → Unique (λ (x : Domain). x.domain) m.db.domains
      → normalize_domain lower_other domain ≡ Names.ok domain
      → (r : DbResult User)
      → Gone domain m
          (for_user h cfg lower_other m r (λ u. unbind h cfg lower_other m u.name domain now))
  owner-Gone m domain now k n (Db.err e) = (refl, λ e. absurd (cc e))
  owner-Gone m domain now k n (Db.ok u) =
      unbind-Gone m u.name domain now k n (get_user_by_name m.db u.name) refl

  row-Gone :
      (m : State S) (domain now : Text)
      → Unique (λ (x : Domain). x.domain) m.db.domains
      → AreNormal m.db.domains
      → (r : Option Domain) → first_where (λ (d : Domain). text_eq d.domain domain) m.db.domains ≡ r
      → Gone domain m (
          as_owner h cfg lower_other m
            (or_no_rows r)
            (λ u. unbind h cfg lower_other m u.name domain now))
  row-Gone m domain now k n none q = (refl, λ e. absurd (cc e))
  row-Gone m domain now k n (some d) q =
      let same : d.domain ≡ domain =
        (text_eq_iff d.domain domain).0
          (first_where-true (λ (y : Domain). text_eq y.domain domain) m.db.domains q) in
      owner-Gone m domain now k
        (subst (λ t. normalize_domain lower_other t ≡ Names.ok t) same
          (All-first_where
            (λ (y : Domain). normalize_domain lower_other y.domain ≡ Names.ok y.domain)
            (λ (y : Domain). text_eq y.domain domain) m.db.domains n q))
        (get_user_by_id m.db d.user_id)

  pub admin_unbind-Gone :
      (m : State S) (domain now : Text)
      → Unique (λ (x : Domain). x.domain) m.db.domains
      → AreNormal m.db.domains
      → Gone domain m (admin_unbind h cfg lower_other m domain now)
  unfolding admin_unbind get_domain_by_domain
  admin_unbind-Gone m domain now k n = row-Gone m domain now k n _ refl
