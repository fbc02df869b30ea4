-- ===== src/Mgr/Others/Flags.antt =====
-- The rows of the other users under SetDomainProtocol (src/internal/mgr/mgr.go).
use lxc_hosting.Base.{ℕ, ◌≡◌, refl, Bool, true, false, Text, Unique, Bool-cases, inl, inr}
use lxc_hosting.Names.{DomainResult, normalize_domain}
use lxc_hosting.Names
use lxc_hosting.Db.{User, Domain, Db, DbResult}
use lxc_hosting.Db
use lxc_hosting.Db.Users.{get_user_by_name}
use lxc_hosting.Db.Domains.{get_domain, set_domain_protocol}
use lxc_hosting.Db.Others.{
  SameOthers, SameOthers_refl, SameOthers_trans, get_domain-AllOwned, set_domain_protocol-others,
  set_domain_protocol-AllOwned, set_domain_protocol-Unique,
}
use lxc_hosting.Host.{Calls}
use lxc_hosting.Host.Files.{write_domain}
use lxc_hosting.Mgr.{Config, State}
use lxc_hosting.Mgr.Domains.{
  dotted, written, on_row, for_domain, same_flag, protocol_of, set_protocol,
}

-- The user is found by the name, and ids of domains are unique.
pub record Ready (u : User) (db : Db) : Type 0 where
  pub owns : get_user_by_name db u.name ≡ Db.ok u
  pub ids : Unique (λ (x : Domain). x.id) db.domains

-- Rows of others are the same, and the database is as ready as before.
pub record Kept (u : User) (db db' : Db) : Type 0 where
  pub others : SameOthers u.id db db'
  pub ready : Ready u db'

pub Kept-refl : (u : User) (db : Db) → Ready u db → Kept u db db
Kept-refl u db h = record { others = SameOthers_refl _ _; ready = h }

pub Kept-trans : {u : User} {a b c : Db} → Kept u a b → Kept u b c → Kept u a c
Kept-trans h k = record { others = SameOthers_trans h.others k.others; ready = k.ready }

set-Ready :
    (u : User) (db : Db) (id : ℕ) (on : Bool) (now : Text)
    → Ready u db
    → Ready u (set_domain_protocol db id on now)
unfolding set_domain_protocol get_user_by_name
set-Ready u db id on now h = record {
  owns = h.owns;
  ids = set_domain_protocol-Unique db id on now h.ids;
}

module _ {S : Type 0} (h : Calls S) (cfg : Config) (lower_other : ℕ → ℕ) where
  written-Kept :
      (u : User) (m : State S) (db undone : Db) (c : Bool × S)
      → Kept u m.db db
      → Kept u m.db undone
      → Kept u m.db (written h cfg lower_other m db undone c).1.db
  written-Kept u m db undone (true, s) a b = a
  written-Kept u m db undone (false, s) a b = b

  protocol_of-Kept :
      (m : State S) (u : User) (on : Bool) (now domain : Text) (d : Domain)
      → Ready u m.db
      → get_domain m.db u.id domain ≡ Db.ok d
      → Kept u m.db (protocol_of h cfg lower_other m u on now domain d).1.db
  protocol_of-Kept m u on now domain d k q =
      elim (Bool-cases (same_flag h cfg lower_other d.proxy_protocol on)) [
        | inl e ↦ rw e (Kept-refl u m.db k)
        | inr e ↦
            let db = set_domain_protocol m.db d.id on now in
            let owned = get_domain-AllOwned m.db u.id domain d k.ids q in
            let first = set_domain_protocol-others m.db u.id d.id on now owned in
            rw e (
              written-Kept u m db (set_domain_protocol db d.id d.proxy_protocol now)
                (write_domain h cfg.traefik_dir domain (dotted u.ip) on m.sys)
                (record { others = first; ready = set-Ready u m.db d.id on now k })
                (record {
                  others = SameOthers_trans first (
                      set_domain_protocol-others db u.id d.id d.proxy_protocol now
                        (set_domain_protocol-AllOwned m.db u.id d.id on now owned));
                  ready = set-Ready u db d.id d.proxy_protocol now (set-Ready u m.db d.id on now k);
                }))
      ]

  on_row-Kept :
      (m : State S) (u : User) (on : Bool) (now domain : Text) (r : DbResult Domain)
      → Ready u m.db
      → get_domain m.db u.id domain ≡ r
      → Kept u m.db
          (on_row h cfg lower_other m domain r (protocol_of h cfg lower_other m u on now)).1.db
  on_row-Kept m u on now domain (Db.err e) k q = Kept-refl u m.db k
  on_row-Kept m u on now domain (Db.ok d) k q = protocol_of-Kept m u on now domain d k q

  for_domain-Kept :
      (m : State S) (u : User) (on : Bool) (now : Text) (n : DomainResult)
      → Ready u m.db
      → Kept u m.db
          (for_domain h cfg lower_other m u n (protocol_of h cfg lower_other m u on now)).1.db
  for_domain-Kept m u on now (Names.err e) k = Kept-refl u m.db k
  for_domain-Kept m u on now (Names.ok domain) k =
      on_row-Kept m u on now domain (get_domain m.db u.id domain) k refl

  pub set_protocol-Kept :
      (m : State S) (u : User) (domain : Text) (on : Bool) (now : Text)
      → Ready u m.db
      → Kept u m.db (set_protocol h cfg lower_other m u.name domain on now).1.db
  unfolding set_protocol
  set_protocol-Kept m u domain on now k =
      rw k.owns (for_domain-Kept m u on now (normalize_domain lower_other domain) k)
