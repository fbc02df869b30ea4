-- ===== src/Mgr/Others.antt =====
-- The rows of the other users under the operations of the manager for one user
-- (src/internal/mgr/mgr.go).
pub mod Flags
use lxc_hosting.Base.{
  ℕ, ◌*◌, ltb, ◌≡◌, refl, Bool, true, false, not, List, [], Text, text_eq, codes, Option, none,
  some, Unique, Bool-cases, inl, inr, arith,
}
use lxc_hosting.Names.{DomainResult, normalize_domain}
use lxc_hosting.Names
use lxc_hosting.Db.{User, Domain, Db, DbResult}
use lxc_hosting.Db
use lxc_hosting.Db.Users.{get_user_by_name}
use lxc_hosting.Db.Users.{update_password}
use lxc_hosting.Db.Domains.{add_domain, delete_domain, get_domain, domain_exists}
use lxc_hosting.Db.Others.{
  SameOthers, SameOthers_refl, SameOthers_trans, update_password-others, update_init_script-others,
  delete_sessions-others, add_domain-others, delete_domain-others,
}
use lxc_hosting.Std.Strings.{byte_length}
use lxc_hosting.Host.{Calls}
use lxc_hosting.Host.Files.{write_domain, remove_domain}
use lxc_hosting.Mgr.Domains.{
  v4_forward_live, dotted, or_keep, written, with_row, bind_domain, bind, reinserted, without_row,
  on_row, for_domain, unbind,
}
use lxc_hosting.Mgr.{Config, State, Done, ok, err}
use lxc_hosting.Mgr.Quotas.{power, set_init_script}
use lxc_hosting.Mgr.Accounts.{Draws, reinstall}
use lxc_hosting.Mgr.Passwords.{reset_root_password, with_hash, change_panel_password}

abbrev pub Owns : User → Db → Type 0
Owns u db = get_user_by_name db u.name ≡ Db.ok u

module _ {S : Type 0} (h : Calls S) (cfg : Config) where
  pub power-db : (m : State S) (name action : Text) → (power h m name action).1.db ≡ m.db
  unfolding power
  power-db m name action = ground arith

  pub reset_root-db :
      (m : State S) (name host pass : Text)
      → (reset_root_password h cfg m name host pass).1.db ≡ m.db
  unfolding reset_root_password
  reset_root-db m name host pass = ground arith

  pub reinstall-db :
      (m : State S) (name image : Text) (d : Draws) → (reinstall h cfg m name image d).1.db ≡ m.db
  unfolding reinstall
  reinstall-db m name image d = ground arith

module _ {S : Type 0} (hash : Text → Option Text) where
  with_hash-others :
      (m : State S) (u : User) (keep : Text) (o : Option Text)
      → SameOthers u.id m.db (with_hash hash m u keep o).1.db
  with_hash-others m u keep none = SameOthers_refl _ _
  with_hash-others m u keep (some pass_hash) =
      SameOthers_trans (update_password-others m.db u.id pass_hash)
        (delete_sessions-others (update_password m.db u.id pass_hash) u.id keep)

  pub change_password-others :
      (m : State S) (u : User) (pass keep : Text)
      → Owns u m.db
      → SameOthers u.id m.db (change_panel_password hash m u.name pass keep).1.db
  unfolding change_panel_password
  change_password-others m u pass keep own = rw own (with_hash-others m u keep (hash pass))

module _ {S : Type 0} (h : Calls S) where
  pub set_init_script-others :
      (m : State S) (u : User) (script : Text)
      → Owns u m.db
      → SameOthers u.id m.db (set_init_script h m u.name script).1.db
  unfolding set_init_script
  set_init_script-others m u script own = elim (Bool-cases (ltb (64 * 1024) (byte_length script))) [
    | inl e ↦ rw e (SameOthers_refl u.id m.db)
    | inr e ↦ rw (e, own) (update_init_script-others m.db u.id script)
  ]

module _ {S : Type 0} (h : Calls S) (cfg : Config) (lower_other : ℕ → ℕ) where
  written-others :
      (uid : ℕ) (m : State S) (db undone : Db) (c : Bool × S)
      → SameOthers uid m.db db
      → SameOthers uid m.db undone
      → SameOthers uid m.db (written h cfg lower_other m db undone c).1.db
  written-others uid m db undone (true, s) a b = a
  written-others uid m db undone (false, s) a b = b

  or_keep-others :
      (db : Db) (uid : ℕ) (domain : Text) (r : DbResult Db)
      → delete_domain db uid domain ≡ r
      → SameOthers uid db (or_keep db r)
  or_keep-others db uid domain (Db.err e) q = SameOthers_refl _ _
  or_keep-others db uid domain (Db.ok db') q = delete_domain-others db db' uid domain q

  with_row-others :
      (m : State S) (u : User) (domain : Text) (on : Bool) (now : Text) (r : DbResult (Domain × Db))
      → add_domain m.db u.id domain on now ≡ r
      → SameOthers u.id m.db (with_row h cfg lower_other m u domain on r).1.db
  with_row-others m u domain on now (Db.err e) q = SameOthers_refl _ _
  with_row-others m u domain on now (Db.ok (d, db)) q =
      let added = add_domain-others m.db db u.id domain on now d q in
      written-others u.id m db (or_keep db (delete_domain db u.id domain))
        (write_domain h cfg.traefik_dir domain (dotted u.ip) on m.sys) added
        (SameOthers_trans added (or_keep-others db u.id domain (delete_domain db u.id domain) refl))

  bind_domain-others :
      (m : State S) (u : User) (on : Bool) (now : Text) (n : DomainResult)
      → SameOthers u.id m.db (bind_domain h cfg lower_other m u on now n).1.db
  bind_domain-others m u on now (Names.err e) = SameOthers_refl _ _
  bind_domain-others m u on now (Names.ok domain) = elim (Bool-cases (domain_exists m.db domain)) [
    | inl e ↦ rw e (SameOthers_refl u.id m.db)
    | inr e ↦ rw e (with_row-others m u domain on now (add_domain m.db u.id domain on now) refl)
  ]

  pub bind-others :
      (m : State S) (u : User) (domain : Text) (on : Bool) (now : Text)
      → Owns u m.db
      → SameOthers u.id m.db (bind h cfg lower_other m u.name domain on now).1.db
  unfolding bind
  bind-others m u domain on now own = elim (Bool-cases (v4_forward_live cfg m.db)) [
    | inl e ↦ rw (e, own) (bind_domain-others m u on now (normalize_domain lower_other domain))
    | inr e ↦ rw e (SameOthers_refl u.id m.db)
  ]

  reinserted-others :
      (db : Db) (uid : ℕ) (domain : Text) (on : Bool) (now : Text) (r : DbResult (Domain × Db))
      → add_domain db uid domain on now ≡ r
      → SameOthers uid db (reinserted h cfg lower_other db r)
  reinserted-others db uid domain on now (Db.err e) q = SameOthers_refl _ _
  reinserted-others db uid domain on now (Db.ok (d, db')) q =
      add_domain-others db db' uid domain on now d q

  without_row-others :
      (m : State S) (u : User) (domain : Text) (d : Domain) (now : Text) (r : DbResult Db)
      → delete_domain m.db u.id domain ≡ r
      → SameOthers u.id m.db (without_row h cfg lower_other m u domain d now r).1.db
  without_row-others m u domain d now (Db.err e) q = SameOthers_refl _ _
  without_row-others m u domain d now (Db.ok db) q =
      let deleted = delete_domain-others m.db db u.id domain q in
      written-others u.id m db
        (reinserted h cfg lower_other db (add_domain db u.id domain d.proxy_protocol now))
        (remove_domain h cfg.traefik_dir domain m.sys) deleted
        (SameOthers_trans deleted (
          reinserted-others db u.id domain d.proxy_protocol now
            (add_domain db u.id domain d.proxy_protocol now) refl))

  on_row-others :
      (m : State S) (u : User) (domain now : Text) (r : DbResult Domain)
      → SameOthers u.id m.db
          (on_row h cfg lower_other m domain r
            (λ e d. without_row h cfg lower_other m u e d now (delete_domain m.db u.id e))).1.db
  on_row-others m u domain now (Db.err e) = SameOthers_refl _ _
  on_row-others m u domain now (Db.ok d) =
      without_row-others m u domain d now (delete_domain m.db u.id domain) refl

  unbound-others :
      (m : State S) (u : User) (now : Text) (n : DomainResult)
      → SameOthers u.id m.db
          (for_domain h cfg lower_other m u n
            (λ e d. without_row h cfg lower_other m u e d now (delete_domain m.db u.id e))).1.db
  unbound-others m u now (Names.err e) = SameOthers_refl _ _
  unbound-others m u now (Names.ok domain) =
      on_row-others m u domain now (get_domain m.db u.id domain)

  pub unbind-others :
      (m : State S) (u : User) (domain now : Text)
      → Owns u m.db
      → SameOthers u.id m.db (unbind h cfg lower_other m u.name domain now).1.db
  unfolding unbind
  unbind-others m u domain now own =
      rw own (unbound-others m u now (normalize_domain lower_other domain))
