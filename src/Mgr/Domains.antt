-- ===== src/Mgr/Domains.antt =====
-- The domain operations (src/internal/mgr/mgr.go): AddDomain, DelDomain, SetDomainProtocol, their
-- admin variants, and SyncAllDomains.
pub mod Undone
pub mod Gone
use lxc_hosting.Base.{
  ℕ, Bool, true, false, ◌||◌, ◌&&◌, not, List, [], ◌∷◌, if◌then◌else◌, Text, text_eq, codes, Option,
  none, some, Map, has_row,
}
use lxc_hosting.Names.{DomainResult, normalize_domain, to_lower}
use lxc_hosting.Names
use lxc_hosting.Address.Ports.{Ipv4}
use lxc_hosting.Std.Strconv.{itoa}
use lxc_hosting.Db.{User, Domain, Db, DbResult}
use lxc_hosting.Db
use lxc_hosting.Db.Users.{get_user_by_name, get_user_by_id}
use lxc_hosting.Db.Domains.{
  add_domain, get_domain, get_domain_by_domain, set_domain_protocol, delete_domain, domain_exists,
  DomainView, list_all_domains,
}
use lxc_hosting.Db.Settings.{get_setting, setting_v4_forward}
use lxc_hosting.Host.{Calls}
use lxc_hosting.Host.Files.{concat, write_domain, remove_domain}
use lxc_hosting.Mgr.{
  Config, State, Done, ok, err, db_error, domain_error, forwarding_off, domain_bound, call_failed,
}

-- V4ForwardLive: the setting, or the configuration where it is absent
unfoldable pub v4_forward_live : Config → Db → Bool
v4_forward_live cfg db = elim (get_setting db setting_v4_forward) [
  | none ↦ cfg.v4_forward
  | some v ↦ text_eq v (codes "1") || text_eq (to_lower (λ c. c) v) (codes "true")
]

unfoldable pub dotted : Ipv4 → Text
dotted ip =
    concat (itoa ip.a ∷ codes "." ∷ itoa ip.b ∷ codes "." ∷ itoa ip.c ∷ codes "." ∷ itoa ip.d ∷ [])

-- a rollback whose own error is ignored
abbrev pub or_keep : Db → DbResult Db → Db
or_keep db (Db.ok db') = db'
or_keep db (Db.err e) = db

module _ {S : Type 0} (h : Calls S) (cfg : Config) (lower_other : ℕ → ℕ) where
  -- a database change that is taken back if the file cannot be written
  abbrev pub written : State S → Db → Db → Bool × S → Done × State S
  written m db undone (true, s) = (ok tt, record m { db = db; sys = s })
  written m db undone (false, s) = (err call_failed, record m { db = undone; sys = s })

  abbrev pub with_row : State S → User → Text → Bool → DbResult (Domain × Db) → Done × State S
  with_row m u domain on (Db.err e) = (err (db_error e), m)
  with_row m u domain on (Db.ok (d, db)) =
      written m db (or_keep db (delete_domain db u.id domain))
        (write_domain h cfg.traefik_dir domain (dotted u.ip) on m.sys)

  abbrev pub bind_domain : State S → User → Bool → Text → DomainResult → Done × State S
  bind_domain m u on now (Names.err e) = (err (domain_error e), m)
  bind_domain m u on now (Names.ok domain) =
      if domain_exists m.db domain
      then (err domain_bound, m)
      else with_row m u domain on (add_domain m.db u.id domain on now)

  abbrev pub for_user : State S → DbResult User → (User → Done × State S) → Done × State S
  for_user m (Db.err e) act = (err (db_error e), m)
  for_user m (Db.ok u) act = act u

  -- AddDomain
  unfoldable pub bind : State S → Text → Text → Bool → Text → Done × State S
  bind m name domain on now =
      if not (v4_forward_live cfg m.db)
      then (err forwarding_off, m)
      else for_user m (get_user_by_name m.db name)
          (λ u. bind_domain m u on now (normalize_domain lower_other domain))

  abbrev pub on_row :
      State S → Text → DbResult Domain → (Text → Domain → Done × State S) → Done × State S
  on_row m domain (Db.err e) act = (err (db_error e), m)
  on_row m domain (Db.ok d) act = act domain d

  abbrev pub for_domain :
      State S → User → DomainResult → (Text → Domain → Done × State S) → Done × State S
  for_domain m u (Names.err e) act = (err (domain_error e), m)
  for_domain m u (Names.ok domain) act = on_row m domain (get_domain m.db u.id domain) act

  -- the row again, with the old flag, a new id and new time stamps
  abbrev pub reinserted : Db → DbResult (Domain × Db) → Db
  reinserted db (Db.ok (d, db')) = db'
  reinserted db (Db.err e) = db

  abbrev pub without_row : State S → User → Text → Domain → Text → DbResult Db → Done × State S
  without_row m u domain d now (Db.err e) = (err (db_error e), m)
  without_row m u domain d now (Db.ok db) =
      written m db (reinserted db (add_domain db u.id domain d.proxy_protocol now))
        (remove_domain h cfg.traefik_dir domain m.sys)

  -- DelDomain
  unfoldable pub unbind : State S → Text → Text → Text → Done × State S
  unbind m name domain now = for_user m (get_user_by_name m.db name) (λ u.
      for_domain m u (normalize_domain lower_other domain)
        (λ e d. without_row m u e d now (delete_domain m.db u.id e)))

  abbrev pub same_flag : Bool → Bool → Bool
  same_flag true on = on
  same_flag false on = not on

  abbrev pub protocol_of : State S → User → Bool → Text → Text → Domain → Done × State S
  protocol_of m u on now domain d =
      if same_flag d.proxy_protocol on
      then (ok tt, m)
      else (let db = set_domain_protocol m.db d.id on now in
          written m db (set_domain_protocol db d.id d.proxy_protocol now)
            (write_domain h cfg.traefik_dir domain (dotted u.ip) on m.sys))

  -- SetDomainProtocol
  unfoldable pub set_protocol : State S → Text → Text → Bool → Text → Done × State S
  set_protocol m name domain on now =
      for_user m (get_user_by_name m.db name)
        (λ u. for_domain m u (normalize_domain lower_other domain) (protocol_of m u on now))

  -- the owner of a domain, for the admin panel
  abbrev pub as_owner : State S → DbResult Domain → (User → Done × State S) → Done × State S
  as_owner m (Db.err e) act = (err (db_error e), m)
  as_owner m (Db.ok d) act = for_user m (get_user_by_id m.db d.user_id) act

  unfoldable pub admin_set_protocol : State S → Text → Bool → Text → Done × State S
  unfolding set_protocol
  admin_set_protocol m domain on now =
      as_owner m (get_domain_by_domain m.db domain) (λ u. set_protocol m u.name domain on now)

  unfoldable pub admin_unbind : State S → Text → Text → Done × State S
  unfolding unbind
  admin_unbind m domain now =
      as_owner m (get_domain_by_domain m.db domain) (λ u. unbind m u.name domain now)

  -- SyncAllDomains: every domain's file, then the files without a domain
  unfoldable pub write_all : List DomainView → S → Bool × S
  write_all [] s = (true, s)
  write_all (d ∷ ds) s =
      let (fine, s1) = write_domain h cfg.traefik_dir d.domain (dotted d.ip) d.proxy_protocol s in
      let (rest, s2) = write_all ds s1 in (fine && rest, s2)

  unfoldable pub remove_orphans : List DomainView → List Text → S → Bool × S
  remove_orphans known [] s = (true, s)
  remove_orphans known (f ∷ fs) s =
      let (fine, s1) =
        (if has_row (λ d. text_eq d.domain f) known
          then (true, s)
          else remove_domain h cfg.traefik_dir f s) in
      let (rest, s2) = remove_orphans known fs s1 in (fine && rest, s2)

  -- ListFiles: the names of the files that end in ".yaml", without it
  unfoldable pub yaml_stem : Text → Option Text
  yaml_stem [] = none
  yaml_stem (c ∷ name) =
      let rest = yaml_stem name in
      if text_eq (c ∷ name) (codes ".yaml")
      then some []
      else elim rest [ none ↦ none | some stem ↦ some (c ∷ stem) ]

  -- an entry of the directory, and whether it is one itself
  unfoldable pub list_files : Map Bool → List Text
  unfolding yaml_stem
  list_files [] = []
  list_files ((name, is_dir) ∷ ents) =
      let rest = list_files ents in
      if is_dir then rest else elim (yaml_stem name) [ none ↦ rest | some stem ↦ stem ∷ rest ]

  abbrev sync_files : List DomainView → Bool → Option (Map Bool) × S → Bool × S
  sync_files ds fine (none, s) = (false, s)
  sync_files ds fine (some ents, s) =
      let (rest, s1) = remove_orphans ds (list_files ents) s in (fine && rest, s1)

  unfoldable pub sync_all_domains : Db → S → Bool × S
  unfolding write_all remove_orphans list_files
  sync_all_domains db s =
      let ds = list_all_domains db in
      let (fine, s1) = write_all ds s in sync_files ds fine (h.read_dir cfg.traefik_dir s1)
