-- ===== src/Mgr/Domains/Undone.antt =====
-- The rows behind an AddDomain that fails (src/internal/mgr/mgr.go).
use lxc_hosting.Base.{
  ℕ, ◌+◌, ◌≡◌, refl, subst, Bool, true, false, List, [], ◌∷◌, ◌++◌, ◌==◌, Text, text_eq,
  text_eq_refl, has_row, delete_where, Bool-cases, inl, inr, arith,
}
use lxc_hosting.Names.{DomainResult, normalize_domain}
use lxc_hosting.Names
use lxc_hosting.Db.{User, Domain, Db, DbResult}
use lxc_hosting.Db
use lxc_hosting.Db.Users.{get_user_by_name}
use lxc_hosting.Db.Domains.{owned, add_domain, delete_domain, domain_exists}
use lxc_hosting.Host.{Calls}
use lxc_hosting.Host.Files.{write_domain}
use lxc_hosting.Mgr.{Config, State, MgrError, Done, err}
use lxc_hosting.Mgr.Domains.{
  v4_forward_live, dotted, or_keep, written, with_row, bind_domain, for_user, bind,
}

snoc-owned :
    (d : Domain) (ds : List Domain)
    → has_row (λ x. text_eq x.domain d.domain) ds ≡ false
    → (has_row (owned d.user_id d.domain) (ds ++ d ∷ []) ≡ true)
      × (delete_where (owned d.user_id d.domain) (ds ++ d ∷ []) ≡ ds)
unfolding has_row delete_where
snoc-owned d [] h = ground (arith, text_eq_refl d.domain)
snoc-owned d (x ∷ ds) h = ground (arith, snoc-owned d ds)

-- An insertion that is taken back leaves the rows that were there.
add_domain-taken_back :
    (db db' : Db) (user_id : ℕ) (domain : Text) (on : Bool) (now : Text) (d : Domain)
    → add_domain db user_id domain on now ≡ Db.ok (d, db')
    → (or_keep db' (delete_domain db' user_id domain)).domains ≡ db.domains
unfolding add_domain delete_domain
add_domain-taken_back db db' user_id domain on now d h =
    let new : Domain = record {
      id = db.next_domain;
      user_id = user_id;
      domain = domain;
      proxy_protocol = on;
      created_at = now;
      updated_at = now;
    } in
    let after : Db = record db {
      domains = db.domains ++ new ∷ [];
      next_domain = db.next_domain + 1;
    } in
    elim (Bool-cases (has_row (λ x. text_eq x.domain domain) db.domains)) [
      | inl e ↦ absurd (cc (rw e at h))
      | inr e ↦ elim (Bool-cases (has_row (λ u. u.id == user_id) db.users)) [
        | inr f ↦ absurd (cc (rw (e, f) at h))
        | inl f ↦
            let q : after ≡ db' = ground (arith, e, f, h) in
            let k = snoc-owned new db.domains e in
            subst (λ x. (or_keep x (delete_domain x user_id domain)).domains ≡ db.domains) q
              (rw k.0 k.1)
      ]
    ]

module _ {S : Type 0} (h : Calls S) (cfg : Config) (lower_other : ℕ → ℕ) where
  -- an error leaves the rows of domains as they were
  abbrev Undone : State S → Done × State S → Type 0
  Undone m r = (e : MgrError) → r.0 ≡ err e → r.1.db.domains ≡ m.db.domains

  written-Undone :
      (m : State S) (db undone : Db) (c : Bool × S)
      → undone.domains ≡ m.db.domains
      → Undone m (written h cfg lower_other m db undone c)
  written-Undone m db undone (true, s) k e q = absurd (cc q)
  written-Undone m db undone (false, s) k e q = k

  with_row-Undone :
      (m : State S) (u : User) (domain : Text) (on : Bool) (now : Text) (r : DbResult (Domain × Db))
      → add_domain m.db u.id domain on now ≡ r
      → Undone m (with_row h cfg lower_other m u domain on r)
  with_row-Undone m u domain on now (Db.err x) k = λ e q. refl
  with_row-Undone m u domain on now (Db.ok (d, db)) k =
      written-Undone m db (or_keep db (delete_domain db u.id domain))
        (write_domain h cfg.traefik_dir domain (dotted u.ip) on m.sys)
        (add_domain-taken_back m.db db u.id domain on now d k)

  bind_domain-Undone :
      (m : State S) (u : User) (on : Bool) (now : Text) (n : DomainResult)
      → Undone m (bind_domain h cfg lower_other m u on now n)
  bind_domain-Undone m u on now (Names.err x) = λ e q. refl
  bind_domain-Undone m u on now (Names.ok domain) = elim (Bool-cases (domain_exists m.db domain)) [
    | inl t ↦ rw t (λ e q. refl)
    | inr t ↦ rw t (with_row-Undone m u domain on now (add_domain m.db u.id domain on now) refl)
  ]

  for_user-Undone :
      (m : State S) (r : DbResult User) (act : User → Done × State S)
      → ((u : User) → Undone m (act u))
      → Undone m (for_user h cfg lower_other m r act)
  for_user-Undone m (Db.err x) act k = λ e q. refl
  for_user-Undone m (Db.ok u) act k = k u

  -- An AddDomain that fails, at whatever point, leaves the rows of all domains as they were: where
  -- the traefik file cannot be written, the new row is deleted again and no other one.
  pub bind-undone :
      (m : State S) (name domain : Text) (on : Bool) (now : Text) (e : MgrError)
      → (bind h cfg lower_other m name domain on now).0 ≡ err e
      → (bind h cfg lower_other m name domain on now).1.db.domains ≡ m.db.domains
  unfolding bind
  bind-undone m name domain on now = elim (Bool-cases (v4_forward_live cfg m.db)) [
    | inr t ↦ rw t (λ e q. refl)
    | inl t ↦ rw t (
        for_user-Undone m (get_user_by_name m.db name)
          (λ u. bind_domain h cfg lower_other m u on now (normalize_domain lower_other domain))
          (λ u. bind_domain-Undone m u on now (normalize_domain lower_other domain)))
  ]
