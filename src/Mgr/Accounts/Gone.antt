-- ===== src/Mgr/Accounts/Gone.antt =====
-- What a Del leaves behind in the database and in the map of throttled containers
-- (src/internal/mgr/mgr.go).
use lxc_hosting.Base.{
  ℕ, ◌≡◌, ◌≢◌, refl, Bool, true, false, not, List, ◌==◌, Text, text_eq, text_eq_iff, first_where,
  first_where-delete_unique, All, All-delete_where, Option, none, some, Bool-cases, inl, inr, ap,
  ◌∙◌, if◌then◌else◌, arith,
}
use lxc_hosting.Names.{validate_name}
use lxc_hosting.Db.{User, Domain, Session, Traffic, Db, DbResult, no_rows}
use lxc_hosting.Db
use lxc_hosting.Db.Users.{get_user_by_name, get_user_by_id, delete_user, or_no_rows, or_no_rows-ok}
use lxc_hosting.Db.Users.Cascade.{delete_user-gone}
use lxc_hosting.Db.Users.Inserted.{SameRows, SameRows-refl}
use lxc_hosting.Db.Sessions.{delete_sessions_for_user}
use lxc_hosting.Db.Valid.{IsValid}
use lxc_hosting.Host.{Calls, on_success}
use lxc_hosting.Host.Lx.{delete_container}
use lxc_hosting.Mgr.{Config, State, Done, ok, err, call_failed}
use lxc_hosting.Mgr.Limits.{is_throttled}
use lxc_hosting.Mgr.Limits.Settled.{is_in-drop_same}
use lxc_hosting.Mgr.Accounts.{del, del_found, dropped, remove_domains}
use lxc_hosting.Db.Domains.{list_domains}
use lxc_hosting.Host.Files.{remove_user}

module _ {S : Type 0} (h : Calls S) (cfg : Config) where
  -- Nothing of a user is left: the name, the rows that belong to the user, and the mark of a
  -- throttled container. All other users are as before.
  pub record IsGone (m m' : State S) (name : Text) (u : User) : Type 0 where
    pub was_there : get_user_by_name m.db name ≡ Db.ok u
    pub not_found : get_user_by_name m'.db name ≡ Db.err no_rows
    pub no_domains : All (λ d. (d.user_id == u.id) ≡ false) m'.db.domains
    pub no_sessions : All (λ s. (s.user_id == u.id) ≡ false) m'.db.sessions
    pub no_traffic : All (λ t. (t.user_id == u.id) ≡ false) m'.db.traffic
    pub unmarked : is_throttled m' name ≡ false
    pub others : (other : ℕ) → other ≢ u.id → get_user_by_id m'.db other ≡ get_user_by_id m.db other

  is_throttled-dropped :
      (db : Db) (s : S) (name : Text) (o : Option (List Text))
      → is_throttled (record { db = db; sys = s; throttled = dropped h cfg name o }) name ≡ false
  unfolding is_throttled
  is_throttled-dropped db s name none = refl
  is_throttled-dropped db s name (some names) = is_in-drop_same name names

  abbrev pub Deleted : State S → Text → Done × State S → Type 0
  Deleted m name (err e, m') = SameRows m.db m'.db × (m'.throttled ≡ m.throttled)
  Deleted m name (ok _, m') = (u : User) × IsGone m m' name u

  gone :
      (m : State S) (name : Text) (u : User) (s : S)
      → IsValid m.db
      → get_user_by_name m.db name ≡ Db.ok u
      → IsGone m
          (record m {
            db = delete_sessions_for_user (delete_user m.db u.id) u.id;
            sys = s;
            throttled = dropped h cfg name m.throttled;
          })
          name
          u
  unfolding delete_user delete_sessions_for_user get_user_by_name get_user_by_id
  gone m name u s valid q =
      let k = delete_user-gone m.db u.id in
      let f = or_no_rows-ok (first_where (λ x. text_eq x.name name) m.db.users) u q in
      let own : ◌≡◌ {A = Option User} (if u.id == u.id then none else some u) none = ground arith in
      record {
        was_there = q;
        not_found = ap or_no_rows (
            first_where-delete_unique (λ x. x.name) (λ x. text_eq x.name name) (λ x. x.id == u.id)
              name m.db.users u (λ x. (text_eq_iff x.name name).0) valid.users.names f
            ∙ own);
        no_domains = k.1;
        no_sessions =
            All-delete_where (λ (s : Session). (s.user_id == u.id) ≡ false) (λ s. s.user_id == u.id)
              (delete_user m.db u.id).sessions k.2;
        no_traffic = k.3;
        unmarked =
            is_throttled-dropped (delete_sessions_for_user (delete_user m.db u.id) u.id) s name
              m.throttled;
        others = k.4;
      }

  on_success-Deleted :
      (m : State S) (name : Text) (c : Bool × S) (good bad : S → Done × State S)
      → ((s : S) → Deleted m name (good s))
      → ((s : S) → Deleted m name (bad s))
      → Deleted m name (on_success c good bad)
  on_success-Deleted m name (true, s) good bad k l = k s
  on_success-Deleted m name (false, s) good bad k l = l s

  del_found-Deleted :
      (m : State S) (name : Text) (r : DbResult User)
      → IsValid m.db
      → get_user_by_name m.db name ≡ r
      → Deleted m name (del_found h cfg m name r)
  del_found-Deleted m name (Db.err e) valid q = (SameRows-refl m.db, refl)
  del_found-Deleted m name (Db.ok u) valid q =
      let rest : S → S = λ s.
        remove_domains h cfg (list_domains m.db u.id)
          (h.nft_reload (remove_user h cfg.nft_dir name (h.unwire_ipv6 name s)).1).1 in
      on_success-Deleted m name (delete_container h name m.sys)
        (λ s. (
          ok tt,
          record m {
            db = delete_sessions_for_user (delete_user m.db u.id) u.id;
            sys = rest s;
            throttled = dropped h cfg name m.throttled;
          },
        ))
        (λ s. (err call_failed, record m { sys = s })) (λ s. (u, gone m name u (rest s) valid q))
        (λ s. (SameRows-refl m.db, refl))

  -- In a valid database, a Del that fails changes no row and no mark. One that succeeds leaves
  -- nothing of the user: not the name, no domain, session or traffic, and no mark of a throttled
  -- container; all other users are found as before.
  pub del-Deleted : (m : State S) (name : Text) → IsValid m.db → Deleted m name (del h cfg m name)
  unfolding del
  del-Deleted m name valid = elim (Bool-cases (not (validate_name name))) [
    | inl e ↦ rw e (SameRows-refl m.db, refl)
    | inr e ↦ rw e (del_found-Deleted m name (get_user_by_name m.db name) valid refl)
  ]
