-- ===== src/Db/Keeps/Users.antt =====
-- Well-formedness and the statements on users (src/internal/db/user.go).
use lxc_hosting.Base.{
  ℕ, ◌+◌, ◌<◌, ◌≡◌, ◌≢◌, refl, subst, ◌∙◌, Bool, true, false, List, [], ◌∷◌, ◌++◌, ◌==◌, Text,
  text_eq_iff, arith, All, All-imp, All-append, All-delete_where, All-update_where, All-has_row,
  Unique-delete_where, Unique-update_where, Unique-snoc, has_row, has_row-append,
  has_row-update_where, has_row-delete_where, delete_where, update_where, Bool-cases, inl, inr,
}
use lxc_hosting.Address.Ports.{Ipv4}
use lxc_hosting.Db.{User, Db, ok}
use lxc_hosting.Db.Users.{
  clashes, insert_user, create_user, delete_user, update_password, update_quotas,
  update_init_script, update_traffic_quota,
}
use lxc_hosting.Db.Valid.{HasUser, IsValidUsers, IsValid}

-- A row that clashes with none of the others, with a fresh id, may be added.
add-IsValidUsers :
    (u : User) (users : List User) (next : ℕ)
    → u.id ≡ next
    → has_row (clashes u) users ≡ false
    → IsValidUsers users next
    → IsValidUsers (users ++ u ∷ []) (next + 1)
add-IsValidUsers u users next e h v =
    let new = All-has_row (clashes u) users h in
    record {
      below =
          All-append (λ x. x.id < next + 1) users (u ∷ [])
            (All-imp (λ x. x.id < next) (λ x. x.id < next + 1) users (λ x p. omega arith) v.below)
            (omega arith, tt);
      ids =
          Unique-snoc (λ x. x.id) users u v.ids
            (All-imp (λ x. x.id < next) (λ x. u.id ≢ x.id) users (λ x p. omega arith) v.below);
      names =
          Unique-snoc (λ x. x.name) users u v.names
            (All-imp (λ x. clashes u x ≡ false) (λ x. u.name ≢ x.name) users
              (λ x p. λ q. ground (arith, (text_eq_iff u.name x.name).1 q)) new);
      idxs =
          Unique-snoc (λ x. x.idx) users u v.idxs
            (All-imp (λ x. clashes u x ≡ false) (λ x. u.idx ≢ x.idx) users (λ x p. ground arith)
              new);
      ssh_ports =
          Unique-snoc (λ x. x.ssh_port) users u v.ssh_ports
            (All-imp (λ x. clashes u x ≡ false) (λ x. u.ssh_port ≢ x.ssh_port) users
              (λ x p. ground arith) new);
    }

HasUser-add :
    (u : User) (users : List User) (id : ℕ) → HasUser users id → HasUser (users ++ u ∷ []) id
HasUser-add u users id h = has_row-append (λ x. x.id == id) users (u ∷ []) h

insert_user-IsValid :
    (db db' : Db) (u w : User)
    → u.id ≡ db.next_user
    → IsValid db
    → insert_user db u ≡ ok (w, db')
    → IsValid db'
unfolding insert_user
insert_user-IsValid db db' u w fresh v h = elim (Bool-cases (has_row (clashes u) db.users)) [
  | inl e ↦ absurd (cc (rw e at h))
  | inr e ↦
      let q : record db { users = db.users ++ u ∷ []; next_user = db.next_user + 1 } ≡ db' =
        ground (arith, e, h) in
      let keep = HasUser-add u db.users in
      subst IsValid q (record {
        users = add-IsValidUsers u db.users db.next_user fresh e v.users;
        domains = record {
          below = v.domains.below;
          ids = v.domains.ids;
          names = v.domains.names;
          owners =
              All-imp (λ d. HasUser db.users d.user_id)
                (λ d. HasUser (db.users ++ u ∷ []) d.user_id) db.domains (λ d. keep d.user_id)
                v.domains.owners;
        };
        sessions = record {
          tokens = v.sessions.tokens;
          owners =
              All-imp (λ d. HasUser db.users d.user_id)
                (λ d. HasUser (db.users ++ u ∷ []) d.user_id) db.sessions (λ d. keep d.user_id)
                v.sessions.owners;
        };
        traffic = record {
          user_ids = v.traffic.user_ids;
          owners =
              All-imp (λ d. HasUser db.users d.user_id)
                (λ d. HasUser (db.users ++ u ∷ []) d.user_id) db.traffic (λ d. keep d.user_id)
                v.traffic.owners;
        };
      })
]

-- A successful INSERT of a user keeps the database well formed.
pub create_user-IsValid :
    (db db' : Db) (name pass_hash : Text) (ip : Ipv4) (idx ssh_port start_port cpu mem disk : ℕ)
    (now : Text) (u : User)
    → IsValid db
    → create_user db name pass_hash ip idx ssh_port start_port cpu mem disk now ≡ ok (u, db')
    → IsValid db'
unfolding create_user
create_user-IsValid db db' name pass_hash ip idx ssh_port start_port cpu mem disk now u v h =
    insert_user-IsValid db db' _ u refl v h

not_owner : (k id : ℕ) → (k == id) ≡ false → (u : User) → (u.id == id) ≡ true → (u.id == k) ≡ false
not_owner k id h u e = ground arith

-- A row that refers to another user keeps its user.
owners_left {ℓ} :
    {A : Type ℓ} (users : List User) (id : ℕ) (owner : A → ℕ) (rows : List A)
    → All (λ a. HasUser users (owner a)) rows
    → All
        (λ a. HasUser (delete_where (λ u. u.id == id) users) (owner a))
        (delete_where (λ a. owner a == id) rows)
unfolding delete_where
owners_left users id owner [] h = tt
owners_left users id owner (a ∷ rows) h = elim (Bool-cases (owner a == id)) [
  | inl e ↦ rw e (owners_left users id owner rows h.1)
  | inr e ↦ rw e (
    (has_row-delete_where (λ u. u.id == owner a) (λ u. u.id == id) users (not_owner (owner a) id e)
        ∙ h.0),
    owners_left users id owner rows h.1,
  )
]

-- Deleting a user takes every row along that refers to it, and keeps the database well formed.
pub delete_user-IsValid : (db : Db) (id : ℕ) → IsValid db → IsValid (delete_user db id)
unfolding delete_user
delete_user-IsValid db id v = record {
  users = record {
    below = All-delete_where (λ u. u.id < db.next_user) (λ u. u.id == id) db.users v.users.below;
    ids = Unique-delete_where (λ u. u.id) (λ u. u.id == id) db.users v.users.ids;
    names = Unique-delete_where (λ u. u.name) (λ u. u.id == id) db.users v.users.names;
    idxs = Unique-delete_where (λ u. u.idx) (λ u. u.id == id) db.users v.users.idxs;
    ssh_ports = Unique-delete_where (λ u. u.ssh_port) (λ u. u.id == id) db.users v.users.ssh_ports;
  };
  domains = record {
    below =
        All-delete_where (λ d. d.id < db.next_domain) (λ d. d.user_id == id) db.domains
          v.domains.below;
    ids = Unique-delete_where (λ d. d.id) (λ d. d.user_id == id) db.domains v.domains.ids;
    names = Unique-delete_where (λ d. d.domain) (λ d. d.user_id == id) db.domains v.domains.names;
    owners = owners_left db.users id (λ d. d.user_id) db.domains v.domains.owners;
  };
  sessions = record {
    tokens =
        Unique-delete_where (λ s. s.token) (λ s. s.user_id == id) db.sessions v.sessions.tokens;
    owners = owners_left db.users id (λ s. s.user_id) db.sessions v.sessions.owners;
  };
  traffic = record {
    user_ids =
        Unique-delete_where (λ t. t.user_id) (λ t. t.user_id == id) db.traffic v.traffic.user_ids;
    owners = owners_left db.users id (λ t. t.user_id) db.traffic v.traffic.owners;
  };
}

-- An UPDATE of other columns keeps the users table well formed.
module _ (p : User → Bool) (f : User → User) (id_kept : (u : User) → (f u).id ≡ u.id)
    (name_kept : (u : User) → (f u).name ≡ u.name) (idx_kept : (u : User) → (f u).idx ≡ u.idx)
    (port_kept : (u : User) → (f u).ssh_port ≡ u.ssh_port) where
  HasUser-update :
      (users : List User) (id : ℕ) → HasUser users id → HasUser (update_where p f users) id
  HasUser-update users id h = has_row-update_where (λ x. x.id == id) p f users (λ a. rw id_kept) ∙ h

  pub update-IsValid :
      (db : Db) → IsValid db → IsValid (record db { users = update_where p f db.users })
  update-IsValid db v = record {
    users = record {
      below =
          All-update_where (λ u. u.id < db.next_user) p f db.users (λ a h. rw id_kept h)
            v.users.below;
      ids = Unique-update_where (λ u. u.id) p f db.users id_kept v.users.ids;
      names = Unique-update_where (λ u. u.name) p f db.users name_kept v.users.names;
      idxs = Unique-update_where (λ u. u.idx) p f db.users idx_kept v.users.idxs;
      ssh_ports = Unique-update_where (λ u. u.ssh_port) p f db.users port_kept v.users.ssh_ports;
    };
    domains = record {
      below = v.domains.below;
      ids = v.domains.ids;
      names = v.domains.names;
      owners =
          All-imp (λ d. HasUser db.users d.user_id)
            (λ d. HasUser (update_where p f db.users) d.user_id) db.domains
            (λ d h. HasUser-update db.users d.user_id h) v.domains.owners;
    };
    sessions = record {
      tokens = v.sessions.tokens;
      owners =
          All-imp (λ d. HasUser db.users d.user_id)
            (λ d. HasUser (update_where p f db.users) d.user_id) db.sessions
            (λ d h. HasUser-update db.users d.user_id h) v.sessions.owners;
    };
    traffic = record {
      user_ids = v.traffic.user_ids;
      owners =
          All-imp (λ d. HasUser db.users d.user_id)
            (λ d. HasUser (update_where p f db.users) d.user_id) db.traffic
            (λ d h. HasUser-update db.users d.user_id h) v.traffic.owners;
    };
  }

pub update_password-IsValid :
    (db : Db) (id : ℕ) (h : Text) → IsValid db → IsValid (update_password db id h)
unfolding update_password
update_password-IsValid db id h =
    update-IsValid _ _ (λ u. refl) (λ u. refl) (λ u. refl) (λ u. refl) db

pub update_quotas-IsValid :
    (db : Db) (id cpu mem disk : ℕ) → IsValid db → IsValid (update_quotas db id cpu mem disk)
unfolding update_quotas
update_quotas-IsValid db id cpu mem disk =
    update-IsValid _ _ (λ u. refl) (λ u. refl) (λ u. refl) (λ u. refl) db

pub update_init_script-IsValid :
    (db : Db) (id : ℕ) (script : Text) → IsValid db → IsValid (update_init_script db id script)
unfolding update_init_script
update_init_script-IsValid db id script =
    update-IsValid _ _ (λ u. refl) (λ u. refl) (λ u. refl) (λ u. refl) db

pub update_traffic_quota-IsValid :
    (db : Db) (id gb : ℕ) → IsValid db → IsValid (update_traffic_quota db id gb)
unfolding update_traffic_quota
update_traffic_quota-IsValid db id gb =
    update-IsValid _ _ (λ u. refl) (λ u. refl) (λ u. refl) (λ u. refl) db
