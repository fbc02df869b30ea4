-- ===== src/Db/Users.antt =====
-- The users table (src/internal/db/user.go).
pub mod Cascade
pub mod Inserted
use lxc_hosting.Base.{
  ℕ, ◌+◌, Bool, true, ◌||◌, List, [], ◌∷◌, ◌++◌, ltb, ◌==◌, if◌then◌else◌, Text, text_eq, Option,
  none, some, first_where, all_where, update_where, delete_where, has_row, sort_by, map, ◌≡◌, arith,
}
use lxc_hosting.Address.Ports.{Ipv4}
use lxc_hosting.Address.Pool.{PoolResult, next_free_idx}
use lxc_hosting.Db.{User, Domain, Session, Traffic, Db, DbResult, ok, err, constraint, no_rows}

-- the rows with which the UNIQUE columns of a new row would collide
abbrev pub clashes : User → User → Bool
clashes u v = text_eq u.name v.name || u.idx == v.idx || u.ssh_port == v.ssh_port

unfoldable pub insert_user : Db → User → DbResult (User × Db)
insert_user db u =
    if has_row (clashes u) db.users
    then err constraint
    else ok (u, record db { users = db.users ++ u ∷ []; next_user = db.next_user + 1 })

unfoldable pub create_user :
    Db → Text → Text → Ipv4 → ℕ → ℕ → ℕ → ℕ → ℕ → ℕ → Text → DbResult (User × Db)
unfolding insert_user
create_user db name pass_hash ip idx ssh_port start_port cpu mem_mb disk_gb now =
    insert_user db (record {
      id = db.next_user;
      name = name;
      pass_hash = pass_hash;
      idx = idx;
      ip = ip;
      ssh_port = ssh_port;
      start_port = start_port;
      init_script = [];
      cpu = cpu;
      mem_mb = mem_mb;
      disk_gb = disk_gb;
      created_at = now;
      traffic_quota_gb = 0;
    })

abbrev pub or_no_rows {ℓ} : {A : Type ℓ} → Option A → DbResult A
or_no_rows none = err no_rows
or_no_rows (some a) = ok a

unfoldable pub get_user_by_name : Db → Text → DbResult User
get_user_by_name db name = or_no_rows (first_where (λ u. text_eq u.name name) db.users)

unfoldable pub get_user_by_id : Db → ℕ → DbResult User
get_user_by_id db id = or_no_rows (first_where (λ u. u.id == id) db.users)

unfoldable pub list_users : Db → List User
list_users db = sort_by (λ u v. ltb u.idx v.idx) db.users

-- The columns that NextFreeIdx and UsedSSHPorts read.
unfoldable pub used_idxs : Db → List ℕ
used_idxs db = map (λ u. u.idx) db.users

unfoldable pub used_ssh_ports : Db → List ℕ
used_ssh_ports db = map (λ u. u.ssh_port) db.users

unfoldable pub pick_idx : Db → Option ℕ → PoolResult
unfolding used_idxs
pick_idx db random = next_free_idx (used_idxs db) random

-- ON DELETE CASCADE takes the user's domains, sessions and traffic along.
unfoldable pub delete_user : Db → ℕ → Db
delete_user db id = record db {
  users = delete_where (λ u. u.id == id) db.users;
  domains = delete_where (λ d. d.user_id == id) db.domains;
  sessions = delete_where (λ s. s.user_id == id) db.sessions;
  traffic = delete_where (λ t. t.user_id == id) db.traffic;
}

unfoldable pub update_password : Db → ℕ → Text → Db
update_password db id pass_hash = record db {
  users = update_where (λ u. u.id == id) (λ u. record u { pass_hash = pass_hash }) db.users;
}

unfoldable pub update_quotas : Db → ℕ → ℕ → ℕ → ℕ → Db
update_quotas db id cpu mem_mb disk_gb = record db {
  users =
      update_where (λ u. u.id == id)
        (λ u. record u { cpu = cpu; mem_mb = mem_mb; disk_gb = disk_gb }) db.users;
}

unfoldable pub update_init_script : Db → ℕ → Text → Db
update_init_script db id script = record db {
  users = update_where (λ u. u.id == id) (λ u. record u { init_script = script }) db.users;
}

unfoldable pub update_traffic_quota : Db → ℕ → ℕ → Db
update_traffic_quota db id gb = record db {
  users = update_where (λ u. u.id == id) (λ u. record u { traffic_quota_gb = gb }) db.users;
}

pub or_no_rows-ok {ℓ} : {A : Type ℓ} (o : Option A) (a : A) → or_no_rows o ≡ ok a → o ≡ some a
or_no_rows-ok none a h = cc
or_no_rows-ok (some b) a h = ground arith
