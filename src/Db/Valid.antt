-- ===== src/Db/Valid.antt =====
-- The well-formedness of the database: what its UNIQUE columns, its AUTOINCREMENT counters and its
-- foreign keys promise.
use lxc_hosting.Base.{ℕ, ◌<◌, ◌≡◌, true, ◌==◌, All, Unique, has_row, List, arith}
use lxc_hosting.Db.{User, Domain, Session, Traffic, Db, empty_db}

-- the user that a row refers to is in the table
abbrev pub HasUser : List User → ℕ → Type 0
HasUser users id = has_row (λ u. u.id == id) users ≡ true

pub record IsValidUsers (users : List User) (next : ℕ) : Type 0 where
  pub below : All (λ u. u.id < next) users
  pub ids : Unique (λ u. u.id) users
  pub names : Unique (λ u. u.name) users
  pub idxs : Unique (λ u. u.idx) users
  pub ssh_ports : Unique (λ u. u.ssh_port) users

pub record IsValidDomains (users : List User) (domains : List Domain) (next : ℕ) : Type 0 where
  pub below : All (λ d. d.id < next) domains
  pub ids : Unique (λ d. d.id) domains
  pub names : Unique (λ d. d.domain) domains
  pub owners : All (λ d. HasUser users d.user_id) domains

pub record IsValidSessions (users : List User) (sessions : List Session) : Type 0 where
  pub tokens : Unique (λ s. s.token) sessions
  pub owners : All (λ s. HasUser users s.user_id) sessions

pub record IsValidTraffic (users : List User) (traffic : List Traffic) : Type 0 where
  pub user_ids : Unique (λ t. t.user_id) traffic
  pub owners : All (λ t. HasUser users t.user_id) traffic

pub record IsValid (db : Db) : Type 0 where
  pub users : IsValidUsers db.users db.next_user
  pub domains : IsValidDomains db.users db.domains db.next_domain
  pub sessions : IsValidSessions db.users db.sessions
  pub traffic : IsValidTraffic db.users db.traffic

pub empty_db-IsValid : IsValid empty_db
empty_db-IsValid = record {
  users = omega arith;
  domains = omega arith;
  sessions = omega arith;
  traffic = omega arith;
}
