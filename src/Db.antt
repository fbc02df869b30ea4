-- ===== src/Db.antt =====
-- The SQLite database (src/internal/db): its tables as lists of rows, in the order of insertion.
-- An operation is the meaning of its SQL statement; a time stamp is an argument.
pub mod Users
pub mod Domains
pub mod Sessions
pub mod Counters
pub mod Audit
pub mod Settings
pub mod Migrate
pub mod Valid
pub mod Keeps
pub mod Others
mod Tests
use lxc_hosting.Base.{ℕ, Bool, Text, List, []}
use lxc_hosting.Address.Ports.{Ipv4}

pub record User : Type 0 where
  pub id : ℕ
  pub name : Text
  pub pass_hash : Text
  pub idx : ℕ
  pub ip : Ipv4
  pub ssh_port : ℕ
  pub start_port : ℕ
  pub init_script : Text
  pub cpu : ℕ
  pub mem_mb : ℕ
  pub disk_gb : ℕ
  pub created_at : Text
  pub traffic_quota_gb : ℕ

pub record Domain : Type 0 where
  pub id : ℕ
  pub user_id : ℕ
  pub domain : Text
  pub proxy_protocol : Bool
  pub created_at : Text
  pub updated_at : Text

pub record Session : Type 0 where
  pub token : Text
  pub user_id : ℕ
  pub expires_at : ℕ

pub record Traffic : Type 0 where
  pub user_id : ℕ
  pub period : Text
  pub upload : ℕ
  pub download : ℕ
  pub last_rx : ℕ
  pub last_tx : ℕ

pub record AuditLog : Type 0 where
  pub id : ℕ
  pub actor : Text
  pub action : Text
  pub created_at : Text

pub record Setting : Type 0 where
  pub key : Text
  pub value : Text

-- `next_…` are the AUTOINCREMENT counters: ids that were never given.
pub record Db : Type 0 where
  pub users : List User
  pub next_user : ℕ
  pub domains : List Domain
  pub next_domain : ℕ
  pub sessions : List Session
  pub traffic : List Traffic
  pub audit_log : List AuditLog
  pub next_audit : ℕ
  pub settings : List Setting
  pub user_version : ℕ

pub data DbError : Type 0 where
  constraint no_rows domain_not_found session_expired : DbError

pub data DbResult {ℓ} (A : Type ℓ) : Type ℓ where
  ok : A → DbResult A
  err : DbError → DbResult A

abbrev pub empty_db : Db
empty_db = record {
  users = [];
  next_user = 1;
  domains = [];
  next_domain = 1;
  sessions = [];
  traffic = [];
  audit_log = [];
  next_audit = 1;
  settings = [];
  user_version = 1;
}
