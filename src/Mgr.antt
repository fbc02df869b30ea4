-- ===== src/Mgr.antt =====
-- The manager (src/internal/mgr) over the database and the calls of the host.
pub mod Quotas
pub mod Domains
pub mod Limits
pub mod Sampling
pub mod Accounts
pub mod Scripts
pub mod Passwords
pub mod Others
pub mod Forwarding
pub mod Fake
mod Tests
use lxc_hosting.Base.{ℕ, Bool, true, false, List, Text, Option, none, some}
use lxc_hosting.Address.Ports.{Subnet, Ipv4, IpError}
use lxc_hosting.Address.Pool.{PoolError}
use lxc_hosting.Names.{DomainError}
use lxc_hosting.Quota.Cpu.{CpuError}
use lxc_hosting.Db.{Db, DbError}

-- the fields of the configuration that the manager reads
pub record Config : Type 0 where
  pub pool : Text
  pub bridge : Text
  pub image : Text
  pub image_fallback : Text
  pub subnet : Subnet
  pub v4_forward : Bool
  pub public_ip : Text
  pub traefik_dir : Text
  pub nft_dir : Text

-- `throttled` is the map of throttled containers, `none` before the first pass.
pub record State (S : Type 0) : Type 0 where
  pub db : Db
  pub sys : S
  pub throttled : Option (List Text)

pub data MgrError : Type 0 where
  db_error : DbError → MgrError
  cpu_error : CpuError → MgrError
  domain_error : DomainError → MgrError
  ip_error : IpError → MgrError
  pool_error : PoolError → MgrError
  bad_name bad_memory bad_disk disk_shrinks user_exists pool_full conflict bad_image : MgrError
  unknown_action forwarding_off domain_bound script_too_large bad_password bad_traffic : MgrError
  -- a call failed; a call failed and what was done before could not all be undone
  call_failed rollback_partial : MgrError

pub data Outcome {ℓ} (A : Type ℓ) : Type ℓ where
  ok : A → Outcome A
  err : MgrError → Outcome A

-- the outcome of an operation that returns only an error
abbrev pub Done : Type 0
Done = Outcome (Unit {0})
