-- ===== src/Host.antt =====
-- The calls with which the program reaches the host: LXD's REST API (src/internal/lx), files
-- (src/internal/tfx, src/internal/fw), systemctl and nft. They are an interface over a state `S` of
-- the host: what a call answers, and how it leaves the host, is the host's.
pub mod Lx
pub mod Files
pub mod Laws
use lxc_hosting.Base.{ℕ, Bool, true, false, Text, Map, Option}

-- an LXD instance, as far as the program reads and writes it
pub record Instance : Type 0 where
  pub status : Text
  pub config : Map Text
  pub devices : Map (Map Text)

pub data Lookup : Type 0 where
  found : Instance → Lookup
  not_found unreachable : Lookup

pub data Removal : Type 0 where
  removed not_exist failed : Removal

-- One container of a snapshot of all of them (lx.ContainerInfo); the counters are not negative.
pub record ContainerInfo : Type 0 where
  pub status : Text
  pub processes : ℕ
  pub rx : ℕ
  pub tx : ℕ

-- `true` is success, `false` an error.
pub record Calls (S : Type 0) : Type 0 where
  -- GET /1.0/instances/<name>?recursion=1
  pub get_instance : Text → S → Lookup × S
  -- PATCH with a "config" object, and with a "devices" object
  pub patch_config : Text → Map Text → S → Bool × S
  pub patch_devices : Text → Map (Map Text) → S → Bool × S
  -- PUT .../state with an action
  pub put_state : Text → Text → S → Bool × S
  -- POST /1.0/instances: the name, the image alias, the config and the devices
  pub create_instance : Text → Text → Map Text → Map (Map Text) → S → Bool × S
  pub delete_instance : Text → S → Bool × S
  -- the readiness probe, a script in the container, the user's init script
  pub wait_ready : Text → S → Bool × S
  pub exec_sh : Text → Text → S → Bool × S
  pub run_init_script : Text → Text → S → Bool × S
  -- an alias of an image; the instances with their static addresses
  pub image_exists : Text → S → Bool × S
  pub instance_static_ips : S → Option (Map Text) × S
  -- all containers: the list and a state read for each
  pub snapshot : S → Option (Map ContainerInfo) × S
  -- the pool is less than 90% full, or its usage is unknown
  pub pool_has_room : S → Bool × S
  -- os.WriteFile, os.Rename, os.Remove; the names of the files of a directory
  pub write_file : Text → Text → S → Bool × S
  pub rename : Text → Text → S → Bool × S
  pub remove_file : Text → S → Removal × S
  pub read_dir : Text → S → Option (Map Bool) × S
  -- nft -f, systemctl, the ndppd rules of a user, SQLite's own I/O
  pub nft_reload : S → Bool × S
  pub systemctl : Text → Text → S → Bool × S
  pub wire_ipv6 : Text → S → Bool × S
  pub unwire_ipv6 : Text → S → S
  pub configure_ipv6 : Text → S → Bool × S
  pub write_db : S → Bool × S

-- `if err := call(); err != nil { … }`: what follows on success, and what on an error
abbrev pub on_success {ℓ} : {S : Type 0} {B : Type ℓ} → Bool × S → (S → B) → (S → B) → B
on_success (true, s) good bad = good s
on_success (false, s) good bad = bad s
