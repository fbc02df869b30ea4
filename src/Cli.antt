-- ===== src/Cli.antt =====
-- The commands for users of the command line (src/main.go: userAdd, userQuota, userDel, userPasswd,
-- userPower, cmdAdminPasswd), from the parsed flags and what is typed at the terminal. What they
-- print, and errors of loading the configuration or opening the database, are not modelled.
use lxc_hosting.Base.{
  ℕ, Bool, true, false, not, ◌&&◌, ◌||◌, ltb, ◌==◌, if◌then◌else◌, Text, Option, none, some,
}
use lxc_hosting.Names.{validate_name}
use lxc_hosting.Std.Int64.{int_lt}
use lxc_hosting.Config.{is_set}
use lxc_hosting.Quota.Cpu.{CpuResult, parse_cpu}
use lxc_hosting.Quota.Cpu
use lxc_hosting.Quota.Sizes.{parse_mem_strict, parse_disk_strict}
use lxc_hosting.Quota.Throttle.{parse_traffic_gb}
use lxc_hosting.Db.{User, Db, DbResult}
use lxc_hosting.Db
use lxc_hosting.Db.Users.{get_user_by_name}
use lxc_hosting.Db.Settings.{set_setting}
use lxc_hosting.Host.{Calls}
use lxc_hosting.Mgr.{
  Config, State, MgrError, Outcome, ok, err, db_error, bad_name, disk_shrinks, bad_password,
}
use lxc_hosting.Mgr.Quotas.{update_quotas_and_traffic, power}
use lxc_hosting.Mgr.Accounts.{Draws, AddOptions, add, del}
use lxc_hosting.Mgr.Passwords.{reset_panel_password}
use lxc_hosting.Panels.Lang.{is_some}
use lxc_hosting.Panels.AdminPanel.{setting_admin_pass_hash}

-- The flags that were given. `asked` is what inter.Ask returns for each question at a terminal, a
-- text that its check accepts; `none` is an error.
pub record Flags : Type 0 where
  pub cpu : Option Text
  pub mem : Option Text
  pub disk : Option Text
  pub traffic : Option Text

pub record Terminal : Type 0 where
  pub is_tty : Bool
  pub asked : Flags

pub data CliError : Type 0 where
  of_manager : MgrError → CliError
  bad_cpu bad_mem bad_disk bad_traffic no_input nothing_to_update disabled : CliError

pub data CliResult {ℓ} (A : Type ℓ) : Type ℓ where
  done : A → CliResult A
  failed : CliError → CliResult A

-- Values that are not positive stand on 0, as the operations of the manager take them.
abbrev pub or_zero : ℕ → ℕ
or_zero n = if int_lt 0 n then n else 0

abbrev cpu_of : CpuResult ℕ → Option ℕ
cpu_of (Cpu.ok n) = some (or_zero n)
cpu_of (Cpu.err e) = none

unfoldable pub cpu_tenths : Text → Option ℕ
cpu_tenths s = cpu_of (parse_cpu s)

-- a flag, or what stands without it
abbrev pub flag_value : (Text → Option ℕ) → CliError → ℕ → Option Text → CliResult ℕ
flag_value parse e unset none = done unset
flag_value parse e unset (some s) = elim (parse s) [ none ↦ failed e | some n ↦ done n ]

-- the value of an accepted answer; an error of the second parse is ignored
abbrev or_nothing : Option ℕ → ℕ
or_nothing none = 0
or_nothing (some n) = n

abbrev answer_of : (Text → Option ℕ) → Option Text → CliResult ℕ
answer_of parse none = failed no_input
answer_of parse (some s) = done (or_nothing (parse s))

-- `if inter.IsTTY()` and the flag is not given: the question
abbrev pub or_asked : Bool → (Text → Option ℕ) → Option Text → Option Text → ℕ → CliResult ℕ
or_asked true parse none answer n = answer_of parse answer
or_asked true parse (some s) answer n = done n
or_asked false parse flag answer n = done n

infixl 5 ◌>>=◌
abbrev pub ◌>>=◌ {ℓ κ} : {A : Type ℓ} {B : Type κ} → CliResult A → (A → CliResult B) → CliResult B
done a >>= f = f a
failed e >>= f = failed e

-- All four values: the flags are read first, and what is missing is asked for in the same order.
unfoldable pub read_values : Terminal → Flags → AddOptions → CliResult AddOptions
unfolding cpu_tenths
read_values t f unset = do
  cpu ← flag_value cpu_tenths bad_cpu unset.cpu f.cpu
  mem ← flag_value parse_mem_strict bad_mem unset.mem_mb f.mem
  disk ← flag_value parse_disk_strict bad_disk unset.disk_gb f.disk
  traffic ← flag_value parse_traffic_gb bad_traffic unset.traffic_gb f.traffic
  cpu' ← or_asked t.is_tty cpu_tenths f.cpu t.asked.cpu cpu
  mem' ← or_asked t.is_tty parse_mem_strict f.mem t.asked.mem mem
  disk' ← or_asked t.is_tty parse_disk_strict f.disk t.asked.disk disk
  traffic' ← or_asked t.is_tty parse_traffic_gb f.traffic t.asked.traffic traffic
  done (record { cpu = cpu'; mem_mb = mem'; disk_gb = disk'; traffic_gb = traffic' })

-- what a command returns, from the outcome of the manager
abbrev pub outcome {ℓ} : {A : Type ℓ} {S : Type 0} → Outcome A × State S → CliResult A × State S
outcome (ok a, m) = (done a, m)
outcome (err e, m) = (failed (of_manager e), m)

abbrev default_options : AddOptions
default_options = record { cpu = 10; mem_mb = 1024; disk_gb = 10; traffic_gb = 0 }

module _ {S : Type 0} (h : Calls S) (cfg : Config) where
  abbrev add_options : State S → Text → Draws → CliResult AddOptions → CliResult User × State S
  add_options m name d (failed e) = (failed e, m)
  add_options m name d (done opt) = outcome (add h cfg m name opt d)

  unfoldable pub user_add : State S → Text → Terminal → Flags → Draws → CliResult User × State S
  unfolding read_values
  user_add m name t f d =
      if not (validate_name name)
      then (failed (of_manager bad_name), m)
      else add_options m name d (read_values t f default_options)

  unfoldable pub user_del : State S → Text → CliResult (Unit {0}) × State S
  user_del m name = outcome (del h cfg m name)

  unfoldable pub user_power : State S → Text → Text → CliResult (Unit {0}) × State S
  user_power m action name = outcome (power h m name action)

  -- the quotas that the user has
  abbrev pub quotas_now : User → AddOptions
  quotas_now u = record {
    cpu = u.cpu;
    mem_mb = u.mem_mb;
    disk_gb = u.disk_gb;
    traffic_gb = u.traffic_quota_gb;
  }

  -- whether a bandwidth was given, or has changed
  abbrev pub traffic_changed : User → Flags → AddOptions → Bool
  traffic_changed u f opt = is_some f.traffic || not (opt.traffic_gb == u.traffic_quota_gb)

  abbrev pub is_unchanged : User → Flags → AddOptions → Bool
  is_unchanged u f opt =
      opt.cpu == u.cpu
      && opt.mem_mb == u.mem_mb
      && opt.disk_gb == u.disk_gb
      && not (traffic_changed u f opt)

  abbrev pub quota_values :
      State S
      → Text
      → Terminal
      → Flags
      → User
      → CliResult AddOptions
      → CliResult (Unit {0}) × State S
  quota_values m name t f u (failed e) = (failed e, m)
  quota_values m name t f u (done opt) =
      if is_unchanged u f opt
      then ((if t.is_tty then done tt else failed nothing_to_update), m)
      else if ltb opt.disk_gb u.disk_gb
      then (failed (of_manager disk_shrinks), m)
      else outcome (
          update_quotas_and_traffic h m name opt.cpu opt.mem_mb opt.disk_gb
            (some (if traffic_changed u f opt then opt.traffic_gb else u.traffic_quota_gb)))

  abbrev pub quota_of_user :
      State S → Text → Terminal → Flags → DbResult User → CliResult (Unit {0}) × State S
  quota_of_user m name t f (Db.err e) = (failed (of_manager (db_error e)), m)
  quota_of_user m name t f (Db.ok u) = quota_values m name t f u (read_values t f (quotas_now u))

  unfoldable pub user_quota : State S → Text → Terminal → Flags → CliResult (Unit {0}) × State S
  unfolding read_values
  user_quota m name t f =
      if not (validate_name name)
      then (failed (of_manager bad_name), m)
      else quota_of_user m name t f (get_user_by_name m.db name)

module _ {S : Type 0} (hash : Text → Option Text) where
  unfoldable pub user_passwd : State S → Text → Text → CliResult (Unit {0}) × State S
  user_passwd m name pass =
      if not (validate_name name)
      then (failed (of_manager bad_name), m)
      else outcome (reset_panel_password hash m name pass)

  abbrev admin_hash : State S → Option Text → CliResult (Unit {0}) × State S
  admin_hash m none = (failed (of_manager bad_password), m)
  admin_hash m (some pass_hash) =
      (done tt, record m { db = set_setting m.db setting_admin_pass_hash pass_hash })

  -- cmdAdminPasswd, with the password that it generates; the sessions of the panel are not touched.
  unfoldable pub admin_passwd : Text → State S → Text → CliResult (Unit {0}) × State S
  admin_passwd admin_path m pass =
      if not (is_set admin_path) then (failed disabled, m) else admin_hash m (hash pass)
