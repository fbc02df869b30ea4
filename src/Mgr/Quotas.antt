-- ===== src/Mgr/Quotas.antt =====
-- UpdateQuotas, UpdateQuotasAndTraffic, SetInitScript and Power (src/internal/mgr/mgr.go).
pub mod Effects
pub mod Agree
pub mod Reasons
use lxc_hosting.Base.{
  ℕ, Bool, true, false, ◌&&◌, List, [], ◌∷◌, ltb, if◌then◌else◌, Text, text_eq, codes, Option, none,
  some, ◌*◌,
}
use lxc_hosting.Std.Strings.{byte_length}
use lxc_hosting.Quota.Cpu.{validate_cpu, CpuResult}
use lxc_hosting.Quota.Cpu
use lxc_hosting.Db.{User, Db, DbResult}
use lxc_hosting.Db
use lxc_hosting.Db.Users.{get_user_by_name, update_quotas, update_traffic_quota, update_init_script}
use lxc_hosting.Host.{Calls, on_success}
use lxc_hosting.Host.Lx.{set_cpu, set_mem, set_disk, set_autostart, start, stop, restart}
use lxc_hosting.Mgr.{
  State, MgrError, Outcome, Done, ok, err, db_error, cpu_error, disk_shrinks, unknown_action,
  script_too_large, call_failed, rollback_partial,
}

abbrev both : {S : Type 0} → Bool → Bool × S → Bool × S
both a r = (a && r.0, r.1)

-- The undo functions, the newest first; whether all of them succeeded.
unfoldable pub rollback : {S : Type 0} → List (S → Bool × S) → S → Bool × S
rollback [] s = (true, s)
rollback (f ∷ undo) s = both (f s).0 (rollback undo (f s).1)

-- `fail`: roll back, and say so if a rollback failed
abbrev pub failing : {S : Type 0} {A : Type 0} → Bool × S → Outcome A × S
failing (true, s) = (err call_failed, s)
failing (false, s) = (err rollback_partial, s)

-- One `if value > 0 { … }` of UpdateQuotas: the change is made, or everything is rolled back, or the
-- inverse is pushed on the undo list.
abbrev pub change :
    {S A : Type 0}
    → Bool
    → (S → Bool × S)
    → (S → Bool × S)
    → List (S → Bool × S)
    → S
    → (List (S → Bool × S) → S → Outcome A × S)
    → Outcome A × S
change false act back undo s rest = rest undo s
change true act back undo s rest =
    on_success (act s) (rest (back ∷ undo)) (λ s'. failing (rollback undo s'))

abbrev pub chosen : ℕ → ℕ → ℕ
chosen old new = if ltb 0 new then new else old

-- UPDATE users, behind the LXD changes
abbrev pub commit : {S : Type 0} → Calls S → Db → User → List (S → Bool × S) → S → Outcome Db × S
commit h db u undo s =
    on_success (h.write_db s) (λ s'. (ok (update_quotas db u.id u.cpu u.mem_mb u.disk_gb), s'))
      (λ s'. failing (rollback undo s'))

module _ {S : Type 0} (h : Calls S) where
  -- A value that is 0 stands for every value that is not positive.
  unfoldable pub apply_quotas : Db → User → ℕ → ℕ → ℕ → S → Outcome Db × S
  apply_quotas db u cpu mem_mb disk_gb s =
      change (ltb 0 cpu) (set_cpu h u.name cpu) (set_cpu h u.name u.cpu) [] s (λ undo1 s1.
        change (ltb 0 mem_mb) (set_mem h u.name mem_mb) (set_mem h u.name u.mem_mb) undo1 s1
          (λ undo2 s2.
            change (ltb 0 disk_gb) (set_disk h u.name disk_gb) (set_disk h u.name u.disk_gb) undo2
              s2
              (commit h db (record u {
                cpu = chosen u.cpu cpu;
                mem_mb = chosen u.mem_mb mem_mb;
                disk_gb = chosen u.disk_gb disk_gb;
              }))))

  abbrev pub settle : State S → Outcome Db × S → Done × State S
  settle m (ok db, s) = (ok tt, record m { db = db; sys = s })
  settle m (err e, s) = (err e, record m { sys = s })

  abbrev pub cpu_check : ℕ → CpuResult (Unit {0})
  cpu_check cpu = if ltb 0 cpu then validate_cpu cpu else Cpu.ok tt

  -- `disk can only grow`
  abbrev pub or_shrinks : Bool → State S → Done × State S → Done × State S
  or_shrinks true m r = (err disk_shrinks, m)
  or_shrinks false m r = r

  abbrev pub quotas_checked : State S → User → ℕ → ℕ → ℕ → CpuResult (Unit {0}) → Done × State S
  quotas_checked m u cpu mem_mb disk_gb (Cpu.err e) = (err (cpu_error e), m)
  quotas_checked m u cpu mem_mb disk_gb (Cpu.ok _) =
      or_shrinks (ltb 0 disk_gb && ltb disk_gb u.disk_gb) m
        (settle m (apply_quotas m.db u cpu mem_mb disk_gb m.sys))

  abbrev pub quotas_of_user : State S → ℕ → ℕ → ℕ → DbResult User → Done × State S
  quotas_of_user m cpu mem_mb disk_gb (Db.err e) = (err (db_error e), m)
  quotas_of_user m cpu mem_mb disk_gb (Db.ok u) =
      quotas_checked m u cpu mem_mb disk_gb (cpu_check cpu)

  unfoldable pub update_quotas_live : State S → Text → ℕ → ℕ → ℕ → Done × State S
  update_quotas_live m name cpu mem_mb disk_gb =
      quotas_of_user m cpu mem_mb disk_gb (get_user_by_name m.db name)

  -- the old traffic quota again, after an error of the rest
  abbrev restore_traffic : User → Option ℕ → Done × State S → Done × State S
  restore_traffic u traffic_gb (ok tt, m) = (ok tt, m)
  restore_traffic u none (err e, m) = (err e, m)
  restore_traffic u (some gb) (err e, m) =
      (err e, record m { db = update_traffic_quota m.db u.id u.traffic_quota_gb })

  abbrev set_traffic : State S → User → Option ℕ → State S
  set_traffic m u none = m
  set_traffic m u (some gb) = record m { db = update_traffic_quota m.db u.id gb }

  abbrev quotas_and_traffic : State S → Text → ℕ → ℕ → ℕ → Option ℕ → DbResult User → Done × State S
  quotas_and_traffic m name cpu mem_mb disk_gb traffic_gb (Db.err e) = (err (db_error e), m)
  quotas_and_traffic m name cpu mem_mb disk_gb traffic_gb (Db.ok u) =
      restore_traffic u traffic_gb
        (update_quotas_live (set_traffic m u traffic_gb) name cpu mem_mb disk_gb)

  -- `none` is a negative traffic quota: unchanged.
  unfoldable pub update_quotas_and_traffic : State S → Text → ℕ → ℕ → ℕ → Option ℕ → Done × State S
  unfolding update_quotas_live
  update_quotas_and_traffic m name cpu mem_mb disk_gb traffic_gb =
      quotas_and_traffic m name cpu mem_mb disk_gb traffic_gb (get_user_by_name m.db name)

  abbrev done : State S → Bool × S → Done × State S
  done m (true, s) = (ok tt, record m { sys = s })
  done m (false, s) = (err call_failed, record m { sys = s })

  -- SetAutostart, then the action
  abbrev powered : Text → Bool → (S → Bool × S) → S → Bool × S
  powered name on act s = on_success (set_autostart h name on s) act (λ s'. (false, s'))

  abbrev power_of_user : State S → Text → DbResult User → Done × State S
  power_of_user m action (Db.err e) = (err (db_error e), m)
  power_of_user m action (Db.ok u) =
      if text_eq action (codes "start")
      then done m (powered u.name true (start h u.name) m.sys)
      else if text_eq action (codes "stop")
      then done m (powered u.name false (stop h u.name) m.sys)
      else if text_eq action (codes "restart")
      then done m (powered u.name true (restart h u.name) m.sys)
      else (err unknown_action, m)

  unfoldable pub power : State S → Text → Text → Done × State S
  power m name action = power_of_user m action (get_user_by_name m.db name)

  abbrev script_of_user : State S → Text → DbResult User → Done × State S
  script_of_user m script (Db.err e) = (err (db_error e), m)
  script_of_user m script (Db.ok u) = (ok tt, record m { db = update_init_script m.db u.id script })

  unfoldable pub set_init_script : State S → Text → Text → Done × State S
  set_init_script m name script =
      if ltb (64 * 1024) (byte_length script)
      then (err script_too_large, m)
      else script_of_user m script (get_user_by_name m.db name)
