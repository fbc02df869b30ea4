-- ===== src/Mgr/Quotas/Reasons.antt =====
-- Why UpdateQuotas (src/internal/mgr/mgr.go) can end with an error.
use lxc_hosting.Base.{ℕ, ◌≡◌, refl, Bool, true, false, ◌&&◌, List, ◌∷◌, [], ltb}
use lxc_hosting.Quota.Cpu.{CpuError}
use lxc_hosting.Quota.Cpu
use lxc_hosting.Db.{User, Db}
use lxc_hosting.Host.{Calls, on_success}
use lxc_hosting.Host.Lx.{set_cpu, set_mem, set_disk}
use lxc_hosting.Mgr.{
  MgrError, Outcome, ok, err, cpu_error, disk_shrinks, call_failed, rollback_partial,
}
use lxc_hosting.Mgr.Quotas.{rollback, failing, change, apply_quotas, cpu_check}

-- One of the requests for the new values fails in some state of the host, where that value is positive
-- and so is sent, or the UPDATE fails in some state.
pub data Fails {S : Type 0} (h : Calls S) (u : User) (cpu mem_mb disk_gb : ℕ) : Type 0 where
  fails_cpu :
      (s : S) → ltb 0 cpu ≡ true → (set_cpu h u.name cpu s).0 ≡ false → Fails h u cpu mem_mb disk_gb
  fails_mem :
      (s : S)
      → ltb 0 mem_mb ≡ true
      → (set_mem h u.name mem_mb s).0 ≡ false
      → Fails h u cpu mem_mb disk_gb
  fails_disk :
      (s : S)
      → ltb 0 disk_gb ≡ true
      → (set_disk h u.name disk_gb s).0 ≡ false
      → Fails h u cpu mem_mb disk_gb
  fails_write : (s : S) → (h.write_db s).0 ≡ false → Fails h u cpu mem_mb disk_gb

pub data Reason {S : Type 0} (h : Calls S) (u : User) (cpu mem_mb disk_gb : ℕ)
    : MgrError → Type 0 where
  refuses_cpu :
      (e : CpuError) → cpu_check h cpu ≡ Cpu.err e → Reason h u cpu mem_mb disk_gb (cpu_error e)
  refuses_disk :
      (ltb 0 disk_gb && ltb disk_gb u.disk_gb) ≡ true → Reason h u cpu mem_mb disk_gb disk_shrinks
  failed_call : Fails h u cpu mem_mb disk_gb → Reason h u cpu mem_mb disk_gb call_failed
  failed_rollback : Fails h u cpu mem_mb disk_gb → Reason h u cpu mem_mb disk_gb rollback_partial

module _ {S : Type 0} (h : Calls S) (u : User) (cpu mem_mb disk_gb : ℕ) where
  -- an error has a reason
  abbrev pub Explained : {A : Type 0} → Outcome A → Type 0
  Explained (ok a) = Unit {0}
  Explained (err e) = Reason h u cpu mem_mb disk_gb e

  failing-Explained :
      (A : Type 0) (c : Bool × S)
      → Fails h u cpu mem_mb disk_gb
      → Explained {A = A} (failing {A = A} c).0
  failing-Explained A (true, s) f = failed_call f
  failing-Explained A (false, s) f = failed_rollback f

  acted-Explained :
      {A : Type 0} (c : Bool × S) (undo : List (S → Bool × S)) (good : S → Outcome A × S)
      → (c.0 ≡ false → Fails h u cpu mem_mb disk_gb)
      → ((s : S) → Explained (good s).0)
      → Explained (on_success c good (λ s. failing (rollback undo s))).0
  acted-Explained (true, s) undo good f k = k s
  acted-Explained (false, s) undo good f k = failing-Explained _ (rollback undo s) (f refl)

  change-Explained :
      {A : Type 0} (on : Bool) (act back : S → Bool × S) (undo : List (S → Bool × S)) (s : S)
      (rest : List (S → Bool × S) → S → Outcome A × S)
      → (on ≡ true → (act s).0 ≡ false → Fails h u cpu mem_mb disk_gb)
      → ((undo' : List (S → Bool × S)) (s' : S) → Explained (rest undo' s').0)
      → Explained (change on act back undo s rest).0
  change-Explained false act back undo s rest f k = k undo s
  change-Explained true act back undo s rest f k =
      acted-Explained (act s) undo (rest (back ∷ undo)) (f refl) (k (back ∷ undo))

  pub apply_quotas-Explained :
      (db : Db) (s : S) → Explained (apply_quotas h db u cpu mem_mb disk_gb s).0
  unfolding apply_quotas
  apply_quotas-Explained db s =
      change-Explained (ltb 0 cpu) (set_cpu h u.name cpu) (set_cpu h u.name u.cpu) [] s _
        (λ p q. fails_cpu s p q)
        (λ undo1 s1.
          change-Explained (ltb 0 mem_mb) (set_mem h u.name mem_mb) (set_mem h u.name u.mem_mb)
            undo1 s1 _ (λ p q. fails_mem s1 p q)
            (λ undo2 s2.
              change-Explained (ltb 0 disk_gb) (set_disk h u.name disk_gb)
                (set_disk h u.name u.disk_gb) undo2 s2 _ (λ p q. fails_disk s2 p q)
                (λ undo3 s3.
                  acted-Explained (h.write_db s3) undo3 _ (λ q. fails_write s3 q) (λ s'. tt))))
