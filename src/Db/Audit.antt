-- ===== src/Db/Audit.antt =====
-- The audit log (src/internal/db/audit.go).
pub mod Retention
use lxc_hosting.Base.{
  ℕ, zero, suc, ◌+◌, Bool, true, false, List, [], ◌∷◌, ◌++◌, leb, ltb, ◌==◌, if◌then◌else◌, Text,
  Option, none, some, delete_where, sort_by, length, take, drop,
}
use lxc_hosting.Db.{AuditLog, Db}

abbrev pub audit_retention : ℕ
audit_retention = 5000

-- SELECT MIN(id)
unfoldable pub min_id : AuditLog → List AuditLog → ℕ
min_id a [] = a.id
min_id a (b ∷ rows) = let m = min_id b rows in if ltb a.id m then a.id else m

unfoldable pub drop_oldest : List AuditLog → List AuditLog
unfolding min_id
drop_oldest [] = []
drop_oldest (a ∷ rows) = delete_where (λ x. x.id == min_id a rows) (a ∷ rows)

unfoldable pub prune : List AuditLog → List AuditLog
unfolding drop_oldest
prune rows = if leb (length rows) audit_retention then rows else drop_oldest rows

unfoldable pub add_audit_log : Db → Text → Text → Text → Db
unfolding prune
add_audit_log db actor action now = record db {
  audit_log = prune (
      db.audit_log
      ++ record { id = db.next_audit; actor = actor; action = action; created_at = now } ∷ []);
  next_audit = db.next_audit + 1;
}

-- ORDER BY id DESC LIMIT limit OFFSET offset
unfoldable pub list_audit_log : Db → ℕ → ℕ → List AuditLog
list_audit_log db offset limit =
    take limit (drop offset (sort_by (λ x y. ltb y.id x.id) db.audit_log))

unfoldable pub audit_count : Db → ℕ
audit_count db = length db.audit_log
